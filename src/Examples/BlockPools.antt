-- ===== src/Examples/BlockPools.antt =====
-- block_pool: the laws on a cache of two blocks over a chain that forks at height 4.
use libbitcoin_blockchain.Prelude.{
  ℕ, ◌+◌, ◌-◌, ◌≡◌, ◌⊎◌, List, refl, ◌≢◌, true, false, not, ◌&&◌, some, none, [], ◌∷◌, map, arith,
  leb, ◌==◌, elem, if◌then◌else◌,
}
use libbitcoin_blockchain.System.{Block, success, is_error}
use libbitcoin_blockchain.Pools.BlockPool.{
  arrive_section, take_section, schedule, Event, Fetched, Chain, BlockPool, read, subscribe, waits,
  handled, relay, has_hash, find, is_cached, add, add_all, get, in_scope, read_block, stored,
  null_dereference, handle_add, fetch,
}
use libbitcoin_blockchain.Pools.BlockPool.Cache.{IsCache}
use libbitcoin_blockchain.Pools.BlockPool.Scan.{wanted_range, pend, fetch_schedules}
use libbitcoin_blockchain.Pools.BlockPool.Effects.{
  adds-IsCache, find-add, get_lem, fetch-get, read_block_ends, handle_add_lem,
}
use libbitcoin_blockchain.Pools.BlockPool.Steps.{
  System, Section, taking, scanning, arriving, Run, rest, step, takes, scans, arrives, IsSound,
  Promises, view,
}
use libbitcoin_blockchain.Pools.BlockPool.Steps.Operations.{
  sections_of_add, sections_of_get, sections_of_fetch, operations-Promises,
}
use libbitcoin_blockchain.Pools.BlockPool.Steps.Refinement.{Run-Promises}
use libbitcoin_blockchain.Examples.Data.{header_of}

abbrev block_of : ℕ → Block
block_of hash = record { header = header_of hash (hash - 1) }

-- The store has a validatable candidate at every height.
abbrev chain : Chain
chain = record {
  fork_height = 4;
  get_candidate = λ height. some (block_of (height + 100));
  get_validatable = λ height. true;
}

abbrev bare_chain : Chain
bare_chain = record {
  fork_height = 4;
  get_candidate = λ height. none;
  get_validatable = λ height. true;
}

abbrev pair : BlockPool
pair = record {
  maximum_size = 4;
  stopped = false;
  blocks =
      record { entry = record { hash = 105; block = block_of 105 }; height = 5 }
      ∷ record { entry = record { hash = 107; block = block_of 107 }; height = 7 }
      ∷ [];
  pending = 8 ∷ [];
}

pair-IsCache : IsCache pair.blocks
unfolding has_hash
pair-IsCache = record { ascends = (omega arith, (omega arith, tt)); distinct = (refl, (refl, tt)) }

enabled : pair.maximum_size ≢ 0
enabled e = absurd (omega arith)

fetch_schedules_example :
    let hs = wanted_range chain pair (4 + 4 + 1 - 6) 6 in
    fetch chain 6 pair 6
    ≡ some (record pair { pending = pend hs pair.pending }, subscribe 6 ∷ map read hs, waits)
unfolding find
fetch_schedules_example =
    fetch_schedules chain 6 pair 6 enabled refl (omega arith) (omega arith) (omega arith)

-- Of the heights 6 to 8 the cache holds 7 and 8 is pending.
fetch_test :
    fetch chain 6 pair 6
    ≡ some (record pair { pending = 6 ∷ 8 ∷ [] }, subscribe 6 ∷ read 6 ∷ [], waits)
unfolding fetch
fetch_test = refl

find-add_example :
    (find 6 (add chain pair (block_of 106) 6).0.blocks ≡ (
      if leb 6 4
      then none
      else if in_scope pair 4 6
          && 6 == 6
          && not (has_hash 106 pair.blocks)
          && not (is_cached (find 6 pair.blocks))
      then some (block_of 106)
      else find 6 pair.blocks))
    × ((add chain pair (block_of 106) 6).1
        ≡ (if in_scope pair 4 6 then relay success (some (block_of 106)) 6 ∷ [] else []))
find-add_example = find-add chain pair (block_of 106) 6 6 pair-IsCache enabled

adds-IsCache_test :
    IsCache (add chain pair (block_of 106) 6).0.blocks
    × IsCache (add_all pair (block_of 106 ∷ block_of 107 ∷ []) 6).0.blocks
adds-IsCache_test =
    adds-IsCache chain pair (block_of 106) (block_of 106 ∷ block_of 107 ∷ []) 6 pair-IsCache

get_lem_example :
    ((get chain pair 5).1
      ≡ (if is_cached (find 5 pair.blocks) then find 5 pair.blocks else some (block_of 105)))
    × (find 7 (get chain pair 5).0.blocks ≡ (if 5 == 7 then none else find 7 pair.blocks))
    × IsCache (get chain pair 5).0.blocks
get_lem_example = get_lem chain pair 5 7 pair-IsCache enabled

fetch-get_test :
    (fetch chain 6 pair 5 ≡ some ((get chain pair 5).0, [], handled success (some (block_of 105))))
    × ((get chain pair 5).1 ≡ some (block_of 105))
unfolding find
fetch-get_test = fetch-get chain 6 pair 5 (block_of 105) refl enabled

read_block_ends_test :
    (((pair.stopped ≡ true) ⊎ (chain.get_candidate 8 ≡ none))
      × (read_block chain pair 8 ≡ null_dereference))
    ⊎ ((pair.stopped ≡ false)
        × ((b : Block) × (p' : BlockPool) × (chain.get_candidate 8 ≡ some b)
            × (read_block chain pair 8 ≡ stored p' (relay success (some b) 8 ∷ []))
            × ((k : ℕ) → elem k p'.pending ≡ (not (8 == k) && elem k pair.pending))
            × ((k : ℕ)
                → find k p'.blocks ≡ (
                    if not (has_hash b.header.hash pair.blocks)
                      && not (is_cached (find 8 pair.blocks))
                      && 8 == k
                    then some b
                    else find k pair.blocks))
            × IsCache p'.blocks))
read_block_ends_test = read_block_ends chain pair 8 pair-IsCache

read_block_null_test : read_block bare_chain pair 8 ≡ null_dereference
unfolding read_block
read_block_null_test = refl

handle_add_lem_test :
    ((handle_add success (some (block_of 106)) 6 6).0 ≡ (not (is_error success) && not (6 == 6)))
    × ((handle_add success (some (block_of 106)) 6 6).1
        ≡ (if not (is_error success) && 6 == 6 then some (success, some (block_of 106)) else none))
handle_add_lem_test = handle_add_lem success (some (block_of 106)) 6 6

abbrev waiting : System
waiting = record { pool = pair; reads = 8 ∷ [] }

waiting-IsSound : IsSound waiting
waiting-IsSound = record { cache = pair-IsCache; pending = λ k. refl; once = λ k. ground arith }

-- After the fetch of 6 the read of 8 runs, then that of 6.
abbrev fetched : System
fetched = record { pool = record pair { pending = 6 ∷ 8 ∷ [] }; reads = 6 ∷ 8 ∷ [] }

abbrev half : System
half = record { pool = arrive_section fetched.pool 8 (block_of 108); reads = 6 ∷ [] }

abbrev settled : System
settled = record { pool = arrive_section half.pool 6 (block_of 106); reads = [] }

abbrev sections : List Section
sections =
    taking 6 none
    ∷ scanning chain 6 (6 ∷ [])
    ∷ arriving 8 (block_of 108)
    ∷ arriving 6 (block_of 106)
    ∷ []

waiting-settled : Run waiting sections settled
unfolding schedule take_section
waiting-settled = step waiting waiting settled _ _ (takes 6 waiting refl) (
    step waiting fetched settled _ _
      (scans chain 6 6 waiting fetched.pool (read 6 ∷ []) (omega arith) refl)
      (step fetched half settled _ _ (arrives 8 (block_of 108) (6 ∷ []) [] fetched.pool)
        (step half settled settled _ _ (arrives 6 (block_of 106) [] [] half.pool) (rest settled))))

Run-Promises_example : IsSound settled × Promises (view pair) sections (view settled.pool)
Run-Promises_example = Run-Promises waiting settled sections waiting-settled waiting-IsSound

operations-Promises_example :
    Promises
      (view pair)
      (sections_of_add chain pair (block_of 106) 6)
      (view (add chain pair (block_of 106) 6).0)
    × Promises (view pair) (sections_of_get pair 6) (view (get chain pair 6).0)
    × ((p : BlockPool) × (events : List Event) × (result : Fetched) × (fetch chain 6 pair 6
          ≡ some (p, events, result))
        × Promises (view pair) (sections_of_fetch chain pair 6 events) (view p))
operations-Promises_example =
    operations-Promises chain 6 6 (block_of 106) waiting (omega arith) (omega arith) waiting-IsSound
