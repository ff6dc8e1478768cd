-- ===== src/Pools/BlockPool/Steps.antt =====
-- block_pool under concurrency: its critical sections, one step each, in any order, and what the
-- pool is for its callers: a map of blocks at heights with a set of awaited heights.
pub mod Kept
pub mod Scanning
pub mod Refinement
pub mod Operations
use libbitcoin_blockchain.Prelude.{
  ℕ, ◌+◌, ◌<◌, ◌≤◌, ◌≡◌, Bool, true, false, not, ◌&&◌, ◌||◌, Option, none, some, List, [], ◌∷◌,
  ◌++◌, ltb, leb, ◌==◌, ◌-◌, if◌then◌else◌, elem, count, size_add, size_mod,
}
use libbitcoin_blockchain.System.{Block}
use libbitcoin_blockchain.Pools.BlockPool
use libbitcoin_blockchain.Pools.BlockPool.{
  Chain, BlockPool, Event, relay, subscribe, read, find, has_hash, is_cached, in_scope,
  insert_section, insert_all_section, purge_section, take_section, arrive_section, schedule,
}
use libbitcoin_blockchain.Pools.BlockPool.Cache.{IsCache}

-- The pool with the reads that are dispatched and have not run.
pub record System : Type 0 where
  pub pool : BlockPool
  pub reads : List ℕ

abbrev pub reads_of : List Event → List ℕ
reads_of [] = []
reads_of (read height ∷ rest) = height ∷ reads_of rest
reads_of (relay ec block height ∷ rest) = reads_of rest
reads_of (subscribe height ∷ rest) = reads_of rest

-- What a step does: start and stop, the two critical sections of add(block, height) with the fork
-- height that was read before them, that of add(blocks, first_height), that of get, which is the
-- first one of fetch, with the block that it finds, the second one of fetch with the reads that it
-- dispatches, and that of read_block, with the block that it has read.
pub data Section : Type 0 where
  starting stopping : Section
  inserting : (fork : ℕ) (b : Block) (height : ℕ) → Section
  purging : (fork : ℕ) → Section
  inserting_all : (bs : List Block) (first_height : ℕ) → Section
  taking : (height : ℕ) (found : Option Block) → Section
  scanning : (chain : Chain) (height : ℕ) (dispatched : List ℕ) → Section
  arriving : (height : ℕ) (b : Block) → Section

-- One critical section, under the conditions under which the code enters it. A dispatched read
-- arrives in any order, with any block that the store had for it.
pub data Step : System → Section → System → Type 0 where
  starts : (s : System) → Step s starting (record s { pool = BlockPool.start s.pool })
  stops : (s : System) → Step s stopping (record s { pool = (BlockPool.stop s.pool).0 })
  inserts :
      (fork : ℕ) (b : Block) (height : ℕ) (s : System)
      → in_scope s.pool fork height ≡ true
      → Step s (inserting fork b height) (record s { pool = insert_section s.pool b height })
  purges :
      (fork : ℕ) (s : System)
      → (s.pool.maximum_size == 0) ≡ false
      → Step s (purging fork) (record s { pool = purge_section fork s.pool })
  inserts_all :
      (bs : List Block) (first_height : ℕ) (s : System)
      → (s.pool.maximum_size == 0) ≡ false
      → Step s
          (inserting_all bs first_height)
          (record s { pool = insert_all_section s.pool bs first_height })
  takes :
      (height : ℕ) (s : System)
      → (s.pool.maximum_size == 0) ≡ false
      → Step s
          (taking height (take_section s.pool height).1)
          (record s { pool = (take_section s.pool height).0 })
  scans :
      (chain : Chain) (fuel height : ℕ) (s : System) (p : BlockPool) (events : List Event)
      → chain.fork_height + s.pool.maximum_size + 1 < size_mod
      → schedule chain fuel s.pool height ≡ some (p, events)
      → Step s
          (scanning chain height (reads_of events))
          (record { pool = p; reads = reads_of events ++ s.reads })
  arrives :
      (height : ℕ) (b : Block) (before after : List ℕ) (p : BlockPool)
      → Step
          (record { pool = p; reads = before ++ height ∷ after })
          (arriving height b)
          (record { pool = arrive_section p height b; reads = before ++ after })

pub data Run : System → List Section → System → Type 0 where
  rest : (s : System) → Run s [] s
  step :
      (s t u : System) (l : Section) (ls : List Section)
      → Step s l t
      → Run t ls u
      → Run s (l ∷ ls) u

-- The cache is well formed, the pending heights are those of the dispatched reads, and no height is
-- read twice at a time.
pub record IsSound (s : System) : Type 0 where
  pub cache : IsCache s.pool.blocks
  pub pending : (k : ℕ) → count k s.pool.pending ≡ count k s.reads
  pub once : (k : ℕ) → count k s.reads ≤ 1

-- What a caller sees of the pool: whether it is stopped, the bound on the heights above the fork
-- point, the block of each height, the hashes of the blocks, and the heights that are awaited.
pub record View : Type 0 where
  pub stopped : Bool
  pub size : ℕ
  pub block : ℕ → Option Block
  pub knows : ℕ → Bool
  pub awaited : ℕ → Bool

abbrev pub view : BlockPool → View
view p = record {
  stopped = p.stopped;
  size = p.maximum_size;
  block = λ k. find k p.blocks;
  knows = λ x. has_hash x p.blocks;
  awaited = λ k. elem k p.pending;
}

abbrev pub SameBlocks : View → View → Type 0
SameBlocks v w = ((k : ℕ) → w.block k ≡ v.block k) × ((x : ℕ) → w.knows x ≡ v.knows x)

abbrev pub SameAwaited : View → View → Type 0
SameAwaited v w = (k : ℕ) → w.awaited k ≡ v.awaited k

abbrev pub is_free : View → Block → ℕ → Bool
is_free v b height = not (v.knows b.header.hash) && not (is_cached (v.block height))

-- The block is put at the height if the height is free and its hash is not known, else nothing is.
abbrev pub Puts : Block → ℕ → View → View → Type 0
Puts b height v w =
    ((k : ℕ) → w.block k ≡ (if is_free v b height && height == k then some b else v.block k))
    × ((x : ℕ) → w.knows x ≡ (is_free v b height && b.header.hash == x || v.knows x))

-- The blocks are put at consecutive heights, one after another.
abbrev pub PutsAll : List Block → ℕ → View → View → Type 0
PutsAll [] height v w = SameBlocks v w
PutsAll (b ∷ bs) height v w = (u : View) × Puts b height v u × PutsAll bs (size_add height 1) u w

-- The blocks of some heights are gone; every other height has the block it had.
abbrev pub Drops : (ℕ → Bool) → View → View → Type 0
Drops gone v w =
    ((k : ℕ) → w.block k ≡ (if gone k then none else v.block k))
    × ((x : ℕ) → v.knows x ≡ false → w.knows x ≡ false)

-- The height is above the fork point by at most the size.
abbrev pub is_near : ℕ → View → ℕ → Bool
is_near fork v k = ltb fork k && leb (k - fork) v.size

-- The heights that a fetch of `height` requests: from that on in scope, if it is in scope, without
-- a block and validatable.
abbrev pub is_requested : Chain → ℕ → View → ℕ → Bool
is_requested chain height v k =
    leb height k
    && is_near chain.fork_height v height
    && is_near chain.fork_height v k
    && not (is_cached (v.block k))
    && chain.get_validatable k

-- What the pool promises for each section, and for no other.
abbrev pub Promise : Section → View → View → Type 0
Promise starting v w = SameBlocks v w × SameAwaited v w
Promise stopping v w = SameBlocks v w × SameAwaited v w
Promise (inserting fork b height) v w =
    (is_near fork v height ≡ true) × Puts b height v w × SameAwaited v w
Promise (purging fork) v w = Drops (λ k. leb k fork) v w × SameAwaited v w
Promise (inserting_all bs first_height) v w = PutsAll bs first_height v w × SameAwaited v w
Promise (taking height found) v w =
    (found ≡ v.block height) × Drops (λ k. height == k) v w × SameAwaited v w
Promise (scanning chain height dispatched) v w =
    SameBlocks v w
    × ((k : ℕ) → w.awaited k ≡ (v.awaited k || is_requested chain height v k))
    × ((k : ℕ) → elem k dispatched ≡ (not (v.awaited k) && is_requested chain height v k))
Promise (arriving height b) v w =
    (v.awaited height ≡ true)
    × Puts b height v w
    × ((k : ℕ) → w.awaited k ≡ (not (height == k) && v.awaited k))

-- Only start and stop change whether the pool is stopped.
abbrev pub stopped_after : Section → Bool → Bool
stopped_after starting stopped = false
stopped_after stopping stopped = true
stopped_after (inserting fork b height) stopped = stopped
stopped_after (purging fork) stopped = stopped
stopped_after (inserting_all bs first_height) stopped = stopped
stopped_after (taking height found) stopped = stopped
stopped_after (scanning chain height dispatched) stopped = stopped
stopped_after (arriving height b) stopped = stopped

-- A run of the abstract pool over the same sections; its size stays.
pub data Promises : View → List Section → View → Type 0 where
  same : (v : View) → Promises v [] v
  more :
      (u v w : View) (l : Section) (ls : List Section)
      → v.size ≡ u.size
      → v.stopped ≡ stopped_after l u.stopped
      → Promise l u v
      → Promises v ls w
      → Promises u (l ∷ ls) w
