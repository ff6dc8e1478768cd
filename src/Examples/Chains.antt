-- ===== src/Examples/Chains.antt =====
-- block_chain: the laws on a store whose indexes share their first two blocks.
use libbitcoin_blockchain.Prelude.{
  size_sub, work_mod, ℕ, ◌+◌, ◌-◌, ◌<◌, ◌≤◌, ◌≡◌, refl, Bool, true, false, ◌&&◌, some, none, [],
  ◌∷◌, arith, leb, ltb, if◌then◌else◌, min,
}
use libbitcoin_blockchain.System.{Header, Code, ChainState, success, operation_failed}
use libbitcoin_blockchain.Chain.Database.{BlockResult, Database}
use libbitcoin_blockchain.Chain.Reader.{get_header, get_top_height, get_block_hash, get_work}
use libbitcoin_blockchain.Chain.Work.{total_work, Indexed, get_work-total, get_work_decides}
use libbitcoin_blockchain.Chain.Fork.{
  set_fork_point, common, Populated, IsFork, set_fork_point_lem, get_block_state, top_valid,
  top_valid_lem,
}
use libbitcoin_blockchain.Chain.Writer.{
  HeaderRef, BlockRef, BlockChain, Calls, done, last, reorganize_headers, reorganize_blocks,
}
use libbitcoin_blockchain.Chain.Writer.Invalidation.{Invalidated, invalidate_lem}
use libbitcoin_blockchain.Chain.Writer.{invalidate}
use libbitcoin_blockchain.Chain.Writer.Laws.{
  reorganize_headers_lem, reorganize_headers_fails, Unchanged,
}
use libbitcoin_blockchain.Chain.Startup
use libbitcoin_blockchain.Chain.Startup.Ready.{IsStored, IsReady, start_lem}
use libbitcoin_blockchain.Pools.HeaderPool.{remove, add}
use libbitcoin_blockchain.Pools.HeaderPool.Links.{IsTidy}
use libbitcoin_blockchain.Pools.HeaderPool.Pruning.{IsPruned}
use libbitcoin_blockchain.Examples.Data.{header_of, forest, forest-IsTable, forest-IsTidy}

-- A block of some work at every height, the same on both indexes up to height 1.
abbrev result_at : ℕ → Bool → BlockResult
result_at height candidate = record {
  header = header_of (if candidate && ltb 1 height then height + 50 else height) 0;
  height = height;
  state = height;
  error = success;
  transaction_count = 1;
  neutrino_filter = 0;
}

abbrev pub store : Database
store = record {
  top = λ candidate. some (if candidate then 3 else 2);
  at_height = λ height candidate. some (result_at height candidate);
  by_hash = λ hash. none;
  filter = λ link. none;
}

pub store-Indexed : (above top : ℕ) → Indexed store above true top
store-Indexed above top h a b = (result_at h true, refl)

store-Populated : Populated store 2
unfolding get_block_hash
store-Populated h l = ((result_at h true).header.hash, (result_at h false).header.hash, refl, refl)

get_work-total_test :
    get_work (λ bits. bits) store 0 1 true ≡ some (total_work (λ bits. bits) store 1 true 3)
unfolding total_work
get_work-total_test =
    get_work-total (λ bits. bits) store 1 true 3 refl (store-Indexed 1 3) (omega arith)

get_work_decides_example :
    (required : ℕ) × (get_work (λ bits. bits) store 40 1 true ≡ some required)
    × (leb 40 required ≡ leb 40 (total_work (λ bits. bits) store 1 true 3))
unfolding total_work
get_work_decides_example =
    get_work_decides (λ bits. bits) store 1 true 40 3 refl (store-Indexed 1 3) (omega arith)

-- The first of the two works is enough, so that the second is not added.
get_work_test : get_work (λ bits. bits) store 40 1 true ≡ some 53
unfolding get_work
get_work_test = refl

set_fork_point_lem_test :
    (hash : ℕ) × (fork : ℕ) × (set_fork_point store ≡ some (common (some hash) fork))
    × IsFork store (min 3 2) hash fork
unfolding get_block_hash
set_fork_point_lem_test = set_fork_point_lem store 3 2 refl refl store-Populated refl

set_fork_point_test : set_fork_point store ≡ some (common (some 1) 1)
unfolding set_fork_point
set_fork_point_test = refl

top_valid_lem_test :
    (height : ℕ) × (top_valid (λ state. ltb state 2) 9 store 3 ≡ some height)
    × (height ≤ 3)
    × (ltb (get_block_state 9 store height true) 2 ≡ true)
    × ((h : ℕ) → height < h → h ≤ 3 → ltb (get_block_state 9 store h true) 2 ≡ false)
unfolding get_block_state
top_valid_lem_test = top_valid_lem (λ state. ltb state 2) 9 store 3 refl

abbrev state_of : ℕ → ℕ → ChainState
state_of hash height = record {
  hash = hash;
  height = height;
  is_stale = false;
  is_under_checkpoint = false;
}

abbrev tip : HeaderRef
tip = record { header = header_of 30 1; state = some (state_of 30 2) }

abbrev tip_block : BlockRef
tip_block = record { block = record { header = header_of 53 52 }; state = some (state_of 53 3) }

-- A store whose writers succeed and leave it as it is.
abbrev calls : Calls
calls = record {
  reorganize_headers = λ db fork incoming. (success, db, []);
  pop_headers = λ db fork outgoing. (success, db, outgoing);
  reorganize_blocks = λ db fork incoming. (success, db, []);
  candidate = λ db block. (success, db);
  invalidate = λ db header ec. (success, db);
  proof = λ bits. bits;
  floor_subtract = λ a b. a - b;
  next_state = λ state. record state { height = state.height + 1 };
  populate = λ db height candidate. some (state_of 1 height);
  get_candidate = λ db height. some (record { header = (result_at height true).header });
  get_validatable = λ db height. true;
  compute_filters = λ blocks. success;
}

abbrev failing : Calls
failing = record calls { reorganize_headers = λ db fork incoming. (operation_failed, db, []) }

abbrev node : BlockChain
node = record {
  database = store;
  fork_point = (1, 1);
  candidate_work = 105;
  confirmed_work = 2;
  top_candidate_state = none;
  top_valid_candidate_state = none;
  next_confirmed_state = none;
  last_confirmed_block = none;
  header_pool = forest;
  block_pool = record { maximum_size = 4; stopped = false; blocks = []; pending = [] };
  notified = [];
}

unmoved : (remove forest (header_of 30 1 ∷ [])).headers ≡ forest.headers
unfolding remove add
unmoved = refl

tip-IsTidy : IsTidy (remove forest (header_of 30 1 ∷ [])).headers
tip-IsTidy = rw unmoved forest-IsTidy

reorganize_headers_lem_example :
    (s' : BlockChain) × (reorganize_headers calls node (0, 0) (tip ∷ []) ≡ done success s')
    × (s'.fork_point ≡ (if ltb 0 1 then (0, 0) else (1, 1)))
    × (s'.top_candidate_state ≡ some (state_of 30 2))
    × IsPruned
        (2 - (remove forest (header_of 30 1 ∷ [])).maximum_depth)
        (remove forest (header_of 30 1 ∷ [])).headers
        s'.header_pool.headers
unfolding last
reorganize_headers_lem_example =
    reorganize_headers_lem calls node (0, 0) tip [] (state_of 30 2) store [] refl refl
      forest-IsTable tip-IsTidy

reorganize_headers_fails_example : Unchanged node node
unfolding reorganize_headers
reorganize_headers_fails_example =
    reorganize_headers_fails failing node (0, 0) (tip ∷ []) operation_failed node refl refl

headers_there : (h : ℕ) → 2 < h → h ≤ 3 → (x : Header) × (get_header store h true ≡ some x)
unfolding get_header
headers_there h a b = ((result_at h true).header, refl)

invalidate_lem_example :
    (ec : Code) × (s' : BlockChain) × (invalidate calls node (header_of 52 1) 2 ≡ done ec s')
    × Invalidated node (size_sub 2 1) ec s'
unfolding get_top_height get_block_hash
invalidate_lem_example =
    invalidate_lem calls node (header_of 52 1) 2 3 1 refl refl (omega arith) headers_there

abbrev startup : Startup.Env
startup = record {
  calls = calls;
  opens = true;
  organizers_start = true;
  is_valid = λ state. ltb state 2;
  missing_state = 9;
  populate_top = λ db candidate. some (state_of 1 (if candidate then 3 else 2));
}

store-fits :
    (fork : ℕ)
    → (total_work (λ bits. bits) store fork true 3 < work_mod)
      × (total_work (λ bits. bits) store fork false 2 < work_mod)
unfolding total_work
store-fits fork = (ground arith, ground arith)

store-IsStored : IsStored startup store 3 2
unfolding get_block_hash get_block_state
store-IsStored = record {
  candidate = refl;
  confirmed = refl;
  populated = store-Populated;
  genesis = refl;
  valid = refl;
  top_state = (state_of 1 3, refl);
  confirmed_state = (state_of 1 2, refl);
  states = λ height l. (state_of 1 height, refl);
  indexed = λ fork. (store-Indexed fork 3, λ h a b. (result_at h false, refl));
  fits = store-fits;
}

start_lem_example :
    (s : BlockChain) × (Startup.start startup node ≡ Startup.started true s)
    × IsReady startup store 3 2 s
start_lem_example = start_lem startup node 3 2 refl store-IsStored
