-- ===== src/Chain/Writer.antt =====
-- block_chain.cpp, the writers of the fast chain: the header reorganization, the candidacy of a
-- block, the block reorganization and the invalidation of a candidate, with the state in memory
-- that they keep beside the database. Loads and stores of the atomic members are reads and
-- writes of the state; notifications are the list of what subscribers are given.
pub mod Laws
pub mod Gathering
pub mod Blocks
pub mod Invalidation
use libbitcoin_blockchain.Prelude.{
  ℕ, zero, suc, ◌+◌, ◌-◌, ◌≡◌, Bool, true, false, Option, none, some, List, [], ◌∷◌, ◌++◌, leb, ltb,
  ◌==◌, if◌then◌else◌, size_add, size_sub, work_add, map,
}
use libbitcoin_blockchain.System.{
  Header, Block, Code, ChainState, success, operation_failed, store_block_missing_parent, is_error,
}
use libbitcoin_blockchain.Chain.Database.{Database}
use libbitcoin_blockchain.Chain.Reader.{get_work, get_top_height, get_header, get_block_hash}
use libbitcoin_blockchain.Pools.HeaderPool
use libbitcoin_blockchain.Pools.HeaderPool.{HeaderPool, Pruned, pruned}
use libbitcoin_blockchain.Pools.BlockPool
use libbitcoin_blockchain.Pools.BlockPool.{BlockPool, Chain}

-- A header or a block with the part of its metadata that the writers read.
pub record HeaderRef : Type 0 where
  pub header : Header
  pub state : Option ChainState

pub record BlockRef : Type 0 where
  pub block : Block
  pub state : Option ChainState

pub data Notification : Type 0 where
  headers_changed : ℕ → List Header → List Header → Notification
  blocks_changed : ℕ → List Block → List Block → Notification

pub record BlockChain : Type 0 where
  pub database : Database
  pub fork_point : ℕ × ℕ
  pub candidate_work : ℕ
  pub confirmed_work : ℕ
  pub top_candidate_state : Option ChainState
  pub top_valid_candidate_state : Option ChainState
  pub next_confirmed_state : Option ChainState
  pub last_confirmed_block : Option BlockRef
  pub header_pool : HeaderPool
  pub block_pool : BlockPool
  pub notified : List Notification

-- What the writers call and this module does not define. The database's writers return a code, the
-- database as they leave it and, for a reorganization, what it put out; `pop_headers` is the
-- reorganization with nothing incoming. `proof`, `floor_subtract`
-- and `next_state` are libbitcoin-system's; `populate` is chain_state_populator_, `get_candidate`
-- the deserialization of a stored block, and `compute_filters` populate_neutrino_filters.
pub record Calls : Type 0 where
  pub reorganize_headers : Database → ℕ × ℕ → List Header → Code × Database × List Header
  pub pop_headers : Database → ℕ × ℕ → List Header → Code × Database × List Header
  pub reorganize_blocks : Database → ℕ × ℕ → List Block → Code × Database × List Block
  pub candidate : Database → Block → Code × Database
  pub invalidate : Database → Header → Code → Code × Database
  pub proof : ℕ → ℕ
  pub floor_subtract : ℕ → ℕ → ℕ
  pub next_state : ChainState → ChainState
  pub populate : Database → ℕ → Bool → Option ChainState
  pub get_candidate : Database → ℕ → Option Block
  pub get_validatable : Database → ℕ → Bool
  pub compute_filters : List Block → Code

-- What a writer ends in: a code and the state, or undefined behaviour in a pool.
pub data Outcome : Type 0 where
  done : Code → BlockChain → Outcome
  undefined : Outcome

unfoldable pub is_reorganizable : BlockChain → Bool
is_reorganizable s = ltb s.confirmed_work s.candidate_work

unfoldable pub last : {A : Type 0} → A → List A → A
last x [] = x
last x (y ∷ rest) = last y rest

abbrev pub prepend : Block → BlockPool × Option (List Block) → BlockPool × Option (List Block)
prepend b (p, none) = (p, none)
prepend b (p, some bs) = (p, some (b ∷ bs))

-- The loop that gets `count` candidates from `height` on.
unfoldable pub gather : Chain → ℕ → BlockPool → ℕ → BlockPool × Option (List Block)
gather chain zero p height = (p, some [])
gather chain (suc count) p height =
    let (p', found) = BlockPool.get chain p height in
    elim found [ none ↦ (p', none) | some b ↦ prepend b (gather chain count p' (height + 1)) ]

module _ (calls : Calls) where
  -- set_confirmed_work(): nothing is stored where get_work fails.
  unfoldable pub set_confirmed_work : BlockChain → BlockChain
  set_confirmed_work s = elim (get_work calls.proof s.database 0 s.fork_point.1 false) [
    | none ↦ s
    | some work ↦ record s { confirmed_work = work }
  ]

  -- The body of `if (fork_point().height() > fork_height)`.
  unfoldable pub lower_fork_point : BlockChain → ℕ × ℕ → BlockChain
  unfolding set_confirmed_work
  lower_fork_point s fork =
      let s' = set_confirmed_work (record s { fork_point = fork }) in
      record s' {
        top_valid_candidate_state = calls.populate s'.database fork.1 true;
        candidate_work = 0;
      }

  -- From the outcome of the header pool's prune on.
  unfoldable pub finish_headers :
      BlockChain → ℕ × ℕ → List Header → List Header → ChainState → Pruned → Outcome
  unfolding lower_fork_point
  finish_headers s fork incoming outgoing top_state (pruned nodes) =
      let s' = record s { header_pool = record s.header_pool { headers = nodes } } in
      let s'' = if ltb fork.1 s'.fork_point.1 then lower_fork_point s' fork else s' in
      done success (record s'' {
        top_candidate_state = some top_state;
        notified = s''.notified ++ headers_changed fork.1 incoming outgoing ∷ [];
      })
  finish_headers s fork incoming outgoing top_state Pruned.fault = undefined
  finish_headers s fork incoming outgoing top_state Pruned.out_of_fuel = undefined

  -- After the database's reorganization, with its code and what it put out. The fuel of prune is
  -- one more than the number of entries.
  unfoldable pub after_headers :
      BlockChain → ℕ × ℕ → List Header → ChainState → Code × Database × List Header → Outcome
  unfolding finish_headers
  after_headers s fork incoming top_state (ec, db, outgoing) =
      let s' = record s { database = db } in
      let pool = HeaderPool.remove s.header_pool incoming in
      let outcome =
        HeaderPool.prune calls.floor_subtract (suc (HeaderPool.size pool)) pool top_state.height in
      let rest =
        finish_headers (record s' { header_pool = pool }) fork incoming outgoing top_state
          outcome in
      if is_error ec then done ec s' else rest

  abbrev with_top_state : BlockChain → Option ChainState → (ChainState → Outcome) → Outcome
  with_top_state s none f = done operation_failed s
  with_top_state s (some state) f = f state

  -- reorganize(fork, incoming), for headers
  unfoldable pub reorganize_headers : BlockChain → ℕ × ℕ → List HeaderRef → Outcome
  unfolding after_headers last
  reorganize_headers s fork [] = done operation_failed s
  reorganize_headers s fork (h ∷ rest) =
      let incoming = map (λ x. x.header) (h ∷ rest) in
      with_top_state s (last h rest).state λ top_state.
        after_headers s fork incoming top_state (calls.reorganize_headers s.database fork incoming)

  -- candidate(block)
  unfoldable pub candidate : BlockChain → BlockRef → Code × BlockChain
  candidate s b =
      let (ec, db) = calls.candidate s.database b.block in
      let s' = record s { database = db } in
      if is_error ec then (ec, s') else (
        ec,
        record s' {
          top_valid_candidate_state = b.state;
          candidate_work = work_add s.candidate_work (calls.proof b.block.header.bits);
        },
      )

  -- The chain as the block pool sees it.
  unfoldable pub chain_of : BlockChain → Chain
  chain_of s = record {
    fork_height = s.fork_point.1;
    get_candidate = calls.get_candidate s.database;
    get_validatable = calls.get_validatable s.database;
  }

  -- After the database's reorganization of blocks.
  unfoldable pub after_blocks :
      BlockChain
      → ℕ × ℕ
      → List Block
      → BlockRef
      → ChainState
      → Code × Database × List Block
      → Outcome
  after_blocks s fork incoming top top_state (ec, db, outgoing) =
      let s' = record s { database = db } in
      if is_error ec
      then done ec s'
      else done success (record s' {
        fork_point = (top.block.header.hash, top_state.height);
        candidate_work = 0;
        confirmed_work = 0;
        next_confirmed_state = some (calls.next_state top_state);
        notified = s.notified ++ blocks_changed fork.1 incoming outgoing ∷ [];
        last_confirmed_block = some top;
      })

  -- With the candidates between the fork point and the branch.
  unfoldable pub confirm_blocks :
      BlockChain → List BlockRef → BlockRef → ChainState → BlockPool × Option (List Block) → Outcome
  unfolding after_blocks
  confirm_blocks s branch top top_state (pool, none) =
      done operation_failed (record s { block_pool = pool })
  confirm_blocks s branch top top_state (pool, some below) =
      let s' = record s { block_pool = pool } in
      let incoming = below ++ map (λ x. x.block) branch in
      let ec = calls.compute_filters incoming in
      let rest =
        after_blocks s' s.fork_point incoming top top_state
          (calls.reorganize_blocks s.database s.fork_point incoming) in
      if is_error ec then done ec s' else rest

  -- reorganize(branch_cache, branch_height), for blocks
  unfoldable pub reorganize_blocks : BlockChain → List BlockRef → ℕ → Outcome
  unfolding confirm_blocks last gather chain_of
  reorganize_blocks s [] branch_height = done operation_failed s
  reorganize_blocks s (b ∷ rest) branch_height =
      let top = last b rest in
      with_top_state s top.state λ top_state. confirm_blocks s (b ∷ rest) top top_state (
        gather (chain_of s) (branch_height - (s.fork_point.1 + 1)) s.block_pool
          (s.fork_point.1 + 1))

  -- The headers of the candidates at `height` and the next `count` heights; `none` where one of
  -- them is a null pointer, which the loop after it dereferences.
  unfoldable pub dependants : Database → ℕ → ℕ → Option (List Header)
  dependants db zero height = some []
  dependants db (suc count) height = elim (get_header db height true) [
    | none ↦ none
    | some h ↦ elim (dependants db count (height + 1)) [ none ↦ none | some hs ↦ some (h ∷ hs) ]
  ]

  -- The loop that marks the outgoing headers, up to the first failure.
  unfoldable pub mark_invalid : Database → List Header → Code × Database
  mark_invalid db [] = (success, db)
  mark_invalid db (h ∷ rest) =
      let (ec, db') = calls.invalidate db h store_block_missing_parent in
      let others = mark_invalid db' rest in if is_error ec then (ec, db') else others

  -- From the database's reorganization on.
  unfoldable pub after_invalid :
      BlockChain → ℕ × ℕ → List Header → Code × Database × List Header → Outcome
  after_invalid s fork outgoing (ec, db, put_out) =
      let s' = record s { database = db } in
      if is_error ec
      then done ec s'
      else done success (record s' {
        top_candidate_state = s.top_valid_candidate_state;
        notified = s.notified ++ headers_changed fork.1 [] put_out ∷ [];
      })

  unfoldable pub pop_invalid : BlockChain → ℕ × ℕ → List Header → Code × Database → Outcome
  unfolding after_invalid
  pop_invalid s fork outgoing (ec, db) =
      let s' = record s { database = db } in
      let rest = after_invalid s' fork outgoing (calls.pop_headers db fork outgoing) in
      if is_error ec then done ec s' else rest

  abbrev pop_all : BlockChain → ℕ × ℕ → Header → Option (List Header) → Outcome
  pop_all s fork header none = undefined
  pop_all s fork header (some rest) =
      pop_invalid s fork (header ∷ rest) (mark_invalid s.database (header ∷ rest))

  abbrev above_fork : BlockChain → Header → ℕ → Option ℕ → Option ℕ → Outcome
  above_fork s header block_height none fork_hash = done operation_failed s
  above_fork s header block_height (some top) none = done operation_failed s
  above_fork s header block_height (some top) (some fork_hash) =
      pop_all s (fork_hash, size_sub block_height 1) header
        (dependants s.database (top - block_height) (block_height + 1))

  -- invalidate(block, block_height)
  unfoldable pub invalidate : BlockChain → Header → ℕ → Outcome
  unfolding dependants mark_invalid pop_invalid
  invalidate s header block_height =
      above_fork s header block_height (get_top_height s.database true)
        (get_block_hash s.database (size_sub block_height 1) true)
