-- ===== src/Populate/Header.antt =====
-- src/populate/populate_header.cpp, with block_chain::promote_state and block_chain::chain_state of
-- src/interface/block_chain.cpp: a branch is connected to the candidate index, its top header
-- receives a chain state and the metadata of the store decides the code for the handler.
pub mod Grounding
use libbitcoin_blockchain.Prelude.{
  ℕ, ◌≡◌, Bool, true, false, ◌&&◌, Option, none, some, ltb, ◌==◌, if◌then◌else◌,
}
use libbitcoin_blockchain.System.{
  Header, Code, ChainState, success, orphan_block, duplicate_block, is_error,
}
use libbitcoin_blockchain.Chain.Database.{Database}
use libbitcoin_blockchain.Chain.Reader.{◌>>=◌, get_top_checkpoint, get_header_by_hash}
use libbitcoin_blockchain.Pools.HeaderBranch
use libbitcoin_blockchain.Pools.HeaderBranch.{HeaderBranch}
use libbitcoin_blockchain.Populate.ChainState.{StateMap, StateData, populate_all}

-- header::metadata, as the query get_header_metadata of the database sets it.
pub record Metadata : Type 0 where
  pub exists : Bool
  pub error : Code

-- What population reads: the candidate index, the metadata of a header in the store, the states of
-- the headers of the pool, the cached state of the top candidate, and of libbitcoin-system the map
-- of a height and the two constructors of a chain state, from its data and from its parent's state.
pub record Env : Type 0 where
  pub db : Database
  pub metadata : Header → Metadata
  pub state_of : Header → Option ChainState
  pub top_candidate_state : Option ChainState
  pub get_map : ℕ → StateMap
  pub from_data : StateData → ChainState
  pub from_parent : ChainState → Header → ChainState

-- What set_branch_state returns, and what it leaves: the branch and the state of its top.
pub record Grounded : Type 0 where
  pub is_set : Bool
  pub branch : HeaderBranch
  pub state : Option ChainState

abbrev pub is_null : Option ChainState → Bool
is_null none = true
is_null (some state) = false

module _ (env : Env) where
  abbrev of_data : Option StateData → Option ChainState
  of_data none = none
  of_data (some data_) = some (env.from_data data_)

  -- block_chain::chain_state(header, height)
  unfoldable pub chain_state : Header → ℕ → Option ChainState
  unfolding populate_all
  chain_state header height = of_data (populate_all env.get_map env.db header height true)

  -- block_chain::promote_state(header, parent)
  unfoldable pub promote_state : Header → Option ChainState → Option ChainState
  promote_state header none = none
  promote_state header (some parent) =
      if parent.hash == header.previous_block_hash
      then some (env.from_parent parent header)
      else none

  abbrev promote_from : Header → Option Header → Option ChainState
  promote_from top none = none
  promote_from top (some parent) = promote_state top (env.state_of parent)

  -- block_chain::promote_state(branch), with the top of the branch
  unfoldable pub promote_branch_state : HeaderBranch → Header → Option ChainState
  unfolding promote_state HeaderBranch.top_parent
  promote_branch_state branch top = promote_from top (HeaderBranch.top_parent branch)

  -- The branch is grounded at a fork point below the top of the candidate index, if there is one.
  unfoldable pub ground_below : HeaderBranch → Header → Option (Header × ℕ) → Grounded
  unfolding chain_state promote_state HeaderBranch.set_fork_height
  ground_below branch top none = record { is_set = false; branch = branch; state = none }
  ground_below branch top (some (fork_header, fork_height)) = record {
    is_set = true;
    branch = HeaderBranch.set_fork_height branch fork_height;
    state = promote_state top (chain_state fork_header fork_height);
  }

  -- From the query of the top on, with the state that the top has from its parent.
  unfoldable pub ground_branch :
      HeaderBranch → Header → Option ChainState → Option (ℕ × ℕ) → Grounded
  unfolding ground_below promote_state HeaderBranch.set_fork_height HeaderBranch.fork_hash
      get_header_by_hash
  ground_branch branch top state none = record { is_set = false; branch = branch; state = state }
  ground_branch branch top (some state) (some chain_top) = record {
    is_set = true;
    branch = branch;
    state = some state;
  }
  ground_branch branch top none (some (hash, height)) =
      if top.previous_block_hash == hash
      then record {
        is_set = true;
        branch = HeaderBranch.set_fork_height branch height;
        state = promote_state top env.top_candidate_state;
      }
      else ground_below branch top (get_header_by_hash env.db (HeaderBranch.fork_hash branch) true)

  -- set_branch_state(branch), with the top of the branch
  unfoldable pub set_branch_state : HeaderBranch → Header → Grounded
  unfolding promote_branch_state ground_branch get_top_checkpoint HeaderBranch.size
  set_branch_state branch top =
      if is_null (promote_branch_state branch top) && ltb 1 (HeaderBranch.size branch)
      then record { is_set = false; branch = branch; state = none }
      else ground_branch branch top (promote_branch_state branch top)
          (get_top_checkpoint env.db true)

  -- The code for the handler, once the branch is set.
  abbrev pub outcome : Metadata → Code
  outcome metadata =
      if metadata.exists
      then (if is_error metadata.error then metadata.error else duplicate_block)
      else success

  abbrev pub populate_top : Header → Grounded → HeaderBranch × Code
  populate_top top grounded =
      if grounded.is_set
      then (grounded.branch, outcome (env.metadata top))
      else (grounded.branch, orphan_block)

  -- populate(branch, handler), to the code for the handler; a branch without a top, undefined
  -- behaviour in the source, is `none`.
  unfoldable pub populate : HeaderBranch → Option (HeaderBranch × Code)
  unfolding set_branch_state HeaderBranch.top
  populate branch = do
    top ← HeaderBranch.top branch
    some (populate_top top (set_branch_state branch top))
