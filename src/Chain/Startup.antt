-- ===== src/Chain/Startup.antt =====
-- block_chain::start of block_chain.cpp, with the functions that set the state in memory from the
-- store. They run one after another until one fails. The stopped flag and the subscribers, which
-- start also sets going, are not part of the state.
pub mod Ready
use libbitcoin_blockchain.Prelude.{
  ℕ, ◌<◌, ◌≤◌, ◌≡◌, refl, sym, ◌∙◌, subst, Bool, true, false, Option, none, some, min, work_mod,
  if◌then◌else◌,
}
use libbitcoin_blockchain.System.{ChainState}
use libbitcoin_blockchain.Chain.Database.{Database}
use libbitcoin_blockchain.Chain.Reader.{get_top_height, get_block_hash, get_work}
use libbitcoin_blockchain.Chain.Fork
use libbitcoin_blockchain.Chain.Fork.{
  ForkSearch, common, wrapped, Populated, IsFork, set_fork_point_lem, get_block_state, top_valid,
  top_valid_lem,
}
use libbitcoin_blockchain.Chain.Work.{Indexed, total_work, get_work-total}
use libbitcoin_blockchain.Chain.Writer.{BlockChain, Calls}

-- What start calls elsewhere: whether the database opens and the organizers start, the state
-- predicate and the state of an empty result of the database, and chain_state_populator_ for a top.
pub record Env : Type 0 where
  pub calls : Calls
  pub opens : Bool
  pub organizers_start : Bool
  pub is_valid : ℕ → Bool
  pub missing_state : ℕ
  pub populate_top : Database → Bool → Option ChainState

-- The result with the state in memory; `undefined` where a null state is dereferenced, an
-- uninitialized hash is stored or a height below 0 is read.
pub data Started : Type 0 where
  started : Bool → BlockChain → Started
  undefined : Started

infixl 5 ◌&&>◌
-- `step() && rest`
abbrev ◌&&>◌ : Started → (BlockChain → Started) → Started
started true s &&> rest = rest s
started false s &&> rest = started false s
undefined &&> rest = undefined

abbrev fork_stored : BlockChain → Option ForkSearch → Started
fork_stored s none = started false s
fork_stored s (some (common (some hash) fork)) =
    started true (record s { fork_point = (hash, fork) })
fork_stored s (some (common none fork)) = undefined
fork_stored s (some wrapped) = undefined

unfoldable pub store_fork_point : BlockChain → Started
unfolding Fork.set_fork_point
store_fork_point s = fork_stored s (Fork.set_fork_point s.database)

abbrev is_set : Option ChainState → Bool
is_set none = false
is_set (some state) = true

module _ (env : Env) where
  unfoldable pub set_top_candidate_state : BlockChain → Started
  set_top_candidate_state s =
      let state = env.populate_top s.database true in
      started (is_set state) (record s { top_candidate_state = state })

  abbrev valid_stored : BlockChain → Option ℕ → Started
  valid_stored s none = undefined
  valid_stored s (some height) =
      let state = env.calls.populate s.database height true in
      started (is_set state) (record s { top_valid_candidate_state = state })

  unfoldable pub set_top_valid_candidate_state : BlockChain → Started
  unfolding get_top_height top_valid
  set_top_valid_candidate_state s = elim (get_top_height s.database true) [
    | none ↦ started false s
    | some height ↦ valid_stored s (top_valid env.is_valid env.missing_state s.database height)
  ]

  -- The setter dereferences the state of the top.
  unfoldable pub set_next_confirmed_state : BlockChain → Started
  set_next_confirmed_state s = elim (env.populate_top s.database false) [
    | none ↦ undefined
    | some top ↦ started true (record s { next_confirmed_state = some (env.calls.next_state top) })
  ]

  unfoldable pub set_candidate_work : BlockChain → Started
  unfolding get_work
  set_candidate_work s = elim (get_work env.calls.proof s.database 0 s.fork_point.1 true) [
    | none ↦ started false s
    | some work ↦ started true (record s { candidate_work = work })
  ]

  unfoldable pub store_confirmed_work : BlockChain → Started
  unfolding get_work
  store_confirmed_work s = elim (get_work env.calls.proof s.database 0 s.fork_point.1 false) [
    | none ↦ started false s
    | some work ↦ started true (record s { confirmed_work = work })
  ]

  unfoldable pub start : BlockChain → Started
  unfolding store_fork_point set_top_candidate_state set_top_valid_candidate_state
      set_next_confirmed_state set_candidate_work store_confirmed_work
  start s =
      if env.opens
      then store_fork_point s
        &&> set_top_candidate_state
        &&> set_top_valid_candidate_state
        &&> set_next_confirmed_state
        &&> set_candidate_work
        &&> store_confirmed_work
        &&> (λ s. started env.organizers_start s)
      else started false s
