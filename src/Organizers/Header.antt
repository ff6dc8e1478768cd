-- ===== src/Organizers/Header.antt =====
-- src/organizers/organize_header.cpp, with the entry points of src/validate/validate_header.cpp
-- that it calls: the acceptance of one header. The handlers are called in sequence; the trace of
-- actions shows the lock of the candidate mutex, its release and the call of the caller's handler.
pub mod Acceptance
use libbitcoin_blockchain.Prelude.{
  ℕ, zero, suc, ◌+◌, ◌<◌, ◌≤◌, ◌≡◌, ◌≢◌, refl, ◌⊎◌, Bool, true, false, not, ◌&&◌, Option, none,
  some, List, [], ◌∷◌, ◌++◌, arith, ltb, leb, ◌==◌, if◌then◌else◌, Bool-cases, Option-cases, inl,
  inr,
}
use libbitcoin_blockchain.System.{
  Header, Code, success, service_stopped, operation_failed, duplicate_block, insufficient_work,
  is_error,
}
use libbitcoin_blockchain.Pools.HeaderBranch
use libbitcoin_blockchain.Pools.HeaderBranch.{HeaderBranch}
use libbitcoin_blockchain.Pools.HeaderPool
use libbitcoin_blockchain.Pools.HeaderPool.{HeaderPool}

-- What the caller and other threads can see of one call.
pub data Action : Type 0 where
  lock unlock : Action
  reorganized : HeaderBranch → Action
  pooled : Header → ℕ → Action
  handled : Code → Action

-- What organize_header calls: the checks of the header and of its branch (the population of the
-- branch, validate_header::handle_populated and header::accept), the work to overcome and the
-- chain's header reorganization, which also changes the pool. `stopped_at_populate` and
-- `stopped_at_accept` are what the two reads of the stopped flags see, since stop runs on another
-- thread.
pub record Env : Type 0 where
  pub check : Header → Code
  pub populate : HeaderBranch → HeaderBranch × Code
  pub is_validated : HeaderBranch → Bool
  pub accept : HeaderBranch → Code
  pub get_work : ℕ → ℕ → Option ℕ
  pub reorganize : HeaderPool → HeaderBranch → HeaderPool × Code
  pub proof : ℕ → ℕ
  pub stopped_at_populate : Bool
  pub stopped_at_accept : Bool

-- The pool that the call leaves, and its actions; `none` is undefined behaviour or no return.
abbrev pub Effect : Type 0
Effect = Option (HeaderPool × List Action)

-- complete(ec): handle_complete releases the mutex before it calls the handler.
abbrev pub complete : HeaderPool → List Action → Code → Effect
complete pool before ec = some (pool, lock ∷ before ++ unlock ∷ handled ec ∷ [])

module _ (env : Env) where
  -- validate_header::handle_populated, to the code for its handler
  unfoldable pub handle_populated : Code → HeaderBranch → Code
  handle_populated ec branch =
      if env.stopped_at_populate
      then service_stopped
      else if is_error ec
      then ec
      else if env.is_validated branch
      then success
      else env.accept branch

  -- From the work to overcome on; the branch has a top.
  unfoldable pub with_work : HeaderPool → HeaderBranch → Option Header → Option ℕ → Effect
  unfolding HeaderBranch.work HeaderBranch.top_height
  with_work pool branch top none = complete pool [] operation_failed
  with_work pool branch none (some required_work) =
      if leb (HeaderBranch.work env.proof branch) required_work
      then none
      else (let (pool', ec) = env.reorganize pool branch in
          complete pool' (reorganized branch ∷ []) ec)
  with_work pool branch (some top) (some required_work) =
      if leb (HeaderBranch.work env.proof branch) required_work
      then complete (HeaderPool.add pool top (HeaderBranch.top_height branch))
          (pooled top (HeaderBranch.top_height branch) ∷ []) insufficient_work
      else (let (pool', ec) = env.reorganize pool branch in
          complete pool' (reorganized branch ∷ []) ec)

  -- handle_accept(ec, branch, handler)
  unfoldable pub handle_accept : HeaderPool → Code → HeaderBranch → Effect
  unfolding with_work HeaderBranch.top HeaderBranch.fork_height
  handle_accept pool ec branch =
      if env.stopped_at_accept
      then complete pool [] service_stopped
      else if is_error ec
      then complete pool [] ec
      else with_work pool branch (HeaderBranch.top branch)
          (env.get_work (HeaderBranch.work env.proof branch) (HeaderBranch.fork_height branch))

  -- From the branch of the pool on: organize under the lock.
  unfoldable pub with_branch : HeaderPool → HeaderBranch → Effect
  unfolding handle_populated handle_accept HeaderBranch.empty
  with_branch pool branch =
      if HeaderBranch.empty branch
      then complete pool [] duplicate_block
      else (let (populated, ec) = env.populate branch in
          handle_accept pool (handle_populated ec populated) populated)

  abbrev on_branch : HeaderPool → HeaderPool.Branch → Effect
  on_branch pool (HeaderPool.branch b) = with_branch pool b
  on_branch pool HeaderPool.Branch.undefined = none
  on_branch pool HeaderPool.Branch.out_of_fuel = none

  -- organize(header, handler), with the fuel of get_branch
  unfoldable pub organize : ℕ → HeaderPool → Header → Effect
  unfolding with_branch HeaderPool.get_branch
  organize fuel pool header =
      if is_error (env.check header)
      then some (pool, handled (env.check header) ∷ [])
      else on_branch pool (HeaderPool.get_branch pool fuel header)
