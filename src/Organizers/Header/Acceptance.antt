-- ===== src/Organizers/Header/Acceptance.antt =====
-- organize_header: the mutex and the handler on every path, and when a branch is reorganized.
use libbitcoin_blockchain.Prelude.{
  All, ℕ, ◌<◌, ◌≡◌, refl, ◌⊎◌, true, false, Option, none, some, List, [], ◌∷◌, leb, if◌then◌else◌,
  Bool-cases, inl, inr, work_mod,
}
use libbitcoin_blockchain.System.{
  Header, Code, success, service_stopped, operation_failed, duplicate_block, insufficient_work,
  is_error,
}
use libbitcoin_blockchain.Pools.HeaderBranch.{
  HeaderBranch, top, top_height, work, fork_height, empty,
}
use libbitcoin_blockchain.Pools.HeaderPool.Branches.{IsFiled, get_branch_lem}
use libbitcoin_blockchain.Pools.HeaderPool.{HeaderPool, get_branch, exists, add}
use libbitcoin_blockchain.Populate.Header as Population
use libbitcoin_blockchain.Populate.Header.Grounding.{populate-headers}
use libbitcoin_blockchain.Chain.Database.{Database}
use libbitcoin_blockchain.Chain.Reader.{get_work}
use libbitcoin_blockchain.Chain.Work.{total_work, Indexed, get_work_decides}
use libbitcoin_blockchain.Organizers.Header.{
  Action, lock, unlock, reorganized, pooled, handled, Env, Effect, complete, handle_populated,
  with_work, handle_accept, with_branch, organize,
}

-- Env.reorganize
abbrev pub Reorganize : Type 0
Reorganize = HeaderPool → HeaderBranch → HeaderPool × Code

-- The actions of a call that takes the mutex, with the pool that it leaves: the mutex is released
-- before the handler is called, once, at the end. Under it nothing is done, or one header is pooled,
-- or one branch is reorganized, whose code the handler is given.
pub data Protocol (reorganize : Reorganize) (pool : HeaderPool)
    : HeaderPool → List Action → Type 0 where
  nothing : (ec : Code) → Protocol reorganize pool pool (lock ∷ unlock ∷ handled ec ∷ [])
  kept :
      (h : Header) (height : ℕ)
      → Protocol reorganize pool
          (add pool h height)
          (lock ∷ pooled h height ∷ unlock ∷ handled insufficient_work ∷ [])
  moved :
      (b : HeaderBranch)
      → Protocol reorganize pool
          (reorganize pool b).0
          (lock ∷ reorganized b ∷ unlock ∷ handled (reorganize pool b).1 ∷ [])

-- The call returns, and its actions have that shape.
abbrev pub Follows : Reorganize → HeaderPool → Effect → Type 0
Follows reorganize pool none = ⊥
Follows reorganize pool (some (left, actions)) = Protocol reorganize pool left actions

module _ (env : Env) where
  with_work-Follows :
      (pool : HeaderPool) (b : HeaderBranch) (t : Header) (required : Option ℕ)
      → Follows env.reorganize pool (with_work env pool b (some t) required)
  unfolding with_work
  with_work-Follows pool b t none = nothing operation_failed
  with_work-Follows pool b t (some required) = elim (Bool-cases (leb (work env.proof b) required)) [
    | inl weak ↦ rw weak (kept t (top_height b))
    | inr strong ↦ rw strong (moved b)
  ]

  handle_accept-Follows :
      (pool : HeaderPool) (ec : Code) (b : HeaderBranch) (t : Header)
      → top b ≡ some t
      → Follows env.reorganize pool (handle_accept env pool ec b)
  unfolding handle_accept
  handle_accept-Follows pool ec b t e = elim (Bool-cases env.stopped_at_accept) [
    | inl s ↦ rw s (nothing service_stopped)
    | inr r ↦ elim (Bool-cases (is_error ec)) [
      | inl bad ↦ rw (r, bad) (nothing ec)
      | inr good ↦
          rw (r, good, e)
            (with_work-Follows pool b t (env.get_work (work env.proof b) (fork_height b)))
    ]
  ]

  with_branch-Follows :
      (pool : HeaderPool) (b : HeaderBranch) (t : Header)
      → top (env.populate b).0 ≡ some t
      → top b ≡ some t
      → Follows env.reorganize pool (with_branch env pool b)
  unfolding with_branch
  with_branch-Follows pool b t still e = elim (Bool-cases (empty b)) [
    | inl none_there ↦ rw none_there (nothing duplicate_block)
    | inr some_there ↦ rw some_there (
        handle_accept-Follows pool (handle_populated env (env.populate b).1 (env.populate b).0)
          (env.populate b).0 t still)
  ]

  -- The organizer populates a branch by populate_header, where that returns.
  abbrev pub IsPopulating : Population.Env → Type 0
  IsPopulating population =
      (b : HeaderBranch) (p : HeaderBranch × Code)
      → Population.populate population b ≡ some p
      → env.populate b ≡ p

  populated_top :
      (population : Population.Env)
      → IsPopulating population
      → (b : HeaderBranch) (t : Header) → top b ≡ some t
      → top (env.populate b).0 ≡ some t
  unfolding top
  populated_top population same b t e =
      let (p, returns, keeps) = populate-headers population b t e in
      rw (same b p returns) (rw keeps e)

  -- A call on a pool whose headers are filed under their hashes and form no cycle returns, for any
  -- answers of the checks, the database and the stopped flags, if the fuel is more than the rank of
  -- the header and the branch is populated by populate_header. A header that fails its own checks is
  -- answered with their code without the mutex, and the pool is as before. A header that passes them
  -- takes the mutex once, which is released before the handler is called, once, at the end; under
  -- it nothing is done and the pool is as before, or one header is pooled and the answer is
  -- insufficient_work, or one branch is reorganized and the answer is the code of that.
  pub organize-Follows :
      (pool : HeaderPool) (rank : ℕ → ℕ) (fuel : ℕ) (header : Header) (population : Population.Env)
      → All (IsFiled rank) pool.headers
      → rank header.previous_block_hash < rank header.hash
      → rank header.hash < fuel
      → IsPopulating population
      → ((is_error (env.check header) ≡ true)
          × (organize env fuel pool header ≡ some (pool, handled (env.check header) ∷ [])))
        ⊎ ((is_error (env.check header) ≡ false)
            × Follows env.reorganize pool (organize env fuel pool header))
  unfolding organize get_branch with_branch
  organize-Follows pool rank fuel header population filed below enough same =
      elim (Bool-cases (is_error (env.check header))) [
        | inl bad ↦ inl (bad, rw (bad, organize) refl)
        | inr ok ↦ elim (Bool-cases (exists pool header)) [
          | inl there ↦ inr (ok, rw (ok, there, organize) (nothing duplicate_block))
          | inr new ↦
              let (b, root, ys, e, hs, linked, is_top, no_parent, at) =
                get_branch_lem pool rank filed fuel header new below enough in
              let still = populated_top population same b header is_top in
              inr (
                ok,
                rw (ok, organize)
                    (rw (e, organize) (with_branch-Follows pool b header still is_top)),
              )
        ]
      ]

  -- A header that passes its checks and is pooled already is answered with duplicate_block, and
  -- changes nothing.
  pub organize_duplicate :
      (fuel : ℕ) (pool : HeaderPool) (header : Header)
      → is_error (env.check header) ≡ false
      → exists pool header ≡ true
      → organize env fuel pool header ≡ complete pool [] duplicate_block
  unfolding organize get_branch
  organize_duplicate fuel pool header ok there = rw (ok, there, organize) refl

  -- While the organizer runs and the heights above the fork point are indexed with work that fits
  -- 256 bits, a branch that is accepted is reorganized exactly if its work is greater than the work
  -- of all candidates above its fork point, although the work to overcome is summed only as far as
  -- needed; otherwise its top is pooled and the answer is insufficient_work.
  pub handle_accept_lem :
      (pool : HeaderPool) (b : HeaderBranch) (t : Header) (db : Database) (db_top : ℕ)
      → env.stopped_at_accept ≡ false
      → top b ≡ some t
      → ((w above : ℕ) → env.get_work w above ≡ get_work env.proof db w above true)
      → db.top true ≡ some db_top
      → Indexed db (fork_height b) true db_top
      → total_work env.proof db (fork_height b) true db_top < work_mod
      → handle_accept env pool success b ≡ (
          if leb (work env.proof b) (total_work env.proof db (fork_height b) true db_top)
          then complete (add pool t (top_height b)) (pooled t (top_height b) ∷ []) insufficient_work
          else complete (env.reorganize pool b).0 (reorganized b ∷ []) (env.reorganize pool b).1)
  unfolding handle_accept
  handle_accept_lem pool b t db db_top run is_top reads e ix fits =
      let (required, g, same) =
        get_work_decides env.proof db (fork_height b) true (work env.proof b) db_top e ix fits in
      rw (run, is_top, handle_accept)
        (rw (reads (work env.proof b) (fork_height b), g, handle_accept) (rw same refl))
