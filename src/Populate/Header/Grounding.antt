-- ===== src/Populate/Header/Grounding.antt =====
-- populate_header: where a branch is grounded, and the state that its top then has.
use libbitcoin_blockchain.Prelude.{
  ℕ, ◌<◌, ◌≤◌, ◌≡◌, refl, ◌∙◌, ◌&&◌, ltb, true, Option, none, some, [], ◌∷◌, ◌==◌, size_mod,
  Bool-cases, inl, inr,
}
use libbitcoin_blockchain.System.{Header, Code, ChainState}
use libbitcoin_blockchain.Chain.Database.{BlockResult}
use libbitcoin_blockchain.Chain.Reader.{get_top_checkpoint, get_header_by_hash}
use libbitcoin_blockchain.Pools.HeaderBranch
use libbitcoin_blockchain.Pools.HeaderBranch.{HeaderBranch}
use libbitcoin_blockchain.Populate.ChainState.{StateData}
use libbitcoin_blockchain.Populate.ChainState.Complete.{IsMap}
use libbitcoin_blockchain.Populate.Header.{
  Env, Grounded, is_null, populate_top, promote_branch_state, ground_below, ground_branch,
  set_branch_state, populate,
}

-- The candidate index has a block at each height up to its top and none above, a block found by a
-- hash has it, the cached state is the top's, the map of a height asks for none above it, and a
-- state made of data has the hash of the data.
pub record IsCoherent (env : Env) (chain_top : BlockResult) (top_height : ℕ) : Type 0 where
  pub top : env.db.top true ≡ some top_height
  pub top_fits : top_height < size_mod
  pub top_block : env.db.at_height top_height true ≡ some chain_top
  pub indexed : (h : ℕ) → h ≤ top_height → (r : BlockResult) × (env.db.at_height h true ≡ some r)
  pub bounded : (h : ℕ) (r : BlockResult) → env.db.at_height h true ≡ some r → h ≤ top_height
  pub by_hash : (k : ℕ) (r : BlockResult) → env.db.by_hash k ≡ some r → r.header.hash ≡ k
  pub top_state :
      (s : ChainState) × (env.top_candidate_state ≡ some s) × (s.hash ≡ chain_top.header.hash)
  pub map : (h : ℕ) → IsMap (env.get_map h) h
  pub from_data : (d : StateData) → (env.from_data d).hash ≡ d.hash

abbrev pub solo : ℕ → Header → HeaderBranch
solo fork t = record { height = fork; headers = t ∷ [] }

-- The branch is set at the height, and its top has the state that follows one with the hash of the
-- top's parent.
pub record IsGrounded (env : Env) (b : HeaderBranch) (t : Header) (height : ℕ) : Type 0 where
  pub state : ChainState
  pub parent : state.hash ≡ t.previous_block_hash
  pub block : BlockResult
  pub indexed : env.db.at_height height true ≡ some block
  pub set : set_branch_state env b t ≡ record {
    is_set = true;
    branch = record b { height = height };
    state = some (env.from_parent state t);
  }

module _ (env : Env) where
  ground_below-headers :
      (b : HeaderBranch) (t : Header) (fork : Option (Header × ℕ))
      → (ground_below env b t fork).branch.headers ≡ b.headers
  unfolding ground_below HeaderBranch.set_fork_height
  ground_below-headers b t none = refl
  ground_below-headers b t (some (header, height)) = refl

  ground_branch-headers :
      (b : HeaderBranch) (t : Header) (state : Option ChainState) (chain_top : Option (ℕ × ℕ))
      → (ground_branch env b t state chain_top).branch.headers ≡ b.headers
  unfolding ground_branch HeaderBranch.set_fork_height
  ground_branch-headers b t state none = refl
  ground_branch-headers b t (some state) (some chain_top) = refl
  ground_branch-headers b t none (some (hash, height)) =
      elim (Bool-cases (t.previous_block_hash == hash)) [
        | inl here ↦ rw here refl
        | inr below ↦
            rw below
              (ground_below-headers b t (get_header_by_hash env.db (HeaderBranch.fork_hash b) true))
      ]

  set_branch_state-headers :
      (b : HeaderBranch) (t : Header) → (set_branch_state env b t).branch.headers ≡ b.headers
  unfolding set_branch_state
  set_branch_state-headers b t =
      elim (Bool-cases (is_null (promote_branch_state env b t) && ltb 1 (HeaderBranch.size b))) [
        | inl bad ↦ rw bad refl
        | inr good ↦ rw good (
            ground_branch-headers b t (promote_branch_state env b t)
              (get_top_checkpoint env.db true))
      ]

  populate_top-headers :
      (t : Header) (g : Grounded) → (populate_top env t g).0.headers ≡ g.branch.headers
  populate_top-headers t g = elim (Bool-cases g.is_set) [
    | inl set ↦ rw set refl
    | inr unset ↦ rw unset refl
  ]

  -- The population of a branch with a top returns, and keeps its headers.
  pub populate-headers :
      (b : HeaderBranch) (t : Header)
      → HeaderBranch.top b ≡ some t
      → (p : HeaderBranch × Code) × (populate env b ≡ some p) × (p.0.headers ≡ b.headers)
  unfolding populate
  populate-headers b t e = (
    populate_top env t (set_branch_state env b t),
    rw e refl,
    populate_top-headers t (set_branch_state env b t) ∙ set_branch_state-headers b t,
  )
