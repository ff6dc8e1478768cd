-- ===== src/Organizers/Block/Runs.antt =====
-- organize_block: what a run of fetches does under the mutex, for any results of the fetches, of
-- the validator and of the chain.
use libbitcoin_blockchain.Prelude.{
  ap, ◌∙◌, ℕ, ◌+◌, ◌<◌, ◌≤◌, ◌≡◌, refl, Bool, true, false, Option, none, some, List, [], ◌∷◌, ◌++◌,
  arith, ◌==◌, length, length-append, size_add, size_sub, size_mod, map, Bool-cases, inl, inr,
}
use libbitcoin_blockchain.System.{Block, Code, success, is_error}
use libbitcoin_blockchain.Organizers.Block.{
  FastChain, Validator, validate, Action, invalidated, candidated, reorganized, pooled, completed,
  Next, ended, fetch, advance, promote, accept_block, end_branch, handle_fetch, run,
}

-- What a list of actions may be from a height, the hash of the block below it and the candidates
-- that are not reorganized yet. A candidate extends the block below, was validated and has no
-- error; an invalidated block extends it and has one. What is reorganized or pooled are these
-- candidates, at the height of the first. The completion is the last action.
abbrev pub Follows : Validator → ℕ → ℕ → List Block → List Action → Type 0
Follows v height parent sub [] = Unit
Follows v height parent sub (invalidated b h ∷ rest) =
    (h ≡ height)
    × (b.header.previous_block_hash ≡ parent)
    × (is_error (v.error b) ≡ true)
    × Follows v height parent sub rest
Follows v height parent sub (candidated b ∷ rest) =
    (b.header.previous_block_hash ≡ parent)
    × (is_error (validate v b) ≡ false)
    × (is_error (v.error b) ≡ false)
    × Follows v (height + 1) b.header.hash (sub ++ b ∷ []) rest
Follows v height parent sub (reorganized bs h ∷ rest) =
    (bs ≡ sub) × (h + length sub ≡ height) × Follows v height parent [] rest
Follows v height parent sub (pooled bs h ∷ rest) =
    (bs ≡ sub) × (h + length sub ≡ height) × Follows v height parent sub rest
Follows v height parent sub (completed ec ∷ rest) = rest ≡ []

-- The mutex is released by these actions.
abbrev pub releases : List Action → Bool
releases [] = false
releases (completed ec ∷ rest) = true
releases (_ ∷ rest) = releases rest

-- What one call of handle_fetch may do.
abbrev Step : {S : Type 0} → Validator → ℕ → ℕ → List Block → Next S → Type 0
Step v height parent sub (ended s actions) =
    Follows v height parent sub actions × (releases actions ≡ true)
Step v height parent sub (fetch s actions next hash branch) =
    (next ≡ height + 1)
    × (length branch ≤ next)
    × ((tail : List Action)
        → Follows v next hash branch tail
        → Follows v height parent sub (actions ++ tail)
          × (releases (actions ++ tail) ≡ releases tail))

module _ {S : Type 0} (chain : FastChain S) (v : Validator) where
  abbrev reorganize_code : S → ℕ → List Block → Code
  reorganize_code s height branch =
      (chain.reorganize s branch (size_sub height (size_sub (length branch) 1))).0

  advance-Step :
      (s : S) (b : Block) (height parent : ℕ) (sub : List Block)
      → length sub ≤ height
      → height + 1 < size_mod
      → b.header.previous_block_hash ≡ parent
      → is_error (validate v b) ≡ false
      → is_error (v.error b) ≡ false
      → Step v height parent sub (advance chain v s b height (sub ++ b ∷ []))
  unfolding advance
  advance-Step s b height parent sub low fits link fine clean =
      let up : size_add height 1 ≡ height + 1 = omega arith in
      let len = length-append sub (b ∷ []) in
      let first : size_sub height (size_sub (length (sub ++ b ∷ [])) 1) + length (sub ++ b ∷ [])
          ≡ height + 1 =
        omega (arith, len) in
      elim (Bool-cases (chain.is_reorganizable s)) [
        | inr stay ↦
            rw stay (up, omega (arith, len), λ tail f. ((link, fine, clean, rw (← up) f), refl))
        | inl go ↦ elim (Bool-cases (is_error (reorganize_code s height (sub ++ b ∷ [])))) [
          | inl bad ↦ rw (go, bad) ((link, fine, clean, (refl, first, refl)), refl)
          | inr good ↦
              rw (go, good)
                (up, omega arith, λ tail f. ((link, fine, clean, (refl, first, rw (← up) f)), refl))
        ]
      ]

  accept_block-Step :
      (s : S) (b : Block) (height parent : ℕ) (sub : List Block)
      → length sub ≤ height
      → height + 1 < size_mod
      → b.header.previous_block_hash ≡ parent
      → Step v height parent sub (accept_block chain v s b height sub)
  unfolding accept_block promote
  accept_block-Step s b height parent sub low fits link =
      elim (Bool-cases (is_error (validate v b))) [
        | inl bad ↦ rw bad (refl, refl)
        | inr fine ↦ elim (Bool-cases (is_error (v.error b))) [
          | inl dirty ↦ rw (fine, dirty) ((refl, link, dirty, refl), refl)
          | inr clean ↦ elim (Bool-cases (is_error (chain.candidate s b).0)) [
            | inl fails ↦ rw (fine, clean, fails) (refl, refl)
            | inr stored ↦
                rw (fine, clean, stored)
                  (advance-Step (chain.candidate s b).1 b height parent sub low fits link fine
                    clean)
          ]
        ]
      ]

  end_branch-Step :
      (s : S) (ec : Code) (height parent : ℕ) (sub : List Block)
      → length sub ≤ height
      → height + 1 < size_mod
      → Step v height parent sub (end_branch chain v s ec height sub)
  end_branch-Step s ec height parent [] low fits = (refl, refl)
  end_branch-Step s ec height parent (b ∷ rest) low fits = ((refl, omega arith, refl), refl)

  handle_fetch-Step :
      (s : S) (r : Code × Option Block) (height parent : ℕ) (sub : List Block)
      → length sub ≤ height
      → height + 1 < size_mod
      → Step v height parent sub (handle_fetch chain v s r height parent sub)
  unfolding handle_fetch
  handle_fetch-Step s (ec, none) height parent sub low fits = elim (Bool-cases (is_error ec)) [
    | inl bad ↦ rw bad (refl, refl)
    | inr good ↦ rw good (end_branch-Step s ec height parent sub low fits)
  ]
  handle_fetch-Step s (ec, some b) height parent sub low fits = elim (Bool-cases (is_error ec)) [
    | inl bad ↦ rw bad (refl, refl)
    | inr good ↦ elim (Bool-cases (b.header.previous_block_hash == parent)) [
      | inl link ↦ rw (good, link) (accept_block-Step s b height parent sub low fits (ground arith))
      | inr other ↦ rw (good, other) (end_branch-Step s ec height parent sub low fits)
    ]
  ]

  -- Whatever the fetches, the validator and the chain answer, and however far a run gets, as long
  -- as its heights fit size_t and it starts with no more pending candidates than its height: the
  -- blocks that become candidates extend the chain one by one, were validated and have no error;
  -- what is reorganized, or pooled again, is exactly the candidates since the last reorganization,
  -- at the height of the first; a block is invalidated only with an error and at its height. The
  -- mutex is released at most once, as the last action, and exactly if the run has completed.
  pub run-Follows :
      (s : S) (results : List (Code × Option Block)) (height parent : ℕ) (sub : List Block)
      → length sub ≤ height
      → height + length results < size_mod
      → Follows v height parent sub (run chain v s results height parent sub).1
        × (releases (run chain v s results height parent sub).1
            ≡ (run chain v s results height parent sub).2)
  unfolding run
  run-Follows s [] height parent sub low fits = (tt, refl)
  run-Follows s (r ∷ rs) height parent sub low fits =
      go (handle_fetch chain v s r height parent sub) refl
        (handle_fetch-Step s r height parent sub low (omega arith))
        (λ s' next hash branch up short. run-Follows s' rs next hash branch short (omega arith))
    where
      go :
          (n : Next S)
          → handle_fetch chain v s r height parent sub ≡ n
          → Step v height parent sub n
          → ((s' : S) (next hash : ℕ) (branch : List Block)
              → next ≡ height + 1
              → length branch ≤ next
              → Follows v next hash branch (run chain v s' rs next hash branch).1
                × (releases (run chain v s' rs next hash branch).1
                    ≡ (run chain v s' rs next hash branch).2))
          → Follows v height parent sub (run chain v s (r ∷ rs) height parent sub).1
            × (releases (run chain v s (r ∷ rs) height parent sub).1
                ≡ (run chain v s (r ∷ rs) height parent sub).2)
      go (ended s' actions) e step ih = rw (e, run) step
      go (fetch s' actions next hash branch) e (up, short, extend) ih =
          let (f, r') = ih s' next hash branch up short in
          let (f', r'') = extend (run chain v s' rs next hash branch).1 f in
          rw (e, run) (f', rw r'' r')

-- The blocks that become candidates, in order.
pub candidates : List Action → List Block
candidates [] = []
candidates (candidated b ∷ rest) = b ∷ candidates rest
candidates (_ ∷ rest) = candidates rest

-- Each block names the one before it as its parent, the first one the given hash.
abbrev pub ChainFrom : ℕ → List Block → Type 0
ChainFrom parent [] = Unit
ChainFrom parent (b ∷ rest) = (b.header.previous_block_hash ≡ parent) × ChainFrom b.header.hash rest

-- The chain's writers succeed.
pub record NeverFails {S : Type 0} (chain : FastChain S) : Type 0 where
  pub candidate : (s : S) (b : Block) → is_error (chain.candidate s b).0 ≡ false
  pub reorganize :
      (s : S) (bs : List Block) (height : ℕ) → is_error (chain.reorganize s bs height).0 ≡ false

abbrev pub AllValid : Validator → List Block → Type 0
AllValid v [] = Unit
AllValid v (b ∷ rest) =
    ((is_error (validate v b) ≡ false) × (is_error (v.error b) ≡ false)) × AllValid v rest

module _ {S : Type 0} (chain : FastChain S) (v : Validator) (fine : NeverFails chain) where
  -- A call of handle_fetch with a valid block that extends the branch makes it a candidate and goes
  -- on from it.
  Extends : S → Block → ℕ → ℕ → List Block → Type 0
  Extends s b height parent sub =
      (s' : S) × (acts : List Action) × (next : ℕ) × (branch : List Block) × (handle_fetch chain v s
          (success, some b) height parent sub
        ≡ fetch s' (candidated b ∷ acts) next b.header.hash branch)
      × ((tail : List Action) → candidates (acts ++ tail) ≡ candidates tail)

  handle_fetch-Extends :
      (s : S) (b : Block) (height parent : ℕ) (sub : List Block)
      → b.header.previous_block_hash ≡ parent
      → is_error (validate v b) ≡ false
      → is_error (v.error b) ≡ false
      → Extends s b height parent sub
  unfolding handle_fetch accept_block promote advance candidates Extends
  handle_fetch-Extends s b height parent sub link valid clean =
      let same : (b.header.previous_block_hash == parent) ≡ true = ground arith in
      let t = (chain.candidate s b).1 in
      elim (Bool-cases (chain.is_reorganizable t)) [
        | inr stay ↦ (
          t,
          [],
          size_add height 1,
          sub ++ b ∷ [],
          rw (same, valid, clean, fine.candidate s b, stay) refl,
          λ tail. refl,
        )
        | inl go ↦
            let first = size_sub height (size_sub (length (sub ++ b ∷ [])) 1) in
            (
              (chain.reorganize t (sub ++ b ∷ []) first).1,
              reorganized (sub ++ b ∷ []) first ∷ [],
              size_add height 1,
              [],
              rw
                  (
                    same,
                    valid,
                    clean,
                    fine.candidate s b,
                    go,
                    fine.reorganize t (sub ++ b ∷ []) first,
                  )
                  refl,
              λ tail. refl,
            )
      ]

  -- If the chain's writers succeed and the blocks that are fetched are valid and extend the chain
  -- one after another, all of them become candidates, in order, and the run waits for the next
  -- block instead of completing.
  pub run_all :
      (s : S) (bs : List Block) (height parent : ℕ) (sub : List Block)
      → ChainFrom parent bs
      → AllValid v bs
      → let result = run chain v s (map (λ b. (success, some b)) bs) height parent sub in
        (candidates result.1 ≡ bs) × (result.2 ≡ false)
  unfolding run candidates Extends
  run_all s [] height parent sub linked valid = (refl, refl)
  run_all s (b ∷ bs) height parent sub linked valid =
      let (s', acts, next, branch, e, skip) =
        handle_fetch-Extends s b height parent sub linked.0 valid.0.0 valid.0.1 in
      let (all, waits) = run_all s' bs next b.header.hash branch linked.1 valid.1 in
      rw (e, run) (ap (λ xs. b ∷ xs) (skip _ ∙ all), waits)
