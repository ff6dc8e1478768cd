-- ===== src/Pools/Evaluator/Order.antt =====
-- transaction_order_calculator: entries after the parents that they require.
pub mod Rounds
use libbitcoin_blockchain.Prelude.{
  ℕ, zero, suc, ◌+◌, ◌<◌, ◌≤◌, ◌≡◌, refl, sym, ◌∙◌, subst, ap, ◌⊎◌, Bool, true, false, not, ◌&&◌,
  ◌||◌, Option, none, some, List, [], ◌∷◌, ◌++◌, arith, ◌==◌, if◌then◌else◌, elem, count,
  elem-count, elem-append, count-append, Bool-cases, List-cases, inl, inr, elem_cases, elem_here,
  elem_there, or_cases, or_left, or_right,
}
use libbitcoin_blockchain.Pools.Evaluator.{
  Entries, Visit, enqueue_all, mark_encountered, mark_all, settle, evaluate, is_anchor, required,
  visit_order, order_transactions, visit_required,
}
use libbitcoin_blockchain.Pools.Evaluator.Walks.{elem-mark_encountered, evaluate-visit}

-- The parent is required by the entry: it is no anchor.
abbrev pub Requires : Entries → ℕ → ℕ → Type 0
Requires g e p = (elem p (g.parents e) ≡ true) × (is_anchor g p ≡ false)

-- Each entry comes after all that it requires, where `seen` are already there.
abbrev pub After : Entries → List ℕ → List ℕ → Type 0
After g seen [] = Unit
After g seen (e ∷ es) = ((p : ℕ) → Requires g e p → elem p seen ≡ true) × After g (e ∷ seen) es

-- The ordered list has each encountered entry once, after what it requires.
pub record IsOrdered (g : Entries) (ordered encountered : List ℕ) : Type 0 where
  pub after : After g [] ordered
  pub once : (k : ℕ) → count k ordered ≤ 1
  pub same : (k : ℕ) → elem k ordered ≡ elem k encountered

pub After-snoc :
    (g : Entries) (e : ℕ) (es seen : List ℕ)
    → After g seen es
    → ((p : ℕ) → Requires g e p → (elem p seen || elem p es) ≡ true)
    → After g seen (es ++ e ∷ [])
After-snoc g e [] seen a h = ((λ p r. ground (arith, h p r)), tt)
After-snoc g e (x ∷ es) seen a h =
    (a.0, After-snoc g e es (x ∷ seen) a.1 (λ p r. ground (arith, h p r)))

pub elem-required :
    (before : ℕ → ℕ → Bool) (g : Entries) (encountered xs : List ℕ) (p : ℕ)
    → elem p xs ≡ true
    → is_anchor g p ≡ false
    → elem p encountered ≡ false
    → elem p (required before g encountered xs) ≡ true
unfolding required
elem-required before g encountered [] p l a n = absurd (ground arith)
elem-required before g encountered (x ∷ xs) p l a n = elim (elem_cases p x xs l) [
  | inl same ↦
      let a' = subst (λ i. is_anchor g i ≡ false) (sym same) a in
      let n' = subst (λ i. elem i encountered ≡ false) (sym same) n in
      rw (a', n')
        (subst (λ i. elem i (x ∷ required before g encountered xs) ≡ true) same
          (elem_here x (required before g encountered xs)))
  | inr later ↦
      let ih = elem-required before g encountered xs p later a n in
      elim (Bool-cases (not (is_anchor g x) && not (elem x encountered))) [
        | inl new ↦ rw new (elem_there p x (required before g encountered xs) ih)
        | inr old ↦ rw old ih
      ]
]

pub required-parents :
    (before : ℕ → ℕ → Bool) (g : Entries) (encountered xs : List ℕ) (p : ℕ)
    → elem p (required before g encountered xs) ≡ true
    → elem p xs ≡ true
unfolding required
required-parents before g encountered [] p l = l
required-parents before g encountered (x ∷ xs) p l =
    ground (arith, l, required-parents before g encountered xs p)

pub required-inner :
    (before : ℕ → ℕ → Bool) (g : Entries) (encountered xs : List ℕ) (p : ℕ)
    → elem p (required before g encountered xs) ≡ true
    → is_anchor g p ≡ false
unfolding required
required-inner before g encountered [] p l = absurd (ground arith)
required-inner before g encountered (x ∷ xs) p l =
    elim (Bool-cases (not (is_anchor g x) && not (elem x encountered))) [
      | inl new ↦ elim (elem_cases p x (required before g encountered xs) (rw new at l)) [
        | inl same ↦ subst (λ i. is_anchor g i ≡ false) same (ground (arith, new))
        | inr later ↦ required-inner before g encountered xs p later
      ]
      | inr old ↦ required-inner before g encountered xs p (rw old at l)
    ]
