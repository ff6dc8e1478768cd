-- ===== src/Pools/Evaluator/Walks.antt =====
-- stack_evaluator::evaluate for a visit that enqueues the neighbours of an element: it ends, and
-- has encountered exactly what can be reached.
pub mod Loop
pub mod Closures
use libbitcoin_blockchain.Prelude.{
  ℕ, zero, suc, ◌+◌, ◌<◌, ◌≤◌, ◌≡◌, refl, sym, ap, subst, ◌∙◌, ◌⊎◌, ==_comm, Bool, true, false,
  ◌||◌, Option, none, some, List, [], ◌∷◌, arith, ◌==◌, if◌then◌else◌, length, elem, eq_of_==,
  Bool-cases, inl, inr,
}
use libbitcoin_blockchain.Pools.Evaluator.{
  Visit, enqueue_all, place, mark_encountered, mark_all, settle, evaluate,
}

-- What can be reached from the starts by the relation of `next`.
pub data Reaches (next : ℕ → List ℕ) (starts : List ℕ) : ℕ → Type 0 where
  start : (k : ℕ) → elem k starts ≡ true → Reaches next starts k
  onward : (a k : ℕ) → Reaches next starts a → elem k (next a) ≡ true → Reaches next starts k

pub elem-enqueue_all :
    (k : ℕ) (q stack : List ℕ) → elem k (enqueue_all q stack) ≡ (elem k q || elem k stack)
unfolding enqueue_all
elem-enqueue_all k [] stack = refl
elem-enqueue_all k (e ∷ q) stack = ground (arith, elem-enqueue_all k q (e ∷ stack))

pub length-enqueue_all : (q stack : List ℕ) → length (enqueue_all q stack) ≡ length q + length stack
unfolding enqueue_all
length-enqueue_all [] stack = omega arith
length-enqueue_all (e ∷ q) stack = omega (arith, length-enqueue_all q (e ∷ stack))

-- How many neighbours the elements of the list have that are not encountered.
abbrev pub owed : (ℕ → List ℕ) → List ℕ → List ℕ → ℕ
owed next encountered [] = 0
owed next encountered (u ∷ us) =
    if elem u encountered
    then owed next encountered us
    else length (next u) + owed next encountered us

module _ (before : ℕ → ℕ → Bool) where
  pub elem-place : (k e : ℕ) (xs : List ℕ) → elem k (place before e xs) ≡ (e == k || elem k xs)
  unfolding place
  elem-place k e [] = refl
  elem-place k e (x ∷ xs) = elim (Bool-cases (before e x)) [
    | inl first ↦ rw first refl
    | inr later ↦ rw later (ground (arith, elem-place k e xs))
  ]

  pub elem-mark_encountered :
      (k e : ℕ) (xs : List ℕ) → elem k (mark_encountered before e xs) ≡ (e == k || elem k xs)
  unfolding mark_encountered
  elem-mark_encountered k e xs = elim (Bool-cases (elem e xs)) [
    | inl there ↦ rw there (known there (Bool-cases (e == k)))
    | inr new ↦ rw new (elem-place k e xs)
  ]
    where
      known :
          elem e xs ≡ true
          → ((e == k) ≡ true) ⊎ ((e == k) ≡ false)
          → elem k xs ≡ (e == k || elem k xs)
      known there (inl same) = rw same (subst (λ i. elem i xs ≡ true) (eq_of_== e k same) there)
      known there (inr other) = rw other refl

  owed-shrinks :
      (next : ℕ → List ℕ) (encountered : List ℕ) (e : ℕ) (us : List ℕ)
      → owed next (mark_encountered before e encountered) us ≤ owed next encountered us
  owed-shrinks next encountered e [] = omega arith
  owed-shrinks next encountered e (u ∷ us) =
      ground (arith, owed-shrinks next encountered e us, elem-mark_encountered u e encountered)

  owed-mark_encountered :
      (next : ℕ → List ℕ) (encountered : List ℕ) (e : ℕ) (us : List ℕ)
      → elem e encountered ≡ false
      → elem e us ≡ true
      → owed next (mark_encountered before e encountered) us + length (next e)
        ≤ owed next encountered us
  owed-mark_encountered next encountered e [] new h = absurd (ground arith)
  owed-mark_encountered next encountered e (u ∷ us) new h = elim (Bool-cases (u == e)) [
    | inl same ↦
        let eq = eq_of_== u e same in
        let fresh : elem u encountered ≡ false =
          subst (λ i. elem i encountered ≡ false) (sym eq) new in
        let met : elem u (mark_encountered before e encountered) ≡ true =
          elem-mark_encountered u e encountered ∙ rw (==_comm e u, same) refl in
        rw (fresh, met)
          (omega (arith, owed-shrinks next encountered e us, ap (λ i. length (next i)) eq))
    | inr other ↦
        let rest : elem e us ≡ true = ground (arith, h, other) in
        let ih = owed-mark_encountered next encountered e us new rest in
        let met : elem u (mark_encountered before e encountered) ≡ elem u encountered =
          elem-mark_encountered u e encountered ∙ rw (==_comm e u, other) refl in
        rw met (later (elem u encountered) ih)
  ]
    where
      later :
          (b : Bool)
          → owed next (mark_encountered before e encountered) us + length (next e)
            ≤ owed next encountered us
          → (if b
                then owed next (mark_encountered before e encountered) us
                else length (next u) + owed next (mark_encountered before e encountered) us)
              + length (next e)
            ≤ (if b then owed next encountered us else length (next u) + owed next encountered us)
      later true h = h
      later false h = omega (arith, h)

  -- One round for an element that is not encountered.
  pub evaluate-visit {ℓ} :
      {S : Type ℓ} (visit : S → List ℕ → ℕ → Visit S) (fuel : ℕ) (s : S) (e : ℕ)
      (rest encountered : List ℕ)
      → elem e encountered ≡ false
      → evaluate before visit (suc fuel) s (e ∷ rest) encountered
        ≡ evaluate before visit fuel
            (visit s encountered e).state
            (enqueue_all (visit s encountered e).queued rest)
            (settle before (visit s encountered e) e encountered)
  unfolding evaluate
  evaluate-visit visit fuel s e rest encountered new = rw (new, evaluate) refl
