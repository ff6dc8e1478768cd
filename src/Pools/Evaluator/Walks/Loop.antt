-- ===== src/Pools/Evaluator/Walks/Loop.antt =====
-- stack_evaluator::evaluate: the loop of a walk ends, with what can be reached.
use libbitcoin_blockchain.Prelude.{
  ℕ, zero, suc, ◌+◌, ◌<◌, ◌≤◌, ◌≡◌, refl, sym, subst, ◌∙◌, ◌⊎◌, Bool, true, false, ◌||◌, some, List,
  [], ◌∷◌, arith, length, elem, Bool-cases, inl, inr, or_cases, or_left, or_right, elem_cases,
  elem_here, elem_there,
}
use libbitcoin_blockchain.Pools.Evaluator.{
  Visit, enqueue_all, mark_encountered, mark_all, settle, evaluate,
}
use libbitcoin_blockchain.Pools.Evaluator.Walks.{
  Reaches, onward, elem-enqueue_all, length-enqueue_all, owed, elem-mark_encountered,
  owed-mark_encountered,
}

-- A visit of a walk: it enqueues neighbours, all that are not encountered, and marks its element
-- alone.
pub record IsWalk {ℓ} {S : Type ℓ} (next : ℕ → List ℕ) (visit : S → List ℕ → ℕ → Visit S)
    : Type ℓ where
  pub finished : (s : S) (encountered : List ℕ) (e : ℕ) → (visit s encountered e).finished ≡ true
  pub marked : (s : S) (encountered : List ℕ) (e : ℕ) → (visit s encountered e).marked ≡ []
  pub sound :
      (s : S) (encountered : List ℕ) (e k : ℕ)
      → elem k (visit s encountered e).queued ≡ true
      → elem k (next e) ≡ true
  pub complete :
      (s : S) (encountered : List ℕ) (e k : ℕ)
      → elem k (next e) ≡ true
      → (elem k (visit s encountered e).queued || elem k encountered) ≡ true
  pub few :
      (s : S) (encountered : List ℕ) (e : ℕ)
      → length (visit s encountered e).queued ≤ length (next e)

-- All elements are among `us`.
abbrev pub Within : List ℕ → List ℕ → Type 0
Within us xs = (k : ℕ) → elem k xs ≡ true → elem k us ≡ true

-- Between two rounds.
pub record IsLoop (next : ℕ → List ℕ) (us starts stack encountered : List ℕ) : Type 0 where
  pub within : Within us stack
  pub stacked : (k : ℕ) → elem k stack ≡ true → Reaches next starts k
  pub reached : (k : ℕ) → elem k encountered ≡ true → Reaches next starts k
  pub closed :
      (a k : ℕ)
      → elem a encountered ≡ true
      → elem k (next a) ≡ true
      → (elem k encountered || elem k stack) ≡ true

-- The end: what was on the stack or encountered is encountered, with all its neighbours.
pub record IsWalked (next : ℕ → List ℕ) (starts stack kept result : List ℕ) : Type 0 where
  pub reached : (k : ℕ) → elem k result ≡ true → Reaches next starts k
  pub closed : (a k : ℕ) → elem a result ≡ true → elem k (next a) ≡ true → elem k result ≡ true
  pub met : (k : ℕ) → elem k kept ≡ true → elem k result ≡ true
  pub popped : (k : ℕ) → elem k stack ≡ true → elem k result ≡ true

module _ {ℓ κ} {S : Type ℓ} (before : ℕ → ℕ → Bool) (next : ℕ → List ℕ)
    (visit : S → List ℕ → ℕ → Visit S) (walk : IsWalk next visit) (us starts : List ℕ)
    (bounded : (a k : ℕ) → elem a us ≡ true → elem k (next a) ≡ true → elem k us ≡ true)
    (Inv : S → List ℕ → Type κ)
    (keeps : (s : S) (encountered : List ℕ) (e : ℕ)
      → elem e encountered ≡ false
      → Inv s encountered
      → Inv (visit s encountered e).state (mark_encountered before e encountered)) where
  settle_lem :
      (s : S) (encountered : List ℕ) (e : ℕ)
      → settle before (visit s encountered e) e encountered ≡ mark_encountered before e encountered
  unfolding settle mark_all
  settle_lem s encountered e = rw (walk.finished s encountered e, walk.marked s encountered e) refl

  -- An element that is met already.
  skip-IsLoop :
      (e : ℕ) (rest encountered : List ℕ)
      → elem e encountered ≡ true
      → IsLoop next us starts (e ∷ rest) encountered
      → IsLoop next us starts rest encountered
  skip-IsLoop e rest encountered old h = record {
    within = λ k l. h.within k (elem_there k e rest l);
    stacked = λ k l. h.stacked k (elem_there k e rest l);
    reached = h.reached;
    closed =
        λ a k l m. skip k (or_cases (elem k encountered) (elem k (e ∷ rest)) (h.closed a k l m));
  }
    where
      skip :
          (k : ℕ)
          → (elem k encountered ≡ true) ⊎ (elem k (e ∷ rest) ≡ true)
          → (elem k encountered || elem k rest) ≡ true
      skip k (inl met) = or_left (elem k encountered) (elem k rest) met
      skip k (inr l) = elim (elem_cases k e rest l) [
        | inl same ↦
            or_left (elem k encountered) (elem k rest)
              (subst (λ i. elem i encountered ≡ true) same old)
        | inr later ↦ or_right (elem k encountered) (elem k rest) later
      ]

  -- What a visit leaves on the stack and in the map.
  stack_cases :
      (s : S) (e k : ℕ) (rest encountered : List ℕ)
      → elem k (enqueue_all (visit s encountered e).queued rest) ≡ true
      → (elem k (next e) ≡ true) ⊎ (elem k rest ≡ true)
  stack_cases s e k rest encountered l =
      let q = (visit s encountered e).queued in
      elim (or_cases (elem k q) (elem k rest) (sym (elem-enqueue_all k q rest) ∙ l)) [
        | inl new ↦ inl (walk.sound s encountered e k new)
        | inr old ↦ inr old
      ]

  mark_cases :
      (e k : ℕ) (encountered : List ℕ)
      → elem k (mark_encountered before e encountered) ≡ true
      → (e ≡ k) ⊎ (elem k encountered ≡ true)
  mark_cases e k encountered l =
      elem_cases k e encountered (sym (elem-mark_encountered before k e encountered) ∙ l)

  marked_there :
      (e k : ℕ) (encountered : List ℕ)
      → elem k (e ∷ encountered) ≡ true
      → elem k (mark_encountered before e encountered) ≡ true
  marked_there e k encountered l = elem-mark_encountered before k e encountered ∙ l

  stacked_there :
      (s : S) (e k : ℕ) (rest encountered : List ℕ)
      → (elem k (visit s encountered e).queued || elem k rest) ≡ true
      → elem k (enqueue_all (visit s encountered e).queued rest) ≡ true
  stacked_there s e k rest encountered l =
      elem-enqueue_all k (visit s encountered e).queued rest ∙ l

  visit-IsLoop :
      (s : S) (e : ℕ) (rest encountered : List ℕ)
      → IsLoop next us starts (e ∷ rest) encountered
      → IsLoop next us starts
          (enqueue_all (visit s encountered e).queued rest)
          (mark_encountered before e encountered)
  visit-IsLoop s e rest encountered h = record {
    within = λ k l. within k (stack_cases s e k rest encountered l);
    stacked = λ k l. stacked k (stack_cases s e k rest encountered l);
    reached = λ k l. reached k (mark_cases e k encountered l);
    closed = λ a k l m. closed a k m (mark_cases e a encountered l);
  }
    where
      q : List ℕ
      q = (visit s encountered e).queued

      marked : List ℕ
      marked = mark_encountered before e encountered

      within : (k : ℕ) → (elem k (next e) ≡ true) ⊎ (elem k rest ≡ true) → elem k us ≡ true
      within k (inl new) = bounded e k (h.within e (elem_here e rest)) new
      within k (inr old) = h.within k (elem_there k e rest old)

      stacked : (k : ℕ) → (elem k (next e) ≡ true) ⊎ (elem k rest ≡ true) → Reaches next starts k
      stacked k (inl new) = onward e k (h.stacked e (elem_here e rest)) new
      stacked k (inr old) = h.stacked k (elem_there k e rest old)

      reached : (k : ℕ) → (e ≡ k) ⊎ (elem k encountered ≡ true) → Reaches next starts k
      reached k (inl same) = subst (Reaches next starts) same (h.stacked e (elem_here e rest))
      reached k (inr old) = h.reached k old

      at_mark :
          (k : ℕ)
          → elem k (e ∷ encountered) ≡ true
          → (elem k marked || elem k (enqueue_all q rest)) ≡ true
      at_mark k l =
          or_left (elem k marked) (elem k (enqueue_all q rest)) (marked_there e k encountered l)

      at_stack :
          (k : ℕ)
          → (elem k q || elem k rest) ≡ true
          → (elem k marked || elem k (enqueue_all q rest)) ≡ true
      at_stack k l =
          or_right (elem k marked) (elem k (enqueue_all q rest))
            (stacked_there s e k rest encountered l)

      closed :
          (a k : ℕ)
          → elem k (next a) ≡ true
          → (e ≡ a) ⊎ (elem a encountered ≡ true)
          → (elem k marked || elem k (enqueue_all q rest)) ≡ true
      closed a k m (inl same) =
          elim (or_cases (elem k q) (elem k encountered)
            (walk.complete s encountered e k (subst (λ i. elem k (next i) ≡ true) (sym same) m))) [
              | inl new ↦ at_stack k (or_left (elem k q) (elem k rest) new)
              | inr old ↦ at_mark k (elem_there k e encountered old)
            ]
      closed a k m (inr old) =
          elim (or_cases (elem k encountered) (elem k (e ∷ rest)) (h.closed a k old m)) [
            | inl met ↦ at_mark k (elem_there k e encountered met)
            | inr l ↦ elim (elem_cases k e rest l) [
              | inl same ↦
                  at_mark k
                    (subst (λ i. elem i (e ∷ encountered) ≡ true) same (elem_here e encountered))
              | inr later ↦ at_stack k (or_right (elem k q) (elem k rest) later)
            ]
          ]

  -- From any state of the loop, with more fuel than the stack and the neighbours that are owed.
  pub evaluate_lem :
      (fuel : ℕ) (s : S) (stack encountered : List ℕ)
      → IsLoop next us starts stack encountered
      → Inv s encountered
      → length stack + owed next encountered us < fuel
      → (s' : S) × (result : List ℕ) × (evaluate before visit fuel s stack encountered
          ≡ some (s', result))
        × IsWalked next starts stack encountered result
        × Inv s' result
  unfolding evaluate
  evaluate_lem zero s stack encountered h i f = absurd (omega arith)
  evaluate_lem (suc fuel) s [] encountered h i f = (s, encountered, refl, ended, i)
    where
      ended : IsWalked next starts [] encountered encountered
      ended = record {
        reached = h.reached;
        closed = λ a k l m. ground (arith, h.closed a k l m);
        met = λ k l. l;
        popped = λ k l. ground (arith, l);
      }
  evaluate_lem (suc fuel) s (e ∷ rest) encountered h i f = elim (Bool-cases (elem e encountered)) [
    | inl old ↦
        let (s', result, returns, walked, inv) =
          evaluate_lem fuel s rest encountered (skip-IsLoop e rest encountered old h) i
            (omega (arith, f)) in
        (s', result, rw (old, evaluate) returns, skipped result old walked, inv)
    | inr new ↦
        let (s', result, returns, walked, inv) =
          evaluate_lem fuel (visit s encountered e).state
            (enqueue_all (visit s encountered e).queued rest)
            (mark_encountered before e encountered) (visit-IsLoop s e rest encountered h)
            (keeps s encountered e new i)
            (omega (
              arith,
              f,
              walk.few s encountered e,
              length-enqueue_all (visit s encountered e).queued rest,
              owed-mark_encountered before next encountered e us new
                  (h.within e (elem_here e rest)),
            )) in
        (
          s',
          result,
          rw (new, evaluate) (rw (settle_lem s encountered e) returns),
          visited result walked,
          inv,
        )
  ]
    where
      skipped :
          (result : List ℕ)
          → elem e encountered ≡ true
          → IsWalked next starts rest encountered result
          → IsWalked next starts (e ∷ rest) encountered result
      skipped result old w = record {
        reached = w.reached;
        closed = w.closed;
        met = w.met;
        popped = λ k l. elim (elem_cases k e rest l) [
          | inl same ↦ w.met k (subst (λ i. elem i encountered ≡ true) same old)
          | inr later ↦ w.popped k later
        ];
      }

      visited :
          (result : List ℕ)
          → IsWalked next starts
              (enqueue_all (visit s encountered e).queued rest)
              (mark_encountered before e encountered)
              result
          → IsWalked next starts (e ∷ rest) encountered result
      visited result w = record {
        reached = w.reached;
        closed = w.closed;
        met = λ k l. w.met k (marked_there e k encountered (elem_there k e encountered l));
        popped = λ k l. elim (elem_cases k e rest l) [
          | inl same ↦ w.met k (
              marked_there e k encountered
                (subst (λ i. elem i (e ∷ encountered) ≡ true) same (elem_here e encountered)))
          | inr later ↦ w.popped k (
              stacked_there s e k rest encountered
                (or_right (elem k (visit s encountered e).queued) (elem k rest) later))
        ];
      }
