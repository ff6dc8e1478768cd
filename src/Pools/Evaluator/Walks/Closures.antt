-- ===== src/Pools/Evaluator/Walks/Closures.antt =====
-- parent_closure_calculator and priority_calculator: the ancestors of an entry, and the sums over
-- them.
use libbitcoin_blockchain.Prelude.{
  ℕ, suc, ◌+◌, ◌%◌, ◌<◌, ◌≤◌, ◌≡◌, refl, subst, Bool, true, false, ◌||◌, some, List, [], ◌∷◌, arith,
  ◌==◌, if◌then◌else◌, length, elem, count, elem-count, Bool-cases, inl, inr, elem_cases, elem_here,
  or_left, or_right, size_mod, size_add,
}
use libbitcoin_blockchain.Pools.Evaluator.{
  Entries, unmet, place, mark_encountered, visit_parents, get_parent_closure, visit_priority,
  prioritize, is_anchor,
}
use libbitcoin_blockchain.Pools.Evaluator.Walks.{Reaches, start, onward, owed}
use libbitcoin_blockchain.Pools.Evaluator.Walks.Loop.{IsWalk, IsLoop, IsWalked, evaluate_lem}

elem-unmet :
    (k : ℕ) (encountered xs : List ℕ) → elem k (unmet encountered xs) ≡ true → elem k xs ≡ true
unfolding unmet
elem-unmet k encountered [] h = h
elem-unmet k encountered (x ∷ xs) h = ground (arith, h, elem-unmet k encountered xs)

unmet_or_met :
    (k : ℕ) (encountered xs : List ℕ)
    → elem k xs ≡ true
    → (elem k (unmet encountered xs) || elem k encountered) ≡ true
unfolding unmet
unmet_or_met k encountered [] h = absurd (ground arith)
unmet_or_met k encountered (x ∷ xs) h = elim (Bool-cases (elem x encountered)) [
  | inl met ↦ rw met (elim (elem_cases k x xs h) [
    | inl same ↦
        or_right (elem k (unmet encountered xs)) (elem k encountered)
          (subst (λ i. elem i encountered ≡ true) same met)
    | inr later ↦ unmet_or_met k encountered xs later
  ])
  | inr new ↦ rw new (elim (elem_cases k x xs h) [
    | inl same ↦ or_left (elem k (x ∷ unmet encountered xs)) (elem k encountered) (
        subst (λ i. elem i (x ∷ unmet encountered xs) ≡ true) same
          (elem_here x (unmet encountered xs)))
    | inr later ↦ ground (arith, unmet_or_met k encountered xs later)
  ])
]

length-unmet : (encountered xs : List ℕ) → length (unmet encountered xs) ≤ length xs
unfolding unmet
length-unmet encountered [] = omega arith
length-unmet encountered (x ∷ xs) = ground (arith, length-unmet encountered xs)

visit_parents-IsWalk :
    (before : ℕ → ℕ → Bool) (g : Entries) → IsWalk g.parents (visit_parents before g)
unfolding visit_parents
visit_parents-IsWalk before g = record {
  finished = λ s encountered e. refl;
  marked = λ s encountered e. refl;
  sound = λ s encountered e k h. elem-unmet k encountered (g.parents e) h;
  complete = λ s encountered e k h. unmet_or_met k encountered (g.parents e) h;
  few = λ s encountered e. length-unmet encountered (g.parents e);
}

visit_priority-IsWalk :
    (before : ℕ → ℕ → Bool) (g : Entries) → IsWalk g.parents (visit_priority before g)
unfolding visit_priority
visit_priority-IsWalk before g = record {
  finished = λ s encountered e. refl;
  marked = λ s encountered e. refl;
  sound = λ s encountered e k h. h;
  complete = λ s encountered e k h. rw h refl;
  few = λ s encountered e. omega arith;
}

-- The entry and its ancestors, each once.
pub record IsClosure (g : Entries) (tx : ℕ) (result : List ℕ) : Type 0 where
  pub once : (k : ℕ) → count k result ≤ 1
  pub sound : (k : ℕ) → elem k result ≡ true → Reaches g.parents (tx ∷ []) k
  pub complete : (k : ℕ) → Reaches g.parents (tx ∷ []) k → elem k result ≡ true

-- The sum over the entries of a list that are no anchors.
abbrev pub total : Entries → (ℕ → ℕ) → List ℕ → ℕ
total g f [] = 0
total g f (e ∷ es) = if is_anchor g e then total g f es else f e + total g f es

module _ (before : ℕ → ℕ → Bool) where
  count-place :
      (k e : ℕ) (xs : List ℕ)
      → count k (place before e xs) ≡ (if e == k then suc (count k xs) else count k xs)
  unfolding place
  count-place k e [] = refl
  count-place k e (x ∷ xs) = elim (Bool-cases (before e x)) [
    | inl first ↦ rw first refl
    | inr later ↦ rw later (ground (arith, count-place k e xs))
  ]

  total-place :
      (g : Entries) (f : ℕ → ℕ) (e : ℕ) (xs : List ℕ)
      → total g f (place before e xs) ≡ total g f (e ∷ xs)
  unfolding place
  total-place g f e [] = refl
  total-place g f e (x ∷ xs) = elim (Bool-cases (before e x)) [
    | inl first ↦ rw first refl
    | inr later ↦ rw later (ground (arith, total-place g f e xs))
  ]

  once_more :
      (e : ℕ) (encountered : List ℕ)
      → elem e encountered ≡ false
      → ((k : ℕ) → count k encountered ≤ 1)
      → (k : ℕ) → count k (mark_encountered before e encountered) ≤ 1
  unfolding mark_encountered
  once_more e encountered new once k =
      rw new (ground (arith, count-place k e encountered, once k, elem-count e encountered, new))

module _ (before : ℕ → ℕ → Bool) (g : Entries) (us : List ℕ) (tx : ℕ)
    (bounded : (a k : ℕ) → elem a us ≡ true → elem k (g.parents a) ≡ true → elem k us ≡ true)
    (known : elem tx us ≡ true) where
  first-IsLoop : IsLoop g.parents us (tx ∷ []) (tx ∷ []) []
  first-IsLoop = record {
    within = λ k l. elim (elem_cases k tx [] l) [
      | inl same ↦ subst (λ i. elem i us ≡ true) same known
      | inr later ↦ absurd (ground arith)
    ];
    stacked = λ k l. start k l;
    reached = λ k l. absurd (ground arith);
    closed = λ a k l m. absurd (ground arith);
  }

  IsClosure-IsWalked :
      (result : List ℕ)
      → IsWalked g.parents (tx ∷ []) (tx ∷ []) [] result
      → ((k : ℕ) → count k result ≤ 1)
      → IsClosure g tx result
  IsClosure-IsWalked result w once = record { once = once; sound = w.reached; complete = complete }
    where
      complete : (k : ℕ) → Reaches g.parents (tx ∷ []) k → elem k result ≡ true
      complete _ (start k l) = w.popped k l
      complete _ (onward a k r l) = w.closed a k (complete a r) l

  -- Given a list that has the entry and all parents of its elements, and more fuel than these have
  -- parents and one, the closure is found: it is the entry and all its ancestors, each once.
  pub get_parent_closure_lem :
      (fuel : ℕ)
      → 1 + owed g.parents [] us < fuel
      → (result : List ℕ) × (get_parent_closure before g fuel tx ≡ some result)
        × IsClosure g tx result
  unfolding get_parent_closure
  get_parent_closure_lem fuel f =
      let (s, result, e, w, once) =
        evaluate_lem before g.parents (visit_parents before g) (visit_parents-IsWalk before g) us
          (tx ∷ []) bounded (λ s encountered. (k : ℕ) → count k encountered ≤ 1)
          (λ s encountered e new h. once_more before e encountered new h) fuel tt (tx ∷ []) []
          first-IsLoop (λ k. omega arith) f in
      (result, rw e refl, IsClosure-IsWalked result w once)

  -- The sums of the entries that are encountered.
  abbrev Summed : ℕ × ℕ → List ℕ → Type 0
  Summed s encountered =
      (s.0 ≡ total g g.fees encountered % size_mod)
      × (s.1 ≡ total g g.size encountered % size_mod)
      × ((k : ℕ) → count k encountered ≤ 1)

  sum_more :
      (f : ℕ → ℕ) (sum e : ℕ) (encountered : List ℕ)
      → elem e encountered ≡ false
      → sum ≡ total g f encountered % size_mod
      → (if is_anchor g e then sum else size_add sum (f e))
        ≡ total g f (mark_encountered before e encountered) % size_mod
  unfolding mark_encountered
  sum_more f sum e encountered new h =
      rw (new, total-place before g f e encountered) (more (is_anchor g e))
    where
      more :
          (b : Bool)
          → (if b then sum else size_add sum (f e))
            ≡ (if b then total g f encountered else f e + total g f encountered) % size_mod
      more true = h
      more false = omega (arith, h)

  visit_priority-Summed :
      (s : ℕ × ℕ) (encountered : List ℕ) (e : ℕ)
      → elem e encountered ≡ false
      → Summed s encountered
      → Summed
          (visit_priority before g s encountered e).state
          (mark_encountered before e encountered)
  unfolding visit_priority
  visit_priority-Summed (fees, size) encountered e new (h, i, once) =
      let p = sum_more g.fees fees e encountered new h in
      let q = sum_more g.size size e encountered new i in
      let o = once_more before e encountered new once in
      elim (Bool-cases (is_anchor g e)) [
        | inl anchor ↦ rw anchor (rw anchor at p, rw anchor at q, o)
        | inr inner ↦ rw inner (rw inner at p, rw inner at q, o)
      ]

  -- Given a list that has the entry and all parents of its elements, and more fuel than these have
  -- parents and one, the cumulative fees and size are the sums over the entry and all its
  -- ancestors, each counted once and without the anchors, which have no parents. Both wrap at 2 ^ 64.
  pub prioritize_lem :
      (fuel : ℕ)
      → 1 + owed g.parents [] us < fuel
      → (closure : List ℕ) × IsClosure g tx closure
        × (prioritize before g fuel tx
            ≡ some (total g g.fees closure % size_mod, total g g.size closure % size_mod))
  unfolding prioritize
  prioritize_lem fuel f =
      let (s, result, e, w, sums) =
        evaluate_lem before g.parents (visit_priority before g) (visit_priority-IsWalk before g) us
          (tx ∷ []) bounded Summed visit_priority-Summed fuel (0, 0) (tx ∷ []) [] first-IsLoop
          (refl, refl, λ k. omega arith) f in
      (result, IsClosure-IsWalked result w sums.2, rw e (same s result sums))
    where
      same :
          (s : ℕ × ℕ) (closure : List ℕ)
          → Summed s closure
          → some s ≡ some (total g g.fees closure % size_mod, total g g.size closure % size_mod)
      same (a, b) closure (x, y, once) = rw (x, y) refl
