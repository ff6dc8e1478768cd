-- ===== src/Pools/Evaluator/Order/Rounds.antt =====
-- transaction_order_calculator: the rounds of its evaluation.
use libbitcoin_blockchain.Prelude.{
  ℕ, zero, suc, ◌+◌, ◌<◌, ◌≤◌, ◌≡◌, refl, sym, ◌∙◌, subst, ap, ◌⊎◌, Bool, true, false, Option, some,
  List, [], ◌∷◌, ◌++◌, arith, elem, count, elem-count, elem-append, count-append, Bool-cases,
  List-cases, inl, inr, elem_cases, elem_here, elem_there,
}
use libbitcoin_blockchain.Pools.Evaluator.{
  Entries, enqueue_all, mark_encountered, mark_all, settle, evaluate, is_anchor, required,
  visit_order, order_transactions,
}
use libbitcoin_blockchain.Pools.Evaluator.Walks.{elem-mark_encountered, evaluate-visit}
use libbitcoin_blockchain.Pools.Evaluator.Order.{
  Requires, After, IsOrdered, After-snoc, elem-required, required-parents, required-inner,
}

module _ (before : ℕ → ℕ → Bool) (g : Entries) where
  abbrev run : ℕ → List ℕ → List ℕ → List ℕ → Option (List ℕ × List ℕ)
  run fuel ordered stack encountered =
      evaluate before (visit_order before g) fuel ordered stack encountered

  -- The rounds that take `top` off the stack leave it ordered and encountered.
  pub record Handled (ordered stack top encountered : List ℕ) : Type 0 where
    pub rounds : ℕ
    pub ordered' : List ℕ
    pub encountered' : List ℕ
    pub sorted : IsOrdered g ordered' encountered'
    pub met : (k : ℕ) → elem k top ≡ true → elem k encountered' ≡ true
    pub kept : (k : ℕ) → elem k encountered ≡ true → elem k encountered' ≡ true
    pub runs :
        (fuel : ℕ)
        → run (rounds + fuel) ordered (enqueue_all top stack) encountered
          ≡ run fuel ordered' stack encountered'

  only : (e k : ℕ) (b : Bool) → elem k (e ∷ []) ≡ true → (e ≡ k → b ≡ true) → b ≡ true
  only e k b l h = elim (elem_cases k e [] l) [
    | inl same ↦ h same
    | inr later ↦ absurd (ground arith)
  ]

  -- An element that is encountered is taken off the stack.
  skip-Handled :
      (ordered stack encountered : List ℕ) (e : ℕ)
      → IsOrdered g ordered encountered
      → elem e encountered ≡ true
      → Handled ordered stack (e ∷ []) encountered
  unfolding evaluate enqueue_all
  skip-Handled ordered stack encountered e h old = record {
    rounds = 1;
    ordered' = ordered;
    encountered' = encountered;
    sorted = h;
    met = λ k l.
        only e k (elem k encountered) l (λ same. subst (λ i. elem i encountered ≡ true) same old);
    kept = λ k l. l;
    runs = λ fuel. let one : 1 + fuel ≡ suc fuel = omega arith in rw one (rw (old, evaluate) refl);
  }

  -- An element that requires nothing more is ordered.
  order-Handled :
      (ordered stack encountered : List ℕ) (e : ℕ)
      → IsOrdered g ordered encountered
      → elem e encountered ≡ false
      → required before g encountered (g.parents e) ≡ []
      → Handled ordered stack (e ∷ []) encountered
  unfolding enqueue_all visit_order settle mark_all
  order-Handled ordered stack encountered e h new free = record {
    rounds = 1;
    ordered' = ordered ++ e ∷ [];
    encountered' = mark_encountered before e encountered;
    sorted = record {
      after = After-snoc g e ordered [] h.after (λ p r. satisfied p r);
      once = λ k.
          ground
            (arith, count-append k ordered (e ∷ []), h.once k, h.same k, elem-count k ordered, new);
      same = λ k. ground (
        arith,
        elem-append k ordered (e ∷ []),
        elem-mark_encountered before k e encountered,
        h.same k,
      );
    };
    met = λ k l. only e k (elem k (mark_encountered before e encountered)) l (λ same.
        elem-mark_encountered before k e encountered
        ∙ subst (λ i. elem i (e ∷ encountered) ≡ true) same (elem_here e encountered));
    kept = λ k l. elem-mark_encountered before k e encountered ∙ elem_there k e encountered l;
    runs = λ fuel.
        let one : 1 + fuel ≡ suc fuel = omega arith in
        rw one (
          evaluate-visit before (visit_order before g) fuel ordered e stack encountered new
          ∙ rw free refl);
  }
    where
      satisfied : (p : ℕ) → Requires g e p → elem p ordered ≡ true
      satisfied p (l, a) = elim (Bool-cases (elem p encountered)) [
        | inl met ↦ h.same p ∙ met
        | inr n ↦
            let r : elem p (required before g encountered (g.parents e)) ≡ true =
              elem-required before g encountered (g.parents e) p l a n in
            absurd (ground (arith, rw free at r))
      ]

  -- The elements above the stack, if each can be handled by itself.
  all-Handled :
      (top : List ℕ)
      → ((p : ℕ)
          → elem p top ≡ true
          → (ordered stack encountered : List ℕ) → IsOrdered g ordered encountered
          → Handled ordered stack (p ∷ []) encountered)
      → (ordered stack encountered : List ℕ) → IsOrdered g ordered encountered
      → Handled ordered stack top encountered
  unfolding enqueue_all
  all-Handled [] each ordered stack encountered h = record {
    rounds = 0;
    ordered' = ordered;
    encountered' = encountered;
    sorted = h;
    met = λ k l. absurd (ground arith);
    kept = λ k l. l;
    runs = λ fuel. let none_more : 0 + fuel ≡ fuel = omega arith in rw none_more refl;
  }
  all-Handled (p ∷ top) each ordered stack encountered h =
      let first =
        all-Handled top (λ q l. each q (elem_there q p top l)) ordered (p ∷ stack) encountered h in
      let then_ = each p (elem_here p top) first.ordered' stack first.encountered' first.sorted in
      record {
        rounds = first.rounds + then_.rounds;
        ordered' = then_.ordered';
        encountered' = then_.encountered';
        sorted = then_.sorted;
        met = λ k l. elim (elem_cases k p top l) [
          | inl same ↦ then_.met k (subst (λ i. elem i (p ∷ []) ≡ true) same (elem_here p []))
          | inr later ↦ then_.kept k (first.met k later)
        ];
        kept = λ k l. then_.kept k (first.kept k l);
        runs = λ fuel.
            let sum : first.rounds + then_.rounds + fuel ≡ first.rounds + (then_.rounds + fuel) =
              omega arith in
            ap (λ n. run n ordered (enqueue_all top (p ∷ stack)) encountered) sum
            ∙ first.runs (then_.rounds + fuel)
            ∙ then_.runs fuel;
      }

  required-none :
      (encountered xs : List ℕ)
      → ((p : ℕ) → elem p xs ≡ true → is_anchor g p ≡ false → elem p encountered ≡ true)
      → required before g encountered xs ≡ []
  unfolding required
  required-none encountered [] h = refl
  required-none encountered (x ∷ xs) h =
      let rest = required-none encountered xs (λ p l a. h p (elem_there p x xs l) a) in
      elim (Bool-cases (is_anchor g x)) [
        | inl anchor ↦ rw anchor rest
        | inr inner ↦ rw (inner, h x (elem_here x xs) inner) rest
      ]

  -- After its required parents an entry is ordered.
  last-Handled :
      (ordered stack encountered : List ℕ) (e : ℕ)
      → IsOrdered g ordered encountered
      → required before g encountered (g.parents e) ≡ []
      → Handled ordered stack (e ∷ []) encountered
  last-Handled ordered stack encountered e h free = elim (Bool-cases (elem e encountered)) [
    | inl old ↦ skip-Handled ordered stack encountered e h old
    | inr new ↦ order-Handled ordered stack encountered e h new free
  ]

  -- The round that finds `top` to be required, those that handle it, and the last.
  reenter-Handled :
      (ordered stack encountered top : List ℕ) (e : ℕ)
      → elem e encountered ≡ false
      → ((fuel : ℕ)
          → run (suc fuel) ordered (e ∷ stack) encountered
            ≡ run fuel ordered (enqueue_all top (e ∷ stack)) encountered)
      → ((p : ℕ) → Requires g e p → (elem p encountered ≡ true) ⊎ (elem p top ≡ true))
      → Handled ordered (e ∷ stack) top encountered
      → Handled ordered stack (e ∷ []) encountered
  unfolding enqueue_all
  reenter-Handled ordered stack encountered top e new round covered first =
      let then_ = last-Handled first.ordered' stack first.encountered' e first.sorted (
        required-none first.encountered' (g.parents e) (λ p l a. elim (covered p (l, a)) [
          | inl met ↦ first.kept p met
          | inr t ↦ first.met p t
        ])) in
      record {
        rounds = suc (first.rounds + then_.rounds);
        ordered' = then_.ordered';
        encountered' = then_.encountered';
        sorted = then_.sorted;
        met = then_.met;
        kept = λ k l. then_.kept k (first.kept k l);
        runs = λ fuel.
            let sum : suc (first.rounds + then_.rounds) + fuel
                ≡ suc (first.rounds + (then_.rounds + fuel)) =
              omega arith in
            ap (λ n. run n ordered (e ∷ stack) encountered) sum
            ∙ round (first.rounds + (then_.rounds + fuel))
            ∙ first.runs (then_.rounds + fuel)
            ∙ then_.runs fuel;
      }

  module _ (rank : ℕ → ℕ) (below : (e p : ℕ) → Requires g e p → rank p < rank e) where
    handle :
        (n e : ℕ)
        → rank e < n
        → (ordered stack encountered : List ℕ) → IsOrdered g ordered encountered
        → Handled ordered stack (e ∷ []) encountered
    unfolding visit_order settle mark_all enqueue_all
    handle zero e l ordered stack encountered h = absurd (omega arith)
    handle (suc n) e l ordered stack encountered h = elim (Bool-cases (elem e encountered)) [
      | inl old ↦ skip-Handled ordered stack encountered e h old
      | inr new ↦ elim (List-cases (required before g encountered (g.parents e))) [
        | inl free ↦ order-Handled ordered stack encountered e h new free
        | inr (p, top, more) ↦
            reenter-Handled ordered stack encountered (p ∷ top) e new
              (λ fuel.
                evaluate-visit before (visit_order before g) fuel ordered e stack encountered new
                ∙ rw more refl)
              (λ q r. covered p top more q r (Bool-cases (elem q encountered)))
              (all-Handled (p ∷ top) (λ q lq. handle n q (lower p top more q lq)) ordered
                (e ∷ stack) encountered h)
      ]
    ]
      where
        covered :
            (p : ℕ) (top : List ℕ)
            → required before g encountered (g.parents e) ≡ p ∷ top
            → (q : ℕ) → Requires g e q
            → (elem q encountered ≡ true) ⊎ (elem q encountered ≡ false)
            → (elem q encountered ≡ true) ⊎ (elem q (p ∷ top) ≡ true)
        covered p top more q r (inl met) = inl met
        covered p top more q (lq, a) (inr new) = inr (
            subst (λ xs. elem q xs ≡ true) more
              (elem-required before g encountered (g.parents e) q lq a new))

        lower :
            (p : ℕ) (top : List ℕ)
            → required before g encountered (g.parents e) ≡ p ∷ top
            → (q : ℕ) → elem q (p ∷ top) ≡ true
            → rank q < n
        lower p top more q lq =
            let there = subst (λ xs. elem q xs ≡ true) (sym more) lq in
            omega (
              arith,
              l,
              below e q (
                required-parents before g encountered (g.parents e) q there,
                required-inner before g encountered (g.parents e) q there,
              ),
            )

    -- Where the parents form no cycle (by a rank that falls from an entry to each parent that is no
    -- anchor), the calculator ends, with the same result for all greater fuel. It has each of the
    -- enqueued entries, no entry twice, and each entry after all of its parents but the anchors.
    pub order_transactions_lem :
        (entries : List ℕ)
        → (rounds : ℕ) × (ordered : List ℕ) × ((fuel : ℕ)
            → order_transactions before g (rounds + suc fuel) entries ≡ some ordered)
          × After g [] ordered
          × ((k : ℕ) → count k ordered ≤ 1)
          × ((k : ℕ) → elem k entries ≡ true → elem k ordered ≡ true)
    unfolding order_transactions evaluate
    order_transactions_lem entries =
        let h =
          all-Handled entries
            (λ p l ordered stack encountered o.
              handle (suc (rank p)) p (omega arith) ordered stack encountered o)
            [] [] [] (record { after = tt; once = λ k. omega arith; same = λ k. refl }) in
        (
          h.rounds,
          h.ordered',
          λ fuel. rw (h.runs (suc fuel)) refl,
          h.sorted.after,
          h.sorted.once,
          λ k l. h.sorted.same k ∙ h.met k l,
        )
