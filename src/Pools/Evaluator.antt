-- ===== src/Pools/Evaluator.antt =====
-- src/pools/utilities: stack_evaluator and its clients parent_closure_calculator,
-- child_closure_calculator, priority_calculator and transaction_order_calculator, over the entries
-- of the transaction pool. An entry is named by its hash, by which the evaluator identifies it.
pub mod Walks
pub mod Order
use libbitcoin_blockchain.Prelude.{
  ℕ, zero, suc, ◌+◌, ◌/◌, ◌%◌, ◌≡◌, Bool, true, false, not, ◌&&◌, Option, none, some, List, [], ◌∷◌,
  ◌++◌, ltb, ◌==◌, if◌then◌else◌, elem, size_add,
}

-- What the calculators read of the entries: parents in their order, children by ascending index,
-- fees and sizes.
pub record Entries : Type 0 where
  pub parents : ℕ → List ℕ
  pub children : ℕ → List ℕ
  pub fees : ℕ → ℕ
  pub size : ℕ → ℕ

unfoldable pub is_anchor : Entries → ℕ → Bool
is_anchor g e = elim (g.parents e) [ [] ↦ true | _ ∷ _ ↦ false ]

-- What a visit leaves: the calculator's own state, what it has enqueued in order, what it has
-- marked, and its result, by which the evaluator marks the element.
pub record Visit {ℓ} (S : Type ℓ) : Type ℓ where
  pub state : S
  pub queued : List ℕ
  pub marked : List ℕ
  pub finished : Bool

-- The back of the deque is the head of the list.
unfoldable pub enqueue_all : List ℕ → List ℕ → List ℕ
enqueue_all [] stack = stack
enqueue_all (e ∷ rest) stack = enqueue_all rest (e ∷ stack)

module _ (before : ℕ → ℕ → Bool) where
  unfoldable pub place : ℕ → List ℕ → List ℕ
  place e [] = e ∷ []
  place e (x ∷ rest) = if before e x then e ∷ x ∷ rest else x ∷ place e rest

  -- An insert into the map of encountered elements, in the order `before` of its keys.
  unfoldable pub mark_encountered : ℕ → List ℕ → List ℕ
  unfolding place
  mark_encountered e encountered = if elem e encountered then encountered else place e encountered

  unfoldable pub mark_all : List ℕ → List ℕ → List ℕ
  unfolding mark_encountered
  mark_all [] encountered = encountered
  mark_all (e ∷ rest) encountered = mark_all rest (mark_encountered e encountered)

  -- The map after a visit of e.
  unfoldable pub settle {ℓ} : {S : Type ℓ} → Visit S → ℕ → List ℕ → List ℕ
  unfolding mark_all
  settle v e encountered =
      if v.finished
      then mark_encountered e (mark_all v.marked encountered)
      else mark_all v.marked encountered

  -- The loop of evaluate, with fuel; `none` is the end of the fuel.
  unfoldable pub evaluate {ℓ} :
      {S : Type ℓ} → (S → List ℕ → ℕ → Visit S) → ℕ → S → List ℕ → List ℕ → Option (S × List ℕ)
  unfolding settle enqueue_all
  evaluate visit zero s stack encountered = none
  evaluate visit (suc fuel) s [] encountered = some (s, encountered)
  evaluate visit (suc fuel) s (e ∷ rest) encountered = elim (elem e encountered) [
    | true ↦ evaluate visit fuel s rest encountered
    | false ↦
        evaluate visit fuel (visit s encountered e).state
          (enqueue_all (visit s encountered e).queued rest)
          (settle (visit s encountered e) e encountered)
  ]

-- The elements that are not encountered.
unfoldable pub unmet : List ℕ → List ℕ → List ℕ
unmet encountered [] = []
unmet encountered (e ∷ rest) =
    let others = unmet encountered rest in if elem e encountered then others else e ∷ others

module _ (before : ℕ → ℕ → Bool) (g : Entries) where
  -- parent_closure_calculator::visit and get_closure
  unfoldable pub visit_parents : Unit {0} → List ℕ → ℕ → Visit (Unit {0})
  unfolding unmet
  visit_parents s encountered e = record {
    state = tt;
    queued = unmet encountered (g.parents e);
    marked = [];
    finished = true;
  }

  abbrev encountered_of {ℓ} : {S : Type ℓ} → Option (S × List ℕ) → Option (List ℕ)
  encountered_of none = none
  encountered_of (some (s, encountered)) = some encountered

  unfoldable pub get_parent_closure : ℕ → ℕ → Option (List ℕ)
  unfolding evaluate visit_parents
  get_parent_closure fuel tx = encountered_of (evaluate before visit_parents fuel tt (tx ∷ []) [])

  -- The elements of a cached closure that are not encountered, each once.
  unfoldable pub fresh : List ℕ → List ℕ → List ℕ
  unfolding mark_encountered
  fresh encountered [] = []
  fresh encountered (e ∷ rest) =
      let skipped = fresh encountered rest in
      let taken = fresh (mark_encountered before e encountered) rest in
      if elem e encountered then skipped else e ∷ taken

  abbrev visit_cached : List ℕ → List ℕ → ℕ → Option (List ℕ) → Visit (List ℕ)
  visit_cached closure encountered e none = record {
    state = closure ++ e ∷ [];
    queued = g.children e;
    marked = [];
    finished = true;
  }
  visit_cached closure encountered e (some cached) = record {
    state = closure ++ fresh encountered cached ++ e ∷ [];
    queued = [];
    marked = fresh encountered cached;
    finished = true;
  }

  -- child_closure_calculator::visit, with the closure and the cached closures, and get_closure
  unfoldable pub visit_children : (ℕ → Option (List ℕ)) → List ℕ → List ℕ → ℕ → Visit (List ℕ)
  unfolding fresh
  visit_children cached_child_closures closure encountered e =
      visit_cached closure encountered e (cached_child_closures e)

  abbrev state_of {ℓ} : {S : Type ℓ} → Option (S × List ℕ) → Option S
  state_of none = none
  state_of (some (s, encountered)) = some s

  unfoldable pub get_child_closure : (ℕ → Option (List ℕ)) → ℕ → ℕ → Option (List ℕ)
  unfolding evaluate visit_children enqueue_all
  get_child_closure cached_child_closures fuel tx = state_of (
      evaluate before (visit_children cached_child_closures) fuel []
        (enqueue_all (g.children tx) []) [])

  -- priority_calculator::visit, with the cumulative fees and size, and prioritize for one element
  unfoldable pub visit_priority : ℕ × ℕ → List ℕ → ℕ → Visit (ℕ × ℕ)
  unfolding is_anchor
  visit_priority (fees, size) encountered e = record {
    state =
        if is_anchor g e
        then (fees, size)
        else (size_add fees (g.fees e), size_add size (g.size e));
    queued = g.parents e;
    marked = [];
    finished = true;
  }

  unfoldable pub prioritize : ℕ → ℕ → Option (ℕ × ℕ)
  unfolding evaluate visit_priority
  prioritize fuel tx = state_of (evaluate before visit_priority fuel (0, 0) (tx ∷ []) [])

  -- transaction_pool::calculate_priority; the quotient before its conversion to a
  -- floating point number, and `maximum` for the greatest priority.
  unfoldable pub calculate_priority : ℕ → ℕ → ℕ → Option ℕ
  unfolding prioritize
  calculate_priority maximum fuel tx = elim (prioritize fuel tx) [
    | none ↦ none
    | some (fees, size) ↦ if ltb 0 size then some (fees / size) else some maximum
  ]

  -- transaction_order_calculator::visit, with the ordered list, and
  -- order_transactions for the entries that are enqueued.
  unfoldable pub required : List ℕ → List ℕ → List ℕ
  unfolding is_anchor
  required encountered [] = []
  required encountered (p ∷ rest) =
      let others = required encountered rest in
      if not (is_anchor g p) && not (elem p encountered) then p ∷ others else others

  abbrev visit_required : List ℕ → ℕ → List ℕ → Visit (List ℕ)
  visit_required ordered e [] = record {
    state = ordered ++ e ∷ [];
    queued = [];
    marked = [];
    finished = true;
  }
  visit_required ordered e (p ∷ rest) = record {
    state = ordered;
    queued = e ∷ p ∷ rest;
    marked = [];
    finished = false;
  }

  unfoldable pub visit_order : List ℕ → List ℕ → ℕ → Visit (List ℕ)
  unfolding required
  visit_order ordered encountered e = visit_required ordered e (required encountered (g.parents e))

  unfoldable pub order_transactions : ℕ → List ℕ → Option (List ℕ)
  unfolding evaluate visit_order enqueue_all
  order_transactions fuel entries =
      state_of (evaluate before visit_order fuel [] (enqueue_all entries []) [])
