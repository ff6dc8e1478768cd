-- ===== src/Examples/Evaluations.antt =====
-- The calculators of the transaction pool on four entries: 4 spends 2 and 3, 3 spends 1 and 2, and
-- 2 spends the anchor 1; and the links of three entries.
use libbitcoin_blockchain.Prelude.{
  ℕ, suc, ◌+◌, ◌%◌, ◌<◌, ◌≤◌, ◌≡◌, refl, true, none, some, List, [], ◌∷◌, arith, ltb, ◌==◌,
  if◌then◌else◌, elem, count, size_mod,
}
use libbitcoin_blockchain.Pools.TransactionEntry.{Graph, remove_parents, remove_child}
use libbitcoin_blockchain.Pools.TransactionEntry.Links.{
  IsLinked, child_count, remove_parents-IsLinked,
}
use libbitcoin_blockchain.Pools.Evaluator.{
  Entries, get_parent_closure, get_child_closure, prioritize, calculate_priority,
  order_transactions,
}
use libbitcoin_blockchain.Pools.Evaluator.Walks.Closures.{
  IsClosure, total, get_parent_closure_lem, prioritize_lem,
}
use libbitcoin_blockchain.Pools.Evaluator.Order.{Requires, After}
use libbitcoin_blockchain.Pools.Evaluator.Order.Rounds.{order_transactions_lem}

abbrev parents_of : ℕ → List ℕ
parents_of e =
    if e == 4 then 2 ∷ 3 ∷ [] else if e == 3 then 1 ∷ 2 ∷ [] else if e == 2 then 1 ∷ [] else []

abbrev children_of : ℕ → List ℕ
children_of e =
    if e == 1 then 2 ∷ 3 ∷ [] else if e == 2 then 3 ∷ 4 ∷ [] else if e == 3 then 4 ∷ [] else []

abbrev entries : Entries
entries = record {
  parents = parents_of;
  children = children_of;
  fees = λ e. e + 100;
  size = λ e. 10;
}

abbrev all_entries : List ℕ
all_entries = 1 ∷ 2 ∷ 3 ∷ 4 ∷ []

parents_known :
    (a k : ℕ) → elem a all_entries ≡ true → elem k (parents_of a) ≡ true → elem k all_entries ≡ true
parents_known a k h l = ground arith

parents_fall : (e p : ℕ) → Requires entries e p → p < e
parents_fall e p (l, a) = ground arith

get_parent_closure_lem_example :
    (result : List ℕ) × (get_parent_closure ltb entries 7 4 ≡ some result)
    × IsClosure entries 4 result
get_parent_closure_lem_example =
    get_parent_closure_lem ltb entries all_entries 4 parents_known refl 7 (omega arith)

get_parent_closure_test : get_parent_closure ltb entries 7 3 ≡ some (1 ∷ 2 ∷ 3 ∷ [])
unfolding get_parent_closure
get_parent_closure_test = refl

prioritize_lem_example :
    (closure : List ℕ) × IsClosure entries 4 closure
    × (prioritize ltb entries 7 4
        ≡ some (
          total entries entries.fees closure % size_mod,
          total entries entries.size closure % size_mod,
        ))
prioritize_lem_example = prioritize_lem ltb entries all_entries 4 parents_known refl 7 (omega arith)

calculate_priority_test : calculate_priority ltb entries 1000 7 4 ≡ some 10
unfolding calculate_priority
calculate_priority_test = refl

order_transactions_lem_example :
    (rounds : ℕ) × (ordered : List ℕ) × ((fuel : ℕ)
      → order_transactions ltb entries (rounds + suc fuel) (4 ∷ 2 ∷ []) ≡ some ordered)
    × After entries [] ordered
    × ((k : ℕ) → count k ordered ≤ 1)
    × ((k : ℕ) → elem k (4 ∷ 2 ∷ []) ≡ true → elem k ordered ≡ true)
order_transactions_lem_example =
    order_transactions_lem ltb entries (λ e. e) parents_fall (4 ∷ 2 ∷ [])

order_transactions_test : order_transactions ltb entries 9 (4 ∷ []) ≡ some (2 ∷ 3 ∷ 4 ∷ [])
unfolding order_transactions
order_transactions_test = refl

get_child_closure_test :
    get_child_closure ltb entries (λ e. if e == 3 then some (4 ∷ []) else none) 9 2
    ≡ some (4 ∷ 3 ∷ [])
unfolding get_child_closure
get_child_closure_test = refl

-- 2 spends two outputs of 1 and one of 3.
abbrev links : Graph
links h =
    if h == 1
    then record { parents = []; children = (0, 2) ∷ (1, 2) ∷ [] }
    else if h == 2
    then record { parents = 1 ∷ 1 ∷ 3 ∷ []; children = [] }
    else if h == 3
    then record { parents = []; children = (0, 2) ∷ [] }
    else record { parents = []; children = [] }

links-IsLinked : IsLinked links
links-IsLinked e c = ground arith

remove_parents-IsLinked_example :
    IsLinked (remove_parents links 2)
    × ((remove_parents links 2 2).parents ≡ [])
    × ((e : ℕ) → child_count 2 (remove_parents links 2 e).children ≡ 0)
remove_parents-IsLinked_example = remove_parents-IsLinked links 2 links-IsLinked

-- A child that is removed by itself keeps the other relation of its two.
remove_child_test : (remove_child links 1 2 1).children ≡ (1, 2) ∷ []
unfolding remove_child
remove_child_test = refl
