-- ===== src/Pools/TransactionEntry.antt =====
-- src/pools/transaction_entry.cpp: the links of the entries of the transaction pool. An entry is
-- named by its hash, by which entries are compared; the store has the links of each. A child is kept
-- with the index of the output that it spends: an index is in the bimap once, but a child may be in
-- it at several. The relations are listed in the order of their insertion, which is the order of
-- the right view among equal children; the left view, by index, is only searched, or walked by
-- remove_children, which does the same in any order.
pub mod Links
use libbitcoin_blockchain.Prelude.{
  ℕ, ◌≡◌, Bool, true, false, not, ◌&&◌, ◌||◌, Option, none, some, List, [], ◌∷◌, ◌++◌, ltb, ◌==◌,
  if◌then◌else◌, elem,
}

pub record Entry : Type 0 where
  pub parents : List ℕ
  pub children : List (ℕ × ℕ)

abbrev pub Graph : Type 0
Graph = ℕ → Entry

abbrev pub set : Graph → ℕ → Entry → Graph
set g self entry = λ h. if self == h then entry else g h

unfoldable pub add_parent : Graph → ℕ → ℕ → Graph
add_parent g self parent =
    set g self (record { parents = (g self).parents ++ parent ∷ []; children = (g self).children })

-- The loop of remove_parent.
unfoldable pub erase_parent : ℕ → Bool → List ℕ → List ℕ
erase_parent parent all_instances [] = []
erase_parent parent all_instances (x ∷ rest) =
    let others = erase_parent parent all_instances rest in
    if x == parent then (if all_instances then others else rest) else x ∷ others

unfoldable pub remove_parent : Graph → ℕ → ℕ → Bool → Graph
unfolding erase_parent
remove_parent g self parent all_instances = set g self (record {
  parents = erase_parent parent all_instances (g self).parents;
  children = (g self).children;
})

-- The two views of the bimap of children.
unfoldable pub has_child : ℕ → List (ℕ × ℕ) → Bool
has_child child [] = false
has_child child ((i, c) ∷ rest) = c == child || has_child child rest

unfoldable pub child_at : ℕ → List (ℕ × ℕ) → Option ℕ
child_at index [] = none
child_at index ((i, c) ∷ rest) =
    let later = child_at index rest in if i == index then some c else later

abbrev is_free : Option ℕ → Bool
is_free none = true
is_free (some c) = false

unfoldable pub add_child : Graph → ℕ → ℕ → ℕ → Graph
unfolding child_at
add_child g self index child =
    if is_free (child_at index (g self).children)
    then set g self
        (record { parents = (g self).parents; children = (g self).children ++ (index, child) ∷ [] })
    else g

-- The relation of the child that find gives in the multiset, its first by insertion, is erased.
unfoldable pub erase_child : ℕ → List (ℕ × ℕ) → List (ℕ × ℕ)
erase_child child [] = []
erase_child child ((i, c) ∷ rest) =
    let others = erase_child child rest in if c == child then rest else (i, c) ∷ others

-- The relation at an index is erased.
unfoldable pub erase_index : ℕ → List (ℕ × ℕ) → List (ℕ × ℕ)
erase_index index [] = []
erase_index index ((i, c) ∷ rest) =
    let others = erase_index index rest in if i == index then rest else (i, c) ∷ others

-- remove_child(index): the child forgets this parent once.
unfoldable pub remove_child_at : Graph → ℕ → ℕ → Graph
unfolding remove_parent erase_index child_at
remove_child_at g self index = elim (child_at index (g self).children) [
  | none ↦ g
  | some child ↦
      let g' = remove_parent g child self false in
      set g' self
        (record { parents = (g' self).parents; children = erase_index index (g' self).children })
]

-- The child forgets this parent wholly, and one relation of the child is erased.
unfoldable pub unlink : Graph → ℕ → ℕ → Graph
unfolding remove_parent erase_child
unlink g self child =
    let g' = remove_parent g child self true in
    set g' self
      (record { parents = (g' self).parents; children = erase_child child (g' self).children })

-- remove_child(child)
unfoldable pub remove_child : Graph → ℕ → ℕ → Graph
unfolding unlink has_child
remove_child g self child = if has_child child (g self).children then unlink g self child else g

-- The loop of remove_parents.
unfoldable pub leave_parents : Graph → ℕ → List ℕ → Graph
unfolding remove_child
leave_parents g self [] = g
leave_parents g self (parent ∷ rest) = leave_parents (remove_child g parent self) self rest

unfoldable pub remove_parents : Graph → ℕ → Graph
unfolding leave_parents
remove_parents g self =
    let g' = leave_parents g self (g self).parents in
    set g' self (record { parents = []; children = (g' self).children })

-- The loop of remove_children.
unfoldable pub forget_children : Graph → ℕ → List (ℕ × ℕ) → Graph
unfolding remove_parent
forget_children g self [] = g
forget_children g self ((i, c) ∷ rest) = forget_children (remove_parent g c self true) self rest

unfoldable pub remove_children : Graph → ℕ → Graph
unfolding forget_children
remove_children g self =
    let g' = forget_children g self (g self).children in
    set g' self (record { parents = (g' self).parents; children = [] })
