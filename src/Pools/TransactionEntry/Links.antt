-- ===== src/Pools/TransactionEntry/Links.antt =====
-- transaction_entry: an entry is among the parents of another as often as that is among its children.
use libbitcoin_blockchain.Prelude.{
  ℕ, suc, ◌-◌, ◌≡◌, refl, sym, ◌∙◌, ap, subst, ◌⊎◌, eq_of_==, ==_self, Bool, true, false, ◌&&◌,
  List, [], ◌∷◌, arith, ◌==◌, if◌then◌else◌, count, Bool-cases, inl, inr,
}
use libbitcoin_blockchain.Pools.TransactionEntry.{
  Graph, remove_parent, has_child, erase_child, unlink, remove_child, leave_parents, remove_parents,
}

-- How often the child is in the bimap.
abbrev pub child_count : ℕ → List (ℕ × ℕ) → ℕ
child_count k [] = 0
child_count k ((i, c) ∷ rest) = if c == k then suc (child_count k rest) else child_count k rest

abbrev pub IsLinked : Graph → Type 0
IsLinked g = (e c : ℕ) → count e (g c).parents ≡ child_count c (g e).children

count-erase_child :
    (k child : ℕ) (xs : List (ℕ × ℕ))
    → child_count k (erase_child child xs)
      ≡ (if child == k then child_count k xs - 1 else child_count k xs)
unfolding erase_child
count-erase_child k child [] = ground arith
count-erase_child k child ((i, c) ∷ xs) = ground (arith, count-erase_child k child xs)

count-has_child : (k : ℕ) (xs : List (ℕ × ℕ)) → has_child k xs ≡ false → child_count k xs ≡ 0
unfolding has_child
count-has_child k [] h = refl
count-has_child k ((i, c) ∷ xs) h = ground (arith, h, count-has_child k xs)

remove_parent-children :
    (g : Graph) (self parent e : ℕ) (all : Bool)
    → (remove_parent g self parent all e).children ≡ (g e).children
unfolding remove_parent
remove_parent-children g self parent e all = elim (Bool-cases (self == e)) [
  | inl same ↦ rw same (ap (λ i. (g i).children) (eq_of_== self e same))
  | inr other ↦ rw other refl
]

remove_parent-parents :
    (g : Graph) (self parent e : ℕ) (all : Bool)
    → (self == e) ≡ false
    → (remove_parent g self parent all e).parents ≡ (g e).parents
unfolding remove_parent
remove_parent-parents g self parent e all other = rw other refl

unlink-children :
    (g : Graph) (self child e : ℕ)
    → (unlink g self child e).children
      ≡ (if self == e then erase_child child (g e).children else (g e).children)
unfolding unlink
unlink-children g self child e = elim (Bool-cases (self == e)) [
  | inl same ↦ rw same (
      ap (erase_child child) (
        remove_parent-children g child self self true
        ∙ ap (λ i. (g i).children) (eq_of_== self e same)))
  | inr other ↦ rw other (remove_parent-children g child self e true)
]

unlink-parents :
    (g : Graph) (self child c : ℕ)
    → (child == c) ≡ false
    → (unlink g self child c).parents ≡ (g c).parents
unfolding unlink
unlink-parents g self child c other = elim (Bool-cases (self == c)) [
  | inl same ↦ rw same (
      ap (λ i. (remove_parent g child self true i).parents) (eq_of_== self c same)
      ∙ remove_parent-parents g child self c true other)
  | inr apart ↦ rw apart (remove_parent-parents g child self c true other)
]

-- A removed child: the bimap of the entry loses one relation of it, no other bimap changes, and only
-- the child's parents do.
remove_child-children :
    (g : Graph) (self child e k : ℕ)
    → child_count k (remove_child g self child e).children ≡ (
        if self == e && child == k
        then child_count k (g e).children - 1
        else child_count k (g e).children)
unfolding remove_child
remove_child-children g self child e k = elim (Bool-cases (has_child child (g self).children)) [
  | inl there ↦ rw (there, unlink-children g self child e) (erased (self == e))
  | inr absent ↦ rw absent (kept (Bool-cases (self == e)) (Bool-cases (child == k)) absent)
]
  where
    erased :
        (b : Bool)
        → child_count k (if b then erase_child child (g e).children else (g e).children) ≡ (
            if b && child == k
            then child_count k (g e).children - 1
            else child_count k (g e).children)
    erased true = count-erase_child k child (g e).children
    erased false = refl

    kept :
        ((self == e) ≡ true) ⊎ ((self == e) ≡ false)
        → ((child == k) ≡ true) ⊎ ((child == k) ≡ false)
        → has_child child (g self).children ≡ false
        → child_count k (g e).children ≡ (
            if self == e && child == k
            then child_count k (g e).children - 1
            else child_count k (g e).children)
    kept (inr other) d absent = rw other refl
    kept (inl same) (inr other) absent = rw (same, other) refl
    kept (inl same) (inl this) absent =
        let none_there : child_count k (g e).children ≡ 0 = count-has_child k (g e).children (
          subst (λ i. has_child i (g e).children ≡ false) (eq_of_== child k this)
            (subst (λ i. has_child child (g i).children ≡ false) (eq_of_== self e same) absent)) in
        rw (same, this, none_there) refl

remove_child-parents :
    (g : Graph) (self child c : ℕ)
    → (child == c) ≡ false
    → (remove_child g self child c).parents ≡ (g c).parents
unfolding remove_child
remove_child-parents g self child c other = elim (Bool-cases (has_child child (g self).children)) [
  | inl there ↦ rw there (unlink-parents g self child c other)
  | inr absent ↦ rw absent refl
]

leave_parents-parents :
    (ps : List ℕ) (g : Graph) (self c : ℕ)
    → (self == c) ≡ false
    → (leave_parents g self ps c).parents ≡ (g c).parents
unfolding leave_parents
leave_parents-parents [] g self c other = refl
leave_parents-parents (p ∷ ps) g self c other =
    leave_parents-parents ps (remove_child g p self) self c other
    ∙ remove_child-parents g p self c other

leave_parents-children :
    (ps : List ℕ) (g : Graph) (self e k : ℕ)
    → child_count k (leave_parents g self ps e).children ≡ (
        if self == k
        then child_count k (g e).children - count e ps
        else child_count k (g e).children)
unfolding leave_parents
leave_parents-children [] g self e k = ground arith
leave_parents-children (p ∷ ps) g self e k = ground (
  arith,
  leave_parents-children ps (remove_child g p self) self e k,
  remove_child-children g p self e k,
)

remove_parents-children :
    (g : Graph) (self e k : ℕ)
    → child_count k (remove_parents g self e).children ≡ (
        if self == k
        then child_count k (g e).children - count e (g self).parents
        else child_count k (g e).children)
unfolding remove_parents
remove_parents-children g self e k =
    let left = leave_parents-children (g self).parents g self e k in
    elim (Bool-cases (self == e)) [
      | inl same ↦ rw same (
          ap (λ i. child_count k (leave_parents g self (g self).parents i).children)
            (eq_of_== self e same)
          ∙ left)
      | inr other ↦ rw other left
    ]

remove_parents-parents :
    (g : Graph) (self c : ℕ)
    → (self == c) ≡ false
    → (remove_parents g self c).parents ≡ (g c).parents
unfolding remove_parents
remove_parents-parents g self c other =
    rw other (leave_parents-parents (g self).parents g self c other)

no_parents : (g : Graph) (self : ℕ) → (remove_parents g self self).parents ≡ []
unfolding remove_parents
no_parents g self = rw (==_self self) refl

-- When an entry leaves its parents, the links stay symmetric: with each multiplicity of a parent in
-- an entry that of the child in the parent. The entry then has no parents and is no child.
pub remove_parents-IsLinked :
    (g : Graph) (self : ℕ)
    → IsLinked g
    → IsLinked (remove_parents g self)
      × ((remove_parents g self self).parents ≡ [])
      × ((e : ℕ) → child_count self (remove_parents g self e).children ≡ 0)
remove_parents-IsLinked g self h =
    (λ e c. linked e c (Bool-cases (self == c)), no_parents g self, severed)
  where
    severed : (e : ℕ) → child_count self (remove_parents g self e).children ≡ 0
    severed e = remove_parents-children g self e self ∙ rw (==_self self) (omega (arith, h e self))

    linked :
        (e c : ℕ)
        → ((self == c) ≡ true) ⊎ ((self == c) ≡ false)
        → count e (remove_parents g self c).parents
          ≡ child_count c (remove_parents g self e).children
    linked e c (inl same) =
        subst
          (λ i.
            count e (remove_parents g self i).parents
            ≡ child_count i (remove_parents g self e).children)
          (eq_of_== self c same) (ap (count e) (no_parents g self) ∙ sym (severed e))
    linked e c (inr other) =
        ap (count e) (remove_parents-parents g self c other)
        ∙ h e c
        ∙ sym (remove_parents-children g self e c ∙ rw other refl)
