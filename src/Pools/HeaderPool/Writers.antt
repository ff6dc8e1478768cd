-- ===== src/Pools/HeaderPool/Writers.antt =====
-- header_pool::add and header_pool::remove, against the map from hashes to entries.
use libbitcoin_blockchain.Prelude.{
  ℕ, ◌≡◌, refl, true, ◌||◌, Option, none, some, List, [], ◌∷◌, ◌++◌, map, arith, ◌==◌,
  if◌then◌else◌, elem, Option-cases, eq_of_==, Bool-cases, elem-append, inl, inr,
}
use libbitcoin_blockchain.System.{Header}
use libbitcoin_blockchain.Pools.HeaderPool.{
  Node, Nodes, HeaderPool, find, is_found, exists_hash, add, adopt, insert, make_entry, remove,
  erase, replant, erase_accepted, root_children,
}
use libbitcoin_blockchain.Pools.HeaderPool.Table.{
  entry_of, IsTable, insert-IsTable, adopt-IsTable, erase-IsTable, replant-IsTable, find-insert,
  found-adopt, find-erase, find-replant, find-hash,
}

found-insert :
    (k : ℕ) (new : Node) (nodes : Nodes)
    → is_found (find k (insert new nodes)) ≡ (new.entry.hash == k || is_found (find k nodes))
found-insert k new nodes = ground (arith, find-insert k new nodes, eq_of_== new.entry.hash k)

-- After add exactly the new hash and the hashes that were in the pool are in it.
pub exists-add :
    (p : HeaderPool) (h : Header) (height k : ℕ)
    → exists_hash (add p h height) k ≡ (h.hash == k || exists_hash p k)
unfolding exists_hash add
exists-add p h height k = ground (
  arith,
  found-insert k (record { entry = make_entry h height; key = 0 })
      (adopt h.previous_block_hash h p.headers),
  found-insert k (record { entry = make_entry h height; key = height }) p.headers,
  found-adopt k h.previous_block_hash h p.headers,
)

-- add keeps the hashes of the pool unique and its right view in order.
pub add-IsTable :
    (p : HeaderPool) (h : Header) (height : ℕ)
    → IsTable p.headers
    → IsTable (add p h height).headers
unfolding add
add-IsTable p h height t = ground (
  arith,
  insert-IsTable (record { entry = make_entry h height; key = 0 })
      (adopt h.previous_block_hash h p.headers) (adopt-IsTable h.previous_block_hash h p.headers t),
  insert-IsTable (record { entry = make_entry h height; key = height }) p.headers t,
)

abbrev pub hashes : List Header → List ℕ
hashes = map (λ h. h.hash)

erase_accepted-IsTable :
    (hs : List Header) (nodes : Nodes) (cs : List ℕ)
    → IsTable nodes
    → IsTable (erase_accepted hs nodes cs).0
unfolding erase_accepted
erase_accepted-IsTable [] nodes cs t = t
erase_accepted-IsTable (h ∷ hs) nodes cs t = elim (Option-cases (find h.hash nodes)) [
  | inl e ↦ rw (e, erase_accepted) (erase_accepted-IsTable hs nodes cs t)
  | inr (n, e) ↦
      rw (e, erase_accepted)
        (erase_accepted-IsTable hs (erase h.hash nodes) (cs ++ n.entry.children)
          (erase-IsTable h.hash nodes t))
]

find-erase_accepted :
    (k : ℕ) (hs : List Header) (nodes : Nodes) (cs : List ℕ)
    → IsTable nodes
    → find k (erase_accepted hs nodes cs).0 ≡ (if elem k (hashes hs) then none else find k nodes)
unfolding erase_accepted
find-erase_accepted k [] nodes cs t = refl
find-erase_accepted k (h ∷ hs) nodes cs t = elim (Option-cases (find h.hash nodes)) [
  | inl e ↦ rw (e, erase_accepted) (ground (arith, find-erase_accepted k hs nodes cs t))
  | inr (n, e) ↦
      rw (e, erase_accepted)
        (ground (
          arith,
          find-erase_accepted k hs (erase h.hash nodes) (cs ++ n.entry.children)
              (erase-IsTable h.hash nodes t),
          find-erase k h.hash nodes t.distinct,
        ))
]

root_children-IsTable :
    (cs : List ℕ) (nodes : Nodes) → IsTable nodes → IsTable (root_children cs nodes)
unfolding root_children
root_children-IsTable [] nodes t = t
root_children-IsTable (c ∷ cs) nodes t = elim (Option-cases (find c nodes)) [
  | inl e ↦ rw (e, root_children) (root_children-IsTable cs nodes t)
  | inr (n, e) ↦
      rw (e, root_children) (root_children-IsTable cs (replant n nodes) (replant-IsTable n nodes t))
]

-- A lookup after the second loop: the same entry, its own height as key if it was named.
abbrev pub rooted : Option Node → Option Node
rooted none = none
rooted (some n) = some (record { entry = n.entry; key = n.entry.height })

find-root_children :
    (k : ℕ) (cs : List ℕ) (nodes : Nodes)
    → IsTable nodes
    → find k (root_children cs nodes) ≡ (if elem k cs then rooted (find k nodes) else find k nodes)
unfolding root_children
find-root_children k [] nodes t = refl
find-root_children k (c ∷ cs) nodes t = elim (Option-cases (find c nodes)) [
  | inl e ↦ rw (e, root_children) (ground (arith, find-root_children k cs nodes t))
  | inr (n, e) ↦
      rw (e, root_children)
        (ground (
          arith,
          find-hash c nodes n e,
          find-root_children k cs (replant n nodes) (replant-IsTable n nodes t),
          find-replant k n nodes t.distinct,
        ))
]

-- remove keeps the hashes of the pool unique and its right view in order.
pub remove-IsTable :
    (p : HeaderPool) (hs : List Header) → IsTable p.headers → IsTable (remove p hs).headers
unfolding remove
remove-IsTable p hs t =
    root_children-IsTable (erase_accepted hs p.headers []).1 (erase_accepted hs p.headers []).0
      (erase_accepted-IsTable hs p.headers [] t)

-- After remove on a well formed pool the accepted hashes are gone, and each other hash has the
-- entry that it had.
pub entry-remove :
    (p : HeaderPool) (hs : List Header) (k : ℕ)
    → IsTable p.headers
    → entry_of (find k (remove p hs).headers)
      ≡ (if elem k (hashes hs) then none else entry_of (find k p.headers))
unfolding remove
entry-remove p hs k t = ground (
  arith,
  find-root_children k (erase_accepted hs p.headers []).1 (erase_accepted hs p.headers []).0
      (erase_accepted-IsTable hs p.headers [] t),
  find-erase_accepted k hs p.headers [] t,
)

collected-keep :
    (c : ℕ) (hs : List Header) (nodes : Nodes) (cs : List ℕ)
    → elem c cs ≡ true
    → elem c (erase_accepted hs nodes cs).1 ≡ true
unfolding erase_accepted
collected-keep c [] nodes cs e = e
collected-keep c (h ∷ hs) nodes cs e = elim (Option-cases (find h.hash nodes)) [
  | inl f ↦ rw (f, erase_accepted) (collected-keep c hs nodes cs e)
  | inr (n, f) ↦
      rw (f, erase_accepted)
        (collected-keep c hs (erase h.hash nodes) (cs ++ n.entry.children)
          (ground (arith, elem-append c cs n.entry.children)))
]

collected-children :
    (c k : ℕ) (n : Node) (hs : List Header) (nodes : Nodes) (cs : List ℕ)
    → IsTable nodes
    → find k nodes ≡ some n
    → elem k (hashes hs) ≡ true
    → elem c n.entry.children ≡ true
    → elem c (erase_accepted hs nodes cs).1 ≡ true
unfolding erase_accepted
collected-children c k n [] nodes cs t f a e = cc
collected-children c k n (h ∷ hs) nodes cs t f a e = elim (Option-cases (find h.hash nodes)) [
  | inl g ↦ rw (g, erase_accepted) (collected-children c k n hs nodes cs t f (ground arith) e)
  | inr (m, g) ↦
      rw (g, erase_accepted)
        (elim (Bool-cases (h.hash == k)) [
          | inl here ↦
              collected-keep c hs (erase h.hash nodes) (cs ++ m.entry.children)
                (ground (arith, elem-append c cs m.entry.children))
          | inr there ↦
              collected-children c k n hs (erase h.hash nodes) (cs ++ m.entry.children)
                (erase-IsTable h.hash nodes t)
                (ground (arith, find-erase k h.hash nodes t.distinct)) (ground arith) e
        ])
]

-- In a well formed pool, a recorded child of an accepted header that is not accepted itself stays
-- in the pool if it was there, and becomes a root: the key of its relation is its own height.
pub find-remove_child :
    (p : HeaderPool) (hs : List Header) (k c : ℕ) (n : Node)
    → IsTable p.headers
    → find k p.headers ≡ some n
    → elem k (hashes hs) ≡ true
    → elem c n.entry.children ≡ true
    → find c (remove p hs).headers
      ≡ (if elem c (hashes hs) then none else rooted (find c p.headers))
unfolding remove
find-remove_child p hs k c n t f a e = ground (
  arith,
  find-root_children c (erase_accepted hs p.headers []).1 (erase_accepted hs p.headers []).0
      (erase_accepted-IsTable hs p.headers [] t),
  find-erase_accepted c hs p.headers [] t,
  collected-children c k n hs p.headers [] t f a e,
)
