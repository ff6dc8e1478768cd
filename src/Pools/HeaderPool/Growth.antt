-- ===== src/Pools/HeaderPool/Growth.antt =====
-- header_pool::add: the child links of the pool after it.
use libbitcoin_blockchain.Prelude.{
  ℕ, ◌+◌, ◌≡◌, refl, ◌∙◌, true, false, none, some, [], ◌∷◌, ◌++◌, arith, ◌==◌, Bool-cases, inl, inr,
  count, count-append,
}
use libbitcoin_blockchain.System.{Header}
use libbitcoin_blockchain.Pools.HeaderPool.{
  Node, Nodes, HeaderPool, find, is_found, exists, place, insert, adopt, insert, add, make_entry,
}
use libbitcoin_blockchain.Pools.HeaderPool.Table.{find-place, found-adopt, none_of_found}
use libbitcoin_blockchain.Pools.HeaderPool.Links.{kids, IsTidy, count-kids-place}

count-kids-adopt :
    (k h : ℕ) (child : Header) (nodes : Nodes)
    → is_found (find h nodes) ≡ true
    → count k (kids (adopt h child nodes)) ≡ count k (child.hash ∷ []) + count k (kids nodes)
unfolding kids find adopt
count-kids-adopt k h child [] e = cc
count-kids-adopt k h child (n ∷ rest) e = ground (
  arith,
  count-kids-adopt k h child rest,
  count-append k n.entry.children (kids rest),
  count-append k n.entry.children (kids (adopt h child rest)),
  count-append k (n.entry.children ++ child.hash ∷ []) (kids rest),
  count-append k n.entry.children (child.hash ∷ []),
)

-- Adoption keeps each key.
key-adopt :
    (k h : ℕ) (child : Header) (nodes : Nodes) (m : Node)
    → find k (adopt h child nodes) ≡ some m
    → (n : Node) × (find k nodes ≡ some n) × (m.key ≡ n.key)
unfolding find adopt
key-adopt k h child [] m e = cc
key-adopt k h child (n ∷ rest) m e = elim (Bool-cases (n.entry.hash == k)) [
  | inl here ↦ (n, ground arith, ground arith)
  | inr there ↦ elim (Bool-cases (n.entry.hash == h)) [
    | inl parent ↦ (m, ground arith, refl)
    | inr other ↦ let (x, f, g) = key-adopt k h child rest m (ground arith) in (x, ground arith, g)
  ]
]

place-IsTidy :
    (new : Node) (nodes : Nodes)
    → find new.entry.hash nodes ≡ none
    → new.entry.children ≡ []
    → IsTidy nodes
    → IsTidy (place new nodes)
place-IsTidy new nodes e c d = record {
  once = λ k. ground (arith, d.once k, find-place k new nodes e, count-kids-place k new nodes);
  unrooted = λ k n f root.
      ground
        (arith, d.once k, d.unrooted k n, find-place k new nodes e, count-kids-place k new nodes);
}

adopted-IsTidy :
    (new : Node) (h : ℕ) (child : Header) (nodes : Nodes)
    → find new.entry.hash nodes ≡ none
    → new.entry.children ≡ []
    → new.entry.hash ≡ child.hash
    → new.key ≡ 0
    → is_found (find h nodes) ≡ true
    → IsTidy nodes
    → IsTidy (place new (adopt h child nodes))
adopted-IsTidy new h child nodes e c same zero_key parent d = record {
  once = λ k. ground (
    arith,
    d.once k,
    d.once new.entry.hash,
    found-adopt k h child nodes,
    find-place k new (adopt h child nodes) absent,
    count-kids-adopt k h child nodes parent,
    count-kids-place k new (adopt h child nodes),
  );
  unrooted = λ k n f root. elim (Bool-cases (new.entry.hash == k)) [
    | inl own ↦ absurd (root (ground (arith, find-place k new (adopt h child nodes) absent)))
    | inr other ↦
        let there : find k (adopt h child nodes) ≡ some n =
          ground (arith, find-place k new (adopt h child nodes) absent) in
        let (m, g, keys) = key-adopt k h child nodes n there in
        let none_of : count k (kids nodes) ≡ 0 = d.unrooted k m g (λ z. root (keys ∙ z)) in
        ground (
          arith,
          none_of,
          count-kids-adopt k h child nodes parent,
          count-kids-place k new (adopt h child nodes),
        )
  ];
}
  where
    absent : find new.entry.hash (adopt h child nodes) ≡ none
    absent =
        none_of_found (find new.entry.hash (adopt h child nodes))
          (ground (arith, found-adopt new.entry.hash h child nodes))

insert_new :
    (new : Node) (nodes : Nodes)
    → find new.entry.hash nodes ≡ none
    → insert new nodes ≡ place new nodes
unfolding insert
insert_new new nodes e = rw e

-- A header that is not in the pool keeps the child links tidy when it is added: a link always
-- names an entry, at most one link names it, and no link names a root.
pub add-IsTidy :
    (p : HeaderPool) (h : Header) (height : ℕ)
    → exists p h ≡ false
    → IsTidy p.headers
    → IsTidy (add p h height).headers
unfolding add exists make_entry
add-IsTidy p h height new d = elim (Bool-cases (is_found (find h.previous_block_hash p.headers))) [
  | inl parent ↦ rw parent (
      rw
        (insert_new (record { entry = make_entry h height; key = 0 })
          (adopt h.previous_block_hash h p.headers)
          (none_of_found (find h.hash (adopt h.previous_block_hash h p.headers))
            (ground (arith, found-adopt h.hash h.previous_block_hash h p.headers))))
        (adopted-IsTidy (record { entry = make_entry h height; key = 0 }) h.previous_block_hash h
          p.headers absent refl refl refl parent d))
  | inr root ↦ rw root (
      rw (insert_new (record { entry = make_entry h height; key = height }) p.headers absent) (
        place-IsTidy (record { entry = make_entry h height; key = height }) p.headers absent refl
          d))
]
  where
    absent : find h.hash p.headers ≡ none
    absent = none_of_found (find h.hash p.headers) new
