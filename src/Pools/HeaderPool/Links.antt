-- ===== src/Pools/HeaderPool/Links.antt =====
-- header_pool: the child links of a pool, and how erasing and replanting an entry change them.
use libbitcoin_blockchain.Prelude.{
  ℕ, suc, ◌+◌, ◌≤◌, ◌≡◌, refl, ◌≢◌, some, List, [], ◌∷◌, ◌++◌, arith, ◌==◌, if◌then◌else◌,
  Bool-cases, inl, inr, length, count, count-append,
}
use libbitcoin_blockchain.Pools.HeaderPool.{
  Node, Nodes, find, is_found, erase, place, insert, replant,
}
use libbitcoin_blockchain.Pools.HeaderPool.Table.{Distinct, find-hash, find-erase}

-- The child links of all entries.
unfoldable pub kids : Nodes → List ℕ
kids [] = []
kids (n ∷ rest) = n.entry.children ++ kids rest

abbrev pub present : ℕ → Nodes → ℕ
present k nodes = if is_found (find k nodes) then 1 else 0

-- Each child link names an entry of the pool, no two links the same one, and none a root.
pub record IsTidy (nodes : Nodes) : Type 0 where
  pub once : (k : ℕ) → count k (kids nodes) ≤ present k nodes
  pub unrooted : (k : ℕ) (n : Node) → find k nodes ≡ some n → n.key ≢ 0 → count k (kids nodes) ≡ 0

pub count-kids-erase :
    (k h : ℕ) (nodes : Nodes) (n : Node)
    → find h nodes ≡ some n
    → count k (kids nodes) ≡ count k n.entry.children + count k (kids (erase h nodes))
unfolding kids find erase
count-kids-erase k h [] n e = cc
count-kids-erase k h (m ∷ rest) n e = elim (Bool-cases (m.entry.hash == h)) [
  | inl here ↦ ground (arith, count-append k m.entry.children (kids rest))
  | inr there ↦ ground (
    arith,
    count-kids-erase k h rest n,
    count-append k m.entry.children (kids rest),
    count-append k m.entry.children (kids (erase h rest)),
  )
]

pub count-kids-place :
    (k : ℕ) (new : Node) (nodes : Nodes)
    → count k (kids (place new nodes)) ≡ count k new.entry.children + count k (kids nodes)
unfolding kids place
count-kids-place k new [] = ground (arith, count-append k new.entry.children [])
count-kids-place k new (n ∷ rest) = ground (
  arith,
  count-kids-place k new rest,
  count-append k new.entry.children (n.entry.children ++ kids rest),
  count-append k n.entry.children (kids rest),
  count-append k n.entry.children (kids (place new rest)),
)

pub count-kids-replant :
    (k h : ℕ) (nodes : Nodes) (n : Node)
    → Distinct nodes
    → find h nodes ≡ some n
    → count k (kids (replant n nodes)) ≡ count k (kids nodes)
unfolding replant insert
count-kids-replant k h nodes n d e = ground (
  arith,
  find-hash h nodes n e,
  count-kids-erase k h nodes n e,
  find-erase h h nodes d,
  count-kids-place k (record { entry = n.entry; key = n.entry.height }) (erase h nodes),
)

pub length-place : (new : Node) (nodes : Nodes) → length (place new nodes) ≡ suc (length nodes)
unfolding place
length-place new [] = refl
length-place new (n ∷ rest) = ground (arith, length-place new rest)

pub length-erase :
    (h : ℕ) (nodes : Nodes) (n : Node)
    → find h nodes ≡ some n
    → suc (length (erase h nodes)) ≡ length nodes
unfolding find erase
length-erase h [] n e = cc
length-erase h (m ∷ rest) n e = ground (arith, length-erase h rest n)

pub length-replant :
    (h : ℕ) (nodes : Nodes) (n : Node)
    → Distinct nodes
    → find h nodes ≡ some n
    → length (replant n nodes) ≡ length nodes
unfolding replant insert
length-replant h nodes n d e = ground (
  arith,
  find-hash h nodes n e,
  length-erase h nodes n e,
  find-erase h h nodes d,
  length-place (record { entry = n.entry; key = n.entry.height }) (erase h nodes),
)
