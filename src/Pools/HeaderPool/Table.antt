-- ===== src/Pools/HeaderPool/Table.antt =====
-- header_pool: the bimap as a table, its lookups after each write, and its well-formedness.
use libbitcoin_blockchain.Prelude.{
  ℕ, ◌≤◌, ◌≡◌, refl, false, Option, none, some, [], ◌∷◌, arith, ◌==◌, if◌then◌else◌,
}
use libbitcoin_blockchain.System.{Header}
use libbitcoin_blockchain.Pools.HeaderPool.{
  HeaderEntry, Node, Nodes, find, is_found, erase, place, insert, adopt, replant,
}

-- The entry that a lookup gives, whatever its key.
abbrev pub entry_of : Option Node → Option HeaderEntry
entry_of none = none
entry_of (some n) = some n.entry

-- No two relations have the same hash.
abbrev pub Distinct : Nodes → Type 0
Distinct [] = Unit
Distinct (n ∷ rest) = (find n.entry.hash rest ≡ none) × Distinct rest

-- The keys rise along the list, from at least `low`.
abbrev pub Rises : ℕ → Nodes → Type 0
Rises low [] = Unit
Rises low (n ∷ rest) = (low ≤ n.key) × Rises n.key rest

-- The two views of a bimap: hashes are unique and the right view is in order.
pub record IsTable (nodes : Nodes) : Type 0 where
  pub distinct : Distinct nodes
  pub rises : Rises 0 nodes

pub find-hash : (k : ℕ) (nodes : Nodes) (n : Node) → find k nodes ≡ some n → n.entry.hash ≡ k
unfolding find
find-hash k [] n e = cc
find-hash k (m ∷ rest) n e = ground (arith, find-hash k rest n)

pub find-place :
    (k : ℕ) (new : Node) (nodes : Nodes)
    → find new.entry.hash nodes ≡ none
    → find k (place new nodes) ≡ (if new.entry.hash == k then some new else find k nodes)
unfolding find place
find-place k new [] h = refl
find-place k new (n ∷ rest) h = ground (arith, find-place k new rest)

pub find-erase :
    (k h : ℕ) (nodes : Nodes)
    → Distinct nodes
    → find k (erase h nodes) ≡ (if h == k then none else find k nodes)
unfolding find erase
find-erase k h [] d = ground arith
find-erase k h (n ∷ rest) d = ground (arith, find-erase k h rest d.1)

erase-Distinct : (h : ℕ) (nodes : Nodes) → Distinct nodes → Distinct (erase h nodes)
unfolding erase
erase-Distinct h [] d = tt
erase-Distinct h (n ∷ rest) d =
    ground (arith, erase-Distinct h rest d.1, find-erase n.entry.hash h rest d.1)

Rises-weaken : (a b : ℕ) (nodes : Nodes) → a ≤ b → Rises b nodes → Rises a nodes
Rises-weaken a b [] h r = tt
Rises-weaken a b (n ∷ rest) h r = (omega arith, r.1)

erase-Rises : (low h : ℕ) (nodes : Nodes) → Rises low nodes → Rises low (erase h nodes)
unfolding erase
erase-Rises low h [] r = tt
erase-Rises low h (n ∷ rest) r =
    ground (arith, erase-Rises n.key h rest r.1, Rises-weaken low n.key rest r.0 r.1)

pub erase-IsTable : (h : ℕ) (nodes : Nodes) → IsTable nodes → IsTable (erase h nodes)
erase-IsTable h nodes t = record {
  distinct = erase-Distinct h nodes t.distinct;
  rises = erase-Rises 0 h nodes t.rises;
}

place-Distinct :
    (new : Node) (nodes : Nodes)
    → find new.entry.hash nodes ≡ none
    → Distinct nodes
    → Distinct (place new nodes)
unfolding place find
place-Distinct new [] h d = (refl, tt)
place-Distinct new (n ∷ rest) h d =
    ground (arith, place-Distinct new rest, find-place n.entry.hash new rest)

place-Rises :
    (low : ℕ) (new : Node) (nodes : Nodes)
    → low ≤ new.key
    → Rises low nodes
    → Rises low (place new nodes)
unfolding place
place-Rises low new [] h r = (h, tt)
place-Rises low new (n ∷ rest) h r = ground (arith, place-Rises n.key new rest)

pub insert-IsTable : (new : Node) (nodes : Nodes) → IsTable nodes → IsTable (insert new nodes)
unfolding insert
insert-IsTable new nodes t = ground (arith, place-Distinct new nodes, place-Rises 0 new nodes)

pub find-insert :
    (k : ℕ) (new : Node) (nodes : Nodes)
    → find k (insert new nodes) ≡ (
        if is_found (find new.entry.hash nodes)
        then find k nodes
        else if new.entry.hash == k
        then some new
        else find k nodes)
unfolding insert
find-insert k new nodes = ground (arith, find-place k new nodes)

-- Adoption changes the children of one entry and nothing that a search or an order sees.
pub found-adopt :
    (k h : ℕ) (child : Header) (nodes : Nodes)
    → is_found (find k (adopt h child nodes)) ≡ is_found (find k nodes)
unfolding find adopt
found-adopt k h child [] = refl
found-adopt k h child (n ∷ rest) = ground (arith, found-adopt k h child rest)

pub none_of_found : (o : Option Node) → is_found o ≡ false → o ≡ none
none_of_found none h = refl
none_of_found (some n) h = cc

adopt-Distinct :
    (h : ℕ) (child : Header) (nodes : Nodes) → Distinct nodes → Distinct (adopt h child nodes)
unfolding adopt
adopt-Distinct h child [] d = tt
adopt-Distinct h child (n ∷ rest) d = ground (
  arith,
  adopt-Distinct h child rest d.1,
  found-adopt n.entry.hash h child rest,
  none_of_found (find n.entry.hash (adopt h child rest)),
)

adopt-Rises :
    (low h : ℕ) (child : Header) (nodes : Nodes) → Rises low nodes → Rises low (adopt h child nodes)
unfolding adopt
adopt-Rises low h child [] r = tt
adopt-Rises low h child (n ∷ rest) r = ground (arith, adopt-Rises n.key h child rest r.1)

pub adopt-IsTable :
    (h : ℕ) (child : Header) (nodes : Nodes) → IsTable nodes → IsTable (adopt h child nodes)
adopt-IsTable h child nodes t = record {
  distinct = adopt-Distinct h child nodes t.distinct;
  rises = adopt-Rises 0 h child nodes t.rises;
}

pub replant-IsTable : (n : Node) (nodes : Nodes) → IsTable nodes → IsTable (replant n nodes)
unfolding replant
replant-IsTable n nodes t =
    insert-IsTable _ (erase n.entry.hash nodes) (erase-IsTable n.entry.hash nodes t)

-- Replanting a relation of the table changes its key to its height, and nothing else.
pub find-replant :
    (k : ℕ) (n : Node) (nodes : Nodes)
    → Distinct nodes
    → find k (replant n nodes) ≡ (
        if n.entry.hash == k
        then some (record { entry = n.entry; key = n.entry.height })
        else find k nodes)
unfolding replant
find-replant k n nodes d = ground (
  arith,
  find-insert k (record { entry = n.entry; key = n.entry.height }) (erase n.entry.hash nodes),
  find-erase k n.entry.hash nodes d,
  find-erase n.entry.hash n.entry.hash nodes d,
)
