-- ===== src/Pools/HeaderPool/Pruning.antt =====
-- header_pool::prune: the pool before its first round and after its last.
use libbitcoin_blockchain.Prelude.{
  ℕ, ◌+◌, ◌<◌, ◌≤◌, ◌≡◌, refl, ◌≢◌, Option, none, some, List, [], ◌∷◌, arith, if◌then◌else◌,
  Option-cases, inl, inr, length, count, List-cases,
}
use libbitcoin_blockchain.Pools.HeaderPool.{
  HeaderEntry, Node, Nodes, HeaderPool, find, prune_from, prune, expired_roots, pruned,
}
use libbitcoin_blockchain.Pools.HeaderPool.Table.{entry_of, IsTable, Distinct}
use libbitcoin_blockchain.Pools.HeaderPool.Links.{kids, present, IsTidy}
use libbitcoin_blockchain.Pools.HeaderPool.Rounds.{is_expired, Round, prune_from-Round}

abbrev expired_bit : ℕ → Option Node → ℕ
expired_bit minimum_height none = 0
expired_bit minimum_height (some n) = if is_expired minimum_height n then 1 else 0

count-expired_roots :
    (minimum_height k : ℕ) (nodes : Nodes)
    → Distinct nodes
    → count k (expired_roots minimum_height nodes) ≡ expired_bit minimum_height (find k nodes)
unfolding expired_roots find
count-expired_roots minimum_height k [] d = refl
count-expired_roots minimum_height k (n ∷ rest) d =
    ground (arith, count-expired_roots minimum_height k rest d.1)

first-Round :
    (minimum_height : ℕ) (nodes : Nodes)
    → IsTable nodes
    → IsTidy nodes
    → Round minimum_height nodes (expired_roots minimum_height nodes) [] nodes
first-Round minimum_height nodes t d = record {
  table = t;
  owed = λ k. owed_first k;
  unrooted = d.unrooted;
  covered = λ k n f e. ground (arith, count-expired_roots minimum_height k nodes t.distinct);
  kept = λ k e f. f;
  spared = λ k n f root high.
      (f, ground (arith, count-expired_roots minimum_height k nodes t.distinct), refl);
}
  where
    owed_first :
        (k : ℕ)
        → count k (expired_roots minimum_height nodes) + 0 + count k (kids nodes) ≤ present k nodes
    owed_first k = elim (Option-cases (find k nodes)) [
      | inl e ↦ ground (arith, d.once k, count-expired_roots minimum_height k nodes t.distinct)
      | inr (n, e) ↦
          ground (
            arith,
            d.once k,
            d.unrooted k n e,
            count-expired_roots minimum_height k nodes t.distinct,
          )
    ]

none_expired :
    (minimum_height : ℕ) (nodes : Nodes)
    → ((k : ℕ) → count k (expired_roots minimum_height nodes) ≡ 0)
    → expired_roots minimum_height nodes ≡ []
none_expired minimum_height nodes h = go (expired_roots minimum_height nodes) h
  where
    go : (xs : List ℕ) → ((k : ℕ) → count k xs ≡ 0) → xs ≡ []
    go [] h = refl
    go (x ∷ xs) h = absurd (ground (arith, h x))

final-Tidy :
    (minimum_height : ℕ) (before nodes : Nodes)
    → Round minimum_height before [] [] nodes
    → IsTidy nodes
final-Tidy minimum_height before nodes r = record {
  once = λ k. omega (arith, r.owed k);
  unrooted = r.unrooted;
}

final-unexpired :
    (minimum_height : ℕ) (before nodes : Nodes)
    → Round minimum_height before [] [] nodes
    → expired_roots minimum_height nodes ≡ []
final-unexpired minimum_height before nodes r = none_expired minimum_height nodes zeros
  where
    zeros : (k : ℕ) → count k (expired_roots minimum_height nodes) ≡ 0
    zeros k = elim (Option-cases (find k nodes)) [
      | inl e ↦ ground (arith, count-expired_roots minimum_height k nodes r.table.distinct)
      | inr (n, e) ↦
          ground
            (arith, count-expired_roots minimum_height k nodes r.table.distinct, r.covered k n e)
    ]

-- What a pool is after prune: the table of before less some entries. No root is below the minimum
-- height, every entry is one that was there, and every root at or above the minimum stays.
pub record IsPruned (minimum_height : ℕ) (before nodes : Nodes) : Type 0 where
  pub table : IsTable nodes
  pub tidy : IsTidy nodes
  pub unexpired : expired_roots minimum_height nodes ≡ []
  pub kept :
      (k : ℕ) (e : HeaderEntry)
      → entry_of (find k nodes) ≡ some e
      → entry_of (find k before) ≡ some e
  pub spared :
      (k : ℕ) (n : Node)
      → find k before ≡ some n
      → n.key ≢ 0
      → minimum_height ≤ n.key
      → find k nodes ≡ some n

prune_from-IsPruned :
    (fuel minimum_height : ℕ) (nodes : Nodes)
    → IsTable nodes
    → IsTidy nodes
    → length nodes < fuel
    → (nodes' : Nodes) × (prune_from fuel minimum_height (expired_roots minimum_height nodes) nodes
        ≡ pruned nodes')
      × IsPruned minimum_height nodes nodes'
prune_from-IsPruned fuel minimum_height nodes t d f =
    let (nodes', e, r) =
      prune_from-Round fuel minimum_height nodes (expired_roots minimum_height nodes) nodes f
        (first-Round minimum_height nodes t d) in
    (
      nodes',
      e,
      record {
        table = r.table;
        tidy = final-Tidy minimum_height nodes nodes' r;
        unexpired = final-unexpired minimum_height nodes nodes' r;
        kept = r.kept;
        spared = λ k n f root high. (r.spared k n f root high).0;
      },
    )

-- On a table with tidy child links prune neither dereferences a missing entry nor runs for ever: it
-- ends within one call more than there are entries. Its pool keeps both properties and has no root
-- below the minimum height; its entries are entries that were there, and every root at or above
-- the minimum height is still there.
pub prune_lem :
    (floor_subtract : ℕ → ℕ → ℕ) (fuel : ℕ) (p : HeaderPool) (top_height : ℕ)
    → IsTable p.headers
    → IsTidy p.headers
    → length p.headers < fuel
    → (nodes : Nodes) × (prune floor_subtract fuel p top_height ≡ pruned nodes)
      × IsPruned (floor_subtract top_height p.maximum_depth) p.headers nodes
unfolding prune
prune_lem floor_subtract fuel p top_height t d f =
    let minimum_height = floor_subtract top_height p.maximum_depth in
    elim (List-cases (expired_roots minimum_height p.headers)) [
      | inl e ↦ (
        p.headers,
        rw (e, prune) refl,
        record { table = t; tidy = d; unexpired = e; kept = λ k x h. h; spared = λ k n h r g. h },
      )
      | inr (hash, hashes, e) ↦
          let (nodes, e', done) = prune_from-IsPruned fuel minimum_height p.headers t d f in
          (nodes, rw (e, prune) (rw e at e'), done)
    ]
