-- ===== src/Pools/HeaderPool/Rounds.antt =====
-- header_pool::prune by its rounds: the loop over the hashes and the recursion on the children.
use libbitcoin_blockchain.Prelude.{
  ℕ, zero, suc, ◌+◌, ◌<◌, ◌≤◌, ◌≡◌, refl, ◌≢◌, ◌⊎◌, Bool, true, false, not, ◌&&◌, ◌||◌, Option,
  some, List, [], ◌∷◌, ◌++◌, arith, ◌==◌, ltb, Option-cases, Bool-cases, inl, inr, length, count,
  count-append, List-cases, subst,
}
use libbitcoin_blockchain.Pools.HeaderPool.{
  HeaderEntry, Node, Nodes, find, erase, replant, prune_round, prune_from, pruned,
}
use libbitcoin_blockchain.Pools.HeaderPool.Table.{
  entry_of, IsTable, find-hash, find-erase, find-replant, erase-IsTable, replant-IsTable,
}
use libbitcoin_blockchain.Pools.HeaderPool.Links.{
  kids, present, count-kids-erase, count-kids-replant, length-erase, length-replant,
}

abbrev pub is_expired : ℕ → Node → Bool
is_expired minimum_height n = not (n.key == 0) && ltb n.key minimum_height

-- During a round, with the hashes `rest` to do and the children `cs` collected: what is owed a
-- visit is in the pool once, and every expired root is still to be done.
pub record Round (minimum_height : ℕ) (before : Nodes) (rest cs : List ℕ) (nodes : Nodes)
    : Type 0 where
  pub table : IsTable nodes
  pub owed : (k : ℕ) → count k rest + count k cs + count k (kids nodes) ≤ present k nodes
  pub unrooted : (k : ℕ) (n : Node) → find k nodes ≡ some n → n.key ≢ 0 → count k (kids nodes) ≡ 0
  pub covered :
      (k : ℕ) (n : Node)
      → find k nodes ≡ some n
      → is_expired minimum_height n ≡ true
      → 0 < count k rest
  pub kept :
      (k : ℕ) (e : HeaderEntry)
      → entry_of (find k nodes) ≡ some e
      → entry_of (find k before) ≡ some e
  pub spared :
      (k : ℕ) (n : Node)
      → find k before ≡ some n
      → n.key ≢ 0
      → minimum_height ≤ n.key
      → (find k nodes ≡ some n) × (count k rest ≡ 0) × (count k cs ≡ 0)

module _ (minimum_height : ℕ) (before : Nodes) (hash : ℕ) (rest cs : List ℕ) (nodes : Nodes)
    (n : Node) (r : Round minimum_height before (hash ∷ rest) cs nodes)
    (at : find hash nodes ≡ some n) where
  erase-Round : Round minimum_height before rest (cs ++ n.entry.children) (erase hash nodes)
  erase-Round = record {
    table = erase-IsTable hash nodes r.table;
    owed = λ k. ground (
      arith,
      r.owed k,
      count-append k cs n.entry.children,
      count-kids-erase k hash nodes n at,
      find-erase k hash nodes r.table.distinct,
    );
    unrooted = λ k m f e. ground (
      arith,
      r.unrooted k m,
      count-kids-erase k hash nodes n at,
      find-erase k hash nodes r.table.distinct,
    );
    covered = λ k m f e. ground (arith, r.covered k m, find-erase k hash nodes r.table.distinct);
    kept = λ k e f. ground (arith, r.kept k e, find-erase k hash nodes r.table.distinct);
    spared = λ k m f root high.
        let (here, no_rest, no_cs) = r.spared k m f root high in
        let no_kids = r.unrooted k m here root in
        ground (
          arith,
          count-append k cs n.entry.children,
          count-kids-erase k hash nodes n at,
          find-erase k hash nodes r.table.distinct,
        );
  }

  replant-Round :
      n.key ≡ 0
      → ltb n.entry.height minimum_height ≡ false
      → Round minimum_height before rest cs (replant n nodes)
  replant-Round root high = record {
    table = replant-IsTable n nodes r.table;
    owed = λ k. ground (
      arith,
      r.owed k,
      find-hash hash nodes n at,
      count-kids-replant k hash nodes n r.table.distinct at,
      find-replant k n nodes r.table.distinct,
    );
    unrooted = λ k m f e. ground (
      arith,
      r.unrooted k m,
      r.owed k,
      find-hash hash nodes n at,
      count-kids-replant k hash nodes n r.table.distinct at,
      find-replant k n nodes r.table.distinct,
    );
    covered = λ k m f e.
        ground (
          arith,
          r.covered k m,
          find-hash hash nodes n at,
          find-replant k n nodes r.table.distinct,
        );
    kept = λ k e f.
        ground
          (arith, r.kept k e, find-hash hash nodes n at, find-replant k n nodes r.table.distinct);
    spared = λ k m f there tall.
        let (here, no_rest, no_cs) = r.spared k m f there tall in
        ground (arith, find-hash hash nodes n at, find-replant k n nodes r.table.distinct);
  }

abbrev Rounded : ℕ → Nodes → List ℕ → Nodes → Option (Nodes × List ℕ) → Type 0
Rounded minimum_height before cs nodes result =
    (nodes' : Nodes) × (cs' : List ℕ) × (result ≡ some (nodes', cs'))
    × Round minimum_height before [] cs' nodes'
    × (length nodes' ≤ length nodes)
    × ((cs' ≡ cs) ⊎ (length nodes' < length nodes))

prune_round-Rounded :
    (minimum_height : ℕ) (before : Nodes) (rest : List ℕ) (nodes : Nodes) (cs : List ℕ)
    → Round minimum_height before rest cs nodes
    → Rounded minimum_height before cs nodes (prune_round minimum_height rest nodes cs)
unfolding prune_round
prune_round-Rounded minimum_height before [] nodes cs r =
    (nodes, cs, refl, r, omega arith, inl refl)
prune_round-Rounded minimum_height before (hash ∷ rest) nodes cs r =
    elim (Option-cases (find hash nodes)) [
      | inl e ↦ absurd (ground (arith, r.owed hash))
      | inr (n, e) ↦ elim (Bool-cases (not (n.key == 0) || ltb n.entry.height minimum_height)) [
        | inl gone ↦
            let (nodes', cs', f, r', shorter, more) =
              prune_round-Rounded minimum_height before rest (erase hash nodes)
                (cs ++ n.entry.children)
                (erase-Round minimum_height before hash rest cs nodes n r e) in
            (
              nodes',
              cs',
              rw (e, prune_round) (rw (gone, prune_round) f),
              r',
              omega (arith, length-erase hash nodes n e),
              inr (omega (arith, length-erase hash nodes n e)),
            )
        | inr kept ↦
            let (nodes', cs', f, r', shorter, more) =
              prune_round-Rounded minimum_height before rest (replant n nodes) cs (
                replant-Round minimum_height before hash rest cs nodes n r e (ground arith)
                  (ground arith)) in
            let same = length-replant hash nodes n r.table.distinct e in
            (
              nodes',
              cs',
              rw (e, prune_round) (rw (kept, prune_round) f),
              r',
              omega arith,
              ground arith,
            )
      ]
    ]

next-Round :
    (minimum_height : ℕ) (before : Nodes) (cs : List ℕ) (nodes : Nodes)
    → Round minimum_height before [] cs nodes
    → Round minimum_height before cs [] nodes
next-Round minimum_height before cs nodes r = record {
  table = r.table;
  owed = λ k. omega (arith, r.owed k);
  unrooted = r.unrooted;
  covered = λ k n f e. absurd (omega (arith, r.covered k n f e));
  kept = r.kept;
  spared = λ k n f root high.
      let (here, no_rest, no_cs) = r.spared k n f root high in (here, no_cs, no_rest);
}

pub prune_from-Round :
    (fuel minimum_height : ℕ) (before : Nodes) (hashes : List ℕ) (nodes : Nodes)
    → length nodes < fuel
    → Round minimum_height before hashes [] nodes
    → (nodes' : Nodes) × (prune_from fuel minimum_height hashes nodes ≡ pruned nodes')
      × Round minimum_height before [] [] nodes'
unfolding prune_from
prune_from-Round zero minimum_height before hashes nodes f r = absurd (omega arith)
prune_from-Round (suc fuel) minimum_height before hashes nodes f r =
    let (nodes', cs', e, r', shorter, more) =
      prune_round-Rounded minimum_height before hashes nodes [] r in
    elim (List-cases cs') [
      | inl done ↦ (
        nodes',
        rw (e, prune_from) (rw done refl),
        subst (λ cs. Round minimum_height before [] cs nodes') done r',
      )
      | inr (c, rest, pending) ↦
          let below : length nodes' < fuel = ground (arith, more) in
          let r'' =
            next-Round minimum_height before (c ∷ rest) nodes'
              (subst (λ cs. Round minimum_height before [] cs nodes') pending r') in
          let (final, e', r''') =
            prune_from-Round fuel minimum_height before (c ∷ rest) nodes' below r'' in
          (final, rw (e, prune_from) (rw pending e'), r''')
    ]
