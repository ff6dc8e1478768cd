-- ===== src/Chain/Writer/Gathering.antt =====
-- block_chain.cpp, reorganize(branch_cache, branch_height): the candidates that it gets, from the
-- cache or the store.
use libbitcoin_blockchain.Prelude.{
  ℕ, zero, suc, ◌+◌, ◌<◌, ◌≡◌, ◌≢◌, refl, sym, ◌∙◌, ◌==◌, ap, ◌&&◌, Option, none, some, List, ◌∷◌,
  arith, leb, ltb, if◌then◌else◌, Bool-cases, Option-cases, inl, inr, length, get_elem?,
}
use libbitcoin_blockchain.System.{Block}
use libbitcoin_blockchain.Pools.BlockPool.{Chain, BlockPool, find, is_cached, get}
use libbitcoin_blockchain.Pools.BlockPool.Cache.{IsCache}
use libbitcoin_blockchain.Pools.BlockPool.Effects.{get_lem}
use libbitcoin_blockchain.Chain.Writer.{gather, prepend}

-- The candidate of a height: that of the cache, else that of the store.
abbrev pub available : (ℕ → Option Block) → BlockPool → ℕ → Option Block
available get_candidate p height =
    if is_cached (find height p.blocks) then find height p.blocks else get_candidate height

-- The blocks are the candidates of the heights from `height` on, `count` of them, and the cache has
-- lost these heights alone; or one of them has no candidate, and the cache has lost the heights up
-- to that alone.
abbrev pub Gathered : Chain → BlockPool → ℕ → ℕ → BlockPool × Option (List Block) → Type 0
Gathered chain p height count (p', none) =
    IsCache p'.blocks
    × (i : ℕ) × (i < count)
    × (available chain.get_candidate p (height + i) ≡ none)
    × ((k : ℕ)
        → find k p'.blocks ≡ (if leb height k && leb k (height + i) then none else find k p.blocks))
Gathered chain p height count (p', some bs) =
    IsCache p'.blocks
    × (length bs ≡ count)
    × ((i : ℕ) → i < count → get_elem? bs i ≡ available chain.get_candidate p (height + i))
    × ((k : ℕ)
        → find k p'.blocks
          ≡ (if leb height k && ltb k (height + count) then none else find k p.blocks))

get-size :
    (chain : Chain) (p : BlockPool) (height : ℕ)
    → (get chain p height).0.maximum_size ≡ p.maximum_size
unfolding get
get-size chain p height = elim (Bool-cases (p.maximum_size == 0)) [
  | inl off ↦ rw off refl
  | inr on ↦ elim (Option-cases (find height p.blocks)) [
    | inl absent ↦ rw (on, absent) refl
    | inr (b, found) ↦ rw (on, found) refl
  ]
]

shift : (height i : ℕ) → height + suc i ≡ height + 1 + i
shift height i = omega arith

first : (height : ℕ) → height + 0 ≡ height
first height = omega arith

prepend-Gathered :
    (chain : Chain) (p q : BlockPool) (height count : ℕ) (b : Block)
    → available chain.get_candidate p height ≡ some b
    → ((k : ℕ) → find k q.blocks ≡ (if height == k then none else find k p.blocks))
    → (r : BlockPool × Option (List Block)) → Gathered chain q (height + 1) count r
    → Gathered chain p height (suc count) (prepend b r)
prepend-Gathered chain p q height count b here lost (p', none) (c, i, l, gone, left) = (
  c,
  suc i,
  omega arith,
  rw (shift height i) (ground (arith, gone, lost (height + 1 + i))),
  (λ k. ground (arith, left k, lost k)),
)
prepend-Gathered chain p q height count b here lost (p', some bs) (c, size, each, left) =
    (c, ap suc size, at, (λ k. ground (arith, left k, lost k)))
  where
    at :
        (i : ℕ)
        → i < suc count
        → get_elem? (b ∷ bs) i ≡ available chain.get_candidate p (height + i)
    at zero l = rw (first height) (sym here)
    at (suc i) l =
        rw (shift height i) (each i (omega arith) ∙ ground (arith, lost (height + 1 + i)))

pub gather-Gathered :
    (chain : Chain) (count : ℕ) (p : BlockPool) (height : ℕ)
    → IsCache p.blocks
    → p.maximum_size ≢ 0
    → Gathered chain p height count (gather chain count p height)
unfolding gather
gather-Gathered chain zero p height c on =
    (c, refl, (λ i l. absurd (omega arith)), (λ k. ground arith))
gather-Gathered chain (suc count) p height c on =
    let (found, lost, cache) = get_lem chain p height height c on in
    elim (Option-cases (get chain p height).1) [
      | inl e ↦
          rw (e, gather)
            (
              cache,
              0,
              omega arith,
              rw (first height) (sym found ∙ e),
              (λ k. ground (arith, (get_lem chain p height k c on).1)),
            )
      | inr (b, e) ↦
          rw (e, gather)
            (prepend-Gathered chain p (get chain p height).0 height count b (sym found ∙ e)
              (λ k. (get_lem chain p height k c on).1)
              (gather chain count (get chain p height).0 (height + 1))
              (gather-Gathered chain count (get chain p height).0 (height + 1) cache
                (λ z. on (sym (get-size chain p height) ∙ z))))
    ]
