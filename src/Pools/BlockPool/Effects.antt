-- ===== src/Pools/BlockPool/Effects.antt =====
-- block_pool: what each operation does to the cache, and what its caller is given.
use libbitcoin_blockchain.Prelude.{
  ℕ, ◌≡◌, ◌≢◌, refl, ◌⊎◌, true, false, not, ◌&&◌, Option, none, some, List, [], ◌∷◌, arith, leb,
  ◌==◌, if◌then◌else◌, elem, Bool-cases, Option-cases, inl, inr,
}
use libbitcoin_blockchain.System.{Block, Code, success, is_error}
use libbitcoin_blockchain.Pools.BlockPool.{
  Chain, BlockPool, relay, has_hash, find, is_cached, insert, add, add_all, get, in_scope,
  read_block, arrive_section, stored, null_dereference, without, handle_add, fetch, handled,
}
use libbitcoin_blockchain.Pools.BlockPool.Cache.{
  IsCache, find-erase, find-insert, find-purge, erase-IsCache, insert-IsCache, insert_all-IsCache,
  purge-IsCache,
}

-- On a well formed cache add, for one block or a list of them, keeps hashes and heights unique and
-- the heights in order.
pub adds-IsCache :
    (chain : Chain) (p : BlockPool) (b : Block) (bs : List Block) (height : ℕ)
    → IsCache p.blocks
    → IsCache (add chain p b height).0.blocks × IsCache (add_all p bs height).0.blocks
unfolding add add_all
adds-IsCache chain p b bs height c = (
  ground (
    arith,
    insert-IsCache b height p.blocks c,
    purge-IsCache chain.fork_height p.blocks c,
    purge-IsCache chain.fork_height (insert b height p.blocks),
  ),
  ground (arith, insert_all-IsCache bs height p.blocks c),
)

-- With the cache enabled and well formed, add leaves no block at or below the fork point. Above it
-- the cache is as it was, but that the block is found at its height if that is in scope and neither
-- the block's hash nor its height was cached. Exactly a height in scope is announced to the
-- subscribers.
pub find-add :
    (chain : Chain) (p : BlockPool) (b : Block) (height k : ℕ)
    → IsCache p.blocks
    → p.maximum_size ≢ 0
    → (find k (add chain p b height).0.blocks ≡ (
        if leb k chain.fork_height
        then none
        else if in_scope p chain.fork_height height
            && height == k
            && not (has_hash b.header.hash p.blocks)
            && not (is_cached (find k p.blocks))
        then some b
        else find k p.blocks))
      × ((add chain p b height).1 ≡ (
          if in_scope p chain.fork_height height then relay success (some b) height ∷ [] else []))
unfolding add
find-add chain p b height k c on =
    let enabled : (p.maximum_size == 0) ≡ false = ground arith in
    elim (Bool-cases (in_scope p chain.fork_height height)) [
      | inl inside ↦
          rw (enabled, inside)
            (
              ground (
                arith,
                find-purge k chain.fork_height 0 (insert b height p.blocks)
                    (insert-IsCache b height p.blocks c).ascends,
                find-insert k b height p.blocks,
              ),
              refl,
            )
      | inr outside ↦
          rw (enabled, outside)
            (ground (arith, find-purge k chain.fork_height 0 p.blocks c.ascends), refl)
    ]

-- With the cache enabled, the block that get takes from a well formed cache is removed from it, and
-- every other height is as it was; get falls back to the store where there is no block in the
-- cache.
pub get_lem :
    (chain : Chain) (p : BlockPool) (height k : ℕ)
    → IsCache p.blocks
    → p.maximum_size ≢ 0
    → ((get chain p height).1 ≡ (
        if is_cached (find height p.blocks)
        then find height p.blocks
        else chain.get_candidate height))
      × (find k (get chain p height).0.blocks ≡ (if height == k then none else find k p.blocks))
      × IsCache (get chain p height).0.blocks
unfolding get
get_lem chain p height k c on =
    let enabled : (p.maximum_size == 0) ≡ false = ground arith in
    elim (Option-cases (find height p.blocks)) [
      | inl e ↦ rw (enabled, e, get) (refl, ground arith, c)
      | inr (b, e) ↦
          rw (enabled, e, get)
            (refl, find-erase k height 0 p.blocks c.ascends, erase-IsCache height p.blocks c)
    ]

-- A fetch of a cached height calls its handler at once, with that block, and is a get.
pub fetch-get :
    (chain : Chain) (fuel : ℕ) (p : BlockPool) (height : ℕ) (b : Block)
    → find height p.blocks ≡ some b
    → p.maximum_size ≢ 0
    → (fetch chain fuel p height ≡ some ((get chain p height).0, [], handled success (some b)))
      × ((get chain p height).1 ≡ some b)
unfolding fetch get
fetch-get chain fuel p height b e on =
    let enabled : (p.maximum_size == 0) ≡ false = ground arith in
    rw (enabled, e, fetch, get) (refl, refl)

pub elem-without : (k h : ℕ) (xs : List ℕ) → elem k (without h xs) ≡ (not (h == k) && elem k xs)
unfolding without
elem-without k h [] = ground arith
elem-without k h (x ∷ xs) = ground (arith, elem-without k h xs)

read_block_stores :
    (chain : Chain) (p : BlockPool) (height : ℕ) (b : Block)
    → p.stopped ≡ false
    → chain.get_candidate height ≡ some b
    → read_block chain p height
      ≡ stored (arrive_section p height b) (relay success (some b) height ∷ [])
unfolding read_block
read_block_stores chain p height b run e = rw (run, e, read_block) refl

-- A read that is dispatched and runs after the pool has stopped, or that finds no populated
-- candidate, dereferences a null block.
read_block_null :
    (chain : Chain) (p : BlockPool) (height : ℕ)
    → (p.stopped ≡ true) ⊎ (chain.get_candidate height ≡ none)
    → read_block chain p height ≡ null_dereference
unfolding read_block
read_block_null chain p height (inl e) = rw (e, read_block) refl
read_block_null chain p height (inr e) = elim (Bool-cases p.stopped) [
  | inl s ↦ rw (s, read_block) refl
  | inr s ↦ rw (s, e, read_block) refl
]

-- A read has one of two ends. If the pool has stopped by then, or the store has no populated
-- candidate of the height, it dereferences a null block. Else it stores, and announces to the
-- subscribers, the candidate b: the height is pending no more and every other height is as it was,
-- b is found at its height if neither its hash nor its height was cached, every other height of
-- the cache is as it was, and a well formed cache stays well formed.
pub read_block_ends :
    (chain : Chain) (p : BlockPool) (height : ℕ)
    → IsCache p.blocks
    → (((p.stopped ≡ true) ⊎ (chain.get_candidate height ≡ none))
        × (read_block chain p height ≡ null_dereference))
      ⊎ ((p.stopped ≡ false)
          × ((b : Block) × (p' : BlockPool) × (chain.get_candidate height ≡ some b)
              × (read_block chain p height ≡ stored p' (relay success (some b) height ∷ []))
              × ((k : ℕ) → elem k p'.pending ≡ (not (height == k) && elem k p.pending))
              × ((k : ℕ)
                  → find k p'.blocks ≡ (
                      if not (has_hash b.header.hash p.blocks)
                        && not (is_cached (find height p.blocks))
                        && height == k
                      then some b
                      else find k p.blocks))
              × IsCache p'.blocks))
read_block_ends chain p height c = elim (Bool-cases p.stopped) [
  | inl s ↦ inl (inl s, read_block_null chain p height (inl s))
  | inr run ↦ elim (Option-cases (chain.get_candidate height)) [
    | inl e ↦ inl (inr e, read_block_null chain p height (inr e))
    | inr (b, e) ↦ inr (run, reads b run e)
  ]
]
  where
    reads :
        (b : Block)
        → p.stopped ≡ false
        → chain.get_candidate height ≡ some b
        → (b : Block) × (p' : BlockPool) × (chain.get_candidate height ≡ some b)
          × (read_block chain p height ≡ stored p' (relay success (some b) height ∷ []))
          × ((k : ℕ) → elem k p'.pending ≡ (not (height == k) && elem k p.pending))
          × ((k : ℕ)
              → find k p'.blocks ≡ (
                  if not (has_hash b.header.hash p.blocks)
                    && not (is_cached (find height p.blocks))
                    && height == k
                  then some b
                  else find k p.blocks))
          × IsCache p'.blocks
    reads b run e =
        let p' = arrive_section p height b in
        (
          b,
          p',
          e,
          read_block_stores chain p height b run e,
          (λ k. elem-without k height p.pending),
          (λ k. ground (arith, find-insert k b height p.blocks)),
          insert-IsCache b height p.blocks c,
        )

-- A waiting fetch drops its subscription on an error without calling its handler, stays subscribed
-- over the blocks of other heights, and calls its handler once, with the block of its own height.
pub handle_add_lem :
    (ec : Code) (b : Option Block) (height target : ℕ)
    → ((handle_add ec b height target).0 ≡ (not (is_error ec) && not (height == target)))
      × ((handle_add ec b height target).1
          ≡ (if not (is_error ec) && height == target then some (ec, b) else none))
unfolding handle_add
handle_add_lem ec b height target = elim (Bool-cases (is_error ec)) [
  | inl e ↦ rw e (refl, refl)
  | inr e ↦ rw e (ground arith, ground arith)
]
