-- ===== src/Pools/BlockPool/Cache.antt =====
-- block_pool: the cache as a map from heights to blocks, and what keeps it well formed.
use libbitcoin_blockchain.Prelude.{
  ℕ, suc, ◌<◌, ◌≤◌, ◌≡◌, refl, false, ◌||◌, Option, none, some, List, [], ◌∷◌, arith, leb, ◌==◌,
  if◌then◌else◌, size_add,
}
use libbitcoin_blockchain.System.{Block}
use libbitcoin_blockchain.Pools.BlockPool.{
  Cached, has_hash, find, is_cached, place, insert, erase, insert_all, purge,
}

-- Heights rise strictly along the list, from at least `low`.
abbrev pub Ascends : ℕ → List Cached → Type 0
Ascends low [] = Unit
Ascends low (c ∷ rest) = (low ≤ c.height) × Ascends (suc c.height) rest

-- No two relations have the same hash.
abbrev pub Distinct : List Cached → Type 0
Distinct [] = Unit
Distinct (c ∷ rest) = (has_hash c.entry.hash rest ≡ false) × Distinct rest

-- The two views of the bimap: hashes and heights are unique and the right view is in order.
pub record IsCache (cached : List Cached) : Type 0 where
  pub ascends : Ascends 0 cached
  pub distinct : Distinct cached

pub find_below :
    (k low : ℕ) (cached : List Cached) → Ascends low cached → k < low → find k cached ≡ none
unfolding find
find_below k low [] a h = refl
find_below k low (c ∷ rest) a h = ground (arith, find_below k (suc c.height) rest a.1)

pub find-erase :
    (k h low : ℕ) (cached : List Cached)
    → Ascends low cached
    → find k (erase h cached) ≡ (if h == k then none else find k cached)
unfolding find erase
find-erase k h low [] a = ground arith
find-erase k h low (c ∷ rest) a =
    ground (arith, find-erase k h (suc c.height) rest a.1, find_below k (suc c.height) rest a.1)

pub find-place :
    (k : ℕ) (new : Cached) (cached : List Cached)
    → find new.height cached ≡ none
    → find k (place new cached) ≡ (if new.height == k then some new.entry.block else find k cached)
unfolding find place
find-place k new [] e = refl
find-place k new (c ∷ rest) e = ground (arith, find-place k new rest)

pub find-purge :
    (k top low : ℕ) (cached : List Cached)
    → Ascends low cached
    → find k (purge top cached) ≡ (if leb k top then none else find k cached)
unfolding find purge
find-purge k top low [] a = ground arith
find-purge k top low (c ∷ rest) a =
    ground (arith, find-purge k top (suc c.height) rest a.1, find_below k (suc c.height) rest a.1)

Ascends-weaken : (a b : ℕ) (cached : List Cached) → a ≤ b → Ascends b cached → Ascends a cached
Ascends-weaken a b [] h s = tt
Ascends-weaken a b (c ∷ rest) h s = (omega arith, s.1)

erase-Ascends :
    (h low : ℕ) (cached : List Cached) → Ascends low cached → Ascends low (erase h cached)
unfolding erase
erase-Ascends h low [] a = tt
erase-Ascends h low (c ∷ rest) a = ground (
  arith,
  erase-Ascends h (suc c.height) rest a.1,
  Ascends-weaken low (suc c.height) rest (omega arith) a.1,
)

pub has_hash-erase :
    (k h : ℕ) (cached : List Cached)
    → has_hash k cached ≡ false
    → has_hash k (erase h cached) ≡ false
unfolding has_hash erase
has_hash-erase k h [] e = refl
has_hash-erase k h (c ∷ rest) e = ground (arith, has_hash-erase k h rest)

erase-Distinct : (h : ℕ) (cached : List Cached) → Distinct cached → Distinct (erase h cached)
unfolding erase
erase-Distinct h [] d = tt
erase-Distinct h (c ∷ rest) d =
    ground (arith, erase-Distinct h rest d.1, has_hash-erase c.entry.hash h rest)

pub erase-IsCache : (h : ℕ) (cached : List Cached) → IsCache cached → IsCache (erase h cached)
erase-IsCache h cached c = record {
  ascends = erase-Ascends h 0 cached c.ascends;
  distinct = erase-Distinct h cached c.distinct;
}

place-Ascends :
    (low : ℕ) (new : Cached) (cached : List Cached)
    → low ≤ new.height
    → find new.height cached ≡ none
    → Ascends low cached
    → Ascends low (place new cached)
unfolding place find
place-Ascends low new [] h e a = (h, tt)
place-Ascends low new (c ∷ rest) h e a = ground (arith, place-Ascends (suc c.height) new rest)

pub has_hash-place :
    (k : ℕ) (new : Cached) (cached : List Cached)
    → has_hash k (place new cached) ≡ (new.entry.hash == k || has_hash k cached)
unfolding has_hash place
has_hash-place k new [] = ground arith
has_hash-place k new (c ∷ rest) = ground (arith, has_hash-place k new rest)

place-Distinct :
    (new : Cached) (cached : List Cached)
    → has_hash new.entry.hash cached ≡ false
    → Distinct cached
    → Distinct (place new cached)
unfolding place has_hash
place-Distinct new [] h d = (refl, tt)
place-Distinct new (c ∷ rest) h d =
    ground (arith, place-Distinct new rest, has_hash-place c.entry.hash new rest)

pub none_of : (o : Option Block) → is_cached o ≡ false → o ≡ none
none_of none h = refl
none_of (some b) h = absurd (ground arith)

pub insert-IsCache :
    (b : Block) (height : ℕ) (cached : List Cached)
    → IsCache cached
    → IsCache (insert b height cached)
unfolding insert
insert-IsCache b height cached c = ground (
  arith,
  none_of (find height cached),
  place-Ascends 0 (record { entry = record { hash = b.header.hash; block = b }; height = height })
      cached,
  place-Distinct (record { entry = record { hash = b.header.hash; block = b }; height = height })
      cached,
)

-- An insert keeps what is there; a block goes in exactly if neither its hash nor its height is.
pub find-insert :
    (k : ℕ) (b : Block) (height : ℕ) (cached : List Cached)
    → find k (insert b height cached) ≡ (
        if (has_hash b.header.hash cached || is_cached (find height cached))
        then find k cached
        else if height == k
        then some b
        else find k cached)
unfolding insert
find-insert k b height cached = ground (
  arith,
  none_of (find height cached),
  find-place k (record { entry = record { hash = b.header.hash; block = b }; height = height })
      cached,
)

pub insert_all-IsCache :
    (bs : List Block) (height : ℕ) (cached : List Cached)
    → IsCache cached
    → IsCache (insert_all bs height cached)
unfolding insert_all
insert_all-IsCache [] height cached c = c
insert_all-IsCache (b ∷ bs) height cached c =
    insert_all-IsCache bs (size_add height 1) (insert b height cached)
      (insert-IsCache b height cached c)

purge-Ascends :
    (top low : ℕ) (cached : List Cached) → Ascends low cached → Ascends low (purge top cached)
unfolding purge
purge-Ascends top low [] a = tt
purge-Ascends top low (c ∷ rest) a = ground (
  arith,
  purge-Ascends top (suc c.height) rest a.1,
  Ascends-weaken low (suc c.height) (purge top rest),
)

purge-Distinct : (top : ℕ) (cached : List Cached) → Distinct cached → Distinct (purge top cached)
unfolding purge
purge-Distinct top [] d = tt
purge-Distinct top (c ∷ rest) d = ground (arith, purge-Distinct top rest d.1)

pub purge-IsCache : (top : ℕ) (cached : List Cached) → IsCache cached → IsCache (purge top cached)
purge-IsCache top cached c = record {
  ascends = purge-Ascends top 0 cached c.ascends;
  distinct = purge-Distinct top cached c.distinct;
}
