-- ===== src/Pools/BlockPool/Steps/Operations.antt =====
-- block_pool: an operation that is not interrupted is a run of its critical sections.
use libbitcoin_blockchain.Prelude.{
  ℕ, zero, suc, ltb, subst, ◌+◌, ◌<◌, ◌≡◌, refl, true, false, Option, none, some, List, [], ◌∷◌,
  ◌++◌, arith, ◌==◌, if◌then◌else◌, size_mod, Bool-cases, Option-cases, inl, inr,
}
use libbitcoin_blockchain.System.{Block, success}
use libbitcoin_blockchain.Pools.BlockPool.{
  Chain, BlockPool, Event, Fetched, find, is_cached, in_scope, take_section, insert_section,
  purge_section, schedule, subscribed, handled, waits, subscribe, add, get, fetch,
}
use libbitcoin_blockchain.Pools.BlockPool.Steps.{
  System, reads_of, Section, inserting, purging, taking, scanning, Step, inserts, purges, takes,
  scans, Run, rest, step, IsSound, Promises, view,
}
use libbitcoin_blockchain.Pools.BlockPool.Scan.{fetch_schedules}
use libbitcoin_blockchain.Pools.BlockPool.Steps.Refinement.{Run-Promises}

one : {s t : System} {l : Section} → Step s l t → Run s (l ∷ []) t
one {s} {t} {l} d = step s t t l [] d (rest t)

abbrev with_pool : System → BlockPool → System
with_pool s p = record s { pool = p }

-- The sections of add(block, height)
abbrev pub sections_of_add : Chain → BlockPool → Block → ℕ → List Section
sections_of_add chain p b height =
    if p.maximum_size == 0
    then []
    else if in_scope p chain.fork_height height
    then inserting chain.fork_height b height ∷ purging chain.fork_height ∷ []
    else purging chain.fork_height ∷ []

-- The section of get, and those of a fetch from what it finds and dispatches.
abbrev pub sections_of_get : BlockPool → ℕ → List Section
sections_of_get p height =
    if p.maximum_size == 0 then [] else taking height (find height p.blocks) ∷ []

abbrev pub sections_of_fetch : Chain → BlockPool → ℕ → List Event → List Section
sections_of_fetch chain p height events =
    if p.maximum_size == 0
    then []
    else if is_cached (find height p.blocks)
    then taking height (find height p.blocks) ∷ []
    else taking height none ∷ scanning chain height (reads_of events) ∷ []

pub add-Run :
    (chain : Chain) (b : Block) (height : ℕ) (s : System)
    → Run s (sections_of_add chain s.pool b height) (with_pool s (add chain s.pool b height).0)
unfolding add
add-Run chain b height s = elim (Bool-cases (s.pool.maximum_size == 0)) [
  | inl off ↦ rw off (rest s)
  | inr on ↦ elim (Bool-cases (in_scope s.pool chain.fork_height height)) [
    | inl near ↦ rw (on, near) (both on near)
    | inr far ↦ rw (on, far) (one (purges chain.fork_height s on))
  ]
]
  where
    both :
        (s.pool.maximum_size == 0) ≡ false
        → in_scope s.pool chain.fork_height height ≡ true
        → Run s
            (inserting chain.fork_height b height ∷ purging chain.fork_height ∷ [])
            (with_pool s (purge_section chain.fork_height (insert_section s.pool b height)))
    both on near =
        step s (with_pool s (insert_section s.pool b height)) _ _ _
          (inserts chain.fork_height b height s near)
          (one (purges chain.fork_height (with_pool s (insert_section s.pool b height)) on))

pub get-Run :
    (chain : Chain) (height : ℕ) (s : System)
    → Run s (sections_of_get s.pool height) (with_pool s (get chain s.pool height).0)
unfolding get take_section
get-Run chain height s = elim (Bool-cases (s.pool.maximum_size == 0)) [
  | inl off ↦ rw off (rest s)
  | inr on ↦ elim (Option-cases (find height s.pool.blocks)) [
    | inl absent ↦ rw (on, absent) (rw (absent, take_section) at (one (takes height s on)))
    | inr (b, found) ↦ rw (on, found) (rw (found, take_section) at (one (takes height s on)))
  ]
]

-- What a fetch leads to.
abbrev Fetches : Chain → ℕ → System → Option (BlockPool × List Event × Fetched) → Type 0
Fetches chain height s none = Unit
Fetches chain height s (some (p, events, result)) =
    Run s (sections_of_fetch chain s.pool height events)
      (record { pool = p; reads = reads_of events ++ s.reads })

module _ (chain : Chain) (fuel height : ℕ) (s : System)
    (fits : chain.fork_height + s.pool.maximum_size + 1 < size_mod)
    (on : (s.pool.maximum_size == 0) ≡ false) (absent : find height s.pool.blocks ≡ none) where
  scan-Fetches :
      (o : Option (BlockPool × List Event))
      → schedule chain fuel s.pool height ≡ o
      → Fetches chain height s (subscribed height o)
  unfolding take_section
  scan-Fetches none e = tt
  scan-Fetches (some (p, events)) e =
      rw (on, absent)
        (step s s _ _ _ (rw (absent, take_section) at (takes height s on))
          (one (scans chain fuel height s p events fits e)))

fetch-Fetches :
    (chain : Chain) (fuel height : ℕ) (s : System)
    → chain.fork_height + s.pool.maximum_size + 1 < size_mod
    → Fetches chain height s (fetch chain fuel s.pool height)
unfolding fetch take_section
fetch-Fetches chain fuel height s fits = elim (Bool-cases (s.pool.maximum_size == 0)) [
  | inl off ↦ rw (off, fetch) (rw off (rest s))
  | inr on ↦ elim (Option-cases (find height s.pool.blocks)) [
    | inl absent ↦
        rw (on, fetch)
          (rw (absent, fetch)
            (scan-Fetches chain fuel height s fits on absent (schedule chain fuel s.pool height)
              refl))
    | inr (b, found) ↦
        rw (on, found, fetch)
          (rw (on, found) (rw (found, take_section) at (one (takes height s on))))
  ]
]

fetch_returns :
    (chain : Chain) (fuel height : ℕ) (p : BlockPool)
    → chain.fork_height + p.maximum_size + 1 < size_mod
    → p.maximum_size + 1 < fuel
    → (q : BlockPool) × (events : List Event) × (result : Fetched) × (fetch chain fuel p height
        ≡ some (q, events, result))
unfolding fetch schedule in_scope take_section
fetch_returns chain zero height p fits enough = absurd (omega arith)
fetch_returns chain (suc fuel) height p fits enough = elim (Bool-cases (p.maximum_size == 0)) [
  | inl off ↦ (p, [], handled success (chain.get_candidate height), rw off refl)
  | inr on ↦ elim (Option-cases (find height p.blocks)) [
    | inr (b, found) ↦
        ((take_section p height).0, [], handled success (some b), rw (on, found, take_section) refl)
    | inl absent ↦ elim (Bool-cases (ltb chain.fork_height height)) [
      | inl above ↦ (
        _,
        _,
        _,
        fetch_schedules chain (suc fuel) p height (ground (arith, on)) absent
            (ground (arith, above)) fits enough,
      )
      | inr below ↦ (p, subscribe height ∷ [], waits, rw (on, absent) (rw (below, schedule) refl))
    ]
  ]
]

-- From a sound state, add, get and a fetch that are not interrupted each end, the fetch within two
-- rounds more than the size of the cache, as long as the heights in scope fit size_t. Each then
-- refines the abstract pool over its own sections, in their order: add inserts a block in scope
-- before it purges up to the fork point, get takes its height, and a fetch that takes no block
-- scans from its own height on.
pub operations-Promises :
    (chain : Chain) (fuel height : ℕ) (b : Block) (s : System)
    → chain.fork_height + s.pool.maximum_size + 1 < size_mod
    → s.pool.maximum_size + 1 < fuel
    → IsSound s
    → Promises
        (view s.pool)
        (sections_of_add chain s.pool b height)
        (view (add chain s.pool b height).0)
      × Promises (view s.pool) (sections_of_get s.pool height) (view (get chain s.pool height).0)
      × ((p : BlockPool) × (events : List Event) × (result : Fetched) × (fetch chain fuel s.pool
              height
            ≡ some (p, events, result))
          × Promises (view s.pool) (sections_of_fetch chain s.pool height events) (view p))
operations-Promises chain fuel height b s fits enough h =
    let (p, events, result, e) = fetch_returns chain fuel height s.pool fits enough in
    (
      (Run-Promises s _ _ (add-Run chain b height s) h).1,
      (Run-Promises s _ _ (get-Run chain height s) h).1,
      (
        p,
        events,
        result,
        e,
        (Run-Promises s _ _
            (subst (Fetches chain height s) e (fetch-Fetches chain fuel height s fits)) h).1,
      ),
    )
