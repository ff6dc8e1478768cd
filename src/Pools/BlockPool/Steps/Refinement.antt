-- ===== src/Pools/BlockPool/Steps/Refinement.antt =====
-- block_pool: every order of its critical sections keeps the pool sound and refines a run of the
-- abstract pool over the same sections.
use libbitcoin_blockchain.Prelude.{
  ℕ, ◌≡◌, refl, subst, List, [], ◌∷◌, ◌++◌, arith, ◌==◌, if◌then◌else◌, count, elem-count,
  count-append, Option-cases, inl, inr,
}
use libbitcoin_blockchain.Pools.BlockPool
use libbitcoin_blockchain.Pools.BlockPool.{
  Chain, BlockPool, Event, read, find, insert, is_cached, without, in_scope, is_wanted, schedule,
  arrive_section, take_section,
}
use libbitcoin_blockchain.Pools.BlockPool.Cache.{insert-IsCache, insert_all-IsCache, purge-IsCache}
use libbitcoin_blockchain.Pools.BlockPool.Effects.{elem-without}
use libbitcoin_blockchain.Pools.BlockPool.Steps.{
  System, Section, Step, starts, stops, inserts, purges, inserts_all, takes, scans, arrives,
  arriving, Run, rest, step, IsSound, view, Promises, same, more,
}
use libbitcoin_blockchain.Pools.BlockPool.Steps.Kept.{
  insert-Puts, insert_all-PutsAll, purge-Promise, take-Promise,
}
use libbitcoin_blockchain.System.{Block}
use libbitcoin_blockchain.Pools.BlockPool.Steps.Scanning.{Keeps, Scanned, schedule-Scanned}

count-without :
    (k h : ℕ) (xs : List ℕ) → count k (without h xs) ≡ (if h == k then 0 else count k xs)
unfolding without
count-without k h [] = ground arith
count-without k h (x ∷ xs) = ground (arith, count-without k h xs)

arrive-Keeps :
    (height : ℕ) (b : Block) (before after : List ℕ) (p : BlockPool)
    → IsSound (record { pool = p; reads = before ++ height ∷ after })
    → Keeps
        (arriving height b)
        (record { pool = p; reads = before ++ height ∷ after })
        (record { pool = arrive_section p height b; reads = before ++ after })
arrive-Keeps height b before after p h = (
  record {
    cache = insert-IsCache b height p.blocks h.cache;
    pending = λ k. ground (
      arith,
      count-without k height p.pending,
      h.pending k,
      h.once k,
      count-append k before (height ∷ after),
      count-append k before after,
    );
    once = λ k.
        ground
          (arith, h.once k, count-append k before (height ∷ after), count-append k before after);
  },
  (refl, refl),
  (
    ground (
      arith,
      elem-count height p.pending,
      h.pending height,
      count-append height before (height ∷ after),
    ),
    insert-Puts p b height,
    (λ k. elem-without k height p.pending),
  ),
)

take-size :
    (p : BlockPool) (height : ℕ)
    → ((take_section p height).0.maximum_size ≡ p.maximum_size)
      × ((take_section p height).0.stopped ≡ p.stopped)
unfolding take_section
take-size p height = elim (Option-cases (find height p.blocks)) [
  | inl absent ↦ rw absent (refl, refl)
  | inr (b, found) ↦ rw found (refl, refl)
]

take-pending : (p : BlockPool) (height : ℕ) → (take_section p height).0.pending ≡ p.pending
unfolding take_section
take-pending p height = elim (Option-cases (find height p.blocks)) [
  | inl absent ↦ rw absent refl
  | inr (b, found) ↦ rw found refl
]

Step-Keeps : (s t : System) (l : Section) → Step s l t → IsSound s → Keeps l s t
unfolding BlockPool.start BlockPool.stop in_scope
Step-Keeps _ _ _ (starts s) h = (
  record { cache = h.cache; pending = h.pending; once = h.once },
  (refl, refl),
  (((λ k. refl), (λ x. refl)), (λ k. refl)),
)
Step-Keeps _ _ _ (stops s) h = (
  record { cache = h.cache; pending = h.pending; once = h.once },
  (refl, refl),
  (((λ k. refl), (λ x. refl)), (λ k. refl)),
)
Step-Keeps _ _ _ (inserts fork b height s near) h = (
  record {
    cache = insert-IsCache b height s.pool.blocks h.cache;
    pending = h.pending;
    once = h.once;
  },
  (refl, refl),
  (near, insert-Puts s.pool b height, (λ k. refl)),
)
Step-Keeps _ _ _ (purges fork s on) h = (
  record { cache = purge-IsCache fork s.pool.blocks h.cache; pending = h.pending; once = h.once },
  (refl, refl),
  purge-Promise s.pool fork h.cache,
)
Step-Keeps _ _ _ (inserts_all bs first_height s on) h = (
  record {
    cache = insert_all-IsCache bs first_height s.pool.blocks h.cache;
    pending = h.pending;
    once = h.once;
  },
  (refl, refl),
  (insert_all-PutsAll bs s.pool first_height, (λ k. refl)),
)
Step-Keeps _ _ _ (takes height s on) h =
    let (cache, promise) = take-Promise s.pool height h.cache in
    (
      record {
        cache = cache;
        pending = λ k. rw (take-pending s.pool height) (h.pending k);
        once = h.once;
      },
      take-size s.pool height,
      promise,
    )
Step-Keeps _ _ _ (scans chain fuel height s p events fits e) h =
    subst (Scanned chain height s) e (schedule-Scanned chain fuel s height fits h)
Step-Keeps _ _ _ (arrives height b before after p) h = arrive-Keeps height b before after p h

-- From a sound state, any order of the critical sections of the block pool, with any fork heights,
-- any states of the chain in which the heights of a scan fit size_t, and any blocks for the
-- dispatched reads, leads to a sound state: the cache is well formed, the pending heights are those
-- of the dispatched reads, and none is read twice at a time. What a caller sees of the pool changes
-- by a run of the abstract pool over the same sections. An insert puts its block at its height,
-- which is in scope, if the height has none and the hash is not known, and else nothing; a take
-- gives the block of its height, if any, and removes it alone; a purge removes the blocks up to its
-- fork height alone; a scan whose own height is in scope requests exactly the heights from that on
-- that are in scope, have no block, are not awaited and are validatable, and any other scan none;
-- each read that arrives was awaited, is no more, and puts its block like an insert. No other
-- section changes what is awaited, a section removes a block from no other height, and only start
-- and stop change whether the pool is stopped.
pub Run-Promises :
    (s t : System) (ls : List Section)
    → Run s ls t
    → IsSound s
    → IsSound t × Promises (view s.pool) ls (view t.pool)
Run-Promises _ _ _ (rest s) h = (h, same (view s.pool))
Run-Promises _ _ _ (step s u t l ls d r) h =
    let (sound, size, kept) = Step-Keeps s u l d h in
    let (sound', kept') = Run-Promises u t ls r sound in
    (sound', more (view s.pool) (view u.pool) (view t.pool) l ls size.0 size.1 kept kept')
