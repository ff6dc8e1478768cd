-- ===== src/Pools/BlockPool/Steps/Scanning.antt =====
-- block_pool: the second critical section of fetch, against what the pool promises of it.
use libbitcoin_blockchain.Prelude.{
  ℕ, zero, suc, ◌+◌, ◌<◌, ◌≡◌, refl, true, false, not, ◌&&◌, ◌||◌, Option, none, some, List, [],
  ◌∷◌, ◌++◌, arith, ◌==◌, elem, count, elem-count, count-append, size_add, size_mod, Bool-cases,
  inl, inr,
}
use libbitcoin_blockchain.Pools.BlockPool.{
  Chain, BlockPool, Event, read, find, is_cached, in_scope, is_wanted, schedule,
}
use libbitcoin_blockchain.Pools.BlockPool.Steps.{
  System, reads_of, Section, scanning, IsSound, view, stopped_after, Promise, is_requested,
}

-- A step that keeps the system sound, and the promise of its section.
abbrev pub Keeps : Section → System → System → Type 0
Keeps l s t =
    IsSound t
    × ((t.pool.maximum_size ≡ s.pool.maximum_size)
        × (t.pool.stopped ≡ stopped_after l s.pool.stopped))
    × Promise l (view s.pool) (view t.pool)

-- What a scan leads to: the reads that it dispatches come before those that wait.
abbrev pub Scanned : Chain → ℕ → System → Option (BlockPool × List Event) → Type 0
Scanned chain next s none = Unit
Scanned chain next s (some (p, events)) =
    Keeps (scanning chain next (reads_of events)) s
      (record { pool = p; reads = reads_of events ++ s.reads })

abbrev awaiting : ℕ → System → System
awaiting next s = record {
  pool = record s.pool { pending = next ∷ s.pool.pending };
  reads = next ∷ s.reads;
}

awaiting-IsSound :
    (next : ℕ) (s : System)
    → elem next s.pool.pending ≡ false
    → IsSound s
    → IsSound (awaiting next s)
awaiting-IsSound next s idle h =
    let free : count next s.pool.pending ≡ 0 =
      ground (arith, idle, elem-count next s.pool.pending) in
    record {
      cache = h.cache;
      pending = λ k. ground (arith, h.pending k);
      once = λ k. ground (arith, h.once k, h.pending k, free);
    }

-- The requests from a height on are that height's, if it is wanted, and those from the next on.
module _ (chain : Chain) (next : ℕ) (s : System)
    (fits : chain.fork_height + s.pool.maximum_size + 1 < size_mod)
    (scope : in_scope s.pool chain.fork_height next ≡ true) where
  requested-next :
      (k : ℕ)
      → is_requested chain next (view s.pool) k ≡ (
          next == k && not (is_cached (find k s.pool.blocks)) && chain.get_validatable k
          || is_requested chain (size_add next 1) (view s.pool) k)
  unfolding in_scope
  requested-next k = ground (arith, scope, fits)

requested-out :
    (chain : Chain) (next : ℕ) (s : System)
    → in_scope s.pool chain.fork_height next ≡ false
    → (k : ℕ) → is_requested chain next (view s.pool) k ≡ false
unfolding in_scope
requested-out chain next s out k = ground (arith, out)

wanted-idle :
    (chain : Chain) (p : BlockPool) (next : ℕ)
    → is_wanted chain p next ≡ true
    → elem next p.pending ≡ false
unfolding is_wanted
wanted-idle chain p next wants = ground (arith, wants)

module _ (chain : Chain) where
  extend :
      (next : ℕ) (s : System) (o : Option (BlockPool × List Event))
      → chain.fork_height + s.pool.maximum_size + 1 < size_mod
      → in_scope s.pool chain.fork_height next ≡ true
      → is_wanted chain s.pool next ≡ true
      → Scanned chain (size_add next 1) (awaiting next s) o
      → Scanned chain next s
          (elim o [ none ↦ none | some (p, events) ↦ some (p, read next ∷ events) ])
  unfolding is_wanted
  extend next s none fits scope wants o = tt
  extend next s (some (p, events)) fits scope wants (sound, size, (blocks, awaited, dispatched)) = (
    record {
      cache = sound.cache;
      pending = λ i. ground (
        arith,
        sound.pending i,
        count-append i (reads_of events) (next ∷ s.reads),
        count-append i (reads_of events) s.reads,
      );
      once = λ i. ground (
        arith,
        sound.once i,
        count-append i (reads_of events) (next ∷ s.reads),
        count-append i (reads_of events) s.reads,
      );
    },
    size,
    (
      blocks,
      (λ k. ground (arith, wants, awaited k, requested-next chain next s fits scope k)),
      (λ k. ground (arith, wants, dispatched k, requested-next chain next s fits scope k)),
    ),
  )

  spare :
      (next : ℕ) (s : System) (o : Option (BlockPool × List Event))
      → chain.fork_height + s.pool.maximum_size + 1 < size_mod
      → in_scope s.pool chain.fork_height next ≡ true
      → is_wanted chain s.pool next ≡ false
      → Scanned chain (size_add next 1) s o
      → Scanned chain next s o
  unfolding is_wanted
  spare next s none fits scope spares o = tt
  spare next s (some (p, events)) fits scope spares (sound, size, (blocks, awaited, dispatched)) = (
    sound,
    size,
    (
      blocks,
      (λ k. ground (arith, spares, awaited k, requested-next chain next s fits scope k)),
      (λ k. ground (arith, spares, dispatched k, requested-next chain next s fits scope k)),
    ),
  )

  pub schedule-Scanned :
      (fuel : ℕ) (s : System) (next : ℕ)
      → chain.fork_height + s.pool.maximum_size + 1 < size_mod
      → IsSound s
      → Scanned chain next s (schedule chain fuel s.pool next)
  unfolding schedule
  schedule-Scanned zero s next fits h = tt
  schedule-Scanned (suc fuel) s next fits h =
      elim (Bool-cases (in_scope s.pool chain.fork_height next)) [
        | inr out ↦ rw (out, schedule) (finished out)
        | inl scope ↦ elim (Bool-cases (is_wanted chain s.pool next)) [
          | inr spares ↦
              rw (scope, schedule)
                (rw (spares, schedule)
                  (spare next s (schedule chain fuel s.pool (size_add next 1)) fits scope spares
                    (schedule-Scanned fuel s (size_add next 1) fits h)))
          | inl wants ↦
              rw (scope, schedule)
                (rw (wants, schedule)
                  (extend next s (schedule chain fuel (awaiting next s).pool (size_add next 1)) fits
                    scope wants
                    (schedule-Scanned fuel (awaiting next s) (size_add next 1) fits
                      (awaiting-IsSound next s (wanted-idle chain s.pool next wants) h))))
        ]
      ]
    where
      finished :
          in_scope s.pool chain.fork_height next ≡ false → Scanned chain next s (some (s.pool, []))
      finished out = (
        h,
        (refl, refl),
        (
          ((λ k. refl), (λ x. refl)),
          (λ k. ground (arith, requested-out chain next s out k)),
          (λ k. ground (arith, requested-out chain next s out k)),
        ),
      )
