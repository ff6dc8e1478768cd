-- ===== src/Pools/BlockPool/Scan.antt =====
-- block_pool::fetch: which reads its loop schedules.
use libbitcoin_blockchain.Prelude.{
  ℕ, zero, suc, ◌+◌, ◌-◌, ◌<◌, ◌≡◌, refl, ◌≢◌, true, false, ◌&&◌, none, some, List, [], ◌∷◌, map,
  arith, leb, ltb, ◌==◌, if◌then◌else◌, size_add, size_mod, Bool-cases, inl, inr,
}
use libbitcoin_blockchain.Pools.BlockPool.{
  Chain, BlockPool, read, subscribe, waits, find, in_scope, is_wanted, schedule, fetch,
}

-- The heights from `next` on, `n` of them, that are wanted.
unfoldable pub wanted_range : Chain → BlockPool → ℕ → ℕ → List ℕ
wanted_range chain p zero next = []
wanted_range chain p (suc n) next =
    let others = wanted_range chain p n (next + 1) in
    if is_wanted chain p next then next ∷ others else others

-- The heights pushed on the pending set, in order.
unfoldable pub pend : List ℕ → List ℕ → List ℕ
pend [] pending = pending
pend (h ∷ hs) pending = pend hs (h ∷ pending)

wanted-pending :
    (chain : Chain) (p : BlockPool) (k h : ℕ)
    → h < k
    → is_wanted chain (record p { pending = h ∷ p.pending }) k ≡ is_wanted chain p k
unfolding is_wanted
wanted-pending chain p k h l = ground arith

range-pending :
    (chain : Chain) (p : BlockPool) (n next h : ℕ)
    → h < next
    → wanted_range chain (record p { pending = h ∷ p.pending }) n next ≡ wanted_range chain p n next
unfolding wanted_range
range-pending chain p zero next h l = refl
range-pending chain p (suc n) next h l =
    rw (wanted-pending chain p next h l, range-pending chain p n (next + 1) h (omega arith))

module _ (chain : Chain) where
  schedule_lem :
      (n fuel : ℕ) (p : BlockPool) (next : ℕ)
      → n < fuel
      → chain.fork_height < next
      → n ≡ chain.fork_height + p.maximum_size + 1 - next
      → chain.fork_height + p.maximum_size + 1 < size_mod
      → schedule chain fuel p next
        ≡ some (
          record p { pending = pend (wanted_range chain p n next) p.pending },
          map read (wanted_range chain p n next),
        )
  unfolding schedule in_scope wanted_range pend
  schedule_lem n zero p next f above e fits = absurd (omega arith)
  schedule_lem zero (suc fuel) p next f above e fits =
      let out : (ltb chain.fork_height next && leb (next - chain.fork_height) p.maximum_size)
          ≡ false =
        ground arith in
      rw (out, schedule) refl
  schedule_lem (suc n) (suc fuel) p next f above e fits =
      let scope : (ltb chain.fork_height next && leb (next - chain.fork_height) p.maximum_size)
          ≡ true =
        ground arith in
      let step : size_add next 1 ≡ next + 1 = omega arith in
      elim (Bool-cases (is_wanted chain p next)) [
        | inl w ↦
            let p' : BlockPool = record p { pending = next ∷ p.pending } in
            let ih =
              schedule_lem n fuel p' (next + 1) (omega arith) (omega arith) (omega arith) fits in
            let same = range-pending chain p n (next + 1) next (omega arith) in
            rw (scope, schedule)
              (rw (w, schedule) (rw (step, schedule) (rw (ih, schedule) (rw same refl))))
        | inr w ↦
            let ih =
              schedule_lem n fuel p (next + 1) (omega arith) (omega arith) (omega arith) fits in
            rw (scope, schedule) (rw (w, schedule) (rw (step, schedule) ih))
      ]

  -- With the cache enabled and its scope within size_t, a fetch of a height that is above the fork
  -- point and not cached subscribes for it and then schedules a read of exactly
  -- the heights from it to the end of the scope that are wanted (validatable, neither cached nor
  -- pending), once each and in order; those become pending and the cache stays as it is. The loop
  -- ends within two rounds more than the size of the cache.
  pub fetch_schedules :
      (fuel : ℕ) (p : BlockPool) (height : ℕ)
      → p.maximum_size ≢ 0
      → find height p.blocks ≡ none
      → chain.fork_height < height
      → chain.fork_height + p.maximum_size + 1 < size_mod
      → p.maximum_size + 1 < fuel
      → let hs = wanted_range chain p (chain.fork_height + p.maximum_size + 1 - height) height in
        fetch chain fuel p height
        ≡ some (record p { pending = pend hs p.pending }, subscribe height ∷ map read hs, waits)
  unfolding fetch
  fetch_schedules fuel p height size absent above fits enough =
      let on : (p.maximum_size == 0) ≡ false = ground arith in
      rw on (
        rw (absent, fetch)
          (rw
            (schedule_lem (chain.fork_height + p.maximum_size + 1 - height) fuel p height
              (omega arith) above refl fits)
            refl))
