-- ===== src/Validate/Buckets.antt =====
-- The loop `for (tx = bucket; tx < count; tx = ceiling_add(tx, buckets))` of validate_block.cpp's
-- accept_transactions, by which tasks share the positions of a list, one bucket each, and the start
-- of the loop of populate_block.cpp's populate_transactions, which is the same otherwise.
-- `ceiling_add` is that of bc::system.
use libbitcoin_blockchain.Prelude.{
  ℕ, zero, suc, ◌+◌, ◌-◌, ◌%◌, ◌<◌, ◌≤◌, ◌≡◌, ◌≢◌, refl, true, false, ◌&&◌, not, Option, none, some,
  List, [], ◌∷◌, arith, leb, ltb, ◌==◌, if◌then◌else◌, elem, Bool-cases, inl, inr, size_mod,
}
use libbitcoin_blockchain.System.{max_size_t}
use native.Mathlib.Nat.{
  mod-lt, mod-eq_of_lt, mod-eq-sub-mod, mod-add-mod, add-mod_right, mod_self, zero-mod,
}

-- ceiling_add on size_t, which stops at the greatest value
pub record CeilingAdd : Type 0 where
  pub ceiling_add : ℕ → ℕ → ℕ
  pub caps : (a b : ℕ) → ceiling_add a b ≡ (if ltb (a + b) size_mod then a + b else max_size_t)

abbrev pub saturating : CeilingAdd
saturating = record {
  ceiling_add = λ a b. if ltb (a + b) size_mod then a + b else max_size_t;
  caps = λ a b. refl;
}

module _ (math : CeilingAdd) where
  -- The positions that the loop visits from `first` on, with fuel; `none` is the end of the fuel.
  unfoldable pub positions : ℕ → ℕ → ℕ → ℕ → Option (List ℕ)
  positions zero count buckets first = none
  positions (suc fuel) count buckets first = elim (ltb first count) [
    | false ↦ some []
    | true ↦ elim (positions fuel count buckets (math.ceiling_add first buckets)) [
      | none ↦ none
      | some rest ↦ some (first ∷ rest)
    ]
  ]

-- Where the loop of populate_transactions starts: its first task skips the coinbase.
unfoldable pub first_position : ℕ → ℕ → ℕ
first_position bucket buckets = if bucket == 0 then buckets else bucket

-- No position comes twice.
abbrev pub Distinct : List ℕ → Type 0
Distinct [] = Unit
Distinct (i ∷ rest) = (elem i rest ≡ false) × Distinct rest

shift_mod : (r d k : ℕ) → r < k → 0 < d → d < k → (r + d) % k ≢ r
shift_mod r d k hr lo hi e = elim (Bool-cases (ltb (r + d) k)) [
  | inl small ↦ let below : r + d < k = ground arith in absurd (omega (arith, mod-eq_of_lt below))
  | inr large ↦
      let above : k ≤ r + d = ground arith in
      let below : r + d - k < k = omega arith in
      absurd (omega (arith, mod-eq-sub-mod above, mod-eq_of_lt below))
]

-- Two positions of one residue that differ are at least the modulus apart.
apart : (i s k : ℕ) → 0 < k → s < i → i < s + k → (i % k == s % k) ≡ false
apart i s k pos lo hi =
    let e : s + (i - s) ≡ i = omega arith in
    let m : (s % k + (i - s)) % k ≡ i % k = rw e at (mod-add-mod s k (i - s)) in
    let no_eq = shift_mod (s % k) (i - s) k (mod-lt s pos) (omega arith) (omega arith) in
    ground (arith, no_eq, m)

residue : (i buckets bucket : ℕ) → bucket < buckets → i < bucket → (i % buckets == bucket) ≡ false
residue i buckets bucket inside lower =
    let below : i < buckets = omega arith in ground (arith, mod-eq_of_lt below)

small_residue : (i buckets : ℕ) → 0 < i → i < buckets → (i % buckets == 0) ≡ false
small_residue i buckets pos below = ground (arith, mod-eq_of_lt below)

module _ (math : CeilingAdd) where
  -- The task that starts at a position visits exactly the later positions of its residue, and ends
  -- within one round more than there are positions left.
  positions_lem :
      (fuel count buckets first : ℕ)
      → 0 < buckets
      → count + buckets < size_mod
      → count < fuel + first
      → 0 < fuel
      → (visited : List ℕ) × (positions math fuel count buckets first ≡ some visited)
        × ((i : ℕ)
            → elem i visited ≡ (ltb i count && leb first i && i % buckets == first % buckets))
        × Distinct visited
  unfolding positions
  positions_lem zero count buckets first pos fits enough some_fuel = absurd (omega arith)
  positions_lem (suc fuel) count buckets first pos fits enough some_fuel =
      elim (Bool-cases (ltb first count)) [
        | inr over ↦ ([], rw (over, positions) refl, (λ i. ground arith), tt)
        | inl more ↦
            let next : math.ceiling_add first buckets ≡ first + buckets =
              ground (arith, math.caps first buckets) in
            let (rest, e, each, distinct) =
              positions_lem fuel count buckets (first + buckets) pos fits (ground arith)
                (ground arith) in
            (
              first ∷ rest,
              rw (more, positions) (rw (next, positions) (rw (e, positions) refl)),
              (λ i. step i rest more (each i)),
              (fresh rest (each first), distinct),
            )
      ]
    where
      fresh :
          (rest : List ℕ)
          → elem first rest ≡ (
              ltb first count
              && leb (first + buckets) first
              && first % buckets == (first + buckets) % buckets)
          → elem first rest ≡ false
      fresh rest e = ground (arith, e)

      step :
          (i : ℕ) (rest : List ℕ)
          → ltb first count ≡ true
          → elem i rest
            ≡ (ltb i count && leb (first + buckets) i && i % buckets == (first + buckets) % buckets)
          → elem i (first ∷ rest) ≡ (ltb i count && leb first i && i % buckets == first % buckets)
      step i rest more e = ground (arith, e, add-mod_right first buckets, apart i first buckets pos)

  -- populate_transactions starts its first task at the second round, so that position 0, the
  -- coinbase, is visited by none; every other position below the count is visited by the task of
  -- its residue, once, and by no other, as long as the count and the buckets fit size_t.
  pub positions_after_coinbase :
      (fuel count buckets bucket : ℕ)
      → bucket < buckets
      → count + buckets < size_mod
      → count < fuel
      → (visited : List ℕ) × (positions math fuel count buckets (first_position bucket buckets)
          ≡ some visited)
        × ((i : ℕ) → elem i visited ≡ (ltb i count && not (i == 0) && i % buckets == bucket))
        × Distinct visited
  unfolding first_position
  positions_after_coinbase fuel count buckets bucket inside fits enough =
      elim (Bool-cases (bucket == 0)) [
        | inl first ↦
            let (visited, e, each, distinct) =
              positions_lem fuel count buckets buckets (omega arith) fits (omega arith)
                (omega arith) in
            (
              visited,
              rw first e,
              (λ i. ground (arith, each i, mod_self buckets, small_residue i buckets)),
              distinct,
            )
        | inr other ↦
            let (visited, e, each, distinct) =
              positions_lem fuel count buckets bucket (omega arith) fits (omega arith)
                (omega arith) in
            (
              visited,
              rw other e,
              (λ i. ground (
                arith,
                each i,
                mod-eq_of_lt inside,
                residue i buckets bucket inside,
                zero-mod buckets,
              )),
              distinct,
            )
      ]
