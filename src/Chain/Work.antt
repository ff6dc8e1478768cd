-- ===== src/Chain/Work.antt =====
-- block_chain::get_work: the sum that it computes, and what its early exit may leave out.
use libbitcoin_blockchain.Prelude.{
  ℕ, zero, suc, ◌+◌, ◌<◌, ◌≤◌, ◌≡◌, refl, ◌⊎◌, Bool, true, ◌||◌, Option, none, some, arith, ltb,
  leb, ◌==◌, if◌then◌else◌, work_add, work_mod, Bool-cases, inl, inr,
}
use libbitcoin_blockchain.Chain.Database.{BlockResult, Database}
use libbitcoin_blockchain.Chain.Reader.{work_above, get_work}

-- The proof of the header at a height of an index, 0 where there is none.
abbrev proof_of : (ℕ → ℕ) → Option BlockResult → ℕ
proof_of proof none = 0
proof_of proof (some result) = proof result.header.bits

-- The work of the heights in ( above, height ].
unfoldable pub total_work : (ℕ → ℕ) → Database → ℕ → Bool → ℕ → ℕ
total_work proof db above candidate zero = 0
total_work proof db above candidate (suc height) =
    let rest = total_work proof db above candidate height in
    if ltb above (suc height)
    then proof_of proof (db.at_height (suc height) candidate) + rest
    else 0

-- Every height in ( above, height ] is indexed.
abbrev pub Indexed : Database → ℕ → Bool → ℕ → Type 0
Indexed db above candidate height =
    (h : ℕ) → above < h → h ≤ height → (r : BlockResult) × (db.at_height h candidate ≡ some r)

module _ (proof : ℕ → ℕ) (db : Database) (above : ℕ) (candidate : Bool) where
  total_work_step :
      (height : ℕ) (r : BlockResult)
      → db.at_height (suc height) candidate ≡ some r
      → ltb above (suc height) ≡ true
      → total_work proof db above candidate (suc height)
        ≡ proof r.header.bits + total_work proof db above candidate height
  unfolding total_work
  total_work_step height r e more = rw (more, e) refl

  -- The loop ends with at least the work that is to be overcome, or with all the work there is.
  abbrev Ends : ℕ → ℕ → ℕ → Type 0
  Ends overcome height out =
      (w : ℕ) × (work_above proof db overcome above candidate height out ≡ some w)
      × (w ≤ out + total_work proof db above candidate height)
      × ((w ≡ out + total_work proof db above candidate height) ⊎ (0 < overcome) × (overcome ≤ w))

  Ends-step :
      (overcome height out : ℕ) (r : BlockResult)
      → db.at_height (suc height) candidate ≡ some r
      → ltb above (suc height) ≡ true
      → (overcome == 0 || ltb out overcome) ≡ true
      → out + proof r.header.bits < work_mod
      → Ends overcome height (out + proof r.header.bits)
      → Ends overcome (suc height) out
  unfolding work_above
  Ends-step overcome height out r e more go fits (w, e', small, which) =
      let sum : work_add out (proof r.header.bits) ≡ out + proof r.header.bits = omega arith in
      let step = total_work_step height r e more in
      (
        w,
        rw (more, go, work_above) (rw (e, work_above) (rw sum e')),
        omega arith,
        ground (arith, which, step),
      )

  work_above_lem :
      (overcome height out : ℕ)
      → Indexed db above candidate height
      → out + total_work proof db above candidate height < work_mod
      → Ends overcome height out
  unfolding work_above total_work
  work_above_lem overcome zero out ix fits = (out, refl, omega arith, inl (omega arith))
  work_above_lem overcome (suc height) out ix fits = elim (Bool-cases (ltb above (suc height))) [
    | inr stop ↦ (out, rw (stop, work_above) refl, omega arith, inl (rw stop (omega arith)))
    | inl more ↦ elim (Bool-cases (overcome == 0 || ltb out overcome)) [
      | inr enough ↦
          (out, rw (more, enough, work_above) refl, omega arith, inr (ground arith, ground arith))
      | inl go ↦
          another (ix (suc height) (ground arith) (omega arith)) more go
            (λ o f. work_above_lem overcome height o (λ h a b. ix h a (omega arith)) f)
    ]
  ]
    where
      another :
          (r : BlockResult) × (db.at_height (suc height) candidate ≡ some r)
          → ltb above (suc height) ≡ true
          → (overcome == 0 || ltb out overcome) ≡ true
          → ((o : ℕ)
              → o + total_work proof db above candidate height < work_mod
              → Ends overcome height o)
          → Ends overcome (suc height) out
      another (r, e) more go ih =
          let step = total_work_step height r e more in
          Ends-step overcome height out r e more go (omega arith)
            (ih (out + proof r.header.bits) (omega arith))

  -- With nothing to overcome, get_work gives the work of all heights above the given one.
  pub get_work-total :
      (top : ℕ)
      → db.top candidate ≡ some top
      → Indexed db above candidate top
      → total_work proof db above candidate top < work_mod
      → get_work proof db 0 above candidate ≡ some (total_work proof db above candidate top)
  unfolding get_work
  get_work-total top e ix fits =
      let (w, e', small, which) = work_above_lem 0 top 0 ix (omega arith) in
      let all : w ≡ total_work proof db above candidate top = omega (arith, which) in
      rw (e, get_work) (rw e' (rw all refl))

  -- Where every height above the fork is indexed and their work fits 256 bits, stopping early does
  -- not change whether the work is overcome: a branch has at most the work that get_work returns
  -- exactly if it has at most the work of all heights above the fork.
  pub get_work_decides :
      (work top : ℕ)
      → db.top candidate ≡ some top
      → Indexed db above candidate top
      → total_work proof db above candidate top < work_mod
      → (required : ℕ) × (get_work proof db work above candidate ≡ some required)
        × (leb work required ≡ leb work (total_work proof db above candidate top))
  unfolding get_work
  get_work_decides work top e ix fits =
      let (w, e', small, which) = work_above_lem work top 0 ix (omega arith) in
      (w, rw (e, get_work) e', ground (arith, which))
