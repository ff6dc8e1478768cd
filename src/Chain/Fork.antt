-- ===== src/Chain/Fork.antt =====
-- block_chain.cpp: set_fork_point and set_top_valid_candidate_state, the searches at start-up.
-- A loop variable that is decremented at 0 wraps, which the assertions of the source exclude: that
-- is the outcome `wrapped`.
use libbitcoin_blockchain.Prelude.{
  ℕ, zero, suc, ◌<◌, ◌≤◌, ◌≡◌, ◌≢◌, refl, Bool, true, false, Option, none, some, arith, ◌==◌,
  if◌then◌else◌, min, ne_of_==, Bool-cases, inl, inr,
}
use libbitcoin_blockchain.Chain.Database.{BlockResult, Database}
use libbitcoin_blockchain.Chain.Reader.{get_top_height, get_block_hash, ◌>>=◌}

-- The checkpoint that the search stores; its hash is `none` where no confirmed hash was read.
pub data ForkSearch : Type 0 where
  common : Option ℕ → ℕ → ForkSearch
  wrapped : ForkSearch

-- The loop from `height`, with the confirmed hash that was read last.
unfoldable pub find_common : Database → ℕ → Option ℕ → ForkSearch
unfolding get_block_hash
find_common db zero last = elim (get_block_hash db 0 true) [
  | none ↦ common last 0
  | some candidate_hash ↦ elim (get_block_hash db 0 false) [
    | none ↦ common last 0
    | some confirmed_hash ↦
        if candidate_hash == confirmed_hash then common (some confirmed_hash) 0 else wrapped
  ]
]
find_common db (suc height) last = elim (get_block_hash db (suc height) true) [
  | none ↦ common last (suc height)
  | some candidate_hash ↦ elim (get_block_hash db (suc height) false) [
    | none ↦ common last (suc height)
    | some confirmed_hash ↦ elim (candidate_hash == confirmed_hash) [
      | true ↦ common (some confirmed_hash) (suc height)
      | false ↦ find_common db height (some confirmed_hash)
    ]
  ]
]

-- set_fork_point(): `none` where a top is missing and the source returns false.
unfoldable pub set_fork_point : Database → Option ForkSearch
unfolding get_top_height find_common
set_fork_point db = do
  candidate_height ← get_top_height db true
  confirmed_height ← get_top_height db false
  some (find_common db (min candidate_height confirmed_height) none)

-- Both indexes have a hash at every height up to the given one.
abbrev pub Populated : Database → ℕ → Type 0
Populated db height =
    (h : ℕ)
    → h ≤ height
    → (a : ℕ) × (b : ℕ) × (get_block_hash db h true ≡ some a) × (get_block_hash db h false ≡ some b)

-- The indexes have the same hash at the fork point and different ones above it.
pub record IsFork (db : Database) (height hash fork : ℕ) : Type 0 where
  pub candidate : get_block_hash db fork true ≡ some hash
  pub confirmed : get_block_hash db fork false ≡ some hash
  pub within : fork ≤ height
  pub above : (h : ℕ) → fork < h → h ≤ height → get_block_hash db h true ≢ get_block_hash db h false

find_common-IsFork :
    (db : Database) (height : ℕ) (last : Option ℕ)
    → Populated db height
    → get_block_hash db 0 true ≡ get_block_hash db 0 false
    → (hash : ℕ) × (fork : ℕ) × (find_common db height last ≡ common (some hash) fork)
      × IsFork db height hash fork
unfolding find_common
find_common-IsFork db zero last p genesis =
    let (a, b, ea, eb) = p 0 (omega arith) in
    let same : a ≡ b = cc (ea, eb) in
    (
      b,
      0,
      rw (ea, eb, find_common) (ground (arith, same)),
      record {
        candidate = rw ea (rw same refl);
        confirmed = eb;
        within = omega arith;
        above = λ h up down. absurd (omega arith);
      },
    )
find_common-IsFork db (suc height) last p genesis =
    let (a, b, ea, eb) = p (suc height) (omega arith) in
    elim (Bool-cases (a == b)) [
      | inl same ↦
          let e : a ≡ b = ground arith in
          (
            b,
            suc height,
            rw (ea, eb, find_common) (rw same refl),
            record {
              candidate = rw ea (rw e refl);
              confirmed = eb;
              within = omega arith;
              above = λ h up down. absurd (omega arith);
            },
          )
      | inr differ ↦
          let (hash, fork, e, f) =
            find_common-IsFork db height (some b) (λ h l. p h (omega arith)) genesis in
          (
            hash,
            fork,
            rw (ea, eb, find_common) (rw differ e),
            record {
              candidate = f.candidate;
              confirmed = f.confirmed;
              within = omega (arith, f.within);
              above = λ h up down. higher a b ea eb differ f h up down;
            },
          )
    ]
  where
    higher :
        (a b : ℕ)
        → get_block_hash db (suc height) true ≡ some a
        → get_block_hash db (suc height) false ≡ some b
        → (a == b) ≡ false
        → {hash fork : ℕ} → IsFork db height hash fork
        → (h : ℕ) → fork < h
        → h ≤ suc height
        → get_block_hash db h true ≢ get_block_hash db h false
    higher a b ea eb differ f h up down = elim (Bool-cases (h == suc height)) [
      | inl last' ↦
          let e : h ≡ suc height = ground arith in
          rw e (λ same. ne_of_== a b differ (cc (ea, eb, same)))
      | inr lower ↦ f.above h up (ground arith)
    ]

-- With both indexes populated up to the lower top and one genesis block, set_fork_point stores the
-- highest height, up to the lower top, at which both indexes have the same hash, with that hash.
pub set_fork_point_lem :
    (db : Database) (candidate_height confirmed_height : ℕ)
    → db.top true ≡ some candidate_height
    → db.top false ≡ some confirmed_height
    → Populated db (min candidate_height confirmed_height)
    → get_block_hash db 0 true ≡ get_block_hash db 0 false
    → (hash : ℕ) × (fork : ℕ) × (set_fork_point db ≡ some (common (some hash) fork))
      × IsFork db (min candidate_height confirmed_height) hash fork
unfolding set_fork_point
set_fork_point_lem db a b ea eb p genesis =
    let (hash, fork, e, f) = find_common-IsFork db (min a b) none p genesis in
    (hash, fork, rw (ea, eb, set_fork_point) (rw e refl), f)

-- The loop of set_top_valid_candidate_state: the height of the highest valid candidate. The state
-- of a height that is not found is that of an empty result, `missing_state`.
abbrev state_of : ℕ → Option BlockResult → ℕ
state_of missing_state none = missing_state
state_of missing_state (some result) = result.state

unfoldable pub get_block_state : ℕ → Database → ℕ → Bool → ℕ
get_block_state missing_state db height candidate =
    state_of missing_state (db.at_height height candidate)

unfoldable pub top_valid : (ℕ → Bool) → ℕ → Database → ℕ → Option ℕ
unfolding get_block_state
top_valid is_valid missing_state db zero =
    if is_valid (get_block_state missing_state db 0 true) then some 0 else none
top_valid is_valid missing_state db (suc height) =
    let lower = top_valid is_valid missing_state db height in
    if is_valid (get_block_state missing_state db (suc height) true)
    then some (suc height)
    else lower

-- With a valid genesis block the search down from the top ends at a valid height, and every height
-- above it up to the top is not valid.
pub top_valid_lem :
    (is_valid : ℕ → Bool) (missing_state : ℕ) (db : Database) (top : ℕ)
    → is_valid (get_block_state missing_state db 0 true) ≡ true
    → (height : ℕ) × (top_valid is_valid missing_state db top ≡ some height)
      × (height ≤ top)
      × (is_valid (get_block_state missing_state db height true) ≡ true)
      × ((h : ℕ)
          → height < h
          → h ≤ top
          → is_valid (get_block_state missing_state db h true) ≡ false)
unfolding top_valid
top_valid_lem is_valid missing_state db zero genesis =
    (0, rw genesis refl, omega arith, genesis, λ h a b. absurd (omega arith))
top_valid_lem is_valid missing_state db (suc top) genesis =
    elim (Bool-cases (is_valid (get_block_state missing_state db (suc top) true))) [
      | inl valid ↦ (suc top, rw valid refl, omega arith, valid, λ h a b. absurd (omega arith))
      | inr not_valid ↦
          let (height, e, low, v, rest) = top_valid_lem is_valid missing_state db top genesis in
          (
            height,
            rw not_valid e,
            omega arith,
            v,
            λ h a b. elim (Bool-cases (h == suc top)) [
              | inl last ↦ let e : h ≡ suc top = ground arith in rw e not_valid
              | inr lower ↦ rest h a (ground arith)
            ],
          )
    ]
