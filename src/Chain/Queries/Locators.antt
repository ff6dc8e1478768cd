-- ===== src/Chain/Queries/Locators.antt =====
-- block_chain.cpp: fetch_locator_block_hashes and fetch_locator_block_headers. An exception of
-- safe_add is `none`.
pub mod Headers
use libbitcoin_blockchain.Prelude.{
  ℕ, zero, suc, ◌+◌, ◌-◌, ◌<◌, ◌≤◌, ◌≡◌, ◌≢◌, ◌⊎◌, Bool, true, false, Option, none, some, List, [],
  ◌∷◌, ◌++◌, ltb, leb, ◌==◌, if◌then◌else◌, length, get_elem?, map, min, size_add,
}
use libbitcoin_blockchain.System.{
  Header, Code, SafeMath, Inventory, success, service_stopped, not_found, null_hash,
}
use libbitcoin_blockchain.Chain.Database.{BlockResult, Database}
use libbitcoin_blockchain.Chain.Queries.{
  Reply, answer, refuse, ◌>>=◌, ◌>>◌, running, require, map_reply,
}

-- get_blocks and get_headers
pub record Locator : Type 0 where
  pub start_hashes : List ℕ
  pub stop_hash : ℕ

-- The height of the first start hash that is found, 0 if none is.
unfoldable pub start_height : Database → List ℕ → ℕ
start_height db [] = 0
start_height db (hash ∷ rest) =
    let others = start_height db rest in
    elim (db.by_hash hash) [ none ↦ others | some result ↦ result.height ]

-- The height of a hash that is not null and is found.
unfoldable pub limit_height : Database → ℕ → Option ℕ
limit_height db hash =
    if hash == null_hash
    then none
    else elim (db.by_hash hash) [ none ↦ none | some result ↦ some result.height ]

abbrev pub lowered : ℕ → Option ℕ → ℕ
lowered end none = end
lowered end (some height) = min height end

abbrev pub raised : ℕ → Option ℕ → ℕ
raised begin none = begin
raised begin (some height) = if ltb begin height then height else begin

-- The loop from `height` while it is below the end, `count` heights, up to the first missing block.
unfoldable pub confirmed_from : Database → ℕ → ℕ → List BlockResult
confirmed_from db zero height = []
confirmed_from db (suc count) height = elim (db.at_height height false) [
  | none ↦ []
  | some result ↦ result ∷ confirmed_from db count (height + 1)
]

module _ (math : SafeMath) where
  -- begin and end
  unfoldable pub locate : Database → Locator → ℕ → ℕ → Option (ℕ × ℕ)
  unfolding start_height limit_height
  locate db locator threshold limit =
      elim (math.safe_add (start_height db locator.start_hashes) 1) [
        | none ↦ none
        | some begin ↦ elim (math.safe_add begin limit) [
          | none ↦ none
          | some end ↦ some (
            raised begin (limit_height db threshold),
            lowered end (limit_height db locator.stop_hash),
          )
        ]
      ]

  abbrev on_range {ℓ} :
      {A : Type ℓ} → Database → (BlockResult → A) → Option (ℕ × ℕ) → Option (Reply (List A))
  on_range db f none = none
  on_range db f (some (begin, end)) = some (answer (map f (confirmed_from db (end - begin) begin)))

  unfoldable pub fetch_locator_block_hashes :
      Database → Bool → Locator → ℕ → ℕ → Option (Reply (List Inventory))
  unfolding locate confirmed_from
  fetch_locator_block_hashes db stopped locator threshold limit =
      if stopped
      then some (refuse service_stopped)
      else on_range db (λ r. record { is_block_type = true; hash = r.header.hash })
          (locate db locator threshold limit)

  unfoldable pub fetch_locator_block_headers :
      Database → Bool → Locator → ℕ → ℕ → Option (Reply (List Header))
  unfolding locate confirmed_from
  fetch_locator_block_headers db stopped locator threshold limit =
      if stopped
      then some (refuse service_stopped)
      else on_range db (λ r. r.header) (locate db locator threshold limit)

-- The results are the confirmed blocks of consecutive heights from `begin` on, `count` of them or up
-- to the first height that has none.
pub record IsRun (db : Database) (begin count : ℕ) (results : List BlockResult) : Type 0 where
  pub bounded : length results ≤ count
  pub confirmed :
      (i : ℕ)
      → i < length results
      → (r : BlockResult) × (get_elem? results i ≡ some r)
        × (db.at_height (begin + i) false ≡ some r)
  pub ended : (length results ≡ count) ⊎ (db.at_height (begin + length results) false ≡ none)

-- What the two locator queries give: the confirmed blocks of the heights from `begin` up to `end`,
-- without `end`. The begin is the higher of the threshold, if that is found, and the height after
-- the located one; the end is the lower of the stop block, if that is found, and the height that
-- lies `limit` after the one after the located one.
pub record IsLocated (db : Database) (locator : Locator) (threshold limit begin end : ℕ)
    (results : List BlockResult) : Type 0 where
  pub run : IsRun db begin (end - begin) results
  pub above_start : start_height db locator.start_hashes < begin
  pub above_threshold : (h : ℕ) → limit_height db threshold ≡ some h → h ≤ begin
  pub first :
      (begin ≡ start_height db locator.start_hashes + 1) ⊎ (limit_height db threshold ≡ some begin)
  pub limited : end ≤ start_height db locator.start_hashes + 1 + limit
  pub below_stop : (h : ℕ) → limit_height db locator.stop_hash ≡ some h → end ≤ h
  pub last :
      (end ≡ start_height db locator.start_hashes + 1 + limit)
      ⊎ (limit_height db locator.stop_hash ≡ some end)
