-- ===== src/Chain/Reader.antt =====
-- block_chain.cpp, the readers of the fast chain. A reader with out parameters returns them in
-- `some`, and `none` where the source returns false.
use libbitcoin_blockchain.Prelude.{
  ℕ, zero, suc, ◌≡◌, Bool, true, false, not, ◌&&◌, ◌||◌, Option, none, some, List, arith, ltb, ◌==◌,
  if◌then◌else◌, work_add,
}
use libbitcoin_blockchain.System.{Header, Code}
use libbitcoin_blockchain.Chain.Database.{BlockResult, Database}

infixl 5 ◌>>=◌
abbrev pub ◌>>=◌ {ℓ κ} : {A : Type ℓ} {B : Type κ} → Option A → (A → Option B) → Option B
none >>= f = none
some a >>= f = f a

abbrev when {ℓ} : {A : Type ℓ} → Bool → Option A → Option A
when true o = o
when false o = none

abbrev unless {ℓ} : {A : Type ℓ} → Bool → Option A → Option A
unless true o = none
unless false o = o

-- What the source takes from elsewhere: the state predicates of the database, the type number of
-- the neutrino filter, and the setting that enables these filters.
pub record Params : Type 0 where
  pub is_valid : ℕ → Bool
  pub is_failed : ℕ → Bool
  pub neutrino_filter_type : ℕ
  pub bip158 : Bool

unfoldable pub get_top_height : Database → Bool → Option ℕ
get_top_height db candidate = db.top candidate

unfoldable pub get_header : Database → ℕ → Bool → Option Header
get_header db height candidate = do result ← db.at_height height candidate; some result.header

unfoldable pub get_block_hash : Database → ℕ → Bool → Option ℕ
get_block_hash db height candidate = do
  result ← db.at_height height candidate
  some result.header.hash

-- get_top, for the header and height of the top
unfoldable pub get_top : Database → Bool → Option (Header × ℕ)
unfolding get_top_height get_header
get_top db candidate = do
  height ← get_top_height db candidate
  header ← get_header db height candidate
  some (header, height)

-- get_top, for the checkpoint { hash, height } of the top
unfoldable pub get_top_checkpoint : Database → Bool → Option (ℕ × ℕ)
unfolding get_top_height get_block_hash
get_top_checkpoint db candidate = do
  height ← get_top_height db candidate
  hash ← get_block_hash db height candidate
  some (hash, height)

-- get_header, by hash: the header and its height, if the height is indexed
unfoldable pub get_header_by_hash : Database → ℕ → Bool → Option (Header × ℕ)
get_header_by_hash db hash candidate = do
  result ← db.by_hash hash
  indexed ← db.at_height result.height candidate
  some (result.header, result.height)

unfoldable pub get_block_error : Database → ℕ → Option Code
get_block_error db hash = do result ← db.by_hash hash; some result.error

unfoldable pub get_bits : Database → ℕ → Bool → Option ℕ
get_bits db height candidate = do result ← db.at_height height candidate; some result.header.bits

unfoldable pub get_timestamp : Database → ℕ → Bool → Option ℕ
get_timestamp db height candidate = do
  result ← db.at_height height candidate
  some result.header.timestamp

unfoldable pub get_version : Database → ℕ → Bool → Option ℕ
get_version db height candidate = do
  result ← db.at_height height candidate
  some result.header.version

-- The loop of get_work from `height` down, with the work so far; `proof` is header::proof.
unfoldable pub work_above : (ℕ → ℕ) → Database → ℕ → ℕ → Bool → ℕ → ℕ → Option ℕ
work_above proof db overcome above candidate zero out_work = some out_work
work_above proof db overcome above candidate (suc height) out_work =
    elim (ltb above (suc height) && (overcome == 0 || ltb out_work overcome)) [
      | false ↦ some out_work
      | true ↦ elim (db.at_height (suc height) candidate) [
        | none ↦ none
        | some result ↦
            work_above proof db overcome above candidate height
              (work_add out_work (proof result.header.bits))
      ]
    ]

unfoldable pub get_work : (ℕ → ℕ) → Database → ℕ → ℕ → Bool → Option ℕ
unfolding work_above
get_work proof db overcome above candidate = do
  top ← db.top candidate
  work_above proof db overcome above candidate top 0

module _ (env : Params) where
  -- get_neutrino_filter and get_neutrino_filter_header, by height: with the hash of the block
  unfoldable pub get_neutrino_filter : Database → ℕ → Bool → Option (List ℕ × ℕ)
  get_neutrino_filter db height candidate = when env.bip158 do
    result ← db.at_height height candidate
    filter ← db.filter result.neutrino_filter
    some (filter.filter, result.header.hash)

  unfoldable pub get_neutrino_filter_header : Database → ℕ → Bool → Option (ℕ × ℕ)
  get_neutrino_filter_header db height candidate = when env.bip158 do
    result ← db.at_height height candidate
    filter ← db.filter result.neutrino_filter
    some (filter.header, result.header.hash)

  -- The same by hash: with the height of the block, if that height is indexed
  unfoldable pub get_neutrino_filter_by_hash : Database → ℕ → Bool → Option (List ℕ × ℕ)
  get_neutrino_filter_by_hash db hash candidate = when env.bip158 do
    result ← db.by_hash hash
    indexed ← db.at_height result.height candidate
    filter ← db.filter result.neutrino_filter
    some (filter.filter, result.height)

  unfoldable pub get_neutrino_filter_header_by_hash : Database → ℕ → Bool → Option (ℕ × ℕ)
  get_neutrino_filter_header_by_hash db hash candidate = when env.bip158 do
    result ← db.by_hash hash
    indexed ← db.at_height result.height candidate
    filter ← db.filter result.neutrino_filter
    some (filter.header, result.height)

  unfoldable pub get_compact_filter : Database → ℕ → ℕ → Bool → Option (List ℕ × ℕ)
  unfolding get_neutrino_filter
  get_compact_filter db height filter_type candidate =
      when (filter_type == env.neutrino_filter_type) (get_neutrino_filter db height candidate)

  unfoldable pub get_compact_filter_by_hash : Database → ℕ → ℕ → Bool → Option (List ℕ × ℕ)
  unfolding get_neutrino_filter_by_hash
  get_compact_filter_by_hash db hash filter_type candidate =
      when (filter_type == env.neutrino_filter_type) (get_neutrino_filter_by_hash db hash candidate)

  unfoldable pub get_compact_filter_header : Database → ℕ → ℕ → Bool → Option (ℕ × ℕ)
  unfolding get_neutrino_filter_header
  get_compact_filter_header db height filter_type candidate =
      when (filter_type == env.neutrino_filter_type)
        (get_neutrino_filter_header db height candidate)

  unfoldable pub get_compact_filter_header_by_hash : Database → ℕ → ℕ → Bool → Option (ℕ × ℕ)
  unfolding get_neutrino_filter_header_by_hash
  get_compact_filter_header_by_hash db hash filter_type candidate =
      when (filter_type == env.neutrino_filter_type)
        (get_neutrino_filter_header_by_hash db hash candidate)

  unfoldable pub get_downloadable : Database → ℕ → Option ℕ
  get_downloadable db height = do
    result ← db.at_height height true
    unless (env.is_failed result.state || not (result.transaction_count == 0))
        (some result.header.hash)

  unfoldable pub get_validatable : Database → ℕ → Option ℕ
  get_validatable db height = do
    result ← db.at_height height true
    unless
        (env.is_valid result.state || env.is_failed result.state || result.transaction_count == 0)
        (some result.header.hash)

  -- No height is both to be downloaded and to be validated; a candidate that has failed is
  -- neither, and one that has not and is not yet valid is exactly one of the two.
  pub downloadable_validatable :
      (db : Database) (height : ℕ) (result : BlockResult)
      → db.at_height height true ≡ some result
      → env.is_valid result.state ≡ false
      → (get_downloadable db height ≡ (
          if env.is_failed result.state
          then none
          else if result.transaction_count == 0
          then some result.header.hash
          else none))
        × (get_validatable db height ≡ (
            if env.is_failed result.state
            then none
            else if result.transaction_count == 0
            then none
            else some result.header.hash))
  unfolding get_downloadable get_validatable
  downloadable_validatable db height result e v = rw (e, v) (ground arith, ground arith)
