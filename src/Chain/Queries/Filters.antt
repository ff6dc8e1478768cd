-- ===== src/Chain/Queries/Filters.antt =====
-- block_chain.cpp: the queries of compact filters, of their headers and of their checkpoints.
-- Heights of the filter header queries are uint32_t, and a height that comes from a block is
-- truncated to it.
pub mod Headers
use libbitcoin_blockchain.Prelude.{
  ℕ, zero, suc, ◌+◌, ◌-◌, ◌/◌, ◌%◌, ◌^◌, ◌<◌, ◌≤◌, ◌≡◌, refl, ◌∙◌, sym, ap, Bool, true, false, not,
  Option, none, some, List, [], ◌∷◌, ◌++◌, reverse, arith, ltb, leb, ◌==◌, if◌then◌else◌, length,
  size_sub, Option-cases, Bool-cases, inl, inr,
}
use libbitcoin_blockchain.System.{
  Code, null_hash, configuration_disabled, unrecognized_filter_type, invalid_response_range,
  not_found,
}
use libbitcoin_blockchain.Chain.Database.{BlockResult, FilterResult, Database}
use libbitcoin_blockchain.Chain.Reader.{Params}
use libbitcoin_blockchain.Chain.Queries.{
  Store, Reply, answer, refuse, ◌>>=◌, ◌>>◌, running, or_refuse, require, check_that, map_reply,
}

-- message::compact_filter, compact_filter_headers and compact_filter_checkpoint
pub record CompactFilter : Type 0 where
  pub filter_type : ℕ
  pub block_hash : ℕ
  pub filter : List ℕ

pub record CompactFilterHeaders : Type 0 where
  pub filter_type : ℕ
  pub stop_hash : ℕ
  pub previous_filter_header : ℕ
  pub filter_hashes : List ℕ

pub record CompactFilterCheckpoint : Type 0 where
  pub filter_type : ℕ
  pub stop_hash : ℕ
  pub filter_headers : List ℕ

-- max_get_compact_filter_headers and compact_filter_checkpoint_interval of bc::system
pub record FilterLimits : Type 0 where
  pub max_headers : ℕ
  pub interval : ℕ

abbrev pub uint32_mod : ℕ
uint32_mod = 2 ^ 32

-- The filter header of a block result, and of a confirmed height.
unfoldable pub header_of : Database → BlockResult → Reply ℕ
header_of db result = do filter ← require (db.filter result.neutrino_filter); answer filter.header

unfoldable pub header_at : Database → ℕ → Reply ℕ
unfolding header_of
header_at db height = do result ← require (db.at_height height false); header_of db result

-- The loop over i, from the stop height down: `count` headers, the one at `height` first.
unfoldable pub headers_below : Database → ℕ → ℕ → Reply (List ℕ)
headers_below db zero height = answer []
headers_below db (suc count) height =
    let rest = headers_below db count (size_sub height 1) in
    elim (header_at db (size_sub height 1)) [
      | refuse ec ↦ refuse ec
      | answer header ↦ elim rest [
        | refuse ec ↦ refuse ec
        | answer headers ↦ answer (header ∷ headers)
      ]
    ]

-- `if (start_height > 0)`, the header before the first.
unfoldable pub header_before : Database → ℕ → Reply ℕ
header_before db start_height =
    if start_height == 0 then answer null_hash else header_at db (start_height - 1)

module _ (env : Params) (limits : FilterLimits) where
  -- the dispatch on the filter type
  abbrev of_type {ℓ} : {A : Type ℓ} → Bool → ℕ → Reply A → Reply A
  of_type stopped filter_type query = do
    running stopped
    check_that (filter_type == env.neutrino_filter_type) unrecognized_filter_type
    query

  unfoldable pub fetch_neutrino_filter_at : Store → Bool → ℕ → Reply (CompactFilter × ℕ)
  fetch_neutrino_filter_at store stopped height = do
    running stopped
    check_that env.bip158 configuration_disabled
    result ← require (store.database.at_height height false)
    filter ← require (store.database.filter result.neutrino_filter)
    answer (
      record {
        filter_type = env.neutrino_filter_type;
        block_hash = result.header.hash;
        filter = filter.filter;
      },
      result.height,
    )

  unfoldable pub fetch_compact_filter_at : Store → Bool → ℕ → ℕ → Reply (CompactFilter × ℕ)
  unfolding fetch_neutrino_filter_at
  fetch_compact_filter_at store stopped filter_type height =
      of_type stopped filter_type (fetch_neutrino_filter_at store stopped height)

  unfoldable pub fetch_neutrino_filter : Store → Bool → ℕ → Reply (CompactFilter × ℕ)
  fetch_neutrino_filter store stopped hash = do
    running stopped
    check_that env.bip158 configuration_disabled
    result ← require (store.database.by_hash hash)
    filter ← require (store.database.filter result.neutrino_filter)
    answer (
      record {
        filter_type = env.neutrino_filter_type;
        block_hash = result.header.hash;
        filter = filter.filter;
      },
      result.height,
    )

  unfoldable pub fetch_compact_filter : Store → Bool → ℕ → ℕ → Reply (CompactFilter × ℕ)
  unfolding fetch_neutrino_filter
  fetch_compact_filter store stopped filter_type hash =
      of_type stopped filter_type (fetch_neutrino_filter store stopped hash)

  -- fetch_neutrino_filter_headers, the private one that both others call
  unfoldable pub filter_headers : Database → ℕ → ℕ → ℕ → ℕ → Reply CompactFilterHeaders
  filter_headers db start_height stop_hash stop_height stop_filter_header = do
    previous ← header_before db start_height
    let count = (stop_height + uint32_mod - start_height) % uint32_mod
    check_that (ltb count limits.max_headers) invalid_response_range
    headers ← headers_below db count stop_height
    answer (record {
      filter_type = env.neutrino_filter_type;
      stop_hash = stop_hash;
      previous_filter_header = previous;
      filter_hashes = reverse (stop_filter_header ∷ headers);
    })

  -- The height and the filter header of the stop block; a null hash is height 0 with a null header.
  abbrev pub stop_block : Database → ℕ → Reply (ℕ × ℕ)
  stop_block db stop_hash = if stop_hash == null_hash then answer (0, null_hash) else do
    result ← require (db.by_hash stop_hash)
    header ← header_of db result
    answer (result.height, header)

  -- by stop hash
  unfoldable pub fetch_neutrino_filter_headers : Store → Bool → ℕ → ℕ → Reply CompactFilterHeaders
  fetch_neutrino_filter_headers store stopped start_height stop_hash = do
    running stopped
    (stop_height, stop_header) ← stop_block store.database stop_hash
    check_that (leb start_height stop_height) invalid_response_range
    filter_headers store.database start_height stop_hash (stop_height % uint32_mod) stop_header

  unfoldable pub fetch_compact_filter_headers :
      Store → Bool → ℕ → ℕ → ℕ → Reply CompactFilterHeaders
  unfolding fetch_neutrino_filter_headers
  fetch_compact_filter_headers store stopped filter_type start_height stop_hash =
      of_type stopped filter_type
        (fetch_neutrino_filter_headers store stopped start_height stop_hash)

  -- by stop height
  unfoldable pub fetch_neutrino_filter_headers_at :
      Store → Bool → ℕ → ℕ → Reply CompactFilterHeaders
  fetch_neutrino_filter_headers_at store stopped start_height stop_height = do
    running stopped
    check_that (leb start_height stop_height) invalid_response_range
    result ← require (store.database.at_height stop_height false)
    header ← header_of store.database result
    filter_headers store.database start_height result.header.hash stop_height header

  unfoldable pub fetch_compact_filter_headers_at :
      Store → Bool → ℕ → ℕ → ℕ → Reply CompactFilterHeaders
  unfolding fetch_neutrino_filter_headers_at
  fetch_compact_filter_headers_at store stopped filter_type start_height stop_height =
      of_type stopped filter_type
        (fetch_neutrino_filter_headers_at store stopped start_height stop_height)

  -- headers.resize(size), which appends null hashes
  unfoldable pub resize : ℕ → List ℕ → List ℕ
  resize zero xs = []
  resize (suc n) [] = null_hash ∷ resize n []
  resize (suc n) (x ∷ xs) = x ∷ resize n xs

  unfoldable pub fetch_neutrino_filter_checkpoint : Store → Bool → ℕ → Reply CompactFilterCheckpoint
  unfolding resize
  fetch_neutrino_filter_checkpoint store stopped stop_hash = do
    running stopped
    (stop_height, stop_header) ← stop_block store.database stop_hash
    answer (record {
      filter_type = env.neutrino_filter_type;
      stop_hash = stop_hash;
      filter_headers = resize (stop_height / limits.interval) store.checkpoints;
    })

  unfoldable pub fetch_compact_filter_checkpoint :
      Store → Bool → ℕ → ℕ → Reply CompactFilterCheckpoint
  unfolding fetch_neutrino_filter_checkpoint
  fetch_compact_filter_checkpoint store stopped filter_type stop_hash =
      of_type stopped filter_type (fetch_neutrino_filter_checkpoint store stopped stop_hash)
