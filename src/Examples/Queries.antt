-- ===== src/Examples/Queries.antt =====
-- The queries of the safe chain on a store of four confirmed blocks with their filter headers.
use libbitcoin_blockchain.Prelude.{
  ℕ, ◌+◌, ◌-◌, ◌≡◌, ◌⊎◌, refl, Bool, true, false, not, ◌&&◌, some, none, List, [], ◌∷◌, map, arith,
  leb, ◌==◌, if◌then◌else◌,
}
use libbitcoin_blockchain.System.{Inventory, success, not_found, checked_math}
use libbitcoin_blockchain.Chain.Database.{BlockResult, Database}
use libbitcoin_blockchain.Chain.Reader.{Params}
use libbitcoin_blockchain.Chain.Queries.{TxResult, Store, answer, refuse}
use libbitcoin_blockchain.Chain.Queries.Blocks.{
  fetch_block_height, fetch_block, fetch_block_at, fetch_block_header, fetch_block_header_at,
  fetch_merkle_block, fetch_merkle_block_at, fetch_by_height,
}
use libbitcoin_blockchain.Chain.Queries.Locators.{Locator, fetch_locator_block_headers}
use libbitcoin_blockchain.Chain.Queries.Locators.Headers.{
  IsMissing, candidate_hashes, fetch_header_locator, fetch_header_locator_lem,
}
use libbitcoin_blockchain.Chain.Queries.Filters.{
  FilterLimits, fetch_neutrino_filter_headers_at, fetch_neutrino_filter_headers, header_before,
  header_at,
}
use libbitcoin_blockchain.Chain.Queries.Filters.Headers.{
  headers_from, message_of, fetch_filter_headers_lem,
}
use libbitcoin_blockchain.Chain.Queries.Transactions.{
  CachedTx, fetch_transaction, fetch_transaction_position, positions, fetch_transaction_lem,
  fetch_history, fetch_history_lem, record_of, is_wanted, keep, take,
}
use libbitcoin_blockchain.Chain.Queries.Inventories
use libbitcoin_blockchain.Chain.Queries.Inventories.{
  filter_blocks, filter_transactions, filters_lem, is_some,
}
use libbitcoin_blockchain.Pools.HeaderPool.{exists_hash}
use libbitcoin_blockchain.Examples.Data.{header_of, sapling}

-- The block with the hash 10 + h at each height h up to 3, with 100 + h for its filter.
abbrev block_at : ℕ → BlockResult
block_at height = record {
  header = header_of (10 + height) (9 + height);
  height = height;
  state = 0;
  error = success;
  transaction_count = 1;
  neutrino_filter = 100 + height;
}

abbrev blocks : Database
blocks = record {
  top = λ candidate. some 3;
  at_height = λ height candidate. if leb height 3 then some (block_at height) else none;
  by_hash = λ hash. if leb 10 hash && leb hash 13 then some (block_at (hash - 10)) else none;
  filter = λ link. some (record { filter = []; header = link });
}

abbrev tx_of : ℕ → ℕ → Bool → TxResult
tx_of hash height unconfirmed = record {
  hash = hash;
  height = height;
  position = 0;
  is_unconfirmed = unconfirmed;
  payload = λ witness. if witness then hash + 1 else hash;
}

abbrev store : Store
store = record {
  database = blocks;
  offsets = λ r. r.height ∷ [];
  tx_at = λ offset. some (tx_of offset offset false);
  tx_by_hash = λ hash. if leb hash 3 then some (tx_of hash hash (hash == 3)) else none;
  payments = λ key. record { link = 1; detail = key } ∷ record { link = 2; detail = key } ∷ [];
  linked = λ link. tx_of link link false;
  checkpoints = [];
}

fetch_by_height_test :
    (fetch_block_height store false 12 ≡ answer 2)
    × (fetch_block store false none 12 true ≡ fetch_block_at store false none 2 true)
    × (fetch_block_header store false 12 ≡ fetch_block_header_at store false 2)
    × (fetch_merkle_block store false 12 ≡ fetch_merkle_block_at store false 2)
fetch_by_height_test =
    fetch_by_height store none 12 (block_at 2) true (record { by_hash = refl; by_height = refl })
      refl

-- From above the block 11 to below the block 13.
abbrev locator : Locator
locator = record { start_hashes = 20 ∷ 11 ∷ []; stop_hash = 13 }

fetch_locator_test :
    fetch_locator_block_headers checked_math blocks false locator 0 5
    ≡ some (answer (header_of 12 11 ∷ []))
unfolding fetch_locator_block_headers
fetch_locator_test = refl

fetch_header_locator_lem_example :
    ((hashes : List ℕ) × (candidate_hashes blocks (2 ∷ 5 ∷ 1 ∷ []) ≡ some hashes)
      × (fetch_header_locator blocks false (2 ∷ 5 ∷ 1 ∷ []) ≡ answer hashes ∷ []))
    ⊎ ((hashes : List ℕ) × IsMissing blocks (2 ∷ 5 ∷ 1 ∷ []) hashes
        × (fetch_header_locator blocks false (2 ∷ 5 ∷ 1 ∷ [])
            ≡ refuse not_found ∷ answer hashes ∷ []))
fetch_header_locator_lem_example = fetch_header_locator_lem blocks (2 ∷ 5 ∷ 1 ∷ [])

fetch_header_locator_test :
    fetch_header_locator blocks false (2 ∷ 5 ∷ 1 ∷ []) ≡ refuse not_found ∷ answer (12 ∷ []) ∷ []
unfolding fetch_header_locator
fetch_header_locator_test = refl

abbrev params : Params
params = record {
  is_valid = λ state. true;
  is_failed = λ state. false;
  neutrino_filter_type = 0;
  bip158 = true;
}

abbrev limits : FilterLimits
limits = record { max_headers = 10; interval = 2 }

-- The filter headers of the heights 1 to 3, after that of height 0.
fetch_filter_headers_lem_example :
    (fetch_neutrino_filter_headers_at params limits store false 1 3
      ≡ answer (message_of params 13 100 (101 ∷ 102 ∷ 103 ∷ [])))
    × (fetch_neutrino_filter_headers params limits store false 1 13
        ≡ answer (message_of params 13 100 (101 ∷ 102 ∷ 103 ∷ [])))
unfolding header_before header_at headers_from
fetch_filter_headers_lem_example =
    fetch_filter_headers_lem params limits store 1 3 (block_at 3) refl refl refl (λ e. omega arith)
      (omega arith) (omega arith) (omega arith)

abbrev cached : CachedTx
cached = record { hash = 3; payload = 3; state_height = some 7 }

fetch_transaction_lem_test :
    (fetch_transaction_position store false (some cached) 3 false
      ≡ positions (fetch_transaction store false (some cached) 3 false true))
    × (fetch_transaction store false (some cached) 3 true true
        ≡ fetch_transaction store false none 3 true true)
fetch_transaction_lem_test = fetch_transaction_lem store false (some cached) 3 false true

fetch_history_lem_example :
    fetch_history store 0 false 7 1 1
    ≡ answer (
        map (record_of store 0) (
          keep
            (is_wanted store 1)
            (if 1 == 0 then store.payments 7 else take 1 (store.payments 7))))
fetch_history_lem_example = fetch_history_lem store 0 7 1 1

abbrev inventories : List Inventory
inventories =
    record { is_block_type = true; hash = 11 }
    ∷ record { is_block_type = true; hash = 30 }
    ∷ record { is_block_type = false; hash = 2 }
    ∷ []

filters_lem_test :
    (filter_blocks store false sapling inventories
      ≡ answer (
          Inventories.keep
            (λ i.
              i.is_block_type
              && not (exists_hash sapling i.hash)
              && not (is_some (store.database.by_hash i.hash)))
            inventories))
    × (filter_transactions (λ i. not i.is_block_type) store false inventories
        ≡ answer (
            Inventories.keep
              (λ i. not i.is_block_type && not (is_some (store.tx_by_hash i.hash)))
              inventories))
filters_lem_test = filters_lem (λ i. not i.is_block_type) store sapling inventories
