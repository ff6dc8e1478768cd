-- ===== src/Chain/Queries/Blocks.antt =====
-- block_chain.cpp: fetch_block, fetch_block_header, fetch_merkle_block, fetch_block_height and
-- fetch_last_height.
use libbitcoin_blockchain.Prelude.{
  ℕ, ◌≡◌, refl, Bool, false, Option, none, some, List, [], ◌∷◌, ◌==◌, if◌then◌else◌, length, map,
}
use libbitcoin_blockchain.System.{Header, operation_failed}
use libbitcoin_blockchain.Chain.Database.{BlockResult}
use libbitcoin_blockchain.Chain.Queries.{
  TxResult, Store, Reply, answer, ◌>>=◌, ◌>>◌, running, or_refuse, require,
}

-- message::block and message::merkle_block
pub record BlockMessage : Type 0 where
  pub header : Header
  pub transactions : List ℕ

pub record MerkleBlock : Type 0 where
  pub header : Header
  pub count : ℕ
  pub hashes : List ℕ

-- last_confirmed_block_: the block, its hash and the height of its state, if it has one.
pub record CachedBlock : Type 0 where
  pub message : BlockMessage
  pub state_height : Option ℕ

-- The loop over the offsets, up to the first that is missing.
unfoldable pub results_at : Store → List ℕ → Option (List TxResult)
results_at store [] = some []
results_at store (offset ∷ rest) = elim (store.tx_at offset) [
  | none ↦ none
  | some tx ↦ elim (results_at store rest) [ none ↦ none | some txs ↦ some (tx ∷ txs) ]
]

abbrev on_results {ℓ} : {A : Type ℓ} → (TxResult → A) → Option (List TxResult) → Option (List A)
on_results f none = none
on_results f (some txs) = some (map f txs)

unfoldable pub get_transactions : Store → BlockResult → Bool → Option (List ℕ)
unfolding results_at
get_transactions store result witness =
    on_results (λ tx. tx.payload witness) (results_at store (store.offsets result))

unfoldable pub get_transaction_hashes : Store → BlockResult → Option (List ℕ)
unfolding results_at
get_transaction_hashes store result =
    on_results (λ tx. tx.hash) (results_at store (store.offsets result))

-- What the cache answers, if its block has a state and passes the test.
abbrev pub cache_hit : (CachedBlock → ℕ → Bool) → Option CachedBlock → Option (BlockMessage × ℕ)
cache_hit test none = none
cache_hit test (some cached) = elim cached.state_height [
  | none ↦ none
  | some height ↦ if test cached height then some (cached.message, height) else none
]

abbrev pub or_else {ℓ} : {A : Type ℓ} → Option A → Reply A → Reply A
or_else none r = r
or_else (some a) r = answer a

unfoldable pub fetch_block_at :
    Store → Bool → Option CachedBlock → ℕ → Bool → Reply (BlockMessage × ℕ)
unfolding get_transactions
fetch_block_at store stopped cached height witness = do
  running stopped
  or_else (cache_hit (λ b at. at == height) cached) do
    result ← require (store.database.at_height height false)
    txs ← or_refuse operation_failed (get_transactions store result witness)
    answer (record { header = result.header; transactions = txs }, height)

unfoldable pub fetch_block : Store → Bool → Option CachedBlock → ℕ → Bool → Reply (BlockMessage × ℕ)
unfolding get_transactions
fetch_block store stopped cached hash witness = do
  running stopped
  or_else (cache_hit (λ b at. b.message.header.hash == hash) cached) do
    result ← require (store.database.by_hash hash)
    txs ← or_refuse operation_failed (get_transactions store result witness)
    answer (record { header = result.header; transactions = txs }, result.height)

unfoldable pub fetch_block_header_at : Store → Bool → ℕ → Reply (Header × ℕ)
fetch_block_header_at store stopped height = do
  running stopped
  result ← require (store.database.at_height height false)
  answer (result.header, height)

unfoldable pub fetch_block_header : Store → Bool → ℕ → Reply (Header × ℕ)
fetch_block_header store stopped hash = do
  running stopped
  result ← require (store.database.by_hash hash)
  answer (result.header, result.height)

abbrev merkle_of : Header → List ℕ → MerkleBlock
merkle_of header hashes = record { header = header; count = length hashes; hashes = hashes }

unfoldable pub fetch_merkle_block_at : Store → Bool → ℕ → Reply (MerkleBlock × ℕ)
unfolding get_transaction_hashes
fetch_merkle_block_at store stopped height = do
  running stopped
  result ← require (store.database.at_height height false)
  hashes ← require (get_transaction_hashes store result)
  answer (merkle_of result.header hashes, height)

unfoldable pub fetch_merkle_block : Store → Bool → ℕ → Reply (MerkleBlock × ℕ)
unfolding get_transaction_hashes
fetch_merkle_block store stopped hash = do
  running stopped
  result ← require (store.database.by_hash hash)
  hashes ← require (get_transaction_hashes store result)
  answer (merkle_of result.header hashes, result.height)

unfoldable pub fetch_block_height : Store → Bool → ℕ → Reply ℕ
fetch_block_height store stopped hash = do
  running stopped
  result ← require (store.database.by_hash hash)
  answer result.height

unfoldable pub fetch_last_height : Store → Bool → Reply ℕ
fetch_last_height store stopped = do running stopped; require (store.database.top false)

-- The height index and the hash index agree on the confirmed block of this hash.
pub record IsConfirmed (store : Store) (hash : ℕ) (result : BlockResult) : Type 0 where
  pub by_hash : store.database.by_hash hash ≡ some result
  pub by_height : store.database.at_height result.height false ≡ some result

-- For a confirmed block, each query by hash gives the same as the query by the height that
-- fetch_block_height gives: the block, its header and its merkle block, errors included. The cache
-- does not change this, if a cached block of this height is the block of this hash and conversely.
pub fetch_by_height :
    (store : Store) (cached : Option CachedBlock) (hash : ℕ) (result : BlockResult) (witness : Bool)
    → IsConfirmed store hash result
    → cache_hit (λ b at. b.message.header.hash == hash) cached
      ≡ cache_hit (λ b at. at == result.height) cached
    → (fetch_block_height store false hash ≡ answer result.height)
      × (fetch_block store false cached hash witness
          ≡ fetch_block_at store false cached result.height witness)
      × (fetch_block_header store false hash ≡ fetch_block_header_at store false result.height)
      × (fetch_merkle_block store false hash ≡ fetch_merkle_block_at store false result.height)
unfolding fetch_block_height fetch_block fetch_block_at fetch_block_header fetch_block_header_at
    fetch_merkle_block fetch_merkle_block_at
fetch_by_height store cached hash result witness c same =
    rw (c.by_hash, c.by_height, same) (refl, refl, refl, refl)
