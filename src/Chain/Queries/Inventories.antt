-- ===== src/Chain/Queries/Inventories.antt =====
-- block_chain.cpp: filter_blocks, filter_transactions, fetch_template and fetch_mempool, and the
-- queries that are not implemented.
use libbitcoin_blockchain.Prelude.{
  ℕ, ◌≡◌, refl, Bool, true, false, not, ◌&&◌, Option, none, some, List, [], ◌∷◌, arith,
  if◌then◌else◌,
}
use libbitcoin_blockchain.System.{Inventory, not_implemented, max_size_t}
use libbitcoin_blockchain.Chain.Database.{Database}
use libbitcoin_blockchain.Chain.Queries.{Store, Reply, answer, refuse, ◌>>◌, running}
use libbitcoin_blockchain.Pools.HeaderPool
use libbitcoin_blockchain.Pools.HeaderPool.{HeaderPool, exists_hash}

abbrev pub is_some {ℓ} : {A : Type ℓ} → Option A → Bool
is_some none = false
is_some (some a) = true

-- The loop of filter_blocks: an inventory stays if it is of a block that the store does not have.
unfoldable pub missing_blocks : Database → List Inventory → List Inventory
missing_blocks db [] = []
missing_blocks db (i ∷ rest) =
    let others = missing_blocks db rest in
    if i.is_block_type && not (is_some (db.by_hash i.hash)) then i ∷ others else others

unfoldable pub filter_blocks : Store → Bool → HeaderPool → List Inventory → Reply (List Inventory)
unfolding missing_blocks HeaderPool.filter
filter_blocks store stopped pool inventories = do
  running stopped
  answer (missing_blocks store.database (HeaderPool.filter pool inventories))

-- The loop of filter_transactions; `is_transaction_type` is that of the inventory.
unfoldable pub missing_transactions : (Inventory → Bool) → Store → List Inventory → List Inventory
missing_transactions is_transaction_type store [] = []
missing_transactions is_transaction_type store (i ∷ rest) =
    let others = missing_transactions is_transaction_type store rest in
    if is_transaction_type i && not (is_some (store.tx_by_hash i.hash)) then i ∷ others else others

-- transaction_pool::filter, which is not implemented
unfoldable pub filter_pool : List Inventory → List Inventory
filter_pool inventories = inventories

unfoldable pub filter_transactions :
    (Inventory → Bool) → Store → Bool → List Inventory → Reply (List Inventory)
unfolding filter_pool missing_transactions
filter_transactions is_transaction_type store stopped inventories = do
  running stopped
  answer (missing_transactions is_transaction_type store (filter_pool inventories))

-- fetch_template and fetch_mempool of the transaction pool: an empty block at the height `max_size_t`
-- and an empty inventory. Neither reads the stopped flag.
unfoldable pub fetch_template : Reply (List ℕ × ℕ)
fetch_template = answer ([], max_size_t)

unfoldable pub fetch_mempool : ℕ → ℕ → Reply (List Inventory)
fetch_mempool count_limit minimum_fee = answer []

-- fetch_compact_block, by height or by hash
unfoldable pub fetch_compact_block {ℓ} : {A : Type ℓ} → ℕ → Reply A
fetch_compact_block key = refuse not_implemented

-- fetch_spend and fetch_stealth
unfoldable pub fetch_unimplemented {ℓ} : {A : Type ℓ} → Bool → Reply A
fetch_unimplemented stopped = do running stopped; refuse not_implemented

abbrev pub keep : (Inventory → Bool) → List Inventory → List Inventory
keep test [] = []
keep test (i ∷ rest) = if test i then i ∷ keep test rest else keep test rest

filter-keep :
    (db : Database) (pool : HeaderPool) (is : List Inventory)
    → missing_blocks db (HeaderPool.filter pool is)
      ≡ keep
          (λ i.
            i.is_block_type && not (exists_hash pool i.hash) && not (is_some (db.by_hash i.hash)))
          is
unfolding missing_blocks HeaderPool.filter
filter-keep db pool [] = refl
filter-keep db pool (i ∷ is) = ground (arith, filter-keep db pool is)

transactions-keep :
    (is_transaction_type : Inventory → Bool) (store : Store) (is : List Inventory)
    → missing_transactions is_transaction_type store is
      ≡ keep (λ i. is_transaction_type i && not (is_some (store.tx_by_hash i.hash))) is
unfolding missing_transactions
transactions-keep t store [] = refl
transactions-keep t store (i ∷ is) = ground (arith, transactions-keep t store is)

-- A filtered message keeps, in order, exactly the inventories of blocks that neither the header pool
-- nor the store knows, or of transactions that the store does not know; an inventory of any other
-- type is dropped by both.
pub filters_lem :
    (is_transaction_type : Inventory → Bool) (store : Store) (pool : HeaderPool)
    (is : List Inventory)
    → (filter_blocks store false pool is
        ≡ answer (
            keep
              (λ i.
                i.is_block_type
                && not (exists_hash pool i.hash)
                && not (is_some (store.database.by_hash i.hash)))
              is))
      × (filter_transactions is_transaction_type store false is
          ≡ answer
              (keep (λ i. is_transaction_type i && not (is_some (store.tx_by_hash i.hash))) is))
unfolding filter_blocks filter_transactions
filters_lem t store pool is =
    (rw (filter-keep store.database pool is) refl, rw (transactions-keep t store is) refl)
