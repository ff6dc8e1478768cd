-- ===== src/Chain/Queries.antt =====
-- block_chain.cpp, the queries of the safe chain: what they read of the store, and how they reply.
-- A query calls its handler with a code and a result, which is empty unless the code is success:
-- that is a reply. The stopped flag is read once by each query and is an argument.
pub mod Blocks
pub mod Locators
pub mod Filters
pub mod Transactions
pub mod Inventories
use libbitcoin_blockchain.Prelude.{ℕ, Bool, true, false, Option, none, some, List, ◌≡◌, refl}
use libbitcoin_blockchain.System.{Code, service_stopped, not_found}
use libbitcoin_blockchain.Chain.Database.{BlockResult, Database}

-- A transaction result, where it is found; `payload` is the transaction that is deserialized with
-- or without its witness, as a number, and `is_unconfirmed` that its position is `unconfirmed`.
pub record TxResult : Type 0 where
  pub hash : ℕ
  pub height : ℕ
  pub position : ℕ
  pub is_unconfirmed : Bool
  pub payload : Bool → ℕ

-- A payment record: the link of its transaction, and the rest of it as a number.
pub record Payment : Type 0 where
  pub link : ℕ
  pub detail : ℕ

-- The database with its transactions, payments and filter checkpoints. `offsets` is the iteration
-- over a block result, and `linked` the transaction of a payment's link.
pub record Store : Type 0 where
  pub database : Database
  pub offsets : BlockResult → List ℕ
  pub tx_at : ℕ → Option TxResult
  pub tx_by_hash : ℕ → Option TxResult
  pub payments : ℕ → List Payment
  pub linked : ℕ → TxResult
  pub checkpoints : List ℕ

pub data Reply {ℓ} (A : Type ℓ) : Type ℓ where
  answer : A → Reply A
  refuse : Code → Reply A

infixl 5 ◌>>=◌ ◌>>◌
abbrev pub ◌>>=◌ {ℓ κ} : {A : Type ℓ} {B : Type κ} → Reply A → (A → Reply B) → Reply B
answer a >>= f = f a
refuse ec >>= f = refuse ec

abbrev pub ◌>>◌ {ℓ} : {B : Type ℓ} → Reply (Unit {0}) → Reply B → Reply B
m >> k = m >>= λ _. k

-- `if (stopped()) { handler(error::service_stopped, ...); return; }`
abbrev pub running : Bool → Reply (Unit {0})
running true = refuse service_stopped
running false = answer tt

-- `if (!result) { handler(ec, ...); return; }`
abbrev pub or_refuse {ℓ} : {A : Type ℓ} → Code → Option A → Reply A
or_refuse ec none = refuse ec
or_refuse ec (some a) = answer a

abbrev pub require {ℓ} : {A : Type ℓ} → Option A → Reply A
require o = or_refuse not_found o

-- `if (!test) { handler(ec, ...); return; }`
abbrev pub check_that : Bool → Code → Reply (Unit {0})
check_that true ec = answer tt
check_that false ec = refuse ec

abbrev pub map_reply {ℓ κ} : {A : Type ℓ} {B : Type κ} → (A → B) → Reply A → Reply B
map_reply f (answer a) = answer (f a)
map_reply f (refuse ec) = refuse ec
