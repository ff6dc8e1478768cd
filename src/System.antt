-- ===== src/System.antt =====
-- What the modules take from libbitcoin-system and libbitcoin-database, whose code is not in the
-- repository: error codes, the values that the accessors of a header return, and integer helpers.
use libbitcoin_blockchain.Prelude.{
  ℕ, ◌+◌, ◌-◌, ◌≡◌, refl, Bool, true, false, Option, none, some, leb, ltb, size_mod, if◌then◌else◌,
}

-- The codes of bc::system::error that this library names; `store_code` stands for any other code
-- that a callee returns. A code is false in a condition exactly when it is `success`.
pub data Code : Type 0 where
  success service_stopped operation_failed not_found : Code
  duplicate_block duplicate_transaction orphan_block insufficient_work : Code
  insufficient_fee dusty_transaction missing_previous_output : Code
  checkpoints_failed block_embedded_sigop_limit : Code
  store_block_missing_parent invalid_previous_block metadata_prevout_missing : Code
  configuration_disabled unrecognized_filter_type : Code
  invalid_response_range not_implemented : Code
  store_code : ℕ → Code

-- `if (ec)`
abbrev pub is_error : Code → Bool
is_error success = false
is_error _ = true

-- What the accessors of `message::header` return. A `hash_digest` is the number that it encodes.
pub record Header : Type 0 where
  pub hash : ℕ
  pub previous_block_hash : ℕ
  pub bits : ℕ
  pub version : ℕ
  pub timestamp : ℕ

abbrev pub null_hash : ℕ
null_hash = 0

abbrev pub max_size_t : ℕ
max_size_t = size_mod - 1

-- safe_add and safe_subtract of bc::system on `size_t`: they throw where the result does not fit.
pub record SafeMath : Type 0 where
  pub safe_add : ℕ → ℕ → Option ℕ
  pub safe_subtract : ℕ → ℕ → Option ℕ
  pub add_fits : (a b : ℕ) → safe_add a b ≡ (if ltb (a + b) size_mod then some (a + b) else none)
  pub subtract_fits : (a b : ℕ) → safe_subtract a b ≡ (if leb b a then some (a - b) else none)

-- An implementation with the documented behaviour.
abbrev pub checked_math : SafeMath
checked_math = record {
  safe_add = λ a b. if ltb (a + b) size_mod then some (a + b) else none;
  safe_subtract = λ a b. if leb b a then some (a - b) else none;
  add_fits = λ a b. refl;
  subtract_fits = λ a b. refl;
}

-- A block: its header. What the pools and organizers read of it beyond that is in their modules.
pub record Block : Type 0 where
  pub header : Header

-- An inventory vector: whether its type is a block type, and its hash.
pub record Inventory : Type 0 where
  pub is_block_type : Bool
  pub hash : ℕ

-- What the accessors of a `chain_state` return.
pub record ChainState : Type 0 where
  pub hash : ℕ
  pub height : ℕ
  pub is_stale : Bool
  pub is_under_checkpoint : Bool
