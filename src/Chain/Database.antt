-- ===== src/Chain/Database.antt =====
-- What block_chain.cpp reads of libbitcoin-database, whose code is not in the repository: the
-- results of its block and filter queries at one moment.
use libbitcoin_blockchain.Prelude.{ℕ, Bool, Option, List}
use libbitcoin_blockchain.System.{Header, Code}

-- block_result, where it is found.
pub record BlockResult : Type 0 where
  pub header : Header
  pub height : ℕ
  pub state : ℕ
  pub error : Code
  pub transaction_count : ℕ
  pub neutrino_filter : ℕ

-- filter_result, where it is found.
pub record FilterResult : Type 0 where
  pub filter : List ℕ
  pub header : ℕ

-- The Boolean is `candidate`: true for the candidate index, false for the confirmed index.
pub record Database : Type 0 where
  pub top : Bool → Option ℕ
  pub at_height : ℕ → Bool → Option BlockResult
  pub by_hash : ℕ → Option BlockResult
  pub filter : ℕ → Option FilterResult
