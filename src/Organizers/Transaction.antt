-- ===== src/Organizers/Transaction.antt =====
-- src/organizers/organize_transaction.cpp and transaction_pool::exists: the acceptance of one
-- unconfirmed transaction. The validator's handlers are called in sequence; each read of the
-- stopped flag is an argument, since stop runs on another thread.
pub mod Acceptance
use libbitcoin_blockchain.Prelude.{
  ℕ, ◌≡◌, Bool, true, false, not, ◌&&◌, Option, none, some, List, [], ◌∷◌, ◌++◌, leb, ltb, ◌==◌,
  if◌then◌else◌,
}
use libbitcoin_blockchain.System.{
  Code, success, service_stopped, duplicate_transaction, insufficient_fee, dusty_transaction,
  is_error,
}

-- What the library's accessors return for the transaction, and what its validator answers. The
-- configured fees are floats: whether both are zero, and static_cast<uint64_t>(byte + sigop) of
-- the transaction's size and signature operations at them, are given.
pub record Tx : Type 0 where
  pub hash : ℕ
  pub fees : ℕ
  pub price : ℕ
  pub is_dusty : Bool
  pub check : Code
  pub accept : Code
  pub connect : Code
  pub store : Code

-- The reads of the stopped flag: in organize, in handle_accept and in handle_connect.
pub record Reads : Type 0 where
  pub at_organize : Bool
  pub at_accept : Bool
  pub at_connect : Bool

pub data Action : Type 0 where
  lock unlock : Action
  stored : ℕ → Action
  handled : Code → Action

-- transaction_pool::exists, which is not implemented
unfoldable pub exists : Tx → Bool
exists tx = false

-- sufficient_fee(tx); `no_fees` is that both configured fees are zero.
unfoldable pub sufficient_fee : Bool → Tx → Bool
sufficient_fee no_fees tx =
    if no_fees then true else leb (if ltb tx.price 1 then 1 else tx.price) tx.fees

-- handle_connect(ec, tx, handler): the store's writes, and the code for the promise
unfoldable pub handle_connect : Bool → Tx → Code → List Action × Code
handle_connect stopped tx ec =
    if stopped
    then ([], service_stopped)
    else if is_error ec
    then ([], ec)
    else (stored tx.hash ∷ [], tx.store)

-- handle_accept(ec, tx, handler)
unfoldable pub handle_accept : Bool → Reads → Tx → Code → List Action × Code
unfolding sufficient_fee handle_connect
handle_accept no_fees reads tx ec =
    if reads.at_accept
    then ([], service_stopped)
    else if is_error ec
    then ([], ec)
    else if not (sufficient_fee no_fees tx)
    then ([], insufficient_fee)
    else if tx.is_dusty
    then ([], dusty_transaction)
    else handle_connect reads.at_connect tx tx.connect

-- The rest of organize from the code of the promise on.
unfoldable pub finish : List Action × Code → List Action
finish (before, ec) = lock ∷ before ++ unlock ∷ handled ec ∷ []

-- organize(tx, handler, max_money)
unfoldable pub organize : Bool → Reads → Tx → List Action
unfolding exists handle_accept finish
organize no_fees reads tx =
    if is_error tx.check
    then handled tx.check ∷ []
    else if reads.at_organize
    then lock ∷ unlock ∷ handled service_stopped ∷ []
    else if exists tx
    then lock ∷ unlock ∷ handled duplicate_transaction ∷ []
    else finish (handle_accept no_fees reads tx tx.accept)
