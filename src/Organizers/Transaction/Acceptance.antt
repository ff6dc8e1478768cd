-- ===== src/Organizers/Transaction/Acceptance.antt =====
-- organize_transaction: which transactions are stored, and the mutex and the handler on every path.
use libbitcoin_blockchain.Prelude.{◌≡◌, Bool, not, ◌&&◌, ◌||◌, [], ◌∷◌, arith, if◌then◌else◌}
use libbitcoin_blockchain.System.{
  Code, service_stopped, insufficient_fee, dusty_transaction, is_error,
}
use libbitcoin_blockchain.Organizers.Transaction.{
  Tx, Reads, lock, unlock, stored, handled, sufficient_fee, organize,
}

-- Every test passes: of the transaction, of its fee and its outputs, and of the stopped flag.
abbrev pub is_acceptable : Bool → Reads → Tx → Bool
is_acceptable no_fees reads tx =
    not (is_error tx.check)
    && not (is_error tx.accept)
    && sufficient_fee no_fees tx
    && not tx.is_dusty
    && not (is_error tx.connect)
    && not (reads.at_organize || reads.at_accept || reads.at_connect)

-- The code that the handler is called with: that of the first test that fails.
abbrev pub answer : Bool → Reads → Tx → Code
answer no_fees reads tx =
    if is_error tx.check
    then tx.check
    else if reads.at_organize || reads.at_accept
    then service_stopped
    else if is_error tx.accept
    then tx.accept
    else if not (sufficient_fee no_fees tx)
    then insufficient_fee
    else if tx.is_dusty
    then dusty_transaction
    else if reads.at_connect
    then service_stopped
    else if is_error tx.connect
    then tx.connect
    else tx.store

-- A transaction is written to the store exactly if every test passes, once and under the mutex.
-- On every path the handler is called once, last and outside of the mutex, with the code of the
-- first test that fails or, if none does, of the write; the mutex is taken once, and is not taken
-- for a transaction that fails its own checks.
pub organize_lem :
    (no_fees : Bool) (reads : Reads) (tx : Tx)
    → organize no_fees reads tx ≡ (
        if is_error tx.check
        then handled (answer no_fees reads tx) ∷ []
        else if is_acceptable no_fees reads tx
        then lock ∷ stored tx.hash ∷ unlock ∷ handled (answer no_fees reads tx) ∷ []
        else lock ∷ unlock ∷ handled (answer no_fees reads tx) ∷ [])
unfolding organize
organize_lem no_fees reads tx = ground arith
