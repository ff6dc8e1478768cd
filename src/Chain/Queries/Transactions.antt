-- ===== src/Chain/Queries/Transactions.antt =====
-- block_chain.cpp: fetch_transaction, fetch_transaction_position and fetch_history.
use libbitcoin_blockchain.Prelude.{
  ℕ, zero, suc, ◌-◌, ◌+◌, ◌<◌, ◌≤◌, ◌≡◌, refl, ap, Bool, true, false, not, ◌&&◌, ◌||◌, Option, none,
  some, List, [], ◌∷◌, map, arith, leb, ◌==◌, if◌then◌else◌, Bool-cases, Option-cases, inl, inr,
}
use libbitcoin_blockchain.System.{not_found}
use libbitcoin_blockchain.Chain.Queries.{
  TxResult, Payment, Store, Reply, answer, refuse, ◌>>=◌, ◌>>◌, running, require, check_that,
}
use libbitcoin_blockchain.Chain.Queries.Blocks.{or_else}

-- last_pool_transaction_: its hash, the transaction, and the height of its state, if it has one.
pub record CachedTx : Type 0 where
  pub hash : ℕ
  pub payload : ℕ
  pub state_height : Option ℕ

-- What the cache answers when confirmation is not required: payload, position and height.
unfoldable pub cached_tx : Bool → Option CachedTx → ℕ → Option (ℕ × ℕ × ℕ)
cached_tx require_confirmed none hash = none
cached_tx require_confirmed (some cached) hash = elim cached.state_height [
  | none ↦ none
  | some height ↦
      if not require_confirmed && cached.hash == hash
      then some (cached.payload, 0, height)
      else none
]

-- fetch_transaction, for the transaction, its position and its height
unfoldable pub fetch_transaction :
    Store → Bool → Option CachedTx → ℕ → Bool → Bool → Reply (ℕ × ℕ × ℕ)
unfolding cached_tx
fetch_transaction store stopped cached hash require_confirmed witness = do
  running stopped
  or_else (cached_tx require_confirmed cached hash) do
    result ← require (store.tx_by_hash hash)
    check_that (not (require_confirmed && result.is_unconfirmed)) not_found
    answer (result.payload witness, result.position, result.height)

-- the position and the height of cached_tx
abbrev cached_position : Option (ℕ × ℕ × ℕ) → Option (ℕ × ℕ)
cached_position none = none
cached_position (some (payload, position, height)) = some (position, height)

unfoldable pub fetch_transaction_position :
    Store → Bool → Option CachedTx → ℕ → Bool → Reply (ℕ × ℕ)
unfolding cached_tx
fetch_transaction_position store stopped cached hash require_confirmed = do
  running stopped
  or_else (cached_position (cached_tx require_confirmed cached hash)) do
    result ← require (store.tx_by_hash hash)
    check_that (not (require_confirmed && result.is_unconfirmed)) not_found
    answer (result.position, result.height)

abbrev pub positions : Reply (ℕ × ℕ × ℕ) → Reply (ℕ × ℕ)
positions (answer (payload, position, height)) = answer (position, height)
positions (refuse ec) = refuse ec

tail_positions :
    (store : Store) (require_confirmed witness : Bool) (found : Option TxResult)
    → Path
        (Reply (ℕ × ℕ))
        (do
          result ← require found
          check_that (not (require_confirmed && result.is_unconfirmed)) not_found
          answer (result.position, result.height))
        (positions do
          result ← require found
          check_that (not (require_confirmed && result.is_unconfirmed)) not_found
          answer (result.payload witness, result.position, result.height))
tail_positions store require_confirmed witness none = refl
tail_positions store require_confirmed witness (some result) =
    elim (Bool-cases (require_confirmed && result.is_unconfirmed)) [
      | inl e ↦ rw e refl
      | inr e ↦ rw e refl
    ]

-- For any state of the cache and the store, fetch_transaction_position replies what
-- fetch_transaction does, without the transaction, whichever form of it is asked for; and the cache
-- has no part in the reply where the transaction is required to be confirmed.
pub fetch_transaction_lem :
    (store : Store) (stopped : Bool) (cached : Option CachedTx) (hash : ℕ)
    (require_confirmed witness : Bool)
    → (fetch_transaction_position store stopped cached hash require_confirmed
        ≡ positions (fetch_transaction store stopped cached hash require_confirmed witness))
      × (fetch_transaction store stopped cached hash true witness
          ≡ fetch_transaction store stopped none hash true witness)
unfolding fetch_transaction fetch_transaction_position
fetch_transaction_lem store true cached hash require_confirmed witness = (refl, refl)
fetch_transaction_lem store false cached hash require_confirmed witness = (
  elim (Option-cases (cached_tx require_confirmed cached hash)) [
    | inl e ↦ rw e (tail_positions store require_confirmed witness (store.tx_by_hash hash))
    | inr ((tx, position, height), e) ↦ rw e refl
  ],
  rw (unused cached) refl,
)
  where
    unused : (c : Option CachedTx) → cached_tx true c hash ≡ none
    unused none = refl
    unused (some c) = elim (Option-cases c.state_height) [
      | inl e ↦ rw (e, cached_tx) refl
      | inr (height, e) ↦ rw (e, cached_tx) refl
    ]

-- The payment with the height and the hash of its transaction.
pub record PaymentRecord : Type 0 where
  pub detail : ℕ
  pub height : ℕ
  pub hash : ℕ

-- The loop over the payments from a count on. `unconfirmed` is the height of an unconfirmed payment.
unfoldable pub history_from : Store → ℕ → ℕ → ℕ → ℕ → List Payment → List PaymentRecord
history_from store unconfirmed limit from_height count [] = []
history_from store unconfirmed limit from_height count (payment ∷ rest) =
    let tx = store.linked payment.link in
    let height = if tx.is_unconfirmed then unconfirmed else tx.height in
    let others = history_from store unconfirmed limit from_height (count + 1) rest in
    if not (limit == 0) && count == limit
    then []
    else if tx.is_unconfirmed || leb from_height height
    then record { detail = payment.detail; height = height; hash = tx.hash } ∷ others
    else others

unfoldable pub fetch_history : Store → ℕ → Bool → ℕ → ℕ → ℕ → Reply (List PaymentRecord)
unfolding history_from
fetch_history store unconfirmed stopped key limit from_height = do
  running stopped
  answer (history_from store unconfirmed limit from_height 0 (store.payments key))

abbrev pub take {ℓ} : {A : Type ℓ} → ℕ → List A → List A
take zero xs = []
take (suc n) [] = []
take (suc n) (x ∷ xs) = x ∷ take n xs

abbrev pub keep {ℓ} : {A : Type ℓ} → (A → Bool) → List A → List A
keep test [] = []
keep test (x ∷ xs) = if test x then x ∷ keep test xs else keep test xs

-- The payment with what is read of its transaction, and whether it is wanted from a height on.
abbrev pub record_of : Store → ℕ → Payment → PaymentRecord
record_of store unconfirmed payment = record {
  detail = payment.detail;
  height =
      if (store.linked payment.link).is_unconfirmed
      then unconfirmed
      else (store.linked payment.link).height;
  hash = (store.linked payment.link).hash;
}

abbrev pub is_wanted : Store → ℕ → Payment → Bool
is_wanted store from_height payment =
    (store.linked payment.link).is_unconfirmed || leb from_height (store.linked payment.link).height

history_unlimited :
    (store : Store) (unconfirmed from_height count : ℕ) (ps : List Payment)
    → history_from store unconfirmed 0 from_height count ps
      ≡ map (record_of store unconfirmed) (keep (is_wanted store from_height) ps)
unfolding history_from
history_unlimited store unconfirmed from_height count [] = refl
history_unlimited store unconfirmed from_height count (p ∷ ps) =
    ground (arith, history_unlimited store unconfirmed from_height (count + 1) ps)

history_limited :
    (store : Store) (unconfirmed limit from_height left : ℕ) (ps : List Payment)
    → left ≤ limit
    → 0 < limit
    → history_from store unconfirmed limit from_height (limit - left) ps
      ≡ map (record_of store unconfirmed) (keep (is_wanted store from_height) (take left ps))
unfolding history_from
history_limited store unconfirmed limit from_height zero [] h pos = refl
history_limited store unconfirmed limit from_height zero (p ∷ ps) h pos = ground arith
history_limited store unconfirmed limit from_height (suc left) [] h pos = refl
history_limited store unconfirmed limit from_height (suc left) (p ∷ ps) h pos =
    let next : limit - suc left + 1 ≡ limit - left = omega arith in
    let ih = history_limited store unconfirmed limit from_height left ps (omega arith) pos in
    let more : (limit - suc left == limit) ≡ false = ground arith in
    rw (next, more, ih) (ground arith)

-- A history is made of the first `limit` payments of the key, or all of them for a limit of 0, and
-- of these of the ones that are unconfirmed or not below the height, in the order of the store.
pub fetch_history_lem :
    (store : Store) (unconfirmed key limit from_height : ℕ)
    → fetch_history store unconfirmed false key limit from_height
      ≡ answer (
          map (record_of store unconfirmed) (
            keep
              (is_wanted store from_height)
              (if limit == 0 then store.payments key else take limit (store.payments key))))
unfolding fetch_history
fetch_history_lem store unconfirmed key limit from_height = elim (Bool-cases (limit == 0)) [
  | inl e ↦
      let none : limit ≡ 0 = ground arith in
      rw none (ap answer (history_unlimited store unconfirmed from_height 0 (store.payments key)))
  | inr e ↦
      let first : limit - limit ≡ 0 = omega arith in
      rw e (
        ap answer (
          rw first at (
            history_limited store unconfirmed limit from_height limit (store.payments key)
              (omega arith) (ground arith))))
]
