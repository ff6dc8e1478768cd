-- ===== src/Validate/Block/Inputs.antt =====
-- validate_block::connect_inputs: the inputs that the tasks of all buckets check together.
use libbitcoin_blockchain.Prelude.{
  ℕ, suc, ◌+◌, ◌%◌, ◌<◌, ◌≡◌, refl, Bool, true, false, not, ◌&&◌, ◌||◌, none, List, [], ◌∷◌, arith,
  ◌==◌, ==_self, length, Bool-cases, inl, inr, ◌⊎◌,
}
use libbitcoin_blockchain.System.{is_error}
use libbitcoin_blockchain.Validate.Block.{
  Input, Transaction, verify, finished, Scan, stopped_at, failed, passed, connect_tx, connect_txs,
  connect_inputs,
}
use native.Mathlib.Nat.{mod-lt}

-- Every input has a valid previous output and a script that verifies.
unfoldable pub inputs_verify : List Input → Bool
inputs_verify [] = true
inputs_verify (i ∷ rest) = not (is_error (verify i)) && inputs_verify rest

-- So it is for every transaction that is not known to be verified.
unfoldable pub block_verifies : List Transaction → Bool
unfolding inputs_verify
block_verifies [] = true
block_verifies (tx ∷ rest) = (tx.verified || inputs_verify tx.inputs) && block_verifies rest

pass_step :
    (stopped : ℕ → Bool) (b k : ℕ) (i : Input) (rest : List Input) (p p' : ℕ)
    → connect_tx stopped b k (i ∷ rest) p ≡ passed p'
    → (connect_tx stopped b k rest (p + 1) ≡ passed p')
      × (((p % k == b) ≡ false) ⊎ (is_error (verify i) ≡ false))
unfolding connect_tx
pass_step stopped b k i rest p p' e = elim (Bool-cases (p % k == b)) [
  | inr other ↦ (rw (other, connect_tx) at e, inl other)
  | inl own ↦ elim (Bool-cases (stopped p)) [
    | inl halt ↦ absurd (ground arith)
    | inr go ↦ elim (Bool-cases (is_error (verify i))) [
      | inl bad ↦ absurd (ground arith)
      | inr good ↦ (ground arith, inr good)
    ]
  ]
]

passed_place :
    (stopped : ℕ → Bool) (b k : ℕ) (is : List Input) (p p' : ℕ)
    → connect_tx stopped b k is p ≡ passed p'
    → p' ≡ p + length is
unfolding connect_tx
passed_place stopped b k [] p p' e = ground arith
passed_place stopped b k (i ∷ rest) p p' e =
    let (e', _) = pass_step stopped b k i rest p p' e in
    omega (arith, passed_place stopped b k rest (p + 1) p' e')

-- If the inner loops of all tasks pass a transaction, all its inputs verify.
all_pass :
    (stopped : ℕ → Bool) (k : ℕ) (is : List Input) (p p' : ℕ)
    → 0 < k
    → ((b : ℕ) → b < k → connect_tx stopped b k is p ≡ passed p')
    → inputs_verify is ≡ true
unfolding inputs_verify
all_pass stopped k [] p p' pos h = refl
all_pass stopped k (i ∷ rest) p p' pos h =
    let own = pass_step stopped (p % k) k i rest p p' (h (p % k) (mod-lt p pos)) in
    let ih =
      all_pass stopped k rest (p + 1) p' pos
        (λ b l. (pass_step stopped b k i rest p p' (h b l)).0) in
    ground (arith, own.1, ih, ==_self (p % k))

finish_step :
    (stopped : ℕ → Bool) (b k : ℕ) (tx : Transaction) (rest : List Transaction) (p : ℕ)
    → tx.verified ≡ false
    → connect_txs stopped b k (tx ∷ rest) p ≡ finished none
    → (connect_tx stopped b k tx.inputs p ≡ passed (p + length tx.inputs))
      × (connect_txs stopped b k rest (p + length tx.inputs) ≡ finished none)
unfolding connect_txs
finish_step stopped b k tx rest p v e = go (connect_tx stopped b k tx.inputs p) refl
  where
    go :
        (r : Scan)
        → connect_tx stopped b k tx.inputs p ≡ r
        → (connect_tx stopped b k tx.inputs p ≡ passed (p + length tx.inputs))
          × (connect_txs stopped b k rest (p + length tx.inputs) ≡ finished none)
    go stopped_at f = absurd (ground arith)
    go (failed ec) f = absurd (ground arith)
    go (passed p') f =
        let same = passed_place stopped b k tx.inputs p p' f in
        (rw f (rw same refl), rw (← same) (ground arith))

verifies_from :
    (stopped : ℕ → Bool) (k : ℕ) (txs : List Transaction) (p : ℕ)
    → 0 < k
    → ((b : ℕ) → b < k → connect_txs stopped b k txs p ≡ finished none)
    → block_verifies txs ≡ true
unfolding block_verifies connect_txs
verifies_from stopped k [] p pos h = refl
verifies_from stopped k (tx ∷ rest) p pos h = elim (Bool-cases tx.verified) [
  | inl v ↦ rw v (verifies_from stopped k rest p pos (λ b l. rw (v, connect_txs) at (h b l)))
  | inr v ↦
      let here =
        all_pass stopped k tx.inputs p (p + length tx.inputs) pos
          (λ b l. (finish_step stopped b k tx rest p v (h b l)).0) in
      let there =
        verifies_from stopped k rest (p + length tx.inputs) pos
          (λ b l. (finish_step stopped b k tx rest p v (h b l)).1) in
      ground (arith, here, there)
]

-- If the tasks of all buckets end without an error, every input of every transaction that is not
-- known to be verified has a valid previous output and a script that verifies: no input falls
-- between the buckets, however many there are and whenever the flag is read.
pub connect_inputs_sound :
    (stopped : ℕ → Bool) (k : ℕ) (txs : List Transaction)
    → 0 < k
    → ((b : ℕ) → b < k → connect_inputs stopped b k txs ≡ finished none)
    → block_verifies txs ≡ true
unfolding connect_inputs
connect_inputs_sound stopped k txs pos h = verifies_from stopped k txs 0 pos h

connect_tx-passes :
    (b k : ℕ) (is : List Input) (p : ℕ)
    → inputs_verify is ≡ true
    → connect_tx (λ _. false) b k is p ≡ passed (p + length is)
unfolding connect_tx inputs_verify
connect_tx-passes b k [] p h = ground arith
connect_tx-passes b k (i ∷ rest) p h =
    let ih = connect_tx-passes b k rest (p + 1) (ground arith) in
    let good : is_error (verify i) ≡ false = ground arith in
    let sum : p + 1 + length rest ≡ p + suc (length rest) = omega arith in
    elim (Bool-cases (p % k == b)) [
      | inl own ↦ rw (own, connect_tx) (rw (good, connect_tx) (rw ih (rw sum refl)))
      | inr other ↦ rw (other, connect_tx) (rw ih (rw sum refl))
    ]

connect_txs-finishes :
    (b k : ℕ) (txs : List Transaction) (p : ℕ)
    → block_verifies txs ≡ true
    → connect_txs (λ _. false) b k txs p ≡ finished none
unfolding connect_txs block_verifies
connect_txs-finishes b k [] p h = refl
connect_txs-finishes b k (tx ∷ rest) p h = elim (Bool-cases tx.verified) [
  | inl v ↦ rw (v, connect_txs) (connect_txs-finishes b k rest p (ground arith))
  | inr v ↦
      let pass = connect_tx-passes b k tx.inputs p (ground arith) in
      rw (v, connect_txs)
        (rw (pass, connect_txs)
          (connect_txs-finishes b k rest (p + length tx.inputs) (ground arith)))
]

-- If every such input verifies and nothing stops the validator, every task of every bucket ends
-- without an error.
pub connect_inputs_complete :
    (b k : ℕ) (txs : List Transaction)
    → block_verifies txs ≡ true
    → connect_inputs (λ _. false) b k txs ≡ finished none
unfolding connect_inputs
connect_inputs_complete b k txs h = connect_txs-finishes b k txs 0 h
