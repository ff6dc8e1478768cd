-- ===== src/Examples/Validation.antt =====
-- validate_block: the laws on a block of two transactions and two tasks.
use libbitcoin_blockchain.Prelude.{
  ℕ, zero, suc, ◌<◌, ◌%◌, ◌≡◌, refl, true, false, not, ◌&&◌, some, none, List, [], ◌∷◌, arith, ltb,
  ◌==◌, elem, if◌then◌else◌,
}
use libbitcoin_blockchain.System.{Code, success, operation_failed, is_error}
use libbitcoin_blockchain.Validate.Buckets.{
  Distinct, first_position, saturating, positions, positions_after_coinbase,
}
use libbitcoin_blockchain.Validate.Block.{
  Input, Transaction, Metadata, check, handle_populated, finished, connect_inputs, verify,
}
use libbitcoin_blockchain.Validate.Block.Inputs.{
  block_verifies, connect_inputs_sound, connect_inputs_complete,
}
use libbitcoin_blockchain.Validate.Block.Outcomes.{populated_tasks}

abbrev good : Input
good = record { prevout_valid = true; script = success }

abbrev bad : Input
bad = record { prevout_valid = false; script = success }

-- The input that does not verify is in a transaction that is known to be verified.
abbrev txs : List Transaction
txs =
    record { verified = false; inputs = good ∷ good ∷ good ∷ [] }
    ∷ record { verified = true; inputs = bad ∷ [] }
    ∷ []

both_finish : (b : ℕ) → b < 2 → connect_inputs (λ position. false) b 2 txs ≡ finished none
unfolding connect_inputs
both_finish zero l = refl
both_finish (suc zero) l = refl
both_finish (suc (suc b)) l = absurd (omega arith)

connect_inputs_sound_example : block_verifies txs ≡ true
connect_inputs_sound_example =
    connect_inputs_sound (λ position. false) 2 txs (omega arith) both_finish

connect_inputs_complete_example : connect_inputs (λ position. false) 1 2 txs ≡ finished none
unfolding block_verifies verify
connect_inputs_complete_example = connect_inputs_complete 1 2 txs refl

positions_test : positions saturating 9 8 3 2 ≡ some (2 ∷ 5 ∷ [])
unfolding positions
positions_test = refl

positions_after_coinbase_test :
    (visited : List ℕ) × (positions saturating 9 8 3 (first_position 0 3) ≡ some visited)
    × ((i : ℕ) → elem i visited ≡ (ltb i 8 && not (i == 0) && i % 3 == 0))
    × Distinct visited
positions_after_coinbase_test =
    positions_after_coinbase saturating 9 8 3 0 (omega arith) (omega arith) (omega arith)

-- The transaction at position 4 is not accepted.
abbrev accept : ℕ → Code
accept tx = if tx == 4 then operation_failed else success

abbrev fresh : Metadata
fresh = record { error = success; validated = false }

populated_tasks_test :
    (false ≡ false)
    × (is_error success ≡ false)
    × (true ≡ true)
    × (false ≡ false)
    × (false ≡ false)
    × (is_error success ≡ false)
    × ((check true false success fresh).validated ≡ false)
unfolding handle_populated check
populated_tasks_test =
    populated_tasks false success false success 9 2 2 true false success fresh refl
