-- ===== src/Validate/Block.antt =====
-- src/validate/validate_block.cpp: the checks of a block, the decision what is validated, and the
-- tasks that share its transactions and its inputs. The tasks of one block run concurrently; each
-- is a function of its bucket, and the counters that they add to are returned.
pub mod Inputs
pub mod Outcomes
use libbitcoin_blockchain.Prelude.{
  size_add, ℕ, zero, suc, ◌+◌, ◌-◌, ◌%◌, ◌≡◌, Bool, true, false, not, ◌&&◌, ◌||◌, Option, none,
  some, List, [], ◌∷◌, ◌++◌, leb, ltb, ◌==◌, if◌then◌else◌, min, length, size_sub,
}
use libbitcoin_blockchain.System.{
  Code, success, service_stopped, checkpoints_failed, missing_previous_output,
  block_embedded_sigop_limit, is_error,
}
use libbitcoin_blockchain.Validate.Buckets.{CeilingAdd}

-- block->header().metadata
pub record Metadata : Type 0 where
  pub error : Code
  pub validated : Bool

-- check(block, height), from what the checkpoints say (validate and covered) and block->check
unfoldable pub check : Bool → Bool → Code → Metadata → Metadata
check matches covered checked metadata =
    if not matches
    then record { error = checkpoints_failed; validated = true }
    else if covered
    then record { error = success; validated = true }
    else record { error = checked; validated = false }

-- How a stage ends: it calls its handler, or it dispatches a task for each of some buckets.
pub data Stage : Type 0 where
  handled : Code → Stage
  tasks : ℕ → Stage

-- handle_populated, from the stopped flag, whether the state is under checkpoint, block->accept,
-- the size of the dispatcher and the number of transactions
unfoldable pub handle_populated : Bool → Code → Bool → Code → ℕ → ℕ → Metadata → Metadata × Stage
handle_populated stopped ec under_checkpoint accepted dispatcher_size count metadata =
    if stopped
    then (metadata, handled service_stopped)
    else if is_error ec
    then (metadata, handled ec)
    else if metadata.validated
    then (metadata, handled success)
    else if under_checkpoint
    then (record metadata { validated = true }, handled success)
    else if is_error accepted
    then (record { error = accepted; validated = true }, handled success)
    else (record metadata { error = accepted }, tasks (min (size_sub dispatcher_size 1) count))

-- The loop of accept_transactions, with fuel: transaction.accept and signature_operations by
-- position. The code, and what the task added to the counter, a size_t that wraps around; `none` is
-- the end of the fuel.
unfoldable pub accept_from :
    CeilingAdd → (ℕ → Code) → (ℕ → ℕ) → ℕ → ℕ → ℕ → ℕ → ℕ → Option (Code × ℕ)
accept_from math accept sigops zero count buckets tx total = none
accept_from math accept sigops (suc fuel) count buckets tx total = elim (ltb tx count) [
  | false ↦ some (success, total)
  | true ↦ elim (is_error (accept tx)) [
    | true ↦ some (accept tx, size_add total (sigops tx))
    | false ↦
        accept_from math accept sigops fuel count buckets (math.ceiling_add tx buckets)
          (size_add total (sigops tx))
  ]
]

unfoldable pub accept_transactions :
    CeilingAdd → (ℕ → Code) → (ℕ → ℕ) → ℕ → ℕ → ℕ → ℕ → Option (Code × ℕ)
unfolding accept_from
accept_transactions math accept sigops fuel count bucket buckets =
    accept_from math accept sigops fuel count buckets bucket 0

-- handle_accepted: the join's code and the counter against the limit of the block
unfoldable pub handle_accepted : ℕ → ℕ → Code → ℕ → Bool → Metadata → Metadata
handle_accepted max_fast_sigops max_block_sigops ec sigops bip141 metadata =
    if is_error ec
    then record metadata { error = ec }
    else if ltb (if bip141 then max_fast_sigops else max_block_sigops) sigops
    then record metadata { error = block_embedded_sigop_limit }
    else metadata

-- connect, from whether the state is under checkpoint, the number of inputs other than the
-- coinbase's and the size of the dispatcher
unfoldable pub connect : Bool → ℕ → ℕ → Stage
connect under_checkpoint non_coinbase_inputs dispatcher_size =
    if under_checkpoint
    then handled success
    else if non_coinbase_inputs == 0
    then handled success
    else tasks (min (size_sub dispatcher_size 1) non_coinbase_inputs)

-- An input: whether the cached previous output is valid, and the code of verify_script.
pub record Input : Type 0 where
  pub prevout_valid : Bool
  pub script : Code

pub record Transaction : Type 0 where
  pub verified : Bool
  pub inputs : List Input

unfoldable pub verify : Input → Code
verify i = if not i.prevout_valid then missing_previous_output else i.script

-- How a task over the inputs ends: by its handler with service_stopped, or after its loop with the
-- error that it set in the metadata, if any.
pub data Task : Type 0 where
  halted : Task
  finished : Option Code → Task

-- The position after the inputs of a transaction, and the code of the first that fails.
pub data Scan : Type 0 where
  stopped_at : Scan
  failed : Code → Scan
  passed : ℕ → Scan

-- The inner loop of connect_inputs; `stopped` is what the flag shows at each position.
unfoldable pub connect_tx : (ℕ → Bool) → ℕ → ℕ → List Input → ℕ → Scan
unfolding verify
connect_tx stopped bucket buckets [] position = passed position
connect_tx stopped bucket buckets (i ∷ rest) position = elim (position % buckets == bucket) [
  | false ↦ connect_tx stopped bucket buckets rest (position + 1)
  | true ↦ elim (stopped position) [
    | true ↦ stopped_at
    | false ↦ elim (is_error (verify i)) [
      | true ↦ failed (verify i)
      | false ↦ connect_tx stopped bucket buckets rest (position + 1)
    ]
  ]
]

-- The outer loop, over the transactions after the coinbase.
unfoldable pub connect_txs : (ℕ → Bool) → ℕ → ℕ → List Transaction → ℕ → Task
unfolding connect_tx
connect_txs stopped bucket buckets [] position = finished none
connect_txs stopped bucket buckets (tx ∷ rest) position = elim tx.verified [
  | true ↦ connect_txs stopped bucket buckets rest position
  | false ↦ elim (connect_tx stopped bucket buckets tx.inputs position) [
    | stopped_at ↦ halted
    | failed ec ↦ finished (some ec)
    | passed position' ↦ connect_txs stopped bucket buckets rest position'
  ]
]

-- connect_inputs(block, bucket, buckets, handler), without the coinbase
unfoldable pub connect_inputs : (ℕ → Bool) → ℕ → ℕ → List Transaction → Task
unfolding connect_txs
connect_inputs stopped bucket buckets txs = connect_txs stopped bucket buckets txs 0
