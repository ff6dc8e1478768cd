-- ===== src/Validate/Block/Outcomes.antt =====
-- validate_block: the counter of accept_transactions, and what the stages make of a block.
use libbitcoin_blockchain.Prelude.{
  ℕ, ◌+◌, ◌%◌, ◌≡◌, Bool, true, false, ◌||◌, Option, some, List, [], ◌∷◌, arith, ltb, if◌then◌else◌,
  ◌⊎◌, size_mod,
}
use libbitcoin_blockchain.System.{Code, is_error}
use libbitcoin_blockchain.Validate.Block.{Metadata, check, tasks, handle_populated, handle_accepted}

unfoldable pub sum_at : (ℕ → ℕ) → List ℕ → ℕ
sum_at f [] = 0
sum_at f (i ∷ rest) = f i + sum_at f rest

-- Some transaction at these positions is not accepted.
unfoldable pub any_error : (ℕ → Code) → List ℕ → Bool
any_error accept [] = false
any_error accept (i ∷ rest) = is_error (accept i) || any_error accept rest

-- What the loop gives from the positions that it would visit: an error exactly if one of them has
-- one, and if none has, what the counter had and the counts of all, as a sum modulo 2^64.
abbrev pub Accepted : (ℕ → Code) → (ℕ → ℕ) → List ℕ → ℕ → Option (Code × ℕ) → Type 0
Accepted accept sigops visited total result =
    (ec : Code) × (n : ℕ) × (result ≡ some (ec, n))
    × (is_error ec ≡ any_error accept visited)
    × ((any_error accept visited ≡ true) ⊎ (n ≡ (total + sum_at sigops visited) % size_mod))

-- A block that handle_populated sends to the tasks, with the metadata that check left, matches the
-- checkpoints and is not covered by them, so that its verdict was open; there was no stop and no
-- store error, it is not under a checkpoint, and it was accepted.
pub populated_tasks :
    (stopped : Bool) (ec : Code) (under_checkpoint : Bool) (accepted : Code) (size count n : ℕ)
    (matches covered : Bool) (checked : Code) (m : Metadata)
    → (handle_populated stopped ec under_checkpoint accepted size count
        (check matches covered checked m)).1
      ≡ tasks n
    → (stopped ≡ false)
      × (is_error ec ≡ false)
      × (matches ≡ true)
      × (covered ≡ false)
      × (under_checkpoint ≡ false)
      × (is_error accepted ≡ false)
      × ((check matches covered checked m).validated ≡ false)
unfolding handle_populated check
populated_tasks stopped ec under_checkpoint accepted size count n matches covered checked m e =
    ground arith

-- handle_accepted leaves no error exactly if no task reported one, the block has at most as many
-- signature operations as its limit, and it had no error before.
pub handle_accepted_lem :
    (fast block : ℕ) (ec : Code) (sigops : ℕ) (bip141 : Bool) (m : Metadata)
    → is_error m.error ≡ false
    → is_error (handle_accepted fast block ec sigops bip141 m).error
      ≡ (is_error ec || ltb (if bip141 then fast else block) sigops)
unfolding handle_accepted
handle_accepted_lem fast block ec sigops bip141 m h = ground arith
