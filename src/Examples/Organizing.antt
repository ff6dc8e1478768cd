-- ===== src/Examples/Organizing.antt =====
-- The organizers: the laws on a header above a pool of two and on one transaction.
use libbitcoin_blockchain.Prelude.{
  ℕ, ◌+◌, ◌≡◌, refl, ◌⊎◌, true, false, Option, some, none, List, [], ◌∷◌, map, arith, leb, ltb,
  if◌then◌else◌,
}
use libbitcoin_blockchain.System.{Block, Code, success, orphan_block, insufficient_work, is_error}
use libbitcoin_blockchain.Pools.HeaderBranch.{HeaderBranch, work, top, top_height, fork_height}
use libbitcoin_blockchain.Pools.HeaderPool.{add}
use libbitcoin_blockchain.Chain.Reader.{get_work}
use libbitcoin_blockchain.Chain.Work.{total_work}
use libbitcoin_blockchain.Organizers.Header
use libbitcoin_blockchain.Organizers.Header.{
  Env, complete, handle_accept, organize, reorganized, pooled,
}
use libbitcoin_blockchain.Organizers.Header.Acceptance.{
  Follows, IsPopulating, organize-Follows, handle_accept_lem,
}
use libbitcoin_blockchain.Organizers.Block
use libbitcoin_blockchain.Organizers.Block.{FastChain, Validator, candidated, completed}
use libbitcoin_blockchain.Organizers.Block.Runs
use libbitcoin_blockchain.Organizers.Block.Runs.{
  releases, run-Follows, candidates, NeverFails, run_all,
}
use libbitcoin_blockchain.Organizers.Transaction
use libbitcoin_blockchain.Organizers.Transaction.{Tx, Reads, lock, unlock, stored, handled}
use libbitcoin_blockchain.Organizers.Transaction.Acceptance.{organize_lem, is_acceptable, answer}
use libbitcoin_blockchain.Populate.Header.{populate}
use libbitcoin_blockchain.Examples.Population.{population}
use libbitcoin_blockchain.Examples.Data.{h1, h2, h3, sapling}
use libbitcoin_blockchain.Examples.Branches.{sapling-IsFiled}
use libbitcoin_blockchain.Examples.Chains.{store, store-Indexed}

abbrev env : Env
env = record {
  check = λ header. success;
  populate =
      λ branch. elim (populate population branch) [ none ↦ (branch, orphan_block) | some p ↦ p ];
  is_validated = λ branch. false;
  accept = λ branch. success;
  get_work = λ overcome above. get_work (λ bits. bits) store overcome above true;
  reorganize = λ pool branch. (pool, success);
  proof = λ bits. bits;
  stopped_at_populate = false;
  stopped_at_accept = false;
}

-- Its work is 36 and that of the candidates above its fork point is 105.
abbrev twig : HeaderBranch
twig = record { height = 1; headers = h1 ∷ h2 ∷ h3 ∷ [] }

env-IsPopulating : IsPopulating env population
env-IsPopulating b p e = rw (env, e) refl

organize-Follows_example :
    ((is_error (env.check h3) ≡ true)
      × (organize env 14 sapling h3 ≡ some (sapling, Header.Action.handled (env.check h3) ∷ [])))
    ⊎ ((is_error (env.check h3) ≡ false)
        × Follows env.reorganize sapling (organize env 14 sapling h3))
organize-Follows_example =
    organize-Follows env sapling (λ hash. hash) 14 h3 population sapling-IsFiled (omega arith)
      (omega arith) env-IsPopulating

handle_accept_lem_example : handle_accept env sapling success twig ≡ (
    if leb (work (λ bits. bits) twig) (total_work (λ bits. bits) store (fork_height twig) true 3)
    then complete
        (add sapling h3 (top_height twig))
        (pooled h3 (top_height twig) ∷ [])
        insufficient_work
    else complete sapling (reorganized twig ∷ []) success)
unfolding top total_work fork_height
handle_accept_lem_example =
    handle_accept_lem env sapling twig h3 store 3 refl refl (λ w above. refl) refl
      (store-Indexed 1 3) (omega arith)

abbrev payment : Tx
payment = record {
  hash = 70;
  fees = 20;
  price = 10;
  is_dusty = false;
  check = success;
  accept = success;
  connect = success;
  store = success;
}

abbrev running : Reads
running = record { at_organize = false; at_accept = false; at_connect = false }

organize_lem_example : Transaction.organize false running payment ≡ (
    if is_error payment.check
    then handled (answer false running payment) ∷ []
    else if is_acceptable false running payment
    then lock ∷ stored 70 ∷ unlock ∷ handled (answer false running payment) ∷ []
    else lock ∷ unlock ∷ handled (answer false running payment) ∷ [])
organize_lem_example = organize_lem false running payment

organize_test :
    Transaction.organize false running payment ≡ lock ∷ stored 70 ∷ unlock ∷ handled success ∷ []
unfolding Transaction.organize
organize_test = refl

-- A chain that counts its candidates and is reorganizable from the second on.
abbrev counter : FastChain ℕ
counter = record {
  invalidate = λ n b height. (success, n);
  candidate = λ n b. (success, n + 1);
  is_reorganizable = λ n. ltb 1 n;
  reorganize = λ n bs height. (success, 0);
}

abbrev lenient : Validator
lenient = record {
  accept = λ b. success;
  connect = λ b. success;
  error = λ b. success;
  stopped_at_accept = λ b. false;
  stopped_at_connect = λ b. false;
}

abbrev b1 : Block
b1 = record { header = h1 }

abbrev b2 : Block
b2 = record { header = h2 }

abbrev b3 : Block
b3 = record { header = h3 }

abbrev results : List (Code × Option Block)
results = (success, some b1) ∷ (success, some b2) ∷ (success, some b3) ∷ (success, none) ∷ []

run-Follows_example :
    Runs.Follows lenient 5 10 [] (Block.run counter lenient 0 results 5 10 []).1
    × (releases (Block.run counter lenient 0 results 5 10 []).1
        ≡ (Block.run counter lenient 0 results 5 10 []).2)
run-Follows_example = run-Follows counter lenient 0 results 5 10 [] (omega arith) (omega arith)

run_test :
    (Block.run counter lenient 0 results 5 10 []).1
    ≡ candidated b1
      ∷ candidated b2
      ∷ Block.Action.reorganized (b1 ∷ b2 ∷ []) 5
      ∷ candidated b3
      ∷ Block.Action.pooled (b3 ∷ []) 7
      ∷ completed success
      ∷ []
unfolding Block.run
run_test = refl

counter-NeverFails : NeverFails counter
counter-NeverFails = record { candidate = λ s b. refl; reorganize = λ s bs height. refl }

run_all_example :
    let result =
      Block.run counter lenient 0 (map (λ b. (success, some b)) (b1 ∷ b2 ∷ b3 ∷ [])) 5 10 [] in
    (candidates result.1 ≡ b1 ∷ b2 ∷ b3 ∷ []) × (result.2 ≡ false)
unfolding Block.validate
run_all_example =
    run_all counter lenient counter-NeverFails 0 (b1 ∷ b2 ∷ b3 ∷ []) 5 10 []
      (refl, (refl, (refl, tt))) ((refl, refl), ((refl, refl), ((refl, refl), tt)))
