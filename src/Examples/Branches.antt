-- ===== src/Examples/Branches.antt =====
-- header_branch and header_pool::get_branch: the laws on a branch over a pool of two headers.
use libbitcoin_blockchain.Prelude.{
  suc, ◌+◌, ◌%◌, ◌≡◌, refl, ◌⊎◌, ◌||◌, some, none, List, [], ◌∷◌, ◌==◌, arith, if◌then◌else◌, All,
  size_sub, work_add, work_mod,
}
use libbitcoin_blockchain.System.{Header, checked_math, max_size_t}
use libbitcoin_blockchain.Pools.HeaderBranch.{
  HeaderBranch, push, top, fork_hash, empty, size, work, index_of, height_at, get_bits, get_version,
  get_timestamp, get_block_hash, found, fault,
}
use libbitcoin_blockchain.Pools.HeaderBranch.Linked.{
  Linked, push-Linked, push_lem, top-push, work-eq-sum, sum_proofs,
}
use libbitcoin_blockchain.Pools.HeaderBranch.Heights.{
  index_of-height_at, getters_found, getters_fault,
}
use libbitcoin_blockchain.Pools.HeaderPool.{Node, branch, add, exists, find, parent, get_branch}
use libbitcoin_blockchain.Pools.HeaderPool.Branches.{IsFiled, get_branch_lem}
use libbitcoin_blockchain.Examples.Data.{h1, h2, h3, sapling}

pub sapling-IsFiled : All (IsFiled (λ hash. hash)) sapling.headers
unfolding add
sapling-IsFiled = ((h2, refl, refl, omega arith), ((h1, refl, refl, omega arith), tt))

get_branch_lem_example :
    (b : HeaderBranch) × (root : Header) × (ys : List Header) × (get_branch sapling 14 h3
      ≡ branch b)
    × (b.headers ≡ root ∷ ys)
    × Linked b.headers
    × (top b ≡ some h3)
    × (parent sapling root ≡ none)
    × ((root ≡ h3) × (ys ≡ []) × (b.height ≡ max_size_t)
        ⊎ ((n : Node) × (find root.hash sapling.headers ≡ some n)
            × (b.height ≡ size_sub n.entry.height 1)))
unfolding add exists
get_branch_lem_example =
    get_branch_lem sapling (λ hash. hash) sapling-IsFiled 14 h3 refl (omega arith) (omega arith)

abbrev twig : HeaderBranch
twig = record { height = 4; headers = h1 ∷ h2 ∷ h3 ∷ [] }

get_branch_test : get_branch sapling 14 h3 ≡ branch twig
unfolding get_branch add push
get_branch_test = refl

abbrev shoot : HeaderBranch
shoot = record { height = 4; headers = h2 ∷ h3 ∷ [] }

push-Linked_test : Linked (push shoot h1).0.headers
push-Linked_test = push-Linked shoot h1 (refl, tt)

push_lem_example :
    ((push shoot h1).1 ≡ (empty shoot || fork_hash shoot == h1.hash))
    × (size (push shoot h1).0 ≡ (if (push shoot h1).1 then suc (size shoot) else size shoot))
    × (fork_hash (push shoot h1).0
        ≡ (if (push shoot h1).1 then h1.previous_block_hash else fork_hash shoot))
push_lem_example = push_lem shoot h1

top-push_test : top (push shoot h1).0 ≡ top shoot
unfolding empty
top-push_test = top-push shoot h1 refl

work-eq-sum_example :
    (work (λ bits. bits) shoot ≡ sum_proofs (λ bits. bits) shoot.headers % work_mod)
    × (work (λ bits. bits) (push shoot h1).0 ≡ (
        if (push shoot h1).1
        then work_add (work (λ bits. bits) shoot) h1.bits
        else work (λ bits. bits) shoot))
work-eq-sum_example = work-eq-sum (λ bits. bits) shoot h1

index_of-height_at_example :
    (height_at checked_math twig 2 ≡ some (2 + 4 + 1))
    × (index_of checked_math twig (2 + 4 + 1) ≡ some 2)
index_of-height_at_example = index_of-height_at checked_math twig 2 (omega arith)

getters_found_test :
    (get_bits checked_math twig (2 + 4 + 1) ≡ found 13)
    × (get_version checked_math twig (2 + 4 + 1) ≡ found 1)
    × (get_timestamp checked_math twig (2 + 4 + 1) ≡ found 600)
    × (get_block_hash checked_math twig (2 + 4 + 1) ≡ found 13)
getters_found_test = getters_found checked_math twig 2 h3 refl (omega arith)

getters_fault_example :
    (get_bits checked_math twig 8 ≡ fault)
    × (get_version checked_math twig 8 ≡ fault)
    × (get_timestamp checked_math twig 8 ≡ fault)
    × (get_block_hash checked_math twig 8 ≡ fault)
unfolding size
getters_fault_example = getters_fault checked_math twig 8 (omega arith)
