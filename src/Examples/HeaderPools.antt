-- ===== src/Examples/HeaderPools.antt =====
-- header_pool: the laws of pruning, adding and removing on a pool of four headers.
use libbitcoin_blockchain.Prelude.{
  ◌-◌, ◌<◌, ◌≡◌, refl, ◌||◌, some, none, [], ◌∷◌, ◌==◌, arith, length, elem, if◌then◌else◌,
}
use libbitcoin_blockchain.Pools.HeaderPool.{
  Node, Nodes, add, exists, remove, prune, pruned, find, exists_hash,
}
use libbitcoin_blockchain.Pools.HeaderPool.Table.{IsTable, entry_of}
use libbitcoin_blockchain.Pools.HeaderPool.Links.{IsTidy}
use libbitcoin_blockchain.Pools.HeaderPool.Writers.{
  hashes, rooted, exists-add, add-IsTable, entry-remove, remove-IsTable, find-remove_child,
}
use libbitcoin_blockchain.Pools.HeaderPool.Growth.{add-IsTidy}
use libbitcoin_blockchain.Pools.HeaderPool.Pruning.{prune_lem, IsPruned}
use libbitcoin_blockchain.Examples.Data.{
  h1, h2, h3, h4, sapling, forest, forest-IsTable, forest-IsTidy, sapling-IsTidy,
}

forest_size : length forest.headers < 5
unfolding add
forest_size = omega arith

-- The root of the forest is below the minimum height and goes; its children become roots, until
-- those below the minimum are gone as well.
prune_lem_example :
    (nodes : Nodes) × (prune (λ a b. a - b) 5 forest 10 ≡ pruned nodes)
    × IsPruned (10 - forest.maximum_depth) forest.headers nodes
prune_lem_example = prune_lem (λ a b. a - b) 5 forest 10 forest-IsTable forest-IsTidy forest_size

pruned_test :
    prune (λ a b. a - b) 5 forest 10
    ≡ pruned (
        record {
          entry = record { height = 7; hash = 13; header = some h3; children = [] };
          key = 7;
        }
        ∷ [])
unfolding prune add
pruned_test = refl

entry-remove_example :
    entry_of (find 12 (remove forest (h1 ∷ [])).headers)
    ≡ (if elem 12 (hashes (h1 ∷ [])) then none else entry_of (find 12 forest.headers))
entry-remove_example = entry-remove forest (h1 ∷ []) 12 forest-IsTable

abbrev root_node : Node
root_node = record {
  entry = record { height = 5; hash = 11; header = some h1; children = 12 ∷ 14 ∷ [] };
  key = 5;
}

found_root : find 11 forest.headers ≡ some root_node
unfolding find add
found_root = refl

find-remove_child_example :
    find 14 (remove forest (h1 ∷ [])).headers
    ≡ (if elem 14 (hashes (h1 ∷ [])) then none else rooted (find 14 forest.headers))
unfolding add find
find-remove_child_example =
    find-remove_child forest (h1 ∷ []) 11 14 root_node forest-IsTable found_root refl refl

add-IsTidy_example : IsTidy (add sapling h4 6).headers
unfolding add exists
add-IsTidy_example = add-IsTidy sapling h4 6 refl sapling-IsTidy

add-IsTable_test : IsTable (add forest h1 5).headers
add-IsTable_test = add-IsTable forest h1 5 forest-IsTable

remove-IsTable_test : IsTable (remove forest (h2 ∷ h1 ∷ [])).headers
remove-IsTable_test = remove-IsTable forest (h2 ∷ h1 ∷ []) forest-IsTable

exists-add_test : exists_hash (add forest h4 6) 14 ≡ (h4.hash == 14 || exists_hash forest 14)
exists-add_test = exists-add forest h4 6 14
