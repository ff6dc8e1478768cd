-- ===== src/Examples/Data.antt =====
-- A pool that holds a chain of three headers and a fork from its first.
use libbitcoin_blockchain.Prelude.{ℕ, refl, [], arith}
use libbitcoin_blockchain.System.{Header}
use libbitcoin_blockchain.Pools.HeaderPool.{HeaderPool, add, exists, find}
use libbitcoin_blockchain.Pools.HeaderPool.Table.{IsTable}
use libbitcoin_blockchain.Pools.HeaderPool.Links.{IsTidy, kids}
use libbitcoin_blockchain.Pools.HeaderPool.Writers.{add-IsTable}
use libbitcoin_blockchain.Pools.HeaderPool.Growth.{add-IsTidy}

abbrev pub header_of : ℕ → ℕ → Header
header_of hash previous = record {
  hash = hash;
  previous_block_hash = previous;
  bits = hash;
  version = 1;
  timestamp = 600;
}

abbrev pub h1 : Header
h1 = header_of 11 10

abbrev pub h2 : Header
h2 = header_of 12 11

abbrev pub h3 : Header
h3 = header_of 13 12

abbrev pub h4 : Header
h4 = header_of 14 11

abbrev pub no_pool : HeaderPool
no_pool = record { maximum_depth = 3; headers = [] }

-- h1 and h2
abbrev pub sapling : HeaderPool
sapling = add (add no_pool h1 5) h2 6

abbrev pub forest : HeaderPool
forest = add (add sapling h3 7) h4 6

no_pool-IsTable : IsTable no_pool.headers
no_pool-IsTable = record { distinct = tt; rises = tt }

no_pool-IsTidy : IsTidy no_pool.headers
unfolding kids find
no_pool-IsTidy = record { once = λ k. omega arith; unrooted = λ k n e root. refl }

pub forest-IsTable : IsTable forest.headers
forest-IsTable = add-IsTable (add sapling h3 7) h4 6 (
    add-IsTable sapling h3 7
      (add-IsTable (add no_pool h1 5) h2 6 (add-IsTable no_pool h1 5 no_pool-IsTable)))

pub sapling-IsTidy : IsTidy sapling.headers
unfolding add exists
sapling-IsTidy =
    add-IsTidy (add no_pool h1 5) h2 6 refl (add-IsTidy no_pool h1 5 refl no_pool-IsTidy)

pub forest-IsTidy : IsTidy forest.headers
unfolding add exists
forest-IsTidy =
    add-IsTidy (add sapling h3 7) h4 6 refl (add-IsTidy sapling h3 7 refl sapling-IsTidy)
