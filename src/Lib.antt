-- ===== src/Lib.antt =====
-- libbitcoin-blockchain: the pools of headers and blocks, the chain over the database, validation
-- and the organizers that tie them together.
--
-- A header that arrives goes to organize_header: under the candidate mutex the header pool gives
-- its branch, the branch is validated, its work is compared with the work of the candidates above
-- its fork point, and the branch becomes candidate or its top goes to the pool. block_chain
-- then takes the branch out of the header pool and prunes the pool. Blocks of candidates wait in the
-- block pool; organize_block fetches them height by height, has them validated by tasks that share
-- their transactions and inputs, and block_chain's block reorganization confirms them.
-- organize_transaction stores valid transactions.
--
-- Prelude: names of the libraries, lists and Boolean tests over native numbers, and size_t and
--   uint256_t arithmetic with its wrap-around.
-- System: what is taken from libbitcoin-system: error codes, the values of accessors, safe_add and
--   safe_subtract with their documented behaviour. Hashes are the numbers that they encode.
-- Pools.HeaderBranch: src/pools/header_branch.cpp (header_branch); Linked has push and work,
--   Heights the indexes and the getters by height.
-- Pools.HeaderPool: src/pools/header_entry.cpp and src/pools/header_pool.cpp (header_pool: add,
--   remove, prune, filter, get_branch). Table has the bimap's two views, Writers add and remove,
--   Links and Growth the child links, Rounds and Pruning prune, Branches get_branch.
-- Pools.BlockPool: src/pools/block_entry.cpp and src/pools/block_pool.cpp (block_pool: add, get,
--   fetch, read_block, handle_add, filter). Cache has the bimap, Scan the loop of fetch, Effects
--   the operations, Steps the single critical sections of all threads in any order, with an abstract
--   pool of blocks and awaited heights; its Operations takes the operations apart into sections.
-- Pools.Evaluator: src/pools/utilities (stack_evaluator and the calculators of closures, priority and
--   order, which extend it) and calculate_priority of src/pools/transaction_pool.cpp. Walks has the
--   evaluation of walks with the closures, Order that of the order.
-- Pools.TransactionEntry: src/pools/transaction_entry.cpp; Links has the symmetry of its links.
-- Chain.Database: the results of libbitcoin-database's queries at one moment.
-- Chain.Reader, Chain.Work, Chain.Fork: src/interface/block_chain.cpp, the get_ functions, get_work,
--   set_fork_point and set_top_valid_candidate_state.
-- Chain.Writer: src/interface/block_chain.cpp, both functions reorganize, candidate and invalidate,
--   over the record of what block_chain keeps in memory. Laws has the header
--   reorganization, Gathering and Blocks the block reorganization, Invalidation invalidate.
-- Chain.Startup: block_chain::start of src/interface/block_chain.cpp; Ready has the state after it.
-- Chain.Recording: src/interface/block_chain.cpp, populate_neutrino_filters, store and update.
-- Chain.Queries: src/interface/block_chain.cpp, the fetch_ and filter_ queries of the safe chain. A
--   call of the handler is a reply. Blocks has the blocks, Locators and Locators.Headers the
--   locators, Filters the compact filters with their headers and checkpoints, Transactions the
--   transactions and the history of a key, Inventories the filters of inventory messages.
-- Populate.ChainState, Populate.Header: src/populate/populate_chain_state.cpp and
--   src/populate/populate_header.cpp, with promote_state and chain_state of block_chain.cpp.
--   Complete has the data of a state, Grounding the branch and the state of its top.
-- Validate.Buckets: the loop by which tasks share the transactions of a block, in accept_transactions
--   of src/validate/validate_block.cpp, and where that of populate_transactions in
--   src/populate/populate_block.cpp starts.
-- Validate.Block: src/validate/validate_block.cpp (check, handle_populated, accept_transactions,
--   handle_accepted, connect, connect_inputs). Inputs has the inputs, Outcomes the other stages.
-- Organizers.Header: src/organizers/organize_header.cpp with src/validate/validate_header.cpp.
-- Organizers.Block: src/organizers/organize_block.cpp (organize, handle_check, handle_fetch, validate);
--   Runs has the runs of fetches over any chain and validator.
-- Organizers.Transaction: src/organizers/organize_transaction.cpp.
-- Examples: runs of the code on small data, and each law on one of them.
--
-- Sizes and heights are size_t: size_add and size_sub wrap at 2 ^ 64; work is uint256_t and wraps at
-- 2 ^ 256. BITCOIN_ASSERT is that of a release build, which checks nothing; what is undefined
-- behaviour in the source is an outcome of its own in the model (fault, undefined, wrapped,
-- null_dereference).
--
-- Fuel: get_branch is given one round more than the rank of the header, for any ranking that puts a
-- parent before its child; prune one call more than the pool has entries; the loop of fetch two
-- rounds more than the size of the cache; a loop over positions one round more than the count; the
-- evaluator of a walk more rounds than its stack and the neighbours of all entries have elements;
-- that of the order of entries as many rounds as its evaluation is shown to take.
--
-- Parameters, since their code is not in the repository: the queries and writers of
-- libbitcoin-database, chain_state::get_map and the constructors of a chain state, header::proof, the two
-- functions of neutrino filters, header::check and header::accept, block::check and block::accept,
-- transaction::accept and signature_operations, ceiling_add, safe_add, safe_subtract and
-- floor_subtract. A stopped flag that another thread sets is an argument, so that every moment of a
-- stop is covered.
--
-- Not modelled: populate_transaction and populate_block::populate, validate_transaction,
-- validate_input, which only calls the script interpreter, the writers of the transaction pool,
-- which the source says are not in use, settings, the initializer, stop and close, subscriptions,
-- logging and timing, and the interleaving of threads within a pool other than the block pool.
pub mod Prelude
pub mod System
pub mod Pools
pub mod Chain
pub mod Populate
pub mod Validate
pub mod Organizers
pub mod Examples
