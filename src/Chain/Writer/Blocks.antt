-- ===== src/Chain/Writer/Blocks.antt =====
-- block_chain.cpp, reorganize(branch_cache, branch_height): every outcome of a block
-- reorganization, and which blocks it makes incoming.
use libbitcoin_blockchain.Prelude.{
  ℕ, ◌+◌, ◌-◌, ◌<◌, ◌≡◌, true, false, ◌&&◌, none, some, List, [], ◌∷◌, ◌++◌, leb, ltb,
  if◌then◌else◌, map, length, get_elem?,
}
use libbitcoin_blockchain.System.{Block, Code, ChainState, success, operation_failed, is_error}
use libbitcoin_blockchain.Chain.Database.{Database}
use libbitcoin_blockchain.Pools.BlockPool.{BlockPool, find}
use libbitcoin_blockchain.Pools.BlockPool.Cache.{IsCache}
use libbitcoin_blockchain.Chain.Writer.{
  BlockRef, BlockChain, Calls, Outcome, blocks_changed, done, last, reorganize_blocks,
}
use libbitcoin_blockchain.Chain.Writer.Gathering.{available}

module _ (calls : Calls) where
  -- The blocks that a reorganization of the branch at a height makes incoming: the candidates of
  -- every height above the fork point and below that height, in order, and then the branch. The
  -- candidates leave the cache, and no other height of it changes.
  pub record IsIncoming (s : BlockChain) (branch : List BlockRef) (height : ℕ) (pool : BlockPool)
      (incoming : List Block) : Type 0 where
    pub below : List Block
    pub joined : incoming ≡ below ++ map (λ x. x.block) branch
    pub complete : length below ≡ height - (s.fork_point.1 + 1)
    pub gathered :
        (i : ℕ)
        → i < height - (s.fork_point.1 + 1)
        → get_elem? below i
          ≡ available (calls.get_candidate s.database) s.block_pool (s.fork_point.1 + 1 + i)
    pub left :
        (k : ℕ)
        → find k pool.blocks
          ≡ (if ltb s.fork_point.1 k && ltb k height then none else find k s.block_pool.blocks)

  -- The code and the state that a block reorganization ends in. It fails with nothing changed if the
  -- branch is empty or its top has no chain state; it fails with only the block pool changed if a
  -- height below the branch has no candidate, or if the filters of the incoming blocks cannot be
  -- computed; and with the block pool and the database if the database cannot be reorganized.
  -- Otherwise the top of the branch is the fork point and the cached block, no work is left above
  -- it, and the subscribers are given the incoming and the outgoing blocks.
  pub data Reorganized (s : BlockChain) (branch : List BlockRef) (height : ℕ)
      : Code → BlockChain → Type 0 where
    empty : branch ≡ [] → Reorganized s branch height operation_failed s
    stateless :
        (b : BlockRef) (rest : List BlockRef)
        → branch ≡ b ∷ rest
        → (last b rest).state ≡ none
        → Reorganized s branch height operation_failed s
    missing :
        (pool : BlockPool) (i : ℕ)
        → i < height - (s.fork_point.1 + 1)
        → available (calls.get_candidate s.database) s.block_pool (s.fork_point.1 + 1 + i) ≡ none
        → ((k : ℕ)
            → find k pool.blocks ≡ (
                if ltb s.fork_point.1 k && leb k (s.fork_point.1 + 1 + i)
                then none
                else find k s.block_pool.blocks))
        → Reorganized s branch height operation_failed (record s { block_pool = pool })
    unfiltered :
        (pool : BlockPool) (incoming : List Block)
        → IsIncoming s branch height pool incoming
        → is_error (calls.compute_filters incoming) ≡ true
        → Reorganized s branch height
            (calls.compute_filters incoming)
            (record s { block_pool = pool })
    unwritten :
        (pool : BlockPool) (incoming outgoing : List Block) (ec : Code) (db : Database)
        → IsIncoming s branch height pool incoming
        → is_error (calls.compute_filters incoming) ≡ false
        → calls.reorganize_blocks s.database s.fork_point incoming ≡ (ec, db, outgoing)
        → is_error ec ≡ true
        → Reorganized s branch height ec (record s { block_pool = pool; database = db })
    written :
        (pool : BlockPool) (incoming outgoing : List Block) (ec : Code) (db : Database)
        (b : BlockRef) (rest : List BlockRef) (state : ChainState)
        → IsIncoming s branch height pool incoming
        → is_error (calls.compute_filters incoming) ≡ false
        → calls.reorganize_blocks s.database s.fork_point incoming ≡ (ec, db, outgoing)
        → is_error ec ≡ false
        → branch ≡ b ∷ rest
        → (last b rest).state ≡ some state
        → Reorganized s branch height success (record s {
          block_pool = pool;
          database = db;
          fork_point = ((last b rest).block.header.hash, state.height);
          candidate_work = 0;
          confirmed_work = 0;
          next_confirmed_state = some (calls.next_state state);
          last_confirmed_block = some (last b rest);
          notified = s.notified ++ blocks_changed s.fork_point.1 incoming outgoing ∷ [];
        })

  -- What an outcome has to be: an end, with a well formed cache.
  abbrev Ends : BlockChain → List BlockRef → ℕ → Outcome → Type 0
  Ends s branch height o =
      (ec : Code) × (s' : BlockChain) × (o ≡ done ec s')
      × IsCache s'.block_pool.blocks
      × Reorganized s branch height ec s'
