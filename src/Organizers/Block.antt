-- ===== src/Organizers/Block.antt =====
-- src/organizers/organize_block.cpp: the acceptance of blocks. Under the confirmation mutex, which
-- handle_check takes and handle_complete releases, blocks are fetched height by height, validated
-- and made candidates; a fetch calls handle_fetch once, so that a run is the list of the results
-- of its fetches. The chain is the interface of fast_chain.hpp over a state of any type.
pub mod Runs
use libbitcoin_blockchain.Prelude.{
  ℕ, ◌-◌, ◌≡◌, Bool, true, false, not, ◌||◌, Option, none, some, List, [], ◌∷◌, ◌++◌, ◌==◌,
  if◌then◌else◌, length, size_add, size_sub,
}
use libbitcoin_blockchain.System.{Block, Code, ChainState, success, service_stopped, is_error}
use libbitcoin_blockchain.Pools.BlockPool
use libbitcoin_blockchain.Pools.BlockPool.{BlockPool, Chain, Event}

-- The writers of fast_chain that handle_fetch calls.
pub record FastChain (S : Type 0) : Type 0 where
  pub invalidate : S → Block → ℕ → Code × S
  pub candidate : S → Block → Code × S
  pub is_reorganizable : S → Bool
  pub reorganize : S → List Block → ℕ → Code × S

-- What validate_block answers for a block, the error that it leaves in the block's metadata, and
-- what the two reads of the stopped flag see.
pub record Validator : Type 0 where
  pub accept : Block → Code
  pub connect : Block → Code
  pub error : Block → Code
  pub stopped_at_accept : Block → Bool
  pub stopped_at_connect : Block → Bool

-- organize(block, height), from the code of the chain's update: the code, the pool with what it
-- hands on, and the heights that are relayed to the validation.
unfoldable pub organize :
    Chain → Code → BlockPool → Block → ℕ → Code × BlockPool × List Event × List ℕ
unfolding BlockPool.add
organize chain ec pool block height =
    let (pool', events) = BlockPool.add chain pool block height in
    if is_error ec then (ec, pool, [], []) else (success, pool', events, height ∷ [])

-- What handle_check does: it drops its subscription, or it stays subscribed and has released the
-- mutex, or it holds it and fetches the height above the parent.
pub data Check : Type 0 where
  unsubscribed skipped : Check
  fetches : ℕ → ℕ → Check

unfoldable pub handle_check : Code → ℕ → ChainState → Check
handle_check ec height parent_state =
    if is_error ec
    then unsubscribed
    else if not (size_sub height 1 == parent_state.height)
    then skipped
    else fetches height parent_state.hash

-- handle_connect(ec, block, handler) and handle_accept(ec, block, handler), to the promise
unfoldable pub handle_connect : Bool → Code → Code
handle_connect stopped ec = if stopped then service_stopped else if is_error ec then ec else success

unfoldable pub validate : Validator → Block → Code
unfolding handle_connect
validate v b =
    if v.stopped_at_accept b
    then service_stopped
    else if is_error (v.accept b)
    then v.accept b
    else handle_connect (v.stopped_at_connect b) (v.connect b)

-- What a run does under the mutex; the last two are calls of the pool and of handle_complete.
pub data Action : Type 0 where
  invalidated : Block → ℕ → Action
  candidated : Block → Action
  reorganized : List Block → ℕ → Action
  pooled : List Block → ℕ → Action
  completed : Code → Action

-- handle_fetch ends in handle_complete or in the fetch of the next height.
pub data Next (S : Type 0) : Type 0 where
  ended : S → List Action → Next S
  fetch : S → List Action → ℕ → ℕ → List Block → Next S

module _ {S : Type 0} (chain : FastChain S) (v : Validator) where
  -- From `if (fast_chain_.is_reorganizable())` on.
  unfoldable pub advance : S → Block → ℕ → List Block → Next S
  advance s b height sub_branch =
      let (ec, s') =
        chain.reorganize s sub_branch (size_sub height (size_sub (length sub_branch) 1)) in
      let call = reorganized sub_branch (size_sub height (size_sub (length sub_branch) 1)) in
      if not (chain.is_reorganizable s)
      then fetch s (candidated b ∷ []) (size_add height 1) b.header.hash sub_branch
      else if is_error ec
      then ended s' (candidated b ∷ call ∷ completed ec ∷ [])
      else fetch s' (candidated b ∷ call ∷ []) (size_add height 1) b.header.hash []

  -- From the candidacy of a block that was validated on.
  unfoldable pub promote : S → Block → ℕ → List Block → Next S
  unfolding advance
  promote s b height sub_branch =
      let (ec, s') = chain.candidate s b in
      let rest = advance s' b height (sub_branch ++ b ∷ []) in
      if is_error ec then ended s' (completed ec ∷ []) else rest

  -- From the validation of a block that extends the branch on.
  unfoldable pub accept_block : S → Block → ℕ → List Block → Next S
  unfolding validate promote
  accept_block s b height sub_branch =
      let (ec, s') = chain.invalidate s b height in
      let rest = promote s b height sub_branch in
      if is_error (validate v b)
      then ended s (completed (validate v b) ∷ [])
      else if is_error (v.error b)
      then ended s' (invalidated b height ∷ completed ec ∷ [])
      else rest

  -- The end of a branch: what was validated and not reorganized goes back to the pool.
  abbrev end_branch : S → Code → ℕ → List Block → Next S
  end_branch s ec height [] = ended s (completed ec ∷ [])
  end_branch s ec height (b ∷ rest) =
      ended s (pooled (b ∷ rest) (size_sub height (length (b ∷ rest))) ∷ completed ec ∷ [])

  abbrev on_block : S → Code → Option Block → ℕ → ℕ → List Block → Next S
  on_block s ec none height parent_hash sub_branch = end_branch s ec height sub_branch
  on_block s ec (some b) height parent_hash sub_branch =
      if b.header.previous_block_hash == parent_hash
      then accept_block s b height sub_branch
      else end_branch s ec height sub_branch

  -- handle_fetch(ec, block, height, parent_hash, sub_branch, complete)
  unfoldable pub handle_fetch : S → Code × Option Block → ℕ → ℕ → List Block → Next S
  unfolding accept_block
  handle_fetch s (ec, block) height parent_hash sub_branch =
      if is_error ec
      then ended s (completed ec ∷ [])
      else on_block s ec block height parent_hash sub_branch

  -- The fetches from a height on, one result each. The Boolean is that the run has completed;
  -- otherwise it waits for a fetch.
  unfoldable pub run : S → List (Code × Option Block) → ℕ → ℕ → List Block → S × List Action × Bool
  unfolding handle_fetch
  run s [] height parent_hash sub_branch = (s, [], false)
  run s (r ∷ rs) height parent_hash sub_branch =
      elim (handle_fetch s r height parent_hash sub_branch) [
        | ended s' actions ↦ (s', actions, true)
        | fetch s' actions next hash branch ↦
            let (s'', others, completed') = run s' rs next hash branch in
            (s'', actions ++ others, completed')
      ]
