-- ===== src/Pools/BlockPool.antt =====
-- src/pools/block_entry.cpp and src/pools/block_pool.cpp: the cache of candidate blocks that wait
-- for validation. The bimap of blocks and heights is the list of its relations in the order of its
-- right view, a set of heights; its left view is the search by hash. An operation here is its
-- critical sections in sequence; Steps takes the sections apart. The subscriber and the dispatcher
-- are the list of what is handed to them, in order. The chain is the interface of fast_chain.hpp.
pub mod Cache
pub mod Scan
pub mod Effects
pub mod Steps
use libbitcoin_blockchain.Prelude.{
  ℕ, zero, suc, ◌+◌, ◌-◌, ◌≡◌, Bool, true, false, not, ◌&&◌, ◌||◌, Option, none, some, List, [],
  ◌∷◌, ◌++◌, leb, ltb, ◌==◌, if◌then◌else◌, length, elem, size_add,
}
use libbitcoin_blockchain.System.{Block, Code, success, service_stopped, is_error, Inventory}

-- The part of fast_chain that the pool calls, at the time of a call.
pub record Chain : Type 0 where
  pub fork_height : ℕ
  pub get_candidate : ℕ → Option Block
  pub get_validatable : ℕ → Bool

-- block_entry: the hash is that of the block; the constructor dereferences its argument.
pub record BlockEntry : Type 0 where
  pub hash : ℕ
  pub block : Block

pub record Cached : Type 0 where
  pub entry : BlockEntry
  pub height : ℕ

pub record BlockPool : Type 0 where
  pub maximum_size : ℕ
  pub stopped : Bool
  pub blocks : List Cached
  pub pending : List ℕ

-- What is handed to the subscriber and to the dispatcher.
pub data Event : Type 0 where
  relay : Code → Option Block → ℕ → Event
  subscribe : ℕ → Event
  read : ℕ → Event

unfoldable pub start : BlockPool → BlockPool
start p = record p { stopped = false }

-- stop invokes every subscriber with service_stopped.
unfoldable pub stop : BlockPool → BlockPool × List Event
stop p = (record p { stopped = true }, relay service_stopped none 0 ∷ [])

unfoldable pub size : BlockPool → ℕ
size p = length p.blocks

-- left.find and right.find
unfoldable pub has_hash : ℕ → List Cached → Bool
has_hash hash [] = false
has_hash hash (c ∷ rest) = c.entry.hash == hash || has_hash hash rest

unfoldable pub find : ℕ → List Cached → Option Block
find height [] = none
find height (c ∷ rest) = if c.height == height then some c.entry.block else find height rest

abbrev pub is_cached : Option Block → Bool
is_cached none = false
is_cached (some b) = true

unfoldable pub place : Cached → List Cached → List Cached
place new [] = new ∷ []
place new (c ∷ rest) = if ltb c.height new.height then c ∷ place new rest else new ∷ c ∷ rest

-- blocks_.insert, which refuses a hash or a height that is there
unfoldable pub insert : Block → ℕ → List Cached → List Cached
unfolding has_hash find place
insert block height cached =
    if has_hash block.header.hash cached || is_cached (find height cached)
    then cached
    else place
        (record { entry = record { hash = block.header.hash; block = block }; height = height })
        cached

unfoldable pub erase : ℕ → List Cached → List Cached
erase height [] = []
erase height (c ∷ rest) = if c.height == height then rest else c ∷ erase height rest

unfoldable pub insert_all : List Block → ℕ → List Cached → List Cached
unfolding insert
insert_all [] height cached = cached
insert_all (block ∷ rest) height cached =
    insert_all rest (size_add height 1) (insert block height cached)

unfoldable pub relay_all : List Block → ℕ → List Event
relay_all [] height = []
relay_all (block ∷ rest) height =
    relay success (some block) height ∷ relay_all rest (size_add height 1)

-- The critical sections of the two forms of add that write blocks.
abbrev pub insert_section : BlockPool → Block → ℕ → BlockPool
insert_section p block height = record p { blocks = insert block height p.blocks }

abbrev pub insert_all_section : BlockPool → List Block → ℕ → BlockPool
insert_all_section p blocks first_height = record p {
  blocks = insert_all blocks first_height p.blocks;
}

-- add(blocks, first_height)
unfoldable pub add_all : BlockPool → List Block → ℕ → BlockPool × List Event
unfolding insert_all relay_all
add_all p blocks first_height =
    if p.maximum_size == 0
    then (p, [])
    else (insert_all_section p blocks first_height, relay_all blocks first_height)

-- The loop that erases from the front while the height is not above the fork point.
unfoldable pub purge : ℕ → List Cached → List Cached
purge top_confirmed [] = []
purge top_confirmed (c ∷ rest) =
    let others = purge top_confirmed rest in if leb c.height top_confirmed then others else c ∷ rest

-- The second critical section of add
abbrev pub purge_section : ℕ → BlockPool → BlockPool
purge_section top_confirmed p = record p { blocks = purge top_confirmed p.blocks }

-- The heights in scope: above the fork point by at most the size.
unfoldable pub in_scope : BlockPool → ℕ → ℕ → Bool
in_scope p top_confirmed height =
    ltb top_confirmed height && leb (height - top_confirmed) p.maximum_size

-- add(block, height)
unfoldable pub add : Chain → BlockPool → Block → ℕ → BlockPool × List Event
unfolding insert purge in_scope
add chain p block height =
    if p.maximum_size == 0
    then (p, [])
    else if in_scope p chain.fork_height height
    then (
      purge_section chain.fork_height (insert_section p block height),
      relay success (some block) height ∷ [],
    )
    else (purge_section chain.fork_height p, [])

abbrev take_found : BlockPool → ℕ → Option Block → BlockPool × Option Block
take_found p height none = (p, none)
take_found p height (some block) = (record p { blocks = erase height p.blocks }, some block)

-- The critical section of get, and the first one of fetch.
unfoldable pub take_section : BlockPool → ℕ → BlockPool × Option Block
unfolding find erase
take_section p height = take_found p height (find height p.blocks)

abbrev take_cached : Chain → BlockPool → ℕ → Option Block → BlockPool × Option Block
take_cached chain p height none = (p, chain.get_candidate height)
take_cached chain p height (some block) = (record p { blocks = erase height p.blocks }, some block)

unfoldable pub get : Chain → BlockPool → ℕ → BlockPool × Option Block
unfolding find erase
get chain p height =
    if p.maximum_size == 0
    then (p, chain.get_candidate height)
    else take_cached chain p height (find height p.blocks)

-- The test in the loop of fetch.
unfoldable pub is_wanted : Chain → BlockPool → ℕ → Bool
unfolding find
is_wanted chain p next =
    not (elem next p.pending) && not (is_cached (find next p.blocks)) && chain.get_validatable next

-- The loop of fetch from `next`, with fuel; `none` is the end of the fuel.
unfoldable pub schedule : Chain → ℕ → BlockPool → ℕ → Option (BlockPool × List Event)
unfolding in_scope is_wanted
schedule chain zero p next = none
schedule chain (suc fuel) p next = elim (in_scope p chain.fork_height next) [
  | false ↦ some (p, [])
  | true ↦ elim (is_wanted chain p next) [
    | false ↦ schedule chain fuel p (size_add next 1)
    | true ↦
        elim (schedule chain fuel (record p { pending = next ∷ p.pending }) (size_add next 1)) [
          | none ↦ none
          | some (p', events) ↦ some (p', read next ∷ events)
        ]
  ]
]

-- What a fetch does with its handler: it is called now, or it waits for a block to be added.
pub data Fetched : Type 0 where
  handled : Code → Option Block → Fetched
  waits : Fetched

abbrev pub subscribed :
    ℕ → Option (BlockPool × List Event) → Option (BlockPool × List Event × Fetched)
subscribed height none = none
subscribed height (some (p, events)) = some (p, subscribe height ∷ events, waits)

abbrev fetch_cached :
    Chain → ℕ → BlockPool → ℕ → Option Block → Option (BlockPool × List Event × Fetched)
fetch_cached chain fuel p height none = subscribed height (schedule chain fuel p height)
fetch_cached chain fuel p height (some block) =
    some (record p { blocks = erase height p.blocks }, [], handled success (some block))

unfoldable pub fetch : Chain → ℕ → BlockPool → ℕ → Option (BlockPool × List Event × Fetched)
unfolding find erase schedule
fetch chain fuel p height =
    if p.maximum_size == 0
    then some (p, [], handled success (chain.get_candidate height))
    else fetch_cached chain fuel p height (find height p.blocks)

-- pending_.erase(height)
unfoldable pub without : ℕ → List ℕ → List ℕ
without height [] = []
without height (x ∷ rest) =
    let others = without height rest in if x == height then others else x ∷ others

-- The critical section of read_block, with the block that it has read before.
abbrev pub arrive_section : BlockPool → ℕ → Block → BlockPool
arrive_section p height block = record p {
  pending = without height p.pending;
  blocks = insert block height p.blocks;
}

-- What read_block ends in: `null_dereference` where the entry of a null block is constructed.
pub data ReadOutcome : Type 0 where
  stored : BlockPool → List Event → ReadOutcome
  null_dereference : ReadOutcome

abbrev store_read : BlockPool → Code → ℕ → Option Block → ReadOutcome
store_read p ec height none = null_dereference
store_read p ec height (some block) =
    stored (arrive_section p height block) (relay ec (some block) height ∷ [])

unfoldable pub read_block : Chain → BlockPool → ℕ → ReadOutcome
unfolding without insert
read_block chain p height =
    let ec = if p.stopped then service_stopped else success in
    let block = if p.stopped then none else chain.get_candidate height in
    store_read p ec height block

-- Whether the subscription stays, and what the handler is called with.
unfoldable pub handle_add : Code → Option Block → ℕ → ℕ → Bool × Option (Code × Option Block)
handle_add ec block height target_height =
    if is_error ec
    then (false, none)
    else if not (height == target_height)
    then (true, none)
    else (false, some (ec, block))

unfoldable pub filter_unknown : List Cached → List Inventory → List Inventory
unfolding has_hash
filter_unknown cached [] = []
filter_unknown cached (i ∷ rest) =
    let others = filter_unknown cached rest in
    if not i.is_block_type
    then i ∷ others
    else if has_hash i.hash cached
    then others
    else i ∷ others

unfoldable pub filter : BlockPool → List Inventory → List Inventory
unfolding filter_unknown
filter p inventories =
    if p.maximum_size == 0 then inventories else filter_unknown p.blocks inventories
