-- ===== src/Chain/Recording.antt =====
-- block_chain.cpp: populate_neutrino_filters, store of a transaction with catalog_transaction, and
-- update of a block.
use libbitcoin_blockchain.Prelude.{
  ℕ, ◌≡◌, refl, sym, ◌∙◌, ap, Bool, true, not, ◌&&◌, Option, none, some, List, [], ◌∷◌, ◌++◌,
  if◌then◌else◌,
}
use libbitcoin_blockchain.System.{
  Block, Code, ChainState, success, operation_failed, invalid_previous_block,
  metadata_prevout_missing, is_error,
}
use libbitcoin_blockchain.Chain.Database.{BlockResult, FilterResult, Database}

-- A block with the filter of its metadata, and neutrino::compute_filter and compute_filter_header
-- of libbitcoin-system; the first fails without the metadata of the previous outputs.
pub record FilterBlock : Type 0 where
  pub block : Block
  pub neutrino_filter : Option FilterResult

pub record Neutrino : Type 0 where
  pub compute_filter : Block → Option (List ℕ)
  pub compute_filter_header : ℕ → List ℕ → ℕ

abbrev prepend : FilterBlock → Code × List FilterBlock → Code × List FilterBlock
prepend b (ec, bs) = (ec, b ∷ bs)

module _ (n : Neutrino) where
  -- The loop over the blocks, with the previous filter header: the code, and the blocks after it.
  unfoldable pub fill_filters : ℕ → List FilterBlock → Code × List FilterBlock
  fill_filters previous [] = (success, [])
  fill_filters previous (b ∷ rest) = elim b.neutrino_filter [
    | some filter ↦ prepend b (fill_filters filter.header rest)
    | none ↦ elim (n.compute_filter b.block) [
      | none ↦ (metadata_prevout_missing, b ∷ rest)
      | some filter ↦
          let header = n.compute_filter_header previous filter in
          prepend
            (record b { neutrino_filter = some (record { filter = filter; header = header }) })
            (fill_filters header rest)
    ]
  ]

  -- The filter header before the first block.
  abbrev previous_of : Database → FilterBlock → Option ℕ
  previous_of db front = elim front.neutrino_filter [
    | some filter ↦ some 0
    | none ↦ elim (db.by_hash front.block.header.previous_block_hash) [
      | none ↦ none
      | some result ↦ elim (db.filter result.neutrino_filter) [
        | none ↦ none
        | some filter ↦ some filter.header
      ]
    ]
  ]

  abbrev fill_after : List FilterBlock → Option ℕ → Code × List FilterBlock
  fill_after blocks none = (invalid_previous_block, blocks)
  fill_after blocks (some previous) = fill_filters previous blocks

  -- populate_neutrino_filters, for blocks that are not null
  unfoldable pub populate_neutrino_filters :
      Database → Bool → List FilterBlock → Code × List FilterBlock
  unfolding fill_filters
  populate_neutrino_filters db bip158 [] = (success, [])
  populate_neutrino_filters db bip158 (b ∷ rest) =
      if bip158 then fill_after (b ∷ rest) (previous_of db b) else (success, b ∷ rest)

  -- The block without a filter.
  abbrev pub stripped : FilterBlock → FilterBlock
  stripped b = record b { neutrino_filter = none }

  abbrev pub strip : List FilterBlock → List FilterBlock
  strip [] = []
  strip (b ∷ rest) = stripped b ∷ strip rest

  -- A filter that a block has is the one of the block, and its header the one after the previous.
  abbrev pub Genuine : ℕ → FilterBlock → List ℕ → Type 0
  Genuine previous b filter =
      (cached : FilterResult)
      → b.neutrino_filter ≡ some cached
      → cached ≡ record { filter = filter; header = n.compute_filter_header previous filter }

  -- All filters can be computed, and those that blocks have are genuine.
  abbrev pub AllGenuine : ℕ → List FilterBlock → Type 0
  AllGenuine previous [] = Unit
  AllGenuine previous (b ∷ rest) =
      (filter : List ℕ) × (n.compute_filter b.block ≡ some filter)
      × Genuine previous b filter
      × AllGenuine (n.compute_filter_header previous filter) rest

  fill_filters-strip :
      (bs : List FilterBlock) (previous : ℕ)
      → AllGenuine previous bs
      → fill_filters previous bs ≡ fill_filters previous (strip bs)
  unfolding fill_filters
  fill_filters-strip [] previous g = refl
  fill_filters-strip (b ∷ rest) previous (filter, e, same, g) =
      round b.block b.neutrino_filter e same
        (fill_filters-strip rest (n.compute_filter_header previous filter) g)
    where
      round :
          (block : Block) (o : Option FilterResult)
          → n.compute_filter block ≡ some filter
          → Genuine previous (record { block = block; neutrino_filter = o }) filter
          → fill_filters (n.compute_filter_header previous filter) rest
            ≡ fill_filters (n.compute_filter_header previous filter) (strip rest)
          → fill_filters previous (record { block = block; neutrino_filter = o } ∷ rest)
            ≡ fill_filters previous (record { block = block; neutrino_filter = none } ∷ strip rest)
      round block none computed genuine ih = rw (computed, fill_filters) (rw ih refl)
      round block (some cached) computed genuine ih =
          let exact = genuine cached refl in
          rw (computed, fill_filters)
            (rw exact (
              ap
                (prepend (record {
                  block = block;
                  neutrino_filter = some (record {
                    filter = filter;
                    header = n.compute_filter_header previous filter;
                  });
                }))
                ih))

  fill_filters-succeeds :
      (bs : List FilterBlock) (previous : ℕ)
      → AllGenuine previous bs
      → (fill_filters previous (strip bs)).0 ≡ success
  unfolding fill_filters
  fill_filters-succeeds [] previous g = refl
  fill_filters-succeeds (b ∷ rest) previous (filter, e, same, g) =
      rw (e, fill_filters) (fill_filters-succeeds rest (n.compute_filter_header previous filter) g)

  -- Where the filter before the first block is stored, the blocks are filled after it.
  fill_after-previous :
      (db : Database) (b : FilterBlock) (bs : List FilterBlock) (r : BlockResult)
      (before : FilterResult)
      → db.by_hash b.block.header.previous_block_hash ≡ some r
      → db.filter r.neutrino_filter ≡ some before
      → fill_after (b ∷ bs) (previous_of db b) ≡ fill_filters before.header (b ∷ bs)
  unfolding fill_filters
  fill_after-previous db b bs r before found stored = go b.block b.neutrino_filter found
    where
      go :
          (block : Block) (o : Option FilterResult)
          → db.by_hash block.header.previous_block_hash ≡ some r
          → fill_after
              (record { block = block; neutrino_filter = o } ∷ bs)
              (previous_of db (record { block = block; neutrino_filter = o }))
            ≡ fill_filters before.header (record { block = block; neutrino_filter = o } ∷ bs)
      go block none there = rw (there, previous_of) (rw (stored, previous_of) refl)
      go block (some cached) there = refl

  -- If the filter of the block before the first is stored, all filters can be computed and those
  -- that blocks have already are genuine, the result is what it is for blocks without filters: so
  -- the cached filters change nothing.
  pub populate_neutrino_filters_lem :
      (db : Database) (bip158 : Bool) (b : FilterBlock) (bs : List FilterBlock) (r : BlockResult)
      (before : FilterResult)
      → db.by_hash b.block.header.previous_block_hash ≡ some r
      → db.filter r.neutrino_filter ≡ some before
      → AllGenuine before.header (b ∷ bs)
      → (populate_neutrino_filters db true (b ∷ bs)
          ≡ populate_neutrino_filters db true (strip (b ∷ bs)))
        × ((populate_neutrino_filters db true (b ∷ bs)).0 ≡ success)
  unfolding populate_neutrino_filters
  populate_neutrino_filters_lem db bip158 b bs r before found stored genuine =
      let filled = fill_after-previous db b bs r before found stored in
      let same = fill_filters-strip (b ∷ bs) before.header genuine in
      let bare = fill_after-previous db (stripped b) (strip bs) r before found stored in
      (
        filled ∙ same ∙ sym bare,
        ap (λ x. x.0) (filled ∙ same) ∙ fill_filters-succeeds (b ∷ bs) before.header genuine,
      )

-- A transaction with the part of its metadata that store reads.
pub record StoredTx : Type 0 where
  pub hash : ℕ
  pub state : Option ChainState
  pub cataloged : Bool

-- What store calls: the two writers of the database, with the code that they return.
pub record TxWriters : Type 0 where
  pub store : StoredTx → ChainState → Code
  pub catalog : StoredTx → Code

-- What store does, in order: the transaction as it is at that time.
pub data TxAction : Type 0 where
  wrote cataloged notified cached : StoredTx → TxAction
  stopped : TxAction

module _ (writers : TxWriters) (index_payments : Bool) where
  -- catalog_transaction: a failure stops the chain.
  unfoldable pub catalog_transaction : StoredTx → List TxAction
  catalog_transaction tx =
      if not index_payments
      then []
      else if tx.cataloged
      then []
      else if is_error (writers.catalog tx)
      then cataloged tx ∷ stopped ∷ []
      else cataloged tx ∷ []

  -- From the write on, with the transaction without its state.
  abbrev written : StoredTx → ChainState → Code → Code × StoredTx × List TxAction
  written tx state ec = if is_error ec then (ec, tx, wrote tx ∷ []) else (
    ec,
    record tx { state = some state },
    wrote tx ∷ (if index_payments && not tx.cataloged then catalog_transaction tx else [])
        ++ notified tx ∷ cached (record tx { state = some state }) ∷ [],
  )

  -- store(tx): the code, the transaction after it, and what was done.
  unfoldable pub store : StoredTx → Code × StoredTx × List TxAction
  unfolding catalog_transaction
  store tx = elim tx.state [
    | none ↦ (operation_failed, tx, [])
    | some state ↦
        let hidden = record tx { state = none } in written hidden state (writers.store hidden state)
  ]

-- update(block, height): the calls of the database, with the code of its writer. `error` and
-- `validated` are those of the header's metadata.
unfoldable pub update : (ℕ → Code) → (Code → Code) → Code → Bool → ℕ → Code
update database_update database_invalidate error validated height =
    if not (is_error error)
    then database_update height
    else if validated
    then database_invalidate error
    else success
