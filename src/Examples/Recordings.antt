-- ===== src/Examples/Recordings.antt =====
-- The writers of filters and transactions: two blocks, of which one has its filter already.
use libbitcoin_blockchain.Prelude.{
  ◌+◌, ◌≡◌, refl, sym, ap, true, false, Option, some, none, [], ◌∷◌,
}
use libbitcoin_blockchain.System.{ChainState, success, operation_failed}
use libbitcoin_blockchain.Chain.Database.{BlockResult, FilterResult, Database}
use libbitcoin_blockchain.Chain.Recording
use libbitcoin_blockchain.Chain.Recording.{
  FilterBlock, Neutrino, AllGenuine, Genuine, strip, populate_neutrino_filters,
  populate_neutrino_filters_lem, StoredTx, TxWriters, wrote, cataloged, notified, cached, stopped,
}
use libbitcoin_blockchain.Examples.Data.{h1, h2, header_of}

abbrev neutrino : Neutrino
neutrino = record {
  compute_filter = λ block. some (block.header.hash ∷ []);
  compute_filter_header = λ previous filter. previous + 1;
}

abbrev parent : BlockResult
parent = record {
  header = header_of 10 9;
  height = 0;
  state = 0;
  error = success;
  transaction_count = 1;
  neutrino_filter = 0;
}

abbrev before : FilterResult
before = record { filter = []; header = 100 }

abbrev db : Database
db = record {
  top = λ candidate. some 0;
  at_height = λ height candidate. some parent;
  by_hash = λ hash. some parent;
  filter = λ link. some before;
}

-- The first has no filter, the second has its own.
abbrev bare : FilterBlock
bare = record { block = record { header = h1 }; neutrino_filter = none }

abbrev ready : FilterBlock
ready = record {
  block = record { header = h2 };
  neutrino_filter = some (record { filter = 12 ∷ []; header = 102 });
}

abbrev filter_of : Option FilterResult → FilterResult
filter_of none = before
filter_of (some filter) = filter

bare-Genuine : Genuine neutrino 100 bare (11 ∷ [])
bare-Genuine c e = cc

ready-Genuine : Genuine neutrino 101 ready (12 ∷ [])
ready-Genuine c e = ap filter_of (sym e)

populate_neutrino_filters_lem_example :
    (populate_neutrino_filters neutrino db true (bare ∷ ready ∷ [])
      ≡ populate_neutrino_filters neutrino db true (strip neutrino (bare ∷ ready ∷ [])))
    × ((populate_neutrino_filters neutrino db true (bare ∷ ready ∷ [])).0 ≡ success)
populate_neutrino_filters_lem_example =
    populate_neutrino_filters_lem neutrino db true bare (ready ∷ []) parent before refl refl
      (11 ∷ [], refl, bare-Genuine, (12 ∷ [], refl, ready-Genuine, tt))

abbrev state : ChainState
state = record { hash = 1; height = 2; is_stale = false; is_under_checkpoint = false }

abbrev tx : StoredTx
tx = record { hash = 7; state = some state; cataloged = false }

abbrev hidden : StoredTx
hidden = record tx { state = none }

-- The subscribers are given the transaction without its state, the cache has it.
store_test :
    Recording.store (record { store = λ tx state. success; catalog = λ tx. success }) true tx
    ≡ (success, tx, wrote hidden ∷ cataloged hidden ∷ notified hidden ∷ cached tx ∷ [])
unfolding Recording.store
store_test = refl

-- A transaction that the database refuses has lost its state.
store_fails_test :
    Recording.store
      (record { store = λ tx state. operation_failed; catalog = λ tx. success })
      true
      tx
    ≡ (operation_failed, hidden, wrote hidden ∷ [])
unfolding Recording.store
store_fails_test = refl
