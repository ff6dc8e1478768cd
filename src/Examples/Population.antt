-- ===== src/Examples/Population.antt =====
-- populate_header and populate_chain_state: an index of four candidates, which a header extends at
-- its top or below it.
use libbitcoin_blockchain.Prelude.{
  ℕ, ◌+◌, ◌-◌, ◌≡◌, refl, false, ◌&&◌, some, none, leb, if◌then◌else◌,
}
use libbitcoin_blockchain.System.{Header, ChainState, success, orphan_block}
use libbitcoin_blockchain.Chain.Database.{BlockResult, Database}
use libbitcoin_blockchain.Populate.ChainState.{StateMap}
use libbitcoin_blockchain.Populate.Header.{Env, populate}
use libbitcoin_blockchain.Populate.Header.Grounding.{solo}
use libbitcoin_blockchain.Examples.Data.{header_of}

-- The header with the hash 10 + h at each height h up to 3.
abbrev rung : ℕ → BlockResult
rung height = record {
  header = header_of (10 + height) (9 + height);
  height = height;
  state = 0;
  error = success;
  transaction_count = 1;
  neutrino_filter = 0;
}

abbrev pub ladder : Database
ladder = record {
  top = λ candidate. some 3;
  at_height = λ height candidate. if leb height 3 then some (rung height) else none;
  by_hash = λ hash. if leb 10 hash && leb hash 13 then some (rung (hash - 10)) else none;
  filter = λ link. none;
}

-- All heights above the first, the second as a hash.
abbrev map_of : ℕ → StateMap
map_of height = record {
  bits = record { count = height; high = height };
  bits_self = height;
  version = record { count = height; high = height };
  version_self = height;
  timestamp = record { count = height; high = height };
  timestamp_self = height;
  timestamp_retarget = none;
  bip9_bit0_height = some 0;
  bip9_bit1_height = none;
}

abbrev state_at : ℕ → ℕ → ChainState
state_at hash height = record {
  hash = hash;
  height = height;
  is_stale = false;
  is_under_checkpoint = false;
}

abbrev pub population : Env
population = record {
  db = ladder;
  metadata = λ header. record { exists = false; error = success };
  state_of = λ header. none;
  top_candidate_state = some (state_at 13 3);
  get_map = map_of;
  from_data = λ d. state_at d.hash d.height;
  from_parent = λ state header. state_at header.hash (state.height + 1);
}

populate_test :
    populate population (solo 0 (header_of 30 11)) ≡ some (solo 1 (header_of 30 11), success)
unfolding populate
populate_test = refl

populate_orphan_test :
    populate population (solo 0 (header_of 30 20)) ≡ some (solo 0 (header_of 30 20), orphan_block)
unfolding populate
populate_orphan_test = refl
