-- ===== src/Populate/ChainState/Complete.antt =====
-- populate_chain_state: the data that is read where the heights of the map have headers.
use libbitcoin_blockchain.Prelude.{
  ℕ, ◌+◌, ◌-◌, ◌<◌, ◌≤◌, ◌≡◌, Option, none, some, List, length, get_elem?,
}
use libbitcoin_blockchain.System.{null_hash}
use libbitcoin_blockchain.Chain.Database.{Database}
use libbitcoin_blockchain.Chain.Reader
use libbitcoin_blockchain.Chain.Reader.{get_header}
use libbitcoin_blockchain.Populate.ChainState.{
  Range, StateMap, StateData, unspecified_timestamp, requested,
}

-- The list has the values at the `count` heights above `below`, in ascending order.
pub record IsFilled (get : ℕ → Option ℕ) (below count : ℕ) (values : List ℕ) : Type 0 where
  pub counted : length values ≡ count
  pub valued : (i : ℕ) → i < count → get (below + 1 + i) ≡ get_elem? values i

-- The getter has a value at every height up to `top`.
abbrev pub Has : (ℕ → Option ℕ) → ℕ → Type 0
Has get top = (h : ℕ) → h ≤ top → (v : ℕ) × (get h ≡ some v)

-- The heights of a range, of the state itself and of an optional height are within the top.
abbrev pub InRange : Range → ℕ → ℕ → Type 0
InRange range self top = (range.count ≤ range.high) × (range.high ≤ top) × (self ≤ top)

abbrev pub Within : Option ℕ → ℕ → Type 0
Within none top = Unit
Within (some height) top = height ≤ top

pub record IsMap (map : StateMap) (top : ℕ) : Type 0 where
  pub bits : InRange map.bits map.bits_self top
  pub version : InRange map.version map.version_self top
  pub timestamp : InRange map.timestamp map.timestamp_self top
  pub retarget : Within map.timestamp_retarget top
  pub bit0 : Within map.bip9_bit0_height top
  pub bit1 : Within map.bip9_bit1_height top

-- The data holds the values of the map's heights: each list those of its range in ascending order.
pub record IsStateOf (bits version timestamp hash : ℕ → Option ℕ) (map : StateMap) (d : StateData)
    : Type 0 where
  pub bits_run : IsFilled bits (map.bits.high - map.bits.count) map.bits.count d.bits
  pub bits_own : bits map.bits_self ≡ some d.bits_self
  pub version_run :
      IsFilled version (map.version.high - map.version.count) map.version.count d.versions
  pub version_own : version map.version_self ≡ some d.version_self
  pub timestamp_run :
      IsFilled timestamp (map.timestamp.high - map.timestamp.count) map.timestamp.count d.timestamps
  pub timestamp_own : timestamp map.timestamp_self ≡ some d.timestamp_self
  pub retarget :
      requested timestamp unspecified_timestamp map.timestamp_retarget ≡ some d.timestamp_retarget
  pub bit0 : requested hash null_hash map.bip9_bit0_height ≡ some d.bip9_bit0_hash
  pub bit1 : requested hash null_hash map.bip9_bit1_height ≡ some d.bip9_bit1_hash
