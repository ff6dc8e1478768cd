-- ===== src/Populate/ChainState.antt =====
-- src/populate/populate_chain_state.cpp: the data of a chain state, read from a header at its height
-- and from an index of the chain at all others. The map of the heights that a state needs is
-- chain_state::get_map of libbitcoin-system.
pub mod Complete
use libbitcoin_blockchain.Prelude.{
  ℕ, zero, suc, ◌+◌, ◌-◌, ◌<◌, ◌≤◌, ◌≡◌, refl, ◌⊎◌, ap, Bool, true, false, Option, none, some, List,
  [], ◌∷◌, arith, ltb, leb, ◌==◌, if◌then◌else◌, length, get_elem?, size_add, size_sub, size_mod,
  Option-cases, Bool-cases, inl, inr,
}
use libbitcoin_blockchain.System.{Header, null_hash}
use libbitcoin_blockchain.Chain.Database.{Database}
use libbitcoin_blockchain.Chain.Reader
use libbitcoin_blockchain.Chain.Reader.{◌>>=◌}

-- A run of `count` heights up to `high`, and chain_state::map. A height that is not requested is
-- `none`, which is the source's `unrequested`.
pub record Range : Type 0 where
  pub count : ℕ
  pub high : ℕ

pub record StateMap : Type 0 where
  pub bits : Range
  pub bits_self : ℕ
  pub version : Range
  pub version_self : ℕ
  pub timestamp : Range
  pub timestamp_self : ℕ
  pub timestamp_retarget : Option ℕ
  pub bip9_bit0_height : Option ℕ
  pub bip9_bit1_height : Option ℕ

-- chain_state::data
pub record StateData : Type 0 where
  pub height : ℕ
  pub hash : ℕ
  pub bits : List ℕ
  pub bits_self : ℕ
  pub versions : List ℕ
  pub version_self : ℕ
  pub timestamps : List ℕ
  pub timestamp_retarget : ℕ
  pub timestamp_self : ℕ
  pub bip9_bit0_hash : ℕ
  pub bip9_bit1_hash : ℕ

abbrev pub unspecified_timestamp : ℕ
unspecified_timestamp = 0xFFFFFFFF

module _ (db : Database) (header : Header) (header_height : ℕ) (candidate : Bool) where
  unfoldable pub get_bits : ℕ → Option ℕ
  get_bits height =
      if height == header_height then some header.bits else Reader.get_bits db height candidate

  unfoldable pub get_version : ℕ → Option ℕ
  get_version height =
      if height == header_height
      then some header.version
      else Reader.get_version db height candidate

  unfoldable pub get_timestamp : ℕ → Option ℕ
  get_timestamp height =
      if height == header_height
      then some header.timestamp
      else Reader.get_timestamp db height candidate

  unfoldable pub get_block_hash : ℕ → Option ℕ
  get_block_hash height =
      if height == header_height
      then some header.hash
      else Reader.get_block_hash db height candidate

-- The loop that fills an ordered list, from the height before the first.
unfoldable pub fill : (ℕ → Option ℕ) → ℕ → ℕ → Option (List ℕ)
fill get zero height = some []
fill get (suc count) height = do
  value ← get (size_add height 1)
  values ← fill get count (size_add height 1)
  some (value ∷ values)

-- The ordered values of a range, and the value at a height: populate_bits and populate_versions.
unfoldable pub populate_range : (ℕ → Option ℕ) → Range → ℕ → Option (List ℕ × ℕ)
unfolding fill
populate_range get range self = do
  ordered ← fill get range.count (size_sub range.high range.count)
  own ← get self
  some (ordered, own)

-- A height that may be unrequested.
abbrev requested : (ℕ → Option ℕ) → ℕ → Option ℕ → Option ℕ
requested get default none = some default
requested get default (some height) = get height

unfoldable pub populate_timestamps : (ℕ → Option ℕ) → StateMap → Option (List ℕ × ℕ × ℕ)
unfolding fill
populate_timestamps get map = do
  ordered ← fill get map.timestamp.count (size_sub map.timestamp.high map.timestamp.count)
  retarget ← requested get unspecified_timestamp map.timestamp_retarget
  own ← get map.timestamp_self
  some (ordered, retarget, own)

-- populate_bip9_bit0 and populate_bip9_bit1
unfoldable pub populate_bip9 : (ℕ → Option ℕ) → Option ℕ → Option ℕ
populate_bip9 get height = requested get null_hash height

module _ (get_map : ℕ → StateMap) where
  -- populate_all, with the height and the hash that populate has set
  unfoldable pub populate_all : Database → Header → ℕ → Bool → Option StateData
  populate_all db header header_height candidate = do
    let map = get_map header_height
    (bits, bits_self) ←
        populate_range (get_bits db header header_height candidate) map.bits map.bits_self
    (versions, version_self) ←
        populate_range (get_version db header header_height candidate) map.version map.version_self
    (timestamps, retarget, timestamp_self) ←
        populate_timestamps (get_timestamp db header header_height candidate) map
    bit0 ← populate_bip9 (get_block_hash db header header_height candidate) map.bip9_bit0_height
    bit1 ← populate_bip9 (get_block_hash db header header_height candidate) map.bip9_bit1_height
    some (record {
      height = header_height;
      hash = header.hash;
      bits = bits;
      bits_self = bits_self;
      versions = versions;
      version_self = version_self;
      timestamps = timestamps;
      timestamp_retarget = retarget;
      timestamp_self = timestamp_self;
      bip9_bit0_hash = bit0;
      bip9_bit1_hash = bit1;
    })

  -- populate(candidate), for the top
  unfoldable pub populate_top : Database → Bool → Option StateData
  unfolding populate_all
  populate_top db candidate = do
    (header, header_height) ← Reader.get_top db candidate
    populate_all db header header_height candidate

  -- populate(header_height, candidate)
  unfoldable pub populate_at : Database → ℕ → Bool → Option StateData
  unfolding populate_all
  populate_at db header_height candidate = do
    header ← Reader.get_header db header_height candidate
    populate_all db header header_height candidate
