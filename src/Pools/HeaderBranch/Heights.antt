-- ===== src/Pools/HeaderBranch/Heights.antt =====
-- header_branch: heights and indexes, and the getters by height.
use libbitcoin_blockchain.Prelude.{
  ℕ, ◌+◌, ◌≤◌, ◌<◌, ◌-◌, leb, true, false, ◌≡◌, refl, some, arith, get_elem?, get_elem?-none,
  size_mod,
}
use libbitcoin_blockchain.System.{Header, SafeMath}
use libbitcoin_blockchain.Pools.HeaderBranch.{
  HeaderBranch, size, index_of, height_at, get_bits, get_version, get_timestamp, get_block_hash,
}
use libbitcoin_blockchain.Pools.HeaderBranch.Read.{found, absent, fault}

module _ (math : SafeMath) (b : HeaderBranch) where
  -- The height of the header at an index maps back to that index, as long as it fits size_t.
  pub index_of-height_at :
      (index : ℕ)
      → index + b.height + 1 < size_mod
      → (height_at math b index ≡ some (index + b.height + 1))
        × (index_of math b (index + b.height + 1) ≡ some index)
  unfolding height_at index_of
  index_of-height_at index fits = (
    ground (arith, math.add_fits index b.height, math.add_fits (index + b.height) 1),
    ground (
      arith,
      math.subtract_fits (index + b.height + 1) b.height,
      math.subtract_fits (index + 1) 1,
    ),
  )

  index_above :
      (height : ℕ) → b.height < height → index_of math b height ≡ some (height - b.height - 1)
  unfolding index_of
  index_above height h =
      ground (arith, math.subtract_fits height b.height, math.subtract_fits (height - b.height) 1)

  -- The getters find the header at every height above the fork point up to the top, if it fits
  -- size_t.
  pub getters_found :
      (index : ℕ) (h : Header)
      → get_elem? b.headers index ≡ some h
      → index + b.height + 1 < size_mod
      → (get_bits math b (index + b.height + 1) ≡ found h.bits)
        × (get_version math b (index + b.height + 1) ≡ found h.version)
        × (get_timestamp math b (index + b.height + 1) ≡ found h.timestamp)
        × (get_block_hash math b (index + b.height + 1) ≡ found h.hash)
  unfolding get_bits get_version get_timestamp get_block_hash
  getters_found index h e fits =
      let above : leb (index + b.height + 1) b.height ≡ false = ground arith in
      let place = (index_of-height_at index fits).1 in rw (above, place, e) (refl, refl, refl, refl)

  -- At or below the fork point they find nothing.
  pub getters_absent :
      (height : ℕ)
      → height ≤ b.height
      → (get_bits math b height ≡ absent)
        × (get_version math b height ≡ absent)
        × (get_timestamp math b height ≡ absent)
        × (get_block_hash math b height ≡ absent)
  unfolding get_bits get_version get_timestamp get_block_hash
  getters_absent height h =
      let below : leb height b.height ≡ true = ground arith in rw below (refl, refl, refl, refl)

  -- Above the top they read past the end of the vector.
  pub getters_fault :
      (height : ℕ)
      → b.height + size b < height
      → (get_bits math b height ≡ fault)
        × (get_version math b height ≡ fault)
        × (get_timestamp math b height ≡ fault)
        × (get_block_hash math b height ≡ fault)
  unfolding get_bits get_version get_timestamp get_block_hash size
  getters_fault height h =
      let above : leb height b.height ≡ false = ground arith in
      let place : index_of math b height ≡ some (height - b.height - 1) =
        index_above height (omega arith) in
      let past = get_elem?-none b.headers (height - b.height - 1) (omega arith) in
      rw (above, place, past) (refl, refl, refl, refl)
