-- ===== src/Chain/Writer/Invalidation.antt =====
-- block_chain::invalidate for a candidate block: how it ends, and the state in memory after it.
use libbitcoin_blockchain.Prelude.{
  ℕ, zero, suc, ◌+◌, ◌-◌, ◌<◌, ◌≤◌, ◌≡◌, refl, ◌⊎◌, true, false, some, List, [], ◌∷◌, ◌++◌, arith,
  length, size_sub, Bool-cases, inl, inr,
}
use libbitcoin_blockchain.System.{Header, Code, success, is_error}
use libbitcoin_blockchain.Chain.Database.{Database}
use libbitcoin_blockchain.Chain.Reader.{get_header, get_top_height, get_block_hash}
use libbitcoin_blockchain.Chain.Writer.{
  BlockChain, Calls, Outcome, done, headers_changed, dependants, mark_invalid, after_invalid,
  pop_invalid, invalidate,
}

-- The error leaves memory as it was; success makes the top valid candidate the top candidate and
-- announces what was put out above the fork.
abbrev pub Invalidated : BlockChain → ℕ → Code → BlockChain → Type 0
Invalidated s fork_height ec s' =
    (is_error ec ≡ true) × (s' ≡ record s { database = s'.database })
    ⊎ ((put_out : List Header) × (is_error ec ≡ false)
        × (s' ≡ record s {
          database = s'.database;
          top_candidate_state = s.top_valid_candidate_state;
          notified = s.notified ++ headers_changed fork_height [] put_out ∷ [];
        }))

Ends : BlockChain → ℕ → Outcome → Type 0
Ends s fork_height o =
    (ec : Code) × (s' : BlockChain) × (o ≡ done ec s') × Invalidated s fork_height ec s'

dependants-some :
    (calls : Calls) (db : Database) (count height : ℕ)
    → ((h : ℕ) → height ≤ h → h < height + count → (x : Header) × (get_header db h true ≡ some x))
    → (hs : List Header) × (dependants calls db count height ≡ some hs) × (length hs ≡ count)
unfolding dependants
dependants-some calls db zero height all = ([], refl, refl)
dependants-some calls db (suc count) height all =
    let (x, e) = all height (omega arith) (omega arith) in
    let (hs, e', n) =
      dependants-some calls db count (height + 1) (λ h a b. all h (omega arith) (omega arith)) in
    (x ∷ hs, rw (e, dependants) (rw (e', dependants) refl), omega arith)

module _ (calls : Calls) where
  after_invalid-Ends :
      (s : BlockChain) (db : Database) (fork : ℕ × ℕ) (outgoing : List Header)
      (r : Code × Database × List Header)
      → Ends s fork.1 (after_invalid calls (record s { database = db }) fork outgoing r)
  unfolding after_invalid Ends
  after_invalid-Ends s db fork outgoing (ec, db', put_out) = elim (Bool-cases (is_error ec)) [
    | inl bad ↦ (ec, record s { database = db' }, rw bad refl, inl (bad, refl))
    | inr good ↦ (
      success,
      record s {
        database = db';
        top_candidate_state = s.top_valid_candidate_state;
        notified = s.notified ++ headers_changed fork.1 [] put_out ∷ [];
      },
      rw good refl,
      inr (put_out, refl, refl),
    )
  ]

  pop_invalid-Ends :
      (s : BlockChain) (fork : ℕ × ℕ) (outgoing : List Header) (r : Code × Database)
      → Ends s fork.1 (pop_invalid calls s fork outgoing r)
  unfolding pop_invalid Ends
  pop_invalid-Ends s fork outgoing (ec, db) = elim (Bool-cases (is_error ec)) [
    | inl bad ↦ (ec, record s { database = db }, rw bad refl, inl (bad, refl))
    | inr good ↦
        rw good (after_invalid-Ends s db fork outgoing (calls.pop_headers db fork outgoing))
  ]

  -- On a candidate index with a header at every height above the block up to the top, and a hash just
  -- below the block, invalidate reads no missing header and returns. With an error code nothing in
  -- memory has changed; otherwise the top valid candidate state has become the top candidate state
  -- and one notification is added, for the fork just below the block.
  pub invalidate_lem :
      (s : BlockChain) (header : Header) (height top fork_hash : ℕ)
      → get_top_height s.database true ≡ some top
      → get_block_hash s.database (size_sub height 1) true ≡ some fork_hash
      → height ≤ top
      → ((h : ℕ) → height < h → h ≤ top → (x : Header) × (get_header s.database h true ≡ some x))
      → (ec : Code) × (s' : BlockChain) × (invalidate calls s header height ≡ done ec s')
        × Invalidated s (size_sub height 1) ec s'
  unfolding invalidate Ends
  invalidate_lem s header height top fork_hash at_top below inside all =
      let (hs, e, n) =
        dependants-some calls s.database (top - height) (height + 1)
          (λ h a b. all h (omega arith) (omega arith)) in
      rw (at_top, below, invalidate)
        (rw (e, invalidate)
          (pop_invalid-Ends s (fork_hash, size_sub height 1) (header ∷ hs)
            (mark_invalid calls s.database (header ∷ hs))))
