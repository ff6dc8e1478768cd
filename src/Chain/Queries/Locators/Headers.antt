-- ===== src/Chain/Queries/Locators/Headers.antt =====
-- block_chain.cpp: fetch_header_locator, over the heights of a block locator.
use libbitcoin_blockchain.Prelude.{
  ℕ, ◌≡◌, refl, ap, ◌⊎◌, Bool, true, false, Option, none, some, List, [], ◌∷◌, ◌++◌, arith,
  if◌then◌else◌, inl, inr, Option-cases,
}
use libbitcoin_blockchain.System.{service_stopped, not_found}
use libbitcoin_blockchain.Chain.Database.{BlockResult, Database}
use libbitcoin_blockchain.Chain.Queries.{Reply, answer, refuse}

-- The loop of fetch_header_locator: the hashes, and whether a height was not found.
unfoldable pub locator_hashes : Database → List ℕ → List ℕ × Bool
locator_hashes db [] = ([], false)
locator_hashes db (height ∷ rest) = elim (db.at_height height true) [
  | none ↦ ([], true)
  | some result ↦
      let (hashes, missing) = locator_hashes db rest in (result.header.hash ∷ hashes, missing)
]

-- fetch_header_locator: all replies, in order. After a height that is not found the loop is left
-- by `break`, and the handler is called again.
unfoldable pub fetch_header_locator : Database → Bool → List ℕ → List (Reply (List ℕ))
unfolding locator_hashes
fetch_header_locator db stopped heights =
    let (hashes, missing) = locator_hashes db heights in
    if stopped
    then refuse service_stopped ∷ []
    else if missing
    then refuse not_found ∷ answer hashes ∷ []
    else answer hashes ∷ []

-- The hashes of the candidates at these heights, if there is one at each.
unfoldable pub candidate_hashes : Database → List ℕ → Option (List ℕ)
candidate_hashes db [] = some []
candidate_hashes db (height ∷ rest) = elim (db.at_height height true) [
  | none ↦ none
  | some result ↦ elim (candidate_hashes db rest) [
    | none ↦ none
    | some hashes ↦ some (result.header.hash ∷ hashes)
  ]
]

locator_hashes_all :
    (db : Database) (heights hashes : List ℕ)
    → candidate_hashes db heights ≡ some hashes
    → locator_hashes db heights ≡ (hashes, false)
unfolding candidate_hashes locator_hashes
locator_hashes_all db [] hashes e = ground arith
locator_hashes_all db (height ∷ rest) hashes e = elim (Option-cases (db.at_height height true)) [
  | inl f ↦ absurd (ground arith)
  | inr (r, f) ↦ elim (Option-cases (candidate_hashes db rest)) [
    | inl g ↦ absurd (ground arith)
    | inr (hs, g) ↦
        let ih = locator_hashes_all db rest hs g in
        let same : r.header.hash ∷ hs ≡ hashes =
          cc (rw (g, candidate_hashes) at (rw (f, candidate_hashes) at e)) in
        rw (f, locator_hashes) (rw (ih, locator_hashes) (rw same refl))
  ]
]

-- The first of the heights that has no candidate, with the hashes of those before it.
pub record IsMissing (db : Database) (heights hashes : List ℕ) : Type 0 where
  pub before : List ℕ
  pub height : ℕ
  pub after : List ℕ
  pub split : heights ≡ before ++ height ∷ after
  pub found : candidate_hashes db before ≡ some hashes
  pub absent : db.at_height height true ≡ none

locator_hashes-IsMissing :
    (db : Database) (heights : List ℕ)
    → candidate_hashes db heights ≡ none
    → (hashes : List ℕ) × IsMissing db heights hashes × (locator_hashes db heights ≡ (hashes, true))
unfolding candidate_hashes locator_hashes
locator_hashes-IsMissing db [] e = cc
locator_hashes-IsMissing db (height ∷ rest) e = elim (Option-cases (db.at_height height true)) [
  | inl f ↦ ([], first f, rw (f, locator_hashes) refl)
  | inr (r, f) ↦ elim (Option-cases (candidate_hashes db rest)) [
    | inl g ↦
        let (hashes, m, h) = locator_hashes-IsMissing db rest g in
        (
          r.header.hash ∷ hashes,
          later r f hashes m,
          rw (f, locator_hashes) (rw (h, locator_hashes) refl),
        )
    | inr (hs, g) ↦ absurd (ground arith)
  ]
]
  where
    first : db.at_height height true ≡ none → IsMissing db (height ∷ rest) []
    first f = record {
      before = [];
      height = height;
      after = rest;
      split = refl;
      found = refl;
      absent = f;
    }

    later :
        (r : BlockResult)
        → db.at_height height true ≡ some r
        → (hashes : List ℕ) → IsMissing db rest hashes
        → IsMissing db (height ∷ rest) (r.header.hash ∷ hashes)
    later r f hashes m = record {
      before = height ∷ m.before;
      height = m.height;
      after = m.after;
      split = ap (λ xs. height ∷ xs) m.split;
      found = rw (f, candidate_hashes) (rw (m.found, candidate_hashes) refl);
      absent = m.absent;
    }

-- If every height has a candidate, the handler of fetch_header_locator is called once, with their
-- hashes. If one has none it is called twice: with not_found, and then with success and the hashes
-- of the heights before the first of these.
pub fetch_header_locator_lem :
    (db : Database) (heights : List ℕ)
    → ((hashes : List ℕ) × (candidate_hashes db heights ≡ some hashes)
        × (fetch_header_locator db false heights ≡ answer hashes ∷ []))
      ⊎ ((hashes : List ℕ) × IsMissing db heights hashes
          × (fetch_header_locator db false heights ≡ refuse not_found ∷ answer hashes ∷ []))
unfolding fetch_header_locator
fetch_header_locator_lem db heights = elim (Option-cases (candidate_hashes db heights)) [
  | inl e ↦
      let (hashes, m, h) = locator_hashes-IsMissing db heights e in
      inr (hashes, m, rw (h, fetch_header_locator) refl)
  | inr (hs, e) ↦ inl (hs, e, rw (locator_hashes_all db heights hs e, fetch_header_locator) refl)
]
