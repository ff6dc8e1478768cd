-- ===== src/Chain/Queries/Filters/Headers.antt =====
-- block_chain.cpp, fetch_neutrino_filter_headers: its loop from the stop height down, against the
-- filter headers in ascending order.
use libbitcoin_blockchain.Prelude.{
  ℕ, zero, suc, ◌+◌, ◌-◌, ◌%◌, ◌<◌, ◌≤◌, ◌≡◌, ◌≢◌, refl, sym, ◌∙◌, ap, ◌⊎◌, true, false, some, List,
  [], ◌∷◌, ◌++◌, reverse, arith, ltb, leb, ◌==◌, size_sub, size_mod, Option-cases, Bool-cases, inl,
  inr,
}
use mathlib.Core.List.{reverse-cons}
use libbitcoin_blockchain.System.{not_found, null_hash, invalid_response_range}
use libbitcoin_blockchain.Chain.Database.{BlockResult, Database}
use libbitcoin_blockchain.Chain.Reader.{Params}
use libbitcoin_blockchain.Chain.Queries.{Store, Reply, answer, refuse, ◌>>=◌, ◌>>◌, check_that}
use libbitcoin_blockchain.Chain.Queries.Filters.{
  CompactFilterHeaders, FilterLimits, uint32_mod, header_of, header_at, headers_below,
  header_before, filter_headers, fetch_neutrino_filter_headers_at, fetch_neutrino_filter_headers,
}

-- The filter headers of `count` heights from `height` up.
unfoldable pub headers_from : Database → ℕ → ℕ → Reply (List ℕ)
headers_from db zero height = answer []
headers_from db (suc count) height = do
  header ← header_at db height
  headers ← headers_from db count (height + 1)
  answer (header ∷ headers)

-- A reply that refuses with nothing but not_found.
abbrev OrMissing {ℓ} : {A : Type ℓ} → Reply A → Type ℓ
OrMissing {A} r = (r ≡ refuse not_found) ⊎ ((a : A) × (r ≡ answer a))

header_of-OrMissing : (db : Database) (r : BlockResult) → OrMissing (header_of db r)
unfolding header_of
header_of-OrMissing db r = elim (Option-cases (db.filter r.neutrino_filter)) [
  | inl e ↦ inl (rw e refl)
  | inr (f, e) ↦ inr (f.header, rw e refl)
]

header_at-OrMissing : (db : Database) (height : ℕ) → OrMissing (header_at db height)
unfolding header_at
header_at-OrMissing db height = elim (Option-cases (db.at_height height false)) [
  | inl e ↦ inl (rw e refl)
  | inr (r, e) ↦ rw e (header_of-OrMissing db r)
]

header_before-OrMissing : (db : Database) (height : ℕ) → OrMissing (header_before db height)
unfolding header_before
header_before-OrMissing db height = elim (Bool-cases (height == 0)) [
  | inl e ↦ rw e (inr (0, refl))
  | inr e ↦ rw e (header_at-OrMissing db (height - 1))
]

headers_from-OrMissing :
    (db : Database) (count height : ℕ) → OrMissing (headers_from db count height)
unfolding headers_from
headers_from-OrMissing db zero height = inr ([], refl)
headers_from-OrMissing db (suc count) height = elim (header_at-OrMissing db height) [
  | inl e ↦ inl (rw (e, headers_from) refl)
  | inr (h, e) ↦ elim (headers_from-OrMissing db count (height + 1)) [
    | inl f ↦ inl (rw (e, headers_from) (rw (f, headers_from) refl))
    | inr (hs, f) ↦ inr (h ∷ hs, rw (e, headers_from) (rw (f, headers_from) refl))
  ]
]

abbrev cons : Reply ℕ → Reply (List ℕ) → Reply (List ℕ)
cons header headers = do h ← header; hs ← headers; answer (h ∷ hs)

abbrev snoc : Reply (List ℕ) → Reply ℕ → Reply (List ℕ)
snoc headers header = do hs ← headers; h ← header; answer (hs ++ h ∷ [])

cons-snoc : (a : Reply ℕ) (r : Reply (List ℕ)) (l : Reply ℕ) → cons a (snoc r l) ≡ snoc (cons a r) l
cons-snoc (refuse ec) r l = refl
cons-snoc (answer a) (refuse ec) l = refl
cons-snoc (answer a) (answer r) (refuse ec) = refl
cons-snoc (answer a) (answer r) (answer l) = refl

headers_from-snoc :
    (db : Database) (count height : ℕ)
    → headers_from db (suc count) height
      ≡ snoc (headers_from db count height) (header_at db (height + count))
unfolding headers_from
headers_from-snoc db zero height =
    let same : height + 0 ≡ height = omega arith in rw same (one (header_at db height))
  where
    one : (r : Reply ℕ) → cons r (answer []) ≡ snoc (answer []) r
    one (refuse ec) = refl
    one (answer a) = refl
headers_from-snoc db (suc count) height =
    let same : height + 1 + count ≡ height + suc count = omega arith in
    let ih = rw same at (headers_from-snoc db count (height + 1)) in
    ap (cons (header_at db height)) ih
    ∙ cons-snoc (header_at db height) (headers_from db count (height + 1))
        (header_at db (height + suc count))

abbrev reversed : Reply (List ℕ) → Reply (List ℕ)
reversed r = do hs ← r; answer (reverse hs)

below-cons :
    (db : Database) (count height : ℕ)
    → headers_below db (suc count) height
      ≡ cons (header_at db (size_sub height 1)) (headers_below db count (size_sub height 1))
unfolding headers_below
below-cons db count height =
    go (header_at db (size_sub height 1)) (headers_below db count (size_sub height 1))
  where
    go :
        (a : Reply ℕ) (r : Reply (List ℕ))
        → elim a [
          | refuse ec ↦ refuse ec
          | answer header ↦ elim r [
            | refuse ec ↦ refuse ec
            | answer headers ↦ answer (header ∷ headers)
          ]
        ]
          ≡ cons a r
    go (refuse ec) r = refl
    go (answer a) (refuse ec) = refl
    go (answer a) (answer r) = refl

reversed-cons :
    (a : Reply ℕ) (r : Reply (List ℕ))
    → OrMissing a
    → OrMissing (reversed r)
    → reversed (cons a r) ≡ snoc (reversed r) a
reversed-cons (refuse ec) (refuse ec') a r = ground (arith, a, r)
reversed-cons (refuse ec) (answer hs) a r = refl
reversed-cons (answer h) (refuse ec') a r = refl
reversed-cons (answer h) (answer hs) a r = ap answer (reverse-cons h hs)

below-reversed :
    (db : Database) (count height : ℕ)
    → count ≤ height
    → height < size_mod
    → reversed (headers_below db count height) ≡ headers_from db count (height - count)
unfolding headers_from
below-reversed db zero height h l = unfold headers_below in refl
below-reversed db (suc count) height h l =
    let down : size_sub height 1 ≡ height - 1 = omega arith in
    let first : height - 1 - count ≡ height - suc count = omega arith in
    let last : height - suc count + count ≡ height - 1 = omega arith in
    let ih = rw first at (below-reversed db count (height - 1) (omega arith) (omega arith)) in
    let split = rw down at (below-cons db count height) in
    let top = rw last at (headers_from-snoc db count (height - suc count)) in
    rw split (
      reversed-cons (header_at db (height - 1)) (headers_below db count (height - 1))
        (header_at-OrMissing db (height - 1))
        (rw ih (headers_from-OrMissing db count (height - suc count)))
      ∙ rw ih (sym top))

-- The stop block's header first, then the one before the start, then the loop; or all in order.
reordered :
    (message : ℕ → List ℕ → CompactFilterHeaders) (stop previous : Reply ℕ) (below : Reply (List ℕ))
    → OrMissing stop
    → OrMissing previous
    → OrMissing (reversed below)
    → Path
        (Reply CompactFilterHeaders)
        (do h ← stop; p ← previous; hs ← below; answer (message p (reverse (h ∷ hs))))
        (do p ← previous; hs ← snoc (reversed below) stop; answer (message p hs))
reordered message (refuse a) (refuse b) r s p q = ground (arith, s, p)
reordered message (refuse a) (answer b) (refuse c) s p q = ground (arith, s, q)
reordered message (refuse a) (answer b) (answer c) s p q = refl
reordered message (answer a) (refuse b) r s p q = refl
reordered message (answer a) (answer b) (refuse c) s p q = refl
reordered message (answer a) (answer b) (answer c) s p q =
    ap (λ hs. answer (message b hs)) (reverse-cons a c)

-- A filter header message of these headers.
abbrev pub message_of : Params → ℕ → ℕ → List ℕ → CompactFilterHeaders
message_of env stop_hash previous headers = record {
  filter_type = env.neutrino_filter_type;
  stop_hash = stop_hash;
  previous_filter_header = previous;
  filter_hashes = headers;
}

module _ (env : Params) (limits : FilterLimits) (store : Store) where
  filter_headers_lem :
      (start stop stop_hash : ℕ) (r : BlockResult)
      → store.database.at_height stop false ≡ some r
      → start ≤ stop
      → stop < uint32_mod
      → stop - start < limits.max_headers
      → (do
        h ← header_of store.database r
        filter_headers env limits store.database start stop_hash stop h)
        ≡ (do
          previous ← header_before store.database start
          headers ← headers_from store.database (suc (stop - start)) start
          answer (message_of env stop_hash previous headers))
  unfolding filter_headers
  filter_headers_lem start stop stop_hash r e inside fits few =
      let db = store.database in
      let n : (stop + uint32_mod - start) % uint32_mod ≡ stop - start = omega arith in
      let ok : ltb (stop - start) limits.max_headers ≡ true = ground arith in
      let first : stop - (stop - start) ≡ start = omega arith in
      let last : start + (stop - start) ≡ stop = omega arith in
      let at : header_at db stop ≡ header_of db r = unfold header_at in rw e refl in
      let below = rw first at (below-reversed db (stop - start) stop (omega arith) (omega arith)) in
      let all = rw at at (rw last at (headers_from-snoc db (stop - start) start)) in
      rw (n, ok)
        (reordered (message_of env stop_hash) (header_of db r) (header_before db start)
            (headers_below db (stop - start) stop) (header_of-OrMissing db r)
            (header_before-OrMissing db start)
            (rw below (headers_from-OrMissing db (stop - start) start))
          ∙ rw (below, all) refl)

  -- For a range of heights of which the last has a block and is within 32 bits, and which is shorter
  -- than the limit, both queries of filter headers give the same: the filter headers of all heights
  -- from the start to the stop in ascending order, and the one before the start or a null hash at
  -- height 0. Where one of these is missing both refuse with not_found. For the query by hash the
  -- stop block is that of the height, and its hash is not null.
  pub fetch_filter_headers_lem :
      (start stop : ℕ) (r : BlockResult)
      → store.database.at_height stop false ≡ some r
      → store.database.by_hash r.header.hash ≡ some r
      → r.height ≡ stop
      → r.header.hash ≢ null_hash
      → start ≤ stop
      → stop < uint32_mod
      → stop - start < limits.max_headers
      → let reply : Reply CompactFilterHeaders = do
        previous ← header_before store.database start
        headers ← headers_from store.database (suc (stop - start)) start
        answer (message_of env r.header.hash previous headers)
        in (fetch_neutrino_filter_headers_at env limits store false start stop ≡ reply)
          × (fetch_neutrino_filter_headers env limits store false start r.header.hash ≡ reply)
  unfolding fetch_neutrino_filter_headers_at fetch_neutrino_filter_headers
  fetch_filter_headers_lem start stop r at by same real inside fits few =
      let ordered : leb start stop ≡ true = ground arith in
      let not_null : (r.header.hash == null_hash) ≡ false = ground arith in
      let small : stop % uint32_mod ≡ stop = omega arith in
      let main = filter_headers_lem start stop r.header.hash r at inside fits few in
      (rw (ordered, at) main, rw (not_null, by) (by_hash ordered small same main))
    where
      by_hash :
          leb start stop ≡ true
          → stop % uint32_mod ≡ stop
          → r.height ≡ stop
          → (do
            h ← header_of store.database r
            filter_headers env limits store.database start r.header.hash stop h)
            ≡ (do
              previous ← header_before store.database start
              headers ← headers_from store.database (suc (stop - start)) start
              answer (message_of env r.header.hash previous headers))
          → (do
            (stop_height, stop_header) ← do h ← header_of store.database r; answer (r.height, h)
            check_that (leb start stop_height) invalid_response_range
            filter_headers env limits store.database start r.header.hash
                (stop_height % uint32_mod)
                stop_header)
            ≡ (do
              previous ← header_before store.database start
              headers ← headers_from store.database (suc (stop - start)) start
              answer (message_of env r.header.hash previous headers))
      by_hash ordered small same main = elim (header_of-OrMissing store.database r) [
        | inl e ↦ rw e (rw e at main)
        | inr (h, e) ↦ rw (e, same, ordered, small) (rw e at main)
      ]
