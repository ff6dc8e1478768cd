-- ===== src/Pools/HeaderPool/Branches.antt =====
-- header_pool::get_branch: the path from a root of the forest up to a new header.
use libbitcoin_blockchain.Prelude.{
  ℕ, zero, suc, ◌<◌, ◌≡◌, refl, ◌∙◌, subst, ap, ◌⊎◌, sym, true, false, none, some, List, [], ◌∷◌,
  arith, ◌==◌, Option-cases, Bool-cases, inl, inr, length, ltb, size_sub, All,
}
use libbitcoin_blockchain.System.{Header, max_size_t}
use libbitcoin_blockchain.Pools.HeaderBranch.{HeaderBranch, push, last, accepts, make, top}
use libbitcoin_blockchain.Pools.HeaderBranch.Linked.{Linked}
use libbitcoin_blockchain.Pools.HeaderPool.{
  Node, Nodes, HeaderPool, branch, Trace, traced, find, exists, parent, height_of, trace_from,
  get_branch,
}
use libbitcoin_blockchain.Pools.HeaderPool.Table.{find-hash}

-- The entry holds the header that it is filed under (it is no search key), and the header's parent
-- comes before it in the order `rank`: no header is its own ancestor.
abbrev pub IsFiled : (ℕ → ℕ) → Node → Type 0
IsFiled rank n =
    (h : Header) × (n.entry.header ≡ some h)
    × (h.hash ≡ n.entry.hash)
    × (rank h.previous_block_hash < rank h.hash)

find-IsFiled :
    (rank : ℕ → ℕ) (k : ℕ) (nodes : Nodes) (n : Node)
    → All (IsFiled rank) nodes
    → find k nodes ≡ some n
    → IsFiled rank n
unfolding find
find-IsFiled rank k [] n a e = cc
find-IsFiled rank k (m ∷ rest) n a e = elim (Bool-cases (m.entry.hash == k)) [
  | inl here ↦ subst (IsFiled rank) {x = m} {y = n} (ground arith) a.0
  | inr there ↦ find-IsFiled rank k rest n a.1 (ground arith)
]

-- What the loop of get_branch gives from the headers `xs` that it has pushed.
abbrev Walked : HeaderPool → ℕ → List Header → Header → Trace → Type 0
Walked p height xs header t =
    (ys : List Header) × (root : Header) × (t
      ≡ traced (record { height = height; headers = root ∷ ys }) root)
    × Linked (root ∷ ys)
    × (last (root ∷ ys) ≡ last (header ∷ xs))
    × (parent p root ≡ none)
    × ((root ≡ header) × (ys ≡ xs)
        ⊎ ((n : Node) × (y : Header) × (zs : List Header) × (find root.hash p.headers ≡ some n)
            × (ys ≡ y ∷ zs)))

push_accepted :
    (height : ℕ) (xs : List Header) (h : Header)
    → accepts xs h ≡ true
    → (push (record { height = height; headers = xs }) h).0
      ≡ record { height = height; headers = h ∷ xs }
unfolding push
push_accepted height xs h e = rw e

accepted-Linked :
    (xs : List Header) (h : Header) → accepts xs h ≡ true → Linked xs → Linked (h ∷ xs)
unfolding accepts
accepted-Linked [] h e l = tt
accepted-Linked (x ∷ xs) h e l = (ground arith, l)

last-parent :
    (next header : Header) (xs : List Header) → last (next ∷ header ∷ xs) ≡ last (header ∷ xs)
unfolding last
last-parent next header xs = refl

accepts-front :
    (header next : Header) (xs : List Header)
    → header.previous_block_hash ≡ next.hash
    → accepts (header ∷ xs) next ≡ true
unfolding accepts
accepts-front header next xs e = ground arith

placed :
    (p : HeaderPool) (header next : Header) (xs : List Header) (root : Header) (ys : List Header)
    (n : Node)
    → find header.previous_block_hash p.headers ≡ some n
    → next.hash ≡ header.previous_block_hash
    → (root ≡ next) × (ys ≡ header ∷ xs)
      ⊎ ((n : Node) × (y : Header) × (zs : List Header) × (find root.hash p.headers ≡ some n)
          × (ys ≡ y ∷ zs))
    → (root ≡ header) × (ys ≡ xs)
      ⊎ ((n : Node) × (y : Header) × (zs : List Header) × (find root.hash p.headers ≡ some n)
          × (ys ≡ y ∷ zs))
placed p header next xs root ys n f l (inl (r, e)) = inr (n, header, xs, rw (r, l) f, e)
placed p header next xs root ys n f l (inr other) = inr other

parent-some :
    (p : HeaderPool) (header next : Header)
    → parent p header ≡ some next
    → (n : Node) × (find header.previous_block_hash p.headers ≡ some n)
      × (n.entry.header ≡ some next)
unfolding parent
parent-some p header next e = elim (Option-cases (find header.previous_block_hash p.headers)) [
  | inl f ↦ absurd (ground arith)
  | inr (n, f) ↦ (n, f, ground arith)
]

two_or_more : (zs : List Header) → ltb 1 (suc (suc (length zs))) ≡ true
two_or_more zs = ground arith

module _ (p : HeaderPool) (rank : ℕ → ℕ) (filed : All (IsFiled rank) p.headers) where
  trace_from-Walked :
      (fuel height : ℕ) (xs : List Header) (header : Header)
      → rank header.previous_block_hash < rank header.hash
      → rank header.hash < fuel
      → Linked xs
      → accepts xs header ≡ true
      → Walked p height xs header
          (trace_from p fuel (record { height = height; headers = xs }) header)
  unfolding trace_from
  trace_from-Walked zero height xs header r f l a = absurd (omega arith)
  trace_from-Walked (suc fuel) height xs header r f l a = elim (Option-cases (parent p header)) [
    | inl e ↦ (
      xs,
      header,
      rw (e, trace_from) (rw (push_accepted height xs header a)),
      accepted-Linked xs header a l,
      refl,
      e,
      inl (refl, refl),
    )
    | inr (next, e) ↦
        let (n, at, g) = parent-some p header next e in
        let (h, g', hh, r') = find-IsFiled rank header.previous_block_hash p.headers n filed at in
        let same : h ≡ next = cc (g', g) in
        let linked : next.hash ≡ header.previous_block_hash =
          ap (λ x. x.hash) (sym same) ∙ hh ∙ find-hash header.previous_block_hash p.headers n at in
        let r'' : rank next.previous_block_hash < rank next.hash =
          subst (λ x. rank x.previous_block_hash < rank x.hash) same r' in
        let below : rank next.hash < fuel = rw linked (omega arith) in
        let (ys, root, t, l', top, none', place) =
          trace_from-Walked fuel height (header ∷ xs) next r'' below (accepted-Linked xs header a l)
            (accepts-front header next xs (sym linked)) in
        (
          ys,
          root,
          rw (e, trace_from) (rw (push_accepted height xs header a) t),
          l',
          top ∙ last-parent next header xs,
          none',
          placed p header next xs root ys n at linked place,
        )
  ]

  -- A header that the pool does not hold, whose ancestors in the pool form no cycle, has a branch
  -- after at most `rank header.hash + 1` rounds of the loop. Its headers are linked each to its
  -- parent, its top is the header, and the parent of its root is not in the pool. A branch of the
  -- header alone keeps the initial fork height; any other starts at an entry of the pool, and its
  -- fork height is one less than the height of that entry.
  pub get_branch_lem :
      (fuel : ℕ) (header : Header)
      → exists p header ≡ false
      → rank header.previous_block_hash < rank header.hash
      → rank header.hash < fuel
      → (b : HeaderBranch) × (root : Header) × (ys : List Header) × (get_branch p fuel header
          ≡ branch b)
        × (b.headers ≡ root ∷ ys)
        × Linked b.headers
        × (top b ≡ some header)
        × (parent p root ≡ none)
        × ((root ≡ header) × (ys ≡ []) × (b.height ≡ max_size_t)
            ⊎ ((n : Node) × (find root.hash p.headers ≡ some n)
                × (b.height ≡ size_sub n.entry.height 1)))
  unfolding get_branch top make
  get_branch_lem fuel header e r f =
      let (ys, root, t, l, top', none', place) =
        trace_from-Walked fuel max_size_t [] header r f tt (unfold accepts in refl) in
      elim place [
        | inl (same, alone) ↦ (
          record { height = max_size_t; headers = root ∷ ys },
          root,
          ys,
          rw (e, t, alone) refl,
          refl,
          l,
          top',
          none',
          inl (same, alone, refl),
        )
        | inr (n, y, zs, g, more) ↦ (
          record { height = size_sub n.entry.height 1; headers = root ∷ ys },
          root,
          ys,
          rw (e, t, more, g, height_of, two_or_more zs) refl,
          refl,
          l,
          top',
          none',
          inr (n, g, refl),
        )
      ]
