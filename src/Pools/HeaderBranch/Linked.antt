-- ===== src/Pools/HeaderBranch/Linked.antt =====
-- header_branch: what `push` keeps and returns, and the work of a branch as a sum.
use libbitcoin_blockchain.Prelude.{
  ℕ, suc, ◌+◌, ◌%◌, ◌<◌, ◌≡◌, refl, true, false, ◌||◌, List, [], ◌∷◌, arith, ◌==◌, Bool-cases, inl,
  inr, if◌then◌else◌, work_add, work_mod,
}
use libbitcoin_blockchain.System.{Header}
use libbitcoin_blockchain.Pools.HeaderBranch.{
  HeaderBranch, empty, size, push, accepts, top, last, fork_hash, work_from, work,
}

-- Each header's parent stands just before it.
abbrev pub Linked : List Header → Type 0
Linked [] = Unit
Linked (x ∷ []) = Unit
Linked (x ∷ y ∷ rest) = (y.previous_block_hash ≡ x.hash) × Linked (y ∷ rest)

accepts-Linked : (xs : List Header) (h : Header) → accepts xs h ≡ true → Linked xs → Linked (h ∷ xs)
unfolding accepts
accepts-Linked [] h e l = tt
accepts-Linked (x ∷ xs) h e l = (ground arith, l)

-- A chain of headers stays a chain under push, whether the header is accepted or not.
pub push-Linked : (b : HeaderBranch) (h : Header) → Linked b.headers → Linked (push b h).0.headers
unfolding push
push-Linked b h l = ground (arith, accepts-Linked b.headers h)

-- push accepts a header exactly when the branch is empty or the header is the parent of its front;
-- then the branch grows by one header and forks at the parent of that header, and otherwise its
-- size and its fork hash stay as they were.
pub push_lem :
    (b : HeaderBranch) (h : Header)
    → ((push b h).1 ≡ (empty b || fork_hash b == h.hash))
      × (size (push b h).0 ≡ (if (push b h).1 then suc (size b) else size b))
      × (fork_hash (push b h).0 ≡ (if (push b h).1 then h.previous_block_hash else fork_hash b))
unfolding push size fork_hash empty
push_lem b h = (first b.headers, ground arith, ground arith)
  where
    first :
        (xs : List Header)
        → (push (record { height = b.height; headers = xs }) h).1 ≡ (
            empty (record { height = b.height; headers = xs })
            || fork_hash (record { height = b.height; headers = xs }) == h.hash)
    first [] = refl
    first (x ∷ xs) = ground arith

last-cons : (h x : Header) (xs : List Header) → last (h ∷ x ∷ xs) ≡ last (x ∷ xs)
unfolding last
last-cons h x xs = refl

-- Once a branch has a header its top stays the first header that was pushed.
pub top-push : (b : HeaderBranch) (h : Header) → empty b ≡ false → top (push b h).0 ≡ top b
unfolding push top empty
top-push b h e = go b.headers e
  where
    go :
        (xs : List Header)
        → empty (record { height = b.height; headers = xs }) ≡ false
        → top (push (record { height = b.height; headers = xs }) h).0
          ≡ top (record { height = b.height; headers = xs })
    go [] e = cc
    go (x ∷ xs) e = ground (arith, last-cons h x xs)

pub sum_proofs : (ℕ → ℕ) → List Header → ℕ
sum_proofs proof [] = 0
sum_proofs proof (h ∷ rest) = proof h.bits + sum_proofs proof rest

work_from-eq :
    (proof : ℕ → ℕ) (total : ℕ) (xs : List Header)
    → total < work_mod
    → work_from proof total xs ≡ (total + sum_proofs proof xs) % work_mod
unfolding work_from sum_proofs
work_from-eq proof total [] h = omega arith
work_from-eq proof total (x ∷ xs) h =
    omega (arith, work_from-eq proof (work_add total (proof x.bits)) xs (omega arith))

-- The work of a branch is the sum of its headers' proofs modulo 2 ^ 256, and a header that push
-- accepts adds its proof.
pub work-eq-sum :
    (proof : ℕ → ℕ) (b : HeaderBranch) (h : Header)
    → (work proof b ≡ sum_proofs proof b.headers % work_mod)
      × (work proof (push b h).0
          ≡ (if (push b h).1 then work_add (work proof b) (proof h.bits) else work proof b))
unfolding work push sum_proofs
work-eq-sum proof b h = (
  total,
  elim (Bool-cases (accepts b.headers h)) [
    | inl e ↦ rw e (omega (arith, work_from-eq proof 0 (h ∷ b.headers) (omega arith), total))
    | inr e ↦ rw e refl
  ],
)
  where
    total : work_from proof 0 b.headers ≡ sum_proofs proof b.headers % work_mod
    total = omega (arith, work_from-eq proof 0 b.headers (omega arith))
