-- ===== src/Pools/BlockPool/Steps/Kept.antt =====
-- block_pool: the sections that write or take blocks, against what the pool promises of them.
use libbitcoin_blockchain.Prelude.{
  ℕ, ◌≡◌, refl, ◌||◌, false, List, [], ◌∷◌, arith, ◌==◌, if◌then◌else◌, size_add, Option-cases, inl,
  inr,
}
use libbitcoin_blockchain.System.{Block}
use libbitcoin_blockchain.Pools.BlockPool.{
  BlockPool, Cached, find, insert, insert_all, purge, is_cached, has_hash, insert_section,
  insert_all_section, purge_section, take_section,
}
use libbitcoin_blockchain.Pools.BlockPool.Cache.{
  IsCache, find-erase, find-insert, find-purge, has_hash-erase, has_hash-place, erase-IsCache,
}
use libbitcoin_blockchain.Pools.BlockPool.Steps.{view, Promise, Puts, PutsAll, purging, taking}

has_hash-insert :
    (b : Block) (height x : ℕ) (cached : List Cached)
    → has_hash x (insert b height cached) ≡ (
        if has_hash b.header.hash cached || is_cached (find height cached)
        then has_hash x cached
        else b.header.hash == x || has_hash x cached)
unfolding insert
has_hash-insert b height x cached = ground (
  arith,
  has_hash-place x (record { entry = record { hash = b.header.hash; block = b }; height = height })
      cached,
)

has_hash-purge :
    (x fork : ℕ) (cached : List Cached)
    → has_hash x cached ≡ false
    → has_hash x (purge fork cached) ≡ false
unfolding has_hash purge
has_hash-purge x fork [] e = refl
has_hash-purge x fork (c ∷ rest) e = ground (arith, has_hash-purge x fork rest)

pub insert-Puts :
    (p : BlockPool) (b : Block) (height : ℕ)
    → Puts b height (view p) (view (insert_section p b height))
insert-Puts p b height = (
  λ k. ground (arith, find-insert k b height p.blocks),
  λ x. ground (arith, has_hash-insert b height x p.blocks),
)

pub insert_all-PutsAll :
    (bs : List Block) (p : BlockPool) (height : ℕ)
    → PutsAll bs height (view p) (view (insert_all_section p bs height))
unfolding insert_all
insert_all-PutsAll [] p height = ((λ k. refl), (λ x. refl))
insert_all-PutsAll (b ∷ bs) p height = (
  view (insert_section p b height),
  insert-Puts p b height,
  insert_all-PutsAll bs (insert_section p b height) (size_add height 1),
)

pub purge-Promise :
    (p : BlockPool) (fork : ℕ)
    → IsCache p.blocks
    → Promise (purging fork) (view p) (view (purge_section fork p))
purge-Promise p fork c = (
  ((λ k. find-purge k fork 0 p.blocks c.ascends), (λ x e. has_hash-purge x fork p.blocks e)),
  (λ k. refl),
)

pub take-Promise :
    (p : BlockPool) (height : ℕ)
    → IsCache p.blocks
    → IsCache (take_section p height).0.blocks
      × Promise (taking height (take_section p height).1) (view p) (view (take_section p height).0)
unfolding take_section
take-Promise p height c = elim (Option-cases (find height p.blocks)) [
  | inl absent ↦
      rw (absent, take_section)
        (c, (refl, ((λ k. ground (arith, absent)), (λ x e. e)), (λ k. refl)))
  | inr (b, found) ↦
      rw (found, take_section)
        (
          erase-IsCache height p.blocks c,
          (
            refl,
            (
              (λ k. find-erase k height 0 p.blocks c.ascends),
              (λ x e. has_hash-erase x height p.blocks e),
            ),
            (λ k. refl),
          ),
        )
]
