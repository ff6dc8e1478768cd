-- ===== src/Chain/Writer/Laws.antt =====
-- block_chain.cpp, the writers: the state in memory after success and after failure.
use libbitcoin_blockchain.Prelude.{
  ℕ, suc, ◌≡◌, refl, ap, subst, true, false, some, List, [], ◌∷◌, ◌++◌, arith, ltb, if◌then◌else◌,
  map, Bool-cases, Option-cases, inl, inr, length,
}
use libbitcoin_blockchain.System.{Header, Code, ChainState, success, operation_failed, is_error}
use libbitcoin_blockchain.Chain.Database.{Database}
use libbitcoin_blockchain.Chain.Reader.{get_work}
use libbitcoin_blockchain.Pools.HeaderPool
use libbitcoin_blockchain.Pools.HeaderPool.{HeaderPool, Pruned, pruned, Nodes, remove, prune}
use libbitcoin_blockchain.Pools.HeaderPool.Table.{IsTable}
use libbitcoin_blockchain.Pools.HeaderPool.Links.{IsTidy}
use libbitcoin_blockchain.Pools.HeaderPool.Writers.{remove-IsTable}
use libbitcoin_blockchain.Pools.HeaderPool.Pruning.{prune_lem, IsPruned}
use libbitcoin_blockchain.Chain.Writer.{
  HeaderRef, BlockChain, Calls, Outcome, headers_changed, done, undefined, last, set_confirmed_work,
  lower_fork_point, finish_headers, after_headers, reorganize_headers,
}

-- The state in memory is as before, beside the database.
abbrev pub Unchanged : BlockChain → BlockChain → Type 0
Unchanged s s' = s' ≡ record s { database = s'.database }

abbrev pub headers_of : List HeaderRef → List Header
headers_of = map (λ x. x.header)

module _ (calls : Calls) where
  fork-set_confirmed_work :
      (s : BlockChain) → (set_confirmed_work calls s).fork_point ≡ s.fork_point
  unfolding set_confirmed_work
  fork-set_confirmed_work s =
      elim (Option-cases (get_work calls.proof s.database 0 s.fork_point.1 false)) [
        | inl e ↦ rw (e, set_confirmed_work) refl
        | inr (w, e) ↦ rw (e, set_confirmed_work) refl
      ]

  pool-set_confirmed_work :
      (s : BlockChain) → (set_confirmed_work calls s).header_pool ≡ s.header_pool
  unfolding set_confirmed_work
  pool-set_confirmed_work s =
      elim (Option-cases (get_work calls.proof s.database 0 s.fork_point.1 false)) [
        | inl e ↦ rw (e, set_confirmed_work) refl
        | inr (w, e) ↦ rw (e, set_confirmed_work) refl
      ]

  pool-lower :
      (s : BlockChain) (fork : ℕ × ℕ)
      → (lower_fork_point calls s fork).header_pool.headers ≡ s.header_pool.headers
  unfolding lower_fork_point
  pool-lower s fork = ap (λ p. p.headers) (pool-set_confirmed_work (record s { fork_point = fork }))

  fork-lower : (s : BlockChain) (fork : ℕ × ℕ) → (lower_fork_point calls s fork).fork_point ≡ fork
  unfolding lower_fork_point
  fork-lower s fork = fork-set_confirmed_work (record s { fork_point = fork })

  finish_headers_lem :
      (s : BlockChain) (fork : ℕ × ℕ) (incoming outgoing : List Header) (state : ChainState)
      (nodes : Nodes)
      → (s' : BlockChain) × (finish_headers calls s fork incoming outgoing state (pruned nodes)
          ≡ done success s')
        × (s'.fork_point ≡ (if ltb fork.1 s.fork_point.1 then fork else s.fork_point))
        × (s'.top_candidate_state ≡ some state)
        × (s'.header_pool.headers ≡ nodes)
  unfolding finish_headers lower_fork_point set_confirmed_work
  finish_headers_lem s fork incoming outgoing state nodes =
      let s1 : BlockChain = record s { header_pool = record s.header_pool { headers = nodes } } in
      elim (Bool-cases (ltb fork.1 s.fork_point.1)) [
        | inl low ↦
            let s2 : BlockChain = lower_fork_point calls s1 fork in
            (
              record s2 {
                top_candidate_state = some state;
                notified = s2.notified ++ headers_changed fork.1 incoming outgoing ∷ [];
              },
              rw low refl,
              rw low (fork-lower s1 fork),
              refl,
              pool-lower s1 fork,
            )
        | inr high ↦ (
          record s1 {
            top_candidate_state = some state;
            notified = s.notified ++ headers_changed fork.1 incoming outgoing ∷ [];
          },
          rw high refl,
          rw high refl,
          refl,
          refl,
        )
      ]

  -- Once the database has reorganized the candidate index, a header reorganization succeeds,
  -- provided the header pool is a table and its child links are tidy without the new candidates.
  -- The fork point becomes the lower of itself and the fork of the reorganization, the top
  -- candidate state is that of the last header, and the pool is pruned below its height.
  pub reorganize_headers_lem :
      (s : BlockChain) (fork : ℕ × ℕ) (h : HeaderRef) (rest : List HeaderRef) (state : ChainState)
      (db : Database) (outgoing : List Header)
      → (last h rest).state ≡ some state
      → calls.reorganize_headers s.database fork (headers_of (h ∷ rest)) ≡ (success, db, outgoing)
      → IsTable s.header_pool.headers
      → IsTidy (remove s.header_pool (headers_of (h ∷ rest))).headers
      → (s' : BlockChain) × (reorganize_headers calls s fork (h ∷ rest) ≡ done success s')
        × (s'.fork_point ≡ (if ltb fork.1 s.fork_point.1 then fork else s.fork_point))
        × (s'.top_candidate_state ≡ some state)
        × IsPruned
            (calls.floor_subtract state.height
              (remove s.header_pool (headers_of (h ∷ rest))).maximum_depth)
            (remove s.header_pool (headers_of (h ∷ rest))).headers
            s'.header_pool.headers
  unfolding reorganize_headers HeaderPool.size
  reorganize_headers_lem s fork h rest state db outgoing top written table tidy =
      let incoming = map (λ x. x.header) (h ∷ rest) in
      let pool = remove s.header_pool incoming in
      let (nodes, e, good) =
        prune_lem calls.floor_subtract (suc (length pool.headers)) pool state.height
          (remove-IsTable s.header_pool incoming table) tidy (omega arith) in
      let (s', f, low, at, same) =
        finish_headers_lem (record s { database = db; header_pool = pool }) fork incoming outgoing
          state nodes in
      (
        s',
        rw (top, reorganize_headers)
            (rw (written, reorganize_headers) (rw (e, reorganize_headers) f)),
        low,
        at,
        rw same good,
      )

  code_of : Outcome → Code → Code
  code_of (done ec s) other = ec
  code_of undefined other = other

  state_of : Outcome → BlockChain → BlockChain
  state_of (done ec s) other = s
  state_of undefined other = other

  done-state : {a b : Code} {s t : BlockChain} → done a s ≡ done b t → s ≡ t
  unfolding state_of
  done-state {s = s} e = ap (λ o. state_of o s) e

  done-code : {a b : Code} {s t : BlockChain} → done a s ≡ done b t → a ≡ b
  unfolding code_of
  done-code {a = a} e = ap (λ o. code_of o a) e

  keeps :
      (s t s' : BlockChain) (ec ec' : Code)
      → Unchanged s t
      → done ec t ≡ done ec' s'
      → Unchanged s s'
  keeps s t s' ec ec' u e = subst (Unchanged s) (done-state e) u

  finish_headers-code :
      (s : BlockChain) (fork : ℕ × ℕ) (incoming outgoing : List Header) (state : ChainState)
      (o : Pruned) (ec : Code) (s' : BlockChain)
      → finish_headers calls s fork incoming outgoing state o ≡ done ec s'
      → success ≡ ec
  unfolding finish_headers
  finish_headers-code s fork incoming outgoing state (pruned nodes) ec s' e = done-code e
  finish_headers-code s fork incoming outgoing state Pruned.fault ec s' e = cc
  finish_headers-code s fork incoming outgoing state Pruned.out_of_fuel ec s' e = cc

  -- A header reorganization that ends in an error has changed nothing in memory: not the fork
  -- point, the work, the chain states, the cached block, the header pool or the block pool, nor have
  -- subscribers been notified.
  pub reorganize_headers_fails :
      (s : BlockChain) (fork : ℕ × ℕ) (hs : List HeaderRef) (ec : Code) (s' : BlockChain)
      → reorganize_headers calls s fork hs ≡ done ec s'
      → is_error ec ≡ true
      → Unchanged s s'
  unfolding reorganize_headers after_headers
  reorganize_headers_fails s fork [] ec s' e bad = keeps s s s' operation_failed ec refl e
  reorganize_headers_fails s fork (h ∷ rest) ec s' e bad = elim (Option-cases (last h rest).state) [
    | inl n ↦ keeps s s s' operation_failed ec refl (rw (n, reorganize_headers) at e)
    | inr (state, n) ↦
        let incoming = map (λ x. x.header) (h ∷ rest) in
        let pool = remove s.header_pool incoming in
        let (ec0, db, out) = calls.reorganize_headers s.database fork incoming in
        elim (Bool-cases (is_error ec0)) [
          | inl failed ↦
              keeps s (record s { database = db }) s' ec0 ec refl
                (rw failed at (rw (n, reorganize_headers) at e))
          | inr fine ↦
              let e' = rw fine at (rw (n, reorganize_headers) at e) in
              let same : success ≡ ec =
                finish_headers-code (record s { database = db; header_pool = pool }) fork incoming
                  out state
                  (prune calls.floor_subtract (suc (HeaderPool.size pool)) pool state.height) ec s'
                  e' in
              absurd (ground (arith, same))
        ]
  ]
