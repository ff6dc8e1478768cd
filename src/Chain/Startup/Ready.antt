-- ===== src/Chain/Startup/Ready.antt =====
-- block_chain::start: on a complete store it succeeds, with the state in memory that the store has.
use libbitcoin_blockchain.Prelude.{
  ℕ, ◌<◌, ◌≤◌, ◌≡◌, refl, sym, ◌∙◌, subst, true, false, Option, none, some, min, work_mod,
}
use libbitcoin_blockchain.System.{ChainState}
use libbitcoin_blockchain.Chain.Database.{Database}
use libbitcoin_blockchain.Chain.Reader.{get_top_height, get_block_hash, get_work}
use libbitcoin_blockchain.Chain.Fork
use libbitcoin_blockchain.Chain.Fork.{
  ForkSearch, common, wrapped, Populated, IsFork, set_fork_point_lem, get_block_state, top_valid,
  top_valid_lem,
}
use libbitcoin_blockchain.Chain.Work.{Indexed, total_work, get_work-total}
use libbitcoin_blockchain.Chain.Writer.{BlockChain}
use libbitcoin_blockchain.Chain.Startup.{
  Env, started, store_fork_point, set_top_candidate_state, set_top_valid_candidate_state,
  set_next_confirmed_state, set_candidate_work, store_confirmed_work, start,
}

module _ (env : Env) where
  -- What the store has at a start: both indexes, with one genesis block that is valid, and the
  -- headers from which the states are populated.
  pub record IsStored (db : Database) (candidate_top confirmed_top : ℕ) : Type 0 where
    pub candidate : db.top true ≡ some candidate_top
    pub confirmed : db.top false ≡ some confirmed_top
    pub populated : Populated db (min candidate_top confirmed_top)
    pub genesis : get_block_hash db 0 true ≡ get_block_hash db 0 false
    pub valid : env.is_valid (get_block_state env.missing_state db 0 true) ≡ true
    pub top_state : (state : ChainState) × (env.populate_top db true ≡ some state)
    pub confirmed_state : (state : ChainState) × (env.populate_top db false ≡ some state)
    pub states :
        (height : ℕ)
        → height ≤ candidate_top
        → (state : ChainState) × (env.calls.populate db height true ≡ some state)
    pub indexed :
        (fork : ℕ) → Indexed db fork true candidate_top × Indexed db fork false confirmed_top
    pub fits :
        (fork : ℕ)
        → (total_work env.calls.proof db fork true candidate_top < work_mod)
          × (total_work env.calls.proof db fork false confirmed_top < work_mod)

  -- What is in memory after a start.
  pub record IsReady (db : Database) (candidate_top confirmed_top : ℕ) (s : BlockChain)
      : Type 0 where
    pub fork : IsFork db (min candidate_top confirmed_top) s.fork_point.0 s.fork_point.1
    pub candidate_work :
        s.candidate_work ≡ total_work env.calls.proof db s.fork_point.1 true candidate_top
    pub confirmed_work :
        s.confirmed_work ≡ total_work env.calls.proof db s.fork_point.1 false confirmed_top
    pub top_state : s.top_candidate_state ≡ env.populate_top db true
    pub valid_height : ℕ
    pub valid_state : s.top_valid_candidate_state ≡ env.calls.populate db valid_height true
    pub is_valid : env.is_valid (get_block_state env.missing_state db valid_height true) ≡ true
    pub none_above :
        (h : ℕ)
        → valid_height < h
        → h ≤ candidate_top
        → env.is_valid (get_block_state env.missing_state db h true) ≡ false
    pub next_state :
        (top : ChainState)
        → env.populate_top db false ≡ some top
        → s.next_confirmed_state ≡ some (env.calls.next_state top)

  abbrev next_of : Option ChainState → Option ChainState
  next_of none = none
  next_of (some top) = some (env.calls.next_state top)

  -- All steps succeed.
  start_steps :
      (s s1 s2 s3 s4 s5 s6 : BlockChain)
      → env.opens ≡ true
      → store_fork_point s ≡ started true s1
      → set_top_candidate_state env s1 ≡ started true s2
      → set_top_valid_candidate_state env s2 ≡ started true s3
      → set_next_confirmed_state env s3 ≡ started true s4
      → set_candidate_work env s4 ≡ started true s5
      → store_confirmed_work env s5 ≡ started true s6
      → start env s ≡ started env.organizers_start s6
  unfolding start
  start_steps s s1 s2 s3 s4 s5 s6 able e1 e2 e3 e4 e5 e6 = rw (able, e1, e2, e3, e4, e5, e6) refl

  top_valid_stored :
      (s : BlockChain) (top height : ℕ) (state : ChainState)
      → s.database.top true ≡ some top
      → top_valid env.is_valid env.missing_state s.database top ≡ some height
      → env.calls.populate s.database height true ≡ some state
      → set_top_valid_candidate_state env s
        ≡ started true (record s { top_valid_candidate_state = some state })
  unfolding set_top_valid_candidate_state get_top_height
  top_valid_stored s top height state e v w =
      rw (e, set_top_valid_candidate_state)
        (rw (v, set_top_valid_candidate_state) (rw (w, set_top_valid_candidate_state) refl))

  works_stored :
      (s : BlockChain) (candidate confirmed : ℕ)
      → get_work env.calls.proof s.database 0 s.fork_point.1 true ≡ some candidate
      → get_work env.calls.proof s.database 0 s.fork_point.1 false ≡ some confirmed
      → (set_candidate_work env s ≡ started true (record s { candidate_work = candidate }))
        × (store_confirmed_work env (record s { candidate_work = candidate })
            ≡ started true (record s { candidate_work = candidate; confirmed_work = confirmed }))
  unfolding set_candidate_work store_confirmed_work
  works_stored s candidate confirmed c f =
      (rw (c, set_candidate_work) refl, rw (f, store_confirmed_work) refl)

  states_stored :
      (s : BlockChain) (top next : ChainState)
      → env.populate_top s.database true ≡ some top
      → (set_top_candidate_state env s ≡ started true (record s { top_candidate_state = some top }))
        × ((r : BlockChain)
            → env.populate_top r.database false ≡ some next
            → set_next_confirmed_state env r
              ≡ started true (record r { next_confirmed_state = some (env.calls.next_state next) }))
  unfolding set_top_candidate_state set_next_confirmed_state
  states_stored s top next t = (rw t refl, λ r m. rw (m, set_next_confirmed_state) refl)

  -- On a store with both indexes over one valid genesis block, from which the states can be
  -- populated and whose work fits 256 bits, a start succeeds if the organizers start. It leaves the
  -- fork point at the highest height at which the indexes agree, the work of each index above it,
  -- the states of the top candidate and of the highest valid candidate, and the state after the
  -- confirmed top.
  pub start_lem :
      (s : BlockChain) (candidate_top confirmed_top : ℕ)
      → env.opens ≡ true
      → IsStored s.database candidate_top confirmed_top
      → (s' : BlockChain) × (start env s ≡ started env.organizers_start s')
        × IsReady s.database candidate_top confirmed_top s'
  unfolding start store_fork_point set_top_candidate_state set_top_valid_candidate_state
      set_next_confirmed_state set_candidate_work store_confirmed_work get_top_height
  start_lem s candidate_top confirmed_top able d =
      let db = s.database in
      let (hash, fork, e, is_fork) =
        set_fork_point_lem db candidate_top confirmed_top d.candidate d.confirmed d.populated
          d.genesis in
      let (valid, v, low, is_valid, above) =
        top_valid_lem env.is_valid env.missing_state db candidate_top d.valid in
      let (top, t) = d.top_state in
      let (next, n) = d.confirmed_state in
      let (state, w) = d.states valid low in
      let cw =
        get_work-total env.calls.proof db fork true candidate_top d.candidate (d.indexed fork).0
          (d.fits fork).0 in
      let fw =
        get_work-total env.calls.proof db fork false confirmed_top d.confirmed (d.indexed fork).1
          (d.fits fork).1 in
      go hash fork valid top next state e is_fork v is_valid above t n w cw fw
    where
      go :
          (hash fork valid : ℕ) (top next state : ChainState)
          → Fork.set_fork_point s.database ≡ some (common (some hash) fork)
          → IsFork s.database (min candidate_top confirmed_top) hash fork
          → top_valid env.is_valid env.missing_state s.database candidate_top ≡ some valid
          → env.is_valid (get_block_state env.missing_state s.database valid true) ≡ true
          → ((h : ℕ)
              → valid < h
              → h ≤ candidate_top
              → env.is_valid (get_block_state env.missing_state s.database h true) ≡ false)
          → env.populate_top s.database true ≡ some top
          → env.populate_top s.database false ≡ some next
          → env.calls.populate s.database valid true ≡ some state
          → get_work env.calls.proof s.database 0 fork true
            ≡ some (total_work env.calls.proof s.database fork true candidate_top)
          → get_work env.calls.proof s.database 0 fork false
            ≡ some (total_work env.calls.proof s.database fork false confirmed_top)
          → (s' : BlockChain) × (start env s ≡ started env.organizers_start s')
            × IsReady s.database candidate_top confirmed_top s'
      go hash fork valid top next state e is_fork v is_valid above t n w cw fw =
          let s1 : BlockChain = record s { fork_point = (hash, fork) } in
          let s2 : BlockChain = record s1 { top_candidate_state = some top } in
          let s3 : BlockChain = record s2 { top_valid_candidate_state = some state } in
          let s4 : BlockChain = record s3 {
            next_confirmed_state = some (env.calls.next_state next);
          } in
          let (e2, after) = states_stored s1 top next t in
          let e3 = top_valid_stored s2 candidate_top valid state d.candidate v w in
          let (e5, e6) =
            works_stored s4 (total_work env.calls.proof s.database fork true candidate_top)
              (total_work env.calls.proof s.database fork false confirmed_top) cw fw in
          (
            record s4 {
              candidate_work = total_work env.calls.proof s.database fork true candidate_top;
              confirmed_work = total_work env.calls.proof s.database fork false confirmed_top;
            },
            start_steps s s1 s2 s3 s4 _ _ able (rw e refl) e2 e3 (after s3 n) e5 e6,
            record {
              fork = is_fork;
              candidate_work = refl;
              confirmed_work = refl;
              top_state = rw t refl;
              valid_height = valid;
              valid_state = rw w refl;
              is_valid = is_valid;
              none_above = above;
              next_state = λ top' e'.
                  subst (λ o. some (env.calls.next_state next) ≡ next_of o) (sym n ∙ e') refl;
            },
          )
