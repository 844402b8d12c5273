-- ===== src/Server/Evolution/Transactions.antt =====
-- Every transaction of the server, as a step of `Server.Evolution`, and whole histories.
use mathlib.Core.Option.{none}
use capi_net.Base.{
  ℕ, ◌≡◌, refl, inl, inr, Bool, List, [], ◌∷◌, Option, some, arith, Bool-cases, Option-cases,
  String, ◌>>=◌, >>=-eq-some, some_inj, subst, ap,
}
use capi_net.Server.Types.{TestSpec, PairReport, GameReport}
use capi_net.Server.Schema.{TestRow, Db, Services, ClientRow, PairRow, ClientRegistration}
use capi_net.Server.Lifecycle.{refresh_test}
use capi_net.Server.Sanity.{GameVerdict}
use capi_net.Server.Clients.{register_client, heartbeat}
use capi_net.Server.Admin.{insert_test, insert_row, new_test, row_checks, char_n}
use capi_net.Server.Queue.Claim.{claim_pairs, hand_out, running_test, caller}
use capi_net.Server.Queue.Submit.{submit_result, insert_game, close_pair, SubmitResult}
use capi_net.Server.Queue.Leases.{abandon_pair, recover_expired_leases, LeaseRecovery, refresh_all}
use capi_net.Server.Evolution.{here, TestsInv, TestsExtend, Advances, Advances-trans, Advances-same}
use capi_net.Server.Evolution.Steps.{promote-Advances, refresh_test-Advances}
use capi_net.Server.System.{
  Config, Event, registers, beats, claims, submits, abandons, creates, stops, reorders, concludes,
  recovers, promotes, transact, step, run,
}
use capi_net.Server.Queue.Submit.Cases.{submit-cases}
use capi_net.Server.Evolution.Requests.{
  stop_test-Advances, set_priority-Advances, add_test-Advances,
}
use capi_net.Server.Evolution.SmokeTest.{conclude_smoke-Advances}

module _ {F : Type 0} where
  hand_out-Advances :
      (now ttl client_id : ℕ) (t : TestRow F) (c : ClientRow) (rows : List PairRow) (db : Db F)
      → Advances db (hand_out now ttl client_id t c rows db).1
  unfolding hand_out
  hand_out-Advances now ttl client_id t c rows db = Advances-same db _ refl refl

  claim-Advances :
      (now ttl : ℕ) (locked : ℕ → Bool) (client_id n : ℕ) (db : Db F)
      → Advances db (claim_pairs now ttl locked client_id n db).1
  unfolding claim_pairs
  claim-Advances now ttl locked client_id n db = elim (Option-cases (running_test db)) [
    | inl e ↦ rw (e, claim_pairs) (Advances-same db db refl refl)
    | inr (t, e) ↦ elim (Option-cases (caller client_id db)) [
      | inl d ↦ rw (e, claim_pairs) (rw d (Advances-same db db refl refl))
      | inr (c, d) ↦ rw (e, claim_pairs) (rw d (hand_out-Advances now ttl client_id t c _ db))
    ]
  ]

  register-Advances :
      (now : ℕ) (reg : ClientRegistration) (db : Db F) → Advances db (register_client now reg db).1
  unfolding register_client
  register-Advances now reg db = Advances-same db _ (ground arith) (ground arith)

  heartbeat-Advances : (now k : ℕ) (f : Option ℕ) (db : Db F) → Advances db (heartbeat now k f db).1
  unfolding heartbeat
  heartbeat-Advances now k f db = Advances-same db _ (ground arith) (ground arith)

  insert_game-Advances :
      (gzip : String → String) (p k c : ℕ) (g : GameReport) (v : GameVerdict) (db : Db F)
      {db' : Db F}
      → insert_game gzip p k c g v db ≡ some db'
      → Advances db db'
  unfolding insert_game
  insert_game-Advances gzip p k c g v db h = Advances-same db _ (ground arith) (ground arith)

  abandon-Advances : (p c : ℕ) (db : Db F) → Advances db (abandon_pair p c db).1
  unfolding abandon_pair
  abandon-Advances p c db = Advances-same db _ refl refl

  close-Advances :
      (now p c : ℕ) (db : Db F) {db' : Db F} → close_pair now p c db ≡ some db' → Advances db db'
  unfolding close_pair
  close-Advances now p c db h = Advances-same db _ (ground arith) (ground arith)

module _ {F : Type 0} (sv : Services F) where
  submit-Advances :
      (now p : ℕ) (r : PairReport) (db : Db F) {x : SubmitResult × Db F}
      → submit_result sv now p r db ≡ some x
      → Advances db x.1
  submit-Advances now p r db {x} h = elim (submit-cases sv now p r db h) [
    | inl no_change ↦
        Advances-same db x.1 (ap (λ d. d.tests) no_change.unchanged)
          (ap (λ d. d.next_test) no_change.unchanged)
    | inr s ↦ Advances-trans db s.closed x.1 (close-Advances now p r.client_id db s.closes) (
        Advances-trans s.closed s.one x.1 (insert_game-Advances _ _ _ _ _ _ s.closed s.first) (
          Advances-trans s.one s.two x.1 (insert_game-Advances _ _ _ _ _ _ s.one s.second)
            (refresh_test-Advances sv now s.pair.test_id s.two s.refreshed)))
  ]

  refresh_all-Advances :
      (now : ℕ) (ks : List ℕ) (db : Db F) {db' : Db F}
      → refresh_all sv now ks db ≡ some db'
      → Advances db db'
  unfolding refresh_all
  refresh_all-Advances now [] db h =
      subst (Advances db) (some_inj h) (Advances-same db db refl refl)
  refresh_all-Advances now (k ∷ ks) db {db'} h =
      let (next, e, h1) = >>=-eq-some (refresh_test sv now k db) _ h in
      Advances-trans db next db' (refresh_test-Advances sv now k db e)
        (refresh_all-Advances now ks next h1)

  recover-Advances :
      (now : ℕ) (locked : ℕ → Bool) (n : ℕ) (db : Db F) {x : LeaseRecovery × Db F}
      → recover_expired_leases sv now locked n db ≡ some x
      → Advances db x.1
  unfolding recover_expired_leases
  recover-Advances now locked n db {x} h =
      let (done, e, h1) = >>=-eq-some (refresh_all sv now _ _) _ h in
      let last = some_inj h1 in
      rw (← last)
        (Advances-trans db _ done (Advances-same db _ refl refl) (refresh_all-Advances now _ _ e))

  insert_row-Advances :
      (now : ℕ) (s : TestSpec F) (o p : Option String) (db : Db F) {x : ℕ × Db F}
      → insert_row sv now s o p db ≡ some x
      → Advances db x.1
  insert_row-Advances now s none p db h = cc
  insert_row-Advances now s (some a) none db h = cc
  insert_row-Advances now s (some a) (some b) db {x} h = elim (Bool-cases (row_checks sv s a b)) [
    | inl e ↦
        let last = some_inj (rw e at h) in
        rw (← last) (add_test-Advances (new_test sv now db.next_test s a b) db refl here refl refl)
    | inr e ↦ absurd (ground arith)
  ]

  insert_test-Advances :
      (now : ℕ) (s : TestSpec F) (a b : String) (db : Db F) {x : ℕ × Db F}
      → insert_test sv now s a b db ≡ some x
      → Advances db x.1
  unfolding insert_test
  insert_test-Advances now s a b db h = insert_row-Advances now s (char_n 40 a) (char_n 40 b) db h

module _ {F : Type 0} (sv : Services F) (cfg : Config) where
  chained :
      {A : Type 0} (m : Option (A × Db F)) {db' : Db F}
      → (m >>= λ x. some x.1) ≡ some db'
      → (x : A × Db F) × (m ≡ some x) × (x.1 ≡ db')
  chained m h = let (x, e, h1) = >>=-eq-some m _ h in (x, e, some_inj h1)

  transact-Advances :
      (now : ℕ) (e : Event F) (db : Db F) {db' : Db F}
      → transact sv cfg now e db ≡ some db'
      → Advances db db'
  unfolding transact
  transact-Advances now (registers reg) db h = rw (← some_inj h) (register-Advances now reg db)
  transact-Advances now (beats k f) db h = rw (← some_inj h) (heartbeat-Advances now k f db)
  transact-Advances now (claims locked k n) db h =
      rw (← some_inj h) (claim-Advances now cfg.lease_ttl_min locked k n db)
  transact-Advances now (submits p r) db h =
      let (x, e, last) = chained (submit_result sv now p r db) h in
      rw (← last) (submit-Advances sv now p r db e)
  transact-Advances now (abandons p k) db h = rw (← some_inj h) (abandon-Advances p k db)
  transact-Advances now (creates s a b) db h =
      let (x, e, last) = chained (insert_test sv now s a b db) h in
      rw (← last) (insert_test-Advances sv now s a b db e)
  transact-Advances now (stops k) db h = rw (← some_inj h) (stop_test-Advances now k db)
  transact-Advances now (reorders k p) db h = rw (← some_inj h) (set_priority-Advances k p db)
  transact-Advances now (concludes t r) db h = conclude_smoke-Advances sv now t r db h
  transact-Advances now (recovers locked) db h =
      let (x, e, last) = chained (recover_expired_leases sv now locked cfg.max_attempts db) h in
      rw (← last) (recover-Advances sv now locked cfg.max_attempts db e)
  transact-Advances now promotes db h = rw (← some_inj h) (promote-Advances now db)

  step-Advances : (e : ℕ × Event F) (db : Db F) → Advances db (step sv cfg e db)
  unfolding step
  step-Advances (now, e) db = elim (Option-cases (transact sv cfg now e db)) [
    | inl n ↦ rw n (Advances-same db db refl refl)
    | inr (db', s) ↦ rw s (transact-Advances now e db s)
  ]

  run-Advances : (es : List (ℕ × Event F)) (db : Db F) → Advances db (run sv cfg es db)
  unfolding run
  run-Advances [] db = Advances-same db db refl refl
  run-Advances (e ∷ es) db =
      Advances-trans db _ _ (step-Advances e db) (run-Advances es (step sv cfg e db))

  -- Whatever requests and periodic tasks the server serves, in whatever order and with whatever
  -- failed transactions: from a state where test ids are distinct and below the next id, at most
  -- one test runs, and a test has a result exactly when it is finished, the same holds in the state
  -- reached.
  pub run-TestsInv :
      (es : List (ℕ × Event F)) (db : Db F) → TestsInv db → TestsInv (run sv cfg es db)
  run-TestsInv es db i = (run-Advances es db i).0

  -- From a state whose tests meet the invariant, a history loses no test: each keeps its place, id,
  -- specification but for the priority, and commits, its priority too once it no longer waits, and
  -- its status moves only along the diagram from validating to queued to running to finished, or
  -- out to invalid and stopped; each test that is added reached its status from validating.
  pub run-TestsExtend :
      (es : List (ℕ × Event F)) (db : Db F) → TestsInv db → TestsExtend db (run sv cfg es db)
  run-TestsExtend es db i = (run-Advances es db i).1
