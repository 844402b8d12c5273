-- ===== src/Server/Pairs/Operations.antt =====
-- Every request and task, as a step of `Server.Pairs`.
use mathlib.Core.Option.{none}
use capi_net.Base.{
  ℕ, ◌+◌, ◌≡◌, refl, inl, inr, Bool, ◌&&◌, ◌||◌, List, [], ◌∷◌, Option, some, arith, ◌==◌,
  Bool-cases, Option-cases, any, select, String, >>=-eq-some, some_inj, subst, ap,
}
use capi_net.Base.Int.{ℤ}
use capi_net.Server.Types.{TestSpec, is_queued, is_running, is_validating, PairReport, GameReport}
use capi_net.Server.Schema.{TestRow, Db, Services, test_by_id, ClientRegistration}
use capi_net.Server.Lifecycle.{refresh_test}
use capi_net.Server.Sanity.{GameVerdict}
use capi_net.Server.Clients.{register_client, heartbeat}
use capi_net.Server.Admin.{
  insert_test, insert_row, char_n, stop_test, stop_live, is_live, set_priority,
}
use capi_net.Server.Smoke.{
  SmokeReport, smoke_ok, queue_test, insert_positions, insert_pairs, set_test, enqueue_test,
  conclude_smoke,
}
use capi_net.Server.Queue.Submit.{submit_result, insert_game, SubmitResult}
use capi_net.Server.Queue.Leases.{recover_expired_leases, LeaseRecovery, refresh_all}
use capi_net.Server.Queue.Submit.Cases.{submit-cases}
use capi_net.Server.Lifecycle.Frame.{
  promote-Frame, refresh_test-Frame, Frame, Frame-refl, Frame-trans, Frame-tests,
}
use capi_net.Server.Pairs.{PairsAdvance, PairsAdvance-trans, PairsAdvance-same}
use capi_net.Server.Pairs.Steps.{close-PairsAdvance, sweep-PairsAdvance, insert_pairs-PairsAdvance}

module _ {F : Type 0} where
  pub Frame-PairsAdvance : {db db' : Db F} → Frame db db' → PairsAdvance db db'
  Frame-PairsAdvance {db} {db'} f = PairsAdvance-same db db' f.pairs f.next_pair

  pub register-PairsAdvance :
      (now : ℕ) (reg : ClientRegistration) (db : Db F)
      → PairsAdvance db (register_client now reg db).1
  unfolding register_client
  register-PairsAdvance now reg db = PairsAdvance-same db _ (ground arith) (ground arith)

  pub heartbeat-PairsAdvance :
      (now k : ℕ) (f : Option ℕ) (db : Db F) → PairsAdvance db (heartbeat now k f db).1
  unfolding heartbeat
  heartbeat-PairsAdvance now k f db = PairsAdvance-same db _ (ground arith) (ground arith)

  insert_game-PairsAdvance :
      (gzip : String → String) (p k c : ℕ) (g : GameReport) (v : GameVerdict) (db : Db F)
      {db' : Db F}
      → insert_game gzip p k c g v db ≡ some db'
      → PairsAdvance db db'
  unfolding insert_game
  insert_game-PairsAdvance gzip p k c g v db h =
      PairsAdvance-same db _ (ground arith) (ground arith)

  stop_live-Frame : (now : ℕ) (t : TestRow F) (db : Db F) → Frame db (stop_live now t db).1
  unfolding stop_live
  stop_live-Frame now t db = elim (Bool-cases (is_running t.status)) [
    | inl r ↦ rw r (Frame-trans db _ _ (Frame-tests db) (promote-Frame now _))
    | inr r ↦ rw r (Frame-tests db)
  ]

  pub stop_test-Frame : (now k : ℕ) (db : Db F) → Frame db (stop_test now k db).1
  unfolding stop_test
  stop_test-Frame now k db = elim (Option-cases (test_by_id k db)) [
    | inl e ↦ rw (e, stop_test) (Frame-refl db)
    | inr (t, e) ↦ elim (Bool-cases (is_live t.status)) [
      | inl h ↦ rw (e, stop_test) (rw h (stop_live-Frame now t db))
      | inr h ↦ rw (e, stop_test) (rw h (Frame-refl db))
    ]
  ]

  pub set_priority-Frame : (k : ℕ) (p : ℤ) (db : Db F) → Frame db (set_priority k p db).1
  unfolding set_priority
  set_priority-Frame k p db = elim (Option-cases (test_by_id k db)) [
    | inl e ↦ rw (e, set_priority) (Frame-refl db)
    | inr (t, e) ↦ elim (Bool-cases (is_validating t.status || is_queued t.status)) [
      | inl h ↦ rw (e, set_priority) (rw h (Frame-tests db))
      | inr h ↦ rw (e, set_priority) (rw h (Frame-refl db))
    ]
  ]

  insert_positions-PairsAdvance :
      (k seq : ℕ) (fens : List String) (db : Db F) {db' : Db F}
      → insert_positions k seq fens db ≡ some db'
      → PairsAdvance db db'
  unfolding insert_positions
  insert_positions-PairsAdvance k seq [] db h =
      subst (PairsAdvance db) (some_inj h) (PairsAdvance-same db db refl refl)
  insert_positions-PairsAdvance k seq (fen ∷ fens) db {db'} h =
      elim (Bool-cases (any (λ o. o.test_id == k && o.seq == seq) db.positions)) [
        | inl e ↦ absurd (ground arith)
        | inr e ↦
            PairsAdvance-trans db _ db' (PairsAdvance-same db _ refl refl)
              (insert_positions-PairsAdvance k (seq + 1) fens _ (rw e at h))
      ]

module _ {F : Type 0} (sv : Services F) where
  pub submit-PairsAdvance :
      (now p : ℕ) (r : PairReport) (db : Db F) {x : SubmitResult × Db F}
      → submit_result sv now p r db ≡ some x
      → PairsAdvance db x.1
  submit-PairsAdvance now p r db {x} h = elim (submit-cases sv now p r db h) [
    | inl no_change ↦
        PairsAdvance-same db x.1 (ap (λ d. d.pairs) no_change.unchanged)
          (ap (λ d. d.next_pair) no_change.unchanged)
    | inr s ↦
        PairsAdvance-trans db s.closed x.1 (close-PairsAdvance now p r.client_id db s.closes) (
          PairsAdvance-trans s.closed s.one x.1
            (insert_game-PairsAdvance _ _ _ _ _ _ s.closed s.first)
            (PairsAdvance-trans s.one s.two x.1
              (insert_game-PairsAdvance _ _ _ _ _ _ s.one s.second)
              (Frame-PairsAdvance (refresh_test-Frame sv now s.pair.test_id s.two s.refreshed))))
  ]

  pub refresh_all-Frame :
      (now : ℕ) (ks : List ℕ) (db : Db F) {db' : Db F}
      → refresh_all sv now ks db ≡ some db'
      → Frame db db'
  unfolding refresh_all
  refresh_all-Frame now [] db h = subst (Frame db) (some_inj h) (Frame-refl db)
  refresh_all-Frame now (k ∷ ks) db {db'} h =
      let (next, e, h1) = >>=-eq-some (refresh_test sv now k db) _ h in
      Frame-trans db next db' (refresh_test-Frame sv now k db e) (refresh_all-Frame now ks next h1)

  pub recover-PairsAdvance :
      (now : ℕ) (locked : ℕ → Bool) (n : ℕ) (db : Db F) {x : LeaseRecovery × Db F}
      → recover_expired_leases sv now locked n db ≡ some x
      → PairsAdvance db x.1
  unfolding recover_expired_leases
  recover-PairsAdvance now locked n db {x} h =
      let (done, e, h1) = >>=-eq-some (refresh_all sv now _ _) _ h in
      let last = some_inj h1 in
      rw (← last) (
        PairsAdvance-trans db _ done (sweep-PairsAdvance now locked n db)
          (Frame-PairsAdvance (refresh_all-Frame now _ _ e)))

  insert_row-PairsAdvance :
      (now : ℕ) (s : TestSpec F) (o p : Option String) (db : Db F) {x : ℕ × Db F}
      → insert_row sv now s o p db ≡ some x
      → PairsAdvance db x.1
  insert_row-PairsAdvance now s none p db h = cc
  insert_row-PairsAdvance now s (some a) none db h = cc
  insert_row-PairsAdvance now s (some a) (some b) db {x} h =
      PairsAdvance-same db x.1 (ground arith) (ground arith)

  pub insert_test-PairsAdvance :
      (now : ℕ) (s : TestSpec F) (a b : String) (db : Db F) {x : ℕ × Db F}
      → insert_test sv now s a b db ≡ some x
      → PairsAdvance db x.1
  unfolding insert_test
  insert_test-PairsAdvance now s a b db h =
      insert_row-PairsAdvance now s (char_n 40 a) (char_n 40 b) db h

  enqueue-PairsAdvance :
      (now k : ℕ) (r : SmokeReport) (db : Db F) {db' : Db F}
      → enqueue_test sv now k r db ≡ some db'
      → PairsAdvance db db'
  unfolding enqueue_test
  enqueue-PairsAdvance now k r db {db'} h =
      let (one, e1, h1) = >>=-eq-some (insert_positions k 1 r.positions db) _ h in
      let (two, e2, h2) =
        >>=-eq-some (insert_pairs r.dispatch (select (λ o. o.test_id == k) one.positions) one) _
          h1 in
      let (three, e3, h3) =
        >>=-eq-some (refresh_test sv now k (set_test (queue_test r.log) k two)) _ h2 in
      PairsAdvance-trans db one db' (insert_positions-PairsAdvance _ _ _ db e1) (
        PairsAdvance-trans one two db' (insert_pairs-PairsAdvance _ _ one e2) (
          Frame-PairsAdvance (
            Frame-trans two _ db' (Frame-tests two) (
              Frame-trans _ three db' (refresh_test-Frame sv now k _ e3)
                (subst (Frame three) (some_inj h3) (promote-Frame now three))))))

  pub conclude_smoke-PairsAdvance :
      (now : ℕ) (started : TestRow F) (r : SmokeReport) (db : Db F) {db' : Db F}
      → conclude_smoke sv now started r db ≡ some db'
      → PairsAdvance db db'
  unfolding conclude_smoke
  conclude_smoke-PairsAdvance now started r db {db'} h =
      let (t, e, h1) = >>=-eq-some (test_by_id started.id db) _ h in
      elim (Bool-cases (is_validating t.status)) [
        | inr v ↦
            subst (PairsAdvance db) (some_inj (rw v at h1)) (PairsAdvance-same db db refl refl)
        | inl v ↦ elim (Bool-cases (smoke_ok started.spec.total_pairs r)) [
          | inr k ↦
              subst (PairsAdvance db) (some_inj (rw (v, k) at h1))
                (Frame-PairsAdvance (Frame-tests db))
          | inl k ↦ enqueue-PairsAdvance now started.id r db {db' = db'} (rw (v, k) at h1)
        ]
      ]
