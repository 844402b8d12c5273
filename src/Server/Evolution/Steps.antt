-- ===== src/Server/Evolution/Steps.antt =====
-- Each operation on the table of tests, as a step of `Server.Evolution`.
use capi_net.Base.{
  ℕ, ◌≡◌, refl, sym, inl, inr, true, false, Option, some, arith, ◌==◌, if◌then◌else◌, All, All-impl,
  Bool-cases, Option-cases, All-at_key, Distinct-unique, count-update_key, find_first-key,
  >>=-eq-some, some_inj, subst,
}
use capi_net.Server.Penta.{Pentanomial}
use capi_net.Server.Types.{
  TestStatus, validating, queued, running, finished, stopped, TestResult, is_queued, is_running,
}
use capi_net.Server.Schema.{
  TestRow, Db, Services, EloEstimate, test_by_id, SprtDecision, accept_h0, accept_h1, keep_going,
}
use capi_net.Server.Lifecycle.{
  promote_next_test, next_queued, start_test, finish_test, set_finished, stop_rule, refresh_row,
  refresh_test, store_stats, SprtState, remaining_pairs, read_penta, elo_state, sprt_state,
}
use capi_net.Server.Lifecycle.Promotion.{next_queued-IsNext, next_queued-All}
use capi_net.Server.Admin.{is_live}
use capi_net.Server.Evolution.{
  Edge, promote, finish, stop_validating, stop_queued, stop_running, here, follow, Allowed,
  TestsInv, Advances, Advances-trans, Advances-same, update-Advances, update_calm-Advances,
  is_undecided,
}

queued-Edge : (s : TestStatus) → is_queued s ≡ true → Edge s running
queued-Edge queued h = promote
queued-Edge _ h = absurd (ground arith)

running-Edge : (s : TestStatus) → is_running s ≡ true → Edge s finished
running-Edge running h = finish
running-Edge _ h = absurd (ground arith)

pub live-Edge : (s : TestStatus) → is_live s ≡ true → Edge s stopped
live-Edge validating h = stop_validating
live-Edge queued h = stop_queued
live-Edge running h = stop_running
live-Edge _ h = absurd (ground arith)

module _ {F : Type 0} where
  -- The row found under an id decides what an update of that id may do.
  pub Allowed-at :
      (f : TestRow F → TestRow F) (k : ℕ) (db : Db F) {t : TestRow F}
      → test_by_id k db ≡ some t
      → Allowed f t
      → TestsInv db
      → All (λ u. (u.id == k) ≡ true → Allowed f u) db.tests
  Allowed-at f k db e a i = All-at_key (λ u. u.id) (Allowed f) k db.tests i.distinct e a

  start-Allowed : (now : ℕ) (t : TestRow F) → is_queued t.status ≡ true → Allowed (start_test now) t
  start-Allowed now t q = (
    record {
      id = refl;
      spec = refl;
      priority = inr refl;
      candidate = refl;
      baseline = refl;
      route = follow (queued-Edge t.status q) here;
    },
    λ s. ground arith,
  )

  start-rows :
      (now : ℕ) (db : Db F) (t : TestRow F)
      → next_queued db ≡ some t
      → TestsInv db
      → All (λ u. (u.id == t.id) ≡ true → Allowed (start_test now) u) db.tests
  start-rows now db t e i =
      All-impl _ _ (λ u same h. rw (same h) (start-Allowed now t (next_queued-IsNext db e).queued))
        db.tests
        (next_queued-All (λ x. All (λ y. (y.id == x.id) ≡ true → y ≡ x) db.tests) db e
          (Distinct-unique (λ x. x.id) db.tests i.distinct))

  pub promote-Advances : (now : ℕ) (db : Db F) → Advances db (promote_next_test now db).0
  unfolding promote_next_test
  promote-Advances now db = elim (Option-cases (next_queued db)) [
    | inl e ↦ rw (e, promote_next_test) (Advances-same db db refl refl)
    | inr (t, e) ↦
        rw (e, promote_next_test)
          (update-Advances db t.id (start_test now) (λ u. refl) (start-rows now db t e)
            λ i.
              let idle = (next_queued-IsNext db e).idle in
              let more =
                count-update_key (λ u. u.id) (λ u. is_running u.status) t.id (start_test now)
                  db.tests i.distinct in
              omega arith)
  ]

  finish-Allowed :
      (now : ℕ) (r : TestResult) (t : TestRow F)
      → is_undecided r ≡ false
      → is_running t.status ≡ true
      → Allowed (set_finished now r) t
  finish-Allowed now r t u h = (
    record {
      id = refl;
      spec = refl;
      priority = inr refl;
      candidate = refl;
      baseline = refl;
      route = follow (running-Edge t.status h) here;
    },
    λ s. ground arith,
  )

  pub finish-Advances :
      (now : ℕ) (r : TestResult) (db : Db F) (t : TestRow F)
      → test_by_id t.id db ≡ some t
      → is_undecided r ≡ false
      → is_running t.status ≡ true
      → Advances db (finish_test now t.id r db)
  unfolding finish_test
  finish-Advances now r db t e u h =
      Advances-trans db _ _
        (update_calm-Advances db t.id (set_finished now r) (λ _. refl) (λ _ x. cc)
          (Allowed-at (set_finished now r) t.id db e (finish-Allowed now r t u h)))
        (promote-Advances now _)

  pub stop_rule-Advances :
      (now : ℕ) (t : TestRow F) (d : SprtDecision) (db : Db F)
      → test_by_id t.id db ≡ some t
      → is_running t.status ≡ true
      → Advances db (stop_rule now t d db)
  unfolding stop_rule
  stop_rule-Advances now t accept_h1 db e h = finish-Advances now _ db t e refl h
  stop_rule-Advances now t accept_h0 db e h = finish-Advances now _ db t e refl h
  stop_rule-Advances now t keep_going db e h = elim (Bool-cases (remaining_pairs t.id db == 0)) [
    | inl z ↦ rw z (finish-Advances now _ db t e (ground arith) h)
    | inr z ↦ rw z (Advances-same db db refl refl)
  ]

  pub store_stats-Advances :
      (now k : ℕ) (p : Pentanomial) (elo : Option (EloEstimate F)) (s : SprtState F) (db : Db F)
      → Advances db (store_stats now k p elo s db)
  unfolding store_stats
  store_stats-Advances now k p elo s db = Advances-same db _ refl refl

  store_stats-tests :
      (now k : ℕ) (p : Pentanomial) (elo : Option (EloEstimate F)) (s : SprtState F) (db : Db F)
      → (store_stats now k p elo s db).tests ≡ db.tests
  unfolding store_stats
  store_stats-tests now k p elo s db = refl

  settle-Advances :
      (now : ℕ) (t : TestRow F) (p : Pentanomial) (elo : Option (EloEstimate F)) (s : SprtState F)
      (db : Db F)
      → test_by_id t.id db ≡ some t
      → let stored = store_stats now t.id p elo s db in
        Advances db (if is_running t.status then stop_rule now t s.decision stored else stored)
  settle-Advances now t p elo s db e = elim (Bool-cases (is_running t.status)) [
    | inl r ↦ rw r (
        Advances-trans db _ _ (store_stats-Advances now t.id p elo s db)
          (stop_rule-Advances now t s.decision _ (rw (store_stats-tests now t.id p elo s db) e) r))
    | inr r ↦ rw r (store_stats-Advances now t.id p elo s db)
  ]

module _ {F : Type 0} (sv : Services F) where
  refresh_row-Advances :
      (now : ℕ) (t : TestRow F) (db : Db F) {db' : Db F}
      → test_by_id t.id db ≡ some t
      → refresh_row sv now t db ≡ some db'
      → Advances db db'
  unfolding refresh_row
  refresh_row-Advances now t db {db'} e h =
      let (penta, _, h1) = >>=-eq-some (read_penta t.id db) _ h in
      let (elo, _, h2) = >>=-eq-some (elo_state sv penta) _ h1 in
      let (s, _, h3) = >>=-eq-some (sprt_state sv t penta) _ h2 in
      subst (Advances db) (some_inj h3) (settle-Advances now t penta elo s db e)

  -- A refresh only finishes the running test, and starts the next one.
  pub refresh_test-Advances :
      (now k : ℕ) (db : Db F) {db' : Db F} → refresh_test sv now k db ≡ some db' → Advances db db'
  unfolding refresh_test
  refresh_test-Advances now k db {db'} h = elim (Option-cases (test_by_id k db)) [
    | inl e ↦
        subst (Advances db) (some_inj (rw (e, refresh_test) at h)) (Advances-same db db refl refl)
    | inr (t, e) ↦
        let id : t.id ≡ k = find_first-key (λ u. u.id) k db.tests e in
        refresh_row-Advances now t db (subst (λ i. test_by_id i db ≡ some t) (sym id) e)
          (rw (e, refresh_test) at h)
  ]
