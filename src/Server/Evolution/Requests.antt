-- ===== src/Server/Evolution/Requests.antt =====
-- The administration's operations on the table of tests, as steps of `Server.Evolution`.
use capi_net.Base.{
  ℕ, ◌+◌, ◌≡◌, refl, sym, inl, inr, true, false, ◌||◌, [], ◌∷◌, ◌++◌, some, arith, ◌==◌, All-append,
  Bool-cases, Option-cases, update_where, count_where-append, Distinct-append_new, Below-append_new,
  Extends-append, find_first-key, subst,
}
use capi_net.Base.Int.{ℤ}
use capi_net.Server.Types.{is_queued, is_running, is_validating}
use capi_net.Server.Schema.{TestRow, Db, test_by_id}
use capi_net.Server.Admin.{stop_test, stop_live, stop_row, is_live, set_priority, with_priority}
use capi_net.Server.Evolution.{
  is_waiting, here, follow, Evolves, IsNew, IsSettled, Allowed, Advances, Advances-trans,
  Advances-same, Evolves-refl, update_calm-Advances,
}
use capi_net.Server.Evolution.Steps.{Allowed-at, live-Edge, promote-Advances}

module _ {F : Type 0} where
  stop-Allowed : (now : ℕ) (t : TestRow F) → is_live t.status ≡ true → Allowed (stop_row now) t
  stop-Allowed now t h = (
    record {
      id = refl;
      spec = refl;
      priority = inr refl;
      candidate = refl;
      baseline = refl;
      route = follow (live-Edge t.status h) here;
    },
    λ s. ground arith,
  )

  halt-Advances :
      (now k : ℕ) (db : Db F) (t : TestRow F)
      → test_by_id k db ≡ some t
      → is_live t.status ≡ true
      → Advances db (record db { tests = update_where (λ u. u.id == k) (stop_row now) db.tests })
  halt-Advances now k db t e h =
      update_calm-Advances db k (stop_row now) (λ _. refl) (λ _ x. cc)
        (Allowed-at (stop_row now) k db e (stop-Allowed now t h))

  stop_live-Advances :
      (now : ℕ) (t : TestRow F) (db : Db F)
      → test_by_id t.id db ≡ some t
      → is_live t.status ≡ true
      → Advances db (stop_live now t db).1
  unfolding stop_live
  stop_live-Advances now t db e h = elim (Bool-cases (is_running t.status)) [
    | inl r ↦
        rw r (Advances-trans db _ _ (halt-Advances now t.id db t e h) (promote-Advances now _))
    | inr r ↦ rw r (halt-Advances now t.id db t e h)
  ]

  pub own_id :
      (k : ℕ) (db : Db F) {t : TestRow F} → test_by_id k db ≡ some t → test_by_id t.id db ≡ some t
  own_id k db {t} e =
      subst (λ i. test_by_id i db ≡ some t) (sym (find_first-key (λ u. u.id) k db.tests e)) e

  pub stop_test-Advances : (now k : ℕ) (db : Db F) → Advances db (stop_test now k db).1
  unfolding stop_test
  stop_test-Advances now k db = elim (Option-cases (test_by_id k db)) [
    | inl e ↦ rw (e, stop_test) (Advances-same db db refl refl)
    | inr (t, e) ↦ elim (Bool-cases (is_live t.status)) [
      | inl h ↦ rw (e, stop_test) (rw h (stop_live-Advances now t db (own_id k db e) h))
      | inr h ↦ rw (e, stop_test) (rw h (Advances-same db db refl refl))
    ]
  ]

  priority-Advances :
      (k : ℕ) (p : ℤ) (db : Db F) (t : TestRow F)
      → test_by_id k db ≡ some t
      → is_waiting t.status ≡ true
      → Advances db (record db { tests = update_where (λ u. u.id == k) (with_priority p) db.tests })
  priority-Advances k p db t e h =
      update_calm-Advances db k (with_priority p) (λ _. refl) (λ _ x. x)
        (Allowed-at (with_priority p) k db e (
          record {
            id = refl;
            spec = refl;
            priority = inl h;
            candidate = refl;
            baseline = refl;
            route = here;
          },
          λ s. s,
        ))

  pub set_priority-Advances : (k : ℕ) (p : ℤ) (db : Db F) → Advances db (set_priority k p db).1
  unfolding set_priority
  set_priority-Advances k p db = elim (Option-cases (test_by_id k db)) [
    | inl e ↦ rw (e, set_priority) (Advances-same db db refl refl)
    | inr (t, e) ↦ elim (Bool-cases (is_validating t.status || is_queued t.status)) [
      | inl h ↦ rw (e, set_priority) (rw h (priority-Advances k p db t e h))
      | inr h ↦ rw (e, set_priority) (rw h (Advances-same db db refl refl))
    ]
  ]

  pub add_test-Advances :
      (t : TestRow F) (db : Db F)
      → t.id ≡ db.next_test
      → IsNew t
      → IsSettled t
      → is_running t.status ≡ false
      → Advances db (record db { tests = db.tests ++ t ∷ []; next_test = db.next_test + 1 })
  add_test-Advances t db id n s r i = (
    record {
      distinct = Distinct-append_new (λ u. u.id) db.next_test db.tests t id i.below i.distinct;
      below = Below-append_new (λ u. u.id) db.next_test db.tests t id i.below;
      single =
          let single = i.single in
          ground (arith, count_where-append (λ u. is_running u.status) db.tests (t ∷ []));
      settled = All-append IsSettled db.tests (t ∷ []) i.settled (s, tt);
    },
    Extends-append Evolves IsNew Evolves-refl db.tests (t ∷ []) (n, tt),
  )
