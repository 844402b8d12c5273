-- ===== src/Server/Evolution/SmokeTest.antt =====
-- The smoke test worker's transaction on the table of tests, as a step of `Server.Evolution`.
use capi_net.Base.{
  ℕ, ◌+◌, ◌≡◌, refl, ◌∙◌, inl, inr, true, false, ◌&&◌, List, [], ◌∷◌, some, arith, ◌==◌, Bool-cases,
  any, select, String, >>=-eq-some, some_inj, subst,
}
use capi_net.Server.Types.{TestStatus, validating, invalid, queued, is_running, is_validating}
use capi_net.Server.Schema.{TestRow, Db, Services, test_by_id, PositionRow}
use capi_net.Server.Lifecycle.{refresh_test}
use capi_net.Server.Smoke.{
  SmokeReport, smoke_ok, reject_test, queue_test, insert_positions, insert_pairs, set_test,
  enqueue_test, conclude_smoke, holds_position,
}
use capi_net.Server.Evolution.{
  Edge, fail_smoke, pass_smoke, here, follow, Allowed, Advances, Advances-trans, Advances-same,
  update_calm-Advances,
}
use capi_net.Server.Evolution.Steps.{Allowed-at, promote-Advances, refresh_test-Advances}

module _ {F : Type 0} where
  smoke-Allowed :
      (log : String) (t : TestRow F)
      → is_validating t.status ≡ true
      → Allowed (reject_test log) t × Allowed (queue_test log) t
  smoke-Allowed log t h = (
    (
      record {
        id = refl;
        spec = refl;
        priority = inr refl;
        candidate = refl;
        baseline = refl;
        route = follow (fail t.status h) here;
      },
      λ s. ground arith,
    ),
    (
      record {
        id = refl;
        spec = refl;
        priority = inr refl;
        candidate = refl;
        baseline = refl;
        route = follow (pass t.status h) here;
      },
      λ s. ground arith,
    ),
  )
    where
      fail : (s : TestStatus) → is_validating s ≡ true → Edge s invalid
      fail validating h = fail_smoke
      fail _ h = absurd (ground arith)

      pass : (s : TestStatus) → is_validating s ≡ true → Edge s queued
      pass validating h = pass_smoke
      pass _ h = absurd (ground arith)

  insert_positions-Advances :
      (k seq : ℕ) (fens : List String) (db : Db F) {db' : Db F}
      → insert_positions k seq fens db ≡ some db'
      → Advances db db'
  unfolding insert_positions
  insert_positions-Advances k seq [] db h =
      subst (Advances db) (some_inj h) (Advances-same db db refl refl)
  insert_positions-Advances k seq (fen ∷ fens) db {db'} h =
      elim (Bool-cases (any (λ o. o.test_id == k && o.seq == seq) db.positions)) [
        | inl e ↦ absurd (ground arith)
        | inr e ↦
            Advances-trans db _ db' (Advances-same db _ refl refl)
              (insert_positions-Advances k (seq + 1) fens _ (rw e at h))
      ]

  insert_pairs-Advances :
      (dispatch : ℕ → ℕ) (os : List PositionRow) (db : Db F) {db' : Db F}
      → insert_pairs dispatch os db ≡ some db'
      → Advances db db'
  unfolding insert_pairs
  insert_pairs-Advances dispatch [] db h =
      subst (Advances db) (some_inj h) (Advances-same db db refl refl)
  insert_pairs-Advances dispatch (o ∷ os) db {db'} h =
      elim (Bool-cases (any (holds_position o) db.pairs)) [
        | inl e ↦ absurd (ground arith)
        | inr e ↦
            Advances-trans db _ db' (Advances-same db _ refl refl)
              (insert_pairs-Advances dispatch os _ (rw e at h))
      ]

  set_test-Advances :
      (f : TestRow F → TestRow F) (k : ℕ) (db : Db F) {t : TestRow F}
      → ((u : TestRow F) → (f u).id ≡ u.id)
      → ((u : TestRow F) → is_running (f u).status ≡ false)
      → test_by_id k db ≡ some t
      → Allowed f t
      → Advances db (set_test f k db)
  set_test-Advances f k db {t} id idle e a =
      update_calm-Advances db k f id (λ u h. absurd (ground (arith, idle u)))
        (Allowed-at f k db e a)

  insert_positions-tests :
      (k seq : ℕ) (fens : List String) (db : Db F) {db' : Db F}
      → insert_positions k seq fens db ≡ some db'
      → db'.tests ≡ db.tests
  unfolding insert_positions
  insert_positions-tests k seq [] db h = ground arith
  insert_positions-tests k seq (fen ∷ fens) db {db'} h =
      elim (Bool-cases (any (λ o. o.test_id == k && o.seq == seq) db.positions)) [
        | inl e ↦ absurd (ground arith)
        | inr e ↦ insert_positions-tests k (seq + 1) fens _ (rw e at h)
      ]

  insert_pairs-tests :
      (dispatch : ℕ → ℕ) (os : List PositionRow) (db : Db F) {db' : Db F}
      → insert_pairs dispatch os db ≡ some db'
      → db'.tests ≡ db.tests
  unfolding insert_pairs
  insert_pairs-tests dispatch [] db h = ground arith
  insert_pairs-tests dispatch (o ∷ os) db {db'} h =
      elim (Bool-cases (any (holds_position o) db.pairs)) [
        | inl e ↦ absurd (ground arith)
        | inr e ↦ insert_pairs-tests dispatch os _ (rw e at h)
      ]

module _ {F : Type 0} (sv : Services F) where
  enqueue-Advances :
      (now k : ℕ) (r : SmokeReport) (db : Db F) {db' : Db F} (t : TestRow F)
      → test_by_id k db ≡ some t
      → is_validating t.status ≡ true
      → enqueue_test sv now k r db ≡ some db'
      → Advances db db'
  unfolding enqueue_test
  enqueue-Advances now k r db {db'} t e v h =
      let (one, e1, h1) = >>=-eq-some (insert_positions k 1 r.positions db) _ h in
      let (two, e2, h2) =
        >>=-eq-some (insert_pairs r.dispatch (select (λ o. o.test_id == k) one.positions) one) _
          h1 in
      let (three, e3, h3) =
        >>=-eq-some (refresh_test sv now k (set_test (queue_test r.log) k two)) _ h2 in
      let same : two.tests ≡ db.tests =
        insert_pairs-tests _ _ one e2 ∙ insert_positions-tests _ _ _ db e1 in
      let found : test_by_id k two ≡ some t = rw same e in
      Advances-trans db one db' (insert_positions-Advances _ _ _ db e1) (
        Advances-trans one two db' (insert_pairs-Advances _ _ one e2) (
          Advances-trans two _ db'
            (set_test-Advances (queue_test r.log) k two (λ _. refl) (λ _. refl) found
              (smoke-Allowed r.log t v).1)
            (Advances-trans _ three db' (refresh_test-Advances sv now k _ e3)
              (subst (Advances three) (some_inj h3) (promote-Advances now three)))))

  pub conclude_smoke-Advances :
      (now : ℕ) (started : TestRow F) (r : SmokeReport) (db : Db F) {db' : Db F}
      → conclude_smoke sv now started r db ≡ some db'
      → Advances db db'
  unfolding conclude_smoke
  conclude_smoke-Advances now started r db {db'} h =
      let (t, e, h1) = >>=-eq-some (test_by_id started.id db) _ h in
      elim (Bool-cases (is_validating t.status)) [
        | inr v ↦ subst (Advances db) (some_inj (rw v at h1)) (Advances-same db db refl refl)
        | inl v ↦ elim (Bool-cases (smoke_ok started.spec.total_pairs r)) [
          | inr k ↦ subst (Advances db) (some_inj (rw (v, k) at h1)) (
              set_test-Advances (reject_test r.log) started.id db (λ _. refl) (λ _. refl) e
                (smoke-Allowed r.log t v).0)
          | inl k ↦ enqueue-Advances now started.id r db {db' = db'} t e v (rw (v, k) at h1)
        ]
      ]
