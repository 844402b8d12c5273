-- ===== src/Server/Evolution.antt =====
-- What a transaction may do to the table of tests: the status moves along the diagram below, what
-- was frozen at creation stays, and at most one test runs.
pub mod Steps
pub mod Requests
pub mod SmokeTest
pub mod Transactions
use capi_net.Base.{
  ℕ, ◌+◌, ◌≤◌, ◌<◌, ◌≡◌, refl, sym, ◌∙◌, ◌≢◌, ◌⊎◌, inl, inr, Bool, true, false, not, ◌&&◌, ◌||◌,
  List, [], ◌∷◌, ◌++◌, Option, none, some, arith, ltb, ◌==◌, if◌then◌else◌, All, All-impl,
  All-append, All-update_where, Bool-cases, Option-cases, any, select, update_where, count_where,
  count_where-append, Distinct, Below, Distinct-append_new, Below-append_new, Distinct-update,
  Below-update, Extends, Extends-refl, Extends-append, Extends-update, Extends-trans, String,
  count_where-update_le,
}
use capi_net.Base.Int.{pos}
use capi_net.Server.Types.{
  TestStatus, validating, invalid, queued, running, finished, stopped, TestResult, TestSpec,
  is_queued, is_running, is_validating,
}
use capi_net.Server.Schema.{TestRow, Db}
use capi_net.Server.Lifecycle.Promotion.{running_tests}

-- the diagram of a test's status
pub data Edge : TestStatus → TestStatus → Type 0 where
  fail_smoke : Edge validating invalid
  pass_smoke : Edge validating queued
  promote : Edge queued running
  finish : Edge running finished
  stop_validating : Edge validating stopped
  stop_queued : Edge queued stopped
  stop_running : Edge running stopped

pub data Route : TestStatus → TestStatus → Type 0 where
  here : {s : TestStatus} → Route s s
  follow : {s t u : TestStatus} → Edge s t → Route t u → Route s u

pub Route-trans : {s t u : TestStatus} → Route s t → Route t u → Route s u
Route-trans here r = r
Route-trans (follow e q) r = follow e (Route-trans q r)

-- A priority can change while a test waits.
abbrev pub is_waiting : TestStatus → Bool
is_waiting s = is_validating s || is_queued s

Edge-waiting : {s t : TestStatus} → Edge s t → is_waiting t ≡ true → is_waiting s ≡ true
Edge-waiting fail_smoke h = refl
Edge-waiting pass_smoke h = refl
Edge-waiting promote h = refl
Edge-waiting finish h = absurd (ground arith)
Edge-waiting stop_validating h = refl
Edge-waiting stop_queued h = refl
Edge-waiting stop_running h = absurd (ground arith)

-- A test that waits has waited since its creation.
Route-waiting : {s t : TestStatus} → Route s t → is_waiting t ≡ true → is_waiting s ≡ true
Route-waiting here h = h
Route-waiting (follow e r) h = Edge-waiting e (Route-waiting r h)

abbrev pub is_finished : TestStatus → Bool
is_finished finished = true
is_finished _ = false

abbrev pub is_undecided : TestResult → Bool
is_undecided TestResult.pending = true
is_undecided _ = false

module _ {F : Type 0} where
  -- what is frozen of a specification: all but the priority
  abbrev pub conditions : TestSpec F → TestSpec F
  conditions s = record s { priority = pos 0 }

  -- The row is the same test, with the commits and conditions frozen at its creation, and the
  -- priority frozen when it no longer waits.
  pub record Evolves (t u : TestRow F) : Type 0 where
    pub id : u.id ≡ t.id
    pub spec : conditions u.spec ≡ conditions t.spec
    pub priority : (is_waiting t.status ≡ true) ⊎ (u.spec ≡ t.spec)
    pub candidate : u.candidate_commit ≡ t.candidate_commit
    pub baseline : u.baseline_commit ≡ t.baseline_commit
    pub route : Route t.status u.status

  -- A test has a result exactly when it is finished.
  abbrev pub IsSettled : TestRow F → Type 0
  IsSettled t = is_finished t.status ≡ not (is_undecided t.result)

  -- A new test can have got as far as any status that a route leads to.
  abbrev pub IsNew : TestRow F → Type 0
  IsNew t = Route validating t.status

  pub record TestsInv (db : Db F) : Type 0 where
    pub distinct : Distinct (λ t. t.id) db.tests
    pub below : Below (λ t. t.id) db.next_test db.tests
    pub single : running_tests db.tests ≤ 1
    pub settled : All IsSettled db.tests

  abbrev pub TestsExtend : Db F → Db F → Type 0
  TestsExtend db db' = Extends Evolves IsNew db.tests db'.tests

  -- From a state that meets the invariant: the new one meets it, and its table extends the old.
  abbrev pub Advances : Db F → Db F → Type 0
  Advances db db' = TestsInv db → TestsInv db' × TestsExtend db db'

  pub Evolves-refl : (t : TestRow F) → Evolves t t
  Evolves-refl t = record {
    id = refl;
    spec = refl;
    priority = inr refl;
    candidate = refl;
    baseline = refl;
    route = here;
  }

  Evolves-trans : (t u v : TestRow F) → Evolves t u → Evolves u v → Evolves t v
  Evolves-trans t u v e f = record {
    id = f.id ∙ e.id;
    spec = f.spec ∙ e.spec;
    priority = later e.priority f.priority;
    candidate = f.candidate ∙ e.candidate;
    baseline = f.baseline ∙ e.baseline;
    route = Route-trans e.route f.route;
  }
    where
      later :
          (is_waiting t.status ≡ true) ⊎ (u.spec ≡ t.spec)
          → (is_waiting u.status ≡ true) ⊎ (v.spec ≡ u.spec)
          → (is_waiting t.status ≡ true) ⊎ (v.spec ≡ t.spec)
      later (inl h) k = inl h
      later (inr h) (inl k) = inl (Route-waiting e.route k)
      later (inr h) (inr k) = inr (k ∙ h)

  pub Advances-trans : (a b c : Db F) → Advances a b → Advances b c → Advances a c
  Advances-trans a b c f g i =
      let (j, x) = f i in
      let (k, y) = g j in
      (k, Extends-trans Evolves IsNew Evolves-trans (λ t u n e. Route-trans n e.route) x y)

  -- A transaction that leaves the table of tests alone.
  pub Advances-same :
      (db db' : Db F) → db'.tests ≡ db.tests → db'.next_test ≡ db.next_test → Advances db db'
  Advances-same db db' e n i = (
    record {
      distinct = rw e i.distinct;
      below = rw (e, n) i.below;
      single = rw e i.single;
      settled = rw e i.settled;
    },
    rw e (Extends-refl Evolves IsNew Evolves-refl db.tests),
  )

  -- What an update may do to a row that it changes.
  abbrev pub Allowed : (TestRow F → TestRow F) → TestRow F → Type 0
  Allowed f t = Evolves t (f t) × (IsSettled t → IsSettled (f t))

  update-IsSettled :
      (k : ℕ) (f : TestRow F → TestRow F) (ts : List (TestRow F))
      → All (λ t. (t.id == k) ≡ true → Allowed f t) ts
      → All IsSettled ts
      → All IsSettled (update_where (λ t. t.id == k) f ts)
  update-IsSettled k f [] a s = tt
  update-IsSettled k f (t ∷ ts) a s = elim (Bool-cases (t.id == k)) [
    | inl e ↦ rw e ((a.0 e).1 s.0, update-IsSettled k f ts a.1 s.1)
    | inr e ↦ rw e (s.0, update-IsSettled k f ts a.1 s.1)
  ]

  module _ (db : Db F) (k : ℕ) (f : TestRow F → TestRow F)
      (keeps : (t : TestRow F) → (f t).id ≡ t.id) where
    -- An update of the test `k`, if each change is allowed and at most one test runs after it.
    pub update-Advances :
        (TestsInv db → All (λ t. (t.id == k) ≡ true → Allowed f t) db.tests)
        → (TestsInv db → running_tests (update_where (λ t. t.id == k) f db.tests) ≤ 1)
        → Advances db (record db { tests = update_where (λ t. t.id == k) f db.tests })
    update-Advances rows calm i = (
      record {
        distinct = Distinct-update _ _ f keeps db.tests i.distinct;
        below = Below-update _ _ f keeps db.next_test db.tests i.below;
        single = calm i;
        settled = update-IsSettled k f db.tests (rows i) i.settled;
      },
      Extends-update Evolves IsNew _ f db.tests Evolves-refl
          (All-impl _ _ (λ t h e. (h e).0) db.tests (rows i)),
    )

    -- The same for an update that starts no test.
    pub update_calm-Advances :
        ((t : TestRow F) → is_running (f t).status ≡ true → is_running t.status ≡ true)
        → (TestsInv db → All (λ t. (t.id == k) ≡ true → Allowed f t) db.tests)
        → Advances db (record db { tests = update_where (λ t. t.id == k) f db.tests })
    update_calm-Advances calm rows = update-Advances rows (λ i.
        let fewer =
          count_where-update_le (λ t. is_running t.status) (λ t. t.id == k) f db.tests
            (λ t _. calm t) in
        let single = i.single in omega arith)
