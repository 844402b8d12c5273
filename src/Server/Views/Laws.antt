-- ===== src/Server/Views/Laws.antt =====
-- What the reads say of the tables.
use capi_net.Base.{
  zero, suc, any, length, select, some_inj, subst, ap, map, take, ◌≤◌, ◌∷◌, List, sort_by, All, ℕ,
  ◌+◌, ◌≡◌, refl, inl, inr, Bool, true, false, ◌&&◌, some, [], arith, ◌==◌, if◌then◌else◌,
  count_where, Bool-cases, Option-cases, find_first-key,
}
use capi_net.Server.Types.{
  validating, queued, running, invalid, finished, stopped, is_running, TestStatus, JobStatus,
  leased, discarded, is_pending, is_leased, is_completed, is_discarded,
}
use capi_net.Server.Schema.{TestRow, PairRow, Db, test_by_id}
use capi_net.Server.Lifecycle.Order.{sort_by-Leads, sort_by-All, Leads, StrictWeak}
use capi_net.Server.Views.{
  list_tests, summary, TestSummary, list_rank, TestStatsSnapshot, snapshot, load_test_stats,
  stats_of, listed_before, pairs_with,
}

one_status :
    (s : JobStatus) (b : Bool)
    → (if b && is_pending s then 1 else 0)
        + (if b && is_leased s then 1 else 0)
        + (if b && is_completed s then 1 else 0)
        + (if b && is_discarded s then 1 else 0)
      ≡ (if b then 1 else 0)
one_status JobStatus.pending b = ground arith
one_status leased b = ground arith
one_status JobStatus.completed b = ground arith
one_status discarded b = ground arith

count-statuses :
    (k : ℕ) (ps : List PairRow)
    → count_where (λ q. q.test_id == k && is_pending q.status) ps
        + count_where (λ q. q.test_id == k && is_leased q.status) ps
        + count_where (λ q. q.test_id == k && is_completed q.status) ps
        + count_where (λ q. q.test_id == k && is_discarded q.status) ps
      ≡ count_where (λ q. q.test_id == k) ps
count-statuses k [] = refl
count-statuses k (p ∷ ps) =
    ground (arith, count-statuses k ps, one_status p.status (p.test_id == k))

abbrev pub same_status : JobStatus → JobStatus → Bool
same_status JobStatus.pending JobStatus.pending = true
same_status leased leased = true
same_status JobStatus.completed JobStatus.completed = true
same_status discarded discarded = true
same_status _ _ = false

count_where-select {ℓ} :
    {A : Type ℓ} (p q : A → Bool)
    → ((x : A) → p x ≡ q x)
    → (xs : List A) → count_where p xs ≡ length (select q xs)
count_where-select p q h [] = refl
count_where-select p q h (x ∷ xs) = ground (arith, h x, count_where-select p q h xs)

status_tests :
    (s : JobStatus)
    → (is_pending s ≡ same_status JobStatus.pending s)
      × (is_leased s ≡ same_status leased s)
      × (is_completed s ≡ same_status JobStatus.completed s)
      × (is_discarded s ≡ same_status discarded s)
status_tests JobStatus.pending = (refl, refl, refl, refl)
status_tests leased = (refl, refl, refl, refl)
status_tests JobStatus.completed = (refl, refl, refl, refl)
status_tests discarded = (refl, refl, refl, refl)

rank-running : (s : TestStatus) → list_rank s ≡ 0 → s ≡ running
rank-running running h = refl
rank-running validating h = absurd (ground arith)
rank-running queued h = absurd (ground arith)
rank-running invalid h = absurd (ground arith)
rank-running finished h = absurd (ground arith)
rank-running stopped h = absurd (ground arith)

running-rank : (s : TestStatus) → is_running s ≡ true → list_rank s ≡ 0
running-rank running h = refl
running-rank validating h = absurd (ground arith)
running-rank queued h = absurd (ground arith)
running-rank invalid h = absurd (ground arith)
running-rank finished h = absurd (ground arith)
running-rank stopped h = absurd (ground arith)

module _ {F : Type 0} where
  -- the pairs of a test with a status
  abbrev pub pairs_in : ℕ → JobStatus → Db F → List PairRow
  pairs_in k s db = select (λ q. q.test_id == k && same_status s q.status) db.pairs

  abbrev Split : ℕ → Db F → ℕ → ℕ → ℕ → ℕ → Type 0
  Split k db p l c d =
      (p ≡ length (pairs_in k JobStatus.pending db))
      × (l ≡ length (pairs_in k leased db))
      × (c ≡ length (pairs_in k JobStatus.completed db))
      × (d ≡ length (pairs_in k discarded db))
      × (p + l + c + d ≡ count_where (λ q. q.test_id == k) db.pairs)

  split :
      (k : ℕ) (db : Db F)
      → Split k db
          (pairs_with (λ p. is_pending p.status) k db)
          (pairs_with (λ p. is_leased p.status) k db)
          (pairs_with (λ p. is_completed p.status) k db)
          (pairs_with (λ p. is_discarded p.status) k db)
  split k db = (
    count_where-select _ _ (λ q. ap (λ b. q.test_id == k && b) (status_tests q.status).0) db.pairs,
    count_where-select _ _ (λ q. ap (λ b. q.test_id == k && b) (status_tests q.status).1) db.pairs,
    count_where-select _ _ (λ q. ap (λ b. q.test_id == k && b) (status_tests q.status).2) db.pairs,
    count_where-select _ _ (λ q. ap (λ b. q.test_id == k && b) (status_tests q.status).3) db.pairs,
    count-statuses k db.pairs,
  )

  abbrev Counted : ℕ → Db F → TestStatsSnapshot F → Type 0
  Counted k db s =
      (s.test_id ≡ k)
      × (s.pairs_pending ≡ length (pairs_in k JobStatus.pending db))
      × (s.pairs_leased ≡ length (pairs_in k leased db))
      × (s.pairs_completed ≡ length (pairs_in k JobStatus.completed db))
      × (s.pairs_discarded ≡ length (pairs_in k discarded db))
      × (s.pairs_pending + s.pairs_leased + s.pairs_completed + s.pairs_discarded
          ≡ count_where (λ q. q.test_id == k) db.pairs)

  snapshot-Counted :
      (k : ℕ) (db : Db F) (t : TestRow F)
      → t.id ≡ k
      → Counted k db (snapshot t (stats_of t.id db) db)
  unfolding snapshot
  snapshot-Counted k db t e = let (p, l, c, d, sum) = split k db in rw e (refl, p, l, c, d, sum)

  -- The snapshot of a test is of the id asked for, its pending, leased, completed and discarded
  -- pairs are each as many as the pairs of that test with this status, and together they are all
  -- pairs of the test.
  pub load_test_stats-pairs :
      (k : ℕ) (db : Db F) {s : TestStatsSnapshot F}
      → load_test_stats k db ≡ some s
      → (s.test_id ≡ k)
        × (s.pairs_pending ≡ length (pairs_in k JobStatus.pending db))
        × (s.pairs_leased ≡ length (pairs_in k leased db))
        × (s.pairs_completed ≡ length (pairs_in k JobStatus.completed db))
        × (s.pairs_discarded ≡ length (pairs_in k discarded db))
        × (s.pairs_pending + s.pairs_leased + s.pairs_completed + s.pairs_discarded
            ≡ count_where (λ q. q.test_id == k) db.pairs)
  unfolding load_test_stats snapshot
  load_test_stats-pairs k db {s} h = elim (Option-cases (test_by_id k db)) [
    | inl e ↦ absurd (ground arith)
    | inr (t, e) ↦
        let id : t.id ≡ k = find_first-key (λ u. u.id) k db.tests e in
        let last : some (snapshot t (stats_of t.id db) db) ≡ some s = ground arith in
        subst (Counted k db) (some_inj last) (snapshot-Counted k db t id)
  ]

  listed_before-StrictWeak : StrictWeak (listed_before {F = F})
  listed_before-StrictWeak = record {
    asym = λ x y h. ground arith;
    weak = λ x y z h k. ground arith;
  }

  leader-running :
      (h : TestRow F) (ts : List (TestRow F))
      → All (λ x. listed_before x h ≡ false) ts
      → any (λ t. is_running t.status) ts ≡ true
      → h.status ≡ running
  leader-running h [] a e = absurd (ground arith)
  leader-running h (t ∷ ts) a e = elim (Bool-cases (is_running t.status)) [
    | inl r ↦
        let zero_rank = running-rank t.status r in
        let leads = a.0 in rank-running h.status (ground arith)
    | inr r ↦ leader-running h ts a.1 (ground arith)
  ]

  first_running :
      (limit : ℕ) (db : Db F) (sorted : List (TestRow F))
      → 1 ≤ limit
      → Leads listed_before sorted
      → (All (λ _. ⊥) sorted → ⊥)
      → ((h : TestRow F) → All (λ x. listed_before x h ≡ false) sorted → h.status ≡ running)
      → (s : TestSummary F) × (rest : List (TestSummary F)) × (map (summary db) (take limit sorted)
          ≡ s ∷ rest)
        × (s.status ≡ running)
  unfolding summary
  first_running zero db sorted l a n f = absurd (omega arith)
  first_running (suc n) db [] l a e f = absurd (e tt)
  first_running (suc n) db (h ∷ ts) l a e f =
      (summary db h, map (summary db) (take n ts), refl, f h a)

  any-nonempty :
      (ts : List (TestRow F)) → any (λ t. is_running t.status) ts ≡ true → All (λ _. ⊥) ts → ⊥
  any-nonempty [] h a = absurd (ground arith)
  any-nonempty (t ∷ ts) h a = a.0

  -- With room for one test at least and a test running, the listing of tests begins with a running
  -- test.
  pub list_tests-running_first :
      (limit : ℕ) (db : Db F)
      → 1 ≤ limit
      → any (λ t. is_running t.status) db.tests ≡ true
      → (s : TestSummary F) × (rest : List (TestSummary F)) × (list_tests limit db ≡ s ∷ rest)
        × (s.status ≡ running)
  unfolding list_tests
  list_tests-running_first limit db l r =
      first_running limit db (sort_by listed_before db.tests) l
        (sort_by-Leads listed_before listed_before-StrictWeak db.tests)
        (λ a. any-nonempty db.tests r (sort_by-All listed_before (λ _. ⊥) db.tests a))
        λ h a.
          leader-running h db.tests
            (sort_by-All listed_before (λ x. listed_before x h ≡ false) db.tests a) r
