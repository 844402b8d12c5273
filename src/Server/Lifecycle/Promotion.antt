-- ===== src/Server/Lifecycle/Promotion.antt =====
-- `promote_next_test`: which test starts, and when.
use capi_net.Base.{
  All-impl, ◌<◌, ◌⊎◌, ℕ, ◌≤◌, ◌≡◌, refl, inl, inr, true, false, List, [], ◌∷◌, some, arith, ◌==◌,
  All, insert_by, sort_by, head?, Bool-cases, Option-cases, any, select, update_where, count_where,
  any-count_where, All-select, All-select_test,
}
use capi_net.Base.Int.{ltb_ℤ}
use capi_net.Server.Types.{is_queued, is_running}
use capi_net.Server.Schema.{TestRow, Db}
use capi_net.Server.Lifecycle.{ahead, next_queued, promote_next_test, start_test}
use capi_net.Server.Lifecycle.Order.{
  Leads, sort_by-Leads, sort_by-All, All-sort_by, ahead-StrictWeak,
}

module _ {F : Type 0} where
  abbrev pub running_tests : List (TestRow F) → ℕ
  running_tests = count_where λ t. is_running t.status

  -- `v` has no better claim than `t`: a lower priority, or the same one and not an earlier
  -- creation, or the same creation and not a lower id.
  abbrev pub Behind : TestRow F → TestRow F → Type 0
  Behind t v =
      (ltb_ℤ v.spec.priority t.spec.priority ≡ true)
      ⊎ ((ltb_ℤ t.spec.priority v.spec.priority ≡ false)
          × ((t.created_at < v.created_at) ⊎ ((t.created_at ≡ v.created_at) × (t.id ≤ v.id))))

  not_ahead-Behind : (t v : TestRow F) → ahead v t ≡ false → Behind t v
  not_ahead-Behind t v h = ground arith

  -- `t` is queued, every queued test of the list is behind it, and no test runs.
  pub record IsNext (ts : List (TestRow F)) (t : TestRow F) : Type 0 where
    pub queued : is_queued t.status ≡ true
    pub first : All (Behind t) (select (λ u. is_queued u.status) ts)
    pub idle : running_tests ts ≡ 0

  head-IsNext :
      (ts sorted : List (TestRow F)) {t : TestRow F}
      → running_tests ts ≡ 0
      → All (λ u. is_queued u.status ≡ true) sorted
      → Leads ahead sorted
      → ((P : TestRow F → Type 0) → All P sorted → All P (select (λ u. is_queued u.status) ts))
      → head? sorted ≡ some t
      → IsNext ts t
  head-IsNext ts [] r q l back h = cc
  head-IsNext ts (u ∷ rest) {t} r q l back h =
      let same : u ≡ t = ground arith in
      record {
        queued = rw (← same) q.0;
        first =
            rw (← same) (back (Behind u) (All-impl _ (Behind u) (not_ahead-Behind u) (u ∷ rest) l));
        idle = r;
      }

  pub next_queued-IsNext : (db : Db F) {t : TestRow F} → next_queued db ≡ some t → IsNext db.tests t
  unfolding next_queued
  next_queued-IsNext db {t} h = elim (Bool-cases (any (λ u. is_running u.status) db.tests)) [
    | inl e ↦ absurd (ground arith)
    | inr e ↦
        let waiting = select (λ u. is_queued u.status) db.tests in
        head-IsNext db.tests (sort_by ahead waiting) {t = t} (any-count_where _ db.tests e)
          (All-sort_by ahead _ waiting (All-select_test _ db.tests))
          (sort_by-Leads ahead ahead-StrictWeak waiting) (λ P a. sort_by-All ahead P waiting a)
          (ground arith)
  ]

  head?-All :
      (P : TestRow F → Type 0) (xs : List (TestRow F)) {t : TestRow F}
      → All P xs
      → head? xs ≡ some t
      → P t
  head?-All P [] a h = cc
  head?-All P (x ∷ xs) {t} a h = let same : x ≡ t = ground arith in rw (← same) a.0

  -- What holds of every test holds of the next one.
  pub next_queued-All :
      (P : TestRow F → Type 0) (db : Db F) {t : TestRow F}
      → next_queued db ≡ some t
      → All P db.tests
      → P t
  unfolding next_queued
  next_queued-All P db {t} h a = elim (Bool-cases (any (λ u. is_running u.status) db.tests)) [
    | inl e ↦ absurd (ground arith)
    | inr e ↦
        let waiting = select (λ u. is_queued u.status) db.tests in
        head?-All P (sort_by ahead waiting) {t = t}
          (All-sort_by ahead P waiting (All-select P _ db.tests a)) (ground arith)
  ]

  -- When a promotion returns an id, it is the id of a queued test that every queued test is behind
  -- (each has a lower priority, or the same and a later creation time, or then the same and no
  -- lower id), no test was running, and the tests afterwards are those before with that one
  -- started.
  pub promote_picks_first :
      (now : ℕ) (db : Db F) {k : ℕ}
      → (promote_next_test now db).1 ≡ some k
      → (t : TestRow F) × (t.id ≡ k)
        × IsNext db.tests t
        × ((promote_next_test now db).0.tests
            ≡ update_where (λ u. u.id == k) (start_test now) db.tests)
  unfolding promote_next_test
  promote_picks_first now db {k} h = elim (Option-cases (next_queued db)) [
    | inl e ↦ absurd (ground arith)
    | inr (t, e) ↦
        let id : t.id ≡ k = ground arith in (t, id, next_queued-IsNext db e, ground arith)
  ]

  any-head? :
      (x : TestRow F) (xs : List (TestRow F))
      → (t : TestRow F) × (head? (insert_by ahead x xs) ≡ some t)
  any-head? x [] = (x, refl)
  any-head? x (y ∷ ys) = elim (Bool-cases (ahead y x)) [
    | inl e ↦ (y, ground arith)
    | inr e ↦ (x, ground arith)
  ]

  waiting_head :
      (ts : List (TestRow F))
      → any (λ t. is_queued t.status) ts ≡ true
      → (t : TestRow F) × (head? (sort_by ahead (select (λ t. is_queued t.status) ts)) ≡ some t)
  waiting_head [] h = cc
  waiting_head (t ∷ ts) h = elim (Bool-cases (is_queued t.status)) [
    | inl e ↦ rw e (any-head? t (sort_by ahead (select (λ t. is_queued t.status) ts)))
    | inr e ↦ rw e (waiting_head ts (ground arith))
  ]

  -- When no test runs and a test is queued, a promotion does start one.
  pub promote_starts :
      (now : ℕ) (db : Db F)
      → any (λ t. is_running t.status) db.tests ≡ false
      → any (λ t. is_queued t.status) db.tests ≡ true
      → (k : ℕ) × ((promote_next_test now db).1 ≡ some k)
  unfolding promote_next_test next_queued
  promote_starts now db idle waits =
      let (t, e) = waiting_head db.tests waits in (t.id, ground arith)
