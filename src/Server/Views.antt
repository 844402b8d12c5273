-- ===== src/Server/Views.antt =====
-- The reads of the server: `active_test` (server/queue.cpp), `running_test_id` and
-- `load_test_stats` (server/test_lifecycle.cpp), `get_validation` and `list_tests`
-- (server/admin.cpp). A time is a number and an enum keeps its type.
pub mod Laws
use capi_net.Base.{
  ℕ, ◌+◌, ◌*◌, Bool, true, false, not, ◌&&◌, ◌||◌, Option, none, some, List, [], ◌∷◌, map, String,
  ltb, ◌==◌, if◌then◌else◌, count_where, select, find_first, head?, sort_by, take, value_or,
}
use capi_net.Base.Int.{ℤ, ltb_ℤ}
use capi_net.Server.Penta
use capi_net.Server.Penta.{Pentanomial, no_pairs}
use capi_net.Server.Types.{
  TestKind, TestStatus, validating, queued, running, TestResult, TestSpec, Adjudication, is_running,
  is_pending, is_leased, is_completed, is_discarded,
}
use capi_net.Server.Schema.{TestRow, PairRow, StatsRow, Db, test_by_id}

pub record ActiveTest : Type 0 where
  pub test_id : ℕ
  pub kind : TestKind
  pub candidate_commit : String
  pub baseline_commit : String
  pub tc_base_ms : ℕ
  pub tc_increment_ms : ℕ
  pub hash_mb : ℕ
  pub threads : ℕ
  pub book_name : String
  pub adjudication : Adjudication

pub record TestStatsSnapshot (F : Type 0) : Type 0 where
  pub test_id : ℕ
  pub spec : TestSpec F
  pub status : TestStatus
  pub result : TestResult
  pub pairs_pending : ℕ
  pub pairs_leased : ℕ
  pub pairs_completed : ℕ
  pub pairs_discarded : ℕ
  pub has_stats : Bool
  pub penta : Pentanomial
  pub llr : Option F
  pub llr_lower : Option F
  pub llr_upper : Option F
  pub elo : Option F
  pub elo_ci_low : Option F
  pub elo_ci_high : Option F
  pub stats_updated_at : Option ℕ
  pub candidate_commit : String
  pub baseline_commit : String
  pub threads : ℕ
  pub priority : ℤ
  pub created_at : ℕ
  pub started_at : Option ℕ
  pub finished_at : Option ℕ
  pub adjudication : Adjudication
  pub wins : ℕ
  pub draws : ℕ
  pub losses : ℕ

pub record ValidationInfo : Type 0 where
  pub status : TestStatus
  pub log : Option String

pub record TestSummary (F : Type 0) : Type 0 where
  pub id : ℕ
  pub name : String
  pub kind : TestKind
  pub status : TestStatus
  pub result : TestResult
  pub candidate_ref : String
  pub candidate_commit : String
  pub baseline_ref : String
  pub baseline_commit : String
  pub priority : ℤ
  pub total_pairs : ℕ
  pub pairs_valid : ℕ
  pub llr : Option F
  pub llr_lower : Option F
  pub llr_upper : Option F
  pub elo : Option F
  pub created_at : ℕ
  pub wins : ℕ
  pub draws : ℕ
  pub losses : ℕ

-- the first sort key
abbrev pub list_rank : TestStatus → ℕ
list_rank running = 0
list_rank queued = 1
list_rank validating = 1
list_rank _ = 2

-- a nullable column of the LEFT JOIN with test_stats
abbrev pub joined : {A B : Type 0} → Option A → (A → Option B) → Option B
joined none f = none
joined (some a) f = f a

-- COALESCE of such a column
abbrev pub counted : {A : Type 0} → Option A → (A → ℕ) → ℕ
counted none f = 0
counted (some a) f = f a

module _ {F : Type 0} where
  -- An adjudication rule is there or not as a whole: its columns are null together.
  abbrev pub active_row : TestRow F → ActiveTest
  active_row t = record {
    test_id = t.id;
    kind = t.spec.kind;
    candidate_commit = t.candidate_commit;
    baseline_commit = t.baseline_commit;
    tc_base_ms = t.spec.tc_base_ms;
    tc_increment_ms = t.spec.tc_increment_ms;
    hash_mb = t.spec.hash_mb;
    threads = t.threads;
    book_name = t.spec.book_name;
    adjudication = t.adj;
  }

  abbrev pub active_of : Option (TestRow F) → Option ActiveTest
  active_of none = none
  active_of (some t) = some (active_row t)

  unfoldable pub active_test : Db F → Option ActiveTest
  active_test db = active_of (find_first (λ t. is_running t.status) db.tests)

  abbrev pub id_of : Option (TestRow F) → Option ℕ
  id_of none = none
  id_of (some t) = some t.id

  unfoldable pub running_test_id : Db F → Option ℕ
  running_test_id db = id_of (find_first (λ t. is_running t.status) db.tests)

  abbrev pub stats_of : ℕ → Db F → Option (StatsRow F)
  stats_of k db = find_first (λ s. s.test_id == k) db.stats

  abbrev pub pairs_with : (PairRow → Bool) → ℕ → Db F → ℕ
  pairs_with p k db = count_where (λ q. q.test_id == k && p q) db.pairs

  abbrev pub has_row : Option (StatsRow F) → Bool
  has_row none = false
  has_row (some _) = true

  abbrev pub penta_or_none : Option (StatsRow F) → Pentanomial
  penta_or_none none = no_pairs
  penta_or_none (some s) = s.penta

  unfoldable pub snapshot : TestRow F → Option (StatsRow F) → Db F → TestStatsSnapshot F
  snapshot t s db = record {
    test_id = t.id;
    spec = t.spec;
    status = t.status;
    result = t.result;
    pairs_pending = pairs_with (λ p. is_pending p.status) t.id db;
    pairs_leased = pairs_with (λ p. is_leased p.status) t.id db;
    pairs_completed = pairs_with (λ p. is_completed p.status) t.id db;
    pairs_discarded = pairs_with (λ p. is_discarded p.status) t.id db;
    has_stats = has_row s;
    penta = penta_or_none s;
    llr = joined s (λ r. r.llr);
    llr_lower = joined s (λ r. r.llr_lower);
    llr_upper = joined s (λ r. r.llr_upper);
    elo = joined s (λ r. r.elo);
    elo_ci_low = joined s (λ r. r.elo_ci_low);
    elo_ci_high = joined s (λ r. r.elo_ci_high);
    stats_updated_at = joined s (λ r. some r.updated_at);
    candidate_commit = t.candidate_commit;
    baseline_commit = t.baseline_commit;
    threads = t.threads;
    priority = t.spec.priority;
    created_at = t.created_at;
    started_at = t.started_at;
    finished_at = t.finished_at;
    adjudication = t.adj;
    wins = counted s (λ r. r.wins);
    draws = counted s (λ r. r.draws);
    losses = counted s (λ r. r.losses);
  }

  abbrev pub snapshot_of : Option (TestRow F) → Db F → Option (TestStatsSnapshot F)
  snapshot_of none db = none
  snapshot_of (some t) db = some (snapshot t (stats_of t.id db) db)

  unfoldable pub load_test_stats : ℕ → Db F → Option (TestStatsSnapshot F)
  load_test_stats k db = snapshot_of (test_by_id k db) db

  abbrev pub validation_of : Option (TestRow F) → Option ValidationInfo
  validation_of none = none
  validation_of (some t) = some (record { status = t.status; log = t.validation_log })

  unfoldable pub get_validation : ℕ → Db F → Option ValidationInfo
  get_validation k db = validation_of (test_by_id k db)

  -- ORDER BY of `list_tests`: where two ranks are equal, both rows wait or neither does
  abbrev pub listed_before : TestRow F → TestRow F → Bool
  listed_before t u =
      ltb (list_rank t.status) (list_rank u.status)
      || (list_rank t.status == list_rank u.status
          && (if list_rank t.status == 1
              then ltb_ℤ u.spec.priority t.spec.priority
                || (not (ltb_ℤ t.spec.priority u.spec.priority) && ltb t.id u.id)
              else ltb u.id t.id))

  unfoldable pub summary : Db F → TestRow F → TestSummary F
  summary db t =
      let s = stats_of t.id db in
      record {
        id = t.id;
        name = t.spec.name;
        kind = t.spec.kind;
        status = t.status;
        result = t.result;
        candidate_ref = t.spec.candidate_ref;
        candidate_commit = t.candidate_commit;
        baseline_ref = t.spec.baseline_ref;
        baseline_commit = t.baseline_commit;
        priority = t.spec.priority;
        total_pairs = t.spec.total_pairs;
        pairs_valid = counted s (λ r. Penta.pairs r.penta);
        llr = joined s (λ r. r.llr);
        llr_lower = joined s (λ r. r.llr_lower);
        llr_upper = joined s (λ r. r.llr_upper);
        elo = joined s (λ r. r.elo);
        created_at = t.created_at;
        wins = counted s (λ r. r.wins);
        draws = counted s (λ r. r.draws);
        losses = counted s (λ r. r.losses);
      }

  -- `limit` is what the caller passes to LIMIT
  unfoldable pub list_tests : ℕ → Db F → List (TestSummary F)
  list_tests limit db = map (summary db) (take limit (sort_by listed_before db.tests))
