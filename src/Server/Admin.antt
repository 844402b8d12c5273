-- ===== src/Server/Admin.antt =====
-- server/admin.cpp: the transactions behind the admin routes, each at time `now`.
use capi_net.Base.{
  ℕ, zero, suc, ◌+◌, Bool, true, false, not, ◌&&◌, ◌||◌, Option, none, some, [], ◌∷◌, ◌++◌, ◌==◌,
  if◌then◌else◌, update_where, String,
}
use Prim.Native.Char.{Char, code}
use capi_net.Base.Int.{ℤ}
use text.Mathlib.Text.{◌==◌ as str_eq}
use capi_net.Server.Types.{
  TestSpec, TestStatus, validating, stopped, TestResult, Adjudication, is_validating, is_queued,
  is_running, is_sprt,
}
use capi_net.Server.Schema.{TestRow, Db, Services, test_by_id}
use capi_net.Server.Lifecycle.{promote_next_test}

-- the column defaults of migrations/002_qos_hint_and_adjudication.sql
abbrev pub default_adjudication : Adjudication
default_adjudication = record {
  draw_rule = some (record { movenumber = 34; movecount = 8; score_cp = 20 });
  resign_rule = some (record { movecount = 5; score_cp = 1000; twosided = true });
}

pub data StopStatus : Type 0 where
  stop_done stop_not_found already_terminal : StopStatus

pub record StopOutcome : Type 0 where
  pub status : StopStatus
  pub previous : Option TestStatus
  pub promoted : Option ℕ

pub data PriorityStatus : Type 0 where
  updated priority_not_found not_queued : PriorityStatus

-- 'validating', 'queued' or 'running'
abbrev pub is_live : TestStatus → Bool
is_live s = is_validating s || is_queued s || is_running s

abbrev pub put_char : Char → Option String → Option String
put_char c none = none
put_char c (some s) = some (String.◌∷◌ c s)

-- CHAR(n): a shorter text is filled with blanks, and a longer one only loses blanks
unfoldable pub char_n : ℕ → String → Option String
char_n zero String.[] = some ""
char_n zero (String.◌∷◌ c s) = let rest = char_n zero s in if code c == b' ' then rest else none
char_n (suc n) String.[] = put_char " " (char_n n String.[])
char_n (suc n) (String.◌∷◌ c s) = put_char c (char_n n s)

module _ {F : Type 0} (sv : Services F) where
  -- CHECK (kind <> 'sprt' OR (elo0 IS NOT NULL AND elo1 IS NOT NULL AND elo0 < elo1))
  abbrev pub bounds_ok : Option F → Option F → Bool
  bounds_ok (some lo) (some hi) = sv.less lo hi
  bounds_ok _ _ = false

  abbrev pub row_checks : TestSpec F → String → String → Bool
  row_checks s candidate baseline =
      not (str_eq candidate baseline) && (not (is_sprt s.kind) || bounds_ok s.sprt_elo0 s.sprt_elo1)

  abbrev pub new_test : ℕ → ℕ → TestSpec F → String → String → TestRow F
  new_test now id s candidate baseline = record {
    id = id;
    spec = s;
    candidate_commit = candidate;
    baseline_commit = baseline;
    status = validating;
    result = TestResult.pending;
    threads = 1;
    adj = default_adjudication;
    validation_log = none;
    created_at = now;
    started_at = none;
    finished_at = none;
  }

  -- the commits, as the columns take them
  abbrev pub insert_row : ℕ → TestSpec F → Option String → Option String → Db F → Option (ℕ × Db F)
  insert_row now s (some candidate) (some baseline) db =
      if row_checks s candidate baseline
      then some (
        db.next_test,
        record db {
          tests = db.tests ++ new_test now db.next_test s candidate baseline ∷ [];
          next_test = db.next_test + 1;
        },
      )
      else none
  insert_row now s _ _ db = none

  -- `none` is a breach of a type or of a CHECK
  unfoldable pub insert_test : ℕ → TestSpec F → String → String → Db F → Option (ℕ × Db F)
  insert_test now s candidate baseline db =
      insert_row now s (char_n 40 candidate) (char_n 40 baseline) db

module _ {F : Type 0} where
  abbrev pub stop_row : ℕ → TestRow F → TestRow F
  stop_row now t = record t { status = stopped; finished_at = some now }

  abbrev pub stop_answer : TestRow F → Option ℕ → StopOutcome
  stop_answer t p = record { status = stop_done; previous = some t.status; promoted = p }

  unfoldable pub stop_live : ℕ → TestRow F → Db F → StopOutcome × Db F
  stop_live now t db =
      let halted = record db { tests = update_where (λ u. u.id == t.id) (stop_row now) db.tests } in
      if is_running t.status
      then (let (next, promoted) = promote_next_test now halted in (stop_answer t promoted, next))
      else (stop_answer t none, halted)

  unfoldable pub stop_test : ℕ → ℕ → Db F → StopOutcome × Db F
  stop_test now test_id db = elim (test_by_id test_id db) [
    | none ↦ (record { status = stop_not_found; previous = none; promoted = none }, db)
    | some t ↦
        if is_live t.status
        then stop_live now t db
        else (record { status = already_terminal; previous = some t.status; promoted = none }, db)
  ]

  abbrev pub with_priority : ℤ → TestRow F → TestRow F
  with_priority p t = record t { spec = record t.spec { priority = p } }

  unfoldable pub set_priority : ℕ → ℤ → Db F → (PriorityStatus × Option TestStatus) × Db F
  set_priority test_id p db = elim (test_by_id test_id db) [
    | none ↦ ((priority_not_found, none), db)
    | some t ↦
        if is_validating t.status || is_queued t.status
        then (
          (updated, some t.status),
          record db { tests = update_where (λ u. u.id == test_id) (with_priority p) db.tests },
        )
        else ((not_queued, some t.status), db)
  ]
