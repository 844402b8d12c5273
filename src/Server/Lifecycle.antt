-- ===== src/Server/Lifecycle.antt =====
-- server/test_lifecycle.cpp: `refresh_test`, `finish_test`, `promote_next_test`. Each runs inside a
-- transaction: `none` is an exception, after which the caller's transaction is rolled back.
pub mod Order
pub mod Promotion
pub mod Frame
use capi_net.Base.{
  ℕ, Bool, not, ◌&&◌, ◌||◌, Option, none, some, List, [], ◌∷◌, ◌++◌, ltb, ◌==◌, if◌then◌else◌,
  value_or, ◌>>=◌, is_some_of, any, select, update_where, count_where, head?, sort_by,
}
use capi_net.Base.Int.{ltb_ℤ}
use capi_net.Server.Penta
use capi_net.Server.Penta.{Pentanomial, no_pairs}
use capi_net.Server.Types.{
  running, finished, TestResult, accepted, rejected, inconclusive, candidate_win, draw,
  candidate_loss, is_queued, is_running, is_pending, is_leased, is_sprt,
}
use capi_net.Server.Schema.{
  TestRow, StatsRow, HistoryRow, Db, EloEstimate, SprtDecision, accept_h0, accept_h1, keep_going,
  Services, test_by_id,
}
use capi_net.Server.Outcomes.{pair_outcomes, group_scores, add_scores, count_games}

module _ {F : Type 0} where
  -- ORDER BY priority DESC, created_at, id
  abbrev pub ahead : TestRow F → TestRow F → Bool
  ahead t u =
      ltb_ℤ u.spec.priority t.spec.priority
      || (not (ltb_ℤ t.spec.priority u.spec.priority)
          && (ltb t.created_at u.created_at || (t.created_at == u.created_at && ltb t.id u.id)))

  -- the subquery and the NOT EXISTS of the UPDATE
  unfoldable pub next_queued : Db F → Option (TestRow F)
  next_queued db =
      if any (λ t. is_running t.status) db.tests
      then none
      else head? (sort_by ahead (select (λ t. is_queued t.status) db.tests))

  abbrev pub start_test : ℕ → TestRow F → TestRow F
  start_test now t = record t { status = running; started_at = some now }

  unfoldable pub promote_next_test : ℕ → Db F → Db F × Option ℕ
  promote_next_test now db = elim (next_queued db) [
    | none ↦ (db, none)
    | some t ↦ (
      record db { tests = update_where (λ u. u.id == t.id) (start_test now) db.tests },
      some t.id,
    )
  ]

  abbrev pub set_finished : ℕ → TestResult → TestRow F → TestRow F
  set_finished now r t = record t { status = finished; result = r; finished_at = some now }

  unfoldable pub finish_test : ℕ → ℕ → TestResult → Db F → Db F
  finish_test now test_id r db =
      (promote_next_test now
        (record db { tests = update_where (λ t. t.id == test_id) (set_finished now r) db.tests })).0

  -- SELECT count(*) FROM job_pairs WHERE ... status IN ('pending', 'leased')
  unfoldable pub remaining_pairs : ℕ → Db F → ℕ
  remaining_pairs test_id db =
      count_where (λ p. p.test_id == test_id && (is_pending p.status || is_leased p.status))
        db.pairs

  unfoldable pub read_penta : ℕ → Db F → Option Pentanomial
  read_penta test_id db =
      add_scores no_pairs (group_scores (select (λ o. o.test_id == test_id) (pair_outcomes db)))

  -- INSERT ... ON CONFLICT (test_id) DO UPDATE
  unfoldable pub upsert_stats : StatsRow F → List (StatsRow F) → List (StatsRow F)
  upsert_stats s rows =
      if any (λ r. r.test_id == s.test_id) rows
      then update_where (λ r. r.test_id == s.test_id) (λ _. s) rows
      else rows ++ s ∷ []

  -- the `pairs_valid` of the newest row of the test
  unfoldable pub last_pairs : ℕ → Option ℕ → List (HistoryRow F) → Option ℕ
  last_pairs test_id seen [] = seen
  last_pairs test_id seen (h ∷ hs) =
      last_pairs test_id (if h.test_id == test_id then some h.pairs_valid else seen) hs

  -- ... WHERE pairs IS DISTINCT FROM the newest
  unfoldable pub append_history : HistoryRow F → List (HistoryRow F) → List (HistoryRow F)
  append_history h rows =
      if is_some_of (last_pairs h.test_id none rows) h.pairs_valid then rows else rows ++ h ∷ []

-- the SPRT half of `refresh_test`: llr, its bounds, and the decision
pub record SprtState (F : Type 0) : Type 0 where
  pub llr : Option F
  pub lower : Option F
  pub upper : Option F
  pub decision : SprtDecision

module _ {F : Type 0} where
  abbrev pub elo_field : (EloEstimate F → F) → Option (EloEstimate F) → Option F
  elo_field f none = none
  elo_field f (some e) = some (f e)

  -- the two INSERTs
  unfoldable pub store_stats :
      ℕ → ℕ → Pentanomial → Option (EloEstimate F) → SprtState F → Db F → Db F
  store_stats now test_id penta elo s db = record db {
    stats =
        upsert_stats
          (record {
            test_id = test_id;
            penta = penta;
            llr = s.llr;
            llr_lower = s.lower;
            llr_upper = s.upper;
            elo = elo_field (λ e. e.elo) elo;
            elo_ci_low = elo_field (λ e. e.ci_low) elo;
            elo_ci_high = elo_field (λ e. e.ci_high) elo;
            wins = count_games db test_id candidate_win;
            draws = count_games db test_id draw;
            losses = count_games db test_id candidate_loss;
            updated_at = now;
          })
          db.stats;
    history =
        append_history
          (record {
            test_id = test_id;
            pairs_valid = Penta.pairs penta;
            llr = s.llr;
            elo = elo_field (λ e. e.elo) elo;
          })
          db.history;
  }

  -- what follows `if (status != "running") return;`
  unfoldable pub stop_rule : ℕ → TestRow F → SprtDecision → Db F → Db F
  stop_rule now t accept_h1 db = finish_test now t.id accepted db
  stop_rule now t accept_h0 db = finish_test now t.id rejected db
  stop_rule now t keep_going db =
      if remaining_pairs t.id db == 0
      then finish_test now t.id (if is_sprt t.spec.kind then inconclusive else TestResult.completed)
          db
      else db

module _ {F : Type 0} (sv : Services F) where
  unfoldable pub sprt_state : TestRow F → Pentanomial → Option (SprtState F)
  sprt_state t penta =
      if is_sprt t.spec.kind
      then (t.spec.sprt_elo0 >>= λ elo0. t.spec.sprt_elo1 >>= λ elo1.
          sv.llr_normalized elo0 elo1 penta >>= λ llr.
          let bounds =
            sv.sprt_bounds (value_or t.spec.sprt_alpha sv.default_error)
              (value_or t.spec.sprt_beta sv.default_error) in
          some (record {
            llr = some llr;
            lower = some bounds.lower;
            upper = some bounds.upper;
            decision = if ltb 0 (Penta.pairs penta) then sv.sprt_decide llr bounds else keep_going;
          }))
      else some (record { llr = none; lower = none; upper = none; decision = keep_going })

  unfoldable pub elo_state : Pentanomial → Option (Option (EloEstimate F))
  elo_state penta =
      if ltb 0 (Penta.pairs penta)
      then (sv.elo_estimate penta >>= λ e. some (some e))
      else some none

  unfoldable pub refresh_row : ℕ → TestRow F → Db F → Option (Db F)
  refresh_row now t db = read_penta t.id db >>= λ penta. elo_state penta >>= λ elo.
      sprt_state t penta >>= λ s.
      let stored = store_stats now t.id penta elo s db in
      some (if is_running t.status then stop_rule now t s.decision stored else stored)

  unfoldable pub refresh_test : ℕ → ℕ → Db F → Option (Db F)
  refresh_test now test_id db = elim (test_by_id test_id db) [
    | none ↦ some db
    | some t ↦ refresh_row now t db
  ]
