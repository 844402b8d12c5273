-- ===== src/Server/Http/Snapshot.antt =====
-- server/http/routes.cpp: GET /api/tests/{id}/stats, before `guarded`.
use capi_net.Base.{ℕ, Option, none, some, [], ◌∷◌, ◌++◌, if◌then◌else◌}
use capi_net.Base.Json.{Value, string, real, integer, number, nullable, object_of}
use capi_net.Server.Penta
use capi_net.Server.Types.{is_sprt}
use capi_net.Server.Schema.{Db}
use capi_net.Server.Views.{TestStatsSnapshot, load_test_stats}
use capi_net.Server.Http.{
  Result, returns, and_then, Response, Request, send_json, send_error, path_id, adjudication_json,
  score_json,
}
use capi_net.Server.Http.Words.{kind_text, status_text, result_text}
use capi_net.Server.Http.Admin.{ref_json}
use capi_net.Server.Http.Site.{Site}

module _ {F : Type 0} where
  abbrev pub pairs_json : TestStatsSnapshot F → Value F
  pairs_json t = object_of (
      ("total", number t.spec.total_pairs)
      ∷ ("valid", number (Penta.pairs t.penta))
      ∷ ("pending", number t.pairs_pending)
      ∷ ("leased", number t.pairs_leased)
      ∷ ("completed", number t.pairs_completed)
      ∷ ("discarded", number t.pairs_discarded)
      ∷ [])

  abbrev pub penta_json : Penta.Pentanomial → Value F
  penta_json p = object_of (
      ("ll", number p.c_ll)
      ∷ ("ld", number p.c_ld)
      ∷ ("dd_wl", number p.c_dd_wl)
      ∷ ("wd", number p.c_wd)
      ∷ ("ww", number p.c_ww)
      ∷ [])

  abbrev pub elo_json : TestStatsSnapshot F → Value F
  elo_json t = object_of (
      ("value", nullable real t.elo)
      ∷ ("ci_low", nullable real t.elo_ci_low)
      ∷ ("ci_high", nullable real t.elo_ci_high)
      ∷ [])

  abbrev pub sprt_json : TestStatsSnapshot F → Value F
  sprt_json t = object_of (
      ("elo0", nullable real t.spec.sprt_elo0)
      ∷ ("elo1", nullable real t.spec.sprt_elo1)
      ∷ ("alpha", nullable real t.spec.sprt_alpha)
      ∷ ("beta", nullable real t.spec.sprt_beta)
      ∷ ("llr", nullable real t.llr)
      ∷ ("llr_lower", nullable real t.llr_lower)
      ∷ ("llr_upper", nullable real t.llr_upper)
      ∷ [])

  abbrev pub time_json : Site F → Option ℕ → Value F
  time_json s t = nullable (λ n. string (s.time_text n)) t

  unfoldable pub stats_json : Site F → TestStatsSnapshot F → Value F
  stats_json s t = object_of (
      (("test_id", number t.test_id)
        ∷ ("name", string t.spec.name)
        ∷ ("kind", string (kind_text t.spec.kind))
        ∷ ("status", string (status_text t.status))
        ∷ ("result", string (result_text t.result))
        ∷ ("priority", integer t.priority)
        ∷ ("candidate", ref_json t.spec.candidate_ref t.candidate_commit)
        ∷ ("baseline", ref_json t.spec.baseline_ref t.baseline_commit)
        ∷ ("tc_base_ms", number t.spec.tc_base_ms)
        ∷ ("tc_increment_ms", number t.spec.tc_increment_ms)
        ∷ ("hash_mb", number t.spec.hash_mb)
        ∷ ("threads", number t.threads)
        ∷ ("book_name", string t.spec.book_name)
        ∷ ("created_at", string (s.time_text t.created_at))
        ∷ ("started_at", time_json s t.started_at)
        ∷ ("finished_at", time_json s t.finished_at)
        ∷ ("adjudication", adjudication_json t.adjudication)
        ∷ ("score", score_json s.doubles t.wins t.draws t.losses)
        ∷ ("pairs", pairs_json t)
        ∷ ("penta", penta_json t.penta)
        ∷ ("elo", elo_json t)
        ∷ ("updated_at", time_json s t.stats_updated_at)
        ∷ [])
      ++ (if is_sprt t.spec.kind then ("sprt", sprt_json t) ∷ [] else []))

  abbrev pub stats_answer : Site F → Option (TestStatsSnapshot F) → Response F
  stats_answer s none = send_error 404 "test_not_found" ""
  stats_answer s (some t) = send_json 200 (stats_json s t)

  unfoldable pub stats_route : Site F → Request F → Db F → Result (Response F × Db F)
  stats_route s req db =
      and_then s.connection
        λ _. and_then (path_id 0 req) λ id. returns (stats_answer s (load_test_stats id db), db)
