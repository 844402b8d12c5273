-- ===== src/Server/Http/Admin.antt =====
-- server/http/admin_routes.cpp: the handlers of the administration, before `guarded`. The book and
-- the runs of curl are arguments: the number of positions of a book that is a regular file, and
-- what `resolve_ref` makes of each ref.
use Prim.Native.String.{◌++◌}
use text.Mathlib.Text.{◌==◌ as str_eq}
use capi_net.Base.{
  ℕ, ◌-◌, ◌^◌, Bool, true, false, ◌||◌, Option, none, some, List, [], ◌∷◌, map, String, ltb,
  if◌then◌else◌,
}
use capi_net.Base.Int.{ℤ, pos, negsuc}
use capi_net.Base.Json.{
  Value, null, boolean, integer, real, string, array, object, Members, end, member, number,
  nullable, object_of, array_of,
}
use capi_net.Base.Numerals.{show, sto}
use capi_net.Server.Types.{TestSpec, TestStatus}
use capi_net.Server.Schema.{Db}
use capi_net.Server.Spec.{Json, Body, Parsed, spec_error, parsed, Numbers}
use capi_net.Server.Spec.Parse.{parse_test_spec}
use capi_net.Server.Github.{Resolved, resolved, github_error}
use capi_net.Server.Admin.{
  insert_test, set_priority, stop_test, StopStatus, StopOutcome, stop_done, stop_not_found,
  already_terminal, PriorityStatus, updated, priority_not_found, not_queued,
}
use capi_net.Server.Views.{ValidationInfo, get_validation, TestSummary, list_tests}
use capi_net.Server.Http.{
  Result, throws, returns, bad_request, and_then, or_throw, Response, Request, send_json,
  send_error, parse_body, req_int, path_id, param, score_json,
}
use capi_net.Server.Http.Words.{kind_text, status_text, result_text}
use capi_net.Server.Http.Site.{Site}

-- the status of a test that was found
abbrev pub status_of : Option TestStatus → String
status_of none = ""
status_of (some t) = status_text t

-- the limit of a list: 50, or the number that the text starts with, in [1, 1000]
abbrev pub read_limit : Option (ℤ × List ℕ) → Result ℕ
read_limit none = throws (bad_request "invalid limit")
read_limit (some (pos n, rest)) =
    if ltb n 1 || ltb 1000 n then throws (bad_request "limit must be in [1, 1000]") else returns n
read_limit (some (negsuc n, rest)) = throws (bad_request "limit must be in [1, 1000]")

abbrev pub limit_of : Option (List ℕ) → Result ℕ
limit_of none = returns 50
limit_of (some text) = read_limit (sto 32 text)

module _ {F : Type 0} where
  -- a value as the validation of a test looks at it
  abbrev pub shallow : Value F → Json F
  shallow null = Json.null
  shallow (boolean b) = Json.boolean b
  shallow (integer z) = Json.integer z
  shallow (real x) = Json.real x
  shallow (string t) = Json.string t
  shallow (array vs) = Json.nested
  shallow (object ms) = Json.nested

  unfoldable pub shallow_fields : Members F → List (String × Json F)
  shallow_fields end = []
  shallow_fields (member k v ms) = (k, shallow v) ∷ shallow_fields ms

  abbrev pub invalid_spec : String → Response F
  invalid_spec m = send_error 400 "invalid_spec" m

  abbrev pub ref_json : String → String → Value F
  ref_json ref commit = object_of (("ref", string ref) ∷ ("commit", string commit) ∷ [])

  abbrev pub created : TestSpec F → String → String → ℕ × Db F → Response F × Db F
  created spec candidate baseline (id, db) = (
    send_json 201 (
        object_of (
          ("test_id", number id)
          ∷ ("status", string "validating")
          ∷ ("candidate", ref_json spec.candidate_ref candidate)
          ∷ ("baseline", ref_json spec.baseline_ref baseline)
          ∷ [])),
    db,
  )

  abbrev pub github_answer : String → Bool → Response F
  github_answer m true = send_error 400 "ref_not_found" m
  github_answer m false = send_error 502 "github_unavailable" m

  -- from the commits on
  unfoldable pub create_test :
      Site F → TestSpec F → String → String → Db F → Result (Response F × Db F)
  create_test s spec candidate baseline db =
      if str_eq candidate baseline
      then returns
          (invalid_spec ("candidate and baseline resolve to the same commit " ++ candidate), db)
      else and_then s.connection λ _.
        and_then (or_throw (insert_test s.services s.now spec candidate baseline db))
          λ r. returns (created spec candidate baseline r)

  -- the baseline is resolved only after the candidate
  unfoldable pub with_commits :
      Site F → TestSpec F → Resolved → Resolved → Db F → Result (Response F × Db F)
  with_commits s spec (github_error m missing) baseline db = returns (github_answer m missing, db)
  with_commits s spec (resolved c) (github_error m missing) db =
      returns (github_answer m missing, db)
  with_commits s spec (resolved c) (resolved b) db = create_test s spec c b db

  unfoldable pub with_positions :
      Site F → TestSpec F → Option ℕ → (String → Resolved) → Db F → Result (Response F × Db F)
  with_positions s spec none resolve db =
      returns (invalid_spec ("book not found: " ++ spec.book_name), db)
  with_positions s spec (some available) resolve db =
      if ltb available spec.total_pairs
      then returns (
        invalid_spec (
            "total_pairs ("
            ++ show spec.total_pairs
            ++ ") exceeds the "
            ++ show available
            ++ " positions in "
            ++ spec.book_name),
        db,
      )
      else with_commits s spec (resolve spec.candidate_ref) (resolve spec.baseline_ref) db

  unfoldable pub with_spec :
      Site F
      → Parsed (TestSpec F)
      → (String → Option ℕ)
      → (String → Resolved)
      → Db F
      → Result (Response F × Db F)
  with_spec s (spec_error m) book resolve db = returns (invalid_spec m, db)
  with_spec s (parsed spec) book resolve db = with_positions s spec (book spec.book_name) resolve db

  unfoldable pub create_route :
      Site F
      → Numbers F
      → (String → Option ℕ)
      → (String → Resolved)
      → Request F
      → Db F
      → Result (Response F × Db F)
  create_route s num book resolve req db = and_then (parse_body req.body) λ j.
      with_spec s
        (parse_test_spec s.doubles num (Body.object (shallow_fields j)) s.cfg.sprt_presets) book
        resolve db

  abbrev pub validation_answer : Option ValidationInfo → Response F
  validation_answer none = send_error 404 "test_not_found" ""
  validation_answer (some v) = send_json 200 (
      object_of (
        ("status", string (status_text v.status)) ∷ ("validation_log", nullable string v.log) ∷ []))

  unfoldable pub validation_route : Site F → Request F → Db F → Result (Response F × Db F)
  validation_route s req db =
      and_then s.connection
        λ _. and_then (path_id 0 req) λ id. returns (validation_answer (get_validation id db), db)

  abbrev pub priority_answer : ℤ → (PriorityStatus × Option TestStatus) × Db F → Response F × Db F
  priority_answer p ((priority_not_found, t), db) = (send_error 404 "test_not_found" "", db)
  priority_answer p ((not_queued, t), db) =
      (send_error 409 "conflict" ("test is " ++ status_of t), db)
  priority_answer p ((updated, t), db) = (
    send_json 200 (object_of (("status", string (status_of t)) ∷ ("priority", integer p) ∷ [])),
    db,
  )

  unfoldable pub priority_route : Site F → Request F → Db F → Result (Response F × Db F)
  priority_route s req db = and_then (parse_body req.body) λ body.
      and_then (req_int "priority" (negsuc (2 ^ 31 - 1)) body) λ priority.
        and_then s.connection λ _.
          and_then (path_id 0 req)
            λ id. returns (priority_answer priority (set_priority id priority db))

  abbrev pub stop_response : StopOutcome → Response F
  stop_response r = answer_of r.status
    where
      answer_of : StopStatus → Response F
      answer_of stop_not_found = send_error 404 "test_not_found" ""
      answer_of already_terminal =
          send_error 409 "conflict" ("test is already " ++ status_of r.previous)
      answer_of stop_done = send_json 200 (
          object_of (
            ("status", string "stopped")
            ∷ ("previous_status", string (status_of r.previous))
            ∷ ("promoted_test_id", nullable number r.promoted)
            ∷ []))

  abbrev pub stopped_answer : StopOutcome × Db F → Response F × Db F
  stopped_answer (r, db) = (stop_response r, db)

  unfoldable pub stop_route : Site F → Request F → Db F → Result (Response F × Db F)
  stop_route s req db =
      and_then (path_id 0 req)
        λ id. and_then s.connection λ _. returns (stopped_answer (stop_test s.now id db))

  unfoldable pub summary_json : Site F → TestSummary F → Value F
  summary_json s t = object_of (
      ("test_id", number t.id)
      ∷ ("name", string t.name)
      ∷ ("kind", string (kind_text t.kind))
      ∷ ("status", string (status_text t.status))
      ∷ ("result", string (result_text t.result))
      ∷ ("priority", integer t.priority)
      ∷ ("candidate", ref_json t.candidate_ref t.candidate_commit)
      ∷ ("baseline", ref_json t.baseline_ref t.baseline_commit)
      ∷ ("total_pairs", number t.total_pairs)
      ∷ ("pairs_valid", number t.pairs_valid)
      ∷ ("llr", nullable real t.llr)
      ∷ ("llr_lower", nullable real t.llr_lower)
      ∷ ("llr_upper", nullable real t.llr_upper)
      ∷ ("elo", nullable real t.elo)
      ∷ ("score", score_json s.doubles t.wins t.draws t.losses)
      ∷ ("created_at", string (s.time_text t.created_at))
      ∷ [])

  unfoldable pub list_route : Site F → Request F → Db F → Result (Response F × Db F)
  list_route s req db = and_then (limit_of (param "limit" req.params)) λ limit.
      and_then s.connection
        λ _. returns (send_json 200 (array_of (map (summary_json s) (list_tests limit db))), db)
