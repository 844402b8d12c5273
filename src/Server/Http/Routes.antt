-- ===== src/Server/Http/Routes.antt =====
-- server/http/routes.cpp: the handlers of the clients' routes, before `guarded`. Each answers a
-- request and commits one transaction.
use Prim.Native.String.{◌++◌ as append}
use text.Mathlib.Text.{◌==◌ as str_eq}
use capi_net.Base.{
  ℕ, Bool, true, false, not, Option, none, some, [], ◌∷◌, map, String, if◌then◌else◌,
}
use capi_net.Base.Int.{pos_part}
use capi_net.Base.Json.{
  Value, null, string, boolean, number, nullable, object_of, array_of, Members,
}
use capi_net.Server.Schema.{ClientRegistration, Db}
use capi_net.Server.Clients.{register_client, heartbeat}
use capi_net.Server.Views.{ActiveTest, active_test}
use capi_net.Server.Queue.Claim
use capi_net.Server.Queue.Claim.{claim_pairs}
use capi_net.Server.Queue.Submit
use capi_net.Server.Queue.Submit.{submit_result}
use capi_net.Server.Queue.Leases.{abandon_pair}
use capi_net.Server.Http.{
  Result, returns, and_then, ensure, or_throw, Response, Request, send_json, send_error,
  status_only, parse_body, req_int64, req_count, opt_int, opt_double, req_string, opt_string,
  req_enum, path_id, adjudication_json,
}
use capi_net.Server.Http.Words.{kind_text, pinning_of}
use capi_net.Server.Http.Games.{parse_report}
use capi_net.Server.Http.Site.{Site}
use capi_net.Server.Config.{ServerConfig}

unfoldable pub health_route : {F : Type 0} → Site F → Db F → Result (Response F × Db F)
health_route s db =
    and_then s.connection
      λ _. returns (send_json 200 (object_of (("status", string "ok") ∷ [])), db)

module _ {F : Type 0} where
  unfoldable pub parse_registration : Members F → Result ClientRegistration
  parse_registration j = and_then (req_string "name" j) λ name.
      and_then (ensure (not (str_eq name "")) "name must not be empty") λ _.
        and_then (opt_string "hostname" j) λ hostname. and_then (opt_string "os" j) λ os.
          and_then (opt_string "cpu_model" j) λ cpu_model.
            and_then (opt_string "arch_target" j) λ arch.
              and_then (req_enum "pinning_mode" pinning_of j) λ mode.
                and_then (opt_string "core_topology" j) λ topology.
                  and_then (opt_string "bench_ref_commit" j) λ bench.
                    and_then (opt_string "fastchess_version" j) λ fastchess.
                      and_then (opt_int "nproc" 1 j) λ nproc.
                        and_then (req_count "slots" 1 j) λ slots. returns (record {
                          name = name;
                          hostname = hostname;
                          os = os;
                          cpu_model = cpu_model;
                          cpu_arch_target = arch;
                          pinning_mode = mode;
                          core_topology = topology;
                          bench_ref_commit = bench;
                          fastchess_version = fastchess;
                          nproc_total = nproc;
                          slots = slots;
                        })

  abbrev pub registered : (ℕ × Bool) × Db F → Response F × Db F
  registered ((id, true), db) = (
    send_json 403 (object_of (("error", string "client_banned") ∷ ("client_id", number id) ∷ [])),
    db,
  )
  registered ((id, false), db) = (send_json 200 (object_of (("client_id", number id) ∷ [])), db)

  unfoldable pub register_route : Site F → Request F → Db F → Result (Response F × Db F)
  register_route s req db = and_then (parse_body req.body) λ j.
      and_then (parse_registration j)
        λ reg. and_then s.connection λ _. returns (registered (register_client s.now reg db))

  abbrev pub beaten : Option Bool × Db F → Response F × Db F
  beaten (none, db) = (send_error 404 "unknown_client" "", db)
  beaten (some b, db) = (send_json 200 (object_of (("banned", boolean b) ∷ [])), db)

  -- `cpu_factor && !(*cpu_factor > 0)` fails, and the factor in thousandths
  abbrev pub is_factor : Site F → Option F → Bool
  is_factor s none = true
  is_factor s (some f) = s.doubles.lt (s.doubles.literal "0") f

  abbrev pub factor_of : Site F → Option F → Option ℕ
  factor_of s none = none
  factor_of s (some f) = some (s.milli f)

  unfoldable pub heartbeat_route : Site F → Request F → Db F → Result (Response F × Db F)
  heartbeat_route s req db = and_then (parse_body req.body) λ j.
      and_then (opt_double s.doubles "cpu_factor" j) λ f.
        and_then (ensure (is_factor s f) "cpu_factor must be positive") λ _.
          and_then s.connection λ _.
            and_then (path_id 0 req) λ id. returns (beaten (heartbeat s.now id (factor_of s f) db))

  -- server/github.cpp: `tarball_url`
  unfoldable pub tarball_url : ServerConfig F → String → String
  tarball_url cfg sha =
      append cfg.github_codeload (append "/" (append cfg.github_repo (append "/tar.gz/" sha)))

  abbrev pub or_null : String → Value F
  or_null s = if str_eq s "" then null else string s

  abbrev pub active_json : ServerConfig F → ActiveTest → Value F
  active_json cfg t = object_of (
      ("test_id", number t.test_id)
      ∷ ("kind", string (kind_text t.kind))
      ∷ ("candidate_commit", string t.candidate_commit)
      ∷ ("baseline_commit", string t.baseline_commit)
      ∷ ("tc_base_ms", number t.tc_base_ms)
      ∷ ("tc_increment_ms", number t.tc_increment_ms)
      ∷ ("hash_mb", number t.hash_mb)
      ∷ ("threads", number t.threads)
      ∷ ("book_name", string t.book_name)
      ∷ ("candidate_tarball_url", string (tarball_url cfg t.candidate_commit))
      ∷ ("baseline_tarball_url", string (tarball_url cfg t.baseline_commit))
      ∷ ("adjudication", adjudication_json t.adjudication)
      ∷ ("bench_reference_commit", or_null cfg.bench_reference_commit)
      ∷ [])

  abbrev pub active_answer : ServerConfig F → Option ActiveTest → Response F
  active_answer cfg none = status_only 204
  active_answer cfg (some t) = send_json 200 (active_json cfg t)

  unfoldable pub active_test_route : Site F → Db F → Result (Response F × Db F)
  active_test_route s db =
      and_then s.connection λ _. returns (active_answer s.cfg (active_test db), db)

  abbrev pub pair_json : Site F → Claim.ClaimedPair → Value F
  pair_json s p = object_of (
      ("pair_id", number p.pair_id)
      ∷ ("position_id", number p.position_id)
      ∷ ("position_seq", number p.position_seq)
      ∷ ("fen", string p.fen)
      ∷ ("lease_expires_at", nullable (λ t. string (s.time_text t)) p.lease_expires_at)
      ∷ [])

  abbrev pub claim_response : Site F → Claim.ClaimResult → Response F
  claim_response s c = answer_of c.status
    where
      answer_of : Claim.ClaimStatus → Response F
      answer_of Claim.unknown_client = send_error 404 "unknown_client" ""
      answer_of Claim.banned_client = send_error 403 "client_banned" ""
      answer_of Claim.no_active_test = status_only 204
      answer_of Claim.claim_ok = send_json 200 (
          object_of
            (("test_id", number c.test_id) ∷ ("pairs", array_of (map (pair_json s) c.pairs)) ∷ []))

  abbrev pub claimed : Site F → Claim.ClaimResult × Db F → Response F × Db F
  claimed s (c, db) = (claim_response s c, db)

  unfoldable pub claim_route : Site F → Request F → Db F → Result (Response F × Db F)
  claim_route s req db = and_then (parse_body req.body) λ j.
      and_then (req_int64 "client_id" j) λ client. and_then (req_count "slots_free" 0 j) λ slots.
        and_then s.connection λ _.
          returns
            (claimed s (claim_pairs s.now s.cfg.lease_ttl_min s.locked (pos_part client) slots db))

  abbrev pub submit_response : Submit.SubmitResult → Response F
  submit_response r = answer_of r.status
    where
      answer_of : Submit.SubmitStatus → Response F
      answer_of Submit.accepted =
          send_json 200
            (object_of (("status", string "accepted") ∷ ("valid_games", number r.valid_games) ∷ []))
      answer_of Submit.pair_not_found = send_error 404 "pair_not_found" ""
      answer_of Submit.SubmitStatus.unknown_client = send_error 404 "unknown_client" ""
      answer_of Submit.lease_lost = send_error 409 "conflict" "lease_lost"
      answer_of Submit.already_completed = send_error 409 "conflict" "already_completed"
      answer_of Submit.test_finished = send_error 409 "conflict" "test_finished"
      answer_of Submit.client_banned = send_error 409 "conflict" "client_banned"

  abbrev pub submitted : Submit.SubmitResult × Db F → Response F × Db F
  submitted (r, db) = (submit_response r, db)

  unfoldable pub result_route : Site F → Request F → Db F → Result (Response F × Db F)
  result_route s req db = and_then (path_id 0 req) λ pair_id. and_then (parse_body req.body) λ j.
      and_then (parse_report s.doubles s.milli j) λ report. and_then s.connection λ _.
        and_then (or_throw (submit_result s.services s.now pair_id report db))
          λ r. returns (submitted r)

  abbrev pub abandoned : Bool × Db F → Response F × Db F
  abandoned (false, db) = (send_error 409 "conflict" "lease_lost", db)
  abandoned (true, db) = (send_json 200 (object_of (("status", string "released") ∷ [])), db)

  unfoldable pub abandon_route : Site F → Request F → Db F → Result (Response F × Db F)
  abandon_route s req db = and_then (path_id 0 req) λ pair_id. and_then (parse_body req.body) λ j.
      and_then (req_int64 "client_id" j) λ client.
        and_then s.connection λ _. returns (abandoned (abandon_pair pair_id (pos_part client) db))
