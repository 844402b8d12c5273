-- ===== src/Protocol/Tests.antt =====
-- The theorems on the protocol, applied to the database of `Server.Samples`.
use capi_net.Base.{◌*◌, ℕ, ◌≡◌, refl, arith, true, false, Option, none, some, List, [], ◌∷◌}
use capi_net.Base.Int.{pos}
use capi_net.Base.Numerals.{show, digits}
use capi_net.Base.Json.{Value, integer}
use capi_net.Server.Types.{candidate_win, normal}
use capi_net.Server.Views.{active_test}
use capi_net.Server.Queue.Claim.{
  claim_pairs, running_test, caller, picked, hand_out, join_positions, join_position, lease_us,
}
use capi_net.Server.Queue.Submit.{submit_result}
use capi_net.Server.Http.{guarded, parse_body, and_then, returns}
use capi_net.Server.Http.Games.{parse_report}
use capi_net.Server.Http.Routes.{claim_route, result_route, active_answer}
use capi_net.Server.Samples.{sample_db, sample_site, sample_doubles, sample_server}
use capi_net.Client.Poll.{EffectiveTc}
use capi_net.Client.Results.{ParsedGame, SlotInfo, result_body}
use capi_net.Client.Api
use capi_net.Client.Api.{Getters, ReadsIntegers, Answer, answer, submit, claim, claim_body}
use capi_net.Protocol.{reply_of}
use capi_net.Protocol.Submits.{outcome, after}
use capi_net.Protocol.Claims.{seen_claim, claim-claim_route}
use capi_net.Protocol.Active.{active_test-active_answer, client_active}
use capi_net.Protocol.Reports.{parse_report-result_body}
use capi_net.Protocol.Delivery.{result_request, pair_report, submit-result_body}
use capi_net.Base.Json.{object}
use capi_net.Server.Types.{pinned}
use capi_net.Server.Clients
use capi_net.Server.Http.Routes.{register_route}
use capi_net.Client.Topology.{Topology}
use capi_net.Client.Startup.{Host, client_name, registration_members}
use capi_net.Protocol.Registration.{
  registration_of, seen_registration, register_client-register_route,
}

abbrev as_number : Value ℕ → Option ℕ
as_number (integer (pos n)) = some n
as_number _ = none

abbrev sample_getters : Getters ℕ
sample_getters = record { get_int = as_number; get_int64 = as_number }

abbrev sample_law : ReadsIntegers sample_getters
sample_law = record { int_law = λ n h. refl; int64_law = λ n h. refl }

claim-claim_route_example :
    claim sample_getters (
      reply_of
        (guarded
          (claim_route sample_site
            (record { matches = []; params = []; body = some (claim_body 1 1) })
            sample_db)
          sample_db).0)
    ≡ seen_claim (claim_pairs 30 600 (λ _. false) 1 1 sample_db).0
unfolding claim_pairs running_test caller picked hand_out join_positions join_position lease_us
claim-claim_route_example =
    claim-claim_route sample_getters sample_law sample_site sample_db 1 1 (omega arith)
      (omega arith) refl (omega arith) ((omega arith, omega arith), tt)

active_test-active_answer_example :
    Api.active_test sample_getters (reply_of (active_answer sample_server (active_test sample_db)))
    ≡ answer (client_active sample_server (active_test sample_db))
unfolding active_test
active_test-active_answer_example =
    active_test-active_answer sample_getters sample_law sample_server (active_test sample_db)
      (omega arith, omega arith, omega arith, omega arith, omega arith, tt, tt)

abbrev sample_parsed : ParsedGame
sample_parsed = record {
  text = "1. e4 *";
  candidate_is_white = true;
  outcome = candidate_win;
  termination = normal;
  ply_count = some (pos 80);
  duration_ms = some 20000;
  candidate_usage = some (record { nodes = 900; time_ms = 30 });
  baseline_usage = none;
}

abbrev sample_slot : SlotInfo
sample_slot = record { index = 0; core = some 2 }

abbrev sample_tc : EffectiveTc
sample_tc = record { base_ms = 20000; increment_ms = 200 }

-- the second game is missing
abbrev sample_games : List (Option ParsedGame)
sample_games = some sample_parsed ∷ []

parse_report-result_body_example :
    and_then
      (parse_body (some (result_body 1 sample_games "" sample_slot sample_tc 2)))
      (parse_report sample_doubles (λ n. n * 1000))
    ≡ returns (pair_report 1 2000 sample_games "" sample_slot sample_tc)
parse_report-result_body_example =
    parse_report-result_body "" sample_slot sample_tc 2 sample_doubles (λ n. n * 1000) 1
      sample_games (omega arith) (omega arith, omega arith, omega arith, omega arith)
      (omega arith, omega arith, (omega arith, omega arith), tt) tt refl

submit-result_body_example :
    (submit (
        reply_of
          (guarded
            (result_route sample_site
              (result_request 1 (result_body 1 sample_games "" sample_slot sample_tc 2))
              sample_db)
            sample_db).0)
      ≡ outcome (
          submit_result sample_site.services 30 1
            (pair_report 1 2000 sample_games "" sample_slot sample_tc)
            sample_db))
    × ((guarded
          (result_route sample_site
            (result_request 1 (result_body 1 sample_games "" sample_slot sample_tc 2))
            sample_db)
          sample_db).1
        ≡ after
            (submit_result sample_site.services 30 1
              (pair_report 1 2000 sample_games "" sample_slot sample_tc)
              sample_db)
            sample_db)
submit-result_body_example =
    submit-result_body sample_site sample_db 1 1 sample_games "" sample_slot sample_tc 2
      (omega arith) (omega arith) (omega arith, omega arith, omega arith, omega arith)
      (omega arith, omega arith, (omega arith, omega arith), tt) tt refl refl

abbrev sample_topology : Topology
sample_topology = record {
  os = "Linux";
  cpu_model = "Ryzen";
  nproc = 8;
  heterogeneous = false;
  pinning_available = true;
  qos_hint_available = false;
  fast_cores = 0 ∷ 1 ∷ 2 ∷ 3 ∷ [];
  description = "4 cores";
}

-- a host without a name of its own
abbrev sample_host : Host
sample_host = record {
  name = "";
  hostname = "lab";
  arch_target = "x86_64";
  pinning_mode = pinned;
  core_topology = "4 cores";
  slots = 2;
  fastchess_version = "1.4";
}

register_client-register_route_example :
    let result =
      Clients.register_client 30 (registration_of sample_topology sample_host) sample_db in
    let answered =
      guarded
        (register_route sample_site
          (record {
            matches = [];
            params = [];
            body = some (object (registration_members sample_topology sample_host));
          })
          sample_db)
        sample_db in
    (Api.register_client sample_getters (reply_of answered.0) ≡ seen_registration result.0)
    × (answered.1 ≡ result.1)
unfolding Clients.register_client client_name show digits
register_client-register_route_example =
    register_client-register_route sample_getters sample_law sample_site sample_topology sample_host
      sample_db ((omega arith, omega arith), (omega arith, omega arith)) refl (omega arith)
