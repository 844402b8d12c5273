-- ===== src/Protocol/Delivery.antt =====
-- The result of a pair on its whole way: the body of the client, its path, the route of the
-- server, `submit_result` and the status that the client reads.
use capi_net.Base.{ℕ, ◌≡◌, refl, true, Option, some, List, [], ◌∷◌, String, ◌^◌, ◌<◌, lt→ltb}
use capi_net.Base.Numerals.{decimal, number_of-decimal}
use capi_net.Base.Json.{Value}
use capi_net.Server.Types.{PairReport}
use capi_net.Server.Schema.{Db}
use capi_net.Server.Queue.Submit.{submit_result}
use capi_net.Server.Http.{returns, and_then, Request, guarded, path_id, parse_body}
use capi_net.Server.Http.Site.{Site}
use capi_net.Server.Http.Routes.{result_route}
use capi_net.Client.Poll.{EffectiveTc}
use capi_net.Client.Results.{ParsedGame, SlotInfo, game_at, result_body}
use capi_net.Client.Api.{submit}
use capi_net.Protocol.{reply_of}
use capi_net.Protocol.Submits.{outcome, after, submit-result_route}
use capi_net.Protocol.Reports.{ConditionsFit, GameFits, game_report, parse_report-result_body}

-- the request of `Api::submit`: the route's expression matches the digits of the path
abbrev pub result_request : {F : Type 0} → ℕ → Value F → Request F
result_request pair_id body = record {
  matches = decimal pair_id ∷ [];
  params = [];
  body = some body;
}

-- the report of a pair as the server reads it
abbrev pub pair_report :
    ℕ → ℕ → List (Option ParsedGame) → String → SlotInfo → EffectiveTc → PairReport
pair_report client_id factor games note slot tc = record {
  client_id = client_id;
  game0 = game_report factor 0 note slot tc (game_at 0 games) (game_at 1 games);
  game1 = game_report factor 1 note slot tc (game_at 1 games) (game_at 0 games);
}

path_id-decimal :
    {F : Type 0} (pair_id : ℕ) (body : Value F)
    → pair_id < 2 ^ 63
    → path_id 0 (result_request pair_id body) ≡ returns pair_id
unfolding path_id
path_id-decimal pair_id body h = rw (number_of-decimal pair_id, lt→ltb pair_id (2 ^ 63) h) refl

-- A result on its whole way. When the client sends the body of two games (or of fewer, as crashes
-- with a note) whose numbers fit the integers of the wire, on the path of a pair, with a positive
-- CPU factor and a connection free, the server runs submit_result on the report of exactly these
-- games; the client reads the status that submit_result returned (a protocol error for an unknown
-- pair or client, a transient error if it threw), and the database is the one after submit_result.
pub submit-result_body :
    {F : Type 0} (s : Site F) (db : Db F) (pair_id client_id : ℕ) (games : List (Option ParsedGame))
    (note : String) (slot : SlotInfo) (tc : EffectiveTc) (factor : F)
    → pair_id < 2 ^ 63
    → client_id < 2 ^ 63
    → ConditionsFit slot tc
    → GameFits (game_at 0 games)
    → GameFits (game_at 1 games)
    → s.doubles.lt (s.doubles.literal "0") factor ≡ true
    → s.connection ≡ returns tt
    → let request = result_request pair_id (result_body client_id games note slot tc factor) in
      let result =
        submit_result s.services s.now pair_id
          (pair_report client_id (s.milli factor) games note slot tc)
          db in
      (submit (reply_of (guarded (result_route s request db) db).0) ≡ outcome result)
      × ((guarded (result_route s request db) db).1 ≡ after result db)
unfolding result_body parse_body and_then
submit-result_body s db pair_id client_id games note slot tc factor p n c first second positive k =
    submit-result_route s _ db pair_id _ _ (path_id-decimal pair_id _ p) refl
      (parse_report-result_body note slot tc factor s.doubles s.milli client_id games n c first
        second positive)
      k
