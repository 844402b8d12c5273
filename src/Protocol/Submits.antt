-- ===== src/Protocol/Submits.antt =====
-- `Api::submit` and POST /api/jobs/{id}/result.
use capi_net.Base.{ℕ, ◌≡◌, refl, Option, none, some}
use capi_net.Base.Json.{Members, lookup}
use capi_net.Server.Types.{PairReport}
use capi_net.Server.Schema.{Db}
use capi_net.Server.Queue.Submit
use capi_net.Server.Queue.Submit.{SubmitResult, submit_result}
use capi_net.Server.Http.{
  returns, and_then, or_throw, Request, guarded, path_id, parse_body, send_error,
}
use capi_net.Server.Http.Site.{Site}
use capi_net.Server.Http.Games.{parse_report}
use capi_net.Server.Http.Routes.{result_route, submit_response, submitted}
use capi_net.Client.Api
use capi_net.Client.Api.{Answer, transient, protocol_error, answer, request, submit}
use capi_net.Protocol.{reply_of}

-- what the client makes of a status of `submit_result`
abbrev pub seen : Submit.SubmitStatus → Answer Api.SubmitStatus
seen Submit.accepted = answer Api.accepted
seen Submit.pair_not_found = protocol_error
seen Submit.SubmitStatus.unknown_client = protocol_error
seen Submit.lease_lost = answer Api.lease_lost
seen Submit.already_completed = answer Api.already_completed
seen Submit.test_finished = answer Api.test_finished
seen Submit.client_banned = answer Api.client_banned

abbrev pub outcome : {F : Type 0} → Option (SubmitResult × Db F) → Answer Api.SubmitStatus
outcome none = transient
outcome (some (r, db)) = seen r.status

abbrev pub after : {F : Type 0} → Option (SubmitResult × Db F) → Db F → Db F
after none db = db
after (some (r, next)) db = next

seen-response :
    (F : Type 0) (status : Submit.SubmitStatus) (n : ℕ)
    → submit (reply_of (submit_response {F = F} (record { status = status; valid_games = n })))
      ≡ seen status
unfolding submit request Api.and_then lookup send_error
seen-response F Submit.accepted n = refl
seen-response F Submit.pair_not_found n = refl
seen-response F Submit.SubmitStatus.unknown_client n = refl
seen-response F Submit.lease_lost n = refl
seen-response F Submit.already_completed n = refl
seen-response F Submit.test_finished n = refl
seen-response F Submit.client_banned n = refl

settles :
    {F : Type 0} (o : Option (SubmitResult × Db F)) (db : Db F)
    → (submit (reply_of (guarded (and_then (or_throw o) λ r. returns (submitted r)) db).0)
        ≡ outcome o)
      × ((guarded (and_then (or_throw o) λ r. returns (submitted r)) db).1 ≡ after o db)
unfolding guarded and_then or_throw submit request Api.and_then send_error
settles none db = (refl, refl)
settles (some (r, next)) db = (seen-response _ r.status r.valid_games, refl)

-- t
pub submit-result_route :
    {F : Type 0} (s : Site F) (req : Request F) (db : Db F) (pair_id : ℕ) (ms : Members F)
    (report : PairReport)
    → path_id 0 req ≡ returns pair_id
    → parse_body req.body ≡ returns ms
    → parse_report s.doubles s.milli ms ≡ returns report
    → s.connection ≡ returns tt
    → (submit (reply_of (guarded (result_route s req db) db).0)
        ≡ outcome (submit_result s.services s.now pair_id report db))
      × ((guarded (result_route s req db) db).1
          ≡ after (submit_result s.services s.now pair_id report db) db)
unfolding result_route and_then
submit-result_route s req db pair_id ms report p b g c =
    rw (p, b, g, c) (settles (submit_result s.services s.now pair_id report db) db)
