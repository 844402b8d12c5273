-- ===== src/Protocol/Claims.antt =====
-- `Api::claim` and POST /api/jobs/claim.
use capi_net.Base.{ℕ, ◌≡◌, refl, arith, List, [], ◌∷◌, map, some, ◌^◌, ◌<◌, All}
use capi_net.Base.Json.{lookup, values}
use capi_net.Server.Schema.{Db}
use capi_net.Server.Queue.Claim
use capi_net.Server.Queue.Claim.{claim_pairs}
use capi_net.Server.Http.{returns, and_then, guarded, parse_body, send_error}
use capi_net.Server.Http.Readers.{req_int64-number, req_count-number}
use capi_net.Server.Http.Site.{Site}
use capi_net.Server.Http.Routes.{claim_route, claim_response, pair_json, claimed}
use capi_net.Client.Api
use capi_net.Client.Api.{
  Answer, protocol_error, answer, Getters, ReadsIntegers, request, at, text_at, int_at, int64_at,
  ensure, claimed_pair, claimed_pairs, claim, claim_body,
}
use capi_net.Protocol.{reply_of}

-- The ids and the places of the pairs fit the integers of the wire.
abbrev pub Fits : Claim.ClaimedPair → Type 0
Fits p = (p.pair_id < 2 ^ 63) × (p.position_seq < 2 ^ 31)

abbrev pub client_pair : Claim.ClaimedPair → Api.ClaimedPair
client_pair p = record { pair_id = p.pair_id; position_seq = p.position_seq; fen = p.fen }

-- what the client makes of a result of `claim_pairs`
abbrev pub seen_claim : Claim.ClaimResult → Answer Api.ClaimResult
seen_claim c = of_status c.status
  where
    of_status : Claim.ClaimStatus → Answer Api.ClaimResult
    of_status Claim.unknown_client = protocol_error
    of_status Claim.banned_client = answer (record { status = Api.banned; test_id = 0; pairs = [] })
    of_status Claim.no_active_test =
        answer (record { status = Api.no_active_test; test_id = 0; pairs = [] })
    of_status Claim.claim_ok =
        answer
          (record { status = Api.claim_ok; test_id = c.test_id; pairs = map client_pair c.pairs })

module _ {F : Type 0} (g : Getters F) (law : ReadsIntegers g) (s : Site F) where
  claimed_pair-pair_json :
      (p : Claim.ClaimedPair) → Fits p → claimed_pair g (pair_json s p) ≡ answer (client_pair p)
  unfolding claimed_pair text_at int_at int64_at at Api.and_then lookup
  claimed_pair-pair_json p h = rw (law.int64_law p.pair_id h.0, law.int_law p.position_seq h.1) refl

  claimed_pairs-pair_json :
      (ps : List Claim.ClaimedPair)
      → All Fits ps
      → claimed_pairs g (values (map (pair_json s) ps)) ≡ answer (map client_pair ps)
  unfolding claimed_pairs Api.and_then
  claimed_pairs-pair_json [] h = refl
  claimed_pairs-pair_json (p ∷ ps) h =
      rw (claimed_pair-pair_json p h.0, claimed_pairs-pair_json ps h.1) refl

  -- t
  pub claim-claim_response :
      (status : Claim.ClaimStatus) (test_id : ℕ) (ps : List Claim.ClaimedPair)
      → test_id < 2 ^ 63
      → All Fits ps
      → claim g
          (reply_of (claim_response s (record { status = status; test_id = test_id; pairs = ps })))
        ≡ seen_claim (record { status = status; test_id = test_id; pairs = ps })
  unfolding claim request int64_at at ensure Api.and_then lookup send_error
  claim-claim_response Claim.unknown_client test_id ps h f = refl
  claim-claim_response Claim.banned_client test_id ps h f = refl
  claim-claim_response Claim.no_active_test test_id ps h f = refl
  claim-claim_response Claim.claim_ok test_id ps h f =
      rw (law.int64_law test_id h, claimed_pairs-pair_json ps f) refl

  -- the server reads the client's numbers
  claim_route-reads :
      (db : Db F) (client_id slots_free : ℕ)
      → client_id < 2 ^ 63
      → slots_free < 2 ^ 31
      → s.connection ≡ returns tt
      → claim_route s
          (record { matches = []; params = []; body = some (claim_body client_id slots_free) })
          db
        ≡ returns
            (claimed s (claim_pairs s.now s.cfg.lease_ttl_min s.locked client_id slots_free db))
  unfolding claim_route and_then parse_body claim_body lookup
  claim_route-reads db client_id slots_free c n k =
      rw
        (
          req_int64-number "client_id" _ client_id refl c,
          req_count-number "slots_free" _ 0 slots_free refl (omega arith) n,
          k,
        )
        refl

  -- A claim over HTTP: with a connection free and numbers that fit the wire, the client reads from
  -- the answer the pairs that claim_pairs handed out, with their ids, places and positions, or that
  -- there is no active test, or that it is banned; an unknown client is a protocol error.
  pub claim-claim_route :
      (db : Db F) (client_id slots_free : ℕ)
      → client_id < 2 ^ 63
      → slots_free < 2 ^ 31
      → s.connection ≡ returns tt
      → let result = (claim_pairs s.now s.cfg.lease_ttl_min s.locked client_id slots_free db).0 in
        result.test_id < 2 ^ 63
        → All Fits result.pairs
        → claim g (
            reply_of
              (guarded
                (claim_route s
                  (record {
                    matches = [];
                    params = [];
                    body = some (claim_body client_id slots_free);
                  })
                  db)
                db).0)
          ≡ seen_claim result
  unfolding guarded
  claim-claim_route db client_id slots_free c n k t f =
      rw (claim_route-reads db client_id slots_free c n k) (claim-claim_response _ _ _ t f)
