-- ===== src/Client/Api.antt =====
-- client/api.cpp: the calls of the server's API and what the client makes of the answers. A reply
-- is what httplib returns: a failed transport, or a status with the body that `json::parse` gives,
-- null for an empty or a discarded text. `Getters` are the conversions of nlohmann's `get`; the
-- server's ids and counts are not negative, and neither are the client's. The adjudication structs
-- have the fields of those of server/types.hpp.
use text.Mathlib.Text.{◌==◌ as str_eq}
use capi_net.Base.{
  ℕ, ◌^◌, ◌<◌, ◌≡◌, Bool, Option, none, some, List, [], ◌∷◌, ◌++◌, String, leb, ◌==◌, if◌then◌else◌,
}
use capi_net.Base.Json.{
  Value, null, boolean, real, string, array, object, Values, nil, cons, Members, end, member,
  lookup, number, object_of,
}
use capi_net.Base.Numerals.{decimal}
use capi_net.Server.Types.{Adjudication, DrawAdjudication, ResignAdjudication}

pub data Reply (F : Type 0) : Type 0 where
  no_response : Reply F
  response : ℕ → Value F → Reply F

-- TransientError, ProtocolError (or an exception of the JSON library), or a value
pub data Answer (A : Type 0) : Type 0 where
  transient protocol_error : Answer A
  answer : A → Answer A

pub record Getters (F : Type 0) : Type 0 where
  pub get_int : Value F → Option ℕ
  pub get_int64 : Value F → Option ℕ

-- An integer that fits the type is read as it is.
pub record ReadsIntegers {F : Type 0} (g : Getters F) : Type 0 where
  pub int_law : (n : ℕ) → n < 2 ^ 31 → g.get_int (number n) ≡ some n
  pub int64_law : (n : ℕ) → n < 2 ^ 63 → g.get_int64 (number n) ≡ some n

pub record ActiveTest : Type 0 where
  pub test_id : ℕ
  pub kind : String
  pub candidate_commit : String
  pub baseline_commit : String
  pub candidate_tarball_url : String
  pub baseline_tarball_url : String
  pub tc_base_ms : ℕ
  pub tc_increment_ms : ℕ
  pub hash_mb : ℕ
  pub threads : ℕ
  pub adjudication : Adjudication

pub data SubmitStatus : Type 0 where
  accepted already_completed lease_lost test_finished client_banned : SubmitStatus

pub data ClaimStatus : Type 0 where
  claim_ok no_active_test banned : ClaimStatus

pub record ClaimedPair : Type 0 where
  pub pair_id : ℕ
  pub position_seq : ℕ
  pub fen : String

pub record ClaimResult : Type 0 where
  pub status : ClaimStatus
  pub test_id : ℕ
  pub pairs : List ClaimedPair

unfoldable pub and_then : {A B : Type 0} → Answer A → (A → Answer B) → Answer B
and_then transient f = transient
and_then protocol_error f = protocol_error
and_then (answer a) f = f a

-- a conversion that throws
abbrev pub or_throw : {A : Type 0} → Option A → Answer A
or_throw none = protocol_error
or_throw (some a) = answer a

-- `if (!ok) throw ProtocolError(...)`
unfoldable pub ensure : {A : Type 0} → Bool → Answer A → Answer A
ensure Bool.true r = r
ensure Bool.false r = protocol_error

abbrev pub reason_status : String → Answer SubmitStatus
reason_status reason =
    if str_eq reason "already_completed"
    then answer already_completed
    else if str_eq reason "lease_lost"
    then answer lease_lost
    else if str_eq reason "test_finished"
    then answer test_finished
    else if str_eq reason "client_banned"
    then answer client_banned
    else protocol_error

module _ {F : Type 0} where
  -- transport failures and 5xx are transient
  unfoldable pub request : Reply F → Answer (ℕ × Value F)
  request no_response = transient
  request (response status body) = if leb 500 status then transient else answer (status, body)

  -- `at`, which throws on a missing key and on what is no object
  unfoldable pub at : String → Value F → Answer (Value F)
  at key (object ms) = or_throw (lookup key ms)
  at key _ = protocol_error

  abbrev pub as_text : Value F → Answer String
  as_text (string s) = answer s
  as_text _ = protocol_error

  abbrev pub as_bool : Value F → Answer Bool
  as_bool (boolean b) = answer b
  as_bool _ = protocol_error

  unfoldable pub text_at : String → Value F → Answer String
  text_at key v = and_then (at key v) as_text

  unfoldable pub bool_at : String → Value F → Answer Bool
  bool_at key v = and_then (at key v) as_bool

  -- what a `for` over a value goes through
  abbrev pub member_values : Members F → Values F
  member_values end = nil
  member_values (member k v ms) = cons v (member_values ms)

  abbrev pub iterated : Value F → Values F
  iterated null = nil
  iterated (array vs) = vs
  iterated (object ms) = member_values ms
  iterated v = cons v nil

  unfoldable pub heartbeat : Reply F → Answer Bool
  heartbeat r = and_then (request r) λ x. ensure (x.0 == 200) (bool_at "banned" x.1)

  -- the reason that a body gives, "" if it gives none
  abbrev pub reason_value : Option (Value F) → Answer String
  reason_value none = answer ""
  reason_value (some (string s)) = answer s
  reason_value (some _) = protocol_error

  -- a body that is no object gives no status
  abbrev pub conflict_status : Value F → Answer SubmitStatus
  conflict_status (object ms) =
      and_then (reason_value (lookup "reason" ms)) λ reason. reason_status reason
  conflict_status _ = protocol_error

  abbrev pub submit_answer : ℕ × Value F → Answer SubmitStatus
  submit_answer (status, body) =
      if status == 200
      then answer accepted
      else if status == 409
      then conflict_status body
      else protocol_error

  unfoldable pub submit : Reply F → Answer SubmitStatus
  submit r = and_then (request r) submit_answer

  -- the status is not looked at
  unfoldable pub abandon : Reply F → Answer Unit
  abandon r = and_then (request r) λ _. answer tt

module _ {F : Type 0} (g : Getters F) where
  unfoldable pub int_at : String → Value F → Answer ℕ
  int_at key v = and_then (at key v) λ x. or_throw (g.get_int x)

  unfoldable pub int64_at : String → Value F → Answer ℕ
  int64_at key v = and_then (at key v) λ x. or_throw (g.get_int64 x)

  unfoldable pub register_client : Reply F → Answer ℕ
  register_client r = and_then (request r) λ x. ensure (x.0 == 200) (int64_at "client_id" x.1)

  abbrev pub draw_of : Option (Value F) → Answer (Option DrawAdjudication)
  draw_of (some (object ms)) = and_then (int_at "movenumber" (object ms)) λ n.
      and_then (int_at "movecount" (object ms)) λ c.
        and_then (int_at "score_cp" (object ms))
          λ s. answer (some (record { movenumber = n; movecount = c; score_cp = s }))
  draw_of _ = answer none

  abbrev pub resign_of : Option (Value F) → Answer (Option ResignAdjudication)
  resign_of (some (object ms)) = and_then (int_at "movecount" (object ms)) λ c.
      and_then (int_at "score_cp" (object ms)) λ s.
        and_then (bool_at "twosided" (object ms))
          λ b. answer (some (record { movecount = c; score_cp = s; twosided = b }))
  resign_of _ = answer none

  -- `contains` is false on what is no object
  abbrev pub rules_of : Option (Value F) → Answer Adjudication
  rules_of (some (object ms)) = and_then (draw_of (lookup "draw" ms)) λ d.
      and_then (resign_of (lookup "resign" ms))
        λ r. answer (record { draw_rule = d; resign_rule = r })
  rules_of _ = answer (record { draw_rule = none; resign_rule = none })

  -- the fields of `ActiveTest` in their order
  unfoldable pub identity_of : Value F → Answer (ℕ × String × String × String)
  identity_of b = and_then (int64_at "test_id" b) λ id. and_then (text_at "kind" b) λ kind.
      and_then (text_at "candidate_commit" b) λ candidate.
        and_then (text_at "baseline_commit" b) λ baseline. answer (id, kind, candidate, baseline)

  unfoldable pub downloads_of : Value F → Answer (String × String)
  downloads_of b = and_then (text_at "candidate_tarball_url" b) λ candidate.
      and_then (text_at "baseline_tarball_url" b) λ baseline. answer (candidate, baseline)

  unfoldable pub settings_of : Value F → Answer (ℕ × ℕ × ℕ × ℕ)
  settings_of b = and_then (int_at "tc_base_ms" b) λ base.
      and_then (int_at "tc_increment_ms" b) λ increment.
        and_then (int_at "hash_mb" b)
          λ hash. and_then (int_at "threads" b) λ threads. answer (base, increment, hash, threads)

  abbrev pub adjudication_at : Value F → Answer Adjudication
  adjudication_at (object ms) = rules_of (lookup "adjudication" ms)
  adjudication_at _ = protocol_error

  unfoldable pub active_of : Value F → Answer ActiveTest
  active_of b = and_then (identity_of b) λ i. and_then (downloads_of b) λ u.
      and_then (settings_of b) λ s. and_then (adjudication_at b) λ a. answer (record {
        test_id = i.0;
        kind = i.1;
        candidate_commit = i.2;
        baseline_commit = i.3;
        candidate_tarball_url = u.0;
        baseline_tarball_url = u.1;
        tc_base_ms = s.0;
        tc_increment_ms = s.1;
        hash_mb = s.2;
        threads = s.3;
        adjudication = a;
      })

  abbrev pub active_answer : ℕ × Value F → Answer (Option ActiveTest)
  active_answer (status, body) =
      if status == 204
      then answer none
      else ensure (status == 200) (and_then (active_of body) λ t. answer (some t))

  unfoldable pub active_test : Reply F → Answer (Option ActiveTest)
  active_test r = and_then (request r) active_answer

  unfoldable pub claimed_pair : Value F → Answer ClaimedPair
  claimed_pair p = and_then (int64_at "pair_id" p) λ id. and_then (int_at "position_seq" p) λ seq.
      and_then (text_at "fen" p)
        λ fen. answer (record { pair_id = id; position_seq = seq; fen = fen })

  unfoldable pub claimed_pairs : Values F → Answer (List ClaimedPair)
  claimed_pairs nil = answer []
  claimed_pairs (cons p ps) =
      and_then (claimed_pair p) λ c. and_then (claimed_pairs ps) λ cs. answer (c ∷ cs)

  abbrev pub claim_answer : ℕ × Value F → Answer ClaimResult
  claim_answer (status, body) =
      if status == 204
      then answer (record { status = no_active_test; test_id = 0; pairs = [] })
      else if status == 403
      then answer (record { status = banned; test_id = 0; pairs = [] })
      else ensure (status == 200) (
          and_then (int64_at "test_id" body) λ id. and_then (at "pairs" body) λ v.
            and_then (claimed_pairs (iterated v))
              λ ps. answer (record { status = claim_ok; test_id = id; pairs = ps }))

  unfoldable pub claim : Reply F → Answer ClaimResult
  claim r = and_then (request r) claim_answer

-- the bodies that the calls send
module _ {F : Type 0} where
  unfoldable pub heartbeat_body : F → Value F
  heartbeat_body cpu_factor = object_of (("cpu_factor", real cpu_factor) ∷ [])

  unfoldable pub claim_body : ℕ → ℕ → Value F
  claim_body client_id slots_free =
      object_of (("client_id", number client_id) ∷ ("slots_free", number slots_free) ∷ [])

  unfoldable pub abandon_body : ℕ → Value F
  abandon_body client_id = object_of (("client_id", number client_id) ∷ [])

-- `"/api/jobs/" + std::to_string(pair_id) + "/result"` and its like
unfoldable pub numbered_path : List ℕ → ℕ → List ℕ → List ℕ
numbered_path before id after = before ++ decimal id ++ after
