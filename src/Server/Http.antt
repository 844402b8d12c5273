-- ===== src/Server/Http.antt =====
-- server/http/helpers.hpp: exceptions as values, the readers of a JSON body and `guarded`. A
-- request carries its body as `json::parse` gives it.
pub mod Words
pub mod Games
pub mod Site
pub mod Routes
pub mod Admin
pub mod Atomic
pub mod Snapshot
pub mod Web
pub mod Readers
use Prim.Native.String.{◌++◌}
use text.Mathlib.Text.{◌==◌ as str_eq}
use capi_net.Base.{
  ℕ, zero, suc, ◌+◌, ◌-◌, ◌*◌, ◌^◌, Bool, true, false, not, ◌||◌, Option, none, some, List, [], ◌∷◌,
  String, ltb, ◌==◌, if◌then◌else◌,
}
use capi_net.Base.Int.{ℤ, pos, negsuc, pos_part, ltb_ℤ}
use capi_net.Base.Json.{
  Value, null, boolean, integer, real, string, array, object, Members, residue, signed, object_of,
  lookup, number, nullable,
}
use capi_net.Base.Numerals.{number_of}
use capi_net.Server.Types.{Adjudication, DrawAdjudication, ResignAdjudication}
use capi_net.Server.Schema.{Db}
use capi_net.Server.Stats.{Doubles}
use capi_net.Server.Spec.Parse.{of_int}

-- BadRequest, pqxx::broken_connection and any other std::exception
pub data Thrown : Type 0 where
  bad_request : String → Thrown
  broken_connection other_exception : Thrown

pub data Result {ℓ} (A : Type ℓ) : Type ℓ where
  throws : Thrown → Result A
  returns : A → Result A

unfoldable pub and_then {ℓ κ} : {A : Type ℓ} {B : Type κ} → Result A → (A → Result B) → Result B
and_then (throws e) f = throws e
and_then (returns a) f = f a

-- `if (!ok) throw BadRequest(message)`
unfoldable pub ensure : Bool → String → Result {0} Unit
ensure true m = returns tt
ensure false m = throws (bad_request m)

-- the values of [low, INT32_MAX]
abbrev pub in_int : String → ℤ → ℤ → Result ℤ
in_int key low z =
    if ltb_ℤ z low || ltb_ℤ (pos (2 ^ 31 - 1)) z
    then throws (bad_request (key ++ " out of range"))
    else returns z

abbrev pub allowed {ℓ} : {A : Type ℓ} → String → Option A → Result A
allowed m none = throws (bad_request m)
allowed m (some a) = returns a

pub data Content (F : Type 0) : Type 0 where
  no_content : Content F
  json : Value F → Content F
  page : String → String → Content F

pub record Response (F : Type 0) : Type 0 where
  pub status : ℕ
  pub content : Content F

-- `body` is `none` where `json::parse` discards the text; `matches` are the digits that the
-- groups of the route's expression match, and `params` the query.
pub record Request (F : Type 0) : Type 0 where
  pub matches : List (List ℕ)
  pub params : List (String × List ℕ)
  pub body : Option (Value F)

module _ {F : Type 0} where
  abbrev pub send_json : ℕ → Value F → Response F
  send_json status body = record { status = status; content = json body }

  -- the body of `send_error`: a "reason" only if it is not empty
  abbrev pub error_body : String → String → Value F
  error_body error reason =
      if str_eq reason ""
      then object_of (("error", string error) ∷ [])
      else object_of (("error", string error) ∷ ("reason", string reason) ∷ [])

  unfoldable pub send_error : ℕ → String → String → Response F
  send_error status error reason = send_json status (error_body error reason)

  abbrev pub status_only : ℕ → Response F
  status_only n = record { status = n; content = no_content }

  unfoldable pub parse_body : Option (Value F) → Result (Members F)
  parse_body (some (object ms)) = returns ms
  parse_body _ = throws (bad_request "body must be a JSON object")

  -- a value that is there and not null
  abbrev pub present : Option (Value F) → Option (Value F)
  present none = none
  present (some null) = none
  present (some v) = some v

  abbrev pub missing : String → Option (Value F) → Result (Value F)
  missing key none = throws (bad_request ("missing field: " ++ key))
  missing key (some v) = returns v

  unfoldable pub field : String → Members F → Result (Value F)
  field key ms = missing key (present (lookup key ms))

  -- `get<std::int64_t>()`
  abbrev pub as_int64 : String → Value F → Result ℤ
  as_int64 key (integer z) = returns (signed 64 (residue 64 z))
  as_int64 key _ = throws (bad_request (key ++ " must be an integer"))

  unfoldable pub req_int64 : String → Members F → Result ℤ
  req_int64 key ms = and_then (field key ms) (as_int64 key)

  unfoldable pub req_int : String → ℤ → Members F → Result ℤ
  req_int key low ms = and_then (req_int64 key ms) (in_int key low)

  -- a `req_int` whose least value is not negative
  unfoldable pub req_count : String → ℕ → Members F → Result ℕ
  req_count key low ms = and_then (req_int key (pos low) ms) (λ z. returns (pos_part z))

  -- a reader of a field that may be missing or null
  abbrev pub optional {ℓ} : {A : Type ℓ} → Option (Value F) → Result A → Result (Option A)
  optional none r = returns none
  optional (some v) r = and_then r (λ a. returns (some a))

  unfoldable pub opt_int : String → ℕ → Members F → Result (Option ℕ)
  opt_int key low ms = optional (present (lookup key ms)) (req_count key low ms)

  abbrev pub as_bool : String → Value F → Result Bool
  as_bool key (boolean b) = returns b
  as_bool key _ = throws (bad_request (key ++ " must be a boolean"))

  unfoldable pub req_bool : String → Members F → Result Bool
  req_bool key ms = and_then (field key ms) (as_bool key)

  abbrev pub as_string : String → Value F → Result String
  as_string key (string s) = returns s
  as_string key _ = throws (bad_request (key ++ " must be a string"))

  unfoldable pub req_string : String → Members F → Result String
  req_string key ms = and_then (field key ms) (as_string key)

  unfoldable pub opt_string : String → Members F → Result (Option String)
  opt_string key ms = optional (present (lookup key ms)) (req_string key ms)

  -- `meaning` gives the values of the texts in the allowed set
  unfoldable pub req_enum {ℓ} : {A : Type ℓ} → String → (String → Option A) → Members F → Result A
  req_enum key meaning ms =
      and_then (req_string key ms) λ v. allowed ("invalid " ++ key ++ ": " ++ v) (meaning v)

  abbrev pub as_double : Doubles F → String → Value F → Result F
  as_double d key (integer z) = returns (of_int d z)
  as_double d key (real x) = returns x
  as_double d key _ = throws (bad_request (key ++ " must be a number"))

  unfoldable pub req_double : Doubles F → String → Members F → Result F
  req_double d key ms = and_then (field key ms) (as_double d key)

  unfoldable pub opt_double : Doubles F → String → Members F → Result (Option F)
  opt_double d key ms = optional (present (lookup key ms)) (req_double d key ms)

-- std::stoll of a text of digits, which throws beyond 64 bits
abbrev pub path_number : List ℕ → Result ℕ
path_number cs =
    let n = number_of cs 0 in
    if ltb n (2 ^ 63) then returns n else throws (bad_request "invalid id in path")

abbrev pub nth_match : ℕ → List (List ℕ) → List ℕ
nth_match i [] = []
nth_match zero (m ∷ ms) = m
nth_match (suc i) (m ∷ ms) = nth_match i ms

-- `has_param` and `get_param_value`
unfoldable pub param : String → List (String × List ℕ) → Option (List ℕ)
param name [] = none
param name ((k, v) ∷ ps) = if str_eq k name then some v else param name ps

-- `path_id` and `path_id_at`
unfoldable pub path_id : {F : Type 0} → ℕ → Request F → Result ℕ
path_id i req = path_number (nth_match i req.matches)

-- An exception is an answer of its own, and leaves the database as it was: no transaction has
-- been committed.
unfoldable pub guarded : {F : Type 0} → Result (Response F × Db F) → Db F → Response F × Db F
guarded (returns r) db = r
guarded (throws (bad_request m)) db = (send_error 400 "bad_request" m, db)
guarded (throws broken_connection) db = (send_error 503 "database_unavailable" "", db)
guarded (throws other_exception) db = (send_error 500 "internal_error" "", db)

-- `pool.acquire()`, or an operation whose `none` is an exception
unfoldable pub or_throw {ℓ} : {A : Type ℓ} → Option A → Result A
or_throw none = throws other_exception
or_throw (some a) = returns a

module _ {F : Type 0} where
  abbrev pub draw_json : DrawAdjudication → Value F
  draw_json a = object_of (
      ("movenumber", number a.movenumber)
      ∷ ("movecount", number a.movecount)
      ∷ ("score_cp", number a.score_cp)
      ∷ [])

  abbrev pub resign_json : ResignAdjudication → Value F
  resign_json a = object_of (
      ("movecount", number a.movecount)
      ∷ ("score_cp", number a.score_cp)
      ∷ ("twosided", boolean a.twosided)
      ∷ [])

  unfoldable pub adjudication_json : Adjudication → Value F
  adjudication_json a = object_of (
      ("draw", nullable draw_json a.draw_rule)
      ∷ ("resign", nullable resign_json a.resign_rule)
      ∷ [])

  -- the score of the candidate: points are wins and half the draws
  unfoldable pub score_json : Doubles F → ℕ → ℕ → ℕ → Value F
  score_json d wins draws losses =
      let games = wins + draws + losses in
      let points = d.plus (d.of_count wins) (d.times (d.literal "0.5") (d.of_count draws)) in
      let share = d.over (d.times (d.literal "100.0") points) (d.of_count games) in
      object_of (
        ("wins", number wins)
        ∷ ("draws", number draws)
        ∷ ("losses", number losses)
        ∷ ("games", number games)
        ∷ ("points", real points)
        ∷ ("pct", if games == 0 then null else real share)
        ∷ [])
