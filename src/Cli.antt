-- ===== src/Cli.antt =====
-- cli/main.cpp: the arguments of the command line tool and the requests of its commands. A text is
-- the list of its codes; what is printed is left out. `fails` is an exception.
use Prim.Native.String.{◌++◌}
use capi_net.Base.{
  ℕ, Bool, true, false, Option, none, some, List, [], ◌∷◌, ◌++◌ as followed_by, String,
  if◌then◌else◌, suc, get_elem?,
}
use capi_net.Base.Int.{ℤ, pos, negsuc}
use capi_net.Base.Json.{Value, integer, real, string, object_of}
use capi_net.Base.Numerals.{codes, sto, decimal}
use capi_net.Base.Fallible.{Fallible, fails, gives, attempt}
use capi_net.Client.Config.{Text, after, insert_flag, is_key}

-- `flags` is the set of "wait" and "help"
pub record Args : Type 0 where
  pub positional : List Text
  pub options : List (Text × Text)
  pub waits : Bool
  pub helps : Bool

abbrev pub no_args : Args
no_args = record { positional = []; options = []; waits = false; helps = false }

abbrev pub full_name : Text → Text
full_name arg = if is_key arg "-h" then codes "--help" else arg

abbrev pub with_flag : Text → Args → Option Args
with_flag key a =
    if is_key key "wait"
    then some (record a { waits = true })
    else if is_key key "help"
    then some (record a { helps = true })
    else none

-- What the tool takes from outside: the text of codes, and std::stod of a whole text.
pub record Reading (F : Type 0) : Type 0 where
  pub text : Text → String
  pub stod : Text → Option F

module _ {F : Type 0} (r : Reading F) where
  unfoldable pub parse_args : Args → List Text → Fallible Args
  parse_args a [] = gives a
  parse_args a (arg ∷ []) = elim (after (codes "--") (full_name arg)) [
    | none ↦ gives (record a { positional = followed_by a.positional (arg ∷ []) })
    | some key ↦ elim (with_flag key a) [
      | none ↦ fails ("faltou o valor de " ++ r.text (full_name arg))
      | some b ↦ gives b
    ]
  ]
  parse_args a (arg ∷ value ∷ args) = elim (after (codes "--") (full_name arg)) [
    | none ↦
        parse_args (record a { positional = followed_by a.positional (arg ∷ []) }) (value ∷ args)
    | some key ↦ elim (with_flag key a) [
      | none ↦ parse_args (record a { options = insert_flag key value a.options }) args
      | some b ↦ parse_args b (value ∷ args)
    ]
  ]

  -- `a.options.find(key)`
  unfoldable pub option_of : String → List (Text × Text) → Option Text
  option_of key [] = none
  option_of key (o ∷ os) = if is_key o.0 key then some o.1 else option_of key os

  abbrev pub needed : String → Option Text → Fallible Text
  needed key none = fails ("faltou --" ++ key)
  needed key (some v) = gives v

  unfoldable pub need : Args → String → Fallible Text
  need a key = needed key (option_of key a.options)

  abbrev pub whole : String → Text → Option (ℤ × List ℕ) → Fallible ℤ
  whole what s (some (z, [])) = gives z
  whole what s _ = fails (what ++ " inválido: " ++ r.text s)

  unfoldable pub to_int : Text → String → Fallible ℤ
  to_int s what = whole what s (sto 64 s)

  abbrev pub or_fails : String → Text → Option F → Fallible F
  or_fails what s none = fails (what ++ " inválido: " ++ r.text s)
  or_fails what s (some x) = gives x

  unfoldable pub to_double : Text → String → Fallible F
  to_double s what = or_fails what s (r.stod s)

  abbrev pub Fields : Type 0
  Fields = List (String × Value F)

  -- a field for an option that is there
  abbrev pub optional_field : String → Option Text → (Text → Fallible (Value F)) → Fallible Fields
  optional_field field none read = gives []
  optional_field field (some v) read = attempt (read v) λ x. gives ((field, x) ∷ [])

  abbrev pub text_field : Text → Fallible (Value F)
  text_field v = gives (string (r.text v))

  abbrev pub int_field : String → Text → Fallible (Value F)
  int_field what v = attempt (to_int v what) λ z. gives (integer z)

  abbrev pub double_field : String → Text → Fallible (Value F)
  double_field what v = attempt (to_double v what) λ x. gives (real x)

  abbrev pub or_default : Text → Option Text → Text
  or_default d none = d
  or_default d (some v) = v

  -- a sequential test has a preset, of which the default is "gainer"
  abbrev pub preset_field : Text → Option Text → Fallible Fields
  preset_field kind o =
      if is_key kind "sprt"
      then gives (("preset", string (r.text (or_default (codes "gainer") o))) ∷ [])
      else optional_field "preset" o text_field

  -- the fields of optional settings, one after the other
  unfoldable pub all_fields : List (Fallible Fields) → Fallible Fields
  all_fields [] = gives []
  all_fields (f ∷ fs) = attempt f λ x. attempt (all_fields fs) λ xs. gives (followed_by x xs)

  -- the body of POST /api/admin/tests; `user` is getenv("USER")
  unfoldable pub submit_body : Args → Option Text → Fallible (Value F)
  submit_body a user = attempt (need a "candidate") λ candidate. attempt (need a "baseline") λ base.
      attempt (need a "tc") λ tc. attempt (need a "book") λ book. attempt (need a "pairs") λ pairs.
        attempt (to_int pairs "--pairs") λ total.
          let kind = or_default (codes "sprt") (option_of "kind" a.options) in
          attempt
            (all_fields (
              preset_field kind (option_of "preset" a.options)
              ∷ optional_field "sprt_elo0" (option_of "elo0" a.options) (double_field "--elo0")
              ∷ optional_field "sprt_elo1" (option_of "elo1" a.options) (double_field "--elo1")
              ∷ optional_field "sprt_alpha" (option_of "alpha" a.options) (double_field "--alpha")
              ∷ optional_field "sprt_beta" (option_of "beta" a.options) (double_field "--beta")
              ∷ optional_field "name" (option_of "name" a.options) text_field
              ∷ optional_field "hash_mb" (option_of "hash" a.options) (int_field "--hash")
              ∷ optional_field "priority" (option_of "priority" a.options) (int_field "--priority")
              ∷ optional_field "submitted_by" user text_field
              ∷ []))
            λ fields. gives (
              object_of (
                ("candidate_ref", string (r.text candidate))
                ∷ ("baseline_ref", string (r.text base))
                ∷ ("tc", string (r.text tc))
                ∷ ("book_name", string (r.text book))
                ∷ ("total_pairs", integer total)
                ∷ ("kind", string (r.text kind))
                ∷ fields))

  -- the first call that a command makes
  pub data Call : Type 0 where
    gets : Text → Call
    posts : Text → Option (Value F) → Call
    patches : Text → Value F → Call

  -- std::to_string of a long long
  abbrev pub signed_decimal : ℤ → Text
  signed_decimal (pos n) = decimal n
  signed_decimal (negsuc n) = b'-' ∷ decimal (suc n)

  abbrev pub numbered : String → ℤ → String → Text
  numbered before id behind =
      followed_by (codes before) (followed_by (signed_decimal id) (codes behind))

  abbrev pub some_id : Option Text → Fallible ℤ
  some_id none = fails "faltou o test_id"
  some_id (some s) = to_int s "test_id"

  unfoldable pub id_arg : Args → ℕ → Fallible ℤ
  id_arg a i = some_id (get_elem? a.positional i)

  abbrev pub list_path : Option Text → Fallible Text
  list_path none = gives (codes "/api/tests")
  list_path (some v) = attempt (to_int v "--limit") λ n. gives (numbered "/api/tests?limit=" n "")

  abbrev pub on_id : Args → (ℤ → Call) → Fallible Call
  on_id a call = attempt (id_arg a 1) λ id. gives (call id)

  -- the new priority is read before the id
  abbrev pub priority_call : Args → Option Text → Fallible Call
  priority_call a none = fails "uso: capi_net priority <id> <n>"
  priority_call a (some s) = attempt (to_int s "prioridade") λ n.
      on_id a λ id.
        patches (numbered "/api/admin/tests/" id "") (object_of (("priority", integer n) ∷ []))

  -- the first call of a command; the usage behind the last message is left out
  unfoldable pub command : Args → Option Text → Text → Fallible Call
  command a user cmd =
      if is_key cmd "submit"
      then attempt (submit_body a user) (λ b. gives (posts (codes "/api/admin/tests") (some b)))
      else if is_key cmd "list"
      then attempt (list_path (option_of "limit" a.options)) (λ p. gives (gets p))
      else if is_key cmd "status"
      then on_id a (λ id. gets (numbered "/api/tests/" id "/stats"))
      else if is_key cmd "validation"
      then on_id a (λ id. gets (numbered "/api/admin/tests/" id "/validation"))
      else if is_key cmd "stop"
      then on_id a (λ id. posts (numbered "/api/admin/tests/" id "/stop") none)
      else if is_key cmd "priority"
      then priority_call a (get_elem? a.positional 2)
      else fails ("comando desconhecido: " ++ r.text cmd)
