-- ===== src/Server/Spec/Parse.antt =====
-- server/spec.cpp: `parse_tc` and `parse_test_spec`.
use Prim.Native.String.{◌++◌}
use text.Mathlib.Text.{◌==◌ as str_eq}
use capi_net.Base.{
  ℕ, ◌+◌, ◌*◌, Bool, true, false, not, ◌&&◌, ◌||◌, Option, none, some, List, [], ◌∷◌, String, ltb,
  leb, ◌==◌, if◌then◌else◌, length, value_or, all,
}
use capi_net.Base.Int.{ℤ, pos, negsuc}
use capi_net.Server.Types.{TestKind, sprt, gauntlet, SprtPreset, gainer, nonreg, custom, TestSpec}
use capi_net.Server.Stats.{Doubles}
use capi_net.Server.Spec.{
  Parsed, spec_error, parsed, chain, demand, Json, Body, not_object, object, SprtPresetBounds,
  SprtPresets, TimeControl, Numbers, codes, is_digit, split_plus, valid_ref, valid_book_name,
  to_int,
}

abbrev pub required {ℓ} : {A : Type ℓ} → String → Option A → Parsed A
required m none = spec_error m
required m (some a) = parsed a

-- the integers of [low, high], both positive
abbrev pub in_range : ℕ → ℕ → String → ℤ → Parsed ℕ
in_range low high m (pos n) = demand (leb low n && leb n high) m (parsed n)
in_range low high m (negsuc n) = spec_error m

abbrev pub kind_of : String → Parsed TestKind
kind_of k =
    if str_eq k "sprt"
    then parsed sprt
    else if str_eq k "gauntlet"
    then parsed gauntlet
    else spec_error "kind must be sprt or gauntlet"

abbrev pub checked_ref : String → Parsed String
checked_ref ref = demand (valid_ref (codes ref)) ("invalid git ref: " ++ ref) (parsed ref)

abbrev pub checked_book : String → Parsed String
checked_book name =
    demand (valid_book_name (codes name)) ("invalid book_name: " ++ name) (parsed name)

abbrev pub checked_name : String → Parsed String
checked_name s = demand (not (str_eq s "")) "name must not be empty" (parsed s)

abbrev pub checked_hash : Option ℤ → Parsed ℕ
checked_hash none = parsed 16
checked_hash (some h) = in_range 1 4096 "hash_mb must be in [1, 4096]" h

abbrev pub checked_pairs : Option ℤ → Parsed ℕ
checked_pairs none = spec_error "missing field: total_pairs"
checked_pairs (some n) = in_range 1 10000000 "total_pairs must be positive" n

abbrev pub priority_of : Option ℤ → ℤ
priority_of none = pos 0
priority_of (some p) = to_int p

module _ {F : Type 0} where
  -- a missing key and a null are the same
  unfoldable pub get : String → List (String × Json F) → Option (Json F)
  get key [] = none
  get key ((k, v) ∷ fields) = if str_eq k key then present v else get key fields
    where
      present : Json F → Option (Json F)
      present Json.null = none
      present v = some v

  abbrev pub has : String → List (String × Json F) → Bool
  has key fields = found (get key fields)
    where
      found : Option (Json F) → Bool
      found none = false
      found (some _) = true

  abbrev pub as_text : String → Option (Json F) → Parsed (Option String)
  as_text key none = parsed none
  as_text key (some (Json.string s)) = parsed (some s)
  as_text key (some _) = spec_error (key ++ " must be a string")

  unfoldable pub opt_string : String → List (String × Json F) → Parsed (Option String)
  opt_string key fields = as_text key (get key fields)

  unfoldable pub req_string : String → List (String × Json F) → Parsed String
  req_string key fields = chain (opt_string key fields) (required ("missing field: " ++ key))

  abbrev pub as_integer : String → Option (Json F) → Parsed (Option ℤ)
  as_integer key none = parsed none
  as_integer key (some (Json.integer n)) = parsed (some n)
  as_integer key (some _) = spec_error (key ++ " must be an integer")

  unfoldable pub opt_integer : String → List (String × Json F) → Parsed (Option ℤ)
  opt_integer key fields = as_integer key (get key fields)

-- what the first fields say
pub record Subject : Type 0 where
  pub kind : TestKind
  pub candidate_ref : String
  pub baseline_ref : String

-- what the fields from the time control on say
pub record Conditions : Type 0 where
  pub tc : TimeControl
  pub hash_mb : ℕ
  pub book_name : String
  pub total_pairs : ℕ
  pub priority : ℤ
  pub submitted_by : Option String

unfoldable pub parse_subject : {F : Type 0} → List (String × Json F) → Parsed Subject
parse_subject fields = chain (req_string "kind" fields) λ k. chain (kind_of k) λ kind.
    chain (req_string "candidate_ref" fields) λ candidate_text.
      chain (req_string "baseline_ref" fields) λ baseline_text.
        chain (checked_ref candidate_text) λ candidate.
          chain (checked_ref baseline_text) λ baseline.
            parsed (record { kind = kind; candidate_ref = candidate; baseline_ref = baseline })

module _ {F : Type 0} (d : Doubles F) where
  -- the conversion of an integer to a double
  abbrev pub of_int : ℤ → F
  of_int (pos n) = d.of_count n
  of_int (negsuc n) = d.negate (d.of_count (n + 1))

  abbrev pub as_number : String → Option (Json F) → Parsed (Option F)
  as_number key none = parsed none
  as_number key (some (Json.integer n)) = parsed (some (of_int n))
  as_number key (some (Json.real x)) = parsed (some x)
  as_number key (some _) = spec_error (key ++ " must be a number")

  unfoldable pub opt_number : String → List (String × Json F) → Parsed (Option F)
  opt_number key fields = as_number key (get key fields)

  abbrev pub has_bounds : List (String × Json F) → Bool
  has_bounds fields =
      has "sprt_elo0" fields
      || has "sprt_elo1" fields
      || has "sprt_alpha" fields
      || has "sprt_beta" fields

  unfoldable pub custom_bounds : List (String × Json F) → Parsed (SprtPresetBounds F)
  custom_bounds fields =
      let m : String = "preset custom requires sprt_elo0 and sprt_elo1" in
      chain (opt_number "sprt_elo0" fields) λ e0. chain (opt_number "sprt_elo1" fields) λ e1.
        chain (required m e0) λ elo0. chain (required m e1) λ elo1.
          chain (opt_number "sprt_alpha" fields) λ a. chain (opt_number "sprt_beta" fields) λ b.
            parsed (record {
              elo0 = elo0;
              elo1 = elo1;
              alpha = value_or a (d.literal "0.05");
              beta = value_or b (d.literal "0.05");
            })

  abbrev pub is_probability : F → Bool
  is_probability p = d.lt (d.literal "0") p && d.lt p (d.literal "1")

  abbrev pub checked_bounds : SprtPresetBounds F → Parsed (SprtPresetBounds F)
  checked_bounds b = demand (d.lt b.elo0 b.elo1) "sprt_elo0 must be < sprt_elo1" (
      demand (is_probability b.alpha && is_probability b.beta)
        "sprt_alpha and sprt_beta must be in (0, 1)" (parsed b))

  abbrev pub preset_bounds :
      String → SprtPresets F → List (String × Json F) → Parsed (SprtPreset × SprtPresetBounds F)
  preset_bounds preset presets fields =
      let m : String = "SPRT bounds are only accepted with preset custom" in
      let fixed = not (has_bounds fields) in
      if str_eq preset "custom"
      then chain (custom_bounds fields) (λ b. parsed (custom, b))
      else if str_eq preset "gainer"
      then demand fixed m (parsed (gainer, presets.gainer_bounds))
      else if str_eq preset "nonreg"
      then demand fixed m (parsed (nonreg, presets.nonreg_bounds))
      else spec_error "preset must be gainer, nonreg or custom"

  -- the preset and the bounds that a test of the kind runs with
  unfoldable pub rules_of :
      TestKind
      → SprtPresets F
      → List (String × Json F)
      → Parsed (Option (SprtPreset × SprtPresetBounds F))
  rules_of gauntlet presets fields =
      demand (not (has "preset" fields || has_bounds fields))
        "gauntlet does not take preset or SPRT bounds" (parsed none)
  rules_of sprt presets fields = chain (opt_string "preset" fields) λ p.
      chain (required "missing field: preset (gainer, nonreg or custom)" p) λ preset.
        chain (preset_bounds preset presets fields)
          λ r. chain (checked_bounds r.1) λ _. parsed (some r)

  abbrev pub rule {ℓ} :
      {A : Type ℓ}
      → (SprtPreset × SprtPresetBounds F → A)
      → Option (SprtPreset × SprtPresetBounds F)
      → Option A
  rule f none = none
  rule f (some r) = some (f r)

module _ {F : Type 0} (d : Doubles F) (num : Numbers F) where
  unfoldable pub parse_seconds : List ℕ → String → Parsed F
  parse_seconds s tc =
      let m : String = "invalid tc: " ++ tc in
      demand (not (length s == 0)) m
        (demand (all (λ c. is_digit c || c == b'.') s) m (required m (num.strtod s)))

  abbrev pub parse_increment : Option (List ℕ) → String → Parsed F
  parse_increment none tc = parsed (d.literal "0.0")
  parse_increment (some s) tc = parse_seconds s tc

  unfoldable pub parse_tc : String → Parsed TimeControl
  parse_tc tc =
      let parts = split_plus (codes tc) in
      chain (parse_seconds parts.0 tc) λ base. chain (parse_increment parts.1 tc) λ inc.
        let base_ms = num.llround (d.times base (d.literal "1000.0")) in
        let inc_ms = num.llround (d.times inc (d.literal "1000.0")) in
        demand (ltb 0 base_ms) ("tc base must be positive: " ++ tc) (
          demand (leb base_ms (24 * 3600 * 1000) && leb inc_ms (3600 * 1000))
            ("tc out of range: " ++ tc)
            (parsed (record { base_ms = base_ms; increment_ms = inc_ms })))

  -- from the time control to `submitted_by`
  unfoldable pub parse_conditions : List (String × Json F) → Parsed Conditions
  parse_conditions fields = chain (req_string "tc" fields) λ tc_text. chain (parse_tc tc_text) λ tc.
      chain (opt_integer "hash_mb" fields) λ h. chain (checked_hash h) λ hash_mb.
        chain (req_string "book_name" fields) λ book_text. chain (checked_book book_text) λ book.
          chain (opt_integer "total_pairs" fields) λ n. chain (checked_pairs n) λ total.
            chain (opt_integer "priority" fields) λ p.
              chain (opt_string "submitted_by" fields) λ by. parsed (record {
                tc = tc;
                hash_mb = hash_mb;
                book_name = book;
                total_pairs = total;
                priority = priority_of p;
                submitted_by = by;
              })

  unfoldable pub parse_fields : List (String × Json F) → SprtPresets F → Parsed (TestSpec F)
  parse_fields fields presets = chain (parse_subject fields) λ j.
      chain (parse_conditions fields) λ c. chain (rules_of d j.kind presets fields) λ rules.
        chain (opt_string "name" fields) λ given.
          chain (checked_name (value_or given (j.candidate_ref ++ " vs " ++ j.baseline_ref)))
            λ name. parsed (record {
              name = name;
              kind = j.kind;
              candidate_ref = j.candidate_ref;
              baseline_ref = j.baseline_ref;
              tc_base_ms = c.tc.base_ms;
              tc_increment_ms = c.tc.increment_ms;
              hash_mb = c.hash_mb;
              book_name = c.book_name;
              total_pairs = c.total_pairs;
              sprt_preset = rule d (λ r. r.0) rules;
              sprt_elo0 = rule d (λ r. r.1.elo0) rules;
              sprt_elo1 = rule d (λ r. r.1.elo1) rules;
              sprt_alpha = rule d (λ r. r.1.alpha) rules;
              sprt_beta = rule d (λ r. r.1.beta) rules;
              priority = c.priority;
              submitted_by = c.submitted_by;
            })

  unfoldable pub parse_test_spec : Body F → SprtPresets F → Parsed (TestSpec F)
  parse_test_spec not_object presets = spec_error "body must be a JSON object"
  parse_test_spec (object fields) presets = parse_fields fields presets
