-- ===== src/Protocol/Reports.antt =====
-- `make_result_body` and what POST /api/jobs/{id}/result reads of it.
use capi_net.Base.{
  ℕ, ◌≡◌, refl, arith, true, Option, none, some, List, ◌∷◌, String, ◌^◌, ◌<◌, ◌≤◌, leb,
}
use capi_net.Base.Json.{Value, Members, lookup, members, number, integer, nullable}
use capi_net.Base.Int.{ℤ, pos, negsuc, pos_part}
use capi_net.Server.Types.{GameReport, draw, crash}
use capi_net.Server.Stats.{Doubles}
use capi_net.Server.Http.{returns, and_then, ensure, field, parse_body, opt_int}
use capi_net.Server.Http.Words.{
  outcome_of, outcome_text, termination_of, termination_text, outcome_of-outcome_text,
  termination_of-termination_text,
}
use capi_net.Server.Http.Readers.{
  Below, wire64, req_int64-number, req_count-number, opt_int-nullable, req_bool-boolean,
  req_string-string, req_double-real, req_enum-meant,
}
use capi_net.Server.Http.Games.{
  Course, Settings, Usage, report_of, opt_count, parse_course, parse_settings, parse_usage,
  parse_game, parse_report,
}
use capi_net.Client.Poll.{EffectiveTc}
use capi_net.Client.Results.{
  EngineUsage, ParsedGame, SlotInfo, missing_pgn, missing_color, course_fields, game_json, game_at,
  result_body, usage_json,
}

abbrev pub UsageFits : Option EngineUsage → Type 0
UsageFits none = Unit
UsageFits (some u) = (u.nodes < 2 ^ 63) × (u.time_ms < 2 ^ 63)

-- A number of plies is an int that is not negative.
abbrev pub PliesFit : Option ℤ → Type 0
PliesFit none = Unit
PliesFit (some (pos n)) = n < 2 ^ 31
PliesFit (some (negsuc n)) = ⊥

abbrev pub plies : Option ℤ → Option ℕ
plies none = none
plies (some z) = some (pos_part z)

-- The numbers of a game fit the integers of the wire.
abbrev pub GameFits : Option ParsedGame → Type 0
GameFits none = Unit
GameFits (some p) =
    PliesFit p.ply_count
    × Below (2 ^ 31) p.duration_ms
    × UsageFits p.candidate_usage
    × UsageFits p.baseline_usage

abbrev pub ConditionsFit : SlotInfo → EffectiveTc → Type 0
ConditionsFit slot tc =
    (slot.index < 2 ^ 31)
    × Below (2 ^ 31) slot.core
    × (tc.base_ms < 2 ^ 31)
    × (tc.increment_ms < 2 ^ 31)

-- the report that the server keeps of a game
abbrev pub course_of : ℕ → Option ParsedGame → Option ParsedGame → Course
course_of i (some p) partner = record {
  game_in_pair = i;
  candidate_is_white = p.candidate_is_white;
  outcome = p.outcome;
  termination = p.termination;
  ply_count = plies p.ply_count;
  duration_ms = p.duration_ms;
}
course_of i none partner = record {
  game_in_pair = i;
  candidate_is_white = missing_color i partner;
  outcome = draw;
  termination = crash;
  ply_count = none;
  duration_ms = none;
}

abbrev pub pgn_text : String → Option ParsedGame → String
pgn_text note none = missing_pgn note
pgn_text note (some p) = p.text

abbrev pub settings_of : ℕ → String → SlotInfo → EffectiveTc → Option ParsedGame → Settings
settings_of factor note slot tc p = record {
  cpu_factor = factor;
  tc_base = tc.base_ms;
  tc_increment = tc.increment_ms;
  slot_index = slot.index;
  core_id = slot.core;
  pgn = pgn_text note p;
}

abbrev pub measured : (EngineUsage → ℕ) → Option EngineUsage → Option ℕ
measured f none = none
measured f (some u) = some (f u)

abbrev pub usage_of : Option ParsedGame → Usage
usage_of none = record {
  candidate_nodes = none;
  candidate_time = none;
  baseline_nodes = none;
  baseline_time = none;
}
usage_of (some p) = record {
  candidate_nodes = measured (λ u. u.nodes) p.candidate_usage;
  candidate_time = measured (λ u. u.time_ms) p.candidate_usage;
  baseline_nodes = measured (λ u. u.nodes) p.baseline_usage;
  baseline_time = measured (λ u. u.time_ms) p.baseline_usage;
}

abbrev pub game_report :
    ℕ → ℕ → String → SlotInfo → EffectiveTc → Option ParsedGame → Option ParsedGame → GameReport
game_report factor i note slot tc p partner =
    report_of (course_of i p partner) (settings_of factor note slot tc p) (usage_of p)

index_of : (i : ℕ) (p partner : Option ParsedGame) → (course_of i p partner).game_in_pair ≡ i
index_of i none partner = refl
index_of i (some p) partner = refl

module _ {F : Type 0} (key : String) (ms : Members F) where
  opt_count-number :
      (n : ℕ) → lookup key ms ≡ some (number n) → n < 2 ^ 63 → opt_count key ms ≡ returns (some n)
  unfolding opt_count and_then
  opt_count-number n e h = rw (e, wire64 n h) refl

  opt_count-usage_json :
      (f : EngineUsage → ℕ) (o : Option EngineUsage)
      → lookup key ms ≡ some (usage_json f o)
      → Below (2 ^ 63) (measured f o)
      → opt_count key ms ≡ returns (measured f o)
  unfolding opt_count
  opt_count-usage_json f none e h = rw e refl
  opt_count-usage_json f (some u) e h = opt_count-number (f u) e h

opt_int-plies :
    {F : Type 0} (key : String) (ms : Members F) (o : Option ℤ)
    → lookup key ms ≡ some (nullable integer o)
    → PliesFit o
    → opt_int key 0 ms ≡ returns (plies o)
opt_int-plies key ms none e h = opt_int-nullable key ms none e tt
opt_int-plies key ms (some (pos n)) e h = opt_int-nullable key ms (some n) e h
opt_int-plies key ms (some (negsuc n)) e h = absurd h

nodes_fit : (o : Option EngineUsage) → UsageFits o → Below (2 ^ 63) (measured (λ u. u.nodes) o)
nodes_fit none h = tt
nodes_fit (some u) h = h.0

time_fits : (o : Option EngineUsage) → UsageFits o → Below (2 ^ 63) (measured (λ u. u.time_ms) o)
time_fits none h = tt
time_fits (some u) h = h.1

leb_one : (i : ℕ) → i ≤ 1 → leb i 1 ≡ true
leb_one i h = ground arith

module _ {F : Type 0} (note : String) (slot : SlotInfo) (tc : EffectiveTc) (factor : F) where
  abbrev fields_of : ℕ → Option ParsedGame → Option ParsedGame → Members F
  fields_of i p partner = members (
      ("game_in_pair", number i)
      ∷ ("cpu_factor", Value.real factor)
      ∷ ("tc_base_effective_ms", number tc.base_ms)
      ∷ ("tc_increment_effective_ms", number tc.increment_ms)
      ∷ ("slot_index", number slot.index)
      ∷ ("core_id", nullable number slot.core)
      ∷ course_fields i note p partner)

  parse_course-fields :
      (i : ℕ) (p partner : Option ParsedGame)
      → i ≤ 1
      → GameFits p
      → parse_course (fields_of i p partner) ≡ returns (course_of i p partner)
  unfolding parse_course and_then ensure lookup
  parse_course-fields i none partner l h =
      rw
        (
          req_count-number "game_in_pair" _ 0 i refl (omega arith) (omega arith),
          leb_one i l,
          req_bool-boolean "candidate_is_white" _ (missing_color i partner) refl,
          req_enum-meant "outcome" _ outcome_of "draw" draw refl (outcome_of-outcome_text draw),
          req_enum-meant "termination" _ termination_of "crash" crash refl
              (termination_of-termination_text crash),
          opt_int-nullable "ply_count" _ none refl tt,
          opt_int-nullable "duration_ms" _ none refl tt,
        )
        refl
  parse_course-fields i (some p) partner l h =
      rw
        (
          req_count-number "game_in_pair" _ 0 i refl (omega arith) (omega arith),
          leb_one i l,
          req_bool-boolean "candidate_is_white" _ p.candidate_is_white refl,
          req_enum-meant "outcome" _ outcome_of (outcome_text p.outcome) p.outcome refl
              (outcome_of-outcome_text p.outcome),
          req_enum-meant "termination" _ termination_of (termination_text p.termination)
              p.termination refl (termination_of-termination_text p.termination),
          opt_int-plies "ply_count" _ p.ply_count refl h.0,
          opt_int-nullable "duration_ms" _ p.duration_ms refl h.1,
        )
        refl

  parse_usage-fields :
      (i : ℕ) (p partner : Option ParsedGame)
      → GameFits p
      → parse_usage (fields_of i p partner) ≡ returns (usage_of p)
  unfolding parse_usage and_then opt_count lookup
  parse_usage-fields i none partner h = refl
  parse_usage-fields i (some p) partner h =
      let c = p.candidate_usage in
      let b = p.baseline_usage in
      rw
        (
          opt_count-usage_json "candidate_nodes" _ (λ u. u.nodes) c refl (nodes_fit c h.2),
          opt_count-usage_json "candidate_time_ms" _ (λ u. u.time_ms) c refl (time_fits c h.2),
          opt_count-usage_json "baseline_nodes" _ (λ u. u.nodes) b refl (nodes_fit b h.3),
          opt_count-usage_json "baseline_time_ms" _ (λ u. u.time_ms) b refl (time_fits b h.3),
        )
        refl

  module _ (d : Doubles F) (milli : F → ℕ) where
    parse_settings-fields :
        (i : ℕ) (p partner : Option ParsedGame)
        → ConditionsFit slot tc
        → d.lt (d.literal "0") factor ≡ true
        → parse_settings d milli (fields_of i p partner)
          ≡ returns (settings_of (milli factor) note slot tc p)
    unfolding parse_settings and_then ensure lookup
    parse_settings-fields i p partner h positive =
        rw
          (
            req_double-real "cpu_factor" _ d factor refl,
            positive,
            req_count-number "tc_base_effective_ms" _ 0 tc.base_ms refl (omega arith) h.2,
            req_count-number "tc_increment_effective_ms" _ 0 tc.increment_ms refl (omega arith) h.3,
            req_count-number "slot_index" _ 0 slot.index refl (omega arith) h.0,
            opt_int-nullable "core_id" _ slot.core refl h.1,
            req_string-string "pgn" _ (pgn_text note p) (pgn_field i p partner),
          )
          refl
      where
        pgn_field :
            (i : ℕ) (p partner : Option ParsedGame)
            → lookup "pgn" (fields_of i p partner) ≡ some (Value.string (pgn_text note p))
        pgn_field i none partner = refl
        pgn_field i (some p) partner = refl

    parse_game-game_json :
        (i : ℕ) (p partner : Option ParsedGame)
        → i ≤ 1
        → ConditionsFit slot tc
        → GameFits p
        → d.lt (d.literal "0") factor ≡ true
        → parse_game d milli (game_json i note slot tc factor p partner)
          ≡ returns (game_report (milli factor) i note slot tc p partner)
    unfolding parse_game game_json and_then
    parse_game-game_json i p partner l c h positive =
        rw
          (
            parse_course-fields i p partner l h,
            parse_settings-fields i p partner c positive,
            parse_usage-fields i p partner h,
          )
          refl

    -- What the client writes of the two games of a pair the server reads back: colours, outcomes,
    -- terminations, plies, durations, nodes, times, the slot and the effective clocks, provided the
    -- numbers fit the integers of the wire and the CPU factor is positive; a missing game arrives
    -- as a draw by crash with its note.
    pub parse_report-result_body :
        (client_id : ℕ) (games : List (Option ParsedGame))
        → client_id < 2 ^ 63
        → ConditionsFit slot tc
        → GameFits (game_at 0 games)
        → GameFits (game_at 1 games)
        → d.lt (d.literal "0") factor ≡ true
        → and_then
            (parse_body (some (result_body client_id games note slot tc factor)))
            (parse_report d milli)
          ≡ returns (record {
            client_id = client_id;
            game0 = game_report (milli factor) 0 note slot tc (game_at 0 games) (game_at 1 games);
            game1 = game_report (milli factor) 1 note slot tc (game_at 1 games) (game_at 0 games);
          })
    unfolding parse_report result_body and_then parse_body field lookup
    parse_report-result_body client_id games n c first second positive =
        rw
          (
            req_int64-number "client_id" _ client_id refl n,
            parse_game-game_json 0 (game_at 0 games) (game_at 1 games) (omega arith) c first
                positive,
            parse_game-game_json 1 (game_at 1 games) (game_at 0 games) (omega arith) c second
                positive,
          )
          (rw
            (
              index_of 0 (game_at 0 games) (game_at 1 games),
              index_of 1 (game_at 1 games) (game_at 0 games),
            )
            refl)
