-- ===== src/Server/Http/Games.antt =====
-- server/http/routes.cpp: the body of a result, with `parse_game` and the checks of its two
-- games. An id is positive in the database, so a negative one is 0 here: it names no row. `milli`
-- is a double in thousandths, as the reports keep the factor of a CPU.
use Prim.Native.String.{◌++◌}
use capi_net.Base.{ℕ, Bool, Option, none, some, String, leb, ◌==◌, if◌then◌else◌}
use capi_net.Base.Int.{ℤ, pos, negsuc, pos_part}
use capi_net.Base.Json.{Value, integer, object, array, Members, residue, signed, lookup, nil, cons}
use capi_net.Server.Types.{GameOutcome, GameTermination, GameReport, PairReport}
use capi_net.Server.Stats.{Doubles}
use capi_net.Server.Http.{
  Result, throws, returns, bad_request, and_then, ensure, field, present, req_int64, req_count,
  opt_int, req_bool, req_double, req_string, req_enum,
}
use capi_net.Server.Http.Words.{outcome_of, termination_of}

-- a 64-bit count
abbrev pub counted : String → ℤ → Result ℕ
counted key (pos n) = returns n
counted key (negsuc n) = throws (bad_request (key ++ " must be a non-negative integer"))

abbrev pub as_count : {F : Type 0} → String → Value F → Result ℕ
as_count key (integer z) = counted key (signed 64 (residue 64 z))
as_count key _ = throws (bad_request (key ++ " must be a non-negative integer"))

abbrev pub maybe_count : {F : Type 0} → String → Option (Value F) → Result (Option ℕ)
maybe_count key none = returns none
maybe_count key (some v) = and_then (as_count key v) (λ n. returns (some n))

unfoldable pub opt_count : {F : Type 0} → String → Members F → Result (Option ℕ)
opt_count key ms = maybe_count key (present (lookup key ms))

-- what a report says of a game, of its conditions, and of the engines' speed
pub record Course : Type 0 where
  pub game_in_pair : ℕ
  pub candidate_is_white : Bool
  pub outcome : GameOutcome
  pub termination : GameTermination
  pub ply_count : Option ℕ
  pub duration_ms : Option ℕ

pub record Settings : Type 0 where
  pub cpu_factor : ℕ
  pub tc_base : ℕ
  pub tc_increment : ℕ
  pub slot_index : ℕ
  pub core_id : Option ℕ
  pub pgn : String

pub record Usage : Type 0 where
  pub candidate_nodes : Option ℕ
  pub candidate_time : Option ℕ
  pub baseline_nodes : Option ℕ
  pub baseline_time : Option ℕ

abbrev pub report_of : Course → Settings → Usage → GameReport
report_of c s u = record {
  game_in_pair = c.game_in_pair;
  candidate_is_white = c.candidate_is_white;
  outcome = c.outcome;
  termination = c.termination;
  ply_count = c.ply_count;
  duration_ms = c.duration_ms;
  cpu_factor_at_play = s.cpu_factor;
  tc_base_effective_ms = s.tc_base;
  tc_increment_effective_ms = s.tc_increment;
  slot_index = s.slot_index;
  core_id = s.core_id;
  pgn = s.pgn;
  candidate_nodes = u.candidate_nodes;
  candidate_time_ms = u.candidate_time;
  baseline_nodes = u.baseline_nodes;
  baseline_time_ms = u.baseline_time;
}

module _ {F : Type 0} where
  unfoldable pub parse_course : Members F → Result Course
  parse_course g = and_then (req_count "game_in_pair" 0 g) λ i.
      and_then (ensure (leb i 1) "game_in_pair must be 0 or 1") λ _.
        and_then (req_bool "candidate_is_white" g) λ white.
          and_then (req_enum "outcome" outcome_of g) λ outcome.
            and_then (req_enum "termination" termination_of g) λ termination.
              and_then (opt_int "ply_count" 0 g) λ plies.
                and_then (opt_int "duration_ms" 0 g) λ duration. returns (record {
                  game_in_pair = i;
                  candidate_is_white = white;
                  outcome = outcome;
                  termination = termination;
                  ply_count = plies;
                  duration_ms = duration;
                })

  unfoldable pub parse_settings : Doubles F → (F → ℕ) → Members F → Result Settings
  parse_settings d milli g = and_then (req_double d "cpu_factor" g) λ factor.
      and_then (ensure (d.lt (d.literal "0") factor) "cpu_factor must be positive") λ _.
        and_then (req_count "tc_base_effective_ms" 0 g) λ base.
          and_then (req_count "tc_increment_effective_ms" 0 g) λ increment.
            and_then (req_count "slot_index" 0 g) λ slot. and_then (opt_int "core_id" 0 g) λ core.
              and_then (req_string "pgn" g) λ pgn. returns (record {
                cpu_factor = milli factor;
                tc_base = base;
                tc_increment = increment;
                slot_index = slot;
                core_id = core;
                pgn = pgn;
              })

  unfoldable pub parse_usage : Members F → Result Usage
  parse_usage g = and_then (opt_count "candidate_nodes" g) λ a.
      and_then (opt_count "candidate_time_ms" g) λ b. and_then (opt_count "baseline_nodes" g) λ c.
        and_then (opt_count "baseline_time_ms" g) λ e. returns (record {
          candidate_nodes = a;
          candidate_time = b;
          baseline_nodes = c;
          baseline_time = e;
        })

module _ {F : Type 0} (d : Doubles F) (milli : F → ℕ) where
  unfoldable pub parse_game : Value F → Result GameReport
  parse_game (object g) = and_then (parse_course g) λ c.
      and_then (parse_settings d milli g)
        λ s. and_then (parse_usage g) λ u. returns (report_of c s u)
  parse_game _ = throws (bad_request "each game must be an object")

  -- report.games[game.game_in_pair] = game
  abbrev pub place : ℕ → GameReport → GameReport → Result PairReport
  place client_id g h =
      if g.game_in_pair == h.game_in_pair
      then throws (bad_request "games must have game_in_pair 0 and 1")
      else returns (
          if g.game_in_pair == 0
          then record { client_id = client_id; game0 = g; game1 = h }
          else record { client_id = client_id; game0 = h; game1 = g })

  abbrev pub two_games : Value F → Result (Value F × Value F)
  two_games (array (cons g (cons h nil))) = returns (g, h)
  two_games _ = throws (bad_request "games must be an array with exactly 2 games")

  unfoldable pub parse_report : Members F → Result PairReport
  parse_report j = and_then (req_int64 "client_id" j) λ client. and_then (field "games" j) λ v.
      and_then (two_games v) λ games.
        and_then (parse_game games.0)
          λ g. and_then (parse_game games.1) λ h. place (pos_part client) g h
