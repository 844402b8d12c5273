-- ===== src/Client/Results.antt =====
-- client/runner.cpp: the body of a result, from the two games that client/pgn.cpp reads. A game
-- that is missing or illegible becomes a crash with a note in place of its moves.
use Prim.Native.String.{◌++◌}
use capi_net.Base.{ℕ, zero, suc, Bool, not, Option, none, some, List, [], ◌∷◌, String, ◌==◌}
use capi_net.Base.Json.{
  Value, null, boolean, integer, real, string, number, nullable, object_of, array_of,
}
use capi_net.Base.Int.{ℤ}
use capi_net.Server.Types.{GameOutcome, GameTermination}
use capi_net.Server.Http.Words.{outcome_text, termination_text}
use capi_net.Client.Poll.{EffectiveTc}

pub record EngineUsage : Type 0 where
  pub nodes : ℕ
  pub time_ms : ℕ

-- `outcome` and `termination` are texts of the source, of the server's enumerations
pub record ParsedGame : Type 0 where
  pub text : String
  pub candidate_is_white : Bool
  pub outcome : GameOutcome
  pub termination : GameTermination
  pub ply_count : Option ℤ
  pub duration_ms : Option ℕ
  pub candidate_usage : Option EngineUsage
  pub baseline_usage : Option EngineUsage

pub record SlotInfo : Type 0 where
  pub index : ℕ
  pub core : Option ℕ

abbrev pub missing_pgn : String → String
missing_pgn note = "{capi_net: partida ausente no PGN do fastchess. " ++ note ++ "}\n"

-- the color of a missing game: the other of its partner's, or white first
abbrev pub missing_color : ℕ → Option ParsedGame → Bool
missing_color i none = i == 0
missing_color i (some p) = not p.candidate_is_white

-- `parsed.resize(2)`
abbrev pub game_at : ℕ → List (Option ParsedGame) → Option ParsedGame
game_at i [] = none
game_at zero (p ∷ ps) = p
game_at (suc i) (p ∷ ps) = game_at i ps

module _ {F : Type 0} where
  abbrev pub usage_json : (EngineUsage → ℕ) → Option EngineUsage → Value F
  usage_json f none = null
  usage_json f (some u) = number (f u)

  abbrev pub played_fields : ParsedGame → List (String × Value F)
  played_fields p =
      ("candidate_is_white", boolean p.candidate_is_white)
      ∷ ("outcome", string (outcome_text p.outcome))
      ∷ ("termination", string (termination_text p.termination))
      ∷ ("ply_count", nullable integer p.ply_count)
      ∷ ("duration_ms", nullable number p.duration_ms)
      ∷ ("pgn", string p.text)
      ∷ ("candidate_nodes", usage_json (λ u. u.nodes) p.candidate_usage)
      ∷ ("candidate_time_ms", usage_json (λ u. u.time_ms) p.candidate_usage)
      ∷ ("baseline_nodes", usage_json (λ u. u.nodes) p.baseline_usage)
      ∷ ("baseline_time_ms", usage_json (λ u. u.time_ms) p.baseline_usage)
      ∷ []

  abbrev pub missing_fields : ℕ → String → Option ParsedGame → List (String × Value F)
  missing_fields i note partner =
      ("candidate_is_white", boolean (missing_color i partner))
      ∷ ("outcome", string "draw")
      ∷ ("termination", string "crash")
      ∷ ("ply_count", null)
      ∷ ("duration_ms", null)
      ∷ ("pgn", string (missing_pgn note))
      ∷ []

  abbrev pub course_fields :
      ℕ → String → Option ParsedGame → Option ParsedGame → List (String × Value F)
  course_fields i note (some p) partner = played_fields p
  course_fields i note none partner = missing_fields i note partner

  unfoldable pub game_json :
      ℕ → String → SlotInfo → EffectiveTc → F → Option ParsedGame → Option ParsedGame → Value F
  game_json i note slot tc factor p partner = object_of (
      ("game_in_pair", number i)
      ∷ ("cpu_factor", real factor)
      ∷ ("tc_base_effective_ms", number tc.base_ms)
      ∷ ("tc_increment_effective_ms", number tc.increment_ms)
      ∷ ("slot_index", number slot.index)
      ∷ ("core_id", nullable number slot.core)
      ∷ course_fields i note p partner)

  unfoldable pub result_body :
      ℕ → List (Option ParsedGame) → String → SlotInfo → EffectiveTc → F → Value F
  result_body client_id games note slot tc factor =
      let first = game_at 0 games in
      let second = game_at 1 games in
      object_of (
        ("client_id", number client_id)
        ∷ (
          "games",
          array_of (
              game_json 0 note slot tc factor first second
              ∷ game_json 1 note slot tc factor second first
              ∷ []),
        )
        ∷ [])
