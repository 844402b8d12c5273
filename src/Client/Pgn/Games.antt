-- ===== src/Client/Pgn/Games.antt =====
-- client/pgn.cpp: `parse_game`, and `make_result_body` of client/runner.cpp on the text of a PGN.
use capi_net.Base.{
  ℕ, zero, suc, Bool, true, false, not, ◌||◌, Option, none, some, List, [], ◌∷◌, String, ◌==◌,
  if◌then◌else◌, ◌>>=◌,
}
use capi_net.Base.Int.{ℤ}
use capi_net.Base.Json.{Value}
use capi_net.Base.Numerals.{codes, sto}
use capi_net.Server.Types.{GameOutcome, candidate_win, draw, candidate_loss}
use capi_net.Client.Poll.{EffectiveTc}
use capi_net.Client.Results.{ParsedGame, SlotInfo, result_body}
use capi_net.Client.Pgn.{
  split_pgn_games, tags_of, tag, tag_or_empty, is_text, map_termination, parse_duration,
}
use capi_net.Client.Pgn.Usage.{ColorUsage, usage_by_color}

-- the candidate's color; `none` if it did not play
abbrev pub color_of : String → List ℕ → List ℕ → Option Bool
color_of candidate white black =
    if is_text white candidate
    then some true
    else if is_text black candidate
    then some false
    else none

abbrev pub same : Bool → Bool → Bool
same true b = b
same false b = not b

-- the outcome for the candidate; `none` for a game without a result
abbrev pub outcome_for : Bool → List ℕ → Option GameOutcome
outcome_for candidate_white result =
    if is_text result "1/2-1/2"
    then some draw
    else if is_text result "1-0" || is_text result "0-1"
    then some
        (if same (is_text result "1-0") candidate_white then candidate_win else candidate_loss)
    else none

-- an exception of stoi is caught
abbrev pub plies_of : Option (List ℕ) → Option ℤ
plies_of none = none
plies_of (some t) = elim (sto 32 t) [ none ↦ none | some r ↦ some r.0 ]

abbrev pub duration_of : Option (List ℕ) → Option (Option ℕ)
duration_of none = some none
duration_of (some t) = parse_duration t

-- the side to move, behind the first blank of a FEN
unfoldable pub black_opens : List ℕ → Bool
black_opens [] = false
black_opens (c ∷ []) = false
black_opens (c ∷ d ∷ cs) = let rest = black_opens (d ∷ cs) in if c == b' ' then d == b'b' else rest

abbrev pub white_opens : Option (List ℕ) → Bool
white_opens none = true
white_opens (some fen) = not (black_opens fen)

abbrev pub assembled :
    String → List (List ℕ × List ℕ) → Bool → GameOutcome → Option ℕ → ColorUsage → ParsedGame
assembled text tags white outcome duration u = record {
  text = text;
  candidate_is_white = white;
  outcome = outcome;
  termination = map_termination (tag_or_empty (tag "Termination" tags));
  ply_count = plies_of (tag "PlyCount" tags);
  duration_ms = duration;
  candidate_usage = if white then u.white else u.black;
  baseline_usage = if white then u.black else u.white;
}

-- a game with a color and a result
unfoldable pub played_game :
    (List ℕ → ℕ) → String → List (List ℕ × List ℕ) → Bool → GameOutcome → Option (Option ParsedGame)
played_game milliseconds text tags white outcome = duration_of (tag "GameDuration" tags) >>= λ d.
    usage_by_color milliseconds (codes text) (white_opens (tag "FEN" tags)) >>= λ u.
    some (some (assembled text tags white outcome d u))

unfoldable pub with_result :
    (List ℕ → ℕ)
    → String
    → List (List ℕ × List ℕ)
    → Bool
    → Option GameOutcome
    → Option (Option ParsedGame)
with_result milliseconds text tags white none = some none
with_result milliseconds text tags white (some outcome) =
    played_game milliseconds text tags white outcome

unfoldable pub game_of_tags :
    (List ℕ → ℕ) → String → List (List ℕ × List ℕ) → Option Bool → Option (Option ParsedGame)
game_of_tags milliseconds text tags none = some none
game_of_tags milliseconds text tags (some white) =
    with_result milliseconds text tags white (outcome_for white (tag_or_empty (tag "Result" tags)))

-- the outer `none` is an exception of stoll
unfoldable pub parse_game : (List ℕ → ℕ) → String → String → Option (Option ParsedGame)
parse_game milliseconds text candidate =
    let tags = tags_of (codes text) in
    game_of_tags milliseconds text tags
      (color_of candidate (tag_or_empty (tag "White" tags)) (tag_or_empty (tag "Black" tags)))

-- the first two games
unfoldable pub first_games : (List ℕ → ℕ) → ℕ → List String → Option (List (Option ParsedGame))
first_games milliseconds zero texts = some []
first_games milliseconds (suc n) [] = some []
first_games milliseconds (suc n) (t ∷ ts) = parse_game milliseconds t "candidate" >>= λ g.
    first_games milliseconds n ts >>= λ gs. some (g ∷ gs)

unfoldable pub make_result_body :
    {F : Type 0}
    → (List ℕ → ℕ)
    → ℕ
    → String
    → String
    → SlotInfo
    → EffectiveTc
    → F
    → Option (Value F)
make_result_body milliseconds client_id pgn note slot tc factor =
    first_games milliseconds 2 (split_pgn_games pgn) >>= λ games.
    some (result_body client_id games note slot tc factor)
