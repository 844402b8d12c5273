-- ===== src/Client/Pgn/Outcomes.antt =====
-- client/pgn.cpp: the score of the candidate in a game that is read.
use capi_net.Base.{
  ℕ, ◌+◌, ◌≡◌, refl, ◌⊎◌, inl, inr, ◌||◌, if◌then◌else◌, ap, sym, arith, Bool, true, false, Option,
  none, some, List, String, >>=-eq-some, some_inj,
}
use capi_net.Base.Numerals.{codes}
use capi_net.Server.Types.{GameOutcome, candidate_win, draw, candidate_loss}
use capi_net.Client.Results.{ParsedGame}
use capi_net.Client.Pgn.{tags_of, tag, tag_or_empty, is_text}
use capi_net.Client.Pgn.Games.{
  color_of, outcome_for, assembled, duration_of, white_opens, played_game, with_result,
  game_of_tags, parse_game,
}
use capi_net.Client.Pgn.Usage.{usage_by_color}

-- the half points of the candidate
abbrev pub half_points : GameOutcome → ℕ
half_points candidate_win = 2
half_points draw = 1
half_points candidate_loss = 0

-- the results of a game that is over, and the half points of white
abbrev pub is_result : List ℕ → Bool
is_result r = is_text r "1-0" || is_text r "0-1" || is_text r "1/2-1/2"

abbrev pub white_half_points : List ℕ → ℕ
white_half_points r = if is_text r "1/2-1/2" then 1 else if is_text r "1-0" then 2 else 0

outcome_for-white :
    (r : List ℕ) {o : GameOutcome}
    → outcome_for true r ≡ some o
    → (is_result r ≡ true) × (half_points o ≡ white_half_points r)
outcome_for-white r h = ground arith

outcome_for-black :
    (r : List ℕ) {o : GameOutcome}
    → outcome_for false r ≡ some o
    → (is_result r ≡ true) × (half_points o + white_half_points r ≡ 2)
outcome_for-black r h = ground arith

color_of-white :
    (name : String) (white black : List ℕ)
    → color_of name white black ≡ some true
    → is_text white name ≡ true
color_of-white name white black h = ground arith

color_of-black :
    (name : String) (white black : List ℕ)
    → color_of name white black ≡ some false
    → (is_text white name ≡ false) × (is_text black name ≡ true)
color_of-black name white black h = ground arith

played_game-fields :
    (milliseconds : List ℕ → ℕ) (text : String) (tags : List (List ℕ × List ℕ)) (white : Bool)
    (outcome : GameOutcome) {p : ParsedGame}
    → played_game milliseconds text tags white outcome ≡ some (some p)
    → (p.candidate_is_white ≡ white) × (p.outcome ≡ outcome)
unfolding played_game
played_game-fields milliseconds text tags white outcome {p} h =
    let (d, e, h1) = >>=-eq-some (duration_of (tag "GameDuration" tags)) _ h in
    let (u, f, h2) =
      >>=-eq-some (usage_by_color milliseconds (codes text) (white_opens (tag "FEN" tags))) _ h1 in
    let same_game : assembled text tags white outcome d u ≡ p = some_inj (some_inj h2) in
    (sym (ap (λ g. g.candidate_is_white) same_game), sym (ap (λ g. g.outcome) same_game))

with_result-fields :
    (milliseconds : List ℕ → ℕ) (text : String) (tags : List (List ℕ × List ℕ)) (white : Bool)
    (o : Option GameOutcome) {p : ParsedGame}
    → with_result milliseconds text tags white o ≡ some (some p)
    → (p.candidate_is_white ≡ white) × (o ≡ some p.outcome)
unfolding with_result
with_result-fields milliseconds text tags white none h = cc
with_result-fields milliseconds text tags white (some o) {p} h =
    let (f, e) = played_game-fields milliseconds text tags white o {p = p} h in (f, ap some (sym e))

game_of_tags-outcome :
    (milliseconds : List ℕ → ℕ) (text : String) (tags : List (List ℕ × List ℕ))
    (color : Option Bool) {p : ParsedGame}
    → game_of_tags milliseconds text tags color ≡ some (some p)
    → outcome_for p.candidate_is_white (tag_or_empty (tag "Result" tags)) ≡ some p.outcome
unfolding game_of_tags
game_of_tags-outcome milliseconds text tags none h = cc
game_of_tags-outcome milliseconds text tags (some white) {p} h =
    let (f, e) =
      with_result-fields milliseconds text tags white
        (outcome_for white (tag_or_empty (tag "Result" tags))) {p = p} h in
    rw f e

game_of_tags-color :
    (milliseconds : List ℕ → ℕ) (text : String) (tags : List (List ℕ × List ℕ))
    (color : Option Bool) {p : ParsedGame}
    → game_of_tags milliseconds text tags color ≡ some (some p)
    → color ≡ some p.candidate_is_white
unfolding game_of_tags
game_of_tags-color milliseconds text tags none h = cc
game_of_tags-color milliseconds text tags (some white) {p} h =
    let (f, e) =
      with_result-fields milliseconds text tags white
        (outcome_for white (tag_or_empty (tag "Result" tags))) {p = p} h in
    ap some (sym f)

-- The candidate has a color and its points of the result.
abbrev pub IsScored : String → List ℕ → List ℕ → List ℕ → ParsedGame → Type 0
IsScored name white black result p =
    (is_result result ≡ true)
    × (((p.candidate_is_white ≡ true)
          × (is_text white name ≡ true)
          × (half_points p.outcome ≡ white_half_points result))
        ⊎ ((p.candidate_is_white ≡ false)
            × (is_text white name ≡ false)
            × (is_text black name ≡ true)
            × (half_points p.outcome + white_half_points result ≡ 2)))

by_color :
    (name : String) (white black result : List ℕ) (p : ParsedGame) (w : Bool)
    → p.candidate_is_white ≡ w
    → color_of name white black ≡ some w
    → outcome_for w result ≡ some p.outcome
    → IsScored name white black result p
by_color name white black result p true e c o =
    let (r, n) = outcome_for-white result o in (r, inl (e, color_of-white name white black c, n))
by_color name white black result p false e c o =
    let (r, n) = outcome_for-black result o in
    let (a, b) = color_of-black name white black c in (r, inr (e, a, b, n))

-- A game that is read has a result of the three that end a game, and the color of the tag that
-- holds the name of the candidate, white before black; a candidate that played white has the half
-- points that the result gives to white, and one that played black the other of the two.
pub parse_game-IsScored :
    (milliseconds : List ℕ → ℕ) (text name : String) {p : ParsedGame}
    → parse_game milliseconds text name ≡ some (some p)
    → let tags = tags_of (codes text) in
      IsScored name
        (tag_or_empty (tag "White" tags))
        (tag_or_empty (tag "Black" tags))
        (tag_or_empty (tag "Result" tags))
        p
unfolding parse_game
parse_game-IsScored milliseconds text name {p} h =
    let tags = tags_of (codes text) in
    by_color name (tag_or_empty (tag "White" tags)) (tag_or_empty (tag "Black" tags))
      (tag_or_empty (tag "Result" tags)) p p.candidate_is_white refl
      (game_of_tags-color milliseconds text tags _ {p = p} h)
      (game_of_tags-outcome milliseconds text tags _ {p = p} h)
