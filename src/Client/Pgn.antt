-- ===== src/Client/Pgn.antt =====
-- client/pgn.cpp: the games of a PGN of fastchess. The regular expressions are written out as
-- matchers; `milliseconds` is llround(1000 * stod(text)). An outer `none` is an exception of stoll.
pub mod Usage
pub mod Games
pub mod Outcomes
use Prim.Native.Char.{code}
use Prim.Native.String.{◌++◌ as joins}
use capi_net.Base.{
  ℕ, ◌+◌, ◌*◌, ◌^◌, Bool, true, false, not, ◌&&◌, ◌||◌, Option, none, some, List, [], ◌∷◌, ◌++◌,
  map, String, ltb, leb, ◌==◌, if◌then◌else◌, all, ◌>>=◌, length,
}
use capi_net.Base.Int.{ℤ}
use capi_net.Base.Numerals.{codes, is_digit, is_blank, number_of, span_digits, sto}
use capi_net.Server.Types.{
  GameOutcome, candidate_win, draw, candidate_loss, GameTermination, normal, timeout, illegal_move,
  crash, adjudication, other,
}
use capi_net.Server.Github.{same_text}
use capi_net.Client.Results.{EngineUsage, ParsedGame}

-- whether a text begins with some codes
unfoldable pub begins : List ℕ → String → Bool
begins [] s = true
begins (p ∷ ps) String.[] = false
begins (p ∷ ps) (String.◌∷◌ c s) = p == code c && begins ps s

abbrev pub event : List ℕ
event = codes "[Event "

-- `find("[Event ")`
unfoldable pub from_event : String → Option String
from_event String.[] = none
from_event (String.◌∷◌ c s) =
    let later = from_event s in
    if begins event (String.◌∷◌ c s) then some (String.◌∷◌ c s) else later

-- a cut behind each newline that stands before "[Event "
abbrev pub onto_first : Bool → String → List String → List String
onto_first cut front [] = front ∷ []
onto_first true front (g ∷ gs) = front ∷ g ∷ gs
onto_first false front (g ∷ gs) = joins front g ∷ gs

unfoldable pub pieces : String → List String
pieces String.[] = []
pieces (String.◌∷◌ c s) =
    onto_first (code c == b'\n' && begins event s) (String.◌∷◌ c String.[]) (pieces s)

abbrev pub is_end : ℕ → Bool
is_end c = c == b'\n' || c == b'\r'

-- `while (g.back() == '\n' || g.back() == '\r') g.pop_back()`
abbrev pub put : Bool → String → String → String
put true front String.[] = String.[]
put _ front rest = joins front rest

unfoldable pub without_ends : String → String
without_ends String.[] = String.[]
without_ends (String.◌∷◌ c s) = put (is_end (code c)) (String.◌∷◌ c String.[]) (without_ends s)

unfoldable pub split_pgn_games : String → List String
split_pgn_games pgn = elim (from_event pgn) [
  | none ↦ []
  | some s ↦ map (λ g. joins (without_ends g) "\n") (pieces s)
]

abbrev pub is_word : ℕ → Bool
is_word c = is_digit c || (leb b'a' c && leb c b'z') || (leb b'A' c && leb c b'Z') || c == b'_'

unfoldable pub span : (ℕ → Bool) → List ℕ → List ℕ × List ℕ
span p [] = ([], [])
span p (c ∷ cs) = let rest = span p cs in if p c then (c ∷ rest.0, rest.1) else ([], c ∷ cs)

abbrev pub is_nil : List ℕ → Bool
is_nil [] = true
is_nil (c ∷ cs) = false

-- a text up to its closing quote, with the escapes as they are, and what follows
abbrev pub before_rest : List ℕ → Option (List ℕ × List ℕ) → Option (List ℕ × List ℕ)
before_rest front none = none
before_rest front (some (v, rest)) = some (front ++ v, rest)

unfoldable pub quoted : List ℕ → Option (List ℕ × List ℕ)
quoted [] = none
quoted (c ∷ []) = if c == b'"' then some ([], []) else none
quoted (c ∷ d ∷ ds) =
    let escaped = quoted ds in
    let plain = quoted (d ∷ ds) in
    if c == b'"'
    then some ([], d ∷ ds)
    else if c == b'\\'
    then (if is_end d then none else before_rest (c ∷ d ∷ []) escaped)
    else before_rest (c ∷ []) plain

-- `]` and blanks
abbrev pub closes : List ℕ → Bool
closes [] = false
closes (c ∷ cs) = c == b']' && all is_blank cs

abbrev pub closed : List ℕ → Option (List ℕ × List ℕ) → Option (List ℕ × List ℕ)
closed name none = none
closed name (some (v, rest)) = if closes rest then some (name, v) else none

abbrev pub value_of : List ℕ → List ℕ → Option (List ℕ × List ℕ)
value_of name [] = none
value_of name (c ∷ cs) = if c == b'"' then closed name (quoted cs) else none

-- tag_re: ^\[(\w+)\s+"((?:[^"\\]|\\.)*)"\]\s*$
unfoldable pub tag_of : List ℕ → Option (List ℕ × List ℕ)
tag_of [] = none
tag_of (c ∷ cs) =
    let (name, after) = span is_word cs in
    let (blanks, rest) = span is_blank after in
    if not (c == b'[') || is_nil name || is_nil blanks then none else value_of name rest

-- the lines of a text, as getline gives them
abbrev pub put_line : ℕ → List (List ℕ) → List (List ℕ)
put_line c [] = (c ∷ []) ∷ []
put_line c (l ∷ ls) = (c ∷ l) ∷ ls

unfoldable pub lines : List ℕ → List (List ℕ)
lines [] = []
lines (c ∷ cs) = let rest = lines cs in if c == b'\n' then [] ∷ rest else put_line c rest

-- a carriage return at the end of a line
abbrev pub without_return : List ℕ → List ℕ
without_return [] = []
without_return (c ∷ []) = if c == b'\r' then [] else c ∷ []
without_return (c ∷ d ∷ cs) = c ∷ without_return (d ∷ cs)

abbrev pub starts_moves : List ℕ → Bool
starts_moves [] = false
starts_moves (c ∷ cs) = not (c == b'[')

-- the newest value of a name stands first
unfoldable pub tags_from : List (List ℕ × List ℕ) → List (List ℕ) → List (List ℕ × List ℕ)
tags_from tags [] = tags
tags_from tags (l ∷ ls) =
    let line = without_return l in
    let go_on = tags_from tags ls in
    elim (tag_of line) [
      | some t ↦ tags_from (t ∷ tags) ls
      | none ↦ if starts_moves line then tags else go_on
    ]

unfoldable pub tags_of : List ℕ → List (List ℕ × List ℕ)
tags_of game = tags_from [] (lines game)

unfoldable pub tag : String → List (List ℕ × List ℕ) → Option (List ℕ)
tag name [] = none
tag name ((k, v) ∷ ts) = if same_text k (codes name) then some v else tag name ts

-- `tags[name]`, which is empty for a name that is not there
abbrev pub tag_or_empty : Option (List ℕ) → List ℕ
tag_or_empty none = []
tag_or_empty (some v) = v

abbrev pub is_text : List ℕ → String → Bool
is_text cs s = same_text cs (codes s)

unfoldable pub map_termination : List ℕ → GameTermination
map_termination t =
    if is_nil t || is_text t "normal"
    then normal
    else if is_text t "time forfeit"
    then timeout
    else if is_text t "illegal move" || is_text t "rules infraction"
    then illegal_move
    else if is_text t "adjudication"
    then adjudication
    else if is_text t "abandoned"
        || is_text t "stalled connection"
        || is_text t "crash"
        || is_text t "disconnect"
    then crash
    else other

-- std::stoll of digits
abbrev pub stoll : List ℕ → Option ℕ
stoll cs = let n = number_of cs 0 in if ltb n (2 ^ 63) then some n else none

-- ":MM:SS" behind the hours
abbrev pub minutes_seconds : List ℕ → Option (ℕ × ℕ)
minutes_seconds (a ∷ m1 ∷ m2 ∷ b ∷ s1 ∷ s2 ∷ []) =
    if a == b':' && is_digit m1 && is_digit m2 && b == b':' && is_digit s1 && is_digit s2
    then some (number_of (m1 ∷ m2 ∷ []) 0, number_of (s1 ∷ s2 ∷ []) 0)
    else none
minutes_seconds _ = none

abbrev pub within_int : ℕ → Option ℕ
within_int ms = if ltb ms (2 ^ 31) then some ms else none

unfoldable pub parse_duration : List ℕ → Option (Option ℕ)
parse_duration s =
    let (hours, rest) = span_digits s in
    elim (minutes_seconds rest) [
      | none ↦ some none
      | some (m, sec) ↦
          if is_nil hours
          then some none
          else stoll hours >>= λ h. some (within_int ((h * 3600 + m * 60 + sec) * 1000))
    ]
