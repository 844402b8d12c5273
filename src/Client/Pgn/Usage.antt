-- ===== src/Client/Pgn/Usage.antt =====
-- client/pgn.cpp: `usage_by_color`, the nodes and times in the comments of the moves.
use capi_net.Base.{
  ℕ, ◌+◌, Bool, true, false, not, ◌&&◌, ◌||◌, Option, none, some, List, [], ◌∷◌, ◌++◌, ◌==◌,
  if◌then◌else◌, ◌>>=◌,
}
use capi_net.Base.Numerals.{is_blank, span_digits}
use capi_net.Client.Pgn.{is_word, is_nil, stoll}
use capi_net.Client.Results.{EngineUsage}

-- what follows the first blank line, with it
unfoldable pub moves_of : List ℕ → Option (List ℕ)
moves_of [] = none
moves_of (c ∷ []) = none
moves_of (c ∷ d ∷ cs) =
    let later = moves_of (d ∷ cs) in if c == b'\n' && d == b'\n' then some (c ∷ d ∷ cs) else later

-- from each '{' to the '}' behind it, which is left out
unfoldable pub comments : Option (List ℕ) → List ℕ → List (List ℕ)
comments open_ [] = []
comments none (c ∷ cs) = if c == b'{' then comments (some (c ∷ [])) cs else comments none cs
comments (some text) (c ∷ cs) =
    if c == b'}' then text ∷ comments none cs else comments (some (text ++ c ∷ [])) cs

abbrev pub starts_word : List ℕ → Bool
starts_word [] = false
starts_word (c ∷ cs) = is_word c

-- the digits behind "n="
abbrev pub digits_behind : List ℕ → Option (List ℕ)
digits_behind (n ∷ e ∷ cs) =
    if n == b'n' && e == b'=' && not (is_nil (span_digits cs).0)
    then some (span_digits cs).0
    else none
digits_behind _ = none

-- nodes_re: \bn=(\d+); `inside` holds behind a character of a word
unfoldable pub find_nodes : Bool → List ℕ → Option (List ℕ)
find_nodes inside [] = none
find_nodes inside (c ∷ cs) =
    let later = find_nodes (is_word c) cs in
    if inside then later else (elim (digits_behind (c ∷ cs)) [ some ds ↦ some ds | none ↦ later ])

-- a fraction, which may be missing
abbrev pub fraction : List ℕ → List ℕ × List ℕ
fraction [] = ([], [])
fraction (c ∷ cs) =
    if c == b'.' && not (is_nil (span_digits cs).0)
    then (c ∷ (span_digits cs).0, (span_digits cs).1)
    else ([], c ∷ cs)

-- 's' at the end of a word
abbrev pub ends_with_s : List ℕ → Bool
ends_with_s [] = false
ends_with_s (c ∷ cs) = c == b's' && not (starts_word cs)

abbrev pub seconds_at : List ℕ → Option (List ℕ)
seconds_at cs =
    let (whole, rest) = span_digits cs in
    let (part, after) = fraction rest in
    if is_nil whole || not (ends_with_s after) then none else some (whole ++ part)

-- time_re: \s(\d+(?:\.\d+)?)s\b
unfoldable pub find_time : List ℕ → Option (List ℕ)
find_time [] = none
find_time (c ∷ cs) =
    let later = find_time cs in
    if is_blank c then (elim (seconds_at cs) [ some t ↦ some t | none ↦ later ]) else later

-- the sums of one side; `none` before its first measured move
abbrev pub add_usage : ℕ → ℕ → Option EngineUsage → EngineUsage
add_usage n t none = record { nodes = n; time_ms = t }
add_usage n t (some u) = record { nodes = u.nodes + n; time_ms = u.time_ms + t }

pub record ColorUsage : Type 0 where
  pub white : Option EngineUsage
  pub black : Option EngineUsage

abbrev pub credit : Bool → ℕ → ℕ → ColorUsage → ColorUsage
credit true n t u = record u { white = some (add_usage n t u.white) }
credit false n t u = record u { black = some (add_usage n t u.black) }

-- one comment, of the side that moved
abbrev pub measure :
    (List ℕ → ℕ) → Bool → Option (List ℕ) → Option (List ℕ) → ColorUsage → Option ColorUsage
measure milliseconds white (some n) (some t) u =
    stoll n >>= λ nodes. some (credit white nodes (milliseconds t) u)
measure milliseconds white _ _ u = some u

-- the loop over the comments, one for each move
unfoldable pub measure_moves : (List ℕ → ℕ) → Bool → List (List ℕ) → ColorUsage → Option ColorUsage
measure_moves milliseconds white [] u = some u
measure_moves milliseconds white (c ∷ cs) u =
    measure milliseconds white (find_nodes false c) (find_time c) u
    >>= measure_moves milliseconds (not white) cs

unfoldable pub usage_by_color : (List ℕ → ℕ) → List ℕ → Bool → Option ColorUsage
usage_by_color milliseconds game white_first = elim (moves_of game) [
  | none ↦ some (record { white = none; black = none })
  | some moves ↦
      measure_moves milliseconds white_first (comments none moves)
        (record { white = none; black = none })
]
