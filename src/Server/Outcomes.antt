-- ===== src/Server/Outcomes.antt =====
-- The view `pair_outcomes` (migrations/001_initial.sql) and the two aggregates that `refresh_test`
-- computes from it: the pentanomial counts and the score of the games.
use capi_net.Base.{
  ℕ, ◌+◌, ◌*◌, ◌&&◌, Bool, Option, some, List, [], ◌∷◌, ◌++◌, map, ◌==◌, if◌then◌else◌, ◌>>=◌,
  select, count_where, sum_of,
}
use capi_net.Base.Int.{pos}
use capi_net.Server.Penta.{Pentanomial, category_from_pair_score, idx_unit, add}
use capi_net.Server.Types.{GameOutcome, candidate_win, draw, candidate_loss, is_completed}
use capi_net.Server.Schema.{GameRow, PairRow, Db}

-- 1.0, 0.5 or 0.0, in half points
abbrev pub outcome_half : GameOutcome → ℕ
outcome_half candidate_win = 2
outcome_half draw = 1
outcome_half candidate_loss = 0

-- the games of one client in a group
pub record Tally : Type 0 where
  pub client_id : ℕ
  pub games : ℕ
  pub score : ℕ

unfoldable pub tally_game : GameRow → List Tally → List Tally
tally_game g [] =
    record { client_id = g.client_id; games = 1; score = outcome_half g.report.outcome } ∷ []
tally_game g (t ∷ ts) =
    if t.client_id == g.client_id
    then record t { games = t.games + 1; score = t.score + outcome_half g.report.outcome } ∷ ts
    else t ∷ tally_game g ts

-- GROUP BY g.client_id
unfoldable pub tallies : List GameRow → List Tally
tallies [] = []
tallies (g ∷ gs) = tally_game g (tallies gs)

abbrev pub counts_for : PairRow → GameRow → Bool
counts_for p g = g.pair_id == p.id && g.valid

pub record PairOutcome : Type 0 where
  pub pair_id : ℕ
  pub test_id : ℕ
  pub client_id : ℕ
  pub score : ℕ

abbrev pub outcome_of : PairRow → Tally → PairOutcome
outcome_of p t = record {
  pair_id = p.id;
  test_id = p.test_id;
  client_id = t.client_id;
  score = t.score;
}

-- HAVING COUNT(*) = 2
unfoldable pub outcomes_of : List GameRow → PairRow → List PairOutcome
outcomes_of games p =
    if is_completed p.status
    then map (outcome_of p) (select (λ t. t.games == 2) (tallies (select (counts_for p) games)))
    else []

unfoldable pub outcomes_from : List GameRow → List PairRow → List PairOutcome
outcomes_from games [] = []
outcomes_from games (p ∷ ps) = outcomes_of games p ++ outcomes_from games ps

unfoldable pub pair_outcomes : {F : Type 0} → Db F → List PairOutcome
pair_outcomes db = outcomes_from db.games db.pairs

-- SELECT pair_score, count(*) ... GROUP BY pair_score
unfoldable pub count_score : ℕ → List (ℕ × ℕ) → List (ℕ × ℕ)
count_score h [] = (h, 1) ∷ []
count_score h ((s, n) ∷ rest) = if s == h then (s, n + 1) ∷ rest else (s, n) ∷ count_score h rest

unfoldable pub group_scores : List PairOutcome → List (ℕ × ℕ)
group_scores [] = []
group_scores (o ∷ os) = count_score o.score (group_scores os)

-- the loop over the groups
unfoldable pub add_scores : Pentanomial → List (ℕ × ℕ) → Option Pentanomial
add_scores p [] = some p
add_scores p ((s, n) ∷ rest) =
    category_from_pair_score (pos (s * idx_unit)) >>= λ c. add_scores (add p c n) rest

abbrev pub same_outcome : GameOutcome → GameOutcome → Bool
same_outcome a b = outcome_half a == outcome_half b

-- count(*) FILTER (WHERE g.outcome = o) over the valid games of the test joined with the view
unfoldable pub count_games : {F : Type 0} → Db F → ℕ → GameOutcome → ℕ
count_games db test_id o =
    let outcomes = pair_outcomes db in
    sum_of
      (λ g.
        if g.test_id == test_id && g.valid && same_outcome g.report.outcome o
        then count_where (λ po. po.pair_id == g.pair_id) outcomes
        else 0)
      db.games
