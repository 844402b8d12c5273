-- ===== src/Server/Sanity.antt =====
-- server/sanity.cpp: the checks of a reported pair. The int64_t products stay below 2 ^ 63 for
-- int inputs, so no wrap-around is written.
pub mod Plausible
use capi_net.Base.{
  ℕ, ◌+◌, ◌*◌, ◌/◌, Bool, true, false, not, ◌||◌, Option, none, some, ltb, ◌==◌, if◌then◌else◌,
  String,
}
use capi_net.Server.Types.{
  GameReport, PairReport, GameTermination, normal, timeout, illegal_move, crash, adjudication,
  other,
}

pub record GameVerdict : Type 0 where
  pub valid : Bool
  pub reason : String

abbrev pub game_ok : GameVerdict
game_ok = record { valid = true; reason = "" }

abbrev pub fails : String → GameVerdict
fails why = record { valid = false; reason = why }

-- `kMaxPlyCount`
abbrev pub max_ply_count : ℕ
max_ply_count = 2000

unfoldable pub max_plausible_duration_ms : ℕ → ℕ → ℕ → ℕ
max_plausible_duration_ms tc_base_ms tc_increment_ms ply_count =
    let clocks = 2 * tc_base_ms + tc_increment_ms * ply_count in clocks + clocks / 4 + 5000

-- What follows the termination test. `ply_count` and `duration_ms` are never negative here.
unfoldable pub check_duration : ℕ → ℕ → ℕ → Option ℕ → GameVerdict
check_duration base inc plies none = fails "duration_missing"
check_duration base inc plies (some d) =
    if ltb (max_plausible_duration_ms base inc plies) d
    then fails "duration_implausible"
    else game_ok

unfoldable pub check_plies : ℕ → ℕ → Option ℕ → Option ℕ → GameVerdict
check_plies base inc none duration = fails "ply_count_out_of_range"
check_plies base inc (some plies) duration =
    if plies == 0 || ltb max_ply_count plies
    then fails "ply_count_out_of_range"
    else check_duration base inc plies duration

unfoldable pub check_termination : GameTermination → GameVerdict → GameVerdict
check_termination crash v = fails "termination_crash"
check_termination illegal_move v = fails "termination_illegal_move"
check_termination normal v = v
check_termination timeout v = v
check_termination adjudication v = v
check_termination other v = v

unfoldable pub check_game : GameReport → GameVerdict
unfolding check_termination check_plies check_duration
check_game g =
    check_termination g.termination
      (check_plies g.tc_base_effective_ms g.tc_increment_effective_ms g.ply_count g.duration_ms)

abbrev pub same_bool : Bool → Bool → Bool
same_bool true b = b
same_bool false b = not b

-- the loop over the two verdicts
abbrev pub reject_colors : GameVerdict → GameVerdict
reject_colors v = if v.valid then fails "pair_colors_not_inverted" else v

unfoldable pub check_pair : PairReport → GameVerdict × GameVerdict
check_pair r =
    let v0 = check_game r.game0 in
    let v1 = check_game r.game1 in
    if same_bool r.game0.candidate_is_white r.game1.candidate_is_white
    then (reject_colors v0, reject_colors v1)
    else (v0, v1)
