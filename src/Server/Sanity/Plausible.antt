-- ===== src/Server/Sanity/Plausible.antt =====
-- The sanity checks, against a description of a plausible game.
use capi_net.Base.{
  ℕ, ◌+◌, ◌*◌, ◌/◌, ◌≤◌, ◌≡◌, ◌↔◌, inl, inr, true, false, Option, none, some, arith, Bool-cases,
}
use capi_net.Server.Types.{
  GameReport, PairReport, GameTermination, crash, illegal_move, normal, timeout, adjudication,
  other,
}
use capi_net.Server.Sanity.{
  GameVerdict, check_game, check_pair, check_termination, check_plies, check_duration,
  max_plausible_duration_ms, same_bool,
}

abbrev pub IsFair : GameTermination → Type 0
IsFair crash = ⊥
IsFair illegal_move = ⊥
IsFair _ = Unit

-- A duration that is there and fits the clocks: both times' base, the increments, a quarter more
-- and five seconds.
abbrev pub Fits : GameReport → ℕ → Option ℕ → Type 0
Fits g plies none = ⊥
Fits g plies (some d) =
    let clocks = 2 * g.tc_base_effective_ms + g.tc_increment_effective_ms * plies in
    d ≤ clocks + clocks / 4 + 5000

abbrev pub InRange : GameReport → Option ℕ → Type 0
InRange g none = ⊥
InRange g (some plies) = (1 ≤ plies) × (plies ≤ 2000) × Fits g plies g.duration_ms

abbrev pub IsPlausible : GameReport → Type 0
IsPlausible g = IsFair g.termination × InRange g g.ply_count

duration-Fits :
    (g : GameReport) (plies : ℕ) (d : Option ℕ)
    → ((check_duration g.tc_base_effective_ms g.tc_increment_effective_ms plies d).valid ≡ true)
      ↔ Fits g plies d
unfolding check_duration max_plausible_duration_ms
duration-Fits g plies none = ground arith
duration-Fits g plies (some d) = ground arith

plies-InRange :
    (g : GameReport) (p : Option ℕ)
    → ((check_plies g.tc_base_effective_ms g.tc_increment_effective_ms p g.duration_ms).valid
        ≡ true)
      ↔ InRange g p
unfolding check_plies
plies-InRange g none = ground arith
plies-InRange g (some plies) = ground (arith, duration-Fits g plies g.duration_ms)

termination-IsFair :
    (t : GameTermination) (v : GameVerdict)
    → ((check_termination t v).valid ≡ true) ↔ (IsFair t × (v.valid ≡ true))
unfolding check_termination
termination-IsFair crash v = ground arith
termination-IsFair illegal_move v = ground arith
termination-IsFair normal v = ground arith
termination-IsFair timeout v = ground arith
termination-IsFair adjudication v = ground arith
termination-IsFair other v = ground arith

game-IsPlausible : (g : GameReport) → ((check_game g).valid ≡ true) ↔ IsPlausible g
unfolding check_game
game-IsPlausible g = ground (
  arith,
  termination-IsFair g.termination
      (check_plies g.tc_base_effective_ms g.tc_increment_effective_ms g.ply_count g.duration_ms),
  plies-InRange g g.ply_count,
)

-- Each game of a pair is valid exactly when its termination is neither crash nor illegal_move, it
-- has 1 to 2000 plies, its duration is known and at most the clocks (both base times and the
-- increments) and a quarter plus five seconds, and the colours of the pair are inverted.
pub check_pair-IsPlausible :
    (r : PairReport)
    → (((check_pair r).0.valid ≡ true) ↔ (
        IsPlausible r.game0
        × (same_bool r.game0.candidate_is_white r.game1.candidate_is_white ≡ false)))
      × (((check_pair r).1.valid ≡ true) ↔ (
          IsPlausible r.game1
          × (same_bool r.game0.candidate_is_white r.game1.candidate_is_white ≡ false)))
unfolding check_pair
check_pair-IsPlausible r =
    let a = game-IsPlausible r.game0 in
    let b = game-IsPlausible r.game1 in
    elim (Bool-cases (same_bool r.game0.candidate_is_white r.game1.candidate_is_white)) [
      | inl e ↦ ground arith
      | inr e ↦ ground arith
    ]
