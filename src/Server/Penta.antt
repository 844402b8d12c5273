-- ===== src/Server/Penta.antt =====
-- common/penta.hpp and the integer part of common/penta.cpp. The counts are int64_t in the source
-- and natural numbers here: a count of stored pairs stays below 2 ^ 63.
use capi_net.Base.{
  ℕ, ◌+◌, ◌-◌, ◌*◌, ◌/◌, ◌≡◌, ◌||◌, Option, none, some, arith, ltb, ◌==◌, if◌then◌else◌,
}
use capi_net.Base.Int.{ℤ, pos, negsuc}

-- `enum class Penta`
pub data Penta : Type 0 where
  ll ld dd_wl wd ww : Penta

-- `static_cast<Penta>(int)` on 0 to 4
abbrev pub to_penta : ℕ → Penta
to_penta n =
    if n == 0
    then ll
    else if n == 1
    then ld
    else if n == 2
    then dd_wl
    else if n == 3
    then wd
    else ww

-- A double `pair_score` as a multiple of 5e-10, so that `idx` counts units of 1e-9.
abbrev pub idx_unit : ℕ
idx_unit = 1_000_000_000

-- `std::round`: to the nearest, halves away from zero.
abbrev pub round_unit : ℕ → ℕ
round_unit n = (2 * n + idx_unit) / (2 * idx_unit)

abbrev pub distance : ℕ → ℕ → ℕ
distance a b = (a - b) + (b - a)

-- `none` is `std::invalid_argument`. A negative `idx` that rounds to -0 passes the range test.
unfoldable pub category_from_pair_score : ℤ → Option Penta
category_from_pair_score (pos idx) =
    let rounded = round_unit idx in
    if ltb 4 rounded || ltb 1 (distance idx (rounded * idx_unit))
    then none
    else some (to_penta rounded)
category_from_pair_score (negsuc n) =
    let rounded = round_unit (n + 1) in if ltb 0 rounded || ltb 1 (n + 1) then none else some ll

-- `struct Pentanomial`: the array `counts`, indexed by `Penta`.
pub record Pentanomial : Type 0 where
  pub c_ll : ℕ
  pub c_ld : ℕ
  pub c_dd_wl : ℕ
  pub c_wd : ℕ
  pub c_ww : ℕ

abbrev pub no_pairs : Pentanomial
no_pairs = record { c_ll = 0; c_ld = 0; c_dd_wl = 0; c_wd = 0; c_ww = 0 }

-- `Pentanomial::add`
unfoldable pub add : Pentanomial → Penta → ℕ → Pentanomial
add p ll n = record p { c_ll = p.c_ll + n }
add p ld n = record p { c_ld = p.c_ld + n }
add p dd_wl n = record p { c_dd_wl = p.c_dd_wl + n }
add p wd n = record p { c_wd = p.c_wd + n }
add p ww n = record p { c_ww = p.c_ww + n }

-- `operator[]`
unfoldable pub count_of : Pentanomial → Penta → ℕ
count_of p ll = p.c_ll
count_of p ld = p.c_ld
count_of p dd_wl = p.c_dd_wl
count_of p wd = p.c_wd
count_of p ww = p.c_ww

-- `Pentanomial::pairs`
unfoldable pub pairs : Pentanomial → ℕ
pairs p = p.c_ll + p.c_ld + p.c_dd_wl + p.c_wd + p.c_ww

-- `operator+=`
unfoldable pub merge : Pentanomial → Pentanomial → Pentanomial
merge p q = record {
  c_ll = p.c_ll + q.c_ll;
  c_ld = p.c_ld + q.c_ld;
  c_dd_wl = p.c_dd_wl + q.c_dd_wl;
  c_wd = p.c_wd + q.c_wd;
  c_ww = p.c_ww + q.c_ww;
}

-- The candidate's score over all pairs, in half points.
abbrev pub half_points : Pentanomial → ℕ
half_points p = p.c_ld + 2 * p.c_dd_wl + 3 * p.c_wd + 4 * p.c_ww

abbrev pub score_of : Penta → ℕ
score_of ll = 0
score_of ld = 1
score_of dd_wl = 2
score_of wd = 3
score_of ww = 4

pub pairs-add : (p : Pentanomial) (c : Penta) (n : ℕ) → pairs (add p c n) ≡ pairs p + n
unfolding pairs add
pairs-add p c n = ground arith

pub half_points-add :
    (p : Pentanomial) (c : Penta) (n : ℕ) → half_points (add p c n) ≡ half_points p + n * score_of c
unfolding add
half_points-add p c n = ground arith
