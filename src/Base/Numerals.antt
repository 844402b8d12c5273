-- ===== src/Base/Numerals.antt =====
-- Decimal numerals as the C++ library writes and reads them: std::to_string, std::stoi and
-- std::stoll. A text is read as the list of its codes.
use Prim.Native.Nat.{ℕ, zero, suc, ◌+◌, ◌-◌, ◌*◌, ◌/◌, ◌%◌, ◌^◌, ◌<◌}
use Prim.Native.Char.{code}
use Prim.Native.String.{String, ◌++◌}
use mathlib.Core.Path.{◌≡◌, refl, ap, sym, ◌∙◌}
use mathlib.Core.Bool.{Bool, true, false, ◌&&◌, ◌||◌}
use mathlib.Core.List.{List, [], ◌∷◌}
use mathlib.Core.Option.{Option, none, some}
use native.Mathlib.Omega.{arith}
use mathlib.Core.Logic.{◌≢◌, inl, inr}
use capi_net.Base.Tests.{lt→ltb, ltb, leb, ◌==◌, if◌then◌else◌, Bool-cases}
use capi_net.Base.Lists.{All}
use capi_net.Base.Int.{ℤ, pos, negsuc}

abbrev pub codes : String → List ℕ
codes String.[] = []
codes (String.◌∷◌ c s) = code c ∷ codes s

abbrev pub is_digit : ℕ → Bool
is_digit c = leb b'0' c && leb c b'9'

-- isspace in the C locale
abbrev pub is_blank : ℕ → Bool
is_blank c = c == b' ' || (leb 9 c && leb c 13)

-- the digits of a number before `out`; `fuel` is more than the number
unfoldable pub digits : ℕ → ℕ → List ℕ → List ℕ
digits zero n out = out
digits (suc fuel) n out = elim (ltb n 10) [
  | true ↦ (b'0' + n) ∷ out
  | false ↦ digits fuel (n / 10) ((b'0' + n % 10) ∷ out)
]

abbrev pub decimal : ℕ → List ℕ
decimal n = digits (suc n) n []

abbrev pub digit_text : ℕ → String
digit_text d =
    if d == 0
    then "0"
    else if d == 1
    then "1"
    else if d == 2
    then "2"
    else if d == 3
    then "3"
    else if d == 4
    then "4"
    else if d == 5
    then "5"
    else if d == 6
    then "6"
    else if d == 7
    then "7"
    else if d == 8
    then "8"
    else "9"

abbrev pub digits_text : List ℕ → String
digits_text [] = ""
digits_text (c ∷ cs) = digit_text (c - b'0') ++ digits_text cs

-- std::to_string
unfoldable pub show : ℕ → String
show n = digits_text (decimal n)

-- the number that digits continue
unfoldable pub number_of : List ℕ → ℕ → ℕ
number_of [] n = n
number_of (c ∷ cs) n = number_of cs (n * 10 + (c - b'0'))

-- the longest prefix of digits, and what follows it
unfoldable pub span_digits : List ℕ → List ℕ × List ℕ
span_digits [] = ([], [])
span_digits (c ∷ cs) =
    let rest = span_digits cs in if is_digit c then (c ∷ rest.0, rest.1) else ([], c ∷ cs)

unfoldable pub skip_blanks : List ℕ → List ℕ
skip_blanks [] = []
skip_blanks (c ∷ cs) = let rest = skip_blanks cs in if is_blank c then rest else c ∷ cs

-- a sign, which may be missing; `true` is a minus
abbrev pub sign_of : List ℕ → Bool × List ℕ
sign_of [] = (false, [])
sign_of (c ∷ cs) =
    if c == b'-' then (true, cs) else if c == b'+' then (false, cs) else (false, c ∷ cs)

-- a number of w bits, which is negative after a minus; `none` is std::out_of_range
abbrev pub in_width : ℕ → Bool → ℕ → Option ℤ
in_width w false n = if ltb n (2 ^ (w - 1)) then some (pos n) else none
in_width w true zero = some (pos 0)
in_width w true (suc n) = if ltb n (2 ^ (w - 1)) then some (negsuc n) else none

abbrev pub with_rest : List ℕ → Option ℤ → Option (ℤ × List ℕ)
with_rest rest none = none
with_rest rest (some z) = some (z, rest)

abbrev pub read_digits : ℕ → Bool → List ℕ × List ℕ → Option (ℤ × List ℕ)
read_digits w minus ([], rest) = none
read_digits w minus (c ∷ cs, rest) = with_rest rest (in_width w minus (number_of (c ∷ cs) 0))

-- std::stoi (w = 32) and std::stoll (w = 64), with the text behind the number; `none` is an
-- exception
unfoldable pub sto : ℕ → List ℕ → Option (ℤ × List ℕ)
sto w s = let (minus, body) = sign_of (skip_blanks s) in read_digits w minus (span_digits body)

digits-last :
    (fuel n : ℕ) (out : List ℕ) → ltb n 10 ≡ true → digits (suc fuel) n out ≡ (b'0' + n) ∷ out
unfolding digits
digits-last fuel n out e = ground (arith, e)

digits-next :
    (fuel n : ℕ) (out : List ℕ)
    → ltb n 10 ≡ false
    → digits (suc fuel) n out ≡ digits fuel (n / 10) ((b'0' + n % 10) ∷ out)
unfolding digits
digits-next fuel n out e = ground (arith, e)

last_digit : (n : ℕ) → 0 * 10 + (48 + n - 48) ≡ n
last_digit n = omega arith

next_digit : (n : ℕ) → n / 10 * 10 + (48 + n % 10 - 48) ≡ n
next_digit n = omega arith

number_of-digits :
    (fuel n : ℕ) (out : List ℕ) → n < fuel → number_of (digits fuel n out) 0 ≡ number_of out n
unfolding number_of
number_of-digits zero n out h = absurd (omega arith)
number_of-digits (suc fuel) n out h = elim (Bool-cases (ltb n 10)) [
  | inl e ↦ rw (digits-last fuel n out e) (ap (number_of out) (last_digit n))
  | inr e ↦
      rw
        (
          digits-next fuel n out e,
          number_of-digits fuel (n / 10) ((48 + n % 10) ∷ out) (ground arith),
        )
        (ap (number_of out) (next_digit n))
]

-- What `std::to_string` writes, `std::stoll` reads back.
pub number_of-decimal : (n : ℕ) → number_of (decimal n) 0 ≡ n
unfolding number_of
number_of-decimal n = number_of-digits (suc n) n [] (omega arith)

digits_none :
    (n : ℕ) (out : List ℕ)
    → All (λ c. is_digit c ≡ true) out
    → All (λ c. is_digit c ≡ true) (digits zero n out)
unfolding digits
digits_none n out h = h

digits-are_digits :
    (fuel n : ℕ) (out : List ℕ)
    → All (λ c. is_digit c ≡ true) out
    → All (λ c. is_digit c ≡ true) (digits fuel n out)
digits-are_digits zero n out h = digits_none n out h
digits-are_digits (suc fuel) n out h = elim (Bool-cases (ltb n 10)) [
  | inl e ↦ rw (digits-last fuel n out e) (ground arith, h)
  | inr e ↦
      rw (digits-next fuel n out e)
        (digits-are_digits fuel (n / 10) ((48 + n % 10) ∷ out) (ground arith, h))
]

pub decimal-are_digits : (n : ℕ) → All (λ c. is_digit c ≡ true) (decimal n)
decimal-are_digits n = digits-are_digits (suc n) n [] tt

in_int-lt : (minus : Bool) (k : ℕ) {n : ℕ} → in_width 32 minus k ≡ some (pos n) → n < 2 ^ 31
in_int-lt false k h = ground arith
in_int-lt true zero h = ground arith
in_int-lt true (suc k) h = ground arith

with_rest-lt :
    (o : Option ℤ) (t : List ℕ) {n : ℕ} {r : List ℕ}
    → ((k : ℕ) → o ≡ some (pos k) → k < 2 ^ 31)
    → with_rest t o ≡ some (pos n, r)
    → n < 2 ^ 31
with_rest-lt none t f h = cc
with_rest-lt (some z) t {n} f h = f n cc

read_digits-lt :
    (minus : Bool) (p : List ℕ × List ℕ) {n : ℕ} {r : List ℕ}
    → read_digits 32 minus p ≡ some (pos n, r)
    → n < 2 ^ 31
read_digits-lt minus ([], rest) h = cc
read_digits-lt minus (c ∷ cs, rest) h =
    with_rest-lt (in_width 32 minus (number_of (c ∷ cs) 0)) rest
      (λ k e. in_int-lt minus (number_of (c ∷ cs) 0) e) h

-- A number that std::stoi reads is an int.
pub stoi-lt : (s : List ℕ) {n : ℕ} {r : List ℕ} → sto 32 s ≡ some (pos n, r) → n < 2 ^ 31
unfolding sto
stoi-lt s h =
    let minus = (sign_of (skip_blanks s)).0 in
    let body = (sign_of (skip_blanks s)).1 in read_digits-lt minus (span_digits body) h

digits-filled : (fuel n c : ℕ) (out : List ℕ) → digits fuel n (c ∷ out) ≢ []
unfolding digits
digits-filled zero n c out h = cc
digits-filled (suc fuel) n c out h = elim (Bool-cases (ltb n 10)) [
  | inl e ↦ absurd (ground (arith, digits-last fuel n (c ∷ out) e))
  | inr e ↦
      digits-filled fuel (n / 10) (48 + n % 10) (c ∷ out) (sym (digits-next fuel n (c ∷ out) e) ∙ h)
]

decimal-filled : (n : ℕ) → decimal n ≢ []
decimal-filled n h = elim (Bool-cases (ltb n 10)) [
  | inl e ↦ absurd (ground (arith, digits-last n n [] e))
  | inr e ↦ digits-filled n (n / 10) (48 + n % 10) [] (sym (digits-next n n [] e) ∙ h)
]

pub span_digits-All : (cs : List ℕ) → All (λ c. is_digit c ≡ true) cs → span_digits cs ≡ (cs, [])
unfolding span_digits
span_digits-All [] h = refl
span_digits-All (c ∷ cs) h = rw (h.0, span_digits-All cs h.1) refl

digit_tests :
    (c : ℕ)
    → is_digit c ≡ true
    → (is_blank c ≡ false) × ((c == b'-') ≡ false) × ((c == b'+') ≡ false)
digit_tests c h = ground arith

skip_blanks-digit : (c : ℕ) (cs : List ℕ) → is_digit c ≡ true → skip_blanks (c ∷ cs) ≡ c ∷ cs
unfolding skip_blanks
skip_blanks-digit c cs h = ground (arith, (digit_tests c h).0)

sign_of-digit : (c : ℕ) (cs : List ℕ) → is_digit c ≡ true → sign_of (c ∷ cs) ≡ (false, c ∷ cs)
sign_of-digit c cs h = ground (arith, digit_tests c h)

sto-digits :
    (w : ℕ) (cs : List ℕ)
    → cs ≢ []
    → All (λ c. is_digit c ≡ true) cs
    → sto w cs ≡ with_rest [] (in_width w false (number_of cs 0))
unfolding sto
sto-digits w [] f h = absurd (f refl)
sto-digits w (c ∷ cs) f h =
    rw (skip_blanks-digit c cs h.0, sign_of-digit c cs h.0, span_digits-All (c ∷ cs) h) refl

-- std::stoi reads what std::to_string writes.
pub stoi-decimal : (n : ℕ) → n < 2 ^ 31 → sto 32 (decimal n) ≡ some (pos n, [])
stoi-decimal n h =
    sto-digits 32 (decimal n) (decimal-filled n) (decimal-are_digits n)
    ∙ rw (number_of-decimal n, lt→ltb n (2 ^ 31) h) refl
