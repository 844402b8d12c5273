-- ===== src/Server/Spec.antt =====
-- server/spec.cpp: the validation of the body of POST /api/admin/tests. nlohmann's JSON and the
-- number functions of the C library are read through `Json` and `Numbers`.
pub mod Parse
pub mod Accepted
pub use capi_net.Base.Numerals.{codes, is_digit}
use Prim.Native.String.{◌++◌}
use text.Mathlib.Text.{◌==◌ as str_eq}
use capi_net.Base.{
  ℕ, zero, suc, ◌+◌, ◌-◌, ◌*◌, ◌%◌, ◌^◌, ◌≡◌, Bool, true, false, not, ◌&&◌, ◌||◌, Option, none,
  some, List, [], ◌∷◌, String, ltb, leb, ◌==◌, if◌then◌else◌, length, value_or, all, any,
}
use capi_net.Base.Int.{ℤ, pos, negsuc}
use capi_net.Server.Types.{TestKind, sprt, gauntlet, SprtPreset, gainer, nonreg, custom, TestSpec}
use capi_net.Server.Stats.{Doubles}

-- `throw SpecError(message)`
pub data Parsed {ℓ} (A : Type ℓ) : Type ℓ where
  spec_error : String → Parsed A
  parsed : A → Parsed A

unfoldable pub chain {ℓ} : {A B : Type ℓ} → Parsed A → (A → Parsed B) → Parsed B
chain (spec_error m) f = spec_error m
chain (parsed a) f = f a

-- Go on with a value if a test holds.
unfoldable pub demand {ℓ} : {A : Type ℓ} → Bool → String → Parsed A → Parsed A
demand true m r = r
demand false m r = spec_error m

-- A value of a JSON object. Arrays and objects are rejected wherever the code looks, so their
-- contents are left out.
pub data Json (F : Type 0) : Type 0 where
  null nested : Json F
  boolean : Bool → Json F
  integer : ℤ → Json F
  real : F → Json F
  string : String → Json F

pub data Body (F : Type 0) : Type 0 where
  not_object : Body F
  object : List (String × Json F) → Body F

pub record SprtPresetBounds (F : Type 0) : Type 0 where
  pub elo0 : F
  pub elo1 : F
  pub alpha : F
  pub beta : F

pub record SprtPresets (F : Type 0) : Type 0 where
  pub gainer_bounds : SprtPresetBounds F
  pub nonreg_bounds : SprtPresetBounds F

pub record TimeControl : Type 0 where
  pub base_ms : ℕ
  pub increment_ms : ℕ

-- The C library's conversions: `strtod` gives no value if it stops early or at infinity, and
-- `llround` is only called on doubles that are not negative.
pub record Numbers (F : Type 0) : Type 0 where
  pub strtod : List ℕ → Option F
  pub llround : F → ℕ

-- std::isalnum in the C locale
abbrev pub is_alnum : ℕ → Bool
is_alnum c = is_digit c || (leb b'a' c && leb c b'z') || (leb b'A' c && leb c b'Z')

-- the text before the first '+', and the text after it
unfoldable pub split_plus : List ℕ → List ℕ × Option (List ℕ)
split_plus [] = ([], none)
split_plus (c ∷ cs) =
    let rest = split_plus cs in if c == b'+' then ([], some cs) else (c ∷ rest.0, rest.1)

unfoldable pub has_dots : List ℕ → Bool
has_dots [] = false
has_dots (a ∷ []) = false
has_dots (a ∷ b ∷ cs) = (a == b'.' && b == b'.') || has_dots (b ∷ cs)

abbrev pub first_is : (ℕ → Bool) → List ℕ → Bool
first_is p [] = false
first_is p (c ∷ cs) = p c

abbrev pub last_is : (ℕ → Bool) → List ℕ → Bool
last_is p [] = false
last_is p (c ∷ []) = p c
last_is p (c ∷ d ∷ cs) = last_is p (d ∷ cs)

-- the characters of a ref but for the slash: those of a book's name
abbrev pub is_name_char : ℕ → Bool
is_name_char c = is_alnum c || c == b'.' || c == b'_' || c == b'-'

unfoldable pub valid_ref : List ℕ → Bool
valid_ref ref =
    if length ref == 0
      || ltb 255 (length ref)
      || first_is (λ c. c == b'-' || c == b'/') ref
      || last_is (λ c. c == b'/') ref
      || has_dots ref
    then false
    else all (λ c. is_name_char c || c == b'/') ref

unfoldable pub valid_book_name : List ℕ → Bool
valid_book_name name =
    if length name == 0 || ltb 255 (length name) || first_is (λ c. c == b'.') name
    then false
    else all is_name_char name

-- `static_cast<int>` of a `long long`
unfoldable pub to_int : ℤ → ℤ
to_int z = let r = wrapped z in if ltb r (2 ^ 31) then pos r else negsuc (2 ^ 32 - 1 - r)
  where
    -- modulo 2^32
    wrapped : ℤ → ℕ
    wrapped (pos n) = n % 2 ^ 32
    wrapped (negsuc n) = 2 ^ 32 - 1 - n % 2 ^ 32
