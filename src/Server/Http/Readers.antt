-- ===== src/Server/Http/Readers.antt =====
-- The readers of server/http/helpers.hpp on the values that a writer put under a key.
use capi_net.Base.{ℕ, ◌^◌, ◌<◌, ◌≤◌, ◌≡◌, refl, arith, Bool, Option, none, some, String}
use capi_net.Base.Int.{pos}
use capi_net.Base.Json.{boolean, real, string, Members, residue, signed, lookup, number, nullable}
use capi_net.Server.Stats.{Doubles}
use capi_net.Server.Http.{
  returns, and_then, field, in_int, req_int64, req_int, req_count, opt_int, req_bool, req_string,
  req_enum, req_double, opt_string,
}

pub wire64 : (n : ℕ) → n < 2 ^ 63 → signed 64 (residue 64 (pos n)) ≡ pos n
wire64 n h = ground arith

in_int-fits :
    (key : String) (low n : ℕ)
    → low ≤ n
    → n < 2 ^ 31
    → in_int key (pos low) (pos n) ≡ returns (pos n)
in_int-fits key low n l h = ground arith

-- a number that is there is below a bound
abbrev pub Below : ℕ → Option ℕ → Type 0
Below b none = Unit
Below b (some n) = n < b

module _ {F : Type 0} (key : String) (ms : Members F) where
  pub req_int64-number :
      (n : ℕ) → lookup key ms ≡ some (number n) → n < 2 ^ 63 → req_int64 key ms ≡ returns (pos n)
  unfolding req_int64 field and_then
  req_int64-number n e h = rw (e, wire64 n h) refl

  pub req_count-number :
      (low n : ℕ)
      → lookup key ms ≡ some (number n)
      → low ≤ n
      → n < 2 ^ 31
      → req_count key low ms ≡ returns n
  unfolding req_count req_int and_then
  req_count-number low n e l h =
      rw (req_int64-number n e (omega arith), in_int-fits key low n l h) refl

  pub opt_int-nullable :
      (o : Option ℕ)
      → lookup key ms ≡ some (nullable number o)
      → Below (2 ^ 31) o
      → opt_int key 0 ms ≡ returns o
  unfolding opt_int and_then
  opt_int-nullable none e h = rw e refl
  opt_int-nullable (some n) e h = rw (e, req_count-number 0 n e (omega arith) h) refl

  pub req_bool-boolean : (b : Bool) → lookup key ms ≡ some (boolean b) → req_bool key ms ≡ returns b
  unfolding req_bool field and_then
  req_bool-boolean b e = rw e refl

  pub req_string-string :
      (t : String) → lookup key ms ≡ some (string t) → req_string key ms ≡ returns t
  unfolding req_string field and_then
  req_string-string t e = rw e refl

  pub req_double-real :
      (d : Doubles F) (x : F) → lookup key ms ≡ some (real x) → req_double d key ms ≡ returns x
  unfolding req_double field and_then
  req_double-real d x e = rw e refl

  pub req_enum-meant :
      {A : Type 0} (meaning : String → Option A) (t : String) (a : A)
      → lookup key ms ≡ some (string t)
      → meaning t ≡ some a
      → req_enum key meaning ms ≡ returns a
  unfolding req_enum and_then
  req_enum-meant meaning t a e m = rw (req_string-string t e, m) refl

  pub opt_string-string :
      (t : String) → lookup key ms ≡ some (string t) → opt_string key ms ≡ returns (some t)
  unfolding opt_string and_then
  opt_string-string t e = rw (e, req_string-string t e) refl

  pub opt_int-number :
      (low n : ℕ)
      → lookup key ms ≡ some (number n)
      → low ≤ n
      → n < 2 ^ 31
      → opt_int key low ms ≡ returns (some n)
  unfolding opt_int and_then
  opt_int-number low n e l h = rw (e, req_count-number low n e l h) refl

  pub opt_string-missing : lookup key ms ≡ none → opt_string key ms ≡ returns none
  unfolding opt_string and_then
  opt_string-missing e = rw e refl
