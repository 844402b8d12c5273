-- ===== src/Base/Fallible.antt =====
-- A result, or the text of an exception.
use Prim.Native.String.{String}
use mathlib.Core.Bool.{Bool, true, false}
use mathlib.Core.Path.{◌≡◌, refl}

pub data Fallible {ℓ} (A : Type ℓ) : Type ℓ where
  fails : String → Fallible A
  gives : A → Fallible A

unfoldable pub attempt {ℓ κ} :
    {A : Type ℓ} {B : Type κ} → Fallible A → (A → Fallible B) → Fallible B
attempt (fails m) f = fails m
attempt (gives a) f = f a

-- `if (!ok) throw std::runtime_error(message)`
unfoldable pub check {ℓ} : {A : Type ℓ} → Bool → String → Fallible A → Fallible A
check true m r = r
check false m r = fails m

-- A chain that succeeds has a first step that does.
pub attempt-gives {ℓ κ} :
    {A : Type ℓ} {B : Type κ} (r : Fallible A) (f : A → Fallible B) {b : B}
    → attempt r f ≡ gives b
    → (a : A) × (r ≡ gives a) × (f a ≡ gives b)
unfolding attempt
attempt-gives (fails m) f h = cc
attempt-gives (gives a) f h = (a, refl, h)

pub check-gives {ℓ} :
    {A : Type ℓ} (t : Bool) (m : String) (r : Fallible A) {a : A}
    → check t m r ≡ gives a
    → (t ≡ true) × (r ≡ gives a)
unfolding check
check-gives true m r h = (refl, h)
check-gives false m r h = cc
