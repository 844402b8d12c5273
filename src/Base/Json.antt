-- ===== src/Base/Json.antt =====
-- nlohmann's JSON values, as the server and the client write and read them. `F` is the type of
-- doubles; an object is a list of members with different keys.
use Prim.Native.Nat.{ℕ, ◌-◌, ◌%◌, ◌^◌}
use Prim.Native.String.{String}
use text.Mathlib.Text.{◌==◌ as str_eq}
use mathlib.Core.Bool.{Bool}
use mathlib.Core.List.{List, [], ◌∷◌}
use mathlib.Core.Option.{Option, none, some}
use capi_net.Base.Tests.{ltb, if◌then◌else◌}
use capi_net.Base.Int.{ℤ, pos, negsuc}

mutual
  pub data Value (F : Type 0) : Type 0 where
    null : Value F
    boolean : Bool → Value F
    integer : ℤ → Value F
    real : F → Value F
    string : String → Value F
    array : Values F → Value F
    object : Members F → Value F

  pub data Values (F : Type 0) : Type 0 where
    nil : Values F
    cons : Value F → Values F → Values F

  pub data Members (F : Type 0) : Type 0 where
    end : Members F
    member : String → Value F → Members F → Members F

-- the residue modulo 2^w, as a signed number of w bits
abbrev pub residue : ℕ → ℤ → ℕ
residue w (pos n) = n % 2 ^ w
residue w (negsuc n) = 2 ^ w - 1 - n % 2 ^ w

abbrev pub signed : ℕ → ℕ → ℤ
signed w r = if ltb r (2 ^ (w - 1)) then pos r else negsuc (2 ^ w - 1 - r)

module _ {F : Type 0} where
  abbrev pub values : List (Value F) → Values F
  values [] = nil
  values (v ∷ vs) = cons v (values vs)

  abbrev pub elements : Values F → List (Value F)
  elements nil = []
  elements (cons v vs) = v ∷ elements vs

  abbrev pub members : List (String × Value F) → Members F
  members [] = end
  members ((k, v) ∷ ms) = member k v (members ms)

  -- `json{{"key", value}, ...}` and a `json::array()` filled with `push_back`
  abbrev pub object_of : List (String × Value F) → Value F
  object_of ms = object (members ms)

  abbrev pub array_of : List (Value F) → Value F
  array_of vs = array (values vs)

  abbrev pub number : ℕ → Value F
  number n = integer (pos n)

  abbrev pub nullable {ℓ} : {A : Type ℓ} → (A → Value F) → Option A → Value F
  nullable f none = null
  nullable f (some a) = f a

  -- `find`
  unfoldable pub lookup : String → Members F → Option (Value F)
  lookup key end = none
  lookup key (member k v ms) = if str_eq k key then some v else lookup key ms
