-- ===== src/Base/Sets.antt =====
-- Lists of numbers without repetitions, and the set of the elements of a list.
use Prim.Native.Nat.{ℕ, zero, suc, ◌+◌, ◌≤◌, ◌<◌}
use mathlib.Core.Path.{◌≡◌, refl, ap}
use mathlib.Core.Logic.{◌≢◌, inl, inr}
use mathlib.Core.Bool.{true, false, ◌||◌}
use mathlib.Core.List.{List, [], ◌∷◌}
use native.Mathlib.Omega.{arith}
use capi_net.Base.Tests.{ltb, ◌==◌, Bool-cases}
use capi_net.Base.Lists.{length, drop, All, All-impl}
use capi_net.Base.Tables.{contains, set_insert, set_of}
use capi_net.Base.Keys.{Distinct}

-- no number occurs twice
abbrev pub IsDistinct : List ℕ → Type 0
IsDistinct = Distinct λ c. c

abbrev pub Ascending : List ℕ → Type 0
Ascending [] = Unit
Ascending (x ∷ xs) = All (λ y. x < y) xs × Ascending xs

length-set_insert : (k : ℕ) (s : List ℕ) → length (set_insert k s) ≤ length s + 1
length-set_insert k [] = omega arith
length-set_insert k (x ∷ xs) = ground (arith, length-set_insert k xs)

length-set_of : (xs : List ℕ) → length (set_of xs) ≤ length xs
length-set_of [] = omega arith
length-set_of (x ∷ xs) = omega (arith, length-set_insert x (set_of xs), length-set_of xs)

All-set_insert : (P : ℕ → Type 0) (k : ℕ) (s : List ℕ) → P k → All P s → All P (set_insert k s)
All-set_insert P k [] p a = (p, tt)
All-set_insert P k (x ∷ xs) p a = elim (Bool-cases (k == x)) [
  | inl e ↦ rw e a
  | inr e ↦ elim (Bool-cases (ltb k x)) [
    | inl l ↦ rw (e, l) (p, a)
    | inr l ↦ rw (e, l) (a.0, All-set_insert P k xs p a.1)
  ]
]

pub set_insert-Ascending : (k : ℕ) (s : List ℕ) → Ascending s → Ascending (set_insert k s)
set_insert-Ascending k [] a = (tt, tt)
set_insert-Ascending k (x ∷ xs) a = elim (Bool-cases (k == x)) [
  | inl e ↦ rw e a
  | inr e ↦ elim (Bool-cases (ltb k x)) [
    | inl l ↦
        rw (e, l)
          ((ground arith, All-impl (λ y. x < y) (λ y. k < y) (λ y h. ground arith) xs a.0), a)
    | inr l ↦
        rw (e, l)
          (All-set_insert (λ y. x < y) k xs (ground arith) a.0, set_insert-Ascending k xs a.1)
  ]
]

set_of-Ascending : (xs : List ℕ) → Ascending (set_of xs)
set_of-Ascending [] = tt
set_of-Ascending (x ∷ xs) = set_insert-Ascending x (set_of xs) (set_of-Ascending xs)

contains-set_insert :
    (j k : ℕ) (s : List ℕ) → contains j (set_insert k s) ≡ (k == j || contains j s)
contains-set_insert j k [] = refl
contains-set_insert j k (x ∷ xs) = ground (arith, contains-set_insert j k xs)

contains-set_of : (j : ℕ) (xs : List ℕ) → contains j (set_of xs) ≡ contains j xs
contains-set_of j [] = refl
contains-set_of j (x ∷ xs) =
    ground (arith, contains-set_insert j x (set_of xs), contains-set_of j xs)

contains-above : (k x : ℕ) (s : List ℕ) → All (λ y. x < y) s → contains k s ≡ true → x < k
contains-above k x [] a h = absurd (ground arith)
contains-above k x (y ∷ s) a h = elim (Bool-cases (y == k)) [
  | inl e ↦ ground (arith, a.0)
  | inr e ↦ contains-above k x s a.1 (rw e at h)
]

set_insert-known : (k : ℕ) (s : List ℕ) → Ascending s → contains k s ≡ true → set_insert k s ≡ s
set_insert-known k [] a h = absurd (ground arith)
set_insert-known k (x ∷ xs) a h = elim (Bool-cases (k == x)) [
  | inl e ↦ rw e refl
  | inr e ↦
      let here : contains k xs ≡ true = ground arith in
      let above = contains-above k x xs a.0 here in
      let not_below : ltb k x ≡ false = ground arith in
      rw (e, not_below) (ap (λ l. x ∷ l) (set_insert-known k xs a.1 here))
]

contains-none : (k : ℕ) (xs : List ℕ) → contains k xs ≡ false → All (λ y. y ≢ k) xs
contains-none k [] h = tt
contains-none k (x ∷ xs) h = elim (Bool-cases (x == k)) [
  | inl e ↦ absurd (ground arith)
  | inr e ↦ ((λ q. absurd (ground arith)), contains-none k xs (rw e at h))
]

-- A list whose set is as long repeats nothing.
pub set_of-IsDistinct : (xs : List ℕ) → length (set_of xs) ≡ length xs → IsDistinct xs
set_of-IsDistinct [] h = tt
set_of-IsDistinct (x ∷ xs) h = elim (Bool-cases (contains x xs)) [
  | inl e ↦
      let known =
        set_insert-known x (set_of xs) (set_of-Ascending xs) (rw (contains-set_of x xs) e) in
      absurd (omega (arith, ap length known, length-set_of xs, h))
  | inr e ↦ (
    contains-none x xs e,
    set_of-IsDistinct xs (omega (arith, length-set_insert x (set_of xs), length-set_of xs, h)),
  )
]

pub drop-IsDistinct : (n : ℕ) (xs : List ℕ) → IsDistinct xs → IsDistinct (drop n xs)
drop-IsDistinct zero xs h = h
drop-IsDistinct (suc n) [] h = tt
drop-IsDistinct (suc n) (x ∷ xs) h = drop-IsDistinct n xs h.1

pub Ascending-IsDistinct : (xs : List ℕ) → Ascending xs → IsDistinct xs
Ascending-IsDistinct [] a = tt
Ascending-IsDistinct (x ∷ xs) a = (
  All-impl (λ y. x < y) (λ y. y ≢ x) (λ y h e. absurd (ground arith)) xs a.0,
  Ascending-IsDistinct xs a.1,
)
