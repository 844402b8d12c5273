-- ===== src/Base/Keys.antt =====
-- Tables with a key: distinct keys, an update of the row with a key, and what a change of a table
-- may do to its rows.
use Prim.Native.Nat.{ℕ, ◌+◌, ◌≤◌, ◌<◌}
use mathlib.Core.Path.{◌≡◌, refl}
use mathlib.Core.Logic.{◌≢◌, inl, inr}
use mathlib.Core.Bool.{Bool, true}
use mathlib.Core.List.{List, [], ◌∷◌, ◌++◌}
use mathlib.Core.Option.{none, some}
use native.Mathlib.Omega.{arith}
use capi_net.Base.Tests.{◌==◌, if◌then◌else◌, Bool-cases}
use capi_net.Base.Lists.{All, All-impl}
use capi_net.Base.Tables.{find_first, update_where, count_where}

module _ {ℓ} {A : Type ℓ} (key : A → ℕ) where
  abbrev pub Distinct : List A → Type 0
  Distinct [] = Unit
  Distinct (x ∷ xs) = All (λ y. key y ≢ key x) xs × Distinct xs

  abbrev pub Below : ℕ → List A → Type 0
  Below n = All λ x. key x < n

module _ {ℓ} {A : Type ℓ} (key : A → ℕ) where
  pub Below-mono : (m n : ℕ) (xs : List A) → m ≤ n → Below key m xs → Below key n xs
  Below-mono m n [] h b = tt
  Below-mono m n (x ∷ xs) h b = (omega arith, Below-mono m n xs h b.1)

  pub Below-append_new :
      (n : ℕ) (xs : List A) (x : A) → key x ≡ n → Below key n xs → Below key (n + 1) (xs ++ x ∷ [])
  Below-append_new n [] x e b = (omega arith, tt)
  Below-append_new n (y ∷ xs) x e b = (omega arith, Below-append_new n xs x e b.1)

  All-ne-append_new :
      (k : ℕ) (xs : List A) (x : A)
      → key x ≢ k
      → All (λ y. key y ≢ k) xs
      → All (λ y. key y ≢ k) (xs ++ x ∷ [])
  All-ne-append_new k [] x h a = (h, tt)
  All-ne-append_new k (y ∷ xs) x h a = (a.0, All-ne-append_new k xs x h a.1)

  -- A row with a fresh key keeps the keys distinct.
  pub Distinct-append_new :
      (n : ℕ) (xs : List A) (x : A)
      → key x ≡ n
      → Below key n xs
      → Distinct key xs
      → Distinct key (xs ++ x ∷ [])
  Distinct-append_new n [] x e b d = (tt, tt)
  Distinct-append_new n (y ∷ xs) x e b d =
      (All-ne-append_new (key y) xs x (omega arith) d.0, Distinct-append_new n xs x e b.1 d.1)

  module _ (p : A → Bool) (f : A → A) (keeps : (x : A) → key (f x) ≡ key x) where
    pub Below-update : (n : ℕ) (xs : List A) → Below key n xs → Below key n (update_where p f xs)
    Below-update n [] b = tt
    Below-update n (x ∷ xs) b = (ground (arith, keeps x, b.0), Below-update n xs b.1)

    All-ne-update :
        (k : ℕ) (xs : List A) → All (λ y. key y ≢ k) xs → All (λ y. key y ≢ k) (update_where p f xs)
    All-ne-update k [] a = tt
    All-ne-update k (x ∷ xs) a = (ground (arith, keeps x, a.0), All-ne-update k xs a.1)

    head_key : (x : A) → key (if p x then f x else x) ≡ key x
    head_key x = ground (arith, keeps x)

    pub Distinct-update : (xs : List A) → Distinct key xs → Distinct key (update_where p f xs)
    Distinct-update [] d = tt
    Distinct-update (x ∷ xs) d =
        (rw (head_key x) (All-ne-update (key x) xs d.0), Distinct-update xs d.1)

    -- An update that keeps the keys updates what is found under a key.
    pub find_first-update :
        (k : ℕ) (xs : List A) {x : A}
        → find_first (λ y. key y == k) xs ≡ some x
        → find_first (λ y. key y == k) (update_where p f xs) ≡ some (if p x then f x else x)
    find_first-update k [] h = cc
    find_first-update k (y ∷ xs) {x} h = ground (arith, head_key y, find_first-update k xs {x = x})

    pub find_first-update_none :
        (k : ℕ) (xs : List A)
        → find_first (λ y. key y == k) xs ≡ none
        → find_first (λ y. key y == k) (update_where p f xs) ≡ none
    find_first-update_none k [] h = refl
    find_first-update_none k (y ∷ xs) h = ground (arith, head_key y, find_first-update_none k xs)

module _ {ℓ} {A : Type ℓ} (key : A → ℕ) where
  pub find_first-key :
      (k : ℕ) (xs : List A) {x : A} → find_first (λ y. key y == k) xs ≡ some x → key x ≡ k
  find_first-key k [] h = cc
  find_first-key k (y ∷ xs) {x} h = ground (arith, find_first-key k xs {x = x})

  count-fresh :
      (k : ℕ) (xs : List A) → All (λ y. key y ≢ k) xs → count_where (λ y. key y == k) xs ≡ 0
  count-fresh k [] a = refl
  count-fresh k (x ∷ xs) a = ground (arith, a.0, count-fresh k xs a.1)

  -- A key that is found stands in one row.
  pub count-key :
      (k : ℕ) (xs : List A) {x : A}
      → Distinct key xs
      → find_first (λ y. key y == k) xs ≡ some x
      → count_where (λ y. key y == k) xs ≡ 1
  count-key k [] d h = cc
  count-key k (y ∷ xs) {x} d h = elim (Bool-cases (key y == k)) [
    | inl e ↦ ground (arith, count-fresh k xs (All-impl _ _ (λ z n. grind arith) xs d.0))
    | inr e ↦ ground (arith, count-key k xs {x = x} d.1)
  ]

  update-fresh :
      (k : ℕ) (f : A → A) (xs : List A)
      → All (λ y. key y ≢ k) xs
      → update_where (λ y. key y == k) f xs ≡ xs
  update-fresh k f [] a = refl
  update-fresh k f (x ∷ xs) a = ground (arith, a.0, update-fresh k f xs a.1)

  -- Where the keys are distinct, an update at a key raises a count by one at most.
  pub count-update_key :
      (q : A → Bool) (k : ℕ) (f : A → A) (xs : List A)
      → Distinct key xs
      → count_where q (update_where (λ y. key y == k) f xs) ≤ count_where q xs + 1
  count-update_key q k f [] d = omega arith
  count-update_key q k f (x ∷ xs) d = elim (Bool-cases (key x == k)) [
    | inl e ↦
        let same = update-fresh k f xs (All-impl _ _ (λ z n. grind arith) xs d.0) in
        ground (arith, same)
    | inr e ↦ ground (arith, count-update_key q k f xs d.1)
  ]

-- Every row is still there, in its place and changed as `R` allows; new rows meet `New`.
pub data Extends {ℓ κ} {A : Type ℓ} (R : A → A → Type κ) (New : A → Type κ)
    : List A → List A → Type (ℓ ⊔ κ) where
  fresh : {ys : List A} → All New ys → Extends R New [] ys
  kept : {x y : A} {xs ys : List A} → R x y → Extends R New xs ys → Extends R New (x ∷ xs) (y ∷ ys)

module _ {ℓ κ} {A : Type ℓ} (R : A → A → Type κ) (New : A → Type κ) where
  pub Extends-refl : ((x : A) → R x x) → (xs : List A) → Extends R New xs xs
  Extends-refl r [] = fresh tt
  Extends-refl r (x ∷ xs) = kept (r x) (Extends-refl r xs)

  pub Extends-append :
      ((x : A) → R x x) → (xs ys : List A) → All New ys → Extends R New xs (xs ++ ys)
  Extends-append r [] ys a = fresh a
  Extends-append r (x ∷ xs) ys a = kept (r x) (Extends-append r xs ys a)

  New-Extends :
      ((x y : A) → New x → R x y → New y)
      → {xs ys : List A} → Extends R New xs ys
      → All New xs
      → All New ys
  New-Extends step (fresh a) b = a
  New-Extends step (kept {x} {y} r e) b = (step x y b.0 r, New-Extends step e b.1)

  pub Extends-trans :
      ((x y z : A) → R x y → R y z → R x z)
      → ((x y : A) → New x → R x y → New y)
      → {xs ys zs : List A} → Extends R New xs ys
      → Extends R New ys zs
      → Extends R New xs zs
  Extends-trans t step (fresh a) e = fresh (New-Extends step e a)
  Extends-trans t step (kept {x} {y} r d) (kept {y = z} s e) =
      kept (t x y z r s) (Extends-trans t step d e)

  -- An update whose every change `R` allows.
  pub Extends-update :
      (p : A → Bool) (f : A → A) (xs : List A)
      → ((x : A) → R x x)
      → All (λ x. p x ≡ true → R x (f x)) xs
      → Extends R New xs (update_where p f xs)
  Extends-update p f [] r a = fresh tt
  Extends-update p f (x ∷ xs) r a = kept (ground (arith, r x, a.0)) (Extends-update p f xs r a.1)

-- What is known of the row under a key is known of every row that passes the test for the key.
pub All-at_key {ℓ κ} :
    {A : Type ℓ} (key : A → ℕ) (P : A → Type κ) (k : ℕ) (xs : List A) {x : A}
    → Distinct key xs
    → find_first (λ y. key y == k) xs ≡ some x
    → P x
    → All (λ y. (key y == k) ≡ true → P y) xs
All-at_key key P k [] d h q = tt
All-at_key key P k (y ∷ xs) {x} d h q = elim (Bool-cases (key y == k)) [
  | inl e ↦ (λ _. ground arith, All-impl _ _ (λ z n t. absurd (grind arith)) xs d.0)
  | inr e ↦ (λ t. absurd (ground arith), All-at_key key P k xs {x = x} d.1 (ground arith) q)
]

pub All-zip {ℓ κ μ ν} :
    {A : Type ℓ} (P : A → Type κ) (Q : A → Type μ) (R : A → Type ν)
    → ((a : A) → P a → Q a → R a)
    → (xs : List A) → All P xs
    → All Q xs
    → All R xs
All-zip P Q R h [] p q = tt
All-zip P Q R h (x ∷ xs) p q = (h x p.0 q.0, All-zip P Q R h xs p.1 q.1)

-- Where the keys are distinct, a row is the only one with its key.
pub Distinct-unique {ℓ} :
    {A : Type ℓ} (key : A → ℕ) (xs : List A)
    → Distinct key xs
    → All (λ x. All (λ y. (key y == key x) ≡ true → y ≡ x) xs) xs
Distinct-unique key [] d = tt
Distinct-unique key (x ∷ xs) d = (
  (λ _. refl, All-impl _ _ (λ y n e. absurd (grind arith)) xs d.0),
  All-zip _ _ _ (λ y n u. (λ e. absurd (grind arith), u)) xs d.0 (Distinct-unique key xs d.1),
)
