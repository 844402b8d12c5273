-- ===== src/Server/Lifecycle/Order.antt =====
-- The order in which queued tests are promoted: by priority, then age, then id.
use capi_net.Base.{
  ◌≡◌, inl, inr, Bool, true, false, List, [], ◌∷◌, arith, All, All-impl, insert_by, sort_by,
  Bool-cases,
}
use capi_net.Server.Lifecycle.{ahead}

-- The laws of a strict order by a key, under which a sorted list begins with its least elements.
pub record StrictWeak {ℓ} {A : Type ℓ} (before : A → A → Bool) : Type ℓ where
  pub asym : (x y : A) → before x y ≡ true → before y x ≡ false
  pub weak : (x y z : A) → before x y ≡ false → before y z ≡ false → before x z ≡ false

module _ {ℓ} {A : Type ℓ} (before : A → A → Bool) (P : A → Type 0) where
  pub All-insert_by : (x : A) (ys : List A) → P x → All P ys → All P (insert_by before x ys)
  All-insert_by x [] p a = (p, tt)
  All-insert_by x (y ∷ ys) p a = ground (arith, All-insert_by x ys p a.1, a.0, a.1)

  pub All-sort_by : (xs : List A) → All P xs → All P (sort_by before xs)
  All-sort_by [] a = tt
  All-sort_by (x ∷ xs) a = All-insert_by x (sort_by before xs) a.0 (All-sort_by xs a.1)

  insert_by-All : (x : A) (ys : List A) → All P (insert_by before x ys) → P x × All P ys
  insert_by-All x [] a = (a.0, tt)
  insert_by-All x (y ∷ ys) a = elim (Bool-cases (before y x)) [
    | inl e ↦
        let b : P y × All P (insert_by before x ys) = ground arith in
        let (p, q) = insert_by-All x ys b.1 in (p, (b.0, q))
    | inr e ↦ ground arith
  ]

  pub sort_by-All : (xs : List A) → All P (sort_by before xs) → All P xs
  sort_by-All [] a = tt
  sort_by-All (x ∷ xs) a =
      let (p, q) = insert_by-All x (sort_by before xs) a in (p, sort_by-All xs q)

-- Nothing in the list comes before its head.
abbrev pub Leads {ℓ} : {A : Type ℓ} → (A → A → Bool) → List A → Type 0
Leads before [] = Unit
Leads before (h ∷ rest) = All (λ x. before x h ≡ false) (h ∷ rest)

module _ {ℓ} {A : Type ℓ} (before : A → A → Bool) (w : StrictWeak before) where
  irrefl : (x : A) → before x x ≡ false
  irrefl x = elim (Bool-cases (before x x)) [ inl e ↦ w.asym x x e | inr e ↦ e ]

  insert_by-Leads : (x : A) (ys : List A) → Leads before ys → Leads before (insert_by before x ys)
  insert_by-Leads x [] a = (irrefl x, tt)
  insert_by-Leads x (y ∷ ys) a = elim (Bool-cases (before y x)) [
    | inl e ↦ rw e (a.0, All-insert_by before (λ z. before z y ≡ false) x ys (w.asym y x e) a.1)
    | inr e ↦ rw e (irrefl x, (e, All-impl _ _ (λ z h. w.weak z y x h e) ys a.1))
  ]

  -- Nothing comes before the head of a sorted list.
  pub sort_by-Leads : (xs : List A) → Leads before (sort_by before xs)
  sort_by-Leads [] = tt
  sort_by-Leads (x ∷ xs) = insert_by-Leads x (sort_by before xs) (sort_by-Leads xs)

pub ahead-StrictWeak : {F : Type 0} → StrictWeak (ahead {F = F})
ahead-StrictWeak = record { asym = λ x y h. ground arith; weak = λ x y z h k. ground arith }
