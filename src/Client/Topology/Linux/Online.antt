-- ===== src/Client/Topology/Linux/Online.antt =====
-- client/topology.cpp: what `detect_linux` finds. The processors
-- that are online are those of the file, or as many as the system counts.
use capi_net.Base.{
  ℕ, ◌≤◌, ◌≡◌, refl, sym, ap, subst, arith, Bool, true, false, not, ◌||◌, Option, none, some, List,
  [], ◌∷◌, String, if◌then◌else◌, length, contains, All, Bool-cases, inl, inr, ◌⊎◌, ◌∙◌, any, map,
  length-map, ◌==◌, ==_iff,
}
use capi_net.Base.Int.{ℤ, pos, neg_part, ltb_ℤ}
use capi_net.Client.Config.{Text}
use capi_net.Client.Pgn.{is_nil}
use capi_net.Client.Topology.{Topology}
use capi_net.Client.Admitted.{contains_self}
use capi_net.Client.Topology.Linux.{
  LinuxFiles, online_cpus, with_class, classes, max_ℤ, eq_ℤ, best_class, core_key, class_of,
  is_seen, pick, of_classes, linux_topology, detect_linux,
}

All-if {ℓ κ} :
    {A : Type ℓ} (P : A → Type κ) (b : Bool) (xs ys : List A)
    → All P xs
    → All P ys
    → All P (if b then xs else ys)
All-if P true xs ys h k = h
All-if P false xs ys h k = k

pub pick-All :
    (P : ℕ → Type 0) (f : LinuxFiles) (best : ℤ) (seen : List (Text × Text)) (ks : List (ℕ × ℤ))
    → All (λ c. P c.0) ks
    → All P (pick f best seen ks)
unfolding pick
pick-All P f best seen [] h = tt
pick-All P f best seen (c ∷ cs) h =
    let key = core_key f c.0 in
    let others = pick-All P f best seen cs h.1 in
    let next = pick-All P f best (key ∷ seen) cs h.1 in
    All-if P (not (eq_ℤ c.1 best)) _ _ others (
      All-if P (is_nil key.1) _ _ (h.0, others)
        (All-if P (is_seen key seen) _ _ others (h.0, next)))

some_longer : (b : Bool) (x y : ℕ) (xs ys : List ℕ) → 1 ≤ length (if b then x ∷ xs else y ∷ ys)
some_longer true x y xs ys = omega arith
some_longer false x y xs ys = omega arith

-- The first processor of the best class is picked.
pick-filled :
    (f : LinuxFiles) (best : ℤ) (ks : List (ℕ × ℤ))
    → any (λ c. eq_ℤ c.1 best) ks ≡ true
    → 1 ≤ length (pick f best [] ks)
unfolding pick is_seen
pick-filled f best [] h = cc
pick-filled f best (c ∷ cs) h = elim (Bool-cases (eq_ℤ c.1 best)) [
  | inl e ↦ rw e (some_longer (is_nil (core_key f c.0).1) c.0 c.0 _ _)
  | inr e ↦ rw e (pick-filled f best cs (rw e at h))
]

eq_ℤ_refl : (a : ℤ) → eq_ℤ a a ≡ true
eq_ℤ_refl a = ground arith

some_inj {ℓ} : {A : Type ℓ} {a b : A} → some a ≡ some b → a ≡ b
some_inj h = cc

or_left : (a b : Bool) → a ≡ true → a || b ≡ true
or_left a b h = rw h refl

or_right : (a b : Bool) → b ≡ true → a || b ≡ true
or_right true b h = refl
or_right false b h = h

-- the head, or what is there already
max_cases : (b k best : ℤ) → best ≡ max_ℤ b k → (eq_ℤ k best ≡ true) ⊎ (best ≡ b)
max_cases b k best h = elim (Bool-cases (ltb_ℤ b k)) [
  | inl e ↦ inl (rw (h, e) (eq_ℤ_refl k))
  | inr e ↦ inr (h ∙ rw e refl)
]

best_class-reached :
    (ks : List (ℕ × ℤ)) (b : ℤ)
    → (any (λ c. eq_ℤ c.1 (best_class ks b)) ks ≡ true) ⊎ (best_class ks b ≡ b)
unfolding best_class
best_class-reached [] b = inr refl
best_class-reached (c ∷ cs) b = elim (best_class-reached cs (max_ℤ b c.1)) [
  | inl a ↦ inl (or_right _ _ a)
  | inr e ↦ elim (max_cases b c.1 (best_class cs (max_ℤ b c.1)) e) [
    | inl a ↦ inl (or_left _ _ a)
    | inr a ↦ inr a
  ]
]

max_0 : (k : ℤ) → neg_part k ≡ 0 → max_ℤ (pos 0) k ≡ k
max_0 k h = ground arith

-- Where no class is negative, a processor has the best one.
best_class-any :
    (c : ℕ × ℤ) (cs : List (ℕ × ℤ))
    → neg_part c.1 ≡ 0
    → any (λ d. eq_ℤ d.1 (best_class (c ∷ cs) (pos 0))) (c ∷ cs) ≡ true
unfolding best_class
best_class-any c cs h = elim (best_class-reached cs (max_ℤ (pos 0) c.1)) [
  | inl a ↦ or_right _ _ a
  | inr e ↦
      or_left (eq_ℤ c.1 (best_class cs (max_ℤ (pos 0) c.1))) _ (rw (e, max_0 c.1 h) (eq_ℤ_refl c.1))
]

abbrev pub Classed : (ℕ → Option ℤ) → ℕ × ℤ → Type 0
Classed kl c = kl c.0 ≡ some c.1

with_class-some :
    (cpu : ℕ) (o : Option ℤ) (p : Option (List (ℕ × ℤ))) {ks : List (ℕ × ℤ)}
    → with_class cpu o p ≡ some ks
    → (k : ℤ) × (rest : List (ℕ × ℤ)) × (o ≡ some k) × (p ≡ some rest) × ((cpu, k) ∷ rest ≡ ks)
with_class-some cpu none p h = cc
with_class-some cpu (some k) none h = cc
with_class-some cpu (some k) (some rest) h = (k, rest, refl, refl, some_inj h)

-- The classes are those of the processors, in their order.
pub classes-Classed :
    (kl : ℕ → Option ℤ) (cpus : List ℕ) {ks : List (ℕ × ℤ)}
    → classes kl cpus ≡ some ks
    → (map (λ c. c.0) ks ≡ cpus) × All (Classed kl) ks
unfolding classes
classes-Classed kl [] {ks} h =
    subst (λ l. (map (λ c. c.0) l ≡ []) × All (Classed kl) l) (some_inj h) (refl, tt)
classes-Classed kl (cpu ∷ cpus) {ks} h =
    let (k, rest, e, t, q) = with_class-some cpu (kl cpu) (classes kl cpus) h in
    let (firsts, classed) = classes-Classed kl cpus t in
    subst (λ l. (map (λ c. c.0) l ≡ cpu ∷ cpus) × All (Classed kl) l) q
      (ap (λ l. cpu ∷ l) firsts, (e, classed))

pub All-contains : (P : ℕ → Type 0) (xs : List ℕ) → All P xs → (c : ℕ) → contains c xs ≡ true → P c
All-contains P [] h c e = cc
All-contains P (x ∷ xs) h c e = elim (Bool-cases (x == c)) [
  | inl q ↦ subst P ((==_iff x c).0 q) h.0
  | inr q ↦ All-contains P xs h.1 c (rw q at e)
]

pub All-firsts :
    (P : ℕ → Type 0) (ks : List (ℕ × ℤ)) → All P (map (λ c. c.0) ks) → All (λ c. P c.0) ks
All-firsts P [] h = tt
All-firsts P (c ∷ cs) h = (h.0, All-firsts P cs h.1)

fast_cores-any :
    (f : LinuxFiles) (kl : ℕ → Option ℤ) (ks : List (ℕ × ℤ))
    → ((cpu : ℕ) (k : ℤ) → kl cpu ≡ some k → neg_part k ≡ 0)
    → All (Classed kl) ks
    → 1 ≤ length ks
    → 1 ≤ length (pick f (best_class ks (pos 0)) [] ks)
fast_cores-any f kl [] n h l = absurd (omega arith)
fast_cores-any f kl (c ∷ cs) n h l =
    pick-filled f (best_class (c ∷ cs) (pos 0)) (c ∷ cs) (best_class-any c cs (n c.0 c.1 h.0))

module _ (text : Text → String) (f : LinuxFiles) where
  abbrev pub Online : ℕ → Type 0
  Online c = contains c (online_cpus f) ≡ true

  pub of_classes-some :
      (n : ℕ) (o : Option (List (ℕ × ℤ))) {t : Topology}
      → of_classes text f n o ≡ some t
      → (ks : List (ℕ × ℤ)) × (o ≡ some ks) × (linux_topology text f n ks ≡ t)
  of_classes-some n none h = cc
  of_classes-some n (some ks) h = (ks, refl, some_inj h)

  abbrev Found : Topology → Type 0
  Found t = (t.nproc ≡ length (online_cpus f)) × (1 ≤ length t.fast_cores) × All Online t.fast_cores

  -- When detect_linux gives a topology of a host, no processor has a negative class and one
  -- processor at least is online, the number of processors is that of the online ones, and the fast
  -- cores, of which there is one at least, are online processors.
  pub detect_linux-finds :
      {t : Topology}
      → detect_linux text f ≡ some t
      → ((cpu : ℕ) (k : ℤ) → class_of f cpu ≡ some k → neg_part k ≡ 0)
      → 1 ≤ length (online_cpus f)
      → (t.nproc ≡ length (online_cpus f)) × (1 ≤ length t.fast_cores) × All Online t.fast_cores
  unfolding detect_linux
  detect_linux-finds {t} h n l =
      let cpus = online_cpus f in
      let (ks, e, q) = of_classes-some (length cpus) (classes (class_of f) cpus) h in
      let (firsts, classed) = classes-Classed (class_of f) cpus e in
      let online = All-firsts Online ks (subst (All Online) (sym firsts) (contains_self cpus)) in
      let filled : 1 ≤ length ks = omega (arith, l, length-map (λ c. c.0) ks, ap length firsts) in
      subst Found q (
        refl,
        fast_cores-any f (class_of f) ks n classed filled,
        pick-All Online f (best_class ks (pos 0)) [] ks online,
      )
