-- ===== src/Client/Admitted.antt =====
-- What an admission grants.
use capi_net.Base.{
  ℕ, ◌/◌, ◌-◌, ◌≤◌, ◌≡◌, refl, ◌⊎◌, inl, inr, Bool, true, false, not, ◌&&◌, ◌||◌, Option, none,
  some, List, [], ◌∷◌, arith, ltb, ◌==◌, if◌then◌else◌, All, All-drop, All-impl, length,
  length-drop, contains, IsDistinct, set_of-IsDistinct, drop-IsDistinct, Bool-cases, find_first,
  String, set_of,
}
use capi_net.Base.Int.{pos}
use capi_net.Client.Topology.{
  Topology, Admission, default_slots, decide_admission, admit_pinned, admit_qos, admit_unpinned,
  max_qos_slots, not_fast, check_cores,
}

pub contains_self : (xs : List ℕ) → All (λ c. contains c xs ≡ true) xs
contains_self [] = tt
contains_self (x ∷ xs) = (
  ground arith,
  All-impl _ (λ c. contains c (x ∷ xs) ≡ true) (λ c h. ground arith) xs (contains_self xs),
)

none-All :
    (t : Topology) (cs : List ℕ)
    → find_first (not_fast t) cs ≡ none
    → All (λ c. contains c t.fast_cores ≡ true) cs
none-All t [] h = tt
none-All t (c ∷ cs) h = elim (Bool-cases (contains c t.fast_cores)) [
  | inl e ↦ (e, none-All t cs (ground arith))
  | inr e ↦ absurd (ground arith)
]

module _ (show : ℕ → String) where
  abbrev Pinned : Topology → ℕ → Admission → Type 0
  Pinned t slots a =
      (length a.cores ≡ slots)
      × IsDistinct a.cores
      × All (λ c. contains c t.fast_cores ≡ true) a.cores

  checked-Pinned :
      (t : Topology) (slots : ℕ) (cs : List ℕ) (r : Option ℕ)
      → find_first (not_fast t) cs ≡ r
      → (check_cores show t slots cs r).ok ≡ true
      → Pinned t slots (check_cores show t slots cs r)
  checked-Pinned t slots cs (some c) e h = absurd (ground arith)
  checked-Pinned t slots cs none e h =
      let fast = none-All t cs e in
      elim (Bool-cases (not (length cs == slots) || not (length (set_of cs) == length cs))) [
        | inl bad ↦ absurd (ground arith)
        | inr good ↦ rw good (ground arith, set_of-IsDistinct cs (ground arith), fast)
      ]

  admit-Pinned :
      (t : Topology) (slots : ℕ) (cores : Option (List ℕ))
      → IsDistinct t.fast_cores
      → (admit_pinned show t slots cores).ok ≡ true
      → Pinned t slots (admit_pinned show t slots cores)
  unfolding admit_pinned
  admit-Pinned t slots none d h = elim (Bool-cases (ltb (length t.fast_cores) slots)) [
    | inl e ↦ absurd (ground arith)
    | inr e ↦ rw e (
      ground (arith, length-drop (length t.fast_cores - slots) t.fast_cores),
      drop-IsDistinct (length t.fast_cores - slots) t.fast_cores d,
      All-drop (λ c. contains c t.fast_cores ≡ true) (length t.fast_cores - slots) t.fast_cores
          (contains_self t.fast_cores),
    )
  ]
  admit-Pinned t slots (some cs) d h = checked-Pinned t slots cs _ refl h

  abbrev pub room : Topology → ℕ
  room t = if t.heterogeneous then max_qos_slots t else length t.fast_cores

  abbrev Unpinned : Topology → ℕ → Admission → Type 0
  Unpinned t slots a = (a.cores ≡ []) × (slots ≤ room t)

  admit-Unpinned :
      (t : Topology) (slots : ℕ) (cores : Option (List ℕ))
      → let a =
          if t.heterogeneous
          then admit_qos show t slots cores
          else admit_unpinned show t slots cores in
        a.ok ≡ true → Unpinned t slots a
  unfolding admit_qos admit_unpinned
  admit-Unpinned t slots cores h = ground arith

  abbrev pub Granted : Topology → ℕ → Admission → Type 0
  Granted t slots a =
      ((t.pinning_available ≡ true) × Pinned t slots a)
      ⊎ ((t.pinning_available ≡ false) × Unpinned t slots a)

  abbrev chosen : Topology → ℕ → Option (List ℕ) → Bool → Admission
  chosen t slots cores b =
      if b
      then admit_pinned show t slots cores
      else if t.heterogeneous
      then admit_qos show t slots cores
      else admit_unpinned show t slots cores

  chosen-Granted :
      (t : Topology) (slots : ℕ) (cores : Option (List ℕ)) (b : Bool)
      → IsDistinct t.fast_cores
      → t.pinning_available ≡ b
      → (chosen t slots cores b).ok ≡ true
      → Granted t slots (chosen t slots cores b)
  chosen-Granted t slots cores true d e h = inl (e, admit-Pinned t slots cores d h)
  chosen-Granted t slots cores false d e h = inr (e, admit-Unpinned t slots cores h)

  pub decide_admission-grants :
      (t : Topology) (slots : ℕ) (cores : Option (List ℕ))
      → IsDistinct t.fast_cores
      → (decide_admission show t (pos slots) cores).ok ≡ true
      → (1 ≤ slots) × Granted t slots (decide_admission show t (pos slots) cores)
  unfolding decide_admission
  decide_admission-grants t slots cores d h = elim (Bool-cases (ltb slots 1)) [
    | inl e ↦ absurd (ground arith)
    | inr e ↦ rw e (
      ground arith,
      chosen-Granted t slots cores t.pinning_available d refl (rw (e, decide_admission) at h),
    )
  ]

  -- On a host with a fast core, no fewer fast cores than a quarter of its logical ones, and either
  -- affinity, cores of one kind or the scheduling hint, the default number of slots is admitted.
  pub default_slots-admitted :
      (t : Topology)
      → 1 ≤ length t.fast_cores
      → t.nproc / 4 ≤ length t.fast_cores
      → t.heterogeneous && not t.pinning_available && not t.qos_hint_available ≡ false
      → (decide_admission show t (pos (default_slots t)) none).ok ≡ true
  unfolding decide_admission default_slots admit_pinned admit_qos admit_unpinned
  default_slots-admitted t h k q = ground arith
