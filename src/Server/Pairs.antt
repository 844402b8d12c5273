-- ===== src/Server/Pairs.antt =====
-- What a transaction may do to the queue: a pair keeps its test and position, its attempts only
-- grow, and its status moves along the diagram below, of which completed and discarded are ends.

pub mod Steps
pub mod Operations
pub mod Runs
pub mod Recovery
use capi_net.Base.{
  ℕ, ◌≤◌, ◌≡◌, refl, ◌∙◌, Bool, true, false, List, Option, none, some, arith, All, Distinct, Below,
  Extends, Extends-refl, Extends-trans, Extends-update, update_where, Distinct-update, Below-update,
  All-impl, ◌∷◌, [], if◌then◌else◌, Bool-cases, inl, inr,
}
use capi_net.Server.Types.{JobStatus, leased, discarded}
use capi_net.Server.Schema.{PairRow, Db}

pub data PairEdge : JobStatus → JobStatus → Type 0 where
  lease : PairEdge JobStatus.pending leased
  complete : PairEdge leased JobStatus.completed
  release : PairEdge leased JobStatus.pending
  discard : PairEdge leased discarded

pub data PairRoute : JobStatus → JobStatus → Type 0 where
  here : {s : JobStatus} → PairRoute s s
  follow : {s t u : JobStatus} → PairEdge s t → PairRoute t u → PairRoute s u

PairRoute-trans : {s t u : JobStatus} → PairRoute s t → PairRoute t u → PairRoute s u
PairRoute-trans here r = r
PairRoute-trans (follow e q) r = follow e (PairRoute-trans q r)

abbrev pub is_set {ℓ} : {A : Type ℓ} → Option A → Bool
is_set none = false
is_set (some _) = true

pub record PairEvolves (p q : PairRow) : Type 0 where
  pub id : q.id ≡ p.id
  pub test_id : q.test_id ≡ p.test_id
  pub position_id : q.position_id ≡ p.position_id
  pub attempts : p.attempts ≤ q.attempts
  pub route : PairRoute p.status q.status

-- The columns that each status fills in.
abbrev pub Shape : JobStatus → PairRow → Type 0
Shape JobStatus.pending p =
    (p.leased_to ≡ none) × (p.lease_expires_at ≡ none) × (p.completed_at ≡ none)
Shape leased p =
    (is_set p.leased_to ≡ true) × (is_set p.lease_expires_at ≡ true) × (p.completed_at ≡ none)
Shape JobStatus.completed p = (is_set p.leased_to ≡ true) × (is_set p.completed_at ≡ true)
Shape discarded p =
    (is_set p.leased_to ≡ true) × (p.completed_at ≡ none) × (is_set p.discarded_reason ≡ true)

abbrev pub IsSound : PairRow → Type 0
IsSound p = Shape p.status p

abbrev pub IsNewPair : PairRow → Type 0
IsNewPair p = PairRoute JobStatus.pending p.status

pub PairEvolves-refl : (p : PairRow) → PairEvolves p p
PairEvolves-refl p = record {
  id = refl;
  test_id = refl;
  position_id = refl;
  attempts = omega arith;
  route = here;
}

PairEvolves-trans : (p q r : PairRow) → PairEvolves p q → PairEvolves q r → PairEvolves p r
PairEvolves-trans p q r e f = record {
  id = f.id ∙ e.id;
  test_id = f.test_id ∙ e.test_id;
  position_id = f.position_id ∙ e.position_id;
  attempts = let a = e.attempts in let b = f.attempts in omega arith;
  route = PairRoute-trans e.route f.route;
}

abbrev pub PairAllowed : (PairRow → PairRow) → PairRow → Type 0
PairAllowed f p = PairEvolves p (f p) × (IsSound p → IsSound (f p))

update-IsSound :
    (t : PairRow → Bool) (f : PairRow → PairRow) (ps : List PairRow)
    → All (λ p. t p ≡ true → PairAllowed f p) ps
    → All IsSound ps
    → All IsSound (update_where t f ps)
update-IsSound t f [] a s = tt
update-IsSound t f (p ∷ ps) a s = elim (Bool-cases (t p)) [
  | inl e ↦ rw e ((a.0 e).1 s.0, update-IsSound t f ps a.1 s.1)
  | inr e ↦ rw e (s.0, update-IsSound t f ps a.1 s.1)
]

module _ {F : Type 0} where
  pub record PairsInv (db : Db F) : Type 0 where
    pub distinct : Distinct (λ p. p.id) db.pairs
    pub below : Below (λ p. p.id) db.next_pair db.pairs
    pub sound : All IsSound db.pairs

  abbrev pub PairsExtend : Db F → Db F → Type 0
  PairsExtend db db' = Extends PairEvolves IsNewPair db.pairs db'.pairs

  abbrev pub PairsAdvance : Db F → Db F → Type 0
  PairsAdvance db db' = PairsInv db → PairsInv db' × PairsExtend db db'

  pub PairsAdvance-trans : (a b c : Db F) → PairsAdvance a b → PairsAdvance b c → PairsAdvance a c
  PairsAdvance-trans a b c f g i =
      let (j, x) = f i in
      let (k, y) = g j in
      (
        k,
        Extends-trans PairEvolves IsNewPair PairEvolves-trans (λ p q n e. PairRoute-trans n e.route)
            x y,
      )

  pub PairsAdvance-same :
      (db db' : Db F) → db'.pairs ≡ db.pairs → db'.next_pair ≡ db.next_pair → PairsAdvance db db'
  PairsAdvance-same db db' e n i = (
    record { distinct = rw e i.distinct; below = rw (e, n) i.below; sound = rw e i.sound },
    rw e (Extends-refl PairEvolves IsNewPair PairEvolves-refl db.pairs),
  )

  -- An update of the rows that pass a test, if each change is allowed.
  pub update-PairsAdvance :
      (t : PairRow → Bool) (f : PairRow → PairRow) (db : Db F)
      → ((p : PairRow) → (f p).id ≡ p.id)
      → (PairsInv db → All (λ p. t p ≡ true → PairAllowed f p) db.pairs)
      → PairsAdvance db (record db { pairs = update_where t f db.pairs })
  update-PairsAdvance t f db keeps rows i = (
    record {
      distinct = Distinct-update _ t f keeps db.pairs i.distinct;
      below = Below-update _ t f keeps db.next_pair db.pairs i.below;
      sound = update-IsSound t f db.pairs (rows i) i.sound;
    },
    Extends-update PairEvolves IsNewPair t f db.pairs PairEvolves-refl
        (All-impl _ _ (λ p h e. (h e).0) db.pairs (rows i)),
  )
