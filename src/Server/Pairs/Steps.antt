-- ===== src/Server/Pairs/Steps.antt =====
-- The statements that write to `job_pairs`, as steps of `Server.Pairs`.
use capi_net.Base.{
  ℕ, ◌+◌, ◌≡◌, refl, inl, inr, Bool, true, List, [], ◌∷◌, ◌++◌, some, arith, ◌==◌, All, All-impl,
  All-append, All-every, All-zip, All-take, All-select, All-select_test, Bool-cases, Option-cases,
  any, update_where, contains, Distinct-unique, Distinct-append_new, Below-append_new,
  Extends-append, some_inj, subst,
}
use capi_net.Server.Types.{JobStatus, leased, is_pending, is_leased}
use capi_net.Server.Schema.{TestRow, ClientRow, PairRow, PositionRow, Db}
use capi_net.Server.Lifecycle.Order.{All-sort_by}
use capi_net.Server.Smoke.{insert_pairs, new_pair, holds_position}
use capi_net.Server.Queue.Claim.{
  claim_pairs, hand_out, picked, running_test, caller, lease_row, ids_of, lease_us,
}
use capi_net.Server.Queue.Submit.{close_pair, is_lease, complete_row}
use capi_net.Server.Queue.Leases.{abandon_pair, release_row, is_expired, recover_row, spent}
use capi_net.Server.Pairs.{
  PairEdge, lease, complete, release, discard, here, follow, PairEvolves, IsSound, IsNewPair,
  PairEvolves-refl, PairsInv, PairsAdvance, PairsAdvance-trans, PairsAdvance-same, PairAllowed,
  update-PairsAdvance,
}

leased-Edge : (s t : JobStatus) → PairEdge leased t → is_leased s ≡ true → PairEdge s t
leased-Edge leased t e h = e
leased-Edge _ t e h = absurd (ground arith)

pending-Edge : (s : JobStatus) → is_pending s ≡ true → PairEdge s leased
pending-Edge JobStatus.pending h = lease
pending-Edge _ h = absurd (ground arith)

lease-PairAllowed :
    (now c us : ℕ) (p : PairRow) → is_pending p.status ≡ true → PairAllowed (lease_row now c us) p
lease-PairAllowed now c us p h = (
  record {
    id = refl;
    test_id = refl;
    position_id = refl;
    attempts = omega arith;
    route = follow (pending-Edge p.status h) here;
  },
  λ s. ground arith,
)

release-PairAllowed : (p : PairRow) → is_leased p.status ≡ true → PairAllowed release_row p
release-PairAllowed p h = (
  record {
    id = refl;
    test_id = refl;
    position_id = refl;
    attempts = omega arith;
    route = follow (leased-Edge p.status _ release h) here;
  },
  λ s. ground arith,
)

complete-PairAllowed :
    (now : ℕ) (p : PairRow) → is_leased p.status ≡ true → PairAllowed (complete_row now) p
complete-PairAllowed now p h = (
  record {
    id = refl;
    test_id = refl;
    position_id = refl;
    attempts = omega arith;
    route = follow (leased-Edge p.status _ complete h) here;
  },
  λ s. ground arith,
)

recover-PairAllowed :
    (n : ℕ) (p : PairRow) → is_leased p.status ≡ true → PairAllowed (recover_row n) p
recover-PairAllowed n p h = elim (Bool-cases (spent n p)) [
  | inl e ↦ rw e (
    record {
      id = refl;
      test_id = refl;
      position_id = refl;
      attempts = omega arith;
      route = follow (leased-Edge p.status _ discard h) here;
    },
    λ s. ground arith,
  )
  | inr e ↦ rw e (
    record {
      id = refl;
      test_id = refl;
      position_id = refl;
      attempts = omega arith;
      route = follow (leased-Edge p.status _ release h) here;
    },
    λ s. ground arith,
  )
]

-- What is known of a picked row holds of every row with its id, where that is unique.
abbrev pub Picks : List PairRow → PairRow → Type 0
Picks ps p = (is_pending p.status ≡ true) × All (λ q. (q.id == p.id) ≡ true → q ≡ p) ps

contained-pending :
    (ps rows : List PairRow)
    → All (Picks ps) rows
    → All (λ q. contains q.id (ids_of rows) ≡ true → is_pending q.status ≡ true) ps
contained-pending ps [] a = All-every _ (λ q h. absurd (ground arith)) ps
contained-pending ps (p ∷ rows) a =
    All-zip _ _ _
      (λ q same later h. elim (Bool-cases (p.id == q.id)) [
        | inl e ↦ rw (same (grind arith)) a.0.0
        | inr e ↦ later (ground arith)
      ])
      ps a.0.1 (contained-pending ps rows a.1)

module _ {F : Type 0} where
  pub picked-Picks :
      (locked : ℕ → Bool) (n : ℕ) (t : TestRow F) (c : ClientRow) (db : Db F)
      → PairsInv db
      → All (Picks db.pairs) (picked locked n t c db)
  unfolding picked
  picked-Picks locked n t c db i = All-take (Picks db.pairs) _ _ (
      All-sort_by _ (Picks db.pairs) _ (
        All-zip _ _ (Picks db.pairs) (λ p q u. (ground arith, u)) _ (All-select_test _ db.pairs)
          (All-select _ _ db.pairs (Distinct-unique (λ p. p.id) db.pairs i.distinct))))

  hand_out-PairsAdvance :
      (now ttl client_id : ℕ) (t : TestRow F) (c : ClientRow) (rows : List PairRow) (db : Db F)
      → (PairsInv db → All (Picks db.pairs) rows)
      → PairsAdvance db (hand_out now ttl client_id t c rows db).1
  unfolding hand_out
  hand_out-PairsAdvance now ttl client_id t c rows db picks =
      update-PairsAdvance _ (lease_row now client_id (lease_us ttl t c)) db (λ _. refl)
        λ i.
          All-impl _ _ (λ p pend h. lease-PairAllowed now client_id (lease_us ttl t c) p (pend h))
            db.pairs (contained-pending db.pairs rows (picks i))

  pub claim-PairsAdvance :
      (now ttl : ℕ) (locked : ℕ → Bool) (client_id n : ℕ) (db : Db F)
      → PairsAdvance db (claim_pairs now ttl locked client_id n db).1
  unfolding claim_pairs
  claim-PairsAdvance now ttl locked client_id n db = elim (Option-cases (running_test db)) [
    | inl e ↦ rw (e, claim_pairs) (PairsAdvance-same db db refl refl)
    | inr (t, e) ↦ elim (Option-cases (caller client_id db)) [
      | inl d ↦ rw (e, claim_pairs) (rw d (PairsAdvance-same db db refl refl))
      | inr (c, d) ↦
          rw (e, claim_pairs)
            (rw d (hand_out-PairsAdvance now ttl client_id t c _ db (picked-Picks locked n t c db)))
    ]
  ]

  pub close-PairsAdvance :
      (now p c : ℕ) (db : Db F) {db' : Db F}
      → close_pair now p c db ≡ some db'
      → PairsAdvance db db'
  unfolding close_pair
  close-PairsAdvance now p c db {db'} h =
      let pairs = update_where (is_lease p c) (complete_row now) db.pairs in
      let same : record db { pairs = pairs } ≡ db' = ground arith in
      subst (PairsAdvance db) same (
        update-PairsAdvance _ _ db (λ _. refl)
          λ i. All-every _ (λ q e. complete-PairAllowed now q (ground arith)) db.pairs)

  pub abandon-PairsAdvance : (p c : ℕ) (db : Db F) → PairsAdvance db (abandon_pair p c db).1
  unfolding abandon_pair
  abandon-PairsAdvance p c db =
      update-PairsAdvance _ _ db (λ _. refl)
        λ i. All-every _ (λ q e. release-PairAllowed q (ground arith)) db.pairs

  pub sweep-PairsAdvance :
      (now : ℕ) (locked : ℕ → Bool) (n : ℕ) (db : Db F)
      → PairsAdvance db
          (record db { pairs = update_where (is_expired now locked) (recover_row n) db.pairs })
  sweep-PairsAdvance now locked n db =
      update-PairsAdvance (is_expired now locked) (recover_row n) db (λ q. ground arith)
        λ i.
          All-every (λ q. is_expired now locked q ≡ true → PairAllowed (recover_row n) q)
            (λ q e. recover-PairAllowed n q (ground arith)) db.pairs

  add_pair-PairsAdvance :
      (dispatch : ℕ → ℕ) (o : PositionRow) (db : Db F)
      → PairsAdvance db (record db {
        pairs = db.pairs ++ new_pair dispatch db.next_pair o ∷ [];
        next_pair = db.next_pair + 1;
      })
  add_pair-PairsAdvance dispatch o db i =
      let p = new_pair dispatch db.next_pair o in
      (
        record {
          distinct =
              Distinct-append_new (λ q. q.id) db.next_pair db.pairs p refl i.below i.distinct;
          below = Below-append_new (λ q. q.id) db.next_pair db.pairs p refl i.below;
          sound = All-append IsSound db.pairs (p ∷ []) i.sound ((refl, refl, refl), tt);
        },
        Extends-append PairEvolves IsNewPair PairEvolves-refl db.pairs (p ∷ []) (here, tt),
      )

  pub insert_pairs-PairsAdvance :
      (dispatch : ℕ → ℕ) (os : List PositionRow) (db : Db F) {db' : Db F}
      → insert_pairs dispatch os db ≡ some db'
      → PairsAdvance db db'
  unfolding insert_pairs
  insert_pairs-PairsAdvance dispatch [] db h =
      subst (PairsAdvance db) (some_inj h) (PairsAdvance-same db db refl refl)
  insert_pairs-PairsAdvance dispatch (o ∷ os) db {db'} h =
      elim (Bool-cases (any (holds_position o) db.pairs)) [
        | inl e ↦ absurd (ground arith)
        | inr e ↦
            PairsAdvance-trans db _ db' (add_pair-PairsAdvance dispatch o db)
              (insert_pairs-PairsAdvance dispatch os _ (rw e at h))
      ]
