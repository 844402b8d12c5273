-- ===== src/Server/Queue/Claim/Bounds.antt =====
-- How much a claim hands out, and to whom.
use capi_net.Base.{
  ℕ, ◌+◌, ◌≤◌, ◌≡◌, refl, inl, inr, Bool, not, ◌&&◌, none, some, List, [], ◌∷◌, map, arith, ltb,
  ◌==◌, Option, Option-cases, All, true, find_first-key, find_first-All, false, length, length-take,
  length-map, insert_by, sort_by, select, min, find_first,
}
use capi_net.Server.Types.{is_pending, is_banned}
use capi_net.Server.Schema.{TestRow, ClientRow, PairRow, PositionRow, Db, client_by_id}
use capi_net.Server.Queue.Claim.{
  ClaimedPair, ClaimStatus, unknown_client, banned_client, claim_pairs, claim_nothing, claim_answer,
  hand_out, picked, running_test, caller, join_position, join_positions, lease_row, lease_us,
}

length-insert_by {ℓ} :
    {A : Type ℓ} (before : A → A → Bool) (x : A) (ys : List A)
    → length (insert_by before x ys) ≡ length ys + 1
length-insert_by before x [] = refl
length-insert_by before x (y ∷ ys) = ground (arith, length-insert_by before x ys)

length-sort_by {ℓ} :
    {A : Type ℓ} (before : A → A → Bool) (xs : List A) → length (sort_by before xs) ≡ length xs
length-sort_by before [] = refl
length-sort_by before (x ∷ xs) =
    ground (arith, length-insert_by before x (sort_by before xs), length-sort_by before xs)

join_positions-le :
    (positions : List PositionRow) (ps : List PairRow)
    → length (join_positions positions ps) ≤ length ps
unfolding join_positions join_position
join_positions-le positions [] = omega arith
join_positions-le positions (p ∷ ps) =
    elim (Option-cases (find_first (λ o. o.id == p.position_id) positions)) [
      | inl e ↦ ground (arith, join_positions-le positions ps)
      | inr (o, e) ↦ ground (arith, join_positions-le positions ps)
    ]

-- a row that is not of the client, or of a banned one
abbrev pub IsShutOut : ℕ → ClientRow → Type 0
IsShutOut k c = (c.id == k && not (is_banned c.status)) ≡ false

caller-none :
    (k : ℕ) (cs : List ClientRow)
    → All (IsShutOut k) cs
    → find_first (λ c. c.id == k && not (is_banned c.status)) cs ≡ none
caller-none k [] h = refl
caller-none k (c ∷ cs) h = rw h.0 (caller-none k cs h.1)

-- what a client that is shut out is told
abbrev pub refusal_of : Option ClientRow → ClaimStatus
refusal_of none = unknown_client
refusal_of (some c) = banned_client

shut_out-banned : (k : ℕ) (c : ClientRow) → IsShutOut k c → c.id ≡ k → is_banned c.status ≡ true
shut_out-banned k c h e = ground (arith, h)

module _ {F : Type 0} where
  nothing-empty : (k : ℕ) (db : Db F) → (claim_nothing k db).pairs ≡ []
  unfolding claim_nothing
  nothing-empty k db = ground arith

  answer-le :
      (k t : ℕ) (ps : List ClaimedPair) (db : Db F)
      → length (claim_answer k t ps db).pairs ≤ length ps
  answer-le k t [] db = ground (arith, nothing-empty k db)
  answer-le k t (p ∷ ps) db = omega arith

  picked-le :
      (locked : ℕ → Bool) (n : ℕ) (t : TestRow F) (c : ClientRow) (db : Db F)
      → length (picked locked n t c db) ≤ min n c.reg.slots
  unfolding picked
  picked-le locked n t c db =
      let free =
        select (λ p. p.test_id == t.id && is_pending p.status && not (locked p.id)) db.pairs in
      omega (
        arith,
        length-take (min n c.reg.slots)
            (sort_by (λ p q. ltb p.dispatch_order q.dispatch_order) free),
      )

  hand_out-le :
      (now ttl k : ℕ) (t : TestRow F) (c : ClientRow) (rows : List PairRow) (db : Db F)
      → length (hand_out now ttl k t c rows db).0.pairs ≤ length rows
  unfolding hand_out
  hand_out-le now ttl k t c rows db =
      let lease = lease_row now k (lease_us ttl t c) in
      let sorted = sort_by (λ p q. ltb p.id q.id) (map lease rows) in
      let one = answer-le k t.id (join_positions db.positions sorted) db in
      let two = join_positions-le db.positions sorted in
      let three = length-sort_by (λ p q. ltb p.id q.id) (map lease rows) in
      let four = length-map lease rows in omega arith

  -- A claim of a client that is registered and not banned is answered with at most as many pairs as
  -- it asked for and as it has slots.
  pub claim_pairs-bounds :
      (now ttl : ℕ) (locked : ℕ → Bool) (k n : ℕ) (db : Db F) (c : ClientRow)
      → caller k db ≡ some c
      → length (claim_pairs now ttl locked k n db).0.pairs ≤ min n c.reg.slots
  unfolding claim_pairs
  claim_pairs-bounds now ttl locked k n db c h = elim (Option-cases (running_test db)) [
    | inl e ↦ rw (e, claim_pairs) (ground (arith, nothing-empty k db))
    | inr (t, e) ↦
        let few = hand_out-le now ttl k t c (picked locked n t c db) db in
        let picks = picked-le locked n t c db in rw (e, claim_pairs) (rw h (omega arith))
  ]

  nothing-refusal :
      (k : ℕ) (db : Db F)
      → All (IsShutOut k) db.clients
      → (claim_nothing k db).status ≡ refusal_of (client_by_id k db)
  unfolding claim_nothing
  nothing-refusal k db h = elim (Option-cases (client_by_id k db)) [
    | inl e ↦ rw (e, claim_nothing) refl
    | inr (c, e) ↦
        let own = find_first-key (λ c. c.id) k db.clients e in
        let out = find_first-All (IsShutOut k) (λ c. c.id == k) db.clients h e in
        rw (e, claim_nothing) (rw (shut_out-banned k c out own) refl)
  ]

  -- When every row with the id of the caller is of a banned client, or there is none, a claim is
  -- answered as that of an unknown or of a banned client, by whether there is a row, with no pairs,
  -- and changes nothing.
  pub claim_pairs-refused :
      (now ttl : ℕ) (locked : ℕ → Bool) (k n : ℕ) (db : Db F)
      → All (IsShutOut k) db.clients
      → let result = claim_pairs now ttl locked k n db in
        (result.0.status ≡ refusal_of (client_by_id k db)) × (result.0.pairs ≡ []) × (result.1 ≡ db)
  unfolding claim_pairs caller
  claim_pairs-refused now ttl locked k n db h =
      let answer : ((claim_nothing k db).status ≡ refusal_of (client_by_id k db))
          × ((claim_nothing k db).pairs ≡ [])
          × (db ≡ db) =
        (nothing-refusal k db h, nothing-empty k db, refl) in
      elim (Option-cases (running_test db)) [
        | inl e ↦ rw (e, claim_pairs) answer
        | inr (t, e) ↦ rw (e, claim_pairs) (rw (caller-none k db.clients h) answer)
      ]
