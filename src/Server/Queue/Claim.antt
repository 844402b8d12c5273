-- ===== src/Server/Queue/Claim.antt =====
-- server/queue.cpp: `claim_pairs`. One transaction; `now` is its time and `ttl_s` the configured
-- `lease_ttl_min`. `locked` holds of the pairs whose rows another transaction has locked, which
-- SKIP LOCKED passes over. The statement reads one snapshot.
pub mod Bounds
use capi_net.Base.{
  ℕ, ◌+◌, ◌*◌, Bool, not, ◌&&◌, Option, none, some, List, [], ◌∷◌, ◌++◌, map, ltb, ◌==◌,
  if◌then◌else◌, value_or, contains, find_first, select, update_where, take, sort_by, min, max,
  String,
}
use capi_net.Server.Types.{leased, is_running, is_banned, is_pending}
use capi_net.Server.Schema.{TestRow, ClientRow, PairRow, PositionRow, Db, client_by_id}

pub data ClaimStatus : Type 0 where
  claim_ok unknown_client banned_client no_active_test : ClaimStatus

pub record ClaimedPair : Type 0 where
  pub pair_id : ℕ
  pub position_id : ℕ
  pub position_seq : ℕ
  pub fen : String
  pub lease_expires_at : Option ℕ

pub record ClaimResult : Type 0 where
  pub status : ClaimStatus
  pub test_id : ℕ
  pub pairs : List ClaimedPair

-- the CTE `upd`
abbrev pub lease_row : ℕ → ℕ → ℕ → PairRow → PairRow
lease_row now client_id us p = record p {
  status = leased;
  leased_to = some client_id;
  leased_at = some now;
  lease_expires_at = some (now + us);
  attempts = p.attempts + 1;
}

abbrev pub ids_of : List PairRow → List ℕ
ids_of = map λ p. p.id

-- JOIN opening_positions
unfoldable pub join_position : List PositionRow → PairRow → List ClaimedPair
join_position positions p = elim (find_first (λ o. o.id == p.position_id) positions) [
  | none ↦ []
  | some o ↦
      record {
        pair_id = p.id;
        position_id = p.position_id;
        position_seq = o.seq;
        fen = o.fen;
        lease_expires_at = p.lease_expires_at;
      }
      ∷ []
]

unfoldable pub join_positions : List PositionRow → List PairRow → List ClaimedPair
join_positions positions [] = []
join_positions positions (p ∷ ps) = join_position positions p ++ join_positions positions ps

module _ {F : Type 0} where
  -- the CTE `active`
  unfoldable pub running_test : Db F → Option (TestRow F)
  running_test db = find_first (λ t. is_running t.status) db.tests

  -- the CTE `caller`
  unfoldable pub caller : ℕ → Db F → Option ClientRow
  caller client_id db = find_first (λ c. c.id == client_id && not (is_banned c.status)) db.clients

  -- 4.0 * (tc_base_ms + 60 * tc_increment_ms)
  abbrev pub est_pair_ms : TestRow F → ℕ
  est_pair_ms t = 4 * (t.spec.tc_base_ms + 60 * t.spec.tc_increment_ms)

  -- GREATEST(ttl, 6 * est * factor / 1000.0) seconds, in microseconds: the factor is in thousandths
  unfoldable pub lease_us : ℕ → TestRow F → ClientRow → ℕ
  lease_us ttl_s t c = max (ttl_s * 1_000_000) (6 * est_pair_ms t * value_or c.cpu_factor 1000)

  -- the CTE `picked`
  unfoldable pub picked : (ℕ → Bool) → ℕ → TestRow F → ClientRow → Db F → List PairRow
  picked locked slots_free t c db = take (min slots_free c.reg.slots) (
      sort_by (λ p q. ltb p.dispatch_order q.dispatch_order)
        (select (λ p. p.test_id == t.id && is_pending p.status && not (locked p.id)) db.pairs))

  -- the answer when nothing was handed out
  unfoldable pub claim_nothing : ℕ → Db F → ClaimResult
  claim_nothing client_id db = elim (client_by_id client_id db) [
    | none ↦ record { status = unknown_client; test_id = 0; pairs = [] }
    | some c ↦
        if is_banned c.status
        then record { status = banned_client; test_id = 0; pairs = [] }
        else (elim (running_test db) [
          | none ↦ record { status = no_active_test; test_id = 0; pairs = [] }
          | some t ↦ record { status = claim_ok; test_id = t.id; pairs = [] }
        ])
  ]

  abbrev pub claim_answer : ℕ → ℕ → List ClaimedPair → Db F → ClaimResult
  claim_answer client_id test_id [] db = claim_nothing client_id db
  claim_answer client_id test_id (p ∷ ps) db = record {
    status = claim_ok;
    test_id = test_id;
    pairs = p ∷ ps;
  }

  -- ORDER BY upd.id
  unfoldable pub hand_out :
      ℕ → ℕ → ℕ → TestRow F → ClientRow → List PairRow → Db F → ClaimResult × Db F
  hand_out now ttl_s client_id t c rows db =
      let lease = lease_row now client_id (lease_us ttl_s t c) in
      let pairs = join_positions db.positions (sort_by (λ p q. ltb p.id q.id) (map lease rows)) in
      let db' = record db {
        pairs = update_where (λ p. contains p.id (ids_of rows)) lease db.pairs;
      } in
      (claim_answer client_id t.id pairs db, db')

  unfoldable pub claim_pairs : ℕ → ℕ → (ℕ → Bool) → ℕ → ℕ → Db F → ClaimResult × Db F
  claim_pairs now ttl_s locked client_id slots_free db = elim (running_test db) [
    | none ↦ (claim_nothing client_id db, db)
    | some t ↦ elim (caller client_id db) [
      | none ↦ (claim_nothing client_id db, db)
      | some c ↦ hand_out now ttl_s client_id t c (picked locked slots_free t c db) db
    ]
  ]
