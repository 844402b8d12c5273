-- ===== src/Server/Smoke.antt =====
-- server/smoke.cpp: `SmokeWorker::process_next`, in its two transactions. Between them the engines
-- are built and checked and the book is sampled with no connection held, so other transactions may
-- run. The build's outcome, the finished log and the sampled positions are arguments, and so are the random
-- dispatch orders.
use capi_net.Base.{
  ℕ, ◌+◌, Bool, not, ◌&&◌, Option, none, some, List, [], ◌∷◌, ◌++◌, ltb, ◌==◌, if◌then◌else◌, ◌>>=◌,
  any, select, update_where, length, String, head?, sort_by,
}
use capi_net.Server.Types.{invalid, queued, JobStatus, is_validating, is_discarded}
use capi_net.Server.Schema.{TestRow, PositionRow, PairRow, Db, Services, test_by_id}
use capi_net.Server.Lifecycle.{refresh_test, promote_next_test}

pub record SmokeReport : Type 0 where
  pub build_ok : Bool
  pub positions : List String
  pub log : String
  pub dispatch : ℕ → ℕ

-- enough positions for the pairs
unfoldable pub smoke_ok : ℕ → SmokeReport → Bool
smoke_ok total_pairs r = r.build_ok && not (ltb (length r.positions) total_pairs)

abbrev pub new_pair : (ℕ → ℕ) → ℕ → PositionRow → PairRow
new_pair dispatch id o = record {
  id = id;
  test_id = o.test_id;
  position_id = o.id;
  status = JobStatus.pending;
  dispatch_order = dispatch o.id;
  leased_to = none;
  leased_at = none;
  lease_expires_at = none;
  attempts = 0;
  completed_at = none;
  discarded_reason = none;
}

-- a live pair of the position
abbrev pub holds_position : PositionRow → PairRow → Bool
holds_position o p = p.test_id == o.test_id && p.position_id == o.id && not (is_discarded p.status)

module _ {F : Type 0} where
  -- ORDER BY id LIMIT 1
  unfoldable pub next_validating : Db F → Option (TestRow F)
  next_validating db =
      head? (sort_by (λ t u. ltb t.id u.id) (select (λ t. is_validating t.status) db.tests))

  abbrev pub reject_test : String → TestRow F → TestRow F
  reject_test log t = record t { status = invalid; validation_log = some log }

  abbrev pub queue_test : String → TestRow F → TestRow F
  queue_test log t = record t { status = queued; validation_log = some log }

  -- UNIQUE (test_id, seq)
  unfoldable pub insert_positions : ℕ → ℕ → List String → Db F → Option (Db F)
  insert_positions test_id seq [] db = some db
  insert_positions test_id seq (fen ∷ fens) db =
      let row : PositionRow = record {
        id = db.next_position;
        test_id = test_id;
        seq = seq;
        fen = fen;
      } in
      let rest = insert_positions test_id (seq + 1) fens (record db {
        positions = db.positions ++ row ∷ [];
        next_position = db.next_position + 1;
      }) in
      if any (λ o. o.test_id == test_id && o.seq == seq) db.positions then none else rest

  -- one_live_pair_per_position
  unfoldable pub insert_pairs : (ℕ → ℕ) → List PositionRow → Db F → Option (Db F)
  insert_pairs dispatch [] db = some db
  insert_pairs dispatch (o ∷ os) db =
      let rest = insert_pairs dispatch os (record db {
        pairs = db.pairs ++ new_pair dispatch db.next_pair o ∷ [];
        next_pair = db.next_pair + 1;
      }) in
      if any (holds_position o) db.pairs then none else rest

  abbrev pub set_test : (TestRow F → TestRow F) → ℕ → Db F → Db F
  set_test f test_id db = record db { tests = update_where (λ t. t.id == test_id) f db.tests }

module _ {F : Type 0} (sv : Services F) where
  unfoldable pub enqueue_test : ℕ → ℕ → SmokeReport → Db F → Option (Db F)
  enqueue_test now test_id r db = insert_positions test_id 1 r.positions db >>= λ one.
      insert_pairs r.dispatch (select (λ o. o.test_id == test_id) one.positions) one >>= λ two.
      refresh_test sv now test_id (set_test (queue_test r.log) test_id two) >>= λ three.
      some (promote_next_test now three).0

  -- the second transaction; a test that is gone, or no longer validating, keeps its state
  unfoldable pub conclude_smoke : ℕ → TestRow F → SmokeReport → Db F → Option (Db F)
  conclude_smoke now started r db = test_by_id started.id db >>= λ t.
      if not (is_validating t.status)
      then some db
      else if not (smoke_ok started.spec.total_pairs r)
      then some (set_test (reject_test r.log) started.id db)
      else enqueue_test now started.id r db
