-- ===== src/Server/Queue/Leases.antt =====
-- server/queue.cpp: `abandon_pair` and `recover_expired_leases`, each one transaction. `locked`
-- holds of the pairs whose rows another transaction has locked (SKIP LOCKED).
use capi_net.Base.{
  set_of, ℕ, Bool, false, not, ◌&&◌, Option, none, some, List, [], ◌∷◌, map, ltb, leb, ◌==◌,
  if◌then◌else◌, ◌>>=◌, select, update_where, count_where,
}
use capi_net.Server.Types.{JobStatus, discarded, is_leased}
use capi_net.Server.Schema.{PairRow, Db, Services}
use capi_net.Server.Lifecycle.{refresh_test}
use capi_net.Server.Queue.Submit.{is_lease}

abbrev pub release_row : PairRow → PairRow
release_row p = record p {
  status = JobStatus.pending;
  leased_to = none;
  leased_at = none;
  lease_expires_at = none;
}

-- The result is `affected_rows() == 1`.
unfoldable pub abandon_pair : {F : Type 0} → ℕ → ℕ → Db F → Bool × Db F
abandon_pair pair_id client_id db = (
  count_where (is_lease pair_id client_id) db.pairs == 1,
  record db { pairs = update_where (is_lease pair_id client_id) release_row db.pairs },
)

abbrev pub expired_at : ℕ → Option ℕ → Bool
expired_at now none = false
expired_at now (some t) = ltb t now

-- the CTE `expired`
abbrev pub is_expired : ℕ → (ℕ → Bool) → PairRow → Bool
is_expired now locked p =
    is_leased p.status && expired_at now p.lease_expires_at && not (locked p.id)

abbrev pub spent : ℕ → PairRow → Bool
spent max_attempts p = leb max_attempts p.attempts

abbrev pub recover_row : ℕ → PairRow → PairRow
recover_row max_attempts p =
    if spent max_attempts p
    then record p { status = discarded; discarded_reason = some "too_many_attempts" }
    else record p {
      status = JobStatus.pending;
      discarded_reason = none;
      leased_to = none;
      leased_at = none;
      lease_expires_at = none;
    }

pub record LeaseRecovery : Type 0 where
  pub requeued : ℕ
  pub discarded_pairs : ℕ

module _ {F : Type 0} (sv : Services F) where
  unfoldable pub refresh_all : ℕ → List ℕ → Db F → Option (Db F)
  refresh_all now [] db = some db
  refresh_all now (t ∷ ts) db = refresh_test sv now t db >>= λ next. refresh_all now ts next

  unfoldable pub recover_expired_leases : ℕ → (ℕ → Bool) → ℕ → Db F → Option (LeaseRecovery × Db F)
  recover_expired_leases now locked max_attempts db =
      let rows = select (is_expired now locked) db.pairs in
      let dropped = select (spent max_attempts) rows in
      let swept = record db {
        pairs = update_where (is_expired now locked) (recover_row max_attempts) db.pairs;
      } in
      refresh_all now (set_of (map (λ p. p.test_id) dropped)) swept >>= λ done. some (
        record {
          requeued = count_where (λ p. not (spent max_attempts p)) rows;
          discarded_pairs = count_where (spent max_attempts) rows;
        },
        done,
      )
