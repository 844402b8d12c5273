-- ===== src/Server/Queue/Submit.antt =====
-- server/queue.cpp: `submit_result`, one transaction at time `now`. `none` is an exception, after
-- which the transaction is rolled back.
pub mod Cases
pub mod Retry
use capi_net.Base.{
  true, false, ℕ, ◌+◌, Bool, not, ◌&&◌, ◌||◌, Option, none, some, [], ◌∷◌, ◌++◌, ◌==◌,
  if◌then◌else◌, ◌>>=◌, is_some_of, any, update_where, count_where, String,
}
use capi_net.Server.Types.{
  JobStatus, PairReport, GameReport, is_running, is_banned, is_leased, is_completed,
}
use capi_net.Server.Schema.{
  TestRow, ClientRow, PairRow, Db, Services, test_by_id, client_by_id, pair_by_id,
}
use capi_net.Server.Sanity.{GameVerdict, check_pair}
use capi_net.Server.Lifecycle.{refresh_test}

pub data SubmitStatus : Type 0 where
  accepted pair_not_found unknown_client lease_lost already_completed : SubmitStatus
  test_finished client_banned : SubmitStatus

pub record SubmitResult : Type 0 where
  pub status : SubmitStatus
  pub valid_games : ℕ

abbrev pub refused : SubmitStatus → SubmitResult
refused s = record { status = s; valid_games = 0 }

abbrev pub complete_row : ℕ → PairRow → PairRow
complete_row now p = record p { status = JobStatus.completed; completed_at = some now }

abbrev pub bit : Bool → ℕ
bit b = if b then 1 else 0

-- UPDATE job_pairs ... WHERE id = $1 AND status = 'leased' AND leased_to = $2
abbrev pub is_lease : ℕ → ℕ → PairRow → Bool
is_lease pair_id client_id p =
    p.id == pair_id && is_leased p.status && is_some_of p.leased_to client_id

module _ {F : Type 0} where
  -- the early returns, in order; `accepted` means that none was taken
  unfoldable pub guard_result : ℕ → PairRow → TestRow F → Option ClientRow → SubmitStatus
  guard_result client_id p t none = SubmitStatus.unknown_client
  guard_result client_id p t (some c) =
      let mine = is_some_of p.leased_to client_id in
      if is_banned c.status
      then client_banned
      else if is_completed p.status && mine
      then already_completed
      else if not (is_running t.status)
      then test_finished
      else if not (is_leased p.status) || not mine
      then lease_lost
      else accepted

  -- one INSERT INTO games with its game_pgns; `none` is a breach of UNIQUE (pair_id, game_in_pair)
  unfoldable pub insert_game :
      (String → String) → ℕ → ℕ → ℕ → GameReport → GameVerdict → Db F → Option (Db F)
  insert_game gzip pair_id test_id client_id game v db =
      if any (λ g. g.pair_id == pair_id && g.report.game_in_pair == game.game_in_pair) db.games
      then none
      else some (record db {
        games =
            db.games
            ++ record {
              id = db.next_game;
              pair_id = pair_id;
              test_id = test_id;
              client_id = client_id;
              report = game;
              valid = v.valid;
              invalid_reason = if v.valid then none else some v.reason;
            }
              ∷ [];
        pgns = db.pgns ++ record { game_id = db.next_game; pgn_gz = gzip game.pgn } ∷ [];
        next_game = db.next_game + 1;
      })

abbrev pub is_accepted : SubmitStatus → Bool
is_accepted accepted = true
is_accepted _ = false

-- `expect_rows(1)` throws unless the update met one row.
unfoldable pub close_pair : {F : Type 0} → ℕ → ℕ → ℕ → Db F → Option (Db F)
close_pair now pair_id client_id db =
    if count_where (is_lease pair_id client_id) db.pairs == 1
    then some (record db {
      pairs = update_where (is_lease pair_id client_id) (complete_row now) db.pairs;
    })
    else none

-- 1 for each valid game
abbrev pub valid_count : GameVerdict × GameVerdict → ℕ
valid_count v = bit v.0.valid + bit v.1.valid

module _ {F : Type 0} (sv : Services F) where
  -- what follows the guards
  unfoldable pub record_result : ℕ → ℕ → ℕ → PairReport → Db F → Option (SubmitResult × Db F)
  record_result now pair_id test_id r db = close_pair now pair_id r.client_id db >>= λ closed.
      insert_game sv.gzip_compress pair_id test_id r.client_id r.game0 (check_pair r).0 closed
      >>= λ one.
          insert_game sv.gzip_compress pair_id test_id r.client_id r.game1 (check_pair r).1 one
          >>= λ two. refresh_test sv now test_id two >>= λ done.
              some (record { status = accepted; valid_games = valid_count (check_pair r) }, done)

  unfoldable pub submit_result : ℕ → ℕ → PairReport → Db F → Option (SubmitResult × Db F)
  submit_result now pair_id r db = elim (pair_by_id pair_id db) [
    | none ↦ some (refused pair_not_found, db)
    | some p ↦ elim (test_by_id p.test_id db) [
      | none ↦ some (refused pair_not_found, db)
      | some t ↦
          let verdict = guard_result r.client_id p t (client_by_id r.client_id db) in
          if is_accepted verdict
          then record_result now pair_id p.test_id r db
          else some (refused verdict, db)
    ]
  ]
