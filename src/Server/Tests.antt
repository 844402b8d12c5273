-- ===== src/Server/Tests.antt =====
-- The server's theorems, applied to the database of `Server.Samples`.
use capi_net.Base.{String}
use capi_net.Server.Github.{is_full_sha}
use capi_net.Server.Types.{JobStatus, leased, discarded, banned}
use capi_net.Server.Queue.Claim.{banned_client}
use capi_net.Base.{
  Option, min, ◌+◌, none, true, false, List, [], ◌∷◌, ◌↔◌, ltb, length, count_where, ℕ, ◌≤◌, ◌≡◌,
  refl, some, arith, update_where, ◌==◌,
}
use capi_net.Server.Schema.{Db, TestRow}
use capi_net.Server.Lifecycle.{promote_next_test, start_test, next_queued}
use capi_net.Server.Lifecycle.Promotion.{IsNext, promote_picks_first, promote_starts}
use capi_net.Server.System.{Event, claims, submits, recovers, stops, run}
use capi_net.Server.Evolution.{TestsInv, TestsExtend}
use capi_net.Server.Evolution.Transactions.{run-TestsInv, run-TestsExtend}
use capi_net.Server.Pairs.{PairsInv, PairsExtend}
use capi_net.Server.Pairs.Runs.{run-PairsInv, run-PairsExtend}
use capi_net.Server.Samples.{
  sample_doubles, sample_presets, sample_client, sample_test, sample_db, idle_db, sample_services,
  sample_config, sample_report,
}
use capi_net.Base.Int.{pos}
use capi_net.Server.Types.{TestSpec, sprt, gainer, running}
use capi_net.Server.Stats.{bisect, real_services}
use capi_net.Server.Stats.Laws.{bisect-bracket}
use capi_net.Server.Spec.{
  codes, parsed, Json, Body, object, Numbers, chain, demand, split_plus, valid_ref, valid_book_name,
  has_dots, to_int,
}
use capi_net.Server.Spec.Parse.{
  parse_test_spec, parse_fields, parse_subject, parse_conditions, rules_of, get, opt_string,
  req_string, opt_integer, opt_number, parse_tc, parse_seconds,
}
use capi_net.Server.Spec.Accepted.{IsAccepted, parse_test_spec-IsAccepted, parse_test_spec-inserts}
use capi_net.Server.Admin.{insert_test}
use capi_net.Server.Views.{snapshot, load_test_stats, list_tests, TestSummary}
use capi_net.Server.Views.Laws.{pairs_in, load_test_stats-pairs, list_tests-running_first}
use capi_net.Server.Penta.{category_from_pair_score, add, pairs}
use capi_net.Server.Outcomes.{
  pair_outcomes, outcomes_from, outcomes_of, tallies, tally_game, group_scores, count_score,
  add_scores, count_games,
}
use capi_net.Server.Lifecycle.{
  refresh_test, refresh_row, read_penta, elo_state, sprt_state, store_stats, upsert_stats,
  append_history, last_pairs, stop_rule, remaining_pairs, finish_test,
}
use capi_net.Server.Sanity.{check_pair, check_game, max_plausible_duration_ms, same_bool}
use capi_net.Server.Sanity.Plausible.{IsPlausible, check_pair-IsPlausible}
use capi_net.Server.Queue.Claim.{claim_pairs, caller}
use capi_net.Server.Queue.Claim.Bounds.{claim_pairs-bounds, claim_pairs-refused}
use capi_net.Server.Queue.Submit.{
  SubmitStatus, SubmitResult, refused, already_completed, submit_result, record_result,
  guard_result, close_pair, insert_game,
}
use capi_net.Server.Queue.Submit.Retry.{submit_result-again}
use capi_net.Server.Books.{sample_book, count_book_positions}
use capi_net.Server.Books.Sampled.{sample_book-length}
use capi_net.Server.Queue.Leases.{LeaseRecovery, is_expired, recover_expired_leases, refresh_all}
use capi_net.Server.Pairs.Recovery.{recover_expired_leases-clears}

-- a position with white to move and eight empty ranks
abbrev codes_of_start : List ℕ
codes_of_start = codes "8/8/8/8/8/8/8/8 w - - 0 1"

abbrev sample_events : List (ℕ × Event ℕ)
sample_events =
    (20, claims (λ _. false) 1 2)
    ∷ (30, submits 1 sample_report)
    ∷ (9000, recovers (λ _. false))
    ∷ (9001, stops 1)
    ∷ []

sample_db-TestsInv : TestsInv sample_db
sample_db-TestsInv = record {
  distinct = ((omega arith, (omega arith, tt)), ((omega arith, tt), (tt, tt)));
  below = (omega arith, (omega arith, (omega arith, tt)));
  single = omega arith;
  settled = (refl, (refl, (refl, tt)));
}

sample_db-PairsInv : PairsInv sample_db
sample_db-PairsInv = record {
  distinct = ((omega arith, tt), (tt, tt));
  below = (omega arith, (omega arith, tt));
  sound = ((refl, refl, refl), ((refl, refl, refl), tt));
}

promote_picks_first_example :
    (t : TestRow ℕ) × (t.id ≡ 3)
    × IsNext idle_db.tests t
    × ((promote_next_test 9 idle_db).0.tests
        ≡ update_where (λ u. u.id == 3) (start_test 9) idle_db.tests)
unfolding promote_next_test next_queued
promote_picks_first_example = promote_picks_first 9 idle_db refl

promote_starts_example : (k : ℕ) × ((promote_next_test 9 idle_db).1 ≡ some k)
promote_starts_example = promote_starts 9 idle_db refl refl

run-TestsInv_example : TestsInv (run sample_services sample_config sample_events sample_db)
run-TestsInv_example =
    run-TestsInv sample_services sample_config sample_events sample_db sample_db-TestsInv

run-TestsExtend_example :
    TestsExtend sample_db (run sample_services sample_config sample_events sample_db)
run-TestsExtend_example =
    run-TestsExtend sample_services sample_config sample_events sample_db sample_db-TestsInv

run-PairsInv_example : PairsInv (run sample_services sample_config sample_events sample_db)
run-PairsInv_example =
    run-PairsInv sample_services sample_config sample_events sample_db sample_db-PairsInv

run-PairsExtend_example :
    PairsExtend sample_db (run sample_services sample_config sample_events sample_db)
run-PairsExtend_example =
    run-PairsExtend sample_services sample_config sample_events sample_db sample_db-PairsInv

-- whole numbers as doubles, where a literal is 1
abbrev sample_numbers : Numbers ℕ
sample_numbers = record { strtod = λ cs. some (length cs); llround = λ n. n }

abbrev sample_body : Body ℕ
sample_body = object (
    ("kind", Json.string "sprt")
    ∷ ("candidate_ref", Json.string "feature/lmr")
    ∷ ("baseline_ref", Json.string "v2.1.0")
    ∷ ("tc", Json.string "10+0.1")
    ∷ ("book_name", Json.string "UHO.epd")
    ∷ ("total_pairs", Json.integer (pos 15000))
    ∷ ("preset", Json.string "gainer")
    ∷ ("name", Json.string "LMR tweak")
    ∷ [])

abbrev parsed_spec : TestSpec ℕ
parsed_spec = record {
  name = "LMR tweak";
  kind = sprt;
  candidate_ref = "feature/lmr";
  baseline_ref = "v2.1.0";
  tc_base_ms = 10;
  tc_increment_ms = 15;
  hash_mb = 16;
  book_name = "UHO.epd";
  total_pairs = 15000;
  sprt_preset = some gainer;
  sprt_elo0 = some 0;
  sprt_elo1 = some 5;
  sprt_alpha = some 5;
  sprt_beta = some 5;
  priority = pos 0;
  submitted_by = none;
}

sample_body-parses :
    parse_test_spec sample_doubles sample_numbers sample_body sample_presets ≡ parsed parsed_spec
unfolding parse_test_spec parse_fields parse_subject parse_conditions rules_of chain demand get
    opt_string req_string opt_integer opt_number parse_tc parse_seconds split_plus valid_ref
    valid_book_name has_dots to_int
sample_body-parses = refl

parse_test_spec-IsAccepted_example : IsAccepted sample_doubles parsed_spec
parse_test_spec-IsAccepted_example =
    parse_test_spec-IsAccepted sample_doubles sample_numbers sample_body sample_presets
      sample_body-parses

abbrev sample_sha : String
sample_sha = "0123456789abcdef0123456789abcdef01234567"

parse_test_spec-inserts_example :
    (next : Db ℕ) × (insert_test
        (real_services sample_doubles (λ s. s))
        7
        parsed_spec
        sample_sha
        "89abcdef0123456789abcdef0123456789abcdef"
        sample_db
      ≡ some (4, next))
unfolding is_full_sha
parse_test_spec-inserts_example =
    parse_test_spec-inserts sample_doubles sample_numbers (λ s. s) sample_body sample_presets 7
      sample_sha "89abcdef0123456789abcdef0123456789abcdef" sample_db sample_body-parses refl refl
      refl

bisect-bracket_example :
    (ltb (bisect sample_doubles (λ x. ltb x 3) 4 0 9).0 3 ≡ true)
    × (ltb (bisect sample_doubles (λ x. ltb x 3) 4 0 9).1 3 ≡ false)
bisect-bracket_example = bisect-bracket sample_doubles (λ x. ltb x 3) 4 0 9 refl refl

load_test_stats-pairs_example :
    let s = snapshot (sample_test 1 running) none sample_db in
    (s.test_id ≡ 1)
    × (s.pairs_pending ≡ length (pairs_in 1 JobStatus.pending sample_db))
    × (s.pairs_leased ≡ length (pairs_in 1 leased sample_db))
    × (s.pairs_completed ≡ length (pairs_in 1 JobStatus.completed sample_db))
    × (s.pairs_discarded ≡ length (pairs_in 1 discarded sample_db))
    × (s.pairs_pending + s.pairs_leased + s.pairs_completed + s.pairs_discarded
        ≡ count_where (λ q. q.test_id == 1) sample_db.pairs)
unfolding load_test_stats
load_test_stats-pairs_example = load_test_stats-pairs 1 sample_db refl

list_tests-running_first_example :
    (s : TestSummary ℕ) × (rest : List (TestSummary ℕ)) × (list_tests 2 sample_db ≡ s ∷ rest)
    × (s.status ≡ running)
list_tests-running_first_example = list_tests-running_first 2 sample_db (omega arith) refl

-- the state after the result, read off the answer
abbrev after : Option (SubmitResult × Db ℕ) → SubmitResult × Db ℕ
after none = (refused SubmitStatus.pair_not_found, sample_db)
after (some x) = x

submit_result-again_example :
    let x = after (submit_result sample_services 30 1 sample_report sample_db) in
    submit_result sample_services 40 1 sample_report x.1 ≡ some (refused already_completed, x.1)
unfolding submit_result record_result guard_result close_pair insert_game check_pair refresh_test
    refresh_row read_penta pair_outcomes outcomes_from outcomes_of tallies tally_game group_scores
    count_score add_scores category_from_pair_score elo_state sprt_state store_stats upsert_stats
    append_history last_pairs count_games stop_rule remaining_pairs finish_test promote_next_test
    next_queued check_game max_plausible_duration_ms add pairs
submit_result-again_example =
    submit_result-again sample_services 30 40 1 sample_report sample_db sample_db-TestsInv refl refl

check_pair-IsPlausible_example :
    (((check_pair sample_report).0.valid ≡ true)
      ↔ (IsPlausible sample_report.game0 × (same_bool true false ≡ false)))
    × (((check_pair sample_report).1.valid ≡ true)
        ↔ (IsPlausible sample_report.game1 × (same_bool true false ≡ false)))
check_pair-IsPlausible_example = check_pair-IsPlausible sample_report

claim_pairs-bounds_example :
    length (claim_pairs 20 600 (λ _. false) 1 3 sample_db).0.pairs ≤ min 3 sample_client.reg.slots
unfolding caller
claim_pairs-bounds_example = claim_pairs-bounds 20 600 (λ _. false) 1 3 sample_db sample_client refl

-- the client is banned
abbrev banned_db : Db ℕ
banned_db = record sample_db { clients = record sample_client { status = banned } ∷ [] }

claim_pairs-refused_example :
    ((claim_pairs 20 600 (λ _. false) 1 3 banned_db).0.status ≡ banned_client)
    × ((claim_pairs 20 600 (λ _. false) 1 3 banned_db).0.pairs ≡ [])
    × ((claim_pairs 20 600 (λ _. false) 1 3 banned_db).1 ≡ banned_db)
claim_pairs-refused_example = claim_pairs-refused 20 600 (λ _. false) 1 3 banned_db (refl, tt)

sample_book-length_example :
    length (sample_book ([] ∷ codes_of_start ∷ []) 3 7)
    ≡ min 3 (count_book_positions ([] ∷ codes_of_start ∷ []))
sample_book-length_example = sample_book-length ([] ∷ codes_of_start ∷ []) 3 7

abbrev recovery_after : Option (LeaseRecovery × Db ℕ) → LeaseRecovery × Db ℕ
recovery_after none = (record { requeued = 0; discarded_pairs = 0 }, sample_db)
recovery_after (some x) = x

recover_expired_leases-clears_example :
    let x = recovery_after (recover_expired_leases sample_services 900 (λ _. false) 3 sample_db) in
    (count_where (is_expired 900 (λ _. false)) x.1.pairs ≡ 0)
    × (x.0.requeued + x.0.discarded_pairs
        ≡ count_where (is_expired 900 (λ _. false)) sample_db.pairs)
unfolding recover_expired_leases refresh_all
recover_expired_leases-clears_example =
    recover_expired_leases-clears sample_services 900 (λ _. false) 3 sample_db refl
