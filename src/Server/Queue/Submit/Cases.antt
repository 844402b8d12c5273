-- ===== src/Server/Queue/Submit/Cases.antt =====
-- What a call of `submit_result` that returned has done.
use capi_net.Base.{
  ℕ, ◌≡◌, ◌⊎◌, inl, inr, true, false, some, arith, Bool-cases, Option-cases, some_inj, >>=-eq-some,
  ap, sym, ◌∙◌,
}
use capi_net.Server.Types.{PairReport}
use capi_net.Server.Schema.{TestRow, PairRow, Db, Services, test_by_id, client_by_id, pair_by_id}
use capi_net.Server.Sanity.{check_pair}
use capi_net.Server.Lifecycle.{refresh_test}
use capi_net.Server.Queue.Submit.{
  SubmitResult, is_accepted, guard_result, close_pair, insert_game, record_result, submit_result,
  accepted, valid_count,
}

module _ {F : Type 0} (sv : Services F) (now pair_id : ℕ) (r : PairReport) (db : Db F) where
  -- The four steps of an accepted result.
  pub record Recorded (x : SubmitResult × Db F) : Type 0 where
    pub pair : PairRow
    pub test : TestRow F
    pub closed : Db F
    pub one : Db F
    pub two : Db F
    pub pair_found : pair_by_id pair_id db ≡ some pair
    pub test_found : test_by_id pair.test_id db ≡ some test
    pub guarded :
        is_accepted (guard_result r.client_id pair test (client_by_id r.client_id db)) ≡ true
    pub closes : close_pair now pair_id r.client_id db ≡ some closed
    pub first :
        insert_game sv.gzip_compress pair_id pair.test_id r.client_id r.game0
          (check_pair r).0
          closed
        ≡ some one
    pub second :
        insert_game sv.gzip_compress pair_id pair.test_id r.client_id r.game1 (check_pair r).1 one
        ≡ some two
    pub refreshed : refresh_test sv now pair.test_id two ≡ some x.1
    pub status : x.0.status ≡ accepted
    pub counted : x.0.valid_games ≡ valid_count (check_pair r)

  -- A refused result changes nothing.
  pub record Refused (x : SubmitResult × Db F) : Type 0 where
    pub status : is_accepted x.0.status ≡ false
    pub unchanged : x.1 ≡ db
    pub no_games : x.0.valid_games ≡ 0

  pub submit-cases :
      {x : SubmitResult × Db F}
      → submit_result sv now pair_id r db ≡ some x
      → Refused x ⊎ Recorded x
  unfolding submit_result record_result
  submit-cases {x} h = elim (Option-cases (pair_by_id pair_id db)) [
    | inl e ↦
        inl (record { status = ground arith; unchanged = ground arith; no_games = ground arith })
    | inr (p, e) ↦ elim (Option-cases (test_by_id p.test_id db)) [
      | inl d ↦
          inl (record { status = ground arith; unchanged = ground arith; no_games = ground arith })
      | inr (t, d) ↦
          elim (Bool-cases
            (is_accepted (guard_result r.client_id p t (client_by_id r.client_id db)))) [
              | inr g ↦ inl (record {
                status = ground arith;
                unchanged = ground arith;
                no_games = ground arith;
              })
              | inl g ↦
                  let recorded : record_result sv now pair_id p.test_id r db ≡ some x =
                    ground arith in
                  let (closed, e0, h0) =
                    >>=-eq-some (close_pair now pair_id r.client_id db) _ recorded in
                  let (one, e1, h1) = >>=-eq-some (insert_game _ _ _ _ _ _ closed) _ h0 in
                  let (two, e2, h2) = >>=-eq-some (insert_game _ _ _ _ _ _ one) _ h1 in
                  let (done, e3, h3) = >>=-eq-some (refresh_test sv now p.test_id two) _ h2 in
                  let last = some_inj h3 in
                  inr (record {
                    pair = p;
                    test = t;
                    closed = closed;
                    one = one;
                    two = two;
                    pair_found = e;
                    test_found = d;
                    guarded = g;
                    closes = e0;
                    first = e1;
                    second = e2;
                    refreshed = e3 ∙ ap (λ y. some y.1) last;
                    status = ap (λ y. y.0.status) (sym last);
                    counted = ap (λ y. y.0.valid_games) (sym last);
                  })
            ]
    ]
  ]
