-- ===== src/Server/Http/Atomic.antt =====
-- An error answer changes nothing: the routes of server/http/routes.cpp and admin_routes.cpp that
-- write, under `guarded`.
use capi_net.Base.{
  ℕ, ◌≡◌, ◌<◌, refl, arith, ◌⊎◌, inl, inr, Option, none, some, String, ltb, Bool-cases,
  Option-cases,
}
use text.Mathlib.Text.{◌==◌ as str_eq}
use capi_net.Base.Int.{ℤ}
use capi_net.Server.Types.{TestSpec, PairReport}
use capi_net.Server.Schema.{Db}
use capi_net.Server.Clients.{heartbeat}
use capi_net.Server.Admin.{insert_test, set_priority, stop_test, stop_live}
use capi_net.Server.Queue.Submit.{SubmitResult, submit_result}
use capi_net.Server.Queue.Submit.Cases.{Recorded, Refused, submit-cases}
use capi_net.Server.Spec.{Parsed, spec_error, parsed, Numbers}
use capi_net.Server.Github.{Resolved, resolved, github_error}
use capi_net.Server.Http.{
  Result, Thrown, throws, returns, bad_request, broken_connection, other_exception, and_then,
  or_throw, Response, Request, guarded, send_error,
}
use capi_net.Server.Http.Site.{Site}
use capi_net.Server.Http.Routes.{heartbeat_route, beaten, factor_of, result_route, submitted}
use capi_net.Server.Http.Admin.{
  create_test, with_commits, with_positions, with_spec, create_route, priority_route,
  priority_answer, stop_route, stopped_answer,
}

-- the answer is no error, or the database is as it was
abbrev pub DoneOrKept : {F : Type 0} → Db F → Response F × Db F → Type 0
DoneOrKept db x = (x.0.status < 400) ⊎ (x.1 ≡ db)

module _ {F : Type 0} (db : Db F) where
  guarded-throws : (e : Thrown) → DoneOrKept db (guarded (throws e) db)
  unfolding guarded
  guarded-throws (bad_request m) = inr refl
  guarded-throws broken_connection = inr refl
  guarded-throws other_exception = inr refl

  then-DoneOrKept {ℓ} :
      {A : Type ℓ} (r : Result A) (f : A → Result (Response F × Db F))
      → ((a : A) → DoneOrKept db (guarded (f a) db))
      → DoneOrKept db (guarded (and_then r f) db)
  unfolding and_then
  then-DoneOrKept (throws e) f h = guarded-throws e
  then-DoneOrKept (returns a) f h = h a

  returns-DoneOrKept :
      (x : Response F × Db F) → DoneOrKept db x → DoneOrKept db (guarded (returns x) db)
  unfolding guarded
  returns-DoneOrKept x h = h

  module _ (s : Site F) where
    heartbeat-DoneOrKept :
        (now id : ℕ) (f : Option ℕ) → DoneOrKept db (beaten (heartbeat now id f db))
    unfolding heartbeat send_error
    heartbeat-DoneOrKept now id f = ground arith

    submit-DoneOrKept :
        (pair_id : ℕ) (r : PairReport)
        → DoneOrKept db (
            guarded
              (and_then
                (or_throw (submit_result s.services s.now pair_id r db))
                λ x. returns (submitted x))
              db)
    unfolding guarded and_then or_throw
    submit-DoneOrKept pair_id r =
        elim (Option-cases (submit_result s.services s.now pair_id r db)) [
          | inl e ↦ rw e (inr refl)
          | inr (x, e) ↦
              rw e (submitted-DoneOrKept x (submit-cases s.services s.now pair_id r db {x = x} e))
        ]
      where
        submitted-DoneOrKept :
            (x : SubmitResult × Db F)
            → Refused s.services s.now pair_id r db x ⊎ Recorded s.services s.now pair_id r db x
            → DoneOrKept db (submitted x)
        submitted-DoneOrKept x (inl h) = inr h.unchanged
        submitted-DoneOrKept x (inr h) = rw h.status (inl (omega arith))

    priority-DoneOrKept :
        (id : ℕ) (p : ℤ) → DoneOrKept db (priority_answer p (set_priority id p db))
    unfolding set_priority send_error
    priority-DoneOrKept id p = ground arith

    stop-DoneOrKept : (id : ℕ) → DoneOrKept db (stopped_answer (stop_test s.now id db))
    unfolding stop_test stop_live send_error
    stop-DoneOrKept id = ground arith

    create-DoneOrKept :
        (spec : TestSpec F) (c b : String) → DoneOrKept db (guarded (create_test s spec c b db) db)
    unfolding create_test
    create-DoneOrKept spec c b = elim (Bool-cases (str_eq c b)) [
      | inl e ↦ rw e (returns-DoneOrKept _ (inr refl))
      | inr e ↦ rw e (
          then-DoneOrKept s.connection _ λ _.
            then-DoneOrKept (or_throw (insert_test s.services s.now spec c b db)) _
              λ x. returns-DoneOrKept _ (inl (omega arith)))
    ]

    commits-DoneOrKept :
        (spec : TestSpec F) (c b : Resolved)
        → DoneOrKept db (guarded (with_commits s spec c b db) db)
    unfolding with_commits
    commits-DoneOrKept spec (github_error m missing) b = returns-DoneOrKept _ (inr refl)
    commits-DoneOrKept spec (resolved c) (github_error m missing) = returns-DoneOrKept _ (inr refl)
    commits-DoneOrKept spec (resolved c) (resolved b) = create-DoneOrKept spec c b

    positions-DoneOrKept :
        (spec : TestSpec F) (o : Option ℕ) (resolve : String → Resolved)
        → DoneOrKept db (guarded (with_positions s spec o resolve db) db)
    unfolding with_positions
    positions-DoneOrKept spec none resolve = returns-DoneOrKept _ (inr refl)
    positions-DoneOrKept spec (some available) resolve =
        elim (Bool-cases (ltb available spec.total_pairs)) [
          | inl f ↦ rw f (returns-DoneOrKept _ (inr refl))
          | inr f ↦
              rw f
                (commits-DoneOrKept spec (resolve spec.candidate_ref) (resolve spec.baseline_ref))
        ]

    with_spec-DoneOrKept :
        (p : Parsed (TestSpec F)) (book : String → Option ℕ) (resolve : String → Resolved)
        → DoneOrKept db (guarded (with_spec s p book resolve db) db)
    unfolding with_spec
    with_spec-DoneOrKept (spec_error m) book resolve = returns-DoneOrKept _ (inr refl)
    with_spec-DoneOrKept (parsed spec) book resolve =
        positions-DoneOrKept spec (book spec.book_name) resolve

    -- Whatever a request holds, the guarded routes of heartbeats, results, new tests, priorities
    -- and stops either answer with a status below 400 or leave the database as it was, exceptions
    -- included.
    pub routes-DoneOrKept :
        (num : Numbers F) (book : String → Option ℕ) (resolve : String → Resolved) (req : Request F)
        → DoneOrKept db (guarded (heartbeat_route s req db) db)
          × DoneOrKept db (guarded (result_route s req db) db)
          × DoneOrKept db (guarded (create_route s num book resolve req db) db)
          × DoneOrKept db (guarded (priority_route s req db) db)
          × DoneOrKept db (guarded (stop_route s req db) db)
    unfolding heartbeat_route result_route create_route priority_route stop_route
    routes-DoneOrKept num book resolve req = (
      then-DoneOrKept _ _ λ j. then-DoneOrKept _ _ λ f. then-DoneOrKept _ _ λ _.
          then-DoneOrKept _ _ λ _.
            then-DoneOrKept _ _
              λ id. returns-DoneOrKept _ (heartbeat-DoneOrKept s.now id (factor_of s f)),
      then-DoneOrKept _ _ λ id.
          then-DoneOrKept _ _
            λ j. then-DoneOrKept _ _ λ r. then-DoneOrKept _ _ λ _. submit-DoneOrKept id r,
      then-DoneOrKept _ _ λ j. with_spec-DoneOrKept _ book resolve,
      then-DoneOrKept _ _ λ j. then-DoneOrKept _ _ λ p.
          then-DoneOrKept _ _
            λ _. then-DoneOrKept _ _ λ id. returns-DoneOrKept _ (priority-DoneOrKept id p),
      then-DoneOrKept _ _ λ id. then-DoneOrKept _ _ λ _. returns-DoneOrKept _ (stop-DoneOrKept id),
    )
