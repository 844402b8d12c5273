-- ===== src/Server/Queue/Submit/Retry.antt =====
-- A result that is sent again after it was accepted.
use capi_net.Base.{
  ℕ, ◌≡◌, refl, ◌∙◌, ap, inl, inr, true, false, Option, none, some, List, arith, ◌==◌,
  if◌then◌else◌, Bool-cases, find_first, find_first-key, find_first-update, Extends, fresh, kept,
  is_some_of, update_where, String,
}
use capi_net.Server.Types.{PairReport, GameReport, is_banned, is_leased}
use capi_net.Server.Schema.{
  TestRow, ClientRow, PairRow, Db, Services, test_by_id, client_by_id, pair_by_id,
}
use capi_net.Server.Sanity.{GameVerdict}
use capi_net.Server.Lifecycle.Frame.{refresh_test-Frame}
use capi_net.Server.Evolution.{TestsInv, Evolves, IsNew, Advances-same}
use capi_net.Server.Evolution.Steps.{refresh_test-Advances}
use capi_net.Server.Queue.Submit.{
  SubmitResult, refused, accepted, already_completed, is_accepted, guard_result, close_pair,
  insert_game, submit_result, is_lease, complete_row,
}
use capi_net.Server.Queue.Submit.Cases.{submit-cases}

extended-find :
    {F : Type 0} (k : ℕ) {ts us : List (TestRow F)} {t : TestRow F}
    → Extends Evolves IsNew ts us
    → find_first (λ u. u.id == k) ts ≡ some t
    → (u : TestRow F) × (find_first (λ u. u.id == k) us ≡ some u)
extended-find k (fresh a) h = absurd (ground arith)
extended-find k {t = t} (kept {x} {y} r d) h =
    let id = r.id in
    elim (Bool-cases (x.id == k)) [
      | inl e ↦ (y, ground arith)
      | inr e ↦ let (u, f) = extended-find k {t = t} d (ground arith) in (u, ground arith)
    ]

found_closed :
    (now k c : ℕ) (ps : List PairRow) {p : PairRow}
    → find_first (λ q. q.id == k) ps ≡ some p
    → is_leased p.status ≡ true
    → is_some_of p.leased_to c ≡ true
    → find_first (λ q. q.id == k) (update_where (is_lease k c) (complete_row now) ps)
      ≡ some (complete_row now p)
found_closed now k c ps {p} e l m =
    let key = find_first-key (λ q. q.id) k ps e in
    let test : is_lease k c p ≡ true = ground arith in
    find_first-update (λ q. q.id) (is_lease k c) (complete_row now) (λ _. refl) k ps e
    ∙ ap (λ b. some (if b then complete_row now p else p)) test

module _ {F : Type 0} where
  -- What the steps of an accepted result leave of the tables that the guards read.
  record Kept (db db' : Db F) : Type 0 where
    pub tests : db'.tests ≡ db.tests
    pub next_test : db'.next_test ≡ db.next_test
    pub clients : db'.clients ≡ db.clients

  insert_game-Kept :
      (gzip : String → String) (p k c : ℕ) (g : GameReport) (v : GameVerdict) (db : Db F)
      {db' : Db F}
      → insert_game gzip p k c g v db ≡ some db'
      → Kept db db' × (db'.pairs ≡ db.pairs)
  unfolding insert_game
  insert_game-Kept gzip p k c g v db h = (
    record { tests = ground arith; next_test = ground arith; clients = ground arith },
    ground arith,
  )

  close-Kept :
      (now p c : ℕ) (db : Db F) {db' : Db F}
      → close_pair now p c db ≡ some db'
      → Kept db db' × (db'.pairs ≡ update_where (is_lease p c) (complete_row now) db.pairs)
  unfolding close_pair
  close-Kept now p c db h = (
    record { tests = ground arith; next_test = ground arith; clients = ground arith },
    ground arith,
  )

  accepted-facts :
      (k : ℕ) (p : PairRow) (t : TestRow F) (c : Option ClientRow)
      → is_accepted (guard_result k p t c) ≡ true
      → (row : ClientRow) × (c ≡ some row)
        × (is_banned row.status ≡ false)
        × (is_leased p.status ≡ true)
        × (is_some_of p.leased_to k ≡ true)
  unfolding guard_result
  accepted-facts k p t none h = absurd (ground arith)
  accepted-facts k p t (some row) h = (row, refl, ground arith, ground arith, ground arith)

  settled-answer :
      (k now : ℕ) (p : PairRow) (t : TestRow F) (row : ClientRow)
      → is_banned row.status ≡ false
      → is_some_of p.leased_to k ≡ true
      → guard_result k (complete_row now p) t (some row) ≡ already_completed
  unfolding guard_result
  settled-answer k now p t row b m = ground arith

module _ {F : Type 0} (sv : Services F) where
  answers_again :
      (now later k : ℕ) (r : PairReport) (db : Db F) (p : PairRow) (t : TestRow F) (row : ClientRow)
      → pair_by_id k db ≡ some (complete_row now p)
      → test_by_id p.test_id db ≡ some t
      → client_by_id r.client_id db ≡ some row
      → is_banned row.status ≡ false
      → is_some_of p.leased_to r.client_id ≡ true
      → submit_result sv later k r db ≡ some (refused already_completed, db)
  unfolding submit_result
  answers_again now later k r db p t row e f g b m =
      let again = settled-answer r.client_id now p t row b m in
      rw (e, submit_result) (rw f (rw g (rw again refl)))

  -- Once a result has been accepted in a state whose tests meet the invariant, sending the same
  -- report again at any later time, with nothing in between, is answered with already_completed and
  -- changes nothing.
  pub submit_result-again :
      (now later k : ℕ) (r : PairReport) (db : Db F) {x : SubmitResult × Db F}
      → TestsInv db
      → submit_result sv now k r db ≡ some x
      → x.0.status ≡ accepted
      → submit_result sv later k r x.1 ≡ some (refused already_completed, x.1)
  submit_result-again now later k r db {x} i h ok = elim (submit-cases sv now k r db h) [
    | inl no_change ↦ let s = no_change.status in absurd (ground arith)
    | inr s ↦
        let (row, c, b, l, m) = accepted-facts r.client_id s.pair s.test _ s.guarded in
        let (k0, e0) = close-Kept now k r.client_id db s.closes in
        let (k1, e1) = insert_game-Kept _ _ _ _ _ _ s.closed s.first in
        let (k2, e2) = insert_game-Kept _ _ _ _ _ _ s.one s.second in
        let f = refresh_test-Frame sv now s.pair.test_id s.two s.refreshed in
        let tests = k2.tests ∙ k1.tests ∙ k0.tests in
        let next = k2.next_test ∙ k1.next_test ∙ k0.next_test in
        let (_, grown) =
          refresh_test-Advances sv now s.pair.test_id s.two s.refreshed
            (Advances-same db s.two tests next i).0 in
        let there : find_first (λ u. u.id == s.pair.test_id) s.two.tests ≡ some s.test =
          ap (find_first (λ u. u.id == s.pair.test_id)) tests ∙ s.test_found in
        let (t, found) = extended-find s.pair.test_id grown there in
        answers_again now later k r x.1 s.pair t row
          (ap (find_first (λ q. q.id == k)) (f.pairs ∙ e2 ∙ e1 ∙ e0)
            ∙ found_closed now k r.client_id db.pairs s.pair_found l m)
          found
          (ap (find_first (λ u. u.id == r.client_id))
              (f.clients ∙ k2.clients ∙ k1.clients ∙ k0.clients)
            ∙ c)
          b m
  ]
