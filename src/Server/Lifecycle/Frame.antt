-- ===== src/Server/Lifecycle/Frame.antt =====
-- What a refresh and a promotion leave alone: all but the tests, their statistics and history.
use capi_net.Base.{
  ℕ, ◌≡◌, refl, ◌∙◌, subst, inl, inr, List, Option, some, ◌==◌, if◌then◌else◌, Bool-cases,
  Option-cases, >>=-eq-some, some_inj,
}
use capi_net.Server.Penta.{Pentanomial}
use capi_net.Server.Types.{is_running, TestResult}
use capi_net.Server.Schema.{
  TestRow, Db, Services, EloEstimate, test_by_id, SprtDecision, accept_h0, accept_h1, keep_going,
}
use capi_net.Server.Lifecycle.{
  promote_next_test, next_queued, finish_test, stop_rule, refresh_row, refresh_test, store_stats,
  SprtState, remaining_pairs, read_penta, elo_state, sprt_state,
}

module _ {F : Type 0} where
  pub record Frame (db db' : Db F) : Type 0 where
    pub clients : db'.clients ≡ db.clients
    pub positions : db'.positions ≡ db.positions
    pub pairs : db'.pairs ≡ db.pairs
    pub games : db'.games ≡ db.games
    pub next_pair : db'.next_pair ≡ db.next_pair
    pub next_game : db'.next_game ≡ db.next_game

  pub Frame-refl : (db : Db F) → Frame db db
  Frame-refl db = record {
    clients = refl;
    positions = refl;
    pairs = refl;
    games = refl;
    next_pair = refl;
    next_game = refl;
  }

  pub Frame-trans : (a b c : Db F) → Frame a b → Frame b c → Frame a c
  Frame-trans a b c f g = record {
    clients = g.clients ∙ f.clients;
    positions = g.positions ∙ f.positions;
    pairs = g.pairs ∙ f.pairs;
    games = g.games ∙ f.games;
    next_pair = g.next_pair ∙ f.next_pair;
    next_game = g.next_game ∙ f.next_game;
  }

  pub Frame-tests : (db : Db F) {ts : List (TestRow F)} → Frame db (record db { tests = ts })
  Frame-tests db = record {
    clients = refl;
    positions = refl;
    pairs = refl;
    games = refl;
    next_pair = refl;
    next_game = refl;
  }

  pub promote-Frame : (now : ℕ) (db : Db F) → Frame db (promote_next_test now db).0
  unfolding promote_next_test
  promote-Frame now db = elim (Option-cases (next_queued db)) [
    | inl e ↦ rw (e, promote_next_test) (Frame-refl db)
    | inr (t, e) ↦ rw (e, promote_next_test) (Frame-tests db)
  ]

  finish-Frame : (now k : ℕ) (r : TestResult) (db : Db F) → Frame db (finish_test now k r db)
  unfolding finish_test
  finish-Frame now k r db = Frame-trans db _ _ (Frame-tests db) (promote-Frame now _)

  stop_rule-Frame :
      (now : ℕ) (t : TestRow F) (d : SprtDecision) (db : Db F) → Frame db (stop_rule now t d db)
  unfolding stop_rule
  stop_rule-Frame now t accept_h1 db = finish-Frame now _ _ db
  stop_rule-Frame now t accept_h0 db = finish-Frame now _ _ db
  stop_rule-Frame now t keep_going db = elim (Bool-cases (remaining_pairs t.id db == 0)) [
    | inl z ↦ rw z (finish-Frame now _ _ db)
    | inr z ↦ rw z (Frame-refl db)
  ]

  store_stats-Frame :
      (now k : ℕ) (p : Pentanomial) (elo : Option (EloEstimate F)) (s : SprtState F) (db : Db F)
      → Frame db (store_stats now k p elo s db)
  unfolding store_stats
  store_stats-Frame now k p elo s db = record {
    clients = refl;
    positions = refl;
    pairs = refl;
    games = refl;
    next_pair = refl;
    next_game = refl;
  }

  settle-Frame :
      (now : ℕ) (t : TestRow F) (p : Pentanomial) (elo : Option (EloEstimate F)) (s : SprtState F)
      (db : Db F)
      → let stored = store_stats now t.id p elo s db in
        Frame db (if is_running t.status then stop_rule now t s.decision stored else stored)
  settle-Frame now t p elo s db = elim (Bool-cases (is_running t.status)) [
    | inl r ↦ rw r (
        Frame-trans db _ _ (store_stats-Frame now t.id p elo s db)
          (stop_rule-Frame now t s.decision _))
    | inr r ↦ rw r (store_stats-Frame now t.id p elo s db)
  ]

module _ {F : Type 0} (sv : Services F) where
  refresh_row-Frame :
      (now : ℕ) (t : TestRow F) (db : Db F) {db' : Db F}
      → refresh_row sv now t db ≡ some db'
      → Frame db db'
  unfolding refresh_row
  refresh_row-Frame now t db {db'} h =
      let (penta, _, h1) = >>=-eq-some (read_penta t.id db) _ h in
      let (elo, _, h2) = >>=-eq-some (elo_state sv penta) _ h1 in
      let (s, _, h3) = >>=-eq-some (sprt_state sv t penta) _ h2 in
      subst (Frame db) (some_inj h3) (settle-Frame now t penta elo s db)

  pub refresh_test-Frame :
      (now k : ℕ) (db : Db F) {db' : Db F} → refresh_test sv now k db ≡ some db' → Frame db db'
  unfolding refresh_test
  refresh_test-Frame now k db {db'} h = elim (Option-cases (test_by_id k db)) [
    | inl e ↦ subst (Frame db) (some_inj (rw (e, refresh_test) at h)) (Frame-refl db)
    | inr (t, e) ↦ refresh_row-Frame now t db (rw (e, refresh_test) at h)
  ]
