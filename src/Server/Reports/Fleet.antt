-- ===== src/Server/Reports/Fleet.antt =====
-- server/reports.cpp: `test_clients` and `all_clients`. `by_name` is the database's order of
-- names; a speed is a numerator over a denominator; the times of the games are left out.
use capi_net.Base.{
  ℕ, ◌+◌, ◌*◌, Bool, true, false, not, ◌&&◌, ◌||◌, Option, none, some, List, [], ◌∷◌, map, String,
  ltb, ◌==◌, if◌then◌else◌, is_some_of, length, count_where, select, sort_by, take, set_of,
}
use capi_net.Server.Types.{ClientStatus, is_leased}
use capi_net.Server.Schema.{ClientRegistration, ClientRow, GameRow, Db}

pub record TestClient : Type 0 where
  pub client_id : ℕ
  pub reg : ClientRegistration
  pub status : ClientStatus
  pub cpu_factor : Option ℕ
  pub pairs_completed : ℕ
  pub games_invalid : ℕ
  pub pairs_leased : ℕ
  pub last_seen : ℕ
  pub online : Bool
  pub nps : Option (ℕ × ℕ)

pub record ClientSummary : Type 0 where
  pub client_id : ℕ
  pub reg : ClientRegistration
  pub status : ClientStatus
  pub last_seen : ℕ
  pub online : Bool
  pub pairs_leased : ℕ
  pub games_total : ℕ
  pub nps : Option (ℕ × ℕ)
  pub nps_games : ℕ

-- a sum of two columns, null if one is
abbrev pub both : Option ℕ → Option ℕ → Option ℕ
both (some a) (some b) = some (a + b)
both _ _ = none

abbrev pub nodes_of : GameRow → Option ℕ
nodes_of g = both g.report.candidate_nodes g.report.baseline_nodes

abbrev pub time_of : GameRow → Option ℕ
time_of g = both g.report.candidate_time_ms g.report.baseline_time_ms

-- SUM passes over nulls, and is null if there is nothing else
abbrev pub plus_value : Option ℕ → Option ℕ → Option ℕ
plus_value none s = s
plus_value (some a) none = some a
plus_value (some a) (some s) = some (a + s)

unfoldable pub sql_sum : (GameRow → Option ℕ) → List GameRow → Option ℕ
sql_sum f [] = none
sql_sum f (g ∷ gs) = plus_value (f g) (sql_sum f gs)

-- sum(nodes) / NULLIF(sum(time), 0) * 1000
abbrev pub speed : Option ℕ → Option ℕ → Option (ℕ × ℕ)
speed (some nodes) (some time) = if time == 0 then none else some (nodes * 1000, time)
speed _ _ = none

abbrev pub is_there : Option ℕ → Bool
is_there none = false
is_there (some _) = true

-- last_seen > now() - interval '2 minutes'
abbrev pub is_online : ℕ → ClientRow → Bool
is_online now c = ltb now (c.last_seen + 120_000_000)

-- ORDER BY pairs DESC, name
abbrev pub listed_before : (String → String → Bool) → TestClient → TestClient → Bool
listed_before by_name a b =
    ltb b.pairs_completed a.pairs_completed
    || (a.pairs_completed == b.pairs_completed && by_name a.reg.name b.reg.name)

-- ORDER BY online DESC, last_seen DESC
abbrev pub seen_before : ClientSummary → ClientSummary → Bool
seen_before a b =
    (a.online && not b.online) || (not (b.online && not a.online) && ltb b.last_seen a.last_seen)

module _ {F : Type 0} where
  abbrev pub games_in : ℕ → ClientRow → Db F → List GameRow
  games_in test_id c db = select (λ g. g.test_id == test_id && g.client_id == c.id) db.games

  abbrev pub leased_in : ℕ → ClientRow → Db F → ℕ
  leased_in test_id c db =
      count_where (λ p. p.test_id == test_id && is_leased p.status && is_some_of p.leased_to c.id)
        db.pairs

  -- a row of one of the LEFT JOINs
  abbrev pub took_part : ℕ → Db F → ClientRow → Bool
  took_part test_id db c = ltb 0 (length (games_in test_id c db)) || ltb 0 (leased_in test_id c db)

  unfoldable pub test_client : ℕ → ℕ → Db F → ClientRow → TestClient
  test_client now test_id db c =
      let gs = games_in test_id c db in
      record {
        client_id = c.id;
        reg = c.reg;
        status = c.status;
        cpu_factor = c.cpu_factor;
        pairs_completed = length (set_of (map (λ g. g.pair_id) gs));
        games_invalid = count_where (λ g. not g.valid) gs;
        pairs_leased = leased_in test_id c db;
        last_seen = c.last_seen;
        online = is_online now c;
        nps = speed (sql_sum nodes_of gs) (sql_sum time_of gs);
      }

  unfoldable pub test_clients : (String → String → Bool) → ℕ → ℕ → Db F → List TestClient
  test_clients by_name now test_id db =
      sort_by (listed_before by_name)
        (map (test_client now test_id db) (select (took_part test_id db) db.clients))

  -- the last games of a client, of any test
  abbrev pub recent : ℕ → ClientRow → Db F → List GameRow
  recent recent_games c db =
      take recent_games
        (sort_by (λ g h. ltb h.id g.id) (select (λ g. g.client_id == c.id) db.games))

  unfoldable pub client_summary : ℕ → ℕ → Db F → ClientRow → ClientSummary
  client_summary now recent_games db c =
      let gs = recent recent_games c db in
      record {
        client_id = c.id;
        reg = c.reg;
        status = c.status;
        last_seen = c.last_seen;
        online = is_online now c;
        pairs_leased =
            count_where (λ p. is_some_of p.leased_to c.id && is_leased p.status) db.pairs;
        games_total = count_where (λ g. g.client_id == c.id) db.games;
        nps = speed (sql_sum nodes_of gs) (sql_sum time_of gs);
        nps_games = count_where (λ g. is_there (nodes_of g)) gs;
      }

  unfoldable pub all_clients : ℕ → ℕ → Db F → List ClientSummary
  all_clients now recent_games db =
      sort_by seen_before (map (client_summary now recent_games db) db.clients)
