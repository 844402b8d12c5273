-- ===== src/Server/Schema.antt =====
-- The tables that the statements of server/*.cpp read and write, as lists of rows in the order of
-- insertion, and the functions of other components that the server calls. Ids come from counters;
-- times are microseconds; `F` is the type of doubles.
use capi_net.Base.{ℕ, Bool, Option, List, String, ◌==◌, find_first}
use capi_net.Server.Penta.{Pentanomial}
use capi_net.Server.Types.{
  TestSpec, TestStatus, TestResult, ClientStatus, JobStatus, PinningMode, GameReport, Adjudication,
}

-- tests
pub record TestRow (F : Type 0) : Type 0 where
  pub id : ℕ
  pub spec : TestSpec F
  pub candidate_commit : String
  pub baseline_commit : String
  pub status : TestStatus
  pub result : TestResult
  pub threads : ℕ
  pub adj : Adjudication
  pub validation_log : Option String
  pub created_at : ℕ
  pub started_at : Option ℕ
  pub finished_at : Option ℕ

-- `struct ClientRegistration`: the columns that a registration overwrites
pub record ClientRegistration : Type 0 where
  pub name : String
  pub hostname : Option String
  pub os : Option String
  pub cpu_model : Option String
  pub cpu_arch_target : Option String
  pub pinning_mode : PinningMode
  pub core_topology : Option String
  pub bench_ref_commit : Option String
  pub fastchess_version : Option String
  pub nproc_total : Option ℕ
  pub slots : ℕ

-- clients; `cpu_factor` in thousandths
pub record ClientRow : Type 0 where
  pub id : ℕ
  pub reg : ClientRegistration
  pub cpu_factor : Option ℕ
  pub status : ClientStatus
  pub last_seen : ℕ

-- opening_positions
pub record PositionRow : Type 0 where
  pub id : ℕ
  pub test_id : ℕ
  pub seq : ℕ
  pub fen : String

-- job_pairs; `dispatch_order` is only compared
pub record PairRow : Type 0 where
  pub id : ℕ
  pub test_id : ℕ
  pub position_id : ℕ
  pub status : JobStatus
  pub dispatch_order : ℕ
  pub leased_to : Option ℕ
  pub leased_at : Option ℕ
  pub lease_expires_at : Option ℕ
  pub attempts : ℕ
  pub completed_at : Option ℕ
  pub discarded_reason : Option String

-- games
pub record GameRow : Type 0 where
  pub id : ℕ
  pub pair_id : ℕ
  pub test_id : ℕ
  pub client_id : ℕ
  pub report : GameReport
  pub valid : Bool
  pub invalid_reason : Option String

-- game_pgns
pub record PgnRow : Type 0 where
  pub game_id : ℕ
  pub pgn_gz : String

-- test_stats
pub record StatsRow (F : Type 0) : Type 0 where
  pub test_id : ℕ
  pub penta : Pentanomial
  pub llr : Option F
  pub llr_lower : Option F
  pub llr_upper : Option F
  pub elo : Option F
  pub elo_ci_low : Option F
  pub elo_ci_high : Option F
  pub wins : ℕ
  pub draws : ℕ
  pub losses : ℕ
  pub updated_at : ℕ

-- test_stats_history
pub record HistoryRow (F : Type 0) : Type 0 where
  pub test_id : ℕ
  pub pairs_valid : ℕ
  pub llr : Option F
  pub elo : Option F

pub record Db (F : Type 0) : Type 0 where
  pub tests : List (TestRow F)
  pub clients : List ClientRow
  pub positions : List PositionRow
  pub pairs : List PairRow
  pub games : List GameRow
  pub pgns : List PgnRow
  pub stats : List (StatsRow F)
  pub history : List (HistoryRow F)
  pub next_test : ℕ
  pub next_client : ℕ
  pub next_position : ℕ
  pub next_pair : ℕ
  pub next_game : ℕ

pub record EloEstimate (F : Type 0) : Type 0 where
  pub elo : F
  pub ci_low : F
  pub ci_high : F
  pub ci95_half : F
  pub los : F
  pub nelo : F

pub record SprtBounds (F : Type 0) : Type 0 where
  pub lower : F
  pub upper : F

pub data SprtDecision : Type 0 where
  accept_h0 accept_h1 keep_going : SprtDecision

-- What the server calls: common/elo.hpp, common/gsprt.hpp and server/gzip.hpp, with 0.05 and the
-- order of doubles. `none` is an exception of the solver.
pub record Services (F : Type 0) : Type 0 where
  pub elo_estimate : Pentanomial → Option (EloEstimate F)
  pub llr_normalized : F → F → Pentanomial → Option F
  pub sprt_bounds : F → F → SprtBounds F
  pub sprt_decide : F → SprtBounds F → SprtDecision
  pub default_error : F
  pub less : F → F → Bool
  pub gzip_compress : String → String

module _ {F : Type 0} where
  abbrev pub test_by_id : ℕ → Db F → Option (TestRow F)
  test_by_id k db = find_first (λ t. t.id == k) db.tests

  abbrev pub client_by_id : ℕ → Db F → Option ClientRow
  client_by_id k db = find_first (λ c. c.id == k) db.clients

  abbrev pub pair_by_id : ℕ → Db F → Option PairRow
  pair_by_id k db = find_first (λ p. p.id == k) db.pairs
