-- ===== src/Server/Samples.antt =====
-- A small database and services to run the server's operations on: test 1 runs and has pairs 1
-- (leased to client 1) and 2 (pending), test 2 waits in the queue, test 3 is being validated.
use text.Mathlib.Text.{◌==◌ as str_eq}
use capi_net.Base.{if◌then◌else◌, leb, ◌+◌, ◌*◌, ℕ, Bool, true, false, none, some, [], ◌∷◌, ltb}
use capi_net.Base.Int.{pos}
use capi_net.Server.Penta.{pairs}
use capi_net.Server.Types.{
  JobStatus, TestStatus, validating, queued, running, TestResult, TestSpec, sprt, pinned, leased,
  GameReport, PairReport, candidate_win, normal, active,
}
use capi_net.Server.Schema.{
  TestRow, ClientRegistration, ClientRow, PositionRow, PairRow, Db, Services, accept_h1, keep_going,
}
use capi_net.Server.System.{Config}
use capi_net.Server.Stats.{Doubles}
use capi_net.Server.Spec.{SprtPresets}
use capi_net.Server.Config.{ServerConfig}
use capi_net.Server.Http.{returns}
use capi_net.Server.Http.Site.{Site}

abbrev pub sample_spec : TestSpec ℕ
sample_spec = record {
  name = "new vs old";
  kind = sprt;
  candidate_ref = "new";
  baseline_ref = "old";
  tc_base_ms = 10000;
  tc_increment_ms = 100;
  hash_mb = 16;
  book_name = "book.epd";
  total_pairs = 2;
  sprt_preset = none;
  sprt_elo0 = some 0;
  sprt_elo1 = some 5;
  sprt_alpha = some 1;
  sprt_beta = some 1;
  priority = pos 0;
  submitted_by = none;
}

abbrev pub sample_test : ℕ → TestStatus → TestRow ℕ
sample_test k s = record {
  id = k;
  spec = record sample_spec { priority = pos k };
  candidate_commit = "abc";
  baseline_commit = "def";
  status = s;
  result = TestResult.pending;
  threads = 1;
  adj = record { draw_rule = none; resign_rule = none };
  validation_log = none;
  created_at = k;
  started_at = none;
  finished_at = none;
}

abbrev pub sample_registration : ClientRegistration
sample_registration = record {
  name = "rig";
  hostname = none;
  os = none;
  cpu_model = none;
  cpu_arch_target = none;
  pinning_mode = pinned;
  core_topology = none;
  bench_ref_commit = none;
  fastchess_version = none;
  nproc_total = some 8;
  slots = 4;
}

abbrev pub sample_client : ClientRow
sample_client = record {
  id = 1;
  reg = sample_registration;
  cpu_factor = some 1500;
  status = active;
  last_seen = 0;
}

abbrev pub sample_position : ℕ → PositionRow
sample_position k = record { id = k; test_id = 1; seq = k; fen = "8/8/8/8/8/8/8/8 w - -" }

abbrev pub leased_pair : PairRow
leased_pair = record {
  id = 1;
  test_id = 1;
  position_id = 1;
  status = leased;
  dispatch_order = 7;
  leased_to = some 1;
  leased_at = some 10;
  lease_expires_at = some 50;
  attempts = 1;
  completed_at = none;
  discarded_reason = none;
}

abbrev pub pending_pair : PairRow
pending_pair = record {
  id = 2;
  test_id = 1;
  position_id = 2;
  status = JobStatus.pending;
  dispatch_order = 3;
  leased_to = none;
  leased_at = none;
  lease_expires_at = none;
  attempts = 0;
  completed_at = none;
  discarded_reason = none;
}

abbrev pub sample_db : Db ℕ
sample_db = record {
  tests = sample_test 1 running ∷ sample_test 2 queued ∷ sample_test 3 validating ∷ [];
  clients = sample_client ∷ [];
  positions = sample_position 1 ∷ sample_position 2 ∷ [];
  pairs = leased_pair ∷ pending_pair ∷ [];
  games = [];
  pgns = [];
  stats = [];
  history = [];
  next_test = 4;
  next_client = 2;
  next_position = 3;
  next_pair = 3;
  next_game = 1;
}

abbrev pub idle_db : Db ℕ
idle_db = record sample_db { tests = sample_test 2 queued ∷ sample_test 3 queued ∷ [] }

-- Whole numbers in place of doubles: a test is decided once it has three pairs.
abbrev pub sample_services : Services ℕ
sample_services = record {
  elo_estimate = λ p.
      some (record { elo = pairs p; ci_low = 0; ci_high = 9; ci95_half = 4; los = 1; nelo = 2 });
  llr_normalized = λ _ _ p. some (pairs p);
  sprt_bounds = λ _ _. record { lower = 0; upper = 3 };
  sprt_decide = λ llr _. if ltb 2 llr then accept_h1 else keep_going;
  default_error = 1;
  less = ltb;
  gzip_compress = λ s. s;
}

abbrev pub sample_config : Config
sample_config = record { lease_ttl_min = 600; max_attempts = 3 }

abbrev pub sample_game : ℕ → Bool → GameReport
sample_game i white = record {
  game_in_pair = i;
  candidate_is_white = white;
  outcome = candidate_win;
  termination = normal;
  ply_count = some 80;
  duration_ms = some 20000;
  cpu_factor_at_play = 1000;
  tc_base_effective_ms = 10000;
  tc_increment_effective_ms = 100;
  slot_index = 0;
  core_id = some 2;
  pgn = "1. e4 *";
  candidate_nodes = none;
  candidate_time_ms = none;
  baseline_nodes = none;
  baseline_time_ms = none;
}

abbrev pub sample_report : PairReport
sample_report = record { client_id = 1; game0 = sample_game 0 true; game1 = sample_game 1 false }

abbrev pub sample_doubles : Doubles ℕ
sample_doubles = record {
  literal = λ s. if str_eq s "0" then 0 else if str_eq s "1" then 100 else 5;
  of_count = λ n. n;
  plus = λ a b. a + b;
  minus = λ a b. a;
  times = λ a b. a * b;
  over = λ a b. a;
  negate = λ a. a;
  abs = λ a. a;
  sqrt = λ a. a;
  log = λ a. a;
  log10 = λ a. a;
  erfc = λ a. a;
  lt = ltb;
  le = leb;
}

abbrev pub sample_presets : SprtPresets ℕ
sample_presets = record {
  gainer_bounds = record { elo0 = 0; elo1 = 5; alpha = 5; beta = 5 };
  nonreg_bounds = record { elo0 = 0; elo1 = 5; alpha = 5; beta = 5 };
}

abbrev pub sample_server : ServerConfig ℕ
sample_server = record {
  db_url = "dbname=capi_net";
  http_host = "0.0.0.0";
  http_port = 8080;
  db_pool_size = 8;
  lease_ttl_min = 600;
  max_attempts = 5;
  maintenance_interval = 30;
  bench_reference_commit = "";
  github_repo = "fatorius/capizero";
  github_api = "https://api.github.com";
  github_codeload = "https://codeload.github.com";
  github_token = "";
  books_dir = "books";
  work_dir = "work";
  web_dir = "web";
  smoke_bench_depth = 6;
  build_make_args = [];
  sprt_presets = sample_presets;
}

abbrev pub sample_site : Site ℕ
sample_site = record {
  services = sample_services;
  doubles = sample_doubles;
  milli = λ n. n * 1000;
  cfg = sample_server;
  now = 30;
  locked = λ _. false;
  connection = returns tt;
  time_text = λ _. "2026-01-01T00:00:00+00:00";
}
