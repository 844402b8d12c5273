-- ===== src/Client/Tests.antt =====
-- The client's theorems at concrete inputs.
use capi_net.Base.{Option, List, String, ◌≤◌, ◌≡◌, refl, true, false, none, some, [], ◌∷◌, arith}
use capi_net.Base.Int.{pos}
use capi_net.Base.Numerals.{span_digits, number_of, digits}
use capi_net.Server.Types.{candidate_win, candidate_loss, normal}
use capi_net.Client.Results.{ParsedGame}
use capi_net.Client.Pgn.{tags_of, tags_from, lines, tag_of, span, quoted, tag, map_termination}
use capi_net.Client.Pgn.Usage.{
  usage_by_color, moves_of, comments, measure_moves, find_nodes, find_time,
}
use capi_net.Client.Pgn.Games.{parse_game, game_of_tags, with_result, played_game}
use capi_net.Client.Pgn.Outcomes.{IsScored, parse_game-IsScored}
use capi_net.Client.Topology.{Topology, default_slots, decide_admission, admit_pinned}
use capi_net.Client.Admitted.{default_slots-admitted}
use capi_net.Client.Api.{transient, answer, claim_ok}
use capi_net.Client.Poll.{
  RunnerState, Prepared, ready, build_fails, throws, poll_server, poll_server-engines,
}
use capi_net.Client.Runner.{Attempt, wakes_poll, submit_with_retry, Turn, SlotState}
use capi_net.Client.Runner.Delivery.{is_some, submit_with_retry-stops}
use capi_net.Base.Numerals.{codes, sto, skip_blanks, show}
use capi_net.Client.Config.{
  Text, ClientConfig, load_client_config, read_arguments, apply_flags, apply, after, expand_home,
  to_int, core_list, getlines, from_first, to_last, insert_flag, earlier, load_file, load_lines,
  before_code, cut, unslashed,
}
use capi_net.Client.Config.Loaded.{IsReady, load_client_config-IsReady}
use capi_net.Base.{contains, All, length, if◌then◌else◌, ltb}
use capi_net.Client.Topology.Linux.{
  LinuxFiles, detect_linux, online_cpus, parse_cpu_list, read_file, insert_parts, insert_run, klass,
  classes, pick, is_seen, best_class, per_class, count_class, describe, class_counts, models,
}
use capi_net.Base.{IsDistinct}
use capi_net.Client.Topology.{admit_pinned}
use capi_net.Client.Topology.Linux.Pinned.{decide_admission-pins}
use capi_net.Client.Topology.Linux.Online.{detect_linux-finds}

abbrev lost : Attempt
lost = record { reply = transient; late = false; stopping = true }

submit_with_retry-stops_example :
    is_some (submit_with_retry (lost ∷ lost ∷ lost ∷ lost ∷ [])).0 ≡ true
submit_with_retry-stops_example =
    submit_with_retry-stops (lost ∷ lost ∷ lost ∷ lost ∷ []) (refl, (refl, (refl, (refl, tt))))
      (omega arith)

abbrev sample_turn : Turn
sample_turn = record {
  engines = some 1;
  claimed = answer (record {
    status = claim_ok;
    test_id = 1;
    pairs = record { pair_id = 7; position_seq = 1; fen = "8/8/8/8/8/8/8/8 w - -" } ∷ [];
  });
  played = true;
  delivery = wakes_poll;
  stopping = false;
  done_by_others = 2;
}

abbrev sample_slot : SlotState
sample_slot = record { backoff = 2; pairs_done = 0; stop = false; is_banned = false }

abbrev sample_host : Topology
sample_host = record {
  os = "Linux";
  cpu_model = "Ryzen";
  nproc = 8;
  heterogeneous = false;
  pinning_available = true;
  qos_hint_available = false;
  fast_cores = 0 ∷ 1 ∷ 2 ∷ 3 ∷ [];
  description = "4 cores";
}

default_slots-admitted_example :
    (decide_admission (λ _. "n") sample_host (pos (default_slots sample_host)) none).ok ≡ true
default_slots-admitted_example =
    default_slots-admitted (λ _. "n") sample_host (omega arith) (omega arith) refl

abbrev sample_runner : RunnerState
sample_runner = record { engines = some 1; failed_test = some 3; is_banned = false; stop = false }

poll_server-engines_example :
    let next = poll_server (answer false) (answer (some 2)) throws sample_runner in
    Prepared 2 throws sample_runner next
    × (poll_server
          (answer false)
          (answer (some 2))
          ready
          (poll_server (answer false) (answer (some 2)) throws sample_runner)
        ≡ record sample_runner { engines = some 2 })
    × (poll_server
          (answer false)
          (answer (some 2))
          throws
          (poll_server (answer false) (answer (some 2)) build_fails sample_runner)
        ≡ record sample_runner { engines = none; failed_test = some 2 })
    × (poll_server
          (answer false)
          (answer (some 2))
          throws
          (record sample_runner { engines = some 2 })
        ≡ record sample_runner { engines = some 2 })
    × ((poll_server (answer false) (answer none) throws sample_runner).engines ≡ none)
poll_server-engines_example = poll_server-engines 2 throws sample_runner refl refl

-- a short game as fastchess writes it
abbrev sample_pgn : String
sample_pgn = "[White \"a\"]\n[Black \"b\"]\n[Result \"1-0\"]\n\n1. e4 {n=5, 0.1s} 1-0\n"

abbrev pgn_for : String → Option (Option ParsedGame)
pgn_for candidate = parse_game (λ t. 100) sample_pgn candidate

abbrev white_game : ParsedGame
white_game = record {
  text = sample_pgn;
  candidate_is_white = true;
  outcome = candidate_win;
  termination = normal;
  ply_count = none;
  duration_ms = none;
  candidate_usage = some (record { nodes = 5; time_ms = 100 });
  baseline_usage = none;
}

abbrev black_game : ParsedGame
black_game = record white_game {
  candidate_is_white = false;
  outcome = candidate_loss;
  candidate_usage = none;
  baseline_usage = some (record { nodes = 5; time_ms = 100 });
}

parse_game-IsScored_example : IsScored "b" (codes "a") (codes "b") (codes "1-0") black_game
unfolding parse_game tags_of tags_from lines tag_of span quoted tag game_of_tags with_result
    played_game map_termination usage_by_color moves_of comments measure_moves find_nodes find_time
    digits span_digits number_of
parse_game-IsScored_example = parse_game-IsScored (λ t. 100) sample_pgn "b" {p = black_game} refl

abbrev sample_arguments : List Text
sample_arguments = codes "--slots" ∷ codes "2" ∷ codes "--config" ∷ codes "c" ∷ codes "--check" ∷ []

-- a file of two settings and a comment
abbrev sample_file : Text → Option Text
sample_file _ = some (codes "server = http://h//\n# cores\ncores= 2, 3 \n")

abbrev sample_config : ClientConfig
sample_config = record {
  server = codes "http://h";
  name = [];
  slots = some 2;
  cores = some (2 ∷ 3 ∷ []);
  work_dir = codes "~/.cache/capi_net";
  fastchess = [];
  make_args = [];
  poll_interval = 10;
  max_pairs = 0;
  check = true;
}

load_client_config-IsReady_example : IsReady sample_config
unfolding load_client_config read_arguments apply_flags apply after expand_home to_int core_list
    getlines from_first to_last insert_flag earlier load_file load_lines before_code cut unslashed
    sto skip_blanks span_digits number_of
load_client_config-IsReady_example =
    load_client_config-IsReady none (λ _. false) sample_file sample_arguments {c = sample_config}
      refl

-- two fast processors of one core, and two slow ones
abbrev sample_files : LinuxFiles
sample_files = record {
  online = codes "0-3\n";
  intel_p = codes "0,1\n";
  intel_e = codes "2-3\n";
  capacity = λ cpu. [];
  package_id = λ cpu. codes "0\n";
  core_id = λ cpu. if ltb cpu 2 then codes "0\n" else codes "1\n";
  cpuinfo = codes "model name\t: X\n";
  processors = 4;
  os = "Linux 6";
  affinity = true;
}

abbrev sample_detected : Topology
sample_detected = record {
  os = "Linux 6";
  cpu_model = "X";
  nproc = 4;
  heterogeneous = true;
  pinning_available = true;
  qos_hint_available = false;
  fast_cores = 0 ∷ [];
  description = "2P+2E";
}

detect_linux-finds_example :
    (4 ≡ length (online_cpus sample_files))
    × (1 ≤ length sample_detected.fast_cores)
    × All (λ c. contains c (online_cpus sample_files) ≡ true) sample_detected.fast_cores
unfolding detect_linux online_cpus parse_cpu_list read_file insert_parts insert_run getlines cut sto
    skip_blanks span_digits number_of klass classes pick is_seen best_class per_class count_class
    describe class_counts show digits models
detect_linux-finds_example =
    detect_linux-finds (λ t. "X") sample_files {t = sample_detected} refl (λ cpu k h. ground arith)
      (omega arith)

decide_admission-pins_example :
    let granted = (decide_admission show sample_detected (pos 1) none).cores in
    (length granted ≡ 1)
    × IsDistinct granted
    × All (λ c. contains c (online_cpus sample_files) ≡ true) granted
unfolding detect_linux online_cpus parse_cpu_list read_file insert_parts insert_run getlines cut sto
    skip_blanks span_digits number_of klass classes pick is_seen best_class per_class count_class
    describe class_counts show digits models decide_admission admit_pinned
decide_admission-pins_example =
    decide_admission-pins (λ t. "X") sample_files show 1 none {t = sample_detected} refl refl refl
