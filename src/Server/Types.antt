-- ===== src/Server/Types.antt =====
-- server/types.hpp, the enumerations of the database that the C++ code carries as strings, and
-- `TestSpec` of server/spec.hpp. Texts that are only stored and compared are `String`.
use capi_net.Base.{ℕ, Bool, true, false, Option, String}
use capi_net.Base.Int.{ℤ}

pub data TestKind : Type 0 where
  sprt gauntlet : TestKind

pub data TestStatus : Type 0 where
  validating invalid queued running finished stopped : TestStatus

pub data TestResult : Type 0 where
  pending accepted rejected inconclusive completed : TestResult

pub data SprtPreset : Type 0 where
  gainer nonreg custom : SprtPreset

pub data ClientStatus : Type 0 where
  active idle banned : ClientStatus

pub data JobStatus : Type 0 where
  pending leased completed discarded : JobStatus

pub data PinningMode : Type 0 where
  pinned homogeneous_unpinned qos_hint : PinningMode

pub data GameOutcome : Type 0 where
  candidate_win draw candidate_loss : GameOutcome

pub data GameTermination : Type 0 where
  normal timeout illegal_move crash adjudication other : GameTermination

abbrev pub is_validating : TestStatus → Bool
is_validating validating = true
is_validating _ = false

abbrev pub is_queued : TestStatus → Bool
is_queued queued = true
is_queued _ = false

abbrev pub is_running : TestStatus → Bool
is_running running = true
is_running _ = false

abbrev pub is_banned : ClientStatus → Bool
is_banned banned = true
is_banned _ = false

abbrev pub is_pending : JobStatus → Bool
is_pending JobStatus.pending = true
is_pending _ = false

abbrev pub is_leased : JobStatus → Bool
is_leased leased = true
is_leased _ = false

abbrev pub is_completed : JobStatus → Bool
is_completed JobStatus.completed = true
is_completed _ = false

abbrev pub is_discarded : JobStatus → Bool
is_discarded discarded = true
is_discarded _ = false

abbrev pub is_sprt : TestKind → Bool
is_sprt sprt = true
is_sprt _ = false

pub record DrawAdjudication : Type 0 where
  pub movenumber : ℕ
  pub movecount : ℕ
  pub score_cp : ℕ

pub record ResignAdjudication : Type 0 where
  pub movecount : ℕ
  pub score_cp : ℕ
  pub twosided : Bool

pub record Adjudication : Type 0 where
  pub draw_rule : Option DrawAdjudication
  pub resign_rule : Option ResignAdjudication

-- `cpu_factor_at_play` is a double in the source: in thousandths here.
pub record GameReport : Type 0 where
  pub game_in_pair : ℕ
  pub candidate_is_white : Bool
  pub outcome : GameOutcome
  pub termination : GameTermination
  pub ply_count : Option ℕ
  pub duration_ms : Option ℕ
  pub cpu_factor_at_play : ℕ
  pub tc_base_effective_ms : ℕ
  pub tc_increment_effective_ms : ℕ
  pub slot_index : ℕ
  pub core_id : Option ℕ
  pub pgn : String
  pub candidate_nodes : Option ℕ
  pub candidate_time_ms : Option ℕ
  pub baseline_nodes : Option ℕ
  pub baseline_time_ms : Option ℕ

-- `games[i].game_in_pair == i`
pub record PairReport : Type 0 where
  pub client_id : ℕ
  pub game0 : GameReport
  pub game1 : GameReport

-- A validated test, with refs and no commits. `F` is the type of doubles.
pub record TestSpec (F : Type 0) : Type 0 where
  pub name : String
  pub kind : TestKind
  pub candidate_ref : String
  pub baseline_ref : String
  pub tc_base_ms : ℕ
  pub tc_increment_ms : ℕ
  pub hash_mb : ℕ
  pub book_name : String
  pub total_pairs : ℕ
  pub sprt_preset : Option SprtPreset
  pub sprt_elo0 : Option F
  pub sprt_elo1 : Option F
  pub sprt_alpha : Option F
  pub sprt_beta : Option F
  pub priority : ℤ
  pub submitted_by : Option String
