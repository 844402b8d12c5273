-- ===== src/Server/Http/Words.antt =====
-- The texts of the database's enumerations, as they stand in the bodies: kOutcomes, kTerminations
-- and kPinningModes of server/http/helpers.hpp, and the enums of migrations/001_initial.sql.
use text.Mathlib.Text.{◌==◌ as str_eq}
use capi_net.Base.{Option, none, some, List, [], ◌∷◌, String, if◌then◌else◌, ◌≡◌, refl}
use capi_net.Server.Types.{
  TestKind, sprt, gauntlet, TestStatus, validating, invalid, queued, running, finished, stopped,
  TestResult, ClientStatus, active, idle, banned, PinningMode, pinned, homogeneous_unpinned,
  qos_hint, GameOutcome, candidate_win, draw, candidate_loss, GameTermination, normal, timeout,
  illegal_move, crash, adjudication, other,
}

abbrev pub kind_text : TestKind → String
kind_text sprt = "sprt"
kind_text gauntlet = "gauntlet"

abbrev pub status_text : TestStatus → String
status_text validating = "validating"
status_text invalid = "invalid"
status_text queued = "queued"
status_text running = "running"
status_text finished = "finished"
status_text stopped = "stopped"

abbrev pub result_text : TestResult → String
result_text TestResult.pending = "pending"
result_text TestResult.accepted = "accepted"
result_text TestResult.rejected = "rejected"
result_text TestResult.inconclusive = "inconclusive"
result_text TestResult.completed = "completed"

abbrev pub client_text : ClientStatus → String
client_text active = "active"
client_text idle = "idle"
client_text banned = "banned"

abbrev pub outcome_text : GameOutcome → String
outcome_text candidate_win = "candidate_win"
outcome_text draw = "draw"
outcome_text candidate_loss = "candidate_loss"

abbrev pub termination_text : GameTermination → String
termination_text normal = "normal"
termination_text timeout = "timeout"
termination_text illegal_move = "illegal_move"
termination_text crash = "crash"
termination_text adjudication = "adjudication"
termination_text other = "other"

abbrev pub pinning_text : PinningMode → String
pinning_text pinned = "pinned"
pinning_text homogeneous_unpinned = "homogeneous_unpinned"
pinning_text qos_hint = "qos_hint"

-- the value whose text a text is
unfoldable pub among {ℓ} : {A : Type ℓ} → (A → String) → List A → String → Option A
among text [] s = none
among text (a ∷ as_) s = if str_eq s (text a) then some a else among text as_ s

abbrev pub outcome_of : String → Option GameOutcome
outcome_of = among outcome_text (candidate_win ∷ draw ∷ candidate_loss ∷ [])

abbrev pub termination_of : String → Option GameTermination
termination_of =
    among termination_text (normal ∷ timeout ∷ illegal_move ∷ crash ∷ adjudication ∷ other ∷ [])

abbrev pub pinning_of : String → Option PinningMode
pinning_of = among pinning_text (pinned ∷ homogeneous_unpinned ∷ qos_hint ∷ [])

pub outcome_of-outcome_text : (o : GameOutcome) → outcome_of (outcome_text o) ≡ some o
unfolding among
outcome_of-outcome_text candidate_win = refl
outcome_of-outcome_text draw = refl
outcome_of-outcome_text candidate_loss = refl

pub termination_of-termination_text :
    (t : GameTermination) → termination_of (termination_text t) ≡ some t
unfolding among
termination_of-termination_text normal = refl
termination_of-termination_text timeout = refl
termination_of-termination_text illegal_move = refl
termination_of-termination_text crash = refl
termination_of-termination_text adjudication = refl
termination_of-termination_text other = refl
