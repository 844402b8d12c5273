-- ===== src/Client/Startup.antt =====
-- client/main.cpp: the start of a client, its registration and its exit code. What the operating
-- system, the build of fastchess and the server answer, and when a signal is seen, are arguments.
use Prim.Native.String.{◌++◌}
use text.Mathlib.Text.{◌==◌ as str_eq}
use capi_net.Base.{
  ℕ, zero, suc, ◌*◌, Bool, true, false, not, ◌&&◌, Option, none, some, List, [], ◌∷◌, String, min,
  if◌then◌else◌, get_elem?,
}
use capi_net.Base.Int.{pos}
use capi_net.Base.Json.{Members, members, string, number}
use capi_net.Base.Numerals.{show}
use capi_net.Server.Types.{PinningMode, pinned}
use capi_net.Server.Http.Words.{pinning_text}
use capi_net.Client.Topology.{Topology, Admission, default_slots, decide_admission}
use capi_net.Client.Results.{SlotInfo}
use capi_net.Client.Config.{ClientConfig, Loads, refused, loads, usage}
use capi_net.Client.Api.{Answer, answer, transient, protocol_error}

-- `cfg.name.empty() ? hostname() + "-" + std::to_string(slots) + "slots" : cfg.name`
unfoldable pub client_name : String → String → ℕ → String
client_name name hostname slots =
    if str_eq name "" then hostname ++ "-" ++ show slots ++ "slots" else name

-- what the client says of itself
pub record Host : Type 0 where
  pub name : String
  pub hostname : String
  pub arch_target : String
  pub pinning_mode : PinningMode
  pub core_topology : String
  pub slots : ℕ
  pub fastchess_version : String

unfoldable pub registration_members : {F : Type 0} → Topology → Host → Members F
registration_members topo h = members (
    ("name", string (client_name h.name h.hostname h.slots))
    ∷ ("hostname", string h.hostname)
    ∷ ("os", string topo.os)
    ∷ ("cpu_model", string topo.cpu_model)
    ∷ ("arch_target", string h.arch_target)
    ∷ ("pinning_mode", string (pinning_text h.pinning_mode))
    ∷ ("core_topology", string h.core_topology)
    ∷ ("nproc", number topo.nproc)
    ∷ ("slots", number h.slots)
    ∷ ("fastchess_version", string h.fastchess_version)
    ∷ [])

-- `if (!adm.cores.empty()) s.core = adm.cores[i]`; an admission has no core or one for each slot
abbrev pub slot_core : List ℕ → ℕ → Option ℕ
slot_core [] i = none
slot_core (c ∷ cs) i = get_elem? (c ∷ cs) i

-- `n` slots from the given one on
unfoldable pub slot_infos : List ℕ → ℕ → ℕ → List SlotInfo
slot_infos cores i zero = []
slot_infos cores i (suc n) =
    record { index = i; core = slot_core cores i } ∷ slot_infos cores (suc i) n

-- one turn of the loop of the registration: whether a stop is seen before it and, after an answer,
-- behind it
pub record Try : Type 0 where
  pub stopping : Bool
  pub reply : Answer ℕ
  pub stopping_after : Bool

pub data Registration : Type 0 where
  waiting : Registration
  exits : ℕ → Registration
  as_client : ℕ → Registration

-- the seconds that are waited, and how the loop ends
unfoldable pub register_rounds : ℕ → List Try → List ℕ × Registration
register_rounds backoff [] = ([], waiting)
register_rounds backoff (t ∷ ts) =
    let rest = register_rounds (min (backoff * 2) 60) ts in
    if t.stopping then ([], exits 0) else elim t.reply [
      | answer id ↦ if t.stopping_after then ([], exits 0) else ([], as_client id)
      | transient ↦ (backoff ∷ rest.0, rest.1)
      | protocol_error ↦ ([], exits 4)
    ]

-- what happens to a client outside of the code: the test of the affinity, whether there is a
-- fastchess, a stop during its build, the registration, and how the runner ends
pub record Fate : Type 0 where
  pub pinning_works : Bool
  pub has_fastchess : Bool
  pub stopped_early : Bool
  pub tries : List Try
  pub banned : Bool

abbrev pub after_registration : Fate → Registration → Option ℕ
after_registration f waiting = none
after_registration f (exits n) = some n
after_registration f (as_client id) = some (if f.banned then 4 else 0)

abbrev pub is_pinned : Option PinningMode → Bool
is_pinned (some pinned) = true
is_pinned _ = false

unfoldable pub after_admission : Fate → ClientConfig → Admission → Option ℕ
after_admission f c adm =
    if not adm.ok
    then some 3
    else if is_pinned adm.pinning_mode && not f.pinning_works
    then some 3
    else if c.check
    then some 0
    else if not f.has_fastchess
    then some (if f.stopped_early then 0 else 2)
    else after_registration f (register_rounds 2 f.tries).1

abbrev pub slots_of : Topology → Option ℕ → ℕ
slots_of topo none = default_slots topo
slots_of topo (some n) = n

-- the exit code of the client, or `none` while it waits for the server
unfoldable pub client_main : Loads ClientConfig → Topology → Fate → Option ℕ
client_main (refused usage) topo f = some 0
client_main (refused _) topo f = some 2
client_main (loads c) topo f =
    after_admission f c (decide_admission show topo (pos (slots_of topo c.slots)) c.cores)
