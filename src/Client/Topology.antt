-- ===== src/Client/Topology.antt =====
-- client/topology.cpp: `default_slots` and `decide_admission`, on a topology that is detected.
-- `show` is `std::to_string`.
pub mod Linux
use Prim.Native.String.{◌++◌}
use capi_net.Base.{
  ℕ, ◌-◌, ◌/◌, Bool, true, false, not, ◌&&◌, ◌||◌, Option, none, some, List, [], ◌∷◌, String, ltb,
  ◌==◌, if◌then◌else◌, length, drop, contains, max, min, set_of, find_first,
}
use capi_net.Base.Int.{ℤ, pos, negsuc}
use capi_net.Server.Types.{PinningMode, pinned, homogeneous_unpinned, qos_hint}

pub record Topology : Type 0 where
  pub os : String
  pub cpu_model : String
  pub nproc : ℕ
  pub heterogeneous : Bool
  pub pinning_available : Bool
  pub qos_hint_available : Bool
  pub fast_cores : List ℕ
  pub description : String

-- an empty `pinning_mode` is `none`
pub record Admission : Type 0 where
  pub ok : Bool
  pub pinning_mode : Option PinningMode
  pub cores : List ℕ
  pub core_topology : String
  pub error : String

abbrev pub refusal : String → Admission
refusal message = record {
  ok = false;
  pinning_mode = none;
  cores = [];
  core_topology = "";
  error = message;
}

abbrev pub admits : PinningMode → List ℕ → String → Admission
admits mode cores text = record {
  ok = true;
  pinning_mode = some mode;
  cores = cores;
  core_topology = text;
  error = "";
}

abbrev pub qos_hint_reserved_cores : ℕ
qos_hint_reserved_cores = 2

abbrev pub max_qos_slots : Topology → ℕ
max_qos_slots t = max 1 (length t.fast_cores - qos_hint_reserved_cores)

unfoldable pub default_slots : Topology → ℕ
default_slots t =
    let slots = max 1 (t.nproc / 4) in
    if t.heterogeneous && not t.pinning_available && t.qos_hint_available
    then min slots (max_qos_slots t)
    else slots

abbrev pub not_fast : Topology → ℕ → Bool
not_fast t c = not (contains c t.fast_cores)

module _ (show : ℕ → String) where
  -- the numbers, with commas between them
  abbrev pub joined : List ℕ → String
  joined [] = ""
  joined (c ∷ []) = show c
  joined (c ∷ d ∷ cs) = show c ++ "," ++ joined (d ∷ cs)

  abbrev pub requested : Option (List ℕ) → Bool
  requested none = false
  requested (some _) = true

  -- without affinity, cores of several kinds
  unfoldable pub admit_qos : Topology → ℕ → Option (List ℕ) → Admission
  admit_qos t slots cores =
      if not t.qos_hint_available
      then refusal (
          "núcleos heterogêneos (" ++ t.description
          ++ ") e o SO não permite fixar processos em núcleos: partidas migrariam "
          ++ "entre núcleos rápidos e lentos no meio do jogo (plano §3.3). Este "
          ++ "host não pode ser client.")
      else if requested cores
      then refusal "cores= exige afinidade de CPU, indisponível neste SO"
      else if ltb (max_qos_slots t) slots
      then refusal (
          "modo degradado qos_hint: no máximo "
          ++ show (max_qos_slots t)
          ++ " slots em "
          ++ t.description
          ++ " (núcleos rápidos − "
          ++ show qos_hint_reserved_cores
          ++ ", para o escalonador não precisar usar os núcleos lentos)")
      else admits qos_hint [] (
          t.description
          ++ ", qos_hint (sem afinidade; "
          ++ show slots
          ++ " de no máx. "
          ++ show (max_qos_slots t)
          ++ " slots)")

  -- without affinity, cores of one kind
  unfoldable pub admit_unpinned : Topology → ℕ → Option (List ℕ) → Admission
  admit_unpinned t slots cores =
      if requested cores
      then refusal "cores= exige afinidade de CPU, indisponível neste SO"
      else if ltb (length t.fast_cores) slots
      then refusal (
          "slots ("
          ++ show slots
          ++ ") excede os "
          ++ show (length t.fast_cores)
          ++ " núcleos físicos")
      else admits homogeneous_unpinned [] (t.description ++ ", sem afinidade")

  abbrev pub pin_to : Topology → List ℕ → Admission
  pin_to t cores = admits pinned cores (t.description ++ ", pinado em " ++ joined cores)

  abbrev pub check_count : Topology → ℕ → List ℕ → Admission
  check_count t slots cores =
      if not (length cores == slots) || not (length (set_of cores) == length cores)
      then refusal
          ("cores= deve listar exatamente " ++ show slots ++ " núcleos distintos (um por slot)")
      else pin_to t cores

  -- the first requested core that is not a fast one
  abbrev pub check_cores : Topology → ℕ → List ℕ → Option ℕ → Admission
  check_cores t slots cores none = check_count t slots cores
  check_cores t slots cores (some c) = refusal (
      "núcleo "
      ++ show c
      ++ " não é um núcleo físico da classe mais rápida (disponíveis: "
      ++ joined t.fast_cores
      ++ ")")

  unfoldable pub admit_pinned : Topology → ℕ → Option (List ℕ) → Admission
  admit_pinned t slots (some cores) = check_cores t slots cores (find_first (not_fast t) cores)
  admit_pinned t slots none =
      if ltb (length t.fast_cores) slots
      then refusal (
          "slots ("
          ++ show slots
          ++ ") excede os "
          ++ show (length t.fast_cores)
          ++ " núcleos rápidos disponíveis ("
          ++ t.description
          ++ ")")
      else pin_to t (drop (length t.fast_cores - slots) t.fast_cores)

  unfoldable pub decide_admission : Topology → ℤ → Option (List ℕ) → Admission
  decide_admission t (negsuc _) cores = refusal "slots deve ser >= 1"
  decide_admission t (pos slots) cores =
      if ltb slots 1
      then refusal "slots deve ser >= 1"
      else if t.pinning_available
      then admit_pinned t slots cores
      else if t.heterogeneous
      then admit_qos t slots cores
      else admit_unpinned t slots cores
