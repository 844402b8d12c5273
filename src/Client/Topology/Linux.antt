-- ===== src/Client/Topology/Linux.antt =====
-- client/topology.cpp: `detect_linux` and `parse_cpu_list`, over the texts of the files of Linux.
pub mod Online
pub mod Pinned
use Prim.Native.String.{◌++◌}
use capi_net.Base.{
  ℕ, zero, suc, ◌+◌, ◌-◌, Bool, true, false, not, ◌&&◌, ◌||◌, Option, none, some, List, [], ◌∷◌,
  String, ltb, leb, ◌==◌, if◌then◌else◌, length, set_insert, contains, get_elem?, ◌>>=◌,
}
use capi_net.Base.Int.{ℤ, pos, negsuc, pos_part, neg_part, ltb_ℤ}
use capi_net.Base.Numerals.{codes, sto, show}
use capi_net.Server.Github.{same_text}
use capi_net.Client.Config.{Text, getlines, kept, cut}
use capi_net.Client.Pgn.{is_nil}
use capi_net.Client.Topology.{Topology}

-- the contents of the files: /sys/devices/system/cpu/online, cpu_core/cpus and cpu_atom/cpus, of each
-- processor cpu_capacity, physical_package_id and core_id, and /proc/cpuinfo; and what the system
-- answers
pub record LinuxFiles : Type 0 where
  pub online : Text
  pub intel_p : Text
  pub intel_e : Text
  pub capacity : ℕ → Text
  pub package_id : ℕ → Text
  pub core_id : ℕ → Text
  pub cpuinfo : Text
  pub processors : ℕ
  pub os : String
  pub affinity : Bool

abbrev pub is_tail : ℕ → Bool
is_tail c = c == b'\n' || c == b'\r' || c == b' '

-- `read_file`, on the content
unfoldable pub read_file : Text → Text
read_file [] = []
read_file (c ∷ cs) = kept is_tail c (read_file cs)

-- std::stoi, with the rest of the text dropped; `none` is an exception
abbrev pub without_rest : Option (ℤ × List ℕ) → Option ℤ
without_rest none = none
without_rest (some (z, rest)) = some z

abbrev pub stoi : Text → Option ℤ
stoi s = without_rest (sto 32 s)

-- `n` numbers from `i` on
unfoldable pub insert_run : ℕ → ℕ → List ℕ → List ℕ
insert_run i zero out = out
insert_run i (suc n) out = insert_run (suc i) n (set_insert i out)

-- Neither number in front of a dash, nor one without a dash, is negative.
abbrev pub insert_range : Option ℤ → Option ℤ → List ℕ → List ℕ
insert_range (some (pos a)) (some (pos b)) out = insert_run a (suc b - a) out
insert_range _ _ out = out

abbrev pub insert_one : Option ℤ → List ℕ → List ℕ
insert_one (some (pos n)) out = set_insert n out
insert_one _ out = out

abbrev pub insert_part : Text → Option (Text × Text) → List ℕ → List ℕ
insert_part part none out = insert_one (stoi part) out
insert_part part (some (a, b)) out = insert_range (stoi a) (stoi b) out

unfoldable pub insert_parts : List Text → List ℕ → List ℕ
insert_parts [] out = out
insert_parts ([] ∷ parts) out = insert_parts parts out
insert_parts ((c ∷ cs) ∷ parts) out =
    insert_parts parts (insert_part (c ∷ cs) (cut b'-' (c ∷ cs)) out)

unfoldable pub parse_cpu_list : Text → List ℕ
parse_cpu_list list = insert_parts (getlines b',' list) []

abbrev pub or_counted : ℕ → List ℕ → List ℕ
or_counted n [] = insert_run 0 n []
or_counted n (c ∷ cs) = c ∷ cs

unfoldable pub online_cpus : LinuxFiles → List ℕ
online_cpus f = or_counted f.processors (parse_cpu_list (read_file f.online))

-- std::stol, without the rest
abbrev pub stol : Text → Option ℤ
stol s = without_rest (sto 64 s)

-- the class of a processor; `none` is the exception of stol
unfoldable pub klass : List ℕ → List ℕ → LinuxFiles → ℕ → Option ℤ
klass intel_p [] f cpu =
    let cap = read_file (f.capacity cpu) in if is_nil cap then some (pos 1) else stol cap
klass intel_p (e ∷ es) f cpu = some (if contains cpu intel_p then pos 1 else pos 0)

abbrev pub class_of : LinuxFiles → ℕ → Option ℤ
class_of f = klass (parse_cpu_list (read_file f.intel_p)) (parse_cpu_list (read_file f.intel_e)) f

abbrev pub with_class : ℕ → Option ℤ → Option (List (ℕ × ℤ)) → Option (List (ℕ × ℤ))
with_class cpu (some k) (some ks) = some ((cpu, k) ∷ ks)
with_class cpu _ _ = none

unfoldable pub classes : (ℕ → Option ℤ) → List ℕ → Option (List (ℕ × ℤ))
classes kl [] = some []
classes kl (cpu ∷ cpus) = with_class cpu (kl cpu) (classes kl cpus)

abbrev pub max_ℤ : ℤ → ℤ → ℤ
max_ℤ a b = if ltb_ℤ a b then b else a

abbrev pub eq_ℤ : ℤ → ℤ → Bool
eq_ℤ a b = not (ltb_ℤ a b) && not (ltb_ℤ b a)

unfoldable pub best_class : List (ℕ × ℤ) → ℤ → ℤ
best_class [] best = best
best_class (c ∷ cs) best = best_class cs (max_ℤ best c.1)

-- `++per_class[k]`, the best class first
unfoldable pub count_class : ℤ → List (ℤ × ℕ) → List (ℤ × ℕ)
count_class k [] = (k, 1) ∷ []
count_class k (c ∷ cs) =
    let rest = count_class k cs in
    if eq_ℤ k c.0 then (k, suc c.1) ∷ cs else if ltb_ℤ c.0 k then (k, 1) ∷ c ∷ cs else c ∷ rest

unfoldable pub per_class : List (ℕ × ℤ) → List (ℤ × ℕ)
per_class [] = []
per_class (c ∷ cs) = count_class c.1 (per_class cs)

abbrev pub same_key : Text × Text → Text × Text → Bool
same_key a b = same_text a.0 b.0 && same_text a.1 b.1

unfoldable pub is_seen : Text × Text → List (Text × Text) → Bool
is_seen key [] = false
is_seen key (k ∷ ks) = same_key key k || is_seen key ks

abbrev pub core_key : LinuxFiles → ℕ → Text × Text
core_key f cpu = (read_file (f.package_id cpu), read_file (f.core_id cpu))

-- one processor of each core of the best class
unfoldable pub pick : LinuxFiles → ℤ → List (Text × Text) → List (ℕ × ℤ) → List ℕ
pick f best seen [] = []
pick f best seen (c ∷ cs) =
    let key = core_key f c.0 in
    let others = pick f best seen cs in
    let next = pick f best (key ∷ seen) cs in
    if not (eq_ℤ c.1 best)
    then others
    else if is_nil key.1
    then c.0 ∷ others
    else if is_seen key seen
    then others
    else c.0 ∷ next

abbrev pub class_letter : ℕ → String
class_letter i = if i == 0 then "P" else if i == 1 then "E" else "L"

unfoldable pub class_counts : ℕ → List (ℤ × ℕ) → String
class_counts i [] = ""
class_counts i (c ∷ cs) =
    (if i == 0 then "" else "+") ++ show c.1 ++ class_letter i ++ class_counts (suc i) cs

unfoldable pub describe : Bool → List (ℤ × ℕ) → ℕ → ℕ → String
describe mixed counts fast nproc =
    if mixed
    then class_counts 0 counts
    else show fast
      ++ " núcleos homogêneos"
      ++ (if fast == nproc then "" else " (" ++ show nproc ++ " lógicos, SMT)")

abbrev pub is_gap : ℕ → Bool
is_gap c = c == b' ' || c == 9

unfoldable pub without_gap : Text → Text
without_gap [] = []
without_gap (c ∷ cs) = kept is_gap c (without_gap cs)

abbrev pub without_space : Text → Text
without_space [] = []
without_space (c ∷ cs) = if c == b' ' then cs else c ∷ cs

-- the value of the first lines with a key that is not empty
abbrev pub keep_first : Text → Text → Text
keep_first [] v = v
keep_first (c ∷ cs) v = c ∷ cs

-- `model name` and `Model`, after a line cut at its colon
abbrev pub note_model : Text × Text → Option (Text × Text) → Text × Text
note_model m none = m
note_model m (some (k, v)) =
    let key = without_gap k in
    if same_text key (codes "model name")
    then (keep_first m.0 (without_space v), m.1)
    else if same_text key (codes "Model")
    then (m.0, keep_first m.1 (without_space v))
    else m

unfoldable pub models : Text × Text → List Text → Text × Text
models m [] = m
models m (line ∷ lines) = models (note_model m (cut b':' line)) lines

abbrev pub cpu_model : LinuxFiles → Text
cpu_model f = let m = models ([], []) (getlines b'\n' f.cpuinfo) in keep_first m.0 m.1

-- `text` is the text of codes
module _ (text : Text → String) where
  abbrev pub linux_topology : LinuxFiles → ℕ → List (ℕ × ℤ) → Topology
  linux_topology f nproc ks =
      let fast = pick f (best_class ks (pos 0)) [] ks in
      let counts = per_class ks in
      let mixed = ltb 1 (length counts) in
      record {
        os = f.os;
        cpu_model = text (cpu_model f);
        nproc = nproc;
        heterogeneous = mixed;
        pinning_available = f.affinity;
        qos_hint_available = false;
        fast_cores = fast;
        description = describe mixed counts (length fast) nproc;
      }

  abbrev pub of_classes : LinuxFiles → ℕ → Option (List (ℕ × ℤ)) → Option Topology
  of_classes f nproc none = none
  of_classes f nproc (some ks) = some (linux_topology f nproc ks)

  -- `none` is an exception of stol
  unfoldable pub detect_linux : LinuxFiles → Option Topology
  detect_linux f =
      let cpus = online_cpus f in of_classes f (length cpus) (classes (class_of f) cpus)
