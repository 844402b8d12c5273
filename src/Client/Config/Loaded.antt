-- ===== src/Client/Config/Loaded.antt =====
-- client/config.cpp: what a configuration that loads is like.
use capi_net.Base.{
  ℕ, ◌^◌, ◌≤◌, ◌<◌, ◌≡◌, ◌≢◌, refl, subst, arith, Bool, true, false, ◌||◌, Option, none, some, List,
  [], ◌∷◌, ◌++◌, ◌==◌, leb→le, leb, suc, All, Bool-cases, inl, inr, if◌then◌else◌,
}
use capi_net.Base.Int.{ℤ, pos, negsuc}
use capi_net.Base.Numerals.{sto, stoi-lt}
use capi_net.Server.Config.{accepted_int}
use capi_net.Client.Config.{
  Text, ClientConfig, Loads, refused, loads, then_load, after, expand_home, trim, or_refused,
  to_int, getlines, core_list, set_cores, is_key, apply, before_code, cut, at, CommandLine,
  no_arguments, apply_pair, apply_line, load_lines, load_file, read_arguments, apply_flags,
  default_config, default_path, from_file, or_cache, kept, unslashed, without_slashes, completed,
  load_client_config,
}

-- a predicate on what loads
abbrev pub LoadsIn {ℓ κ} : {A : Type ℓ} → (A → Type κ) → Loads A → Type κ
LoadsIn P (refused e) = Unit
LoadsIn P (loads a) = P a

LoadsIn-then {ℓ κ μ} :
    {A : Type ℓ} {B : Type κ} (P : A → Type μ) (Q : B → Type μ) (r : Loads A) (f : A → Loads B)
    → LoadsIn P r
    → ((a : A) → P a → LoadsIn Q (f a))
    → LoadsIn Q (then_load r f)
LoadsIn-then P Q (refused e) f p h = tt
LoadsIn-then P Q (loads a) f p h = h a p

LoadsIn-bind {ℓ κ μ} :
    {A : Type ℓ} {B : Type κ} (Q : B → Type μ) (r : Loads A) (f : A → Loads B)
    → ((a : A) → LoadsIn Q (f a))
    → LoadsIn Q (then_load r f)
LoadsIn-bind Q (refused e) f h = tt
LoadsIn-bind Q (loads a) f h = h a

LoadsIn-if {ℓ μ} :
    {A : Type ℓ} (P : A → Type μ) (b : Bool) (r s : Loads A)
    → LoadsIn P r
    → LoadsIn P s
    → LoadsIn P (if b then r else s)
LoadsIn-if P true r s h k = h
LoadsIn-if P false r s h k = k

-- a number from the least one to 2147483647
abbrev pub InInt : ℕ → ℕ → Type 0
InInt low n = (low ≤ n) × (n < 2 ^ 31)

abbrev OrNone {ℓ} : {A : Type ℓ} → (A → Type 0) → Option A → Type 0
OrNone P none = Unit
OrNone P (some a) = P a

-- a list that is not empty, of numbers of an int
abbrev pub IsCoreList : List ℕ → Type 0
IsCoreList ns = (ns ≢ []) × All (λ n. n < 2 ^ 31) ns

-- the numbers of a configuration
abbrev pub IsWorkable : ClientConfig → Type 0
IsWorkable c =
    OrNone (InInt 1) c.slots
    × OrNone IsCoreList c.cores
    × InInt 1 c.poll_interval
    × (c.max_pairs < 2 ^ 31)

or_refused-InInt :
    (key v : Text) (low : ℕ) (o : Option (ℤ × List ℕ))
    → ((k : ℕ) (r : List ℕ) → o ≡ some (pos k, r) → k < 2 ^ 31)
    → LoadsIn (InInt low) (or_refused key v (accepted_int low o))
or_refused-InInt key v low none f = tt
or_refused-InInt key v low (some (negsuc k, r)) f = tt
or_refused-InInt key v low (some (pos k, c ∷ cs)) f = tt
or_refused-InInt key v low (some (pos k, [])) f = elim (Bool-cases (leb low k)) [
  | inl e ↦ rw e (leb→le low k e, f k [] refl)
  | inr e ↦ rw e tt
]

to_int-InInt : (key v : Text) (low : ℕ) → LoadsIn (InInt low) (to_int key v low)
unfolding to_int
to_int-InInt key v low = or_refused-InInt key v low (sto 32 v) (λ k r e. stoi-lt v e)

core_list-All :
    (key : Text) (parts : List Text) → LoadsIn (All (λ n. n < 2 ^ 31)) (core_list key parts)
unfolding core_list
core_list-All key [] = tt
core_list-All key (part ∷ parts) =
    LoadsIn-then (InInt 0) (All (λ n. n < 2 ^ 31)) (to_int key (trim part) 0) _
      (to_int-InInt key (trim part) 0)
      λ n h.
        LoadsIn-then (All (λ n. n < 2 ^ 31)) (All (λ n. n < 2 ^ 31)) (core_list key parts) _
          (core_list-All key parts) λ ns k. (h.1, k)

set_cores-IsWorkable :
    (c : ClientConfig) (ns : List ℕ)
    → IsWorkable c
    → All (λ n. n < 2 ^ 31) ns
    → LoadsIn IsWorkable (set_cores c ns)
set_cores-IsWorkable c [] h k = tt
set_cores-IsWorkable c (n ∷ ns) (slots, cores, poll, pairs) k = (slots, ((λ e. cc), k), poll, pairs)

-- an option with a number of an int
set_int-IsWorkable :
    (key value : Text) (low : ℕ) (f : ℕ → ClientConfig)
    → ((n : ℕ) → InInt low n → IsWorkable (f n))
    → LoadsIn IsWorkable (then_load (to_int key value low) (λ n. loads (f n)))
set_int-IsWorkable key value low f h =
    LoadsIn-then (InInt low) IsWorkable (to_int key value low) _ (to_int-InInt key value low) h

set_core_list-IsWorkable :
    (key value : Text) (c : ClientConfig)
    → IsWorkable c
    → LoadsIn IsWorkable (then_load (core_list key (getlines b',' value)) (set_cores c))
set_core_list-IsWorkable key value c h =
    LoadsIn-then (All (λ n. n < 2 ^ 31)) IsWorkable (core_list key (getlines b',' value)) _
      (core_list-All key (getlines b',' value)) λ ns k. set_cores-IsWorkable c ns h k

apply-IsWorkable :
    (home : Option Text) (c : ClientConfig) (key value : Text)
    → IsWorkable c
    → LoadsIn IsWorkable (apply home c key value)
unfolding apply
apply-IsWorkable home c key value h =
    let (slots, cores, poll, pairs) = h in
    let either = LoadsIn-if IsWorkable in
    let on_pairs = set_int-IsWorkable key value 0 _ (λ n k. (slots, cores, poll, k.1)) in
    let on_poll = set_int-IsWorkable key value 1 _ (λ n k. (slots, cores, k, pairs)) in
    let on_slots = set_int-IsWorkable key value 1 _ (λ n k. (k, cores, poll, pairs)) in
    let last = either (is_key key "max_pairs" || is_key key "max-pairs") _ _ on_pairs tt in
    let tail = either (is_key key "poll_interval" || is_key key "poll-interval") _ _ on_poll last in
    let made = either (is_key key "make_args" || is_key key "make-args") _ _ h tail in
    let built = either (is_key key "fastchess") _ _ h made in
    let worked = either (is_key key "work_dir" || is_key key "work-dir") _ _ h built in
    let placed = either (is_key key "cores") _ _ (set_core_list-IsWorkable key value c h) worked in
    let counted = either (is_key key "slots") _ _ on_slots placed in
    let named = either (is_key key "name") _ _ h counted in either (is_key key "server") _ _ h named

at-IsWorkable :
    (path : Text) (n : ℕ) (r : Loads ClientConfig)
    → LoadsIn IsWorkable r
    → LoadsIn IsWorkable (at path n r)
at-IsWorkable path n (refused e) h = tt
at-IsWorkable path n (loads c) h = h

apply_pair-IsWorkable :
    (home : Option Text) (path : Text) (n : ℕ) (c : ClientConfig) (o : Option (Text × Text))
    → IsWorkable c
    → LoadsIn IsWorkable (apply_pair home path n c o)
apply_pair-IsWorkable home path n c none h = tt
apply_pair-IsWorkable home path n c (some (k, v)) h =
    at-IsWorkable path n (apply home c (trim k) (trim v))
      (apply-IsWorkable home c (trim k) (trim v) h)

apply_line-IsWorkable :
    (home : Option Text) (path : Text) (n : ℕ) (c : ClientConfig) (line : Text)
    → IsWorkable c
    → LoadsIn IsWorkable (apply_line home path n c line)
apply_line-IsWorkable home path n c [] h = h
apply_line-IsWorkable home path n c (d ∷ ds) h =
    apply_pair-IsWorkable home path n c (cut b'=' (d ∷ ds)) h

load_lines-IsWorkable :
    (home : Option Text) (path : Text) (n : ℕ) (c : ClientConfig) (lines : List Text)
    → IsWorkable c
    → LoadsIn IsWorkable (load_lines home path n c lines)
unfolding load_lines
load_lines-IsWorkable home path n c [] h = h
load_lines-IsWorkable home path n c (line ∷ lines) h =
    LoadsIn-then IsWorkable IsWorkable _ _
      (apply_line-IsWorkable home path n c (trim (before_code b'#' line)) h)
      λ d k. load_lines-IsWorkable home path (suc n) d lines k

load_file-IsWorkable :
    (home : Option Text) (c : ClientConfig) (path : Text) (text : Option Text)
    → IsWorkable c
    → LoadsIn IsWorkable (load_file home c path text)
unfolding load_file
load_file-IsWorkable home c path none h = tt
load_file-IsWorkable home c path (some text) h =
    load_lines-IsWorkable home path 1 c (getlines b'\n' text) h

apply_flags-IsWorkable :
    (home : Option Text) (c : ClientConfig) (flags : List (Text × Text))
    → IsWorkable c
    → LoadsIn IsWorkable (apply_flags home c flags)
unfolding apply_flags
apply_flags-IsWorkable home c [] h = h
apply_flags-IsWorkable home c (f ∷ fs) h =
    LoadsIn-then IsWorkable IsWorkable _ _ (apply-IsWorkable home c f.0 f.1 h)
      λ d k. apply_flags-IsWorkable home d fs k

default_config-IsWorkable : IsWorkable default_config
default_config-IsWorkable = (tt, tt, (omega arith, omega arith), omega arith)

from_file-IsWorkable :
    (home : Option Text) (exists : Text → Bool) (read : Text → Option Text) (path : Option Text)
    → LoadsIn IsWorkable (from_file home exists read path)
from_file-IsWorkable home exists read (some path) =
    load_file-IsWorkable home default_config path (read path) default_config-IsWorkable
from_file-IsWorkable home exists read none =
    LoadsIn-if IsWorkable (exists (default_path home)) _ _
      (load_file-IsWorkable home default_config (default_path home) (read (default_path home))
        default_config-IsWorkable)
      default_config-IsWorkable

abbrev pub ends_in_slash : Text → Bool
ends_in_slash [] = false
ends_in_slash (c ∷ []) = c == b'/'
ends_in_slash (c ∷ d ∷ ds) = ends_in_slash (d ∷ ds)

kept-unslashed :
    (c : ℕ) (ds : Text)
    → ends_in_slash ds ≡ false
    → ends_in_slash (kept (λ d. d == b'/') c ds) ≡ false
kept-unslashed c [] h = elim (Bool-cases (c == b'/')) [ inl e ↦ rw e refl | inr e ↦ rw e e ]
kept-unslashed c (d ∷ ds) h = h

unslashed_lem : (cs : Text) → ends_in_slash (unslashed cs) ≡ false
unfolding unslashed
unslashed_lem [] = refl
unslashed_lem (c ∷ cs) = kept-unslashed c (unslashed cs) (unslashed_lem cs)

-- an address with no slash at its end, or of one code at most
abbrev pub IsTrimmedUrl : Text → Type 0
IsTrimmedUrl [] = Unit
IsTrimmedUrl (c ∷ cs) = ends_in_slash cs ≡ false

without_slashes-IsTrimmedUrl : (s : Text) → IsTrimmedUrl (without_slashes s)
without_slashes-IsTrimmedUrl [] = tt
without_slashes-IsTrimmedUrl (c ∷ cs) = unslashed_lem cs

append-filled : (xs : Text) (y : ℕ) (ys : Text) → xs ++ y ∷ ys ≢ []
append-filled [] y ys e = cc
append-filled (x ∷ xs) y ys e = cc

or_cache-filled : (home : Option Text) (s : Text) → or_cache home s ≢ []
unfolding expand_home after
or_cache-filled none [] e = cc
or_cache-filled (some home) [] e = append-filled home _ _ e
or_cache-filled home (c ∷ cs) e = cc

-- what a client starts with
abbrev pub IsReady : ClientConfig → Type 0
IsReady c = IsWorkable c × IsTrimmedUrl c.server × (c.work_dir ≢ [])

completed-IsReady :
    (home : Option Text) (checks : Bool) (c : ClientConfig)
    → IsWorkable c
    → IsReady (completed home checks c)
completed-IsReady home checks c h =
    (h, without_slashes-IsTrimmedUrl c.server, or_cache-filled home c.work_dir)

loads_in {ℓ κ} :
    {A : Type ℓ} (P : A → Type κ) (r : Loads A) {a : A} → r ≡ loads a → LoadsIn P r → P a
loads_in P r e h = subst (LoadsIn P) e h

line-IsReady :
    (home : Option Text) (exists : Text → Bool) (read : Text → Option Text) (a : CommandLine)
    → LoadsIn IsReady (
        then_load
          (from_file home exists read a.config_path)
          λ c. then_load (apply_flags home c a.flags) λ d. loads (completed home a.wants_check d))
line-IsReady home exists read a =
    LoadsIn-then IsWorkable IsReady (from_file home exists read a.config_path) _
      (from_file-IsWorkable home exists read a.config_path)
      λ c k.
        LoadsIn-then IsWorkable IsReady (apply_flags home c a.flags) _
          (apply_flags-IsWorkable home c a.flags k) λ d l. completed-IsReady home a.wants_check d l

-- When a configuration loads, whatever stands in the file and on the command line, slots (if given)
-- and the interval of polling are from 1 to 2147483647, the list of cores (if given) is not empty
-- and has numbers of an int, the limit of pairs fits an int, the address of the server has no slash
-- at its end (beyond its first code), and the working directory is not empty.
pub load_client_config-IsReady :
    (home : Option Text) (exists : Text → Bool) (read : Text → Option Text) (args : List Text)
    {c : ClientConfig}
    → load_client_config home exists read args ≡ loads c
    → IsReady c
unfolding load_client_config
load_client_config-IsReady home exists read args h =
    loads_in IsReady _ h (
      LoadsIn-bind IsReady (read_arguments home no_arguments args) _
        (line-IsReady home exists read))
