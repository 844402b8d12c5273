-- ===== src/Client/Config.antt =====
-- client/config.cpp: the configuration of the client, from its file and its command line. A text is
-- the list of its codes; `getenv("HOME")` and the files are arguments, times are in seconds.
pub mod Loaded
use capi_net.Base.{
  ℕ, zero, suc, ◌+◌, Bool, true, false, ◌&&◌, ◌||◌, not, Option, none, some, List, [], ◌∷◌, ◌++◌,
  String, leb, ltb, ◌==◌, if◌then◌else◌,
}
use capi_net.Base.Numerals.{codes, sto}
use capi_net.Server.Books.{words}
use capi_net.Server.Config.{accepted_int}
use capi_net.Server.Github.{same_text}

abbrev pub Text : Type 0
Text = List ℕ

pub record ClientConfig : Type 0 where
  pub server : Text
  pub name : Text
  pub slots : Option ℕ
  pub cores : Option (List ℕ)
  pub work_dir : Text
  pub fastchess : Text
  pub make_args : List Text
  pub poll_interval : ℕ
  pub max_pairs : ℕ
  pub check : Bool

-- the texts that a ConfigError is made with
pub data ConfigError : Type 0 where
  usage : ConfigError
  invalid_value : Text → Text → ConfigError
  empty_cores : ConfigError
  unknown_option : Text → ConfigError
  unreadable : Text → ConfigError
  expected_pair : Text → ℕ → ConfigError
  at_line : Text → ℕ → ConfigError → ConfigError
  unexpected_argument : Text → ConfigError
  missing_value : Text → ConfigError

pub data Loads {ℓ} (A : Type ℓ) : Type ℓ where
  refused : ConfigError → Loads A
  loads : A → Loads A

abbrev pub then_load {ℓ κ} : {A : Type ℓ} {B : Type κ} → Loads A → (A → Loads B) → Loads B
then_load (refused e) f = refused e
then_load (loads a) f = f a

-- whether a text starts with another, and what follows it
unfoldable pub after : Text → Text → Option Text
after [] s = some s
after (p ∷ ps) [] = none
after (p ∷ ps) (c ∷ s) = let rest = after ps s in if p == c then rest else none

abbrev pub in_home : Option Text → Text → Option Text → Text
in_home none p _ = p
in_home (some home) p none = p
in_home (some home) p (some rest) = home ++ b'/' ∷ rest

unfoldable pub expand_home : Option Text → Text → Text
expand_home home p = in_home home p (after (codes "~/") p)

abbrev pub is_space : ℕ → Bool
is_space c = c == b' ' || c == 9 || c == b'\r'

unfoldable pub from_first : Text → Text
from_first [] = []
from_first (c ∷ cs) = let rest = from_first cs in if is_space c then rest else c ∷ cs

-- a code before what is kept of the text behind it
abbrev pub kept : (ℕ → Bool) → ℕ → Text → Text
kept p c [] = if p c then [] else c ∷ []
kept p c (d ∷ ds) = c ∷ d ∷ ds

unfoldable pub to_last : Text → Text
to_last [] = []
to_last (c ∷ cs) = kept is_space c (to_last cs)

abbrev pub trim : Text → Text
trim s = to_last (from_first s)

abbrev pub or_refused : Text → Text → Option ℕ → Loads ℕ
or_refused key v none = refused (invalid_value key v)
or_refused key v (some n) = loads n

unfoldable pub to_int : Text → Text → ℕ → Loads ℕ
to_int key v low = or_refused key v (accepted_int low (sto 32 v))

-- the pieces that std::getline reads up to each delimiter
abbrev pub join_piece : ℕ → List Text → List Text
join_piece c [] = (c ∷ []) ∷ []
join_piece c (l ∷ ls) = (c ∷ l) ∷ ls

unfoldable pub getlines : ℕ → Text → List Text
getlines d [] = []
getlines d (c ∷ cs) = let rest = getlines d cs in if c == d then [] ∷ rest else join_piece c rest

unfoldable pub core_list : Text → List Text → Loads (List ℕ)
core_list key [] = loads []
core_list key (part ∷ parts) =
    then_load (to_int key (trim part) 0) λ n. then_load (core_list key parts) λ ns. loads (n ∷ ns)

abbrev pub set_cores : ClientConfig → List ℕ → Loads ClientConfig
set_cores c [] = refused empty_cores
set_cores c (n ∷ ns) = loads (record c { cores = some (n ∷ ns) })

abbrev pub is_key : Text → String → Bool
is_key key s = same_text key (codes s)

unfoldable pub apply : Option Text → ClientConfig → Text → Text → Loads ClientConfig
apply home c key value =
    if is_key key "server"
    then loads (record c { server = value })
    else if is_key key "name"
    then loads (record c { name = value })
    else if is_key key "slots"
    then then_load (to_int key value 1) (λ n. loads (record c { slots = some n }))
    else if is_key key "cores"
    then then_load (core_list key (getlines b',' value)) (set_cores c)
    else if is_key key "work_dir" || is_key key "work-dir"
    then loads (record c { work_dir = expand_home home value })
    else if is_key key "fastchess"
    then loads (record c { fastchess = expand_home home value })
    else if is_key key "make_args" || is_key key "make-args"
    then loads (record c { make_args = words value })
    else if is_key key "poll_interval" || is_key key "poll-interval"
    then then_load (to_int key value 1) (λ n. loads (record c { poll_interval = n }))
    else if is_key key "max_pairs" || is_key key "max-pairs"
    then then_load (to_int key value 0) (λ n. loads (record c { max_pairs = n }))
    else refused (unknown_option key)

unfoldable pub before_code : ℕ → Text → Text
before_code d [] = []
before_code d (c ∷ cs) = let rest = before_code d cs in if c == d then [] else c ∷ rest

-- what stands before and behind the first such code
unfoldable pub cut : ℕ → Text → Option (Text × Text)
cut d [] = none
cut d (c ∷ cs) =
    let rest = cut d cs in
    if c == d then some ([], cs) else elim rest [ none ↦ none | some p ↦ some (c ∷ p.0, p.1) ]

abbrev pub at : Text → ℕ → Loads ClientConfig → Loads ClientConfig
at path n (refused e) = refused (at_line path n e)
at path n (loads c) = loads c

abbrev pub apply_pair :
    Option Text → Text → ℕ → ClientConfig → Option (Text × Text) → Loads ClientConfig
apply_pair home path n c none = refused (expected_pair path n)
apply_pair home path n c (some (k, v)) = at path n (apply home c (trim k) (trim v))

abbrev pub apply_line : Option Text → Text → ℕ → ClientConfig → Text → Loads ClientConfig
apply_line home path n c [] = loads c
apply_line home path n c (d ∷ ds) = apply_pair home path n c (cut b'=' (d ∷ ds))

-- the lines from the given number on
unfoldable pub load_lines : Option Text → Text → ℕ → ClientConfig → List Text → Loads ClientConfig
load_lines home path n c [] = loads c
load_lines home path n c (line ∷ lines) =
    then_load (apply_line home path n c (trim (before_code b'#' line)))
      λ d. load_lines home path (suc n) d lines

-- the text of a file, or `none` where it does not open
unfoldable pub load_file : Option Text → ClientConfig → Text → Option Text → Loads ClientConfig
load_file home c path none = refused (unreadable path)
load_file home c path (some text) = load_lines home path 1 c (getlines b'\n' text)

-- the order of std::string
unfoldable pub earlier : Text → Text → Bool
earlier _ [] = false
earlier [] (_ ∷ _) = true
earlier (a ∷ as_) (b ∷ bs) =
    let rest = earlier as_ bs in if ltb a b then true else if ltb b a then false else rest

-- `flags[key] = value` in a std::map
unfoldable pub insert_flag : Text → Text → List (Text × Text) → List (Text × Text)
insert_flag k v [] = (k, v) ∷ []
insert_flag k v (f ∷ fs) =
    let rest = insert_flag k v fs in
    if same_text k f.0 then (k, v) ∷ fs else if earlier k f.0 then (k, v) ∷ f ∷ fs else f ∷ rest

pub record CommandLine : Type 0 where
  pub flags : List (Text × Text)
  pub config_path : Option Text
  pub wants_check : Bool

abbrev pub with_option : Option Text → Text → Text → CommandLine → CommandLine
with_option home key value a =
    if is_key key "config"
    then record a { config_path = some (expand_home home value) }
    else record a { flags = insert_flag key value a.flags }

abbrev pub no_arguments : CommandLine
no_arguments = record { flags = []; config_path = none; wants_check = false }

abbrev pub is_option : Text → Bool
is_option arg = elim (after (codes "--") arg) [ none ↦ false | some _ ↦ true ]

abbrev pub key_of : Text → Text
key_of arg = elim (after (codes "--") arg) [ none ↦ arg | some k ↦ k ]

abbrev pub is_help : Text → Bool
is_help arg = is_key arg "--help" || is_key arg "-h"

-- the arguments behind the name of the program
unfoldable pub read_arguments : Option Text → CommandLine → List Text → Loads CommandLine
read_arguments home a [] = loads a
read_arguments home a (arg ∷ []) =
    if is_help arg
    then refused usage
    else if is_key arg "--check"
    then loads (record a { wants_check = true })
    else if not (is_option arg)
    then refused (unexpected_argument arg)
    else refused (missing_value arg)
read_arguments home a (arg ∷ value ∷ args) =
    let checked = read_arguments home (record a { wants_check = true }) (value ∷ args) in
    let read = read_arguments home (with_option home (key_of arg) value a) args in
    if is_help arg
    then refused usage
    else if is_key arg "--check"
    then checked
    else if not (is_option arg)
    then refused (unexpected_argument arg)
    else read

unfoldable pub apply_flags : Option Text → ClientConfig → List (Text × Text) → Loads ClientConfig
apply_flags home c [] = loads c
apply_flags home c (f ∷ fs) = then_load (apply home c f.0 f.1) λ d. apply_flags home d fs

abbrev pub default_config : ClientConfig
default_config = record {
  server = codes "http://localhost:8080";
  name = [];
  slots = none;
  cores = none;
  work_dir = [];
  fastchess = [];
  make_args = [];
  poll_interval = 10;
  max_pairs = 0;
  check = false;
}

abbrev pub default_path : Option Text → Text
default_path home = expand_home home (codes "~/.config/capi_net/client.conf")

-- the file that --config names, or that of the user where it exists
abbrev pub from_file :
    Option Text → (Text → Bool) → (Text → Option Text) → Option Text → Loads ClientConfig
from_file home exists read (some path) = load_file home default_config path (read path)
from_file home exists read none =
    if exists (default_path home)
    then load_file home default_config (default_path home) (read (default_path home))
    else loads default_config

abbrev pub or_cache : Option Text → Text → Text
or_cache home [] = expand_home home (codes "~/.cache/capi_net")
or_cache home (c ∷ cs) = c ∷ cs

unfoldable pub unslashed : Text → Text
unslashed [] = []
unslashed (c ∷ cs) = kept (λ d. d == b'/') c (unslashed cs)

-- the slashes at the end, but not the first code
abbrev pub without_slashes : Text → Text
without_slashes [] = []
without_slashes (c ∷ cs) = c ∷ unslashed cs

abbrev pub completed : Option Text → Bool → ClientConfig → ClientConfig
completed home checks c = record c {
  check = checks;
  work_dir = or_cache home c.work_dir;
  server = without_slashes c.server;
}

unfoldable pub load_client_config :
    Option Text → (Text → Bool) → (Text → Option Text) → List Text → Loads ClientConfig
load_client_config home exists read args = then_load (read_arguments home no_arguments args) λ a.
    then_load (from_file home exists read a.config_path)
      λ c. then_load (apply_flags home c a.flags) λ d. loads (completed home a.wants_check d)
