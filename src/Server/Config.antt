-- ===== src/Server/Config.antt =====
-- server/config.cpp: the configuration of the server from its environment. `getenv` is a function
-- from names to texts; times are in seconds.
pub mod Loaded
use Prim.Native.String.{◌++◌}
use text.Mathlib.Text.{◌==◌ as str_eq}
use capi_net.Base.{
  ℕ, ◌^◌, ◌≤◌, ◌<◌, ◌≡◌, refl, subst, arith, Bool, true, false, ◌&&◌, ◌||◌, not, Option, none, some,
  List, [], ◌∷◌, String, leb, ltb, if◌then◌else◌,
}
use capi_net.Base.Int.{ℤ, pos, negsuc}
use capi_net.Base.Numerals.{codes, sto, decimal, stoi-lt}
use capi_net.Base.Fallible.{Fallible, fails, gives, attempt, check, attempt-gives, check-gives}
use capi_net.Server.Books.{words}
use capi_net.Server.Spec.{SprtPresets}

pub record ServerConfig (F : Type 0) : Type 0 where
  pub db_url : String
  pub http_host : String
  pub http_port : ℕ
  pub db_pool_size : ℕ
  pub lease_ttl_min : ℕ
  pub max_attempts : ℕ
  pub maintenance_interval : ℕ
  pub bench_reference_commit : String
  pub github_repo : String
  pub github_api : String
  pub github_codeload : String
  pub github_token : String
  pub books_dir : String
  pub work_dir : String
  pub web_dir : String
  pub smoke_bench_depth : ℕ
  pub build_make_args : List (List ℕ)
  pub sprt_presets : SprtPresets F

-- an empty variable is an unset one
abbrev pub nonempty : Option String → Option String
nonempty none = none
nonempty (some v) = if str_eq v "" then none else some v

unfoldable pub env : (String → Option String) → String → Option String
env getenv name = nonempty (getenv name)

abbrev pub env_or : (String → Option String) → String → String → String
env_or getenv name fallback = elim (env getenv name) [ none ↦ fallback | some v ↦ v ]

-- the whole text is a number, and not below the least value, which is positive
abbrev pub accepted_int : ℕ → Option (ℤ × List ℕ) → Option ℕ
accepted_int low (some (pos n, [])) = if leb low n then some n else none
accepted_int low _ = none

abbrev pub or_invalid : String → String → Option ℕ → Fallible ℕ
or_invalid name v none = fails (name ++ ": invalid value '" ++ v ++ "'")
or_invalid name v (some n) = gives n

abbrev pub int_of : String → ℕ → ℕ → Option String → Fallible ℕ
int_of name fallback low none = gives fallback
int_of name fallback low (some v) = or_invalid name v (accepted_int low (sto 32 (codes v)))

unfoldable pub env_int : (String → Option String) → String → ℕ → ℕ → Fallible ℕ
env_int getenv name fallback low = int_of name fallback low (env getenv name)

-- `>>` of a stream, word by word
abbrev pub words_of : Option String → List (List ℕ)
words_of none = []
words_of (some v) = words (codes v)

unfoldable pub load_config_from_env :
    {F : Type 0} → SprtPresets F → (String → Option String) → Fallible (ServerConfig F)
load_config_from_env presets getenv = attempt (env_int getenv "CAPI_SMOKE_BENCH_DEPTH" 6 1) λ depth.
    attempt (env_int getenv "CAPI_HTTP_PORT" 8080 1) λ port.
      attempt (env_int getenv "CAPI_DB_POOL_SIZE" 8 1) λ pool.
        attempt (env_int getenv "CAPI_LEASE_TTL_MIN_S" 600 1) λ ttl.
          attempt (env_int getenv "CAPI_MAX_ATTEMPTS" 5 1) λ attempts.
            attempt (env_int getenv "CAPI_MAINTENANCE_INTERVAL_S" 30 1) λ interval. gives (record {
              db_url = env_or getenv "CAPI_DB_URL" "dbname=capi_net";
              http_host = env_or getenv "CAPI_HTTP_HOST" "0.0.0.0";
              http_port = port;
              db_pool_size = pool;
              lease_ttl_min = ttl;
              max_attempts = attempts;
              maintenance_interval = interval;
              bench_reference_commit = env_or getenv "CAPI_BENCH_REFERENCE_COMMIT" "";
              github_repo = env_or getenv "CAPI_GITHUB_REPO" "fatorius/capizero";
              github_api = env_or getenv "CAPI_GITHUB_API" "https://api.github.com";
              github_codeload = env_or getenv "CAPI_GITHUB_CODELOAD" "https://codeload.github.com";
              github_token = env_or getenv "CAPI_GITHUB_TOKEN" "";
              books_dir = env_or getenv "CAPI_BOOKS_DIR" "books";
              work_dir = env_or getenv "CAPI_WORK_DIR" "work";
              web_dir = env_or getenv "CAPI_WEB_DIR" "web";
              smoke_bench_depth = depth;
              build_make_args = words_of (env getenv "CAPI_BUILD_MAKE_ARGS");
              sprt_presets = presets;
            })
