-- ===== src/Server/Config/Loaded.antt =====
-- server/config.cpp: what a configuration that loads is like.
use capi_net.Base.{
  ℕ, ◌^◌, ◌≤◌, ◌<◌, ◌≡◌, refl, subst, arith, false, Option, none, some, List, [], ◌∷◌, String,
}
use text.Mathlib.Text.{◌==◌ as str_eq}
use capi_net.Base.Int.{ℤ, pos, negsuc}
use capi_net.Base.Numerals.{codes, sto, decimal, stoi-lt, stoi-decimal}
use capi_net.Base.Fallible.{gives, attempt-gives}
use capi_net.Server.Spec.{SprtPresets}
use capi_net.Server.Config.{
  ServerConfig, env, accepted_int, or_invalid, int_of, env_int, load_config_from_env,
}

-- a number that the server can run with
abbrev pub IsUsable : ℕ → Type 0
IsUsable n = (1 ≤ n) × (n < 2 ^ 31)

accepted_int-IsUsable :
    (o : Option (ℤ × List ℕ)) {n : ℕ}
    → ((k : ℕ) (r : List ℕ) → o ≡ some (pos k, r) → k < 2 ^ 31)
    → accepted_int 1 o ≡ some n
    → IsUsable n
accepted_int-IsUsable none f h = cc
accepted_int-IsUsable (some (negsuc k, r)) f h = cc
accepted_int-IsUsable (some (pos k, c ∷ cs)) f h = cc
accepted_int-IsUsable (some (pos k, [])) f h = ground (arith, f k [] refl)

gives_inj : {A : Type 0} {a b : A} → gives a ≡ gives b → a ≡ b
gives_inj h = cc

or_invalid-gives :
    (name v : String) (o : Option ℕ) {n : ℕ} → or_invalid name v o ≡ gives n → o ≡ some n
or_invalid-gives name v none h = cc
or_invalid-gives name v (some k) h = cc

int_of-IsUsable :
    (name : String) (fallback : ℕ) (o : Option String) {n : ℕ}
    → IsUsable fallback
    → int_of name fallback 1 o ≡ gives n
    → IsUsable n
int_of-IsUsable name fallback none f h = subst IsUsable (gives_inj h) f
int_of-IsUsable name fallback (some v) f h =
    accepted_int-IsUsable (sto 32 (codes v)) (λ k r e. stoi-lt (codes v) e)
      (or_invalid-gives name v _ h)

pub env_int-IsUsable :
    (getenv : String → Option String) (name : String) (fallback : ℕ) {n : ℕ}
    → IsUsable fallback
    → env_int getenv name fallback 1 ≡ gives n
    → IsUsable n
unfolding env_int
env_int-IsUsable getenv name fallback f h = int_of-IsUsable name fallback (env getenv name) f h

abbrev pub IsRunnable : {F : Type 0} → ServerConfig F → Type 0
IsRunnable c =
    IsUsable c.smoke_bench_depth
    × IsUsable c.http_port
    × IsUsable c.db_pool_size
    × IsUsable c.lease_ttl_min
    × IsUsable c.max_attempts
    × IsUsable c.maintenance_interval

-- Every number of a configuration that loads is from 1 to 2147483647.
pub load_config_from_env-IsRunnable :
    {F : Type 0} (presets : SprtPresets F) (getenv : String → Option String) {c : ServerConfig F}
    → load_config_from_env presets getenv ≡ gives c
    → IsRunnable c
unfolding load_config_from_env
load_config_from_env-IsRunnable presets getenv {c} h =
    let (depth, e1, h1) = attempt-gives (env_int getenv "CAPI_SMOKE_BENCH_DEPTH" 6 1) _ h in
    let (port, e2, h2) = attempt-gives (env_int getenv "CAPI_HTTP_PORT" 8080 1) _ h1 in
    let (pool, e3, h3) = attempt-gives (env_int getenv "CAPI_DB_POOL_SIZE" 8 1) _ h2 in
    let (ttl, e4, h4) = attempt-gives (env_int getenv "CAPI_LEASE_TTL_MIN_S" 600 1) _ h3 in
    let (attempts, e5, h5) = attempt-gives (env_int getenv "CAPI_MAX_ATTEMPTS" 5 1) _ h4 in
    let (interval, e6, h6) =
      attempt-gives (env_int getenv "CAPI_MAINTENANCE_INTERVAL_S" 30 1) _ h5 in
    let u1 = env_int-IsUsable getenv "CAPI_SMOKE_BENCH_DEPTH" 6 (omega arith, omega arith) e1 in
    let u2 = env_int-IsUsable getenv "CAPI_HTTP_PORT" 8080 (omega arith, omega arith) e2 in
    let u3 = env_int-IsUsable getenv "CAPI_DB_POOL_SIZE" 8 (omega arith, omega arith) e3 in
    let u4 = env_int-IsUsable getenv "CAPI_LEASE_TTL_MIN_S" 600 (omega arith, omega arith) e4 in
    let u5 = env_int-IsUsable getenv "CAPI_MAX_ATTEMPTS" 5 (omega arith, omega arith) e5 in
    let u6 =
      env_int-IsUsable getenv "CAPI_MAINTENANCE_INTERVAL_S" 30 (omega arith, omega arith) e6 in
    subst IsRunnable (gives_inj h6) (u1, u2, u3, u4, u5, u6)

-- A variable that holds the decimal digits of a number, not below the least value and within an
-- int, is read as that number.
env_int-decimal :
    (getenv : String → Option String) (name v : String) (fallback low n : ℕ)
    → getenv name ≡ some v
    → codes v ≡ decimal n
    → str_eq v "" ≡ false
    → low ≤ n
    → n < 2 ^ 31
    → env_int getenv name fallback low ≡ gives n
unfolding env_int env
env_int-decimal getenv name v fallback low n g e x l h =
    rw (g, x, e, stoi-decimal n h) (ground arith)
