-- ===== src/Server/ServiceTests.antt =====
-- The theorems on the configuration, the pool of connections and the routes at concrete inputs.
use Prim.Native.String.{count}
use capi_net.Base.{ℕ, ◌≡◌, ◌<◌, ◌↔◌, refl, arith, true, none, List, [], ◌∷◌, length, sum_of}
use capi_net.Base.Fallible.{attempt}
use capi_net.Server.Schema.{Db}
use capi_net.Server.Spec.{Numbers}
use capi_net.Server.Config.{env, env_int, load_config_from_env}
use capi_net.Server.Config.Loaded.{IsRunnable, load_config_from_env-IsRunnable}
use capi_net.Server.Pool.{
  PoolState, new_pool, can_acquire, take_place, connect, acquires, connects, PoolRun, stays,
  then_step, PoolStep,
}
use capi_net.Server.Pool.Bounds.{Permit, inside, can_acquire-free, pool-Permit}
use capi_net.Server.Github.{resolved}
use capi_net.Server.Reports.{PgnManifestEntry, pgn_range, chunks}
use capi_net.Server.Samples.{sample_db, sample_presets, sample_server, sample_site, sample_game}
use capi_net.Server.Http.{Request, guarded}
use capi_net.Server.Http.Routes.{heartbeat_route, result_route}
use capi_net.Server.Http.Admin.{create_route, priority_route, stop_route}
use capi_net.Server.Http.Atomic.{DoneOrKept, routes-DoneOrKept}
use capi_net.Server.Http.Web.{total_size, download, gz_round, fill, skip_before}
use capi_net.Server.Http.Web.Download.{download-total_size}

load_config_from_env-IsRunnable_example : IsRunnable sample_server
unfolding load_config_from_env env_int env attempt
load_config_from_env-IsRunnable_example =
    load_config_from_env-IsRunnable sample_presets (λ _. none) {c = sample_server} refl

abbrev busy : PoolState
busy = record { created = 1; idle = 0; connecting = 0; held = 1 }

abbrev busy_run : PoolRun 1 new_pool busy
unfolding can_acquire take_place connect
busy_run = then_step (then_step stays (acquires refl)) (connects true (omega arith))

can_acquire-free_example : (can_acquire 1 busy ≡ true) ↔ (inside busy < 1)
can_acquire-free_example = can_acquire-free 1 busy_run

abbrev first_step : PoolStep 1 new_pool (take_place new_pool)
unfolding can_acquire
first_step = acquires refl

pool-Permit_example : Permit 1 0 1
unfolding take_place
pool-Permit_example = pool-Permit 1 stays first_step

abbrev empty_request : Request ℕ
empty_request = record { matches = []; params = []; body = none }

abbrev no_numbers : Numbers ℕ
no_numbers = record { strtod = λ _. none; llround = λ n. n }

routes-DoneOrKept_example :
    DoneOrKept sample_db (guarded (heartbeat_route sample_site empty_request sample_db) sample_db)
    × DoneOrKept sample_db (guarded (result_route sample_site empty_request sample_db) sample_db)
    × DoneOrKept sample_db (
        guarded
          (create_route sample_site no_numbers
            (λ _. none)
            (λ _. resolved "abc")
            empty_request
            sample_db)
          sample_db)
    × DoneOrKept sample_db (guarded (priority_route sample_site empty_request sample_db) sample_db)
    × DoneOrKept sample_db (guarded (stop_route sample_site empty_request sample_db) sample_db)
routes-DoneOrKept_example =
    routes-DoneOrKept sample_db sample_site no_numbers (λ _. none) (λ _. resolved "abc")
      empty_request

abbrev played_db : Db ℕ
played_db = record sample_db {
  games =
      record {
        id = 1;
        pair_id = 1;
        test_id = 1;
        client_id = 1;
        report = sample_game 0 true;
        valid = true;
        invalid_reason = none;
      }
      ∷ [];
  pgns = record { game_id = 1; pgn_gz = "1. e4 *" } ∷ [];
}

abbrev sample_manifest : List PgnManifestEntry
sample_manifest = record { game_id = 1; gz_bytes = 7 } ∷ []

download-total_size_example :
    (1 ≡ length sample_manifest)
    × (sum_of count ("1. e4 *" ∷ "\n" ∷ []) ≡ total_size count "\n" sample_manifest)
unfolding download gz_round fill skip_before pgn_range chunks
download-total_size_example =
    download-total_size count "\n" 1 sample_manifest (played_db ∷ []) {out = "1. e4 *" ∷ "\n" ∷ []}
      {n = 1} (omega arith) refl
