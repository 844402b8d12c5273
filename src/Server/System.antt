-- ===== src/Server/System.antt =====
-- The server as a whole: every request and every periodic task is a transaction on one database
-- (server/http/*.cpp, server/main.cpp), and an exception rolls its transaction back.
use capi_net.Base.{ℕ, Bool, Option, none, some, List, [], ◌∷◌, ◌>>=◌, String}
use capi_net.Base.Int.{ℤ}
use capi_net.Server.Types.{PairReport, TestSpec}
use capi_net.Server.Schema.{ClientRegistration, TestRow, Db, Services}
use capi_net.Server.Lifecycle.{promote_next_test}
use capi_net.Server.Clients.{register_client, heartbeat}
use capi_net.Server.Admin.{insert_test, stop_test, set_priority}
use capi_net.Server.Smoke.{SmokeReport, conclude_smoke}
use capi_net.Server.Queue.Claim.{claim_pairs}
use capi_net.Server.Queue.Submit.{submit_result}
use capi_net.Server.Queue.Leases.{abandon_pair, recover_expired_leases}

-- The values that `maintenance_tick` and the routes take from `ServerConfig`.
pub record Config : Type 0 where
  pub lease_ttl_min : ℕ
  pub max_attempts : ℕ

pub data Event (F : Type 0) : Type 0 where
  registers : ClientRegistration → Event F
  beats : ℕ → Option ℕ → Event F
  claims : (ℕ → Bool) → ℕ → ℕ → Event F
  submits : ℕ → PairReport → Event F
  abandons : ℕ → ℕ → Event F
  creates : TestSpec F → String → String → Event F
  stops : ℕ → Event F
  reorders : ℕ → ℤ → Event F
  concludes : TestRow F → SmokeReport → Event F
  recovers : (ℕ → Bool) → Event F
  promotes : Event F

module _ {F : Type 0} (sv : Services F) (cfg : Config) where
  -- the transaction of an event at time `now`; `none` is an exception
  unfoldable pub transact : ℕ → Event F → Db F → Option (Db F)
  transact now (registers reg) db = some (register_client now reg db).1
  transact now (beats client_id f) db = some (heartbeat now client_id f db).1
  transact now (claims locked client_id n) db =
      some (claim_pairs now cfg.lease_ttl_min locked client_id n db).1
  transact now (submits pair_id r) db = submit_result sv now pair_id r db >>= λ x. some x.1
  transact now (abandons pair_id client_id) db = some (abandon_pair pair_id client_id db).1
  transact now (creates s candidate baseline) db =
      insert_test sv now s candidate baseline db >>= λ x. some x.1
  transact now (stops test_id) db = some (stop_test now test_id db).1
  transact now (reorders test_id p) db = some (set_priority test_id p db).1
  transact now (concludes t r) db = conclude_smoke sv now t r db
  transact now (recovers locked) db =
      recover_expired_leases sv now locked cfg.max_attempts db >>= λ x. some x.1
  transact now promotes db = some (promote_next_test now db).0

  -- `pqxx::work` without `commit`
  abbrev pub committed : Db F → Option (Db F) → Db F
  committed db none = db
  committed db (some next) = next

  unfoldable pub step : ℕ × Event F → Db F → Db F
  step (now, e) db = committed db (transact now e db)

  unfoldable pub run : List (ℕ × Event F) → Db F → Db F
  run [] db = db
  run (e ∷ es) db = run es (step e db)
