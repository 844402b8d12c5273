-- ===== src/Server/Http/Site.antt =====
-- What the routes of server/http/*.cpp take from outside the source: a free connection of the pool
-- or what `acquire` throws, the clock, the rows that other transactions have locked, Postgres'
-- text of a time, and the functions of the standard library on doubles.
use capi_net.Base.{ℕ, Bool, String}
use capi_net.Server.Schema.{Services}
use capi_net.Server.Stats.{Doubles}
use capi_net.Server.Config.{ServerConfig}
use capi_net.Server.Http.{Result}

pub record Site (F : Type 0) : Type 0 where
  pub services : Services F
  pub doubles : Doubles F
  -- a double in thousandths
  pub milli : F → ℕ
  pub cfg : ServerConfig F
  pub now : ℕ
  pub locked : ℕ → Bool
  pub connection : Result {0} Unit
  pub time_text : ℕ → String
