-- ===== src/Protocol.antt =====
-- The client's calls answered by the server's routes: what client/api.cpp makes of the responses
-- of server/http/routes.cpp, and what the server reads in the client's bodies.
pub mod Registration
pub mod Submits
pub mod Claims
pub mod Active
pub mod Reports
pub mod Delivery
pub mod Tests
use capi_net.Base.Json.{Value, null}
use capi_net.Server.Schema.{Db}
use capi_net.Server.Http.{Response, Content, no_content, json, page}
use capi_net.Client.Api.{Reply, response}

-- what `json::parse` gives of a body: nothing that is JSON for an empty one or a page
abbrev pub parsed : {F : Type 0} → Content F → Value F
parsed no_content = null
parsed (json v) = v
parsed (page mime text) = null

-- a response that arrives
abbrev pub reply_of : {F : Type 0} → Response F → Reply F
reply_of r = response r.status (parsed r.content)
