-- ===== src/Protocol/Active.antt =====
-- `Api::active_test` and GET /api/active_test, with the rules of adjudication.
use capi_net.Base.{◌≡◌, refl, Option, none, some, ◌^◌, ◌<◌}
use capi_net.Base.Json.{lookup, nullable}
use capi_net.Server.Types.{Adjudication, DrawAdjudication, ResignAdjudication}
use capi_net.Server.Config.{ServerConfig}
use capi_net.Server.Views
use capi_net.Server.Http.{adjudication_json, draw_json, resign_json}
use capi_net.Server.Http.Words.{kind_text}
use capi_net.Server.Http.Routes.{active_answer, active_json, tarball_url}
use capi_net.Client.Api
use capi_net.Client.Api.{
  Answer, answer, Getters, ReadsIntegers, request, at, text_at, int_at, int64_at, bool_at, ensure,
  draw_of, resign_of, rules_of, identity_of, downloads_of, settings_of, active_of,
}
use capi_net.Protocol.{reply_of}

-- The numbers of a rule fit the integers of the wire.
abbrev pub DrawFits : Option DrawAdjudication → Type 0
DrawFits none = Unit
DrawFits (some d) = (d.movenumber < 2 ^ 31) × (d.movecount < 2 ^ 31) × (d.score_cp < 2 ^ 31)

abbrev pub ResignFits : Option ResignAdjudication → Type 0
ResignFits none = Unit
ResignFits (some r) = (r.movecount < 2 ^ 31) × (r.score_cp < 2 ^ 31)

abbrev pub Fits : Views.ActiveTest → Type 0
Fits t =
    (t.test_id < 2 ^ 63)
    × (t.tc_base_ms < 2 ^ 31)
    × (t.tc_increment_ms < 2 ^ 31)
    × (t.hash_mb < 2 ^ 31)
    × (t.threads < 2 ^ 31)
    × DrawFits t.adjudication.draw_rule
    × ResignFits t.adjudication.resign_rule

-- the test as the client plays it
abbrev pub client_test : {F : Type 0} → ServerConfig F → Views.ActiveTest → Api.ActiveTest
client_test cfg t = record {
  test_id = t.test_id;
  kind = kind_text t.kind;
  candidate_commit = t.candidate_commit;
  baseline_commit = t.baseline_commit;
  candidate_tarball_url = tarball_url cfg t.candidate_commit;
  baseline_tarball_url = tarball_url cfg t.baseline_commit;
  tc_base_ms = t.tc_base_ms;
  tc_increment_ms = t.tc_increment_ms;
  hash_mb = t.hash_mb;
  threads = t.threads;
  adjudication = t.adjudication;
}

abbrev pub client_active :
    {F : Type 0} → ServerConfig F → Option Views.ActiveTest → Option Api.ActiveTest
client_active cfg none = none
client_active cfg (some t) = some (client_test cfg t)

abbrev pub ActiveFits : Option Views.ActiveTest → Type 0
ActiveFits none = Unit
ActiveFits (some t) = Fits t

module _ {F : Type 0} (g : Getters F) (law : ReadsIntegers g) where
  draw_of-draw_json :
      (o : Option DrawAdjudication)
      → DrawFits o
      → draw_of g (some (nullable draw_json o)) ≡ answer o
  unfolding int_at at Api.and_then lookup
  draw_of-draw_json none h = refl
  draw_of-draw_json (some d) (n, c, s) =
      rw (law.int_law d.movenumber n, law.int_law d.movecount c, law.int_law d.score_cp s) refl

  resign_of-resign_json :
      (o : Option ResignAdjudication)
      → ResignFits o
      → resign_of g (some (nullable resign_json o)) ≡ answer o
  unfolding int_at bool_at at Api.and_then lookup
  resign_of-resign_json none h = refl
  resign_of-resign_json (some r) (c, s) =
      rw (law.int_law r.movecount c, law.int_law r.score_cp s) refl

  rules_of-adjudication_json :
      (a : Adjudication)
      → DrawFits a.draw_rule
      → ResignFits a.resign_rule
      → rules_of g (some (adjudication_json a)) ≡ answer a
  unfolding adjudication_json Api.and_then lookup
  rules_of-adjudication_json a d r =
      rw (draw_of-draw_json a.draw_rule d, resign_of-resign_json a.resign_rule r) refl

  active_of-active_json :
      (cfg : ServerConfig F) (t : Views.ActiveTest)
      → Fits t
      → active_of g (active_json cfg t) ≡ answer (client_test cfg t)
  unfolding active_of identity_of downloads_of settings_of text_at int_at int64_at at Api.and_then
      lookup
  active_of-active_json cfg t (id, base, increment, hash, threads, d, r) =
      rw
        (
          law.int64_law t.test_id id,
          law.int_law t.tc_base_ms base,
          law.int_law t.tc_increment_ms increment,
          law.int_law t.hash_mb hash,
          law.int_law t.threads threads,
          rules_of-adjudication_json t.adjudication d r,
        )
        refl

  -- The active test that the server answers with reaches the client whole: ids, commits, download
  -- URLs, clocks, hash, threads and both rules of adjudication, each of which may be off, provided
  -- the numbers fit the integers of the wire; without an active test the client reads none.
  pub active_test-active_answer :
      (cfg : ServerConfig F) (o : Option Views.ActiveTest)
      → ActiveFits o
      → Api.active_test g (reply_of (active_answer cfg o)) ≡ answer (client_active cfg o)
  unfolding Api.active_test request ensure Api.and_then
  active_test-active_answer cfg none h = refl
  active_test-active_answer cfg (some t) h = rw (active_of-active_json cfg t h) refl
