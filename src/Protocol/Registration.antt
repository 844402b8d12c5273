-- ===== src/Protocol/Registration.antt =====
-- The registration of client/main.cpp and POST /api/clients/register.
use text.Mathlib.Text.{◌==◌ as str_eq}
use capi_net.Base.{
  ℕ, ◌^◌, ◌<◌, ◌≤◌, ◌≡◌, refl, true, false, some, none, [], Bool, Bool-cases, inl, inr, String,
}
use Prim.Native.String.{◌++◌}
use Prim.Native.String.append
use Prim.Native.String.compare
use capi_net.Base.Numerals.{show}
use capi_net.Base.Json.{object, lookup}
use capi_net.Server.Types.{PinningMode, pinned, homogeneous_unpinned, qos_hint}
use capi_net.Server.Schema.{Db, ClientRegistration}
use capi_net.Server.Clients
use capi_net.Server.Http.{returns, and_then, ensure, guarded, parse_body}
use capi_net.Server.Http.Words.{pinning_of, pinning_text, among}
use capi_net.Server.Http.Readers.{
  req_string-string, req_count-number, req_enum-meant, opt_string-string, opt_string-missing,
  opt_int-number,
}
use capi_net.Server.Http.Site.{Site}
use capi_net.Server.Http.Routes.{parse_registration, register_route, registered}
use capi_net.Client.Topology.{Topology}
use capi_net.Client.Startup.{Host, client_name, registration_members}
use capi_net.Client.Api
use capi_net.Client.Api.{
  Answer, protocol_error, answer, Getters, ReadsIntegers, request, int64_at, at, register_client,
}
use capi_net.Protocol.{reply_of}

-- what the server keeps of a host
abbrev pub registration_of : Topology → Host → ClientRegistration
registration_of topo h = record {
  name = client_name h.name h.hostname h.slots;
  hostname = some h.hostname;
  os = some topo.os;
  cpu_model = some topo.cpu_model;
  cpu_arch_target = some h.arch_target;
  pinning_mode = h.pinning_mode;
  core_topology = some h.core_topology;
  bench_ref_commit = none;
  fastchess_version = some h.fastchess_version;
  nproc_total = some topo.nproc;
  slots = h.slots;
}

-- The numbers of a host are positive and fit the wire.
abbrev pub HostFits : Topology → Host → Type 0
HostFits topo h = ((1 ≤ topo.nproc) × (topo.nproc < 2 ^ 31)) × ((1 ≤ h.slots) × (h.slots < 2 ^ 31))

joined-filled : (s t : String) → str_eq (s ++ "-" ++ t) "" ≡ false
joined-filled String.[] t =
    rw (append.nil ("-" ++ t), append.cons "-" "" t, compare.cons-nil "-" ("" ++ t)) refl
joined-filled (String.◌∷◌ c s) t =
    rw (append.cons c s ("-" ++ t), compare.cons-nil c (s ++ "-" ++ t)) refl

-- A client always has a name.
client_name-filled :
    (name hostname : String) (slots : ℕ) → str_eq (client_name name hostname slots) "" ≡ false
unfolding client_name
client_name-filled name hostname slots = elim (Bool-cases (str_eq name "")) [
  | inl e ↦ rw e (joined-filled hostname (show slots ++ "slots"))
  | inr e ↦ rw (e, e) refl
]

pinning_of-pinning_text : (m : PinningMode) → pinning_of (pinning_text m) ≡ some m
unfolding among
pinning_of-pinning_text pinned = refl
pinning_of-pinning_text homogeneous_unpinned = refl
pinning_of-pinning_text qos_hint = refl

parse_registration-registration_members :
    (F : Type 0) (topo : Topology) (h : Host)
    → HostFits topo h
    → parse_registration {F = F} (registration_members topo h) ≡ returns (registration_of topo h)
unfolding parse_registration and_then ensure registration_members lookup
parse_registration-registration_members F topo h (nproc, slots) =
    let ms = registration_members {F = F} topo h in
    rw
      (
        req_string-string "name" ms (client_name h.name h.hostname h.slots) refl,
        client_name-filled h.name h.hostname h.slots,
        opt_string-string "hostname" ms h.hostname refl,
        opt_string-string "os" ms topo.os refl,
        opt_string-string "cpu_model" ms topo.cpu_model refl,
        opt_string-string "arch_target" ms h.arch_target refl,
        req_enum-meant "pinning_mode" ms pinning_of (pinning_text h.pinning_mode) h.pinning_mode
            refl (pinning_of-pinning_text h.pinning_mode),
        opt_string-string "core_topology" ms h.core_topology refl,
        opt_string-missing "bench_ref_commit" ms refl,
        opt_string-string "fastchess_version" ms h.fastchess_version refl,
        opt_int-number "nproc" ms 1 topo.nproc refl nproc.0 nproc.1,
        req_count-number "slots" ms 1 h.slots refl slots.0 slots.1,
      )
      refl

-- what the client makes of a result of the server's `register_client`
abbrev pub seen_registration : ℕ × Bool → Answer ℕ
seen_registration (id, true) = protocol_error
seen_registration (id, false) = answer id

module _ {F : Type 0} (g : Getters F) (law : ReadsIntegers g) (s : Site F) where
  register_client-registered :
      (r : ℕ × Bool) (db : Db F)
      → r.0 < 2 ^ 63
      → register_client g (reply_of (registered (r, db)).0) ≡ seen_registration r
  unfolding register_client request int64_at at Api.ensure Api.and_then lookup
  register_client-registered (id, true) db h = refl
  register_client-registered (id, false) db h = rw (law.int64_law id h) refl

  registered-keeps : (r : ℕ × Bool) (db : Db F) → (registered (r, db)).1 ≡ db
  registered-keeps (id, true) db = refl
  registered-keeps (id, false) db = refl

  register_route-registration_members :
      (topo : Topology) (h : Host) (db : Db F)
      → HostFits topo h
      → s.connection ≡ returns tt
      → register_route s
          (record { matches = []; params = []; body = some (object (registration_members topo h)) })
          db
        ≡ returns (registered (Clients.register_client s.now (registration_of topo h) db))
  unfolding register_route and_then parse_body
  register_route-registration_members topo h db f k =
      rw (parse_registration-registration_members F topo h f, k) refl

  -- The registration of a client on its whole way. When a client sends what it says of its host,
  -- with a positive number of slots and of processors that fit an int and with a connection free,
  -- the server registers exactly this host, under the name of the configuration or, if that is
  -- empty, of the host and its slots; the client reads its id, or that of a banned client as a
  -- protocol error, provided the id fits the wire, and the database is the one after
  -- register_client.
  pub register_client-register_route :
      (topo : Topology) (h : Host) (db : Db F)
      → HostFits topo h
      → s.connection ≡ returns tt
      → let result = Clients.register_client s.now (registration_of topo h) db in
        result.0.0 < 2 ^ 63
        → let answered =
            guarded
              (register_route s
                (record {
                  matches = [];
                  params = [];
                  body = some (object (registration_members topo h));
                })
                db)
              db in
          (register_client g (reply_of answered.0) ≡ seen_registration result.0)
          × (answered.1 ≡ result.1)
  unfolding guarded
  register_client-register_route topo h db f k b =
      rw (register_route-registration_members topo h db f k)
        (register_client-registered _ _ b, registered-keeps _ _)
