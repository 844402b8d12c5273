-- ===== src/Server/Clients.antt =====
-- server/queue.cpp: `register_client` and `heartbeat`, each one transaction at time `now`.
use capi_net.Base.{
  ℕ, ◌+◌, Bool, Option, none, some, [], ◌∷◌, ◌++◌, ◌==◌, if◌then◌else◌, find_first, update_where,
}
use text.Mathlib.Text.{◌==◌ as str_eq}
use capi_net.Server.Types.{ClientStatus, active, is_banned}
use capi_net.Server.Schema.{ClientRegistration, ClientRow, Db, client_by_id}

-- CASE WHEN status = 'banned' THEN status ELSE 'active' END
abbrev pub revived : ClientStatus → ClientStatus
revived s = if is_banned s then s else active

abbrev pub or_old : Option ℕ → Option ℕ → Option ℕ
or_old none old = old
or_old (some x) old = some x

abbrev pub reregister : ℕ → ClientRegistration → ClientRow → ClientRow
reregister now reg c = record c { reg = reg; status = revived c.status; last_seen = now }

abbrev pub beat : ℕ → Option ℕ → ClientRow → ClientRow
beat now cpu_factor c = record c {
  last_seen = now;
  cpu_factor = or_old cpu_factor c.cpu_factor;
  status = revived c.status;
}

module _ {F : Type 0} where
  -- INSERT ... ON CONFLICT (name) DO UPDATE; the answer is the id and whether it is banned
  unfoldable pub register_client : ℕ → ClientRegistration → Db F → (ℕ × Bool) × Db F
  register_client now reg db = elim (find_first (λ c. str_eq c.reg.name reg.name) db.clients) [
    | none ↦
        let c = new_row reg db in
        (
          (c.id, is_banned c.status),
          record db { clients = db.clients ++ c ∷ []; next_client = db.next_client + 1 },
        )
    | some c ↦ (
      (c.id, is_banned (revived c.status)),
      record db {
        clients = update_where (λ d. str_eq d.reg.name reg.name) (reregister now reg) db.clients;
      },
    )
  ]
    where
      new_row : ClientRegistration → Db F → ClientRow
      new_row reg db = record {
        id = db.next_client;
        reg = reg;
        cpu_factor = none;
        status = active;
        last_seen = now;
      }

  -- `none`: no such client; otherwise whether it is banned
  unfoldable pub heartbeat : ℕ → ℕ → Option ℕ → Db F → Option Bool × Db F
  heartbeat now client_id cpu_factor db = elim (client_by_id client_id db) [
    | none ↦ (none, db)
    | some c ↦ (
      some (is_banned (revived c.status)),
      record db {
        clients = update_where (λ d. d.id == client_id) (beat now cpu_factor) db.clients;
      },
    )
  ]
