-- ===== src/Server/Http/Web.antt =====
-- server/http/web_routes.cpp: the data behind the pages, before `guarded`, and the downloads of
-- the games of a test. A file is an argument: its text, or `none` if it does not open. Every write
-- to a sink is taken; one that is refused ends the download as an exception does. The instants of
-- the points of a history and of the last games are left out.
pub mod Download
use Prim.Native.String.{◌++◌ as joins}
use capi_net.Base.{
  ℕ, zero, suc, ◌+◌, ◌*◌, ◌-◌, min, Bool, true, false, not, ◌&&◌, ◌||◌, Option, none, some, List,
  [], ◌∷◌, map, String, ltb, leb, ◌==◌, if◌then◌else◌, length, take, drop, ◌>>=◌, sum_of, ◌++◌,
}
use capi_net.Base.Json.{Value, null, boolean, real, string, number, nullable, object_of, array_of}
use capi_net.Base.Numerals.{codes, show}
use capi_net.Server.Schema.{Db, HistoryRow}
use capi_net.Server.Spec.{SprtPresetBounds, valid_book_name}
use capi_net.Server.Stats.{Doubles}
use capi_net.Server.Config.{ServerConfig}
use capi_net.Server.Reports.{
  PgnChunk, PgnManifestEntry, stats_history, game_pgn, pgn_batch, pgn_manifest, pgn_range,
  test_exists, test_speed,
}
use capi_net.Server.Reports.Fleet.{TestClient, test_clients, ClientSummary, all_clients}
use capi_net.Server.Http.{
  Result, returns, and_then, or_throw, Response, Request, Content, page, json, send_json,
  send_error, path_id, param,
}
use capi_net.Server.Http.Words.{client_text, pinning_text}
use capi_net.Server.Http.Site.{Site}

-- a file of a directory, as `fs::directory_iterator` gives it
pub record BookFile : Type 0 where
  pub name : String
  pub is_regular : Bool
  pub is_epd : Bool
  pub size_bytes : ℕ
  pub positions : ℕ

-- a text in thousandths, nodes and time of a speed
abbrev pub ratio_of : {F : Type 0} → Doubles F → ℕ × ℕ → F
ratio_of d (n, m) = d.over (d.of_count n) (d.of_count m)

abbrev pub is_book : BookFile → Bool
is_book f = f.is_regular && f.is_epd && valid_book_name (codes f.name)

module _ {F : Type 0} where
  unfoldable pub serve_page : String → Option String → Response F
  serve_page file none = send_error 500 "web_ui_missing" (joins "arquivo não encontrado: " file)
  serve_page file (some text) = record {
    status = 200;
    content = page "text/html; charset=utf-8" text;
  }

  abbrev pub preset_json : SprtPresetBounds F → Value F
  preset_json b = object_of (
      ("elo0", real b.elo0)
      ∷ ("elo1", real b.elo1)
      ∷ ("alpha", real b.alpha)
      ∷ ("beta", real b.beta)
      ∷ [])

  unfoldable pub config_route : ServerConfig F → Response F
  config_route cfg = send_json 200 (
      object_of (
        ("github_repo", string cfg.github_repo)
        ∷ (
          "presets",
          object_of (
              ("gainer", preset_json cfg.sprt_presets.gainer_bounds)
              ∷ ("nonreg", preset_json cfg.sprt_presets.nonreg_bounds)
              ∷ []),
        )
        ∷ []))

  unfoldable pub books_json : List BookFile → List (Value F)
  books_json [] = []
  books_json (f ∷ fs) =
      let rest = books_json fs in
      if is_book f
      then object_of (
          ("name", string f.name)
          ∷ ("size_bytes", number f.size_bytes)
          ∷ ("positions", number f.positions)
          ∷ [])
        ∷ rest
      else rest

  -- `if (!test_exists(...))`, then the answer
  unfoldable pub of_test :
      Site F → Request F → Db F → (ℕ → Result (Response F)) → Result (Response F × Db F)
  of_test s req db answer = and_then (path_id 0 req) λ id. and_then s.connection λ _.
      if test_exists id db
      then and_then (answer id) (λ r. returns (r, db))
      else returns (send_error 404 "test_not_found" "", db)

  abbrev pub point_json : HistoryRow F → Value F
  point_json p = object_of (
      ("pairs", number p.pairs_valid)
      ∷ ("llr", nullable real p.llr)
      ∷ ("elo", nullable real p.elo)
      ∷ [])

  -- `index` is that of `stats_history`
  unfoldable pub history_route :
      Site F → (ℕ → ℕ → ℕ → ℕ) → Request F → Db F → Result (Response F × Db F)
  history_route s index req db = of_test s req db λ id.
      and_then (or_throw (stats_history index id 1000 db))
        λ ps. returns (send_json 200 (array_of (map point_json ps)))

  abbrev pub factor_json : Doubles F → Option ℕ → Value F
  factor_json d f = nullable (λ n. real (d.over (d.of_count n) (d.literal "1000.0"))) f

  unfoldable pub test_client_json : Site F → TestClient → Value F
  test_client_json s c = object_of (
      ("client_id", number c.client_id)
      ∷ ("name", string c.reg.name)
      ∷ ("status", string (client_text c.status))
      ∷ ("pinning_mode", string (pinning_text c.reg.pinning_mode))
      ∷ ("cpu_model", nullable string c.reg.cpu_model)
      ∷ ("core_topology", nullable string c.reg.core_topology)
      ∷ ("arch_target", nullable string c.reg.cpu_arch_target)
      ∷ ("fastchess_version", nullable string c.reg.fastchess_version)
      ∷ ("slots", number c.reg.slots)
      ∷ ("cpu_factor", factor_json s.doubles c.cpu_factor)
      ∷ ("pairs_completed", number c.pairs_completed)
      ∷ ("games_invalid", number c.games_invalid)
      ∷ ("pairs_leased", number c.pairs_leased)
      ∷ ("last_seen", string (s.time_text c.last_seen))
      ∷ ("online", boolean c.online)
      ∷ ("nps", nullable (λ r. real (ratio_of s.doubles r)) c.nps)
      ∷ [])

  unfoldable pub test_clients_route :
      Site F → (String → String → Bool) → Request F → Db F → Result (Response F × Db F)
  test_clients_route s by_name req db = of_test s req db λ id.
      returns
        (send_json 200 (array_of (map (test_client_json s) (test_clients by_name s.now id db))))

  unfoldable pub client_json : Site F → ClientSummary → Value F
  client_json s c = object_of (
      ("client_id", number c.client_id)
      ∷ ("name", string c.reg.name)
      ∷ ("status", string (client_text c.status))
      ∷ ("pinning_mode", string (pinning_text c.reg.pinning_mode))
      ∷ ("cpu_model", nullable string c.reg.cpu_model)
      ∷ ("core_topology", nullable string c.reg.core_topology)
      ∷ ("arch_target", nullable string c.reg.cpu_arch_target)
      ∷ ("fastchess_version", nullable string c.reg.fastchess_version)
      ∷ ("os", nullable string c.reg.os)
      ∷ ("slots", number c.reg.slots)
      ∷ ("last_seen", string (s.time_text c.last_seen))
      ∷ ("online", boolean c.online)
      ∷ ("pairs_leased", number c.pairs_leased)
      ∷ ("games_total", number c.games_total)
      ∷ ("nps", nullable (λ r. real (ratio_of s.doubles r)) c.nps)
      ∷ ("nps_games", number c.nps_games)
      ∷ [])

  unfoldable pub clients_route : Site F → Db F → Result (Response F × Db F)
  clients_route s db =
      and_then s.connection
        λ _. returns (send_json 200 (array_of (map (client_json s) (all_clients s.now 200 db))), db)

  -- the ratio is null unless both speeds are there and the baseline's is positive
  abbrev pub speed_ratio : Doubles F → Option (ℕ × ℕ) → Option (ℕ × ℕ) → Value F
  speed_ratio d (some c) (some b) =
      if d.lt (d.literal "0") (ratio_of d b)
      then real (d.over (ratio_of d c) (ratio_of d b))
      else null
  speed_ratio d _ _ = null

  unfoldable pub speed_json : Doubles F → Option (ℕ × ℕ) × Option (ℕ × ℕ) × ℕ → Value F
  speed_json d (candidate, baseline, games) = object_of (
      ("candidate_nps", nullable (λ r. real (ratio_of d r)) candidate)
      ∷ ("baseline_nps", nullable (λ r. real (ratio_of d r)) baseline)
      ∷ ("games", number games)
      ∷ ("ratio", speed_ratio d candidate baseline)
      ∷ [])

  unfoldable pub speed_route : Site F → Request F → Db F → Result (Response F × Db F)
  speed_route s req db =
      of_test s req db λ id. returns (send_json 200 (speed_json s.doubles (test_speed id db)))

  abbrev pub pgn_answer : Option String → Response F
  pgn_answer none = send_error 404 "game_not_found" ""
  pgn_answer (some pgn) = record {
    status = 200;
    content = page "application/x-chess-pgn; charset=utf-8" pgn;
  }

  unfoldable pub game_pgn_route :
      Site F → (String → Option String) → Request F → Db F → Result (Response F × Db F)
  game_pgn_route s gunzip req db = and_then s.connection λ _. and_then (path_id 0 req) λ test_id.
      and_then (path_id 1 req) λ game_id.
        and_then (or_throw (game_pgn gunzip test_id game_id db)) λ pgn. returns (pgn_answer pgn, db)

-- `?all=1`
abbrev pub is_one : Option (List ℕ) → Bool
is_one (some (c ∷ [])) = c == b'1'
is_one _ = false

-- A compressed download: `octets` is the size of a text, `separator` the member that stands behind
-- each game.
module _ (octets : String → ℕ) (separator : String) where
  -- the announced Content-Length
  unfoldable pub total_size : List PgnManifestEntry → ℕ
  total_size manifest = sum_of (λ e. e.gz_bytes) manifest + octets separator * length manifest

  unfoldable pub skip_before : ℕ → List PgnChunk → List PgnChunk
  skip_before id [] = []
  skip_before id (b ∷ bs) =
      let rest = skip_before id bs in if ltb b.game_id id then rest else b ∷ bs

  -- the game of an entry, if it has not changed
  abbrev pub wanted : PgnManifestEntry → List PgnChunk → Option String
  wanted w [] = none
  wanted w (b ∷ bs) =
      if not (b.game_id == w.game_id) || not (octets b.pgn_gz == w.gz_bytes)
      then none
      else some b.pgn_gz

  -- what is written for a part of the manifest; `none` is `return false`
  unfoldable pub fill : List PgnManifestEntry → List PgnChunk → Option (List String)
  fill [] batch = some []
  fill (w ∷ ws) batch =
      let left = skip_before w.game_id batch in
      let rest = fill ws left in wanted w left >>= λ gz. rest >>= λ out. some (gz ∷ separator ∷ out)

  abbrev pub last_id : PgnManifestEntry → List PgnManifestEntry → ℕ
  last_id e [] = e.game_id
  last_id e (f ∷ fs) = last_id f fs

  -- the games of the range of a part
  abbrev pub part_games : {F : Type 0} → ℕ → List PgnManifestEntry → Db F → List PgnChunk
  part_games test_id [] db = []
  part_games test_id (e ∷ es) db = pgn_range test_id e.game_id (last_id e es) db

  -- one call of the provider: what it writes and the new index
  unfoldable pub gz_round :
      {F : Type 0} → ℕ → List PgnManifestEntry → ℕ → Db F → Option (List String × ℕ)
  gz_round test_id manifest next db =
      let until = min (next + 200) (length manifest) in
      let part = take (until - next) (drop next manifest) in
      if leb (length manifest) next
      then some ([], next)
      else fill part (part_games test_id part db) >>= λ out. some (out, until)

  -- what the handler answers: an error, or the manifest of a download and its announced length
  unfoldable pub gz_start :
      {F : Type 0} → Site F → Request F → Db F → Result (Option (List PgnManifestEntry × ℕ))
  gz_start s req db = and_then (path_id 0 req) λ id. and_then s.connection λ _.
      let manifest = pgn_manifest octets id (is_one (param "all" req.params)) db in
      returns (if test_exists id db then some (manifest, total_size manifest) else none)

  -- the calls of the provider, each on the database of its time
  unfoldable pub download :
      {F : Type 0} → ℕ → List PgnManifestEntry → List (Db F) → ℕ → Option (List String × ℕ)
  download test_id manifest [] next = some ([], next)
  download test_id manifest (db ∷ dbs) next = gz_round test_id manifest next db >>= λ w.
      download test_id manifest dbs w.1 >>= λ r. some (w.0 ++ r.0, r.1)

-- One call of the provider of the plain download: a batch behind the cursor, or the end of it.
unfoldable pub plain_batch : (String → Option String) → List PgnChunk → ℕ → Option (List String × ℕ)
plain_batch gunzip [] cursor = some ([], cursor)
plain_batch gunzip (g ∷ gs) cursor =
    let rest = plain_batch gunzip gs g.game_id in
    gunzip g.pgn_gz >>= λ text. rest >>= λ r. some (joins text "\n" ∷ r.0, r.1)

unfoldable pub plain_round :
    {F : Type 0} → (String → Option String) → ℕ → ℕ → Db F → Option (List String × ℕ)
plain_round gunzip test_id cursor db = plain_batch gunzip (pgn_batch test_id cursor 200 db) cursor
