-- ===== src/Server/Reports.antt =====
-- server/reports.cpp: the reads behind the charts and the downloads of a test's games. The
-- step of a thinned history is a double in the source; the index it rounds to is a parameter.
pub mod Fleet
use capi_net.Base.{
  ℕ, zero, suc, ◌+◌, ◌*◌, Bool, true, false, not, ◌&&◌, ◌||◌, Option, none, some, List, [], ◌∷◌,
  ◌++◌, map, String, ltb, leb, ◌==◌, if◌then◌else◌, any, select, find_first, sort_by, take, length,
  get_elem?, ◌>>=◌, sum_of, count_where,
}
use capi_net.Server.Types.{GameReport}
use capi_net.Server.Schema.{GameRow, PgnRow, HistoryRow, Db}

pub record PgnChunk : Type 0 where
  pub game_id : ℕ
  pub pgn_gz : String

pub record PgnManifestEntry : Type 0 where
  pub game_id : ℕ
  pub gz_bytes : ℕ

-- the points of a thinned history; `index i` is `static_cast<std::size_t>(i * step + 0.5)`
unfoldable pub sampled : {A : Type 0} → (ℕ → ℕ) → ℕ → ℕ → List A → Option (List A)
sampled index i zero rows = some []
sampled index i (suc n) rows =
    let rest = sampled index (i + 1) n rows in
    get_elem? rows (index i) >>= λ r. rest >>= λ rs. some (r ∷ rs)

-- out.back() = all.back()
unfoldable pub last_of : {A : Type 0} → List A → Option A
last_of [] = none
last_of (x ∷ []) = some x
last_of (x ∷ y ∷ xs) = last_of (y ∷ xs)

unfoldable pub with_last : {A : Type 0} → A → List A → List A
with_last z [] = []
with_last z (x ∷ []) = z ∷ []
with_last z (x ∷ y ∷ xs) = x ∷ with_last z (y ∷ xs)

abbrev pub thinned : {A : Type 0} → (ℕ → ℕ) → ℕ → List A → Option (List A)
thinned index n rows =
    if leb (length rows) n || ltb n 2
    then some rows
    else sampled index 0 n rows >>= λ out. last_of rows >>= λ z. some (with_last z out)

abbrev pub by_id : GameRow → GameRow → Bool
by_id g h = ltb g.id h.id

abbrev pub chunk_of : GameRow → Option PgnRow → List PgnChunk
chunk_of g none = []
chunk_of g (some p) = record { game_id = g.id; pgn_gz = p.pgn_gz } ∷ []

abbrev pub entry_of : (String → ℕ) → PgnChunk → PgnManifestEntry
entry_of octets c = record { game_id = c.game_id; gz_bytes = octets c.pgn_gz }

-- the games that a speed is measured on, and SUM(nodes) / SUM(time) as a pair
abbrev pub is_set : Option ℕ → Bool
is_set none = false
is_set (some _) = true

abbrev pub or_zero : Option ℕ → ℕ
or_zero none = 0
or_zero (some n) = n

abbrev pub timed : ℕ → GameRow → Bool
timed test_id g =
    g.test_id == test_id
    && g.valid
    && is_set g.report.candidate_nodes
    && is_set g.report.candidate_time_ms
    && is_set g.report.baseline_nodes
    && is_set g.report.baseline_time_ms

-- sum(nodes) / NULLIF(sum(time), 0), as numerator and denominator
abbrev pub ratio : ℕ → ℕ → ℕ → Option (ℕ × ℕ)
ratio n nodes time = if n == 0 || time == 0 then none else some (nodes * 1000, time)

module _ {F : Type 0} where
  -- `none` is a read past the end
  unfoldable pub stats_history : (ℕ → ℕ → ℕ → ℕ) → ℕ → ℕ → Db F → Option (List (HistoryRow F))
  stats_history index test_id max_points db =
      let all = select (λ r. r.test_id == test_id) db.history in
      thinned (index (length all) max_points) max_points all

  -- the join of games and game_pgns
  abbrev pub pgn_of : ℕ → Db F → Option PgnRow
  pgn_of game_id db = find_first (λ p. p.game_id == game_id) db.pgns

  unfoldable pub chunks : List GameRow → Db F → List PgnChunk
  chunks [] db = []
  chunks (g ∷ gs) db = chunk_of g (pgn_of g.id db) ++ chunks gs db

  unfoldable pub game_pgn : (String → Option String) → ℕ → ℕ → Db F → Option (Option String)
  game_pgn gunzip test_id game_id db = read (
      select (λ c. c.game_id == game_id)
        (chunks (select (λ g. g.id == game_id && g.test_id == test_id) db.games) db))
    where
      -- the outer `none` is an exception of the decompression
      read : List PgnChunk → Option (Option String)
      read [] = some none
      read (c ∷ _) = gunzip c.pgn_gz >>= λ pgn. some (some pgn)

  unfoldable pub pgn_batch : ℕ → ℕ → ℕ → Db F → List PgnChunk
  pgn_batch test_id after_game_id limit db = take limit (
      chunks (sort_by by_id (select (λ g. g.test_id == test_id && ltb after_game_id g.id) db.games))
        db)

  unfoldable pub pgn_manifest : (String → ℕ) → ℕ → Bool → Db F → List PgnManifestEntry
  pgn_manifest octets test_id include_invalid db = map (entry_of octets) (
      chunks
        (sort_by by_id
          (select (λ g. g.test_id == test_id && (g.valid || include_invalid)) db.games))
        db)

  unfoldable pub pgn_range : ℕ → ℕ → ℕ → Db F → List PgnChunk
  pgn_range test_id first_id last_id db =
      chunks
        (sort_by by_id
          (select (λ g. g.test_id == test_id && (leb first_id g.id && leb g.id last_id)) db.games))
        db

  unfoldable pub test_exists : ℕ → Db F → Bool
  test_exists test_id db = any (λ t. t.id == test_id) db.tests

  unfoldable pub test_speed : ℕ → Db F → Option (ℕ × ℕ) × Option (ℕ × ℕ) × ℕ
  test_speed test_id db =
      let gs = select (timed test_id) db.games in
      (
        ratio (length gs) (sum_of (λ g. or_zero g.report.candidate_nodes) gs)
            (sum_of (λ g. or_zero g.report.candidate_time_ms) gs),
        ratio (length gs) (sum_of (λ g. or_zero g.report.baseline_nodes) gs)
            (sum_of (λ g. or_zero g.report.baseline_time_ms) gs),
        length gs,
      )
