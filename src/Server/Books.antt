-- ===== src/Server/Books.antt =====
-- server/books.cpp: `epd_to_fen` and `sample_book`, on the lines of a book. A text is its list of
-- bytes.
pub mod Sampled
use Prim.Native.Nat.{bit_xor}
use capi_net.Base.{
  ℕ, zero, suc, ◌+◌, ◌*◌, ◌/◌, ◌%◌, ◌^◌, Bool, true, false, not, ◌&&◌, ◌||◌, Option, none, some,
  List, [], ◌∷◌, ◌++◌, ltb, leb, ◌==◌, if◌then◌else◌, length, set, all, contains, count_where,
}
use capi_net.Base.Numerals.{is_blank}

-- One step of reading words from the right: a word goes on, or starts after a space.
abbrev pub join_word : ℕ → Bool → List (List ℕ) → List (List ℕ)
join_word c false ws = (c ∷ []) ∷ ws
join_word c true [] = (c ∷ []) ∷ []
join_word c true (w ∷ ws) = (c ∷ w) ∷ ws

abbrev pub opens_word : List ℕ → Bool
opens_word [] = false
opens_word (c ∷ _) = not (is_blank c)

-- the words that `>>` reads from a stream
unfoldable pub words : List ℕ → List (List ℕ)
words [] = []
words (c ∷ cs) =
    let rest = words cs in if is_blank c then rest else join_word c (opens_word cs) rest

unfoldable pub is_counter : List ℕ → Bool
is_counter s = not (length s == 0) && all (λ c. leb b'0' c && leb c b'9') s

-- "pnbrqkPNBRQK12345678" and the slash
abbrev pub is_board_char : ℕ → Bool
is_board_char c =
    contains c
      (b'p' ∷ b'n' ∷ b'b' ∷ b'r' ∷ b'q' ∷ b'k' ∷ b'P' ∷ b'N' ∷ b'B' ∷ b'R' ∷ b'Q' ∷ b'K' ∷ [])
    || (leb b'1' c && leb c b'8')

abbrev pub side_to_move : List ℕ → Bool
side_to_move (c ∷ []) = c == b'w' || c == b'b'
side_to_move _ = false

abbrev pub is_comment : List ℕ → Bool
is_comment [] = false
is_comment (c ∷ _) = c == b'#'

abbrev pub valid_board : List ℕ → Bool
valid_board board =
    all (λ c. c == b'/' || is_board_char c) board && count_where (λ c. c == b'/') board + 1 == 8

-- the counters of a FEN, or 0 1
abbrev pub counters : List (List ℕ) → List ℕ
counters (half ∷ full ∷ _) =
    if is_counter half && is_counter full
    then 32 ∷ half ++ 32 ∷ full
    else 32 ∷ b'0' ∷ 32 ∷ b'1' ∷ []
counters _ = 32 ∷ b'0' ∷ 32 ∷ b'1' ∷ []

abbrev pub fen_of : List (List ℕ) → Option (List ℕ)
fen_of (board ∷ side ∷ castling ∷ ep ∷ rest) =
    if not (is_comment board) && side_to_move side && valid_board board
    then some (board ++ 32 ∷ side ++ 32 ∷ castling ++ 32 ∷ ep ++ counters rest)
    else none
fen_of _ = none

unfoldable pub epd_to_fen : List ℕ → Option (List ℕ)
epd_to_fen line = fen_of (words line)

-- SplitMix64: the next state and the number drawn
unfoldable pub next : ℕ → ℕ × ℕ
next state =
    let s = (state + 0x9e3779b97f4a7c15) % 2 ^ 64 in
    let z1 = bit_xor s (s / 2 ^ 30) * 0xbf58476d1ce4e5b9 % 2 ^ 64 in
    let z2 = bit_xor z1 (z1 / 2 ^ 27) * 0x94d049bb133111eb % 2 ^ 64 in (s, bit_xor z2 (z2 / 2 ^ 31))

pub record Reservoir : Type 0 where
  pub kept : List (List ℕ)
  pub rng : ℕ
  pub seen : ℕ

-- the callback of `sample_book`
unfoldable pub offer : ℕ → List ℕ → Reservoir → Reservoir
offer k fen r =
    if ltb (length r.kept) k
    then record { kept = r.kept ++ fen ∷ []; rng = r.rng; seen = r.seen + 1 }
    else let draw = next r.rng in
      let j = draw.1 % (r.seen + 1) in
      record {
        kept = if ltb j k then set r.kept j fen else r.kept;
        rng = draw.0;
        seen = r.seen + 1;
      }

abbrev pub offer_line : ℕ → Option (List ℕ) → Reservoir → Reservoir
offer_line k none r = r
offer_line k (some fen) r = offer k fen r

unfoldable pub sample_from : ℕ → List (List ℕ) → Reservoir → Reservoir
sample_from k [] r = r
sample_from k (line ∷ lines) r = sample_from k lines (offer_line k (epd_to_fen line) r)

-- the lines of the book, the number of positions asked for, the seed
unfoldable pub sample_book : List (List ℕ) → ℕ → ℕ → List (List ℕ)
sample_book lines k seed =
    (sample_from k lines (record { kept = []; rng = seed % 2 ^ 64; seen = 0 })).kept

-- what `count_book_positions` counts when its cache has no entry
abbrev pub is_position : Option (List ℕ) → Bool
is_position none = false
is_position (some _) = true

unfoldable pub count_book_positions : List (List ℕ) → ℕ
count_book_positions lines = count_where (λ l. is_position (epd_to_fen l)) lines
