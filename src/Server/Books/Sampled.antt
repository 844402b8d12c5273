-- ===== src/Server/Books/Sampled.antt =====
-- The size of a sample.
use capi_net.Base.{
  ℕ, ◌+◌, ◌%◌, ◌^◌, ◌≡◌, refl, ◌∙◌, ap, inl, inr, Option, none, some, List, [], ◌∷◌, arith, ltb,
  if◌then◌else◌, length, length-append, length-set, min, count_where, Bool-cases,
}
use capi_net.Server.Books.{
  Reservoir, next, offer, offer_line, epd_to_fen, sample_from, sample_book, is_position,
  count_book_positions,
}

offer-length :
    (k : ℕ) (fen : List ℕ) (r : Reservoir)
    → length r.kept ≡ min k r.seen
    → (length (offer k fen r).kept ≡ min k (offer k fen r).seen)
      × ((offer k fen r).seen ≡ r.seen + 1)
unfolding offer
offer-length k fen r h = elim (Bool-cases (ltb (length r.kept) k)) [
  | inl e ↦ rw e (ground (arith, length-append r.kept (fen ∷ [])), refl)
  | inr e ↦ rw e (ground (arith, length-set r.kept ((next r.rng).1 % (r.seen + 1)) fen), refl)
]

line-length :
    (k : ℕ) (o : Option (List ℕ)) (r : Reservoir)
    → length r.kept ≡ min k r.seen
    → (length (offer_line k o r).kept ≡ min k (offer_line k o r).seen)
      × ((offer_line k o r).seen ≡ r.seen + (if is_position o then 1 else 0))
line-length k none r h = (h, omega arith)
line-length k (some fen) r h = offer-length k fen r h

sampled-length :
    (k : ℕ) (lines : List (List ℕ)) (r : Reservoir)
    → length r.kept ≡ min k r.seen
    → length (sample_from k lines r).kept
      ≡ min k (r.seen + count_where (λ l. is_position (epd_to_fen l)) lines)
unfolding sample_from
sampled-length k [] r h = omega arith
sampled-length k (line ∷ lines) r h =
    let (full, more) = line-length k (epd_to_fen line) r h in
    let rest = count_where (λ l. is_position (epd_to_fen l)) lines in
    let one = if is_position (epd_to_fen line) then 1 else 0 in
    let total : (offer_line k (epd_to_fen line) r).seen + rest ≡ r.seen + (one + rest) =
      omega arith in
    sampled-length k lines (offer_line k (epd_to_fen line) r) full ∙ ap (min k) total

-- A sample of a book has as many positions as were asked for, or all of those that the book has if
-- they are fewer, whatever the seed.
pub sample_book-length :
    (lines : List (List ℕ)) (k seed : ℕ)
    → length (sample_book lines k seed) ≡ min k (count_book_positions lines)
unfolding sample_book count_book_positions
sample_book-length lines k seed =
    sampled-length k lines (record { kept = []; rng = seed % 2 ^ 64; seen = 0 }) (omega arith)
    ∙ omega arith
