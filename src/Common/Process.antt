-- ===== src/Common/Process.antt =====
-- common/process.cpp: `tail_lines`, on the codes of a text. The process itself is run by the
-- operating system.
use capi_net.Base.{
  All, true, false, ℕ, ◌+◌, ◌<◌, ◌≡◌, refl, sym, ◌∙◌, arith, Bool, List, [], ◌∷◌, ◌++◌, ◌==◌,
  if◌then◌else◌, count_where, append_assoc, ap, ==_iff, ◌⊎◌, inl, inr, Bool-cases,
}

abbrev pub is_newline : ℕ → Bool
is_newline c = c == b'\n'

-- a text from its end
unfoldable pub backwards : List ℕ → List ℕ → List ℕ
backwards [] out = out
backwards (c ∷ cs) out = backwards cs (c ∷ out)

-- `while (end > 0 && text[end - 1] == '\n') --end`
unfoldable pub skip_newlines : List ℕ → List ℕ
skip_newlines [] = []
skip_newlines (c ∷ cs) = let rest = skip_newlines cs in if is_newline c then rest else c ∷ cs

-- the loop over `pos`: `lines` newlines have been passed, and `out` stands behind `pos`
unfoldable pub take_lines : ℕ → ℕ → List ℕ → List ℕ → List ℕ
take_lines max_lines lines [] out = out
take_lines max_lines lines (c ∷ cs) out =
    let passed = take_lines max_lines (lines + 1) cs (c ∷ out) in
    let within = take_lines max_lines lines cs (c ∷ out) in
    if is_newline c then (if lines + 1 == max_lines then out else passed) else within

unfoldable pub tail_lines : List ℕ → ℕ → List ℕ
tail_lines text max_lines = take_lines max_lines 0 (skip_newlines (backwards text [])) []

backwards-append : (cs out : List ℕ) → backwards cs out ≡ backwards cs [] ++ out
unfolding backwards
backwards-append [] out = refl
backwards-append (c ∷ cs) out =
    rw (backwards-append cs (c ∷ out), backwards-append cs (c ∷ []))
      (sym (append_assoc (backwards cs []) (c ∷ []) out))

-- the last lines of a text, `m` at most: the whole text with fewer newlines, or what stands behind a
-- newline, with `m - 1` of them
abbrev pub LastLines : ℕ → List ℕ → List ℕ → Type 0
LastLines m text out =
    (before : List ℕ) × (text ≡ before ++ out)
    × (((before ≡ []) × (count_where is_newline out < m))
        ⊎ ((front : List ℕ) × (before ≡ front ++ b'\n' ∷ [])
            × (count_where is_newline out + 1 ≡ m)))

take_lines-LastLines :
    (max_lines lines : ℕ) (cs out : List ℕ)
    → lines < max_lines
    → count_where is_newline out ≡ lines
    → LastLines max_lines (backwards cs out) (take_lines max_lines lines cs out)
unfolding take_lines backwards
take_lines-LastLines m l [] out h k = ([], refl, inl (refl, omega arith))
take_lines-LastLines m l (c ∷ cs) out h k = elim (Bool-cases (is_newline c)) [
  | inl e ↦ elim (Bool-cases (l + 1 == m)) [
    | inl f ↦
        rw (e, f)
          (
            backwards cs [] ++ c ∷ [],
            backwards-append cs (c ∷ out) ∙ sym (append_assoc (backwards cs []) (c ∷ []) out),
            inr (
              backwards cs [],
              ap (λ d. backwards cs [] ++ d ∷ []) ((==_iff c b'\n').0 e),
              ground arith,
            ),
          )
    | inr f ↦ rw (e, f) (take_lines-LastLines m (l + 1) cs (c ∷ out) (ground arith) (ground arith))
  ]
  | inr e ↦ rw e (take_lines-LastLines m l cs (c ∷ out) h (ground arith))
]

backwards-join : (xs ys out : List ℕ) → backwards (xs ++ ys) out ≡ backwards ys (backwards xs out)
unfolding backwards
backwards-join [] ys out = refl
backwards-join (x ∷ xs) ys out = backwards-join xs ys (x ∷ out)

backwards-twice : (xs out : List ℕ) → backwards (backwards xs out) [] ≡ backwards out xs
unfolding backwards
backwards-twice [] out = refl
backwards-twice (x ∷ xs) out = backwards-twice xs (x ∷ out)

backwards-All : (P : ℕ → Type 0) (xs out : List ℕ) → All P xs → All P out → All P (backwards xs out)
unfolding backwards
backwards-All P [] out a b = b
backwards-All P (x ∷ xs) out a b = backwards-All P xs (x ∷ out) a.1 (a.0, b)

abbrev pub ends_in_newline : List ℕ → Bool
ends_in_newline [] = false
ends_in_newline (c ∷ []) = is_newline c
ends_in_newline (c ∷ d ∷ ds) = ends_in_newline (d ∷ ds)

ends_in_newline-append : (xs : List ℕ) (c : ℕ) → ends_in_newline (xs ++ c ∷ []) ≡ is_newline c
ends_in_newline-append [] c = refl
ends_in_newline-append (x ∷ []) c = refl
ends_in_newline-append (x ∷ y ∷ ys) c = ends_in_newline-append (y ∷ ys) c

abbrev IsNewline : ℕ → Type 0
IsNewline c = is_newline c ≡ true

skipped :
    (r : List ℕ)
    → (front : List ℕ) × (r ≡ front ++ skip_newlines r)
      × All IsNewline front
      × (ends_in_newline (backwards (skip_newlines r) []) ≡ false)
unfolding skip_newlines backwards
skipped [] = ([], refl, tt, refl)
skipped (c ∷ cs) = elim (Bool-cases (is_newline c)) [
  | inl e ↦
      let (front, same, all, clean) = skipped cs in
      rw e (c ∷ front, ap (λ l. c ∷ l) same, (e, all), clean)
  | inr e ↦ rw e (
    [],
    refl,
    tt,
    ap ends_in_newline (backwards-append cs (c ∷ []))
        ∙ ends_in_newline-append (backwards cs []) c
        ∙ e,
  )
]

-- a text is a body, which does not end in a newline, and newlines
abbrev pub Trimmed : List ℕ → List ℕ → Type 0
Trimmed text body =
    (breaks : List ℕ) × (text ≡ body ++ breaks)
    × All (λ c. is_newline c ≡ true) breaks
    × (ends_in_newline body ≡ false)

backwards-Trimmed :
    (text : List ℕ) → Trimmed text (backwards (skip_newlines (backwards text [])) [])
unfolding backwards
backwards-Trimmed text =
    let r = backwards text [] in
    let rest = skip_newlines r in
    let (front, same, all, clean) = skipped r in
    let whole : text ≡ backwards r [] = sym (backwards-twice text []) in
    (
      backwards front [],
      whole
          ∙ ap (λ l. backwards l []) same
          ∙ backwards-join front rest []
          ∙ backwards-append rest (backwards front []),
      backwards-All IsNewline front [] all tt,
      clean,
    )

-- A log is a body, which does not end in a newline, and newlines behind it; its tail, for a
-- positive number of lines, is the last lines of the body: the whole body where it has fewer
-- newlines than that number, and otherwise what stands behind one of its newlines, with one newline
-- less than the number.
pub tail_lines-last :
    (text : List ℕ) (max_lines : ℕ)
    → 0 < max_lines
    → (body : List ℕ) × Trimmed text body × LastLines max_lines body (tail_lines text max_lines)
unfolding tail_lines
tail_lines-last text m h =
    let rest = skip_newlines (backwards text []) in
    (backwards rest [], backwards-Trimmed text, take_lines-LastLines m 0 rest [] h refl)
