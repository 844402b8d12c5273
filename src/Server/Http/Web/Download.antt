-- ===== src/Server/Http/Web/Download.antt =====
-- The compressed download keeps to the length it announces, whatever other requests do between its
-- rounds.
use capi_net.Base.{
  ℕ, zero, suc, ◌+◌, ◌*◌, ◌-◌, ◌≤◌, ◌≡◌, refl, ap, sym, subst, ◌∙◌, arith, min, some, List, [], ◌∷◌,
  ◌++◌, String, length, take, drop, ◌>>=◌, >>=-eq-some, some_inj, sum_of, Bool-cases, inl, inr, leb,
  length-append,
}
use capi_net.Server.Schema.{Db}
use capi_net.Server.Reports.{PgnChunk, PgnManifestEntry}
use capi_net.Server.Http.Web.{total_size, skip_before, wanted, fill, gz_round, part_games, download}

take_none : {A : Type 0} (n : ℕ) → take {A = A} n [] ≡ []
take_none zero = refl
take_none (suc n) = refl

take-length : {A : Type 0} (xs : List A) → take (length xs) xs ≡ xs
take-length [] = refl
take-length (x ∷ xs) = ap (λ ys. x ∷ ys) (take-length xs)

take-split :
    {A : Type 0} (k n : ℕ) (xs : List A) → k ≤ n → take n xs ≡ take k xs ++ take (n - k) (drop k xs)
take-split zero n xs h = ap (λ m. take m xs) (omega arith)
take-split (suc k) zero xs h = absurd (omega arith)
take-split (suc k) (suc n) [] h = sym (take_none (suc n - suc k))
take-split (suc k) (suc n) (x ∷ xs) h =
    let e : n - k ≡ suc n - suc k = omega arith in
    ap (λ ys. x ∷ ys)
      (take-split k n xs (omega arith) ∙ ap (λ m. take k xs ++ take m (drop k xs)) e)

sum_of-append :
    {A : Type 0} (f : A → ℕ) (xs ys : List A) → sum_of f (xs ++ ys) ≡ sum_of f xs + sum_of f ys
sum_of-append f [] ys = omega arith
sum_of-append f (x ∷ xs) ys = omega (arith, sum_of-append f xs ys)

module _ (octets : String → ℕ) (separator : String) where
  total_size-append :
      (xs ys : List PgnManifestEntry)
      → total_size octets separator (xs ++ ys)
        ≡ total_size octets separator xs + total_size octets separator ys
  unfolding total_size
  total_size-append xs ys =
      grind (arith, sum_of-append (λ e. e.gz_bytes) xs ys, length-append xs ys)

  wanted-octets :
      (w : PgnManifestEntry) (batch : List PgnChunk) {gz : String}
      → wanted octets separator w batch ≡ some gz
      → octets gz ≡ w.gz_bytes
  wanted-octets w [] h = cc
  wanted-octets w (b ∷ bs) h = ground arith

  total_size-cons :
      (w : PgnManifestEntry) (ws : List PgnManifestEntry)
      → total_size octets separator (w ∷ ws)
        ≡ w.gz_bytes + (octets separator + total_size octets separator ws)
  unfolding total_size
  total_size-cons w ws = grind arith

  total_size-none : total_size octets separator [] ≡ 0
  unfolding total_size
  total_size-none = grind arith

  fill-octets :
      (ws : List PgnManifestEntry) (batch : List PgnChunk) {out : List String}
      → fill octets separator ws batch ≡ some out
      → sum_of octets out ≡ total_size octets separator ws
  unfolding fill total_size
  fill-octets [] batch h =
      subst (λ out. sum_of octets out ≡ total_size octets separator []) (some_inj h) (grind arith)
  fill-octets (w ∷ ws) batch {out} h =
      let left = skip_before octets separator w.game_id batch in
      let (gz, e, h1) = >>=-eq-some (wanted octets separator w left) _ h in
      let (rest, f, h2) = >>=-eq-some (fill octets separator ws left) _ h1 in
      let size = wanted-octets w left {gz = gz} e in
      let others = fill-octets ws left {out = rest} f in
      subst (λ o. sum_of octets o ≡ total_size octets separator (w ∷ ws)) (some_inj h2)
        (omega (arith, size, others) ∙ sym (total_size-cons w ws))

  module _ (test_id : ℕ) (manifest : List PgnManifestEntry) where
    -- From one index to another, `far` further at most, with the octets of the entries between.
    abbrev Advances : ℕ → ℕ → List String × ℕ → Type 0
    Advances next far (out, n) =
        (n ≡ min (next + far) (length manifest))
        × (total_size octets separator (take next manifest) + sum_of octets out
            ≡ total_size octets separator (take n manifest))

    stays :
        (next far : ℕ) → next ≡ min (next + far) (length manifest) → Advances next far ([], next)
    stays next far e = (e, omega arith)

    part-Advances :
        {F : Type 0} (next until : ℕ) (db : Db F) {out : List String}
        → next ≤ until
        → until ≡ min (next + 200) (length manifest)
        → fill octets separator
            (take (until - next) (drop next manifest))
            (part_games octets separator test_id (take (until - next) (drop next manifest)) db)
          ≡ some out
        → Advances next 200 (out, until)
    part-Advances next until db {out} l e h =
        let part = take (until - next) (drop next manifest) in
        let size = fill-octets part (part_games octets separator test_id part db) {out = out} h in
        let join =
          ap (λ m. total_size octets separator m) (take-split next until manifest l)
          ∙ total_size-append (take next manifest) part in
        (e, omega (arith, size, join))

    -- A round goes 200 entries further, and writes what they announce.
    gz_round-Advances :
        {F : Type 0} (next : ℕ) (db : Db F) {x : List String × ℕ}
        → next ≤ length manifest
        → gz_round octets separator test_id manifest next db ≡ some x
        → Advances next 200 x
    unfolding gz_round
    gz_round-Advances next db {x} h e = elim (Bool-cases (leb (length manifest) next)) [
      | inl t ↦
          subst (Advances next 200) {x = ([], next)} (some_inj (ground arith))
            (stays next 200 (ground arith))
      | inr t ↦
          let until = min (next + 200) (length manifest) in
          let part = take (until - next) (drop next manifest) in
          let filled = fill octets separator part (part_games octets separator test_id part db) in
          let opened : (filled >>= λ out. some (out, until)) ≡ some x = ground arith in
          let (out, f, g) = >>=-eq-some filled (λ out. some (out, until)) opened in
          subst (Advances next 200) (some_inj g)
            (part-Advances next until db {out = out} (ground arith) refl f)
    ]

    joined-Advances :
        (next far more : ℕ) (x y : List String × ℕ)
        → Advances next far x
        → Advances x.1 more y
        → Advances next (far + more) (x.0 ++ y.0, y.1)
    joined-Advances next far more x y a b =
        (omega (arith, a.0, b.0), omega (arith, a.1, b.1, sum_of-append octets x.0 y.0))

    download-Advances :
        {F : Type 0} (dbs : List (Db F)) (next : ℕ) {x : List String × ℕ}
        → next ≤ length manifest
        → download octets separator test_id manifest dbs next ≡ some x
        → Advances next (200 * length dbs) x
    unfolding download
    download-Advances [] next {x} h e =
        subst (Advances next 0) (some_inj e) (stays next 0 (omega arith))
    download-Advances (db ∷ dbs) next {x} h e =
        let (w, e1, e2) = >>=-eq-some (gz_round octets separator test_id manifest next db) _ e in
        let (r, e3, e4) = >>=-eq-some (download octets separator test_id manifest dbs w.1) _ e2 in
        let one = gz_round-Advances next db {x = w} h e1 in
        let others = download-Advances dbs w.1 {x = r} (omega (arith, one.0)) e3 in
        subst2 (some_inj e4) (joined-Advances next 200 (200 * length dbs) w r one others)
      where
        subst2 :
            {y : List String × ℕ}
            → y ≡ x
            → Advances next (200 + 200 * length dbs) y
            → Advances next (200 * suc (length dbs)) x
        subst2 {y} f a = subst (Advances next (200 * suc (length dbs))) f (omega (arith, a.0), a.1)

    -- A compressed download keeps to the length it announces: if none of its rounds aborts and
    -- there are enough rounds for the manifest, it ends at the end of the manifest and has written
    -- exactly the announced number of octets, whatever other requests do to the database between
    -- the rounds.
    pub download-total_size :
        {F : Type 0} (dbs : List (Db F)) {out : List String} {n : ℕ}
        → length manifest ≤ 200 * length dbs
        → download octets separator test_id manifest dbs 0 ≡ some (out, n)
        → (n ≡ length manifest) × (sum_of octets out ≡ total_size octets separator manifest)
    download-total_size dbs {out} {n} h e =
        let a = download-Advances dbs 0 {x = (out, n)} (omega arith) e in
        let done : n ≡ length manifest = omega (arith, a.0) in
        let full =
          ap (λ k. total_size octets separator (take k manifest)) done
          ∙ ap (λ m. total_size octets separator m) (take-length manifest) in
        (done, omega (arith, a.1, full, total_size-none))
