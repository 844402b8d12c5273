-- ===== src/Server/Spec/Accepted.antt =====
-- What a specification that `parse_test_spec` accepts is known to meet, and the insertion of it.
use text.Mathlib.Text.{◌==◌ as str_eq}
use capi_net.Base.{
  ℕ, ◌+◌, ◌≤◌, ◌<◌, ◌≡◌, refl, subst, ap, Bool, true, false, not, ◌&&◌, ◌||◌, Option, none, some,
  List, [], ◌∷◌, ◌++◌, String, arith, leb, length, zero, suc,
}
use capi_net.Base.Int.{ℤ, pos, negsuc}
use capi_net.Base.Numerals.{codes}
use capi_net.Server.Github.{is_full_sha}
use capi_net.Server.Types.{TestKind, sprt, gauntlet, SprtPreset, TestSpec, is_sprt}
use capi_net.Server.Schema.{Db}
use capi_net.Server.Stats.{Doubles, real_services}
use capi_net.Server.Admin.{insert_test, bounds_ok, new_test, char_n}
use capi_net.Server.Spec.{
  Parsed, spec_error, parsed, chain, demand, Json, Body, not_object, object, SprtPresetBounds,
  SprtPresets, TimeControl, Numbers, valid_ref, valid_book_name,
}
use capi_net.Server.Spec.Parse.{
  parse_subject, parse_conditions, Subject, Conditions, parse_fields, parse_test_spec, rules_of,
  in_range, checked_ref, checked_book, checked_hash, checked_pairs, parse_tc, kind_of, req_string,
  opt_string, opt_integer, rule, is_probability,
}

chain-parsed {ℓ} :
    {A B : Type ℓ} (r : Parsed A) (f : A → Parsed B) {b : B}
    → chain r f ≡ parsed b
    → (a : A) × (r ≡ parsed a) × (f a ≡ parsed b)
unfolding chain
chain-parsed (spec_error m) f h = absurd (ground arith)
chain-parsed (parsed a) f h = (a, refl, h)

demand-parsed {ℓ} :
    {A : Type ℓ} (t : Bool) (m : String) (r : Parsed A) {a : A}
    → demand t m r ≡ parsed a
    → (t ≡ true) × (r ≡ parsed a)
unfolding demand
demand-parsed true m r h = (refl, h)
demand-parsed false m r h = absurd (ground arith)

abbrev value_of {ℓ} : {A : Type ℓ} → A → Parsed A → A
value_of a (parsed x) = x
value_of a (spec_error m) = a

parsed_inj {ℓ} : {A : Type ℓ} {a b : A} → Parsed.parsed a ≡ parsed b → a ≡ b
parsed_inj {a} h = ap (value_of a) h

checked-value :
    (t : String → Bool) (m x : String) {y : String}
    → demand (t x) m (parsed x) ≡ parsed y
    → t y ≡ true
checked-value t m x {y} h =
    let (ok, e) = demand-parsed (t x) m (parsed x) h in subst (λ z. t z ≡ true) (parsed_inj e) ok

range-bounds :
    (low high : ℕ) (m : String) (z : ℤ) {n : ℕ}
    → in_range low high m z ≡ parsed n
    → (low ≤ n) × (n ≤ high)
range-bounds low high m (pos k) h =
    let (ok, e) = demand-parsed (leb low k && leb k high) m (parsed k) h in
    let same : k ≡ _ = parsed_inj e in ground arith
range-bounds low high m (negsuc k) h = absurd (ground arith)

hash-bounds : (h : Option ℤ) {n : ℕ} → checked_hash h ≡ parsed n → (1 ≤ n) × (n ≤ 4096)
hash-bounds none {n} e = let same : 16 ≡ n = parsed_inj e in (omega arith, omega arith)
hash-bounds (some h) e = range-bounds 1 4096 _ h e

pairs-bounds : (h : Option ℤ) {n : ℕ} → checked_pairs h ≡ parsed n → (1 ≤ n) × (n ≤ 10000000)
pairs-bounds none e = absurd (ground arith)
pairs-bounds (some h) e = range-bounds 1 10000000 _ h e

subject-refs :
    {F : Type 0} (fields : List (String × Json F)) {j : Subject}
    → parse_subject fields ≡ parsed j
    → (valid_ref (codes j.candidate_ref) ≡ true) × (valid_ref (codes j.baseline_ref) ≡ true)
unfolding parse_subject
subject-refs fields {j} h =
    let (k, _, h1) = chain-parsed (req_string "kind" fields) _ h in
    let (kind, _, h2) = chain-parsed (kind_of k) _ h1 in
    let (one, _, h3) = chain-parsed (req_string "candidate_ref" fields) _ h2 in
    let (two, _, h4) = chain-parsed (req_string "baseline_ref" fields) _ h3 in
    let (candidate, c, h5) = chain-parsed (checked_ref one) _ h4 in
    let (baseline, b, h6) = chain-parsed (checked_ref two) _ h5 in
    subst
      (λ x. (valid_ref (codes x.candidate_ref) ≡ true) × (valid_ref (codes x.baseline_ref) ≡ true))
      (parsed_inj h6)
      (
        checked-value (λ x. valid_ref (codes x)) _ _ c,
        checked-value (λ x. valid_ref (codes x)) _ _ b,
      )

module _ {F : Type 0} (d : Doubles F) where
  -- The bounds of a test: none for a gauntlet; for a sequential test, proper ones.
  abbrev pub HasRules :
      TestKind → Option SprtPreset → Option F → Option F → Option F → Option F → Type 0
  HasRules gauntlet p e0 e1 a b = (p ≡ none) × (e0 ≡ none) × (e1 ≡ none) × (a ≡ none) × (b ≡ none)
  HasRules sprt (some p) (some e0) (some e1) (some a) (some b) =
      (d.lt e0 e1 ≡ true) × (is_probability d a ≡ true) × (is_probability d b ≡ true)
  HasRules sprt _ _ _ _ _ = ⊥

  pub record IsAccepted (s : TestSpec F) : Type 0 where
    pub candidate : valid_ref (codes s.candidate_ref) ≡ true
    pub baseline : valid_ref (codes s.baseline_ref) ≡ true
    pub book : valid_book_name (codes s.book_name) ≡ true
    pub base : (0 < s.tc_base_ms) × (s.tc_base_ms ≤ 86400000)
    pub increment : s.tc_increment_ms ≤ 3600000
    pub hash : (1 ≤ s.hash_mb) × (s.hash_mb ≤ 4096)
    pub total : (1 ≤ s.total_pairs) × (s.total_pairs ≤ 10000000)
    pub named : str_eq s.name "" ≡ false
    pub rules : HasRules s.kind s.sprt_preset s.sprt_elo0 s.sprt_elo1 s.sprt_alpha s.sprt_beta

module _ {F : Type 0} (d : Doubles F) (num : Numbers F) where
  abbrev RulesHold : TestKind → Option (SprtPreset × SprtPresetBounds F) → Type 0
  RulesHold k r =
      HasRules d k (rule d (λ x. x.0) r) (rule d (λ x. x.1.elo0) r) (rule d (λ x. x.1.elo1) r)
        (rule d (λ x. x.1.alpha) r) (rule d (λ x. x.1.beta) r)

  parse_tc-bounds :
      (text : String) {tc : TimeControl}
      → parse_tc d num text ≡ parsed tc
      → (0 < tc.base_ms) × (tc.base_ms ≤ 86400000) × (tc.increment_ms ≤ 3600000)
  unfolding parse_tc
  parse_tc-bounds text {tc} h =
      let (base, _, h1) = chain-parsed _ _ h in
      let (inc, _, h2) = chain-parsed _ _ h1 in
      let (positive, h3) = demand-parsed _ _ _ h2 in
      let (small, h4) = demand-parsed _ _ _ h3 in
      let base_ms = num.llround (d.times base (d.literal "1000.0")) in
      let inc_ms = num.llround (d.times inc (d.literal "1000.0")) in
      let ok : (0 < base_ms) × (base_ms ≤ 86400000) × (inc_ms ≤ 3600000) =
        (ground arith, ground arith, ground arith) in
      subst (λ t. (0 < t.base_ms) × (t.base_ms ≤ 86400000) × (t.increment_ms ≤ 3600000))
        (parsed_inj {a = record { base_ms = base_ms; increment_ms = inc_ms }} h4) ok

  rules-HasRules :
      (k : TestKind) (presets : SprtPresets F) (fields : List (String × Json F))
      {r : Option (SprtPreset × SprtPresetBounds F)}
      → rules_of d k presets fields ≡ parsed r
      → RulesHold k r
  unfolding rules_of
  rules-HasRules gauntlet presets fields h =
      let (_, e) = demand-parsed _ _ _ h in
      let ok : RulesHold gauntlet none = (refl, refl, refl, refl, refl) in
      subst (RulesHold gauntlet) (parsed_inj e) ok
  rules-HasRules sprt presets fields h =
      let (p, _, h1) = chain-parsed _ _ h in
      let (preset, _, h2) = chain-parsed _ _ h1 in
      let (r, _, h3) = chain-parsed _ _ h2 in
      let (b, c, h4) = chain-parsed _ _ h3 in
      let (ordered, c1) = demand-parsed _ _ _ c in
      let (likely, _) = demand-parsed _ _ _ c1 in
      let ok : RulesHold sprt (some r) = (ordered, ground arith, ground arith) in
      subst (RulesHold sprt) (parsed_inj h4) ok

  pub record IsFit (c : Conditions) : Type 0 where
    pub book : valid_book_name (codes c.book_name) ≡ true
    pub base : (0 < c.tc.base_ms) × (c.tc.base_ms ≤ 86400000)
    pub increment : c.tc.increment_ms ≤ 3600000
    pub hash : (1 ≤ c.hash_mb) × (c.hash_mb ≤ 4096)
    pub total : (1 ≤ c.total_pairs) × (c.total_pairs ≤ 10000000)

  conditions-IsFit :
      (fields : List (String × Json F)) {c : Conditions}
      → parse_conditions d num fields ≡ parsed c
      → IsFit c
  unfolding parse_conditions
  conditions-IsFit fields {c} h =
      let (tc_text, _, h1) = chain-parsed (req_string "tc" fields) _ h in
      let (tc, t, h2) = chain-parsed (parse_tc d num tc_text) _ h1 in
      let (given, _, h3) = chain-parsed (opt_integer "hash_mb" fields) _ h2 in
      let (hash_mb, m, h4) = chain-parsed (checked_hash given) _ h3 in
      let (book_text, _, h5) = chain-parsed (req_string "book_name" fields) _ h4 in
      let (book, k, h6) = chain-parsed (checked_book book_text) _ h5 in
      let (asked, _, h7) = chain-parsed (opt_integer "total_pairs" fields) _ h6 in
      let (total, n, h8) = chain-parsed (checked_pairs asked) _ h7 in
      let (p, _, h9) = chain-parsed (opt_integer "priority" fields) _ h8 in
      let (by, _, h10) = chain-parsed (opt_string "submitted_by" fields) _ h9 in
      let (positive, small, slow) = parse_tc-bounds tc_text t in
      subst IsFit (parsed_inj h10) (record {
        book = checked-value (λ x. valid_book_name (codes x)) _ _ k;
        base = (positive, small);
        increment = slow;
        hash = hash-bounds given m;
        total = pairs-bounds asked n;
      })

  fields-IsAccepted :
      (fields : List (String × Json F)) (presets : SprtPresets F) {s : TestSpec F}
      → parse_fields d num fields presets ≡ parsed s
      → IsAccepted d s
  unfolding parse_fields
  fields-IsAccepted fields presets {s} h =
      let (j, e, h1) = chain-parsed (parse_subject fields) _ h in
      let (c, f, h2) = chain-parsed (parse_conditions d num fields) _ h1 in
      let (rules, r, h3) = chain-parsed (rules_of d j.kind presets fields) _ h2 in
      let (given, _, h4) = chain-parsed (opt_string "name" fields) _ h3 in
      let (name, g, h5) = chain-parsed _ _ h4 in
      let refs = subject-refs fields e in
      let fit = conditions-IsFit fields f in
      let named = checked-value (λ x. not (str_eq x "")) _ _ g in
      subst (IsAccepted d) (parsed_inj h5) (record {
        candidate = refs.0;
        baseline = refs.1;
        book = fit.book;
        base = fit.base;
        increment = fit.increment;
        hash = fit.hash;
        total = fit.total;
        named = ground arith;
        rules = rules-HasRules j.kind presets fields r;
      })

  -- A specification that parse_test_spec accepts has valid refs and book name, a base time of 1 ms
  -- to 24 h and an increment of at most an hour, 1 to 4096 MB of hash, 1 to 10000000 pairs and a
  -- name; a gauntlet has no SPRT bounds, a sequential test has a preset, elo0 below elo1 and error
  -- rates strictly between 0 and 1.
  pub parse_test_spec-IsAccepted :
      (body : Body F) (presets : SprtPresets F) {s : TestSpec F}
      → parse_test_spec d num body presets ≡ parsed s
      → IsAccepted d s
  unfolding parse_test_spec
  parse_test_spec-IsAccepted not_object presets h = absurd (ground arith)
  parse_test_spec-IsAccepted (object fields) presets h = fields-IsAccepted fields presets h

HasRules-checks :
    {F : Type 0} (d : Doubles F) (gzip : String → String) (k : TestKind) (p : Option SprtPreset)
    (e0 e1 a b : Option F)
    → HasRules d k p e0 e1 a b
    → (not (is_sprt k) || bounds_ok (real_services d gzip) e0 e1) ≡ true
HasRules-checks d gzip gauntlet p e0 e1 a b h = refl
HasRules-checks d gzip sprt (some p) (some e0) (some e1) (some a) (some b) h = h.0
HasRules-checks d gzip sprt (some p) (some e0) (some e1) (some a) none h = absurd h
HasRules-checks d gzip sprt (some p) (some e0) (some e1) none b h = absurd h
HasRules-checks d gzip sprt (some p) (some e0) none a b h = absurd h
HasRules-checks d gzip sprt (some p) none e1 a b h = absurd h
HasRules-checks d gzip sprt none e0 e1 a b h = absurd h

-- A text of n characters fits CHAR(n) as it is.
char_n-fits : (n : ℕ) (s : String) → length (codes s) ≡ n → char_n n s ≡ some s
unfolding char_n
char_n-fits zero String.[] h = refl
char_n-fits zero (String.◌∷◌ c s) h = absurd (omega (arith, h))
char_n-fits (suc n) String.[] h = absurd (omega (arith, h))
char_n-fits (suc n) (String.◌∷◌ c s) h = rw (char_n-fits n s (omega (arith, h))) refl

sha-fits : (s : String) → is_full_sha (codes s) ≡ true → char_n 40 s ≡ some s
unfolding is_full_sha
sha-fits s h = char_n-fits 40 s (ground (arith, h))

-- A specification that parse_test_spec accepts passes the types and constraints of the table of
-- tests: with two different commits of 40 hexadecimal digits, which is what resolve_ref lets
-- through, insert_test, with the statistics of the source, commits and returns the next id.
pub parse_test_spec-inserts :
    {F : Type 0} (d : Doubles F) (num : Numbers F) (gzip : String → String) (body : Body F)
    (presets : SprtPresets F) (now : ℕ) (candidate baseline : String) (db : Db F) {s : TestSpec F}
    → parse_test_spec d num body presets ≡ parsed s
    → is_full_sha (codes candidate) ≡ true
    → is_full_sha (codes baseline) ≡ true
    → str_eq candidate baseline ≡ false
    → (next : Db F) × (insert_test (real_services d gzip) now s candidate baseline db
        ≡ some (db.next_test, next))
unfolding insert_test
parse_test_spec-inserts d num gzip body presets now candidate baseline db {s} h c b apart =
    let ok = parse_test_spec-IsAccepted d num body presets h in
    let checks = HasRules-checks d gzip s.kind _ _ _ _ _ ok.rules in
    let row = new_test (real_services d gzip) now db.next_test s candidate baseline in
    (
      record db { tests = db.tests ++ row ∷ []; next_test = db.next_test + 1 },
      rw (sha-fits candidate c, sha-fits baseline b) (ground arith),
    )
