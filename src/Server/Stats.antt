-- ===== src/Server/Stats.antt =====
-- common/penta.cpp (to_pdf, moments), common/gsprt.cpp and common/elo.cpp. Doubles are an abstract
-- type with the operations of the language and of <cmath>; a literal is given by its text.
pub mod Laws
use capi_net.Base.{
  zero, suc, ℕ, ◌+◌, Bool, true, false, not, ◌&&◌, ◌||◌, Option, none, some, ◌>>=◌, ◌==◌,
  if◌then◌else◌, String,
}
use capi_net.Server.Penta
use capi_net.Server.Penta.{Pentanomial}
use capi_net.Server.Schema.{
  EloEstimate, SprtBounds, SprtDecision, accept_h0, accept_h1, keep_going, Services,
}

-- `double` and the functions of <cmath> that the statistics call
pub record Doubles (F : Type 0) : Type 0 where
  pub literal : String → F
  pub of_count : ℕ → F
  pub plus : F → F → F
  pub minus : F → F → F
  pub times : F → F → F
  pub over : F → F → F
  pub negate : F → F
  pub abs : F → F
  pub sqrt : F → F
  pub log : F → F
  pub log10 : F → F
  pub erfc : F → F
  pub lt : F → F → Bool
  pub le : F → F → Bool

-- std::array<double, 5>
pub record Arr (F : Type 0) : Type 0 where
  pub x0 : F
  pub x1 : F
  pub x2 : F
  pub x3 : F
  pub x4 : F

pub record PentaPdf (F : Type 0) : Type 0 where
  pub count : F
  pub values : Arr F
  pub probs : Arr F

pub record Moments (F : Type 0) : Type 0 where
  pub mean : F
  pub var : F

-- the loops `for (int i = 0; i < 5; ++i)` that fill an array
abbrev pub map_arr : {F G : Type 0} → (F → G) → Arr F → Arr G
map_arr f a = record { x0 = f a.x0; x1 = f a.x1; x2 = f a.x2; x3 = f a.x3; x4 = f a.x4 }

abbrev pub zip_arr : {F : Type 0} → (F → F → F) → Arr F → Arr F → Arr F
zip_arr f a b = record {
  x0 = f a.x0 b.x0;
  x1 = f a.x1 b.x1;
  x2 = f a.x2 b.x2;
  x3 = f a.x3 b.x3;
  x4 = f a.x4 b.x4;
}

-- a loop over the array with an accumulator
abbrev pub fold_arr : {F : Type 0} → (F → F → F) → F → Arr F → F
fold_arr f s a = f (f (f (f (f s a.x0) a.x1) a.x2) a.x3) a.x4

abbrev pub counts_arr : Pentanomial → Arr ℕ
counts_arr p = record { x0 = p.c_ll; x1 = p.c_ld; x2 = p.c_dd_wl; x3 = p.c_wd; x4 = p.c_ww }

-- the loop of both bisections: `up mid` moves the lower end
unfoldable pub bisect : {F : Type 0} → Doubles F → (F → Bool) → ℕ → F → F → F × F
bisect d up zero lo hi = (lo, hi)
bisect d up (suc n) lo hi =
    let mid = d.times (d.literal "0.5") (d.plus lo hi) in
    let above = bisect d up n mid hi in
    let below = bisect d up n lo mid in
    if d.le mid lo || d.le hi mid then (lo, hi) else if up mid then above else below

module _ {F : Type 0} (d : Doubles F) where
  abbrev pub sum_arr : Arr F → F
  sum_arr a = fold_arr d.plus (d.literal "0") a

  unfoldable pub to_pdf : Pentanomial → PentaPdf F
  to_pdf p =
      let reg = map_arr (λ n. if n == 0 then d.literal "1e-3" else d.of_count n) (counts_arr p) in
      let count = sum_arr reg in
      record {
        count = count;
        values = record {
          x0 = d.over (d.literal "0") (d.literal "4.0");
          x1 = d.over (d.literal "1") (d.literal "4.0");
          x2 = d.over (d.literal "2") (d.literal "4.0");
          x3 = d.over (d.literal "3") (d.literal "4.0");
          x4 = d.over (d.literal "4") (d.literal "4.0");
        };
        probs = map_arr (λ r. d.over r count) reg;
      }

  unfoldable pub moments : Arr F → Arr F → Moments F
  moments values probs =
      let mean = sum_arr (zip_arr d.times probs values) in
      record {
        mean = mean;
        var =
            sum_arr
              (zip_arr (λ p v. d.times (d.times p (d.minus v mean)) (d.minus v mean)) probs values);
      }

  -- std::min and std::max of two, std::min_element and std::max_element
  abbrev pub smaller : F → F → F
  smaller a b = if d.lt b a then b else a

  abbrev pub larger : F → F → F
  larger a b = if d.lt a b then b else a

  unfoldable pub midpoint : F × F → F
  midpoint (lo, hi) = d.times (d.literal "0.5") (d.plus lo hi)

  -- the function whose root `secular` seeks
  unfoldable pub secular_sum : Arr F → Arr F → F → F
  secular_sum a p x =
      sum_arr
        (zip_arr (λ ai pi. d.over (d.times pi ai) (d.plus (d.literal "1") (d.times x ai))) a p)

  -- `none` is the std::domain_error
  unfoldable pub secular : Arr F → Arr F → Option F
  secular a p =
      let v = fold_arr smaller a.x0 a in
      let w = fold_arr larger a.x0 a in
      let lo = d.plus (d.over (d.literal "-1.0") w) (d.literal "1e-9") in
      let hi = d.minus (d.over (d.literal "-1.0") v) (d.literal "1e-9") in
      if d.le (d.literal "0") (d.times v w)
      then none
      else some (midpoint (bisect d (λ x. d.lt (d.literal "0") (secular_sum a p x)) 200 lo hi))

  -- one round of `mle_t_value`: the new distribution and its largest change
  unfoldable pub mle_round : PentaPdf F → F → F → Arr F → Option (Arr F × F)
  mle_round hat ref s prev =
      let m = moments hat.values prev in
      let sigma = d.sqrt m.var in
      let a1 =
        map_arr
          (λ v.
            let z = d.over (d.minus m.mean v) sigma in
            d.minus (d.minus v ref) (
              d.over (d.times (d.times s sigma) (d.plus (d.literal "1") (d.times z z)))
                (d.literal "2")))
          hat.values in
      secular a1 hat.probs >>= λ x.
      let next = zip_arr (λ p a. d.over p (d.plus (d.literal "1") (d.times x a))) hat.probs a1 in
      some (next, fold_arr larger (d.literal "0") (zip_arr (λ p q. d.abs (d.minus p q)) prev next))

  unfoldable pub mle_rounds : ℕ → PentaPdf F → F → F → Arr F → Option (Arr F)
  mle_rounds zero hat ref s prev = some prev
  mle_rounds (suc n) hat ref s prev = mle_round hat ref s prev >>= λ r.
      let more = mle_rounds n hat ref s r.0 in
      if d.lt r.1 (d.literal "1e-9") then some r.0 else more

  unfoldable pub mle_t_value : PentaPdf F → F → F → Option (Arr F)
  mle_t_value hat ref s =
      let fifth = d.over (d.literal "1.0") (d.literal "5.0") in
      mle_rounds 10 hat ref s
        (record { x0 = fifth; x1 = fifth; x2 = fifth; x3 = fifth; x4 = fifth })

  abbrev pub nelo_divided_by_nt : F
  nelo_divided_by_nt = d.literal "347.43558552260146"

  unfoldable pub llr_normalized : F → F → Pentanomial → Option F
  llr_normalized nelo0 nelo1 results =
      let t0 = d.times (d.over nelo0 nelo_divided_by_nt) (d.sqrt (d.literal "2.0")) in
      let t1 = d.times (d.over nelo1 nelo_divided_by_nt) (d.sqrt (d.literal "2.0")) in
      let pdf = to_pdf results in
      if Penta.pairs results == 0
      then some (d.literal "0.0")
      else mle_t_value pdf (d.literal "0.5") t0 >>= λ p0.
          mle_t_value pdf (d.literal "0.5") t1 >>= λ p1.
          let gain = zip_arr (λ a b. d.minus (d.log b) (d.log a)) p0 p1 in
          some (d.times pdf.count (sum_arr (zip_arr d.times pdf.probs gain)))

  unfoldable pub sprt_bounds : F → F → SprtBounds F
  sprt_bounds alpha beta = record {
    lower = d.log (d.over beta (d.minus (d.literal "1") alpha));
    upper = d.log (d.over (d.minus (d.literal "1") beta) alpha);
  }

  unfoldable pub sprt_decide : F → SprtBounds F → SprtDecision
  sprt_decide llr b =
      if d.le b.upper llr then accept_h1 else if d.le llr b.lower then accept_h0 else keep_going

  unfoldable pub logistic_elo : F → F
  logistic_elo score =
      let eps = d.literal "1e-3" in
      let top = d.minus (d.literal "1") eps in
      let s = if d.lt score eps then eps else if d.lt top score then top else score in
      d.times (d.literal "-400.0")
        (d.log10 (d.minus (d.over (d.literal "1.0") s) (d.literal "1.0")))

  unfoldable pub phi : F → F
  phi x = d.times (d.literal "0.5") (d.erfc (d.over (d.negate x) (d.sqrt (d.literal "2.0"))))

  unfoldable pub phi_inv : F → Option F
  phi_inv p =
      if d.lt (d.literal "0") p && d.lt p (d.literal "1")
      then some (midpoint (bisect d (λ x. d.lt (phi x) p) 200 (d.literal "-40") (d.literal "40")))
      else none

  -- i / 2.0
  abbrev pub half_scores : Arr F
  half_scores = record {
    x0 = d.over (d.literal "0") (d.literal "2.0");
    x1 = d.over (d.literal "1") (d.literal "2.0");
    x2 = d.over (d.literal "2") (d.literal "2.0");
    x3 = d.over (d.literal "3") (d.literal "2.0");
    x4 = d.over (d.literal "4") (d.literal "2.0");
  }

  unfoldable pub elo_estimate : Pentanomial → Option (EloEstimate F)
  elo_estimate results =
      let pdf = to_pdf results in
      let games = d.times (d.literal "2.0") pdf.count in
      let weights = map_arr (λ p. d.times p pdf.count) pdf.probs in
      let mu = d.over (sum_arr (zip_arr d.times weights half_scores)) games in
      let mu_pair = d.times (d.literal "2.0") mu in
      let var =
        d.over
          (sum_arr (
            zip_arr (λ w h. d.times (d.times w (d.minus h mu_pair)) (d.minus h mu_pair)) weights
              half_scores))
          games in
      let stderr_mu = d.over (d.sqrt var) (d.sqrt games) in
      let m = moments pdf.values pdf.probs in
      phi_inv (d.literal "0.025") >>= λ q_low. phi_inv (d.literal "0.975") >>= λ q_high.
      let ci_low = logistic_elo (d.plus mu (d.times q_low stderr_mu)) in
      let ci_high = logistic_elo (d.plus mu (d.times q_high stderr_mu)) in
      some (record {
        elo = logistic_elo mu;
        ci_low = ci_low;
        ci_high = ci_high;
        ci95_half = d.over (d.minus ci_high ci_low) (d.literal "2.0");
        los = phi (d.over (d.minus mu (d.literal "0.5")) stderr_mu);
        nelo =
            d.times
              (d.over (d.minus m.mean (d.literal "0.5")) (d.sqrt (d.times (d.literal "2.0") m.var)))
              nelo_divided_by_nt;
      })

-- The statistics as the server takes them; gzip is zlib's.
abbrev pub real_services : {F : Type 0} → Doubles F → (String → String) → Services F
real_services d gzip = record {
  elo_estimate = elo_estimate d;
  llr_normalized = llr_normalized d;
  sprt_bounds = sprt_bounds d;
  sprt_decide = sprt_decide d;
  default_error = d.literal "0.05";
  less = d.lt;
  gzip_compress = gzip;
}
