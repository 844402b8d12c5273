-- ===== src/Server/Stats/Laws.antt =====
-- The bisections behind the statistics of a test.
use capi_net.Base.{zero, suc, ℕ, ◌≡◌, inl, inr, Bool, true, false, ◌||◌, Bool-cases}
use capi_net.Server.Stats.{Doubles, bisect}

module _ {F : Type 0} (d : Doubles F) where
  -- The bisection behind the secular equation and the inverse normal distribution keeps its
  -- bracket: if the test holds at the lower end and fails at the upper end, the same is true of the
  -- ends that it returns, whatever the number of rounds.
  pub bisect-bracket :
      (up : F → Bool) (n : ℕ) (lo hi : F)
      → up lo ≡ true
      → up hi ≡ false
      → (up (bisect d up n lo hi).0 ≡ true) × (up (bisect d up n lo hi).1 ≡ false)
  unfolding bisect
  bisect-bracket up zero lo hi l h = (l, h)
  bisect-bracket up (suc n) lo hi l h =
      let mid = d.times (d.literal "0.5") (d.plus lo hi) in
      elim (Bool-cases (d.le mid lo || d.le hi mid)) [
        | inl e ↦ rw e (l, h)
        | inr e ↦ elim (Bool-cases (up mid)) [
          | inl u ↦ rw (e, u) (bisect-bracket up n mid hi u h)
          | inr u ↦ rw (e, u) (bisect-bracket up n lo mid l u)
        ]
      ]
