-- ===== src/Client/Runner/Delivery.antt =====
-- client/runner.cpp: the delivery of a result ends, and a round of a slot settles its pair.
use capi_net.Base.{
  ℕ, ◌+◌, ◌≤◌, ◌≡◌, refl, ◌⊎◌, inl, inr, Bool, true, false, Option, none, some, List, [], ◌∷◌,
  arith, ltb, All, length, Bool-cases, ◌&&◌, ◌==◌, if◌then◌else◌,
}
use capi_net.Client.Api.{
  Answer, transient, protocol_error, answer, SubmitStatus, ClaimStatus, claim_ok, ClaimedPair,
  ClaimResult,
}
use capi_net.Client.Runner.{
  answered, ending_of, returns, Attempt, Ending, RetryState, ends, retries, submit_round,
  submit_rounds, submit_with_retry, first_try, Action, abandons, submits,
}

abbrev pub is_some : Option Ending → Bool
is_some none = false
is_some (some _) = true

round-progress :
    (r : Answer SubmitStatus) (late : Bool) (s : RetryState)
    → s.attempts_after_stop ≤ 3
    → ((e : Ending) × (answered r late true s ≡ ends e))
      ⊎ ((next : RetryState) × (answered r late true s ≡ retries next)
          × (next.attempts_after_stop ≡ s.attempts_after_stop + 1)
          × (next.attempts_after_stop ≤ 3))
round-progress (answer x) late s h = inl (ending_of x, refl)
round-progress protocol_error late s h = inl (returns, refl)
round-progress transient true s h = inl (returns, refl)
round-progress transient false s h = elim (Bool-cases (ltb 3 (s.attempts_after_stop + 1))) [
  | inl e ↦ rw e (inl (returns, refl))
  | inr e ↦ rw e (inr (_, refl, refl, ground arith))
]

rounds-stop :
    (attempts : List Attempt) (s : RetryState)
    → All (λ a. a.stopping ≡ true) attempts
    → 4 ≤ s.attempts_after_stop + length attempts
    → s.attempts_after_stop ≤ 3
    → is_some (submit_rounds attempts s).0 ≡ true
unfolding submit_rounds submit_round
rounds-stop [] s a h k = absurd (omega arith)
rounds-stop (t ∷ rest) s a h k =
    let stopping = a.0 in
    elim (round-progress t.reply t.late s k) [
      | inl (e, ended) ↦
          let same : submit_round t s ≡ ends e = rw stopping ended in rw (same, submit_rounds) refl
      | inr (next, goes, more, few) ↦
          let same : submit_round t s ≡ retries next = rw stopping goes in
          rw (same, submit_rounds) (rounds-stop rest next a.1 (omega arith) few)
    ]

-- With the stop flag set, the delivery of a result ends within four attempts, whatever the server
-- answers.
pub submit_with_retry-stops :
    (attempts : List Attempt)
    → All (λ a. a.stopping ≡ true) attempts
    → 4 ≤ length attempts
    → is_some (submit_with_retry attempts).0 ≡ true
submit_with_retry-stops attempts a h = rounds-stop attempts first_try a (omega arith) (omega arith)

-- the pair that a claim put into the slot's hands
abbrev pub pairs_of : ClaimStatus → List ClaimedPair → List ℕ
pairs_of claim_ok (p ∷ _) = p.pair_id ∷ []
pairs_of _ _ = []

abbrev pub in_answer : Answer ClaimResult → List ℕ
in_answer (answer c) = pairs_of c.status c.pairs
in_answer _ = []

abbrev pub in_hand : Option ℕ → Answer ClaimResult → List ℕ
in_hand none c = []
in_hand (some current) c = in_answer c

-- the pairs given back and the pairs submitted
abbrev pub given_back : List Action → List ℕ
given_back [] = []
given_back (abandons k ∷ rest) = k ∷ given_back rest
given_back (_ ∷ rest) = given_back rest

abbrev pub submitted : List Action → List ℕ
submitted [] = []
submitted (submits k ∷ rest) = k ∷ submitted rest
submitted (_ ∷ rest) = submitted rest

-- whether the pair is of the engines' test and was played to its end
abbrev pub in_play : Option ℕ → Answer ClaimResult → Bool → Bool
in_play (some current) (answer c) played = c.test_id == current && played
in_play _ _ _ = false

-- the pairs are submitted or given back
abbrev pub Settles : Bool → List ℕ → List Action → Type 0
Settles played ids actions =
    (submitted actions ≡ (if played then ids else []))
    × (given_back actions ≡ (if played then [] else ids))
