-- ===== src/Client/Runner.antt =====
-- client/runner.cpp: the delivery of a result and the loop of a slot. What the network, the clock
-- and the other threads do is an argument, one value for each round of a loop.
pub mod Delivery
use capi_net.Base.{
  ℕ, ◌+◌, ◌*◌, ◌++◌, not, Bool, true, false, ◌&&◌, ◌||◌, Option, none, some, List, [], ◌∷◌, String,
  ltb, leb, ◌==◌, if◌then◌else◌, min,
}
use capi_net.Client.Api.{
  Answer, transient, protocol_error, answer, SubmitStatus, accepted, already_completed, lease_lost,
  test_finished, client_banned, ClaimStatus, claim_ok, no_active_test, banned, ClaimedPair,
  ClaimResult,
}

-- A round of `submit_with_retry`: the answer, whether the deadline has passed, the stop flag.
pub record Attempt : Type 0 where
  pub reply : Answer SubmitStatus
  pub late : Bool
  pub stopping : Bool

-- What the function leaves behind: nothing, a call of `wake`, or the flags of a ban.
pub data Ending : Type 0 where
  returns wakes_poll bans : Ending

pub record RetryState : Type 0 where
  pub backoff_s : ℕ
  pub attempts_after_stop : ℕ

pub data Round : Type 0 where
  ends : Ending → Round
  retries : RetryState → Round

abbrev pub ending_of : SubmitStatus → Ending
ending_of accepted = returns
ending_of already_completed = returns
ending_of lease_lost = returns
ending_of test_finished = wakes_poll
ending_of client_banned = bans

-- std::min(backoff * 2, std::chrono::seconds(60))
abbrev pub longer : ℕ → ℕ
longer b = min (b * 2) 60

abbrev pub after_failure : Bool → Bool → RetryState → Round
after_failure true stopping s = ends returns
after_failure false true s =
    let n = s.attempts_after_stop + 1 in
    if ltb 3 n
    then ends returns
    else retries (record { backoff_s = longer s.backoff_s; attempts_after_stop = n })
after_failure false false s =
    retries (record { backoff_s = longer s.backoff_s; attempts_after_stop = s.attempts_after_stop })

abbrev pub answered : Answer SubmitStatus → Bool → Bool → RetryState → Round
answered (answer status) late stopping s = ends (ending_of status)
answered transient late stopping s = after_failure late stopping s
answered protocol_error late stopping s = ends returns

unfoldable pub submit_round : Attempt → RetryState → Round
submit_round a s = answered a.reply a.late a.stopping s

abbrev pub first_try : RetryState
first_try = record { backoff_s = 2; attempts_after_stop = 0 }

abbrev pub continues : ℕ → Round → (RetryState → Option Ending × List ℕ) → Option Ending × List ℕ
continues wait (ends e) go = (some e, [])
continues wait (retries next) go = let later = go next in (later.0, wait ∷ later.1)

-- The loop over the rounds given; `none` is that it still tries. With it, the waits in between.
unfoldable pub submit_rounds : List Attempt → RetryState → Option Ending × List ℕ
submit_rounds [] s = (none, [])
submit_rounds (a ∷ rest) s =
    continues s.backoff_s (submit_round a s) (λ next. submit_rounds rest next)

abbrev pub submit_with_retry : List Attempt → Option Ending × List ℕ
submit_with_retry attempts = submit_rounds attempts first_try

-- What a slot sees in a round of its loop: the engines' test, the answer to a claim of one pair,
-- whether the pair was played to its end, how the delivery of the result ended, whether another
-- thread has set the stop flag, and the pairs that other slots have finished since the last round.
pub record Turn : Type 0 where
  pub engines : Option ℕ
  pub claimed : Answer ClaimResult
  pub played : Bool
  pub delivery : Ending
  pub stopping : Bool
  pub done_by_others : ℕ

pub data Action : Type 0 where
  sleeps : ℕ → Action
  polls wakes : Action
  abandons : ℕ → Action
  submits : ℕ → Action

pub record SlotState : Type 0 where
  pub backoff : ℕ
  pub pairs_done : ℕ
  pub stop : Bool
  pub is_banned : Bool

pub record SlotStep : Type 0 where
  pub state : SlotState
  pub actions : List Action
  pub leaves : Bool

abbrev pub stays : SlotState → List Action → SlotStep
stays s actions = record { state = s; actions = actions; leaves = false }

-- --max-pairs
abbrev pub counts_pair : ℕ → ℕ → SlotState → SlotState
counts_pair max_pairs others s =
    let n = s.pairs_done + others + 1 in
    if ltb 0 max_pairs && leb max_pairs n
    then record s { pairs_done = n; stop = true }
    else record s { pairs_done = n }

abbrev pub after_delivery : Ending → SlotState → SlotState
after_delivery bans s = record s { stop = true; is_banned = true }
after_delivery _ s = s

abbrev pub wakes_after : Ending → List Action
wakes_after wakes_poll = wakes ∷ []
wakes_after _ = []

-- the pair in hand: `current` is the test of the engines
unfoldable pub handle_pair : ℕ → ℕ → ℕ → ClaimedPair → Turn → SlotState → SlotStep
handle_pair max_pairs current test_id pair turn s =
    if not (test_id == current)
    then stays s (abandons pair.pair_id ∷ wakes ∷ sleeps 2 ∷ [])
    else if turn.played
    then stays (counts_pair max_pairs turn.done_by_others (after_delivery turn.delivery s))
        (submits pair.pair_id ∷ wakes_after turn.delivery)
    else record { state = s; actions = abandons pair.pair_id ∷ []; leaves = true }

abbrev pub first_pair : ℕ → ℕ → ℕ → List ClaimedPair → Turn → SlotState → SlotStep
first_pair max_pairs current test_id [] turn s = stays s (polls ∷ [])
first_pair max_pairs current test_id (p ∷ _) turn s = handle_pair max_pairs current test_id p turn s

abbrev pub handle_claim : ℕ → ℕ → ClaimStatus → ClaimResult → Turn → SlotState → SlotStep
handle_claim max_pairs current banned c turn s = record {
  state = record s { stop = true; is_banned = true };
  actions = [];
  leaves = true;
}
handle_claim max_pairs current no_active_test c turn s = stays s (polls ∷ [])
handle_claim max_pairs current claim_ok c turn s =
    first_pair max_pairs current c.test_id c.pairs turn s

abbrev pub on_claim : ℕ → ℕ → Answer ClaimResult → Turn → SlotState → SlotStep
on_claim max_pairs current transient turn s =
    stays (record s { backoff = longer s.backoff }) (sleeps s.backoff ∷ [])
on_claim max_pairs current protocol_error turn s = stays s (polls ∷ [])
on_claim max_pairs current (answer c) turn s =
    handle_claim max_pairs current c.status c turn (record s { backoff = 2 })

abbrev pub on_engines : ℕ → Option ℕ → Turn → SlotState → SlotStep
on_engines max_pairs none turn s = stays s (sleeps 2 ∷ [])
on_engines max_pairs (some current) turn s = on_claim max_pairs current turn.claimed turn s

-- one round of `slot_loop`
unfoldable pub slot_round : ℕ → Turn → SlotState → SlotStep
slot_round max_pairs turn s = on_engines max_pairs turn.engines turn s

-- the loop, until the stop flag, a break, or the end of the rounds given
unfoldable pub slot_loop : ℕ → List Turn → SlotState → SlotState × List Action
slot_loop max_pairs [] s = (s, [])
slot_loop max_pairs (turn ∷ turns) s =
    let r = slot_round max_pairs turn s in
    let later = slot_loop max_pairs turns r.state in
    if s.stop || turn.stopping
    then (s, [])
    else if r.leaves
    then (r.state, r.actions)
    else (later.0, r.actions ++ later.1)
