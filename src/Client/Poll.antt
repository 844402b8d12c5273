-- ===== src/Client/Poll.antt =====
-- client/runner.cpp: `Runner::poll_server`, with the result of `prepare_engines` as an argument, and
-- the command line that a pair is played with.
use Prim.Native.String.{◌++◌ as joins}
use capi_net.Base.{
  ℕ, ◌≡◌, refl, Bool, true, false, Option, none, some, List, [], ◌∷◌, ◌++◌, String, arith,
  if◌then◌else◌, is_some_of,
}
use capi_net.Server.Types.{Adjudication, DrawAdjudication, ResignAdjudication}
use capi_net.Client.Api.{Answer, transient, protocol_error, answer}

-- `engines` is the test of the engines that are ready.
pub record RunnerState : Type 0 where
  pub engines : Option ℕ
  pub failed_test : Option ℕ
  pub is_banned : Bool
  pub stop : Bool

-- what `prepare_engines` does: the engines are ready, the build fails, or it throws
pub data Preparation : Type 0 where
  ready build_fails throws : Preparation

-- A test that is neither the engines' nor the one that failed. The engines are reset before the
-- preparation, so they are gone when it throws.
abbrev pub prepares : ℕ → Preparation → RunnerState → RunnerState
prepares test_id ready s = record s { engines = some test_id }
prepares test_id build_fails s = record s { engines = none; failed_test = some test_id }
prepares test_id throws s = record s { engines = none }

abbrev pub follow_test : Option ℕ → Preparation → RunnerState → RunnerState
follow_test none built s = record s { engines = none }
follow_test (some test_id) built s =
    if is_some_of s.engines test_id
    then s
    else if is_some_of s.failed_test test_id
    then s
    else prepares test_id built s

abbrev pub on_active : Answer (Option ℕ) → Preparation → RunnerState → RunnerState
on_active (answer t) built s = follow_test t built s
on_active transient built s = s
on_active protocol_error built s = s

-- One round of `run`, which catches what is thrown: an exception of a call leaves the state as it is.
unfoldable pub poll_server :
    Answer Bool → Answer (Option ℕ) → Preparation → RunnerState → RunnerState
poll_server transient active built s = s
poll_server protocol_error active built s = s
poll_server (answer banned) active built s =
    if banned then record s { is_banned = true; stop = true } else on_active active built s

pub record EngineSet : Type 0 where
  pub test_id : ℕ
  pub candidate : String
  pub baseline : String
  pub tc_base_ms : ℕ
  pub tc_increment_ms : ℕ
  pub hash_mb : ℕ
  pub threads : ℕ
  pub adj : Adjudication

pub record EffectiveTc : Type 0 where
  pub base_ms : ℕ
  pub increment_ms : ℕ

-- `lround_scaled ms` is `std::lround(ms * cpu_factor)`.
unfoldable pub effective_tc : (ℕ → ℕ) → EngineSet → EffectiveTc
effective_tc lround_scaled e = record {
  base_ms = lround_scaled e.tc_base_ms;
  increment_ms = lround_scaled e.tc_increment_ms;
}

module _ (show : ℕ → String) where
  abbrev pub draw_args : Option DrawAdjudication → List String
  draw_args none = []
  draw_args (some d) =
      "-draw"
      ∷ joins "movenumber=" (show d.movenumber)
      ∷ joins "movecount=" (show d.movecount)
      ∷ joins "score=" (show d.score_cp)
      ∷ []

  abbrev pub resign_args : Option ResignAdjudication → List String
  resign_args none = []
  resign_args (some r) =
      "-resign"
      ∷ joins "movecount=" (show r.movecount)
      ∷ joins "score=" (show r.score_cp)
      ∷ joins "twosided=" (if r.twosided then "true" else "false")
      ∷ []

  unfoldable pub adjudication_args : Adjudication → List String
  adjudication_args a = draw_args a.draw_rule ++ resign_args a.resign_rule

  -- `tc_text` is `fastchess_tc` of the time control
  unfoldable pub fastchess_args :
      String → EngineSet → String → String → String → String → List String
  fastchess_args fastchess e tc_text epd pgn event =
      (fastchess
        ∷ "-engine"
        ∷ joins "cmd=" e.candidate
        ∷ "name=candidate"
        ∷ "args=uci"
        ∷ "-engine"
        ∷ joins "cmd=" e.baseline
        ∷ "name=baseline"
        ∷ "args=uci"
        ∷ "-each"
        ∷ joins "tc=" tc_text
        ∷ joins "option.Hash=" (show e.hash_mb)
        ∷ joins "option.Threads=" (show e.threads)
        ∷ "-openings"
        ∷ joins "file=" epd
        ∷ "format=epd"
        ∷ "order=sequential"
        ∷ "-rounds"
        ∷ "1"
        ∷ "-games"
        ∷ "2"
        ∷ "-repeat"
        ∷ "-concurrency"
        ∷ "1"
        ∷ "-pgnout"
        ∷ joins "file=" pgn
        ∷ "notation=san"
        ∷ "append=false"
        ∷ "nodes=true"
        ∷ "nps=true"
        ∷ "-event"
        ∷ event
        ∷ "-ratinginterval"
        ∷ "0"
        ∷ [])
      ++ adjudication_args e.adj

-- what a poll makes of a state, when the test runs and is neither the engines' nor the failed one
abbrev pub Prepared : ℕ → Preparation → RunnerState → RunnerState → Type 0
Prepared k ready s t = (t.engines ≡ some k) × (t.failed_test ≡ s.failed_test)
Prepared k build_fails s t = (t.engines ≡ none) × (t.failed_test ≡ some k)
Prepared k throws s t = (t.engines ≡ none) × (t.failed_test ≡ s.failed_test)

prepares-Prepared : (k : ℕ) (p : Preparation) (s : RunnerState) → Prepared k p s (prepares k p s)
prepares-Prepared k ready s = (refl, refl)
prepares-Prepared k build_fails s = (refl, refl)
prepares-Prepared k throws s = (refl, refl)

is_some_of-own : (k : ℕ) → is_some_of (some k) k ≡ true
is_some_of-own k = ground arith

-- When the server reports no ban and a running test that is neither that of the engines nor the
-- failed one, a poll ends with its engines where they get ready, without engines and with the test
-- marked as failed where the build fails, and without engines and without a mark where the
-- preparation throws; so the next poll prepares again after an exception, but not after a failed
-- build. Engines of the running test stay, and when there is no test a poll ends without engines.
pub poll_server-engines :
    (k : ℕ) (p : Preparation) (s : RunnerState)
    → is_some_of s.failed_test k ≡ false
    → is_some_of s.engines k ≡ false
    → let next = poll_server (answer false) (answer (some k)) p s in
      Prepared k p s next
      × (poll_server
            (answer false)
            (answer (some k))
            ready
            (poll_server (answer false) (answer (some k)) throws s)
          ≡ record s { engines = some k })
      × (poll_server
            (answer false)
            (answer (some k))
            p
            (poll_server (answer false) (answer (some k)) build_fails s)
          ≡ record s { engines = none; failed_test = some k })
      × (poll_server (answer false) (answer (some k)) p (record s { engines = some k })
          ≡ record s { engines = some k })
      × ((poll_server (answer false) (answer none) p s).engines ≡ none)
unfolding poll_server
poll_server-engines k p s h e =
    let own = is_some_of-own k in
    (rw (e, h) (prepares-Prepared k p s), rw (e, h, h) refl, rw (e, h, own) refl, rw own refl, refl)
