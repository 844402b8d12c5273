-- ===== src/Server/Pairs/Runs.antt =====
-- Whole histories of the queue.
use capi_net.Base.{
  ℕ, ◌≡◌, refl, inl, inr, List, [], ◌∷◌, Option, some, Option-cases, ◌>>=◌, >>=-eq-some, some_inj,
}
use capi_net.Server.Schema.{Db, Services}
use capi_net.Server.Admin.{insert_test}
use capi_net.Server.Queue.Submit.{submit_result}
use capi_net.Server.Queue.Leases.{recover_expired_leases}
use capi_net.Server.System.{
  Config, Event, registers, beats, claims, submits, abandons, creates, stops, reorders, concludes,
  recovers, promotes, transact, step, run,
}
use capi_net.Server.Lifecycle.Frame.{promote-Frame}
use capi_net.Server.Pairs.{
  PairsInv, PairsExtend, PairsAdvance, PairsAdvance-trans, PairsAdvance-same,
}
use capi_net.Server.Pairs.Steps.{claim-PairsAdvance, abandon-PairsAdvance}
use capi_net.Server.Pairs.Operations.{
  Frame-PairsAdvance, register-PairsAdvance, heartbeat-PairsAdvance, stop_test-Frame,
  set_priority-Frame, submit-PairsAdvance, recover-PairsAdvance, insert_test-PairsAdvance,
  conclude_smoke-PairsAdvance,
}

module _ {F : Type 0} (sv : Services F) (cfg : Config) where
  chained :
      {A : Type 0} (m : Option (A × Db F)) {db' : Db F}
      → (m >>= λ x. some x.1) ≡ some db'
      → (x : A × Db F) × (m ≡ some x) × (x.1 ≡ db')
  chained m h = let (x, e, h1) = >>=-eq-some m _ h in (x, e, some_inj h1)

  transact-PairsAdvance :
      (now : ℕ) (e : Event F) (db : Db F) {db' : Db F}
      → transact sv cfg now e db ≡ some db'
      → PairsAdvance db db'
  unfolding transact
  transact-PairsAdvance now (registers reg) db h =
      rw (← some_inj h) (register-PairsAdvance now reg db)
  transact-PairsAdvance now (beats k f) db h = rw (← some_inj h) (heartbeat-PairsAdvance now k f db)
  transact-PairsAdvance now (claims locked k n) db h =
      rw (← some_inj h) (claim-PairsAdvance now cfg.lease_ttl_min locked k n db)
  transact-PairsAdvance now (submits p r) db h =
      let (x, e, last) = chained (submit_result sv now p r db) h in
      rw (← last) (submit-PairsAdvance sv now p r db e)
  transact-PairsAdvance now (abandons p k) db h = rw (← some_inj h) (abandon-PairsAdvance p k db)
  transact-PairsAdvance now (creates s a b) db h =
      let (x, e, last) = chained (insert_test sv now s a b db) h in
      rw (← last) (insert_test-PairsAdvance sv now s a b db e)
  transact-PairsAdvance now (stops k) db h =
      rw (← some_inj h) (Frame-PairsAdvance (stop_test-Frame now k db))
  transact-PairsAdvance now (reorders k p) db h =
      rw (← some_inj h) (Frame-PairsAdvance (set_priority-Frame k p db))
  transact-PairsAdvance now (concludes t r) db h = conclude_smoke-PairsAdvance sv now t r db h
  transact-PairsAdvance now (recovers locked) db h =
      let (x, e, last) = chained (recover_expired_leases sv now locked cfg.max_attempts db) h in
      rw (← last) (recover-PairsAdvance sv now locked cfg.max_attempts db e)
  transact-PairsAdvance now promotes db h =
      rw (← some_inj h) (Frame-PairsAdvance (promote-Frame now db))

  step-PairsAdvance : (e : ℕ × Event F) (db : Db F) → PairsAdvance db (step sv cfg e db)
  unfolding step
  step-PairsAdvance (now, e) db = elim (Option-cases (transact sv cfg now e db)) [
    | inl n ↦ rw n (PairsAdvance-same db db refl refl)
    | inr (db', s) ↦ rw s (transact-PairsAdvance now e db s)
  ]

  run-PairsAdvance : (es : List (ℕ × Event F)) (db : Db F) → PairsAdvance db (run sv cfg es db)
  unfolding run
  run-PairsAdvance [] db = PairsAdvance-same db db refl refl
  run-PairsAdvance (e ∷ es) db =
      PairsAdvance-trans db _ _ (step-PairsAdvance e db) (run-PairsAdvance es (step sv cfg e db))

  -- From a state where pair ids are distinct and below the next id and every pair has the columns
  -- that its status calls for (a lease has its client and expiry, a completed pair its client and
  -- time, a discarded pair its reason), every history of requests and tasks reaches a state with
  -- the same properties.
  pub run-PairsInv :
      (es : List (ℕ × Event F)) (db : Db F) → PairsInv db → PairsInv (run sv cfg es db)
  run-PairsInv es db i = (run-PairsAdvance es db i).0

  -- From a state whose pairs meet that invariant, a history loses no pair: each keeps its place,
  -- id, test and position, its attempts never shrink, and its status moves only from pending to
  -- leased and from there to completed, discarded or back to pending; each pair that is added
  -- reached its status from pending.
  pub run-PairsExtend :
      (es : List (ℕ × Event F)) (db : Db F) → PairsInv db → PairsExtend db (run sv cfg es db)
  run-PairsExtend es db i = (run-PairsAdvance es db i).1
