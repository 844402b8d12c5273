-- ===== src/Server/Pool/Bounds.antt =====
-- The pool as a counting semaphore: it refines an abstract state with a number of free places.
use capi_net.Base.{ℕ, ◌+◌, ◌-◌, ◌≤◌, ◌<◌, ◌≡◌, ◌↔◌, subst, refl, arith, Bool, true, false}
use capi_net.Server.Pool.{
  PoolState, new_pool, can_acquire, take_place, connect, release, PoolStep, acquires, connects,
  releases, PoolRun, stays, then_step,
}

-- Every connection that is counted is idle, held or being made, and there are `size` at most.
pub record PoolInv (size : ℕ) (s : PoolState) : Type 0 where
  pub counted : s.created ≡ s.idle + s.connecting + s.held
  pub bounded : s.created ≤ size

-- The specification: a semaphore of `size` permits, of which the threads inside hold some.
pub data Permit (size : ℕ) : ℕ → ℕ → Type 0 where
  enters : {inside : ℕ} → inside < size → Permit size inside (inside + 1)
  leaves : {inside : ℕ} → 0 < inside → Permit size inside (inside - 1)
  goes_on : {inside : ℕ} → Permit size inside inside

-- the threads that have a connection or wait for one to be made
abbrev pub inside : PoolState → ℕ
inside s = s.connecting + s.held

step-PoolInv : (size : ℕ) {s t : PoolState} → PoolInv size s → PoolStep size s t → PoolInv size t
unfolding can_acquire take_place connect release
step-PoolInv size inv (acquires {s} h) = record {
  counted = ground (arith, inv.counted);
  bounded = ground (arith, inv.bounded, inv.counted);
}
step-PoolInv size inv (connects {s} true h) = record {
  counted = omega (arith, inv.counted);
  bounded = inv.bounded;
}
step-PoolInv size inv (connects {s} false h) = record {
  counted = omega (arith, inv.counted);
  bounded = omega (arith, inv.bounded);
}
step-PoolInv size inv (releases {s} true h) = record {
  counted = omega (arith, inv.counted);
  bounded = inv.bounded;
}
step-PoolInv size inv (releases {s} false h) = record {
  counted = omega (arith, inv.counted);
  bounded = omega (arith, inv.bounded);
}

run-PoolInv : (size : ℕ) {s t : PoolState} → PoolInv size s → PoolRun size s t → PoolInv size t
run-PoolInv size inv stays = inv
run-PoolInv size inv (then_step r p) = step-PoolInv size (run-PoolInv size inv r) p

-- In every state that the threads reach, the connections that are counted are those that are idle,
-- being made or held, and there are size at most.
pool-PoolInv : (size : ℕ) {s : PoolState} → PoolRun size new_pool s → PoolInv size s
pool-PoolInv size r = run-PoolInv size (record { counted = refl; bounded = omega arith }) r

can_acquire-inside :
    (size : ℕ) (s : PoolState) → PoolInv size s → (can_acquire size s ≡ true) ↔ (inside s < size)
unfolding can_acquire
can_acquire-inside size s inv = ground (arith, inv.counted, inv.bounded)

-- In every state that the threads reach, acquire goes on exactly when fewer than size threads have
-- a connection or wait for one to be made.
pub can_acquire-free :
    (size : ℕ) {s : PoolState}
    → PoolRun size new_pool s
    → (can_acquire size s ≡ true) ↔ (inside s < size)
can_acquire-free size {s} r = can_acquire-inside size s (pool-PoolInv size r)

take_place-inside : (s : PoolState) → inside s + 1 ≡ inside (take_place s)
unfolding take_place
take_place-inside s = ground arith

release-inside :
    (open_ : Bool) (s : PoolState) → 0 < s.held → inside s - 1 ≡ inside (release open_ s)
unfolding release
release-inside true s h = omega arith
release-inside false s h = omega arith

made-inside : (s : PoolState) → 0 < s.connecting → inside s ≡ inside (connect true s)
unfolding connect
made-inside s h = omega arith

failed-inside : (s : PoolState) → 0 < s.connecting → inside s - 1 ≡ inside (connect false s)
unfolding connect
failed-inside s h = omega arith

-- The pool of connections refines a counting semaphore: in every state that the threads reach, each
-- of their steps is an entry while fewer than size threads have a connection or wait for one to be
-- made, an exit, or a step that the semaphore does not see.
pub pool-Permit :
    (size : ℕ) {s t : PoolState}
    → PoolRun size new_pool s
    → PoolStep size s t
    → Permit size (inside s) (inside t)
pool-Permit size r (acquires {s} h) =
    subst (Permit size (inside s)) (take_place-inside s) (enters ((can_acquire-free size r).0 h))
pool-Permit size r (connects {s} true h) = subst (Permit size (inside s)) (made-inside s h) goes_on
pool-Permit size r (connects {s} false h) =
    subst (Permit size (inside s)) (failed-inside s h) (leaves (omega arith))
pool-Permit size r (releases {s} o h) =
    subst (Permit size (inside s)) (release-inside o s h) (leaves (omega arith))
