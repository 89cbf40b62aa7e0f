-- ===== src/Monitors/Safety.antt =====
-- c/thread.c: what the monitors promise in every reachable state.
use mathlib.Core.Path.{subst}
use yruntime.Base.{ℕ, ◌≡◌, ◌≢◌, ◌↔◌, arith}
use yruntime.Monitors.System.{locked, Caller, exit, ensured, System, Reach}
use yruntime.Monitors.Invariant.{IsFresh, IsPaired, Reach-Inv}

-- In every state that threads reach, however their steps are interleaved: two threads that have
-- entered the same object are the same thread.
pub mutual_exclusion :
    {s : System} → Reach s → (i j o : ℕ) → (s.locals i).held o ≢ 0 → (s.locals j).held o ≢ 0 → i ≡ j
mutual_exclusion {s} r i j o hi hj =
    let inv = Reach-Inv r in ground (arith, inv.entered i o hi, inv.entered j o hj)

-- In every state that threads reach: `_yrt_ensure_monitor` returns the same mutex for the same
-- object, whichever thread calls it, and different ones for different objects.
pub ensure_monitor-same :
    {s : System}
    → Reach s
    → (i j : ℕ) {c d : Caller} {o p m n : ℕ} → (s.locals i).pc ≡ ensured c o m
    → (s.locals j).pc ≡ ensured d p n
    → (o ≡ p) ↔ (m ≡ n)
ensure_monitor-same {s} r i j {o} {p} {m} {n} hi hj =
    let inv = Reach-Inv r in
    let (first, real) = subst (IsFresh s.shared) hi (inv.fresh i) in
    let (second, real') = subst (IsFresh s.shared) hj (inv.fresh j) in
    (ground arith, ground (arith, inv.own o p))

-- In every state that threads reach: a thread that is about to unlock the monitor of an object
-- has the mutex locked that it unlocks.
pub unlock-locked :
    {s : System}
    → Reach s
    → (i : ℕ) {o m : ℕ} → (s.locals i).pc ≡ ensured exit o m
    → s.shared.mutexes m ≡ locked i
unlock-locked {s} r i {o} {m} here =
    let inv = Reach-Inv r in
    let (same, real) = subst (IsFresh s.shared) here (inv.fresh i) in
    let held = subst (λ pc. IsPaired pc (s.locals i).held) here (inv.paired i) in
    ground (arith, inv.entered i o held)
