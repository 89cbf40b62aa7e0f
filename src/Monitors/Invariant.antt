-- ===== src/Monitors/Invariant.antt =====
-- c/thread.c: what holds in every reachable state of the threads.
use mathlib.Core.Path.{subst}
use yruntime.Base.{update, ℕ, ◌≡◌, ◌≢◌, refl, Bool, true, false, none, some, arith}
use yruntime.Monitors.System.{
  absent, free, locked, Shared, enter, exit, Pc, outside, waiting, reading, storing, leaving,
  ensured, Local, Move, call_enter, call_exit, lock_monitor_mutex, find, create, store_field,
  unlock_monitor_mutex, lock, unlock, System, pick, start_system, Reach, start, later,
}

-- Between the lock and the unlock of `__monitor_mutex__`.
abbrev pub guarded : Pc → Bool
guarded (reading c o) = true
guarded (storing c o m) = true
guarded (leaving c o m) = true
guarded pc = false

-- What the variables of a thread say about the shared memory.
abbrev pub IsFresh : Shared → Pc → Type 0
IsFresh s (storing c o m) =
    (s.fields o ≡ 0) × (m ≢ 0) × (s.mutexes m ≡ free) × ((p : ℕ) → s.fields p ≢ m)
IsFresh s (leaving c o m) = (s.fields o ≡ m) × (m ≢ 0)
IsFresh s (ensured c o m) = (s.fields o ≡ m) × (m ≢ 0)
IsFresh s pc = Unit

-- A thread that exits has entered.
abbrev pub IsPaired : Pc → (ℕ → ℕ) → Type 0
IsPaired (waiting exit o) held = held o ≢ 0
IsPaired (reading exit o) held = held o ≢ 0
IsPaired (storing exit o m) held = held o ≢ 0
IsPaired (leaving exit o m) held = held o ≢ 0
IsPaired (ensured exit o m) held = held o ≢ 0
IsPaired pc held = Unit

pub record Inv (s : Shared) (ls : ℕ → Local) : Type 0 where
  pub guard : (i : ℕ) → guarded (ls i).pc ≡ true → s.monitor_mutex ≡ some i
  pub holder : (i : ℕ) → s.monitor_mutex ≡ some i → guarded (ls i).pc ≡ true
  pub made : (o : ℕ) → s.fields o ≢ 0 → s.mutexes (s.fields o) ≢ absent
  pub own : (o p : ℕ) → s.fields o ≢ 0 → s.fields o ≡ s.fields p → o ≡ p
  pub fresh : (i : ℕ) → IsFresh s (ls i).pc
  pub paired : (i : ℕ) → IsPaired (ls i).pc (ls i).held
  pub entered :
      (i o : ℕ)
      → (ls i).held o ≢ 0
      → (s.fields o ≡ (ls i).held o) × (s.mutexes ((ls i).held o) ≡ locked i)

-- A lock of a mutex that is some object's leaves alone what a thread is about to store.
lock-IsFresh :
    (i : ℕ) (s : Shared) (o m : ℕ) (pc : Pc)
    → s.fields o ≡ m
    → IsFresh s pc
    → IsFresh (record s { mutexes = update s.mutexes m (locked i) }) pc
lock-IsFresh i s o m outside same h = h
lock-IsFresh i s o m (waiting c p) same h = h
lock-IsFresh i s o m (reading c p) same h = h
lock-IsFresh i s o m (storing c p x) same (unset, real, new, apart) =
    (unset, real, ground (arith, apart o), apart)
lock-IsFresh i s o m (leaving c p x) same h = h
lock-IsFresh i s o m (ensured c p x) same h = h

-- The premises of a move, for the catch-all clauses below, which cannot name them.
abbrev Premise : {i : ℕ} {s s' : Shared} {l l' : Local} → Move i s l s' l' → Type 0
Premise {l} (call_enter _) = l.pc ≡ outside
Premise {l} (call_exit {o} _ _) = (l.pc ≡ outside) × (l.held o ≢ 0)
Premise {s} {l} (lock_monitor_mutex {c} {o} _ _) = (l.pc ≡ waiting c o) × (s.monitor_mutex ≡ none)
Premise {s} {l} (find {c} {o} _ _) = (l.pc ≡ reading c o) × (s.fields o ≢ 0)
Premise {s} {l} (create {c} {o} {m} _ _ _ _) =
    (l.pc ≡ reading c o) × (s.fields o ≡ 0) × (m ≢ 0) × (s.mutexes m ≡ absent)
Premise {l} (store_field {c} {o} {m} _) = l.pc ≡ storing c o m
Premise {l} (unlock_monitor_mutex {c} {o} {m} _) = l.pc ≡ leaving c o m
Premise {s} {l} (lock {o} {m} _ _) = (l.pc ≡ ensured enter o m) × (s.mutexes m ≡ free)
Premise {l} (unlock {o} {m} _) = l.pc ≡ ensured exit o m

premise : {i : ℕ} {s s' : Shared} {l l' : Local} (mv : Move i s l s' l') → Premise mv
premise (call_enter e) = e
premise (call_exit e h) = (e, h)
premise (lock_monitor_mutex e f) = (e, f)
premise (find e h) = (e, h)
premise (create e h m n) = (e, h, m, n)
premise (store_field e) = e
premise (unlock_monitor_mutex e) = e
premise (lock e h) = (e, h)
premise (unlock e) = e

module _ {s : Shared} {ls : ℕ → Local} (inv : Inv s ls) (i : ℕ) where
  open inv use {guard, holder, made, own, fresh, paired, entered}

  Move-guard :
      {s' : Shared} {l' : Local}
      → Move i s (ls i) s' l'
      → (j : ℕ) → guarded (update ls i l' j).pc ≡ true
      → s'.monitor_mutex ≡ some j
  Move-guard (call_enter e) j q = ground (arith, guard j)
  Move-guard mv j q = ground (arith, premise mv, guard j, guard i)

  Move-holder :
      {s' : Shared} {l' : Local}
      → Move i s (ls i) s' l'
      → (j : ℕ) → s'.monitor_mutex ≡ some j
      → guarded (update ls i l' j).pc ≡ true
  Move-holder (call_enter e) j q = ground (arith, holder j, guard i, guard j)
  Move-holder mv j q = ground (arith, premise mv, holder j, guard i, guard j)

  Move-made :
      {s' : Shared} {l' : Local}
      → Move i s (ls i) s' l'
      → (o : ℕ) → s'.fields o ≢ 0
      → s'.mutexes (s'.fields o) ≢ absent
  Move-made (call_enter e) o q = ground (arith, made o, fresh i)
  Move-made mv o q = ground (arith, premise mv, made o, fresh i)

  Move-own :
      {s' : Shared} {l' : Local}
      → Move i s (ls i) s' l'
      → (o p : ℕ) → s'.fields o ≢ 0
      → s'.fields o ≡ s'.fields p
      → o ≡ p
  Move-own (call_enter e) o p q r = ground (arith, own o p, fresh i)
  Move-own (store_field e) o p q r =
      let (unset, real, new, apart) = subst (IsFresh s) e (fresh i) in
      ground (arith, own o p, apart o, apart p)
  Move-own mv o p q r = ground (arith, premise mv, own o p, fresh i)

  Move-IsFresh :
      {s' : Shared} {l' : Local}
      → Move i s (ls i) s' l'
      → (j : ℕ) → IsFresh s' (update ls i l' j).pc
  Move-IsFresh (call_enter e) j = ground (arith, fresh j, fresh i, guard i, guard j, made)
  Move-IsFresh (lock {o} {m} e h) j =
      let (same, real) = subst (IsFresh s) e (fresh i) in
      ground (arith, lock-IsFresh i s o m (ls j).pc same (fresh j))
  Move-IsFresh mv j = ground (arith, premise mv, fresh j, fresh i, guard i, guard j, made)

  Move-IsPaired :
      {s' : Shared} {l' : Local}
      → Move i s (ls i) s' l'
      → (j : ℕ) → IsPaired (update ls i l' j).pc (update ls i l' j).held
  Move-IsPaired (call_enter e) j = ground (arith, paired j, paired i)
  Move-IsPaired mv j = ground (arith, premise mv, paired j, paired i)

  Move-entered :
      {s' : Shared} {l' : Local}
      → Move i s (ls i) s' l'
      → (j o : ℕ) → (update ls i l' j).held o ≢ 0
      → (s'.fields o ≡ (update ls i l' j).held o)
        × (s'.mutexes ((update ls i l' j).held o) ≡ locked j)
  Move-entered (call_enter e) j o q =
      ground (arith, entered j o, entered i, fresh i, paired i, own o)
  Move-entered (unlock {o = p} e) j o q =
      ground (arith, entered j o, entered i p, fresh i, paired i, own o p)
  Move-entered mv j o q =
      ground (arith, premise mv, entered j o, entered i, fresh i, paired i, own o)

  pub Move-Inv : {s' : Shared} {l' : Local} → Move i s (ls i) s' l' → Inv s' (update ls i l')
  Move-Inv mv = record {
    guard = Move-guard mv;
    holder = Move-holder mv;
    made = Move-made mv;
    own = Move-own mv;
    fresh = Move-IsFresh mv;
    paired = Move-IsPaired mv;
    entered = Move-entered mv;
  }

start_system-Inv : Inv start_system.shared start_system.locals
start_system-Inv = record {
  guard = λ i q. cc;
  holder = λ i q. cc;
  made = λ o q. absurd (q refl);
  own = λ o p q r. absurd (q refl);
  fresh = λ i. tt;
  paired = λ i. tt;
  entered = λ i o q. absurd (q refl);
}

pub Reach-Inv : {s : System} → Reach s → Inv s.shared s.locals
Reach-Inv start = start_system-Inv
Reach-Inv (later r (pick i mv)) = Move-Inv (Reach-Inv r) i mv
