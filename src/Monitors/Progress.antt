-- ===== src/Monitors/Progress.antt =====
-- c/thread.c: a thread that has `__monitor_mutex__` gives it back.
use native.Mathlib.Decide.{ℕ_discrete}
use mathlib.Core.Logic.{if_pos, if_neg}
use yruntime.Base.{
  Option-cases, ℕ, suc, ◌≡◌, ◌≢◌, ◌≤◌, ◌⊎◌, inl, inr, refl, ap, sym, ◌∙◌, true, none, some, update,
  arith,
}
use yruntime.Monitors.System.{
  absent, Shared, Caller, Pc, outside, waiting, reading, storing, leaving, ensured, Local, Move,
  lock_monitor_mutex, find, create, store_field, unlock_monitor_mutex, System, Reach,
}
use yruntime.Monitors.Invariant.{guarded, Reach-Inv}

-- The system behind a step of a thread.
abbrev pub behind : System → ℕ → Shared → Local → System
behind s j s' l' = record { shared = s'; locals = update s.locals j l' }

-- So many steps of one thread, with no step of another between them.
pub data Alone (j : ℕ) : ℕ → System → System → Type 0 where
  done : {s : System} → Alone j 0 s s
  more :
      {n : ℕ} {s t : System} {s' : Shared} {l' : Local}
      → Move j s.shared (s.locals j) s' l'
      → Alone j n (behind s j s' l') t
      → Alone j (suc n) s t

-- The mutex is free, and the other threads stand where they stood.
record Releases (j : ℕ) (s t : System) : Type 0 where
  free_mutex : t.shared.monitor_mutex ≡ none
  others : (k : ℕ) → k ≢ j → t.locals k ≡ s.locals k

update-same : (f : ℕ → Local) (j : ℕ) (l : Local) → update f j l j ≡ l
update-same f j l = elim (ℕ_discrete j j) [
  | yes same ↦ rw (if_pos _ same) refl
  | no other ↦ absurd (other refl)
]

update-other : (f : ℕ → Local) (j : ℕ) (l : Local) (k : ℕ) → k ≢ j → update f j l k ≡ f k
update-other f j l k apart = rw (if_neg _ (λ same. apart (sym same))) refl

leaving-Releases :
    (j : ℕ) (s : System) {c : Caller} {o n : ℕ}
    → (s.locals j).pc ≡ leaving c o n
    → (t : System) × Alone j 1 s t × Releases j s t
leaving-Releases j s here = (
  _,
  more (unlock_monitor_mutex here) done,
  record { free_mutex = refl; others = λ k apart. update-other s.locals j _ k apart },
)

-- Behind a step to a state from where the thread gives the mutex back.
step-Releases :
    (j n : ℕ) (s t : System) (s' : Shared) (l' : Local)
    → Move j s.shared (s.locals j) s' l'
    → Alone j n (behind s j s' l') t
    → Releases j (behind s j s' l') t
    → Alone j (suc n) s t × Releases j s t
step-Releases j n s t s' l' move run r = (
  more move run,
  record {
    free_mutex = r.free_mutex;
    others = λ k apart. r.others k apart ∙ update-other s.locals j l' k apart;
  },
)

storing-Releases :
    (j : ℕ) (s : System) {c : Caller} {o n : ℕ}
    → (s.locals j).pc ≡ storing c o n
    → (t : System) × Alone j 2 s t × Releases j s t
storing-Releases j s {c} {o} {n} here =
    let l' : Local = record (s.locals j) { pc = leaving c o n } in
    let now = ap (λ l. l.pc) (update-same s.locals j l') in
    let (t, run, r) = leaving-Releases j (behind s j _ l') {c = c} {o = o} {n = n} now in
    let (run', r') = step-Releases j 1 s t _ l' (store_field here) run r in (t, run', r')

reading-Releases :
    (j m : ℕ) (s : System) {c : Caller} {o : ℕ}
    → m ≢ 0
    → s.shared.mutexes m ≡ absent
    → (s.locals j).pc ≡ reading c o
    → (n : ℕ) × (t : System) × (n ≤ 3) × Alone j n s t × Releases j s t
reading-Releases j m s {c} {o} real new here = elim (ℕ_discrete (s.shared.fields o) 0) [
  | yes unset ↦
      let l' : Local = record (s.locals j) { pc = storing c o m } in
      let now = ap (λ l. l.pc) (update-same s.locals j l') in
      let (t, run, r) = storing-Releases j (behind s j _ l') {c = c} {o = o} {n = m} now in
      let (run', r') = step-Releases j 2 s t _ l' (create here unset real new) run r in
      (3, t, omega arith, run', r')
  | no set' ↦
      let l' : Local = record (s.locals j) { pc = leaving c o (s.shared.fields o) } in
      let now = ap (λ l. l.pc) (update-same s.locals j l') in
      let (t, run, r) =
        leaving-Releases j (behind s j _ l') {c = c} {o = o} {n = s.shared.fields o} now in
      let (run', r') = step-Releases j 1 s t _ l' (find here set') run r in
      (2, t, omega arith, run', r')
]

guarded-Releases :
    (j m : ℕ) (s : System)
    → m ≢ 0
    → s.shared.mutexes m ≡ absent
    → (pc : Pc) → (s.locals j).pc ≡ pc
    → guarded pc ≡ true
    → (n : ℕ) × (t : System) × (n ≤ 3) × Alone j n s t × Releases j s t
guarded-Releases j m s real new outside here inside = cc
guarded-Releases j m s real new (waiting c o) here inside = cc
guarded-Releases j m s real new (reading c o) here inside = reading-Releases j m s real new here
guarded-Releases j m s real new (storing c o n) here inside =
    let (t, run, r) = storing-Releases j s here in (2, t, omega arith, run, r)
guarded-Releases j m s real new (leaving c o n) here inside =
    let (t, run, r) = leaving-Releases j s here in (1, t, omega arith, run, r)
guarded-Releases j m s real new (ensured c o n) here inside = cc

-- In every state that threads reach, as long as the allocator has an address without a mutex: where
-- a thread waits for `__monitor_mutex__`, the mutex is free, or the thread that holds it frees it
-- by at most three steps of its own; the thread that waits can then take it.
pub monitor_mutex-progress :
    {s : System} (m : ℕ)
    → Reach s
    → m ≢ 0
    → s.shared.mutexes m ≡ absent
    → (i : ℕ) {c : Caller} {o : ℕ} → (s.locals i).pc ≡ waiting c o
    → (j : ℕ) × (n : ℕ) × (t : System) × (n ≤ 3)
      × Alone j n s t
      × ((n ≡ 0) ⊎ (s.shared.monitor_mutex ≡ some j))
      × (t.shared.monitor_mutex ≡ none)
      × Move i t.shared
          (t.locals i)
          (record (t.shared) { monitor_mutex = some i })
          (record (t.locals i) { pc = reading c o })
monitor_mutex-progress {s} m r real new i {c} {o} here =
    elim (Option-cases s.shared.monitor_mutex) [
      | inl open' ↦ (i, 0, s, omega arith, done, inl refl, open', lock_monitor_mutex here open')
      | inr (j, taken) ↦
          let inside = (Reach-Inv r).holder j taken in
          let (n, t, few, run, released) = guarded-Releases j m s real new _ refl inside in
          let apart : i ≢ j = λ same.
            let at_holder : (s.locals j).pc ≡ waiting c o =
              ap (λ k. (s.locals k).pc) (sym same) ∙ here in
            let wrong : guarded (waiting c o) ≡ true = rw at_holder at inside in cc in
          let stays : (t.locals i).pc ≡ waiting c o =
            ap (λ l. l.pc) (released.others i apart) ∙ here in
          (
            j,
            n,
            t,
            few,
            run,
            inr taken,
            released.free_mutex,
            lock_monitor_mutex stays released.free_mutex,
          )
    ]
