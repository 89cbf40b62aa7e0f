-- ===== src/Monitors/Runs.antt =====
-- c/thread.c: two threads that enter an object, one behind the other.
use native.Mathlib.Decide.{ℕ_discrete}
use yruntime.Base.{ℕ, ◌≡◌, ◌⊎◌, ◌↔◌, refl, some, none, ◌≤◌, arith}
use yruntime.Monitors.System.{
  reading, Move, locked, enter, exit, call_enter, call_exit, lock_monitor_mutex, find, create,
  store_field, unlock_monitor_mutex, lock, System, pick, start_system, Reach, start, later,
}
use yruntime.Monitors.Safety.{mutual_exclusion, ensure_monitor-same, unlock-locked}
use yruntime.Monitors.Progress.{Alone, monitor_mutex-progress}

-- A state with the steps that reach it.
record Run : Type 0 where
  last : System
  reach : Reach last

abbrev nothing_yet : Run
nothing_yet = record { last = start_system; reach = start }

-- Thread 1 enters the object 50, for which the mutex 900 is made.
abbrev entered_run : Run
unfolding ℕ_discrete
entered_run = record {
  last = _;
  reach =
      later
        (later
          (later
            (later
              (later (later start (pick 1 (call_enter {o = 50} refl)))
                (pick 1 (lock_monitor_mutex refl refl)))
              (pick 1 (create {m = 900} refl refl (λ e. omega arith) refl)))
            (pick 1 (store_field refl)))
          (pick 1 (unlock_monitor_mutex refl)))
        (pick 1 (lock refl refl));
}

-- Thread 2 finds the mutex, and waits for it.
abbrev second_run : Run
unfolding ℕ_discrete
second_run = record {
  last = _;
  reach =
      later
        (later
          (later (later entered_run.reach (pick 2 (call_enter {o = 50} refl)))
            (pick 2 (lock_monitor_mutex refl refl)))
          (pick 2 (find refl (λ e. omega arith))))
        (pick 2 (unlock_monitor_mutex refl));
}

-- Thread 1 is about to unlock the mutex.
abbrev exiting_run : Run
unfolding ℕ_discrete
exiting_run = record {
  last = _;
  reach =
      later
        (later
          (later (later second_run.reach (pick 1 (call_exit {o = 50} refl (λ e. omega arith))))
            (pick 1 (lock_monitor_mutex refl refl)))
          (pick 1 (find refl (λ e. omega arith))))
        (pick 1 (unlock_monitor_mutex refl));
}

-- Thread 3 waits while thread 2 has `__monitor_mutex__`.
abbrev waiting_run : Run
unfolding ℕ_discrete
waiting_run = record {
  last = _;
  reach =
      later
        (later (later entered_run.reach (pick 2 (call_enter {o = 50} refl)))
          (pick 2 (lock_monitor_mutex refl refl)))
        (pick 3 (call_enter {o = 60} refl));
}

mutual_exclusion_example : ◌≡◌ {A = ℕ} 1 1
unfolding ℕ_discrete
mutual_exclusion_example =
    mutual_exclusion entered_run.reach 1 1 50 (λ e. omega arith) (λ e. omega arith)

ensure_monitor-same_example : (◌≡◌ {A = ℕ} 50 50) ↔ (◌≡◌ {A = ℕ} 900 900)
unfolding ℕ_discrete
ensure_monitor-same_example =
    ensure_monitor-same exiting_run.reach 1 2 {c = exit} {d = enter} {o = 50} {p = 50} {m = 900}
      {n = 900} refl refl

unlock-locked_example : exiting_run.last.shared.mutexes 900 ≡ locked 1
unfolding ℕ_discrete
unlock-locked_example = unlock-locked exiting_run.reach 1 {o = 50} {m = 900} refl

monitor_mutex-progress_example :
    (j : ℕ) × (n : ℕ) × (t : System) × (n ≤ 3)
    × Alone j n waiting_run.last t
    × ((n ≡ 0) ⊎ (waiting_run.last.shared.monitor_mutex ≡ some j))
    × (t.shared.monitor_mutex ≡ none)
    × Move 3 t.shared
        (t.locals 3)
        (record (t.shared) { monitor_mutex = some 3 })
        (record (t.locals 3) { pc = reading enter 60 })
unfolding ℕ_discrete
monitor_mutex-progress_example =
    monitor_mutex-progress 800 waiting_run.reach (λ e. omega arith) refl 3 {c = enter} {o = 60} refl
