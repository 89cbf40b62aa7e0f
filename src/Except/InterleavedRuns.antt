-- ===== src/Except/InterleavedRuns.antt =====
-- c/except.c: the threads 7 and 8 both search before either inserts its stack.
use native.Mathlib.Decide.{ℕ_discrete}
use yruntime.Base.{ℕ, ◌≡◌, ◌↔◌, refl, some}
use yruntime.Except.State.{Thread, get_thread_stack_current, find_node}
use yruntime.Except.Interleaved.{miss, insert, Process, turn, Reachable, start, later}
use yruntime.Except.Concurrent.{stacks_apart}

abbrev two_threads : (p : Process) × Reachable 100 1 p
unfolding ℕ_discrete
two_threads = (
  _,
  later
      (later (later (later start (turn 7 (miss refl refl))) (turn 8 (miss refl refl)))
        (turn 8 (insert {stack = 300} refl refl)))
      (turn 7 (insert {stack = 200} refl refl)),
)

stacks_apart_example :
    (get_thread_stack_current 7 two_threads.0.chain ≡ some 200)
    × ((t : Thread) × (find_node 200 two_threads.0.chain ≡ some t) × (t.id ≡ 7))
    × ((◌≡◌ {A = ℕ} 7 8) ↔ (◌≡◌ {A = ℕ} 200 300))
unfolding ℕ_discrete
stacks_apart_example = stacks_apart 7 8 200 300 two_threads.1 refl refl
