-- ===== src/Except/Interleaved.antt =====
-- c/except.c: the chain of the threads' stacks while several threads work on it. Each of the
-- three sections under `_yrt_exc_mutex` is one step, and between them other threads may take
-- theirs.
use yruntime.Base.{ℕ, ◌≡◌, ◌≢◌, List, [], ◌∷◌, none, some, update}
use yruntime.Except.State.{Thread, get_thread_stack_current, find_node, set_node, unlink}
use yruntime.Except.Threads.{appended}

-- Where a thread stands: outside of the operations, behind a search that found no stack for it, or
-- with the address of its stack.
pub data Place : Type 0 where
  outside missing : Place
  using : ℕ → Place

-- What thread `i` does to the chain. `global` is the address of `global_stack`.
pub data Access (global i : ℕ) (chain : List Thread) (place : Place)
    : List Thread → Place → Type 0 where
  -- `_yrt_exc_get_thread_stack`, up to the unlock
  find :
      {stack : ℕ}
      → place ≡ outside
      → get_thread_stack_current i chain ≡ some stack
      → Access global i chain place chain (using stack)
  miss :
      place ≡ outside
      → get_thread_stack_current i chain ≡ none
      → Access global i chain place chain missing
  -- `_yrt_exc_insert_thread`, with a stack where there is none
  insert :
      {stack : ℕ}
      → place ≡ missing
      → find_node stack chain ≡ none
      → Access global i chain place (appended stack i 0 chain) (using stack)
  -- `_yrt_exc_push` and `_yrt_exc_pop`
  write :
      {stack : ℕ} (e : ℕ)
      → place ≡ using stack
      → Access global i chain place (set_node stack e chain) (using stack)
  -- the end of `_yrt_exc_throw`, and of a catch that leaves exceptions on the stack
  leave : {stack : ℕ} → place ≡ using stack → Access global i chain place chain outside
  -- `_yrt_exc_remove_thread`, from `_yrt_exc_free_header` with an empty stack
  remove :
      {stack : ℕ} {t : Thread}
      → place ≡ using stack
      → stack ≢ global
      → find_node stack chain ≡ some t
      → t.stack ≡ 0
      → Access global i chain place (unlink stack chain) outside

pub record Process : Type 0 where
  pub chain : List Thread
  pub places : ℕ → Place

pub data Turn (global : ℕ) (p : Process) : Process → Type 0 where
  turn :
      (i : ℕ) {chain' : List Thread} {place' : Place}
      → Access global i p.chain (p.places i) chain' place'
      → Turn global p (record { chain = chain'; places = update p.places i place' })

-- What `_yrt_exc_init` leaves in the thread `main`.
abbrev pub start_process : ℕ → ℕ → Process
start_process global main = record {
  chain = record { address = global; stack = 0; id = main } ∷ [];
  places = λ i. outside;
}

pub data Reachable (global main : ℕ) : Process → Type 0 where
  start : Reachable global main (start_process global main)
  later : {p q : Process} → Reachable global main p → Turn global p q → Reachable global main q
