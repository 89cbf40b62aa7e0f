-- ===== src/Except/Operations.antt =====
-- c/except.c: the operations on the stacks, each one as a step on the state. `calloc` stands for
-- the address that the allocator returns, 0 where it fails.
use yruntime.Base.{ℕ, [], ◌∷◌, ◌++◌, Option, none, some, not, ◌&&◌, ◌==◌, if◌then◌else◌}
use yruntime.Unwind.Memory.{Outcome, ok, terminated, fault, ◌>>=◌}
use yruntime.Except.State.{
  Header, zero_header, Thread, State, ehstorage, get_thread_stack_current, find_node, set_node,
  unlink, set_header,
}

-- A read of a freed header or stack is a fault.
unfoldable pub load_header : ℕ → State → Outcome Header
load_header p s = elim (s.heap p) [ none ↦ fault | some h ↦ ok h ]

unfoldable pub load_thread : ℕ → State → Outcome Thread
load_thread stack s = elim (find_node stack s.threads) [ none ↦ fault | some t ↦ ok t ]

abbrev pub store_header : ℕ → Option Header → State → State
store_header p h s = record { heap = set_header p h s.heap; threads = s.threads }

abbrev pub store_stack : ℕ → ℕ → State → State
store_stack stack e s = record { heap = s.heap; threads = set_node stack e s.threads }

unfoldable pub insert_thread : ℕ → ℕ → State → Outcome (ℕ × State)
insert_thread id calloc s =
    if calloc == 0
    then terminated
    else ok (
      calloc,
      record {
        heap = set_header (ehstorage calloc) (some zero_header) s.heap;
        threads = s.threads ++ record { address = calloc; stack = 0; id = id } ∷ [];
      },
    )

-- The stack of the main thread, the first of the chain, stays.
unfoldable pub remove_thread : ℕ → State → State
remove_thread stack s = elim s.threads [
  | [] ↦ s
  | global ∷ ts ↦ if global.address == stack then s else (elim (find_node stack ts) [
    | none ↦ s
    | some t ↦ record {
      heap = set_header (ehstorage stack) none s.heap;
      threads = global ∷ unlink stack ts;
    }
  ])
]

unfoldable pub get_thread_stack : ℕ → ℕ → State → Outcome (ℕ × State)
get_thread_stack id calloc s = elim (get_thread_stack_current id s.threads) [
  | none ↦ insert_thread id calloc s
  | some stack ↦ ok (stack, s)
]

unfoldable pub create_header : ℕ → ℕ → ℕ → State → Outcome (ℕ × State)
create_header object stack calloc s = do
  t ← load_thread stack s
  storage ← load_header (ehstorage stack) s
  if storage.object == 0
      then ok (
        ehstorage stack,
        store_header (ehstorage stack) (some (record storage { object = object; thread_id = t.id }))
            s,
      )
      else if calloc == 0
      then terminated
      else ok (
        calloc,
        store_header calloc (some (record zero_header { object = object; thread_id = t.id })) s,
      )

unfoldable pub free_header : ℕ → ℕ → State → Outcome State
free_header head stack s = do
  _ ← load_header head s
  let freed = if head == ehstorage stack then some zero_header else none
  t ← load_thread stack s
  let s' = store_header head freed s
  ok (if t.stack == 0 then remove_thread stack s' else s')

unfoldable pub push : ℕ → ℕ → State → Outcome State
push e stack s = do
  h ← load_header e s
  t ← load_thread stack s
  ok (store_stack stack e (store_header e (some (record h { next = t.stack })) s))

unfoldable pub pop : ℕ → State → Outcome (ℕ × State)
pop stack s = do
  t ← load_thread stack s
  h ← load_header t.stack s
  ok (t.stack, store_stack stack h.next s)

-- The codes `_URC_NO_REASON` and `_URC_FOREIGN_EXCEPTION_CAUGHT` are 0 and 1. With another code
-- the process ends in `_yrt_exc_panic_exception`.
unfoldable pub exception_cleanup : ℕ → ℕ → ℕ → State → Outcome State
exception_cleanup code e calloc s = do
  h ← load_header e s
  let cleanup = get_thread_stack h.thread_id calloc s >>= λ (stack, s). free_header e stack s
  if not (code == 1) && not (code == 0) then terminated else cleanup

-- `_yrt_exc_throw` up to the call of `_Unwind_RaiseException` on the header that it returns.
unfoldable pub throw : ℕ → ℕ → ℕ → ℕ → ℕ → ℕ → ℕ → State → Outcome (ℕ × State)
throw self file function line object calloc calloc' s = do
  (stack, s) ← get_thread_stack self calloc s
  (e, s) ← create_header object stack calloc' s
  h ← load_header e s
  let placed = record h { file = file; function = function; line = line }
  s ← push e stack (store_header e (some placed) s)
  ok (e, s)

-- `code` is the one that `_Unwind_DeleteException` calls the cleanup with.
unfoldable pub begin_catch : ℕ → ℕ → ℕ → ℕ → State → Outcome (ℕ × State)
begin_catch self code e calloc s = do
  (stack, s) ← get_thread_stack self calloc s
  h ← load_header e s
  (top, s) ← pop stack s
  let delete = exception_cleanup code e calloc s
  if e == top then (do s ← delete; ok (h.object, s)) else terminated
