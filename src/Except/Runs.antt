-- ===== src/Except/Runs.antt =====
-- c/except.c: an exception thrown and caught in the state that `_yrt_exc_init` leaves.
use yruntime.Base.{
  ℕ, List, codes, if◌then◌else◌, ◌≡◌, refl, [], ◌∷◌, some, inl, inr, ◌==◌, Bool-cases, arith,
}
use yruntime.Unwind.Sample.{mem, slots, frame, found, search_run}
use yruntime.Unwind.Action.{search_phase}
use yruntime.Unwind.Scan.{Saved, Scanned, scan_lsda, install_context}
use yruntime.Unwind.Personality.{Answer}
use yruntime.Except.Unwinding.{call_personality, call_personality-found}
use yruntime.Except.Delivery.{begin_catch-call_personality}
use yruntime.Unwind.Memory.{ok, terminated, ◌>>=◌}
use yruntime.Except.State.{Header, zero_header, Thread, State, exc_init, set_header}
use yruntime.Except.Operations.{
  store_header, load_header, load_thread, insert_thread, get_thread_stack, create_header, push, pop,
  exception_cleanup, free_header, remove_thread, throw, begin_catch,
}
use yruntime.Except.Steps.{IsValid}
use yruntime.Except.RoundTrip.{begin_catch-throw}
use yruntime.Except.Stacks.{Stacks, with_stack_of, Holds, AreFree}
use yruntime.Except.History.{
  Reach, start, thrown_in, caught_in, throw-Reach, begin_catch-Reach, Reach-all_caught,
}
use yruntime.Except.Panic.{exited, end_with_trace, panic_text, panic_exception}
use yruntime.Except.Ends.{panic_exception-throw}
use yruntime.Except.Nested.{begin_catch-nested}

-- The main thread, with the id 7, has its stack at the address 100.
abbrev main_state : State
main_state = exc_init 100 7

main_state-IsValid : IsValid main_state
main_state-IsValid = record {
  global = record { address = 100; stack = 0; id = 7 };
  others = [];
  chain = refl;
  distinct = (tt, tt);
  busy = tt;
  storage = (inl refl, tt);
}

-- A throw in the thread 8, which has no stack yet.
begin_catch-throw_example :
    (throw 8 1 2 3 55 200 300 main_state >>= λ (e, s). begin_catch 8 1 e 400 s)
    ≡ ok (55, main_state)
begin_catch-throw_example =
    begin_catch-throw 8 1 2 3 55 200 300 400 1 main_state main_state-IsValid (λ e. omega arith)
      (λ e. omega arith) refl refl (λ e. omega arith) refl (λ e. omega arith) (inr refl)

-- The header of the first throw, created, then with its place, then on the stack.
abbrev created : Header
created = record zero_header { object = 55; thread_id = 7 }

abbrev with_place : Header
with_place = record created { file = 1; function = 2; line = 3 }

abbrev thrown_state : State
thrown_state = record {
  heap =
      set_header 116 (some with_place)
        (set_header 116 (some with_place) (set_header 116 (some created) main_state.heap));
  threads = record { address = 100; stack = 116; id = 7 } ∷ [];
}

throw_run : throw 7 1 2 3 55 200 300 main_state ≡ ok (116, thrown_state)
unfolding throw get_thread_stack create_header push load_header load_thread
throw_run = refl

begin_catch-nested_example :
    ((throw 7 1 2 3 66 200 310 thrown_state >>= λ (e, s). begin_catch 7 1 e 200 s)
      ≡ ok (66, thrown_state))
    × ((throw 7 1 2 3 66 200 310 thrown_state >>= λ (e, s). begin_catch 7 1 116 200 s) ≡ terminated)
begin_catch-nested_example =
    begin_catch-nested 7 1 2 3 55 66 200 300 310 1 100 116 main_state thrown_state
      main_state-IsValid refl (λ e. omega arith) (λ e. omega arith) (λ e. omega arith) refl
      throw_run (λ e. omega arith) refl (inr refl)

-- A state, with the steps that reach it.
record Run : Type 0 where
  last : State
  stacks : Stacks
  reach : Reach last stacks

abbrev start_run : Run
start_run = record { last = main_state; stacks = λ id. []; reach = start 100 7 }

start-AreFree : AreFree main_state 200 300
start-AreFree = record {
  some_stack = λ e. omega arith;
  new = refl;
  room = refl;
  some_place = λ e. omega arith;
  free = refl;
  apart = λ e. omega arith;
}

-- Thread 8 throws the object 55, and then the main thread the object 66.
abbrev other_run : Run
unfolding throw get_thread_stack insert_thread create_header push load_header load_thread
other_run = record {
  last = _;
  stacks = _;
  reach = thrown_in 8 1 2 3 55 200 300 216 start_run.reach start-AreFree (λ e. omega arith) refl;
}

other-AreFree : AreFree other_run.last 400 500
unfolding throw get_thread_stack insert_thread create_header push load_header load_thread
other-AreFree = record {
  some_stack = λ e. omega arith;
  new = refl;
  room = refl;
  some_place = λ e. omega arith;
  free = refl;
  apart = λ e. omega arith;
}

abbrev both_run : Run
unfolding throw get_thread_stack insert_thread create_header push load_header load_thread
both_run = record {
  last = _;
  stacks = _;
  reach = thrown_in 7 1 2 3 66 400 500 116 other_run.reach other-AreFree (λ e. omega arith) refl;
}

throw-Reach_example :
    (e : ℕ) × (s' : State) × (throw 7 1 2 3 66 400 500 other_run.last ≡ ok (e, s'))
    × Holds s' (with_stack_of 7 ((e, 66) ∷ other_run.stacks 7) other_run.stacks)
    × Reach s' (with_stack_of 7 ((e, 66) ∷ other_run.stacks 7) other_run.stacks)
throw-Reach_example =
    throw-Reach 7 1 2 3 66 400 500 other_run.last other_run.stacks other_run.reach other-AreFree
      (λ e. omega arith)

-- Thread 8 catches its exception under the one of the main thread.
begin_catch-Reach_example :
    (s' : State) × (begin_catch 8 0 216 600 both_run.last ≡ ok (55, s'))
    × Reach s' (with_stack_of 8 [] both_run.stacks)
unfolding both_run
begin_catch-Reach_example =
    begin_catch-Reach 8 0 216 55 600 [] both_run.last both_run.stacks both_run.reach refl (inl refl)

-- Thread 8 catches its exception, and its stack goes.
abbrev caught_run : Run
unfolding other_run begin_catch pop exception_cleanup free_header remove_thread get_thread_stack
    load_header load_thread
caught_run = record {
  last = _;
  stacks = with_stack_of 8 [] other_run.stacks;
  reach = caught_in 8 0 216 55 55 600 [] other_run.reach refl (inl refl) refl;
}

caught_run-empty : (id : ℕ) → caught_run.stacks id ≡ []
unfolding caught_run other_run
caught_run-empty id = elim (Bool-cases (8 == id)) [ inl e ↦ rw e refl | inr e ↦ rw e refl ]

Reach-all_caught_example :
    (global : Thread) × (caught_run.last.threads ≡ global ∷ []) × (global.stack ≡ 0)
Reach-all_caught_example =
    Reach-all_caught caught_run.last caught_run.stacks caught_run.reach caught_run-empty

abbrev file_names : ℕ → List ℕ
file_names a = if a == 1 then codes "list.yr" else codes "pop"

panic_exception-throw_example :
    (exception_cleanup 2 116 400 thrown_state ≡ terminated)
    × ((h : Header) × (thrown_state.heap 116 ≡ some h)
        × (panic_exception (some []) [] file_names h
            ≡ end_with_trace
                (some [])
                []
                (panic_text (codes "list.yr") (codes "pop") 3)
                (exited 255)))
panic_exception-throw_example =
    panic_exception-throw 7 1 2 3 55 200 300 400 2 116 main_state thrown_state (some []) []
      file_names throw_run (omega arith) (omega arith)

-- The main thread throws the object 55, and the search phase finds a handler in a frame.
main_run : Reach thrown_state (with_stack_of 7 ((116, 55) ∷ []) (λ id. []))
main_run =
    thrown_in 7 1 2 3 55 200 300 116 start_run.reach start-AreFree (λ e. omega arith) throw_run

abbrev searched_state : State
searched_state =
    store_header 116
      (some (record zero_header {
        object = 55;
        thread_id = 7;
        file = 1;
        function = 2;
        line = 3;
        saved = found.saved;
      }))
      thrown_state

searched :
    call_personality 2 search_phase 116 mem slots frame thrown_state ≡ ok (found, searched_state)
searched =
    call_personality-found 2 search_phase 116 mem slots frame thrown_state with_place found refl
      (search_run 116)

begin_catch-call_personality_example :
    (saved : Saved) × (s : Scanned) × (b : Answer) × (s2 : State) × (s3 : State) × (scan_lsda 2
        search_phase mem slots frame 1000 9000 saved
      ≡ ok s)
    × (call_personality 0 6 116 mem slots frame searched_state ≡ ok (b, s2))
    × (b.reason ≡ install_context)
    × (b.install ≡ some (record { exception = 116; selector = s.handler; ip = s.landing_pad }))
    × (begin_catch 7 0 116 400 s2 ≡ ok (55, s3))
    × Reach s3 (with_stack_of 7 [] (with_stack_of 7 ((116, 55) ∷ []) (λ id. [])))
begin_catch-call_personality_example =
    begin_catch-call_personality 2 0 7 116 55 0 400 mem mem slots slots frame frame [] thrown_state
      searched_state (with_stack_of 7 ((116, 55) ∷ []) (λ id. [])) found main_run refl searched refl
      (omega arith) (inl refl)
