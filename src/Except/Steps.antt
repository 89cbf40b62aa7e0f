-- ===== src/Except/Steps.antt =====
-- c/except.c: throwing and catching on a stack that is in the chain.
use yruntime.Base.{
  ℕ, ◌≡◌, ◌≢◌, refl, ap, sym, ◌∙◌, List, ◌∷◌, Option, none, some, false, not, ◌&&◌, ◌==◌,
  if◌then◌else◌, inl, inr, ◌⊎◌, All, arith,
}
use yruntime.Unwind.Memory.{Outcome, ok}
use yruntime.Except.State.{
  Header, zero_header, Thread, State, ehstorage, get_thread_stack_current, find_node, set_node,
  set_header,
}
use yruntime.Except.Threads.{
  ==-refl, ==-ne, set_header-set, set_header-here, set_header-same, find_node-set_node,
  set_node-set_node, set_node-same, current-set_node, Distinct,
}
use yruntime.Except.Operations.{
  load_header, load_thread, store_header, store_stack, remove_thread, get_thread_stack,
  create_header, free_header, push, pop, exception_cleanup, throw, begin_catch,
}

-- A stack's own header is unused and zeroed, or holds an exception.
abbrev pub StorageIsValid : (ℕ → Option Header) → ℕ → Type 0
StorageIsValid heap stack =
    (heap (ehstorage stack) ≡ some zero_header)
    ⊎ ((h : Header) × (heap (ehstorage stack) ≡ some h) × (h.object ≢ 0))

-- The stacks stand at different addresses, and only the main thread's may be empty.
pub record IsValid (s : State) : Type 0 where
  pub global : Thread
  pub others : List Thread
  pub chain : s.threads ≡ global ∷ others
  pub distinct : Distinct s.threads
  pub busy : All (λ t. t.stack ≢ 0) others
  pub storage : All (λ t. StorageIsValid s.heap t.address) s.threads

-- The header that `_yrt_exc_throw` puts on a stack.
abbrev pub thrown : ℕ → ℕ → ℕ → ℕ → ℕ → ℕ → Header
thrown id file function line object next = record zero_header {
  object = object;
  thread_id = id;
  file = file;
  function = function;
  line = line;
  next = next;
}

-- What stands at the place of a header that is not in use.
abbrev pub unused : ℕ → ℕ → Option Header
unused stack e = if e == ehstorage stack then some zero_header else none

-- The state in which a header is on top of a stack.
abbrev pub with_header : ℕ → ℕ → Header → State → State
with_header stack e h s = record {
  heap = set_header e (some h) s.heap;
  threads = set_node stack e s.threads;
}

pub load_header-found :
    (p : ℕ) (s : State) {h : Header} → s.heap p ≡ some h → load_header p s ≡ ok h
unfolding load_header
load_header-found p s found = rw (load_header, found) refl

pub load_header-store_header :
    (p : ℕ) (h : Header) (s : State) → load_header p (store_header p (some h) s) ≡ ok h
load_header-store_header p h s =
    load_header-found p (store_header p (some h) s) (set_header-here s.heap p (some h))

store_header-store_header :
    (p : ℕ) (new old : Option Header) (s : State)
    → store_header p new (store_header p old s) ≡ store_header p new s
store_header-store_header p new old s =
    ap {A = ℕ → Option Header} {B = State} (λ heap. record { heap = heap; threads = s.threads })
      (set_header-set s.heap p new old)

pub load_thread-found :
    (stack : ℕ) (s : State) {t : Thread}
    → find_node stack s.threads ≡ some t
    → load_thread stack s ≡ ok t
unfolding load_thread
load_thread-found stack s found = rw (load_thread, found) refl

pub get_thread_stack-found :
    (id calloc stack : ℕ) (s : State)
    → get_thread_stack_current id s.threads ≡ some stack
    → get_thread_stack id calloc s ≡ ok (stack, s)
unfolding get_thread_stack
get_thread_stack-found id calloc stack s found = rw (get_thread_stack, found) refl

module _ (self file function line object code calloc : ℕ) (real : object ≢ 0) where
  create_header-unused :
      (s : State) (stack calloc' : ℕ) (t : Thread)
      → find_node stack s.threads ≡ some t
      → StorageIsValid s.heap stack
      → calloc' ≢ 0
      → s.heap calloc' ≡ none
      → (e : ℕ) × (create_header object stack calloc' s
          ≡ ok (
            e,
            store_header e (some (record zero_header { object = object; thread_id = t.id })) s,
          ))
        × (s.heap e ≡ unused stack e)
        × (e ≢ 0)
  unfolding create_header
  create_header-unused s stack calloc' t found storage some_place free = elim storage [
    | inl z ↦ (
      ehstorage stack,
      rw (load_thread-found stack s found, load_header-found (ehstorage stack) s z) refl,
      rw (==-refl (ehstorage stack)) z,
      λ h. omega arith,
    )
    | inr (h, loaded, taken) ↦
        let used : (h.object == 0) ≡ false = ==-ne taken in
        let place : (calloc' == 0) ≡ false = ==-ne some_place in
        let other : (calloc' == ehstorage stack) ≡ false =
          ==-ne
            (λ same. let clash : some h ≡ none = sym loaded ∙ ap s.heap (sym same) ∙ free in cc) in
        (
          calloc',
          rw
              (
                load_thread-found stack s found,
                load_header-found (ehstorage stack) s loaded,
                used,
                place,
              )
              refl,
          rw other free,
          some_place,
        )
  ]

  pub throw-with_header :
      (s : State) (stack calloc' : ℕ) (t : Thread)
      → find_node stack s.threads ≡ some t
      → t.id ≡ self
      → get_thread_stack_current self s.threads ≡ some stack
      → StorageIsValid s.heap stack
      → calloc' ≢ 0
      → s.heap calloc' ≡ none
      → (e : ℕ) × (throw self file function line object calloc calloc' s
          ≡ ok (e, with_header stack e (thrown self file function line object t.stack) s))
        × (s.heap e ≡ unused stack e)
        × (e ≢ 0)
  unfolding throw push
  throw-with_header s stack calloc' t found own current storage some_place free =
      let (e, created, place, real_place) =
        create_header-unused s stack calloc' t found storage some_place free in
      let base = record zero_header { object = object; thread_id = t.id } in
      let placed = record base { file = file; function = function; line = line } in
      let read_base = load_header-store_header e base s in
      let s' = store_header e (some base) s in
      let topped = record placed { next = t.stack } in
      let read_placed = load_header-store_header e placed s' in
      let node = load_thread-found stack (store_header e (some placed) s') found in
      let over_placed = store_header-store_header e (some topped) (some placed) s' in
      let over_base = store_header-store_header e (some topped) (some base) s in
      let pushed : store_header e (some topped) (store_header e (some placed) s')
          ≡ store_header e (some (thrown self file function line object t.stack)) s =
        over_placed
        ∙ over_base
        ∙ ap {A = ℕ} {B = State}
            (λ id. store_header e (some (thrown id file function line object t.stack)) s) own in
      (
        e,
        rw
            (
              get_thread_stack-found self calloc stack s current,
              created,
              read_base,
              read_placed,
              node,
            )
            (ap {A = State} {B = Outcome (ℕ × State)} (λ x. ok (e, store_stack stack e x)) pushed),
        place,
        real_place,
      )

  cleanup-unused :
      (s : State) (stack e : ℕ) (h : Header) (t : Thread)
      → find_node stack s.threads ≡ some t
      → get_thread_stack_current h.thread_id s.threads ≡ some stack
      → s.heap e ≡ unused stack e
      → (code ≡ 0) ⊎ (code ≡ 1)
      → exception_cleanup code e calloc (store_header e (some h) s)
        ≡ ok (if t.stack == 0 then remove_thread stack s else s)
  unfolding exception_cleanup free_header
  cleanup-unused s stack e h t found current place reason =
      let s' = store_header e (some h) s in
      let caught : (not (code == 1) && not (code == 0)) ≡ false = ground arith in
      let read = load_header-store_header e h s in
      let owner = get_thread_stack-found h.thread_id calloc stack s' current in
      let node = load_thread-found stack s' found in
      let over = store_header-store_header e (unused stack e) (some h) s in
      let as_before : store_header e (unused stack e) s ≡ s =
        ap {A = ℕ → Option Header} {B = State} (λ heap. record { heap = heap; threads = s.threads })
          (set_header-same s.heap e (unused stack e) place) in
      rw (read, caught, owner, read, node, over, as_before) refl

  pub catch-with_header :
      (s : State) (stack e : ℕ) (t : Thread)
      → find_node stack s.threads ≡ some t
      → t.id ≡ self
      → get_thread_stack_current self s.threads ≡ some stack
      → s.heap e ≡ unused stack e
      → (code ≡ 0) ⊎ (code ≡ 1)
      → begin_catch self code e calloc
          (with_header stack e (thrown self file function line object t.stack) s)
        ≡ ok (object, if t.stack == 0 then remove_thread stack s else s)
  unfolding begin_catch pop
  catch-with_header s stack e t found own current place reason =
      let h = thrown self file function line object t.stack in
      let s' = with_header stack e h s in
      let current' =
        get_thread_stack-found self calloc stack s'
          (current-set_node stack self e s.threads ∙ current) in
      let loaded = load_header-found e s' (set_header-here s.heap e (some h)) in
      let found' = load_thread-found stack s' (find_node-set_node stack e s.threads found) in
      let popped : store_stack stack t.stack s' ≡ store_header e (some h) s =
        ap {A = List Thread} {B = State} (λ threads. record { heap = s'.heap; threads = threads })
          (set_node-set_node stack e t.stack s.threads ∙ set_node-same stack s.threads found) in
      let cleaned = cleanup-unused s stack e h t found current place reason in
      rw (current', loaded, found', loaded, popped, ==-refl e, cleaned) refl
