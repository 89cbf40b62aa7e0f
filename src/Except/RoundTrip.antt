-- ===== src/Except/RoundTrip.antt =====
-- c/except.c: `_yrt_exc_begin_catch` takes back what `_yrt_exc_throw` put on the stack.
use mathlib.Core.Path.{subst}
use yruntime.Base.{
  ℕ, ◌≡◌, ◌≢◌, refl, ap, sym, ◌∙◌, List, ◌∷◌, Option, none, some, false, ◌==◌, Bool-cases,
  Option-cases, inl, inr, ◌⊎◌, ==_iff,
}
use yruntime.Unwind.Memory.{ok, ◌>>=◌}
use yruntime.Except.State.{
  Header, zero_header, Thread, State, ehstorage, get_thread_stack_current, find_node, set_header,
}
use yruntime.Except.Threads.{
  ==-ne, set_header-set, set_header-here, set_header-same, appended, find_node-appended,
  unlink-appended, current-appended, find_node-current, find_node-All, find_node-address,
}
use yruntime.Except.Operations.{insert_thread, remove_thread, get_thread_stack, throw, begin_catch}
use yruntime.Except.Steps.{
  StorageIsValid, IsValid, get_thread_stack-found, throw-with_header, catch-with_header,
}

-- A stack that is empty behind a catch is the main thread's, which stays.
remove_thread-empty :
    (s : State) (stack : ℕ) (t : Thread)
    → IsValid s
    → find_node stack s.threads ≡ some t
    → t.stack ≡ 0
    → remove_thread stack s ≡ s
unfolding remove_thread
remove_thread-empty s stack t valid found empty =
    elim (Bool-cases (valid.global.address == stack)) [
      | inl e ↦
          rw (remove_thread, valid.chain, e)
            (ap {A = List Thread} {B = State} (λ ts. record { heap = s.heap; threads = ts })
              valid.chain)
      | inr e ↦
          let whole : find_node stack (valid.global ∷ valid.others) ≡ some t =
            ap (find_node stack) (sym valid.chain) ∙ found in
          let skipped : find_node stack (valid.global ∷ valid.others)
              ≡ find_node stack valid.others =
            rw e refl in
          absurd (find_node-All _ stack valid.others (sym skipped ∙ whole) valid.busy empty)
    ]

-- Where the main thread has its stack and `self` has none, a new one goes to the end of the chain.
abbrev pub with_stack : ℕ → ℕ → State → State
with_stack self calloc s = record {
  heap = set_header (ehstorage calloc) (some zero_header) s.heap;
  threads = appended calloc self 0 s.threads;
}

get_thread_stack-new :
    (self calloc : ℕ) (s : State)
    → get_thread_stack_current self s.threads ≡ none
    → calloc ≢ 0
    → get_thread_stack self calloc s ≡ ok (calloc, with_stack self calloc s)
unfolding get_thread_stack insert_thread
get_thread_stack-new self calloc s current real =
    rw (get_thread_stack, current, insert_thread, ==-ne real) refl

remove_thread-chain :
    (self calloc : ℕ) (heap : ℕ → Option Header) (global : Thread) (others : List Thread)
    → heap (ehstorage calloc) ≡ none
    → find_node calloc (global ∷ others) ≡ none
    → remove_thread calloc
        (with_stack self calloc (record { heap = heap; threads = global ∷ others }))
      ≡ record { heap = heap; threads = global ∷ others }
unfolding remove_thread
remove_thread-chain self calloc heap global others free new =
    elim (Bool-cases (global.address == calloc)) [
      | inl e ↦ let head : find_node calloc (global ∷ others) ≡ some global = rw e refl in cc
      | inr e ↦
          let behind : find_node calloc (global ∷ others) ≡ find_node calloc others = rw e refl in
          let new' = sym behind ∙ new in
          rw
            (
              remove_thread,
              e,
              find_node-appended calloc self 0 others new',
              unlink-appended calloc self 0 others new',
              set_header-set heap (ehstorage calloc) none (some zero_header),
              set_header-same heap (ehstorage calloc) none free,
            )
            refl
    ]

remove_thread-new :
    (self calloc : ℕ) (s : State)
    → IsValid s
    → find_node calloc s.threads ≡ none
    → s.heap (ehstorage calloc) ≡ none
    → remove_thread calloc (with_stack self calloc s) ≡ s
remove_thread-new self calloc s valid new free =
    subst
      (λ ts.
        find_node calloc ts ≡ none
        → remove_thread calloc (with_stack self calloc (record { heap = s.heap; threads = ts }))
          ≡ record { heap = s.heap; threads = ts })
      (sym valid.chain) (remove_thread-chain self calloc s.heap valid.global valid.others free) new

pub throw-new :
    (self file function line object calloc calloc' : ℕ) (s : State)
    → get_thread_stack_current self s.threads ≡ none
    → calloc ≢ 0
    → throw self file function line object calloc calloc' s
      ≡ throw self file function line object calloc calloc' (with_stack self calloc s)
unfolding throw
throw-new self file function line object calloc calloc' s current real =
    rw
      (
        get_thread_stack-new self calloc s current real,
        get_thread_stack-found self calloc calloc (with_stack self calloc s)
            (current-appended calloc self 0 s.threads current),
      )
      refl

-- In a valid state, with an object that is not NULL, an allocator that returns addresses that are
-- not in use, and a cleanup that is called with the code 0 or 1: `_yrt_exc_throw` puts the
-- exception on the stack of its thread, which it makes where there is none, and
-- `_yrt_exc_begin_catch` gives the object back and leaves the state that there was.
pub begin_catch-throw :
    (self file function line object calloc calloc' calloc'' code : ℕ) (s : State)
    → IsValid s
    → object ≢ 0
    → calloc ≢ 0
    → find_node calloc s.threads ≡ none
    → s.heap (ehstorage calloc) ≡ none
    → calloc' ≢ 0
    → s.heap calloc' ≡ none
    → calloc' ≢ ehstorage calloc
    → (code ≡ 0) ⊎ (code ≡ 1)
    → (throw self file function line object calloc calloc' s >>= λ (e, s').
        begin_catch self code e calloc'' s')
      ≡ ok (object, s)
begin_catch-throw self file function line object calloc calloc' calloc'' code s valid real
      some_stack new room some_place free apart reason =
    elim (Option-cases (get_thread_stack_current self s.threads)) [
      | inr (stack, current) ↦
          let (t, found, own) = find_node-current self stack s.threads valid.distinct current in
          let storage : StorageIsValid s.heap stack =
            subst (StorageIsValid s.heap) (find_node-address stack s.threads found) (
              find_node-All (λ u. StorageIsValid s.heap u.address) stack s.threads found
                valid.storage) in
          let (e, thrown_ok, place, _) =
            throw-with_header self file function line object code calloc real s stack calloc' t
              found own current storage some_place free in
          let caught =
            catch-with_header self file function line object code calloc'' real s stack e t found
              own current place reason in
          rw (thrown_ok, caught)
            (elim (Bool-cases (t.stack == 0)) [
              | inl z ↦ rw (z, remove_thread-empty s stack t valid found ((==_iff _ _).0 z)) refl
              | inr z ↦ rw z refl
            ])
      | inl current ↦
          let s' = with_stack self calloc s in
          let other : (ehstorage calloc == calloc') ≡ false = ==-ne (λ same. apart (sym same)) in
          let free' : s'.heap calloc' ≡ none = rw other free in
          let storage : StorageIsValid s'.heap calloc =
            inl (set_header-here s.heap (ehstorage calloc) (some zero_header)) in
          let current' = current-appended calloc self 0 s.threads current in
          let found = find_node-appended calloc self 0 s.threads new in
          let t : Thread = record { address = calloc; stack = 0; id = self } in
          let (e, thrown_ok, place, _) =
            throw-with_header self file function line object code calloc real s' calloc calloc' t
              found refl current' storage some_place free' in
          let caught =
            catch-with_header self file function line object code calloc'' real s' calloc e t found
              refl current' place reason in
          rw
            (
              throw-new self file function line object calloc calloc' s current some_stack,
              thrown_ok,
              caught,
              remove_thread-new self calloc s valid new room,
            )
            refl
    ]
