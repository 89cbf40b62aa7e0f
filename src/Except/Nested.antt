-- ===== src/Except/Nested.antt =====
-- c/except.c: an exception that is thrown while another one is on the stack.
use mathlib.Core.Path.{subst}
use yruntime.Base.{
  ℕ, ◌≡◌, ◌≢◌, refl, ap, sym, ◌∙◌, Option, none, some, ◌==◌, Bool-cases, inl, inr, ◌⊎◌,
}
use yruntime.Unwind.Memory.{ok, terminated, ok-injective, ◌>>=◌}
use yruntime.Except.State.{
  Header, zero_header, Thread, State, ehstorage, get_thread_stack_current, find_node, set_header,
}
use yruntime.Except.Threads.{
  ==-ne, set_header-here, find_node-set_node, current-set_node, find_node-current, find_node-All,
  find_node-address,
}
use yruntime.Except.Operations.{throw, pop, begin_catch}
use yruntime.Except.Steps.{
  StorageIsValid, IsValid, thrown, unused, with_header, load_header-found, load_thread-found,
  get_thread_stack-found, throw-with_header, catch-with_header,
}

-- With an exception on it, a stack's own header is still free or in use.
storage-with_header :
    (s : State) (stack e : ℕ) (h : Header)
    → StorageIsValid s.heap stack
    → h.object ≢ 0
    → StorageIsValid (set_header e (some h) s.heap) stack
storage-with_header s stack e h storage real = elim (Bool-cases (e == ehstorage stack)) [
  | inl same ↦ inr (h, rw same refl, real)
  | inr other ↦ elim storage [
    | inl z ↦ inl (rw other z)
    | inr (h', loaded, taken) ↦ inr (h', rw other loaded, taken)
  ]
]

-- A header that is not in use is none that holds an exception.
unused-other :
    (heap : ℕ → Option Header) (stack e e' : ℕ) (h : Header)
    → heap e ≡ some h
    → h.object ≢ 0
    → heap e' ≡ unused stack e'
    → e' ≢ e
unused-other heap stack e e' h held real place same = elim (Bool-cases (e' == ehstorage stack)) [
  | inl own ↦
      let zeroed : unused stack e' ≡ some zero_header = rw own refl in
      let clash : some h ≡ some zero_header = sym held ∙ ap heap (sym same) ∙ place ∙ zeroed in
      real (ap (λ o. elim o as (λ x. ℕ) [ none ↦ 0 | some x ↦ x.object ]) clash)
  | inr other ↦
      let nothing : unused stack e' ≡ none = rw other refl in
      let clash : some h ≡ none = sym held ∙ ap heap (sym same) ∙ place ∙ nothing in cc
]

-- A catch of a header that is not on top.
begin_catch-below :
    (self code calloc stack e top : ℕ) (s : State) (t : Thread) (h h' : Header)
    → get_thread_stack_current self s.threads ≡ some stack
    → find_node stack s.threads ≡ some t
    → t.stack ≡ top
    → s.heap e ≡ some h
    → s.heap top ≡ some h'
    → e ≢ top
    → begin_catch self code e calloc s ≡ terminated
unfolding begin_catch pop
begin_catch-below self code calloc stack e top s t h h' current found on_top below above other =
    let owner = get_thread_stack-found self calloc stack s current in
    let read = load_header-found e s below in
    let node = load_thread-found stack s found in
    let read_top = load_header-found top s above in
    rw (owner, read, node, on_top, read_top, ==-ne other) refl

module _ (self file function line object calloc code : ℕ) (s : State) (stack : ℕ)
    (valid : IsValid s) (current : get_thread_stack_current self s.threads ≡ some stack)
    (real : object ≢ 0) (reason : (code ≡ 0) ⊎ (code ≡ 1)) where
  -- What holds behind a throw, of the header and the state that it gives.
  Nests : (calloc' object' : ℕ) → ℕ × State → Type 0
  Nests calloc' object' r =
      r.1.heap calloc' ≡ none
      → ((throw self file function line object' calloc calloc' r.1 >>= λ (e', s').
            begin_catch self code e' calloc s')
          ≡ ok (object', r.1))
        × ((throw self file function line object' calloc calloc' r.1 >>= λ (e', s').
              begin_catch self code r.0 calloc s')
            ≡ terminated)

  with_header-Nests :
      (calloc' object' e : ℕ) (t : Thread)
      → find_node stack s.threads ≡ some t
      → t.id ≡ self
      → StorageIsValid s.heap stack
      → e ≢ 0
      → object' ≢ 0
      → calloc' ≢ 0
      → Nests calloc' object'
          (e, with_header stack e (thrown self file function line object t.stack) s)
  unfolding Nests
  with_header-Nests calloc' object' e t found own storage e_real real' some_place free =
      let h = thrown self file function line object t.stack in
      let s1 = with_header stack e h s in
      let t1 : Thread = record t { stack = e } in
      let found1 = find_node-set_node stack e s.threads found in
      let current1 = current-set_node stack self e s.threads ∙ current in
      let storage1 = storage-with_header s stack e h storage real in
      let (e', thrown_ok, place, _) =
        throw-with_header self file function line object' code calloc real' s1 stack calloc' t1
          found1 own current1 storage1 some_place free in
      let h' = thrown self file function line object' e in
      let s2 = with_header stack e' h' s1 in
      let caught =
        catch-with_header self file function line object' code calloc real' s1 stack e' t1 found1
          own current1 place reason in
      let held = set_header-here s.heap e (some h) in
      let apart = unused-other s1.heap stack e e' h held real place in
      let kept : s2.heap e ≡ some h = rw (==-ne apart) held in
      let below =
        begin_catch-below self code calloc stack e e' s2 (record t1 { stack = e' }) h h'
          (current-set_node stack self e' s1.threads ∙ current1)
          (find_node-set_node stack e' s1.threads found1) refl kept
          (set_header-here s1.heap e' (some h')) (λ same. apart (sym same)) in
      (rw (thrown_ok, caught, ==-ne e_real) refl, rw thrown_ok below)

-- In a valid state, in a thread that has its stack, with an exception thrown there, an object that
-- is not NULL, an allocator that returns addresses that are not in use, and a cleanup that is
-- called with the code 0 or 1: a second exception is thrown and caught and leaves the state that
-- the first throw left, and a catch of the first one before the second one terminates the process.
pub begin_catch-nested :
    (self file function line object object' calloc calloc' calloc'' code stack e : ℕ) (s s' : State)
    → IsValid s
    → get_thread_stack_current self s.threads ≡ some stack
    → object ≢ 0
    → object' ≢ 0
    → calloc' ≢ 0
    → s.heap calloc' ≡ none
    → throw self file function line object calloc calloc' s ≡ ok (e, s')
    → calloc'' ≢ 0
    → s'.heap calloc'' ≡ none
    → (code ≡ 0) ⊎ (code ≡ 1)
    → ((throw self file function line object' calloc calloc'' s' >>= λ (e', s'').
          begin_catch self code e' calloc s'')
        ≡ ok (object', s'))
      × ((throw self file function line object' calloc calloc'' s' >>= λ (e', s'').
            begin_catch self code e calloc s'')
          ≡ terminated)
unfolding Nests
begin_catch-nested self file function line object object' calloc calloc' calloc'' code stack e s s'
      valid current real real' some_place free first some_place' free' reason =
    let (t, found, own) = find_node-current self stack s.threads valid.distinct current in
    let storage : StorageIsValid s.heap stack =
      subst (StorageIsValid s.heap) (find_node-address stack s.threads found) (
        find_node-All (λ u. StorageIsValid s.heap u.address) stack s.threads found valid.storage) in
    let (e1, thrown_ok, place, e_real) =
      throw-with_header self file function line object code calloc real s stack calloc' t found own
        current storage some_place free in
    let nests =
      with_header-Nests self file function line object calloc code s stack valid current real reason
        calloc'' object' e1 t found own storage e_real real' some_place' in
    let same : (e1, with_header stack e1 (thrown self file function line object t.stack) s)
        ≡ (e, s') =
      ok-injective (sym thrown_ok ∙ first) in
    subst
      (Nests self file function line object calloc code s stack valid current real reason calloc''
        object')
      same nests free'
