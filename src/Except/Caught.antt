-- ===== src/Except/Caught.antt =====
-- c/except.c: `_yrt_exc_begin_catch` on the stacks of several threads.
use mathlib.Core.Path.{subst}
use mathlib.Core.Option.{some-injective}
use yruntime.Base.{
  ℕ, ◌≡◌, ◌≢◌, refl, ap, sym, ◌∙◌, List, none, some, true, false, not, ◌&&◌, ◌==◌, if◌then◌else◌,
  Bool-cases, inl, inr, ◌⊎◌, ==_iff, All, arith,
}
use yruntime.Unwind.Memory.{ok}
use yruntime.Except.State.{
  Header, zero_header, Thread, State, ehstorage, get_thread_stack_current, find_node, set_node,
  set_header,
}
use yruntime.Except.Threads.{
  ==-refl, ==-ne, set_header-here, current-set_node, find_node-set_node, find_node-address,
}
use yruntime.Except.Operations.{exception_cleanup, free_header, remove_thread, pop, begin_catch}
use yruntime.Except.Steps.{unused, load_header-found, load_thread-found, get_thread_stack-found}
use yruntime.Except.Stacks.{
  Stacks, with_stack_of, Linked, IsOwned, IsGood, Holds, Linked-frame, Linked-apart,
}
use yruntime.Except.Chain.{All-set_node, set_node-Distinct}
use yruntime.Except.Thrown.{other-thread}

-- The state in which the header on top of a stack is taken off and freed.
abbrev pub popped : ℕ → ℕ → ℕ → State → State
popped stack e next s = record {
  heap = set_header e (unused stack e) s.heap;
  threads = set_node stack next s.threads;
}

pub catch-top :
    (self code e calloc stack : ℕ) (s : State) (t : Thread) (h : Header)
    → get_thread_stack_current self s.threads ≡ some stack
    → find_node stack s.threads ≡ some t
    → t.stack ≡ e
    → s.heap e ≡ some h
    → h.thread_id ≡ self
    → (code ≡ 0) ⊎ (code ≡ 1)
    → begin_catch self code e calloc s
      ≡ ok (
        h.object,
        if h.next == 0
            then remove_thread stack (popped stack e h.next s)
            else popped stack e h.next s,
      )
unfolding begin_catch pop exception_cleanup free_header
catch-top self code e calloc stack s t h current found top here own reason =
    let s1 : State = record { heap = s.heap; threads = set_node stack h.next s.threads } in
    let caught : (not (code == 1) && not (code == 0)) ≡ false = ground arith in
    let owner = get_thread_stack-found self calloc stack s current in
    let read = load_header-found e s here in
    let node = load_thread-found stack s found in
    let read1 = load_header-found e s1 here in
    let owner1 =
      get_thread_stack-found self calloc stack s1
        (current-set_node stack self h.next s.threads ∙ current) in
    let node1 = load_thread-found stack s1 (find_node-set_node stack h.next s.threads found) in
    rw (owner, read, node, top, read, ==-refl e, read1, caught, own, owner1, read1, node1) refl

-- Where another thread's exceptions stand, nothing of this thread's does.
module _ (self stack e : ℕ) (s : State) (stacks : Stacks) (t : Thread) (h : Header)
    (xs : List (ℕ × ℕ)) (holds : Holds s stacks)
    (current : get_thread_stack_current self s.threads ≡ some stack)
    (found : find_node stack s.threads ≡ some t) (own : t.id ≡ self) (here : s.heap e ≡ some h)
    (live : h.object ≢ 0) (own_header : h.thread_id ≡ self) (apart : All (λ x. x.0 ≢ e) xs)
    (rest : Linked s.heap self h.next xs) where
  abbrev pub popped_state : State
  popped_state = popped stack e h.next s

  abbrev pub popped_stacks : Stacks
  popped_stacks = with_stack_of self xs stacks

  popped-other :
      (u : Thread)
      → u.address ≢ stack
      → IsGood s.heap s.threads stacks u
      → IsGood popped_state.heap popped_state.threads popped_stacks u
  popped-other u other (registered, linked, owned) =
      let distinct_id = other-thread self stack s.threads u current registered other in
      let keep : (p : ℕ) (k : Header)
          → s.heap p ≡ some k
          → k.object ≢ 0
          → k.thread_id ≡ u.id
          → popped_state.heap p ≡ some k =
        λ p k there live own'.
          let elsewhere : (e == p) ≡ false = ==-ne (λ same.
            let one : h ≡ k = some-injective h k (sym here ∙ ap s.heap same ∙ there) in
            distinct_id (sym own_header ∙ ap (λ x. x.thread_id) one ∙ own')) in
          rw elsewhere there in
      let owned' : IsOwned popped_state.heap u = elim owned [
        | inl z ↦
            (let elsewhere : (e == ehstorage u.address) ≡ false = ==-ne (λ same.
                let one : h ≡ zero_header =
                  some-injective h zero_header (sym here ∙ ap s.heap same ∙ z) in
                live (ap (λ x. x.object) one)) in
              inl (rw elsewhere z))
        | inr (k, there, alive, own') ↦
            inr (k, keep (ehstorage u.address) k there alive own', alive, own')
      ] in
      (
        current-set_node stack u.id h.next s.threads ∙ registered,
        rw (==-ne distinct_id)
            (Linked-frame s.heap popped_state.heap u.id u.stack (stacks u.id) keep linked),
        owned',
      )

  popped-own :
      IsGood s.heap s.threads stacks t
      → IsGood popped_state.heap popped_state.threads popped_stacks (record t { stack = h.next })
  popped-own (registered, linked, owned) =
      let at : t.address ≡ stack = find_node-address stack s.threads found in
      let mine : (self == t.id) ≡ true = rw own (==-refl self) in
      let behind = Linked-apart s.heap self h.next e (unused stack e) xs apart rest in
      (
        current-set_node stack t.id h.next s.threads ∙ registered,
        rw mine (subst (λ id. Linked popped_state.heap id h.next xs) (sym own) behind),
        elim (Bool-cases (e == ehstorage stack)) [
          | inl same ↦
              (let there : ehstorage t.address ≡ e =
                  ap ehstorage at ∙ sym ((==_iff e (ehstorage stack)).0 same) in
                inl (
                  ap popped_state.heap there
                  ∙ set_header-here s.heap e (unused stack e)
                  ∙ rw same refl))
          | inr other ↦
              (let elsewhere : (e == ehstorage t.address) ≡ false = rw at other in
                elim owned [
                  | inl z ↦ inl (rw elsewhere z)
                  | inr (k, there, alive, own') ↦ inr (k, rw elsewhere there, alive, own')
                ])
        ],
      )

  pub popped-Holds : Holds popped_state popped_stacks
  popped-Holds = record {
    distinct = set_node-Distinct stack h.next s.threads holds.distinct;
    good =
        All-set_node stack (IsGood s.heap s.threads stacks)
          (IsGood popped_state.heap popped_state.threads popped_stacks) h.next s.threads t
          holds.distinct found holds.good popped-other popped-own;
    absent = λ id missing.
        let missing' : get_thread_stack_current id s.threads ≡ none =
          sym (current-set_node stack id h.next s.threads) ∙ missing in
        let apart : (self == id) ≡ false = ==-ne (λ same.
          let clash : some stack ≡ none =
            sym current ∙ ap (λ k. get_thread_stack_current k s.threads) same ∙ missing' in
          cc) in
        rw apart (holds.absent id missing');
  }
