-- ===== src/Except/Thrown.antt =====
-- c/except.c: `_yrt_exc_throw` on the stacks of several threads.
use mathlib.Core.Path.{subst}
use mathlib.Core.Option.{some-injective}
use yruntime.Base.{
  ℕ, ◌≡◌, ◌≢◌, refl, ap, sym, ◌∙◌, List, [], ◌∷◌, Option, none, some, true, false, ◌==◌, Bool-cases,
  inl, inr, All, All-append, arith,
}
use yruntime.Except.State.{
  Header, zero_header, Thread, State, ehstorage, get_thread_stack_current, find_node, set_header,
}
use yruntime.Except.Threads.{
  ==-refl, ==-ne, set_header-here, current-appended, current-set_node, find_node-address,
}
use yruntime.Except.Steps.{thrown, unused, with_header}
use yruntime.Except.RoundTrip.{with_stack}
use yruntime.Except.Stacks.{
  Stacks, with_stack_of, Linked, IsOwned, IsGood, Holds, Linked-frame, Linked-unused,
}
use yruntime.Except.Chain.{
  All-set_node, set_node-Distinct, current-appended_before, current-appended-none,
  appended-Distinct,
}

pub All-map {ℓ κ μ} :
    {A : Type ℓ} (P : A → Type κ) (Q : A → Type μ) (xs : List A)
    → ((x : A) → P x → Q x)
    → All P xs
    → All Q xs
All-map P Q [] f h = tt
All-map P Q (x ∷ xs) f (hx, h) = (f x hx, All-map P Q xs f h)

-- A header that was not live, written.
written-frame :
    (heap : ℕ → Option Header) (e : ℕ) (new : Option Header)
    → ((h : Header) → heap e ≡ some h → h.object ≡ 0)
    → (p : ℕ) (h : Header) → heap p ≡ some h
    → h.object ≢ 0
    → set_header e new heap p ≡ some h
written-frame heap e new dead p h here live =
    let apart : (e == p) ≡ false = ==-ne (λ same. live (dead h (ap heap same ∙ here))) in
    rw apart here

pub IsOwned-written :
    (heap : ℕ → Option Header) (e : ℕ) (new : Option Header) (u : Thread)
    → e ≢ ehstorage u.address
    → IsOwned heap u
    → IsOwned (set_header e new heap) u
IsOwned-written heap e new u other (inl z) = inl (rw (==-ne other) z)
IsOwned-written heap e new u other (inr (h, here, live, own)) =
    inr (h, rw (==-ne other) here, live, own)

-- A new stack for a thread that has none.
module _ (self calloc : ℕ) (s : State) (stacks : Stacks) (holds : Holds s stacks)
    (current : get_thread_stack_current self s.threads ≡ none)
    (new : find_node calloc s.threads ≡ none) (room : s.heap (ehstorage calloc) ≡ none) where
  inserted-IsGood :
      (u : Thread)
      → IsGood s.heap s.threads stacks u
      → IsGood (with_stack self calloc s).heap (with_stack self calloc s).threads stacks u
  inserted-IsGood u (registered, linked, owned) =
      let dead : (h : Header) → s.heap (ehstorage calloc) ≡ some h → h.object ≡ 0 =
        λ h here. let clash : none ≡ some h = sym room ∙ here in cc in
      let apart : ehstorage calloc ≢ ehstorage u.address = λ same. elim owned [
        | inl z ↦ (let clash : none ≡ some zero_header = sym room ∙ ap s.heap same ∙ z in cc)
        | inr (h, here, live, own) ↦
            (let clash : none ≡ some h = sym room ∙ ap s.heap same ∙ here in cc)
      ] in
      (
        current-appended_before calloc self 0 u.id u.address s.threads registered,
        Linked-frame s.heap (set_header (ehstorage calloc) (some zero_header) s.heap) u.id u.stack
            (stacks u.id)
            (λ p h here live own.
              written-frame s.heap (ehstorage calloc) (some zero_header) dead p h here live)
            linked,
        IsOwned-written s.heap (ehstorage calloc) (some zero_header) u apart owned,
      )

  pub with_stack-Holds : Holds (with_stack self calloc s) stacks
  with_stack-Holds = record {
    distinct = appended-Distinct calloc self 0 s.threads new holds.distinct;
    good =
        All-append _ s.threads (record { address = calloc; stack = 0; id = self } ∷ [])
          (All-map (IsGood s.heap s.threads stacks) _ s.threads inserted-IsGood holds.good)
          (
            (
              current-appended calloc self 0 s.threads current,
              subst (Linked (with_stack self calloc s).heap self 0)
                  (sym (holds.absent self current)) refl,
              inl (set_header-here s.heap (ehstorage calloc) (some zero_header)),
            ),
            tt,
          );
    absent =
        λ id missing. holds.absent id (current-appended-none calloc self 0 id s.threads missing);
  }

unused-dead :
    (heap : ℕ → Option Header) (stack e : ℕ)
    → heap e ≡ unused stack e
    → (h : Header) → heap e ≡ some h
    → h.object ≡ 0
unused-dead heap stack e place h here = elim (Bool-cases (e == ehstorage stack)) [
  | inl own ↦
      let zeroed : unused stack e ≡ some zero_header = rw own refl in
      let same : h ≡ zero_header = some-injective h zero_header (sym here ∙ place ∙ zeroed) in
      ap (λ x. x.object) same
  | inr other ↦
      let nothing : unused stack e ≡ none = rw other refl in
      let clash : some h ≡ none = sym here ∙ place ∙ nothing in cc
]

-- What a search by the id gives tells the threads apart.
pub other-thread :
    (self stack : ℕ) (threads : List Thread) (u : Thread)
    → get_thread_stack_current self threads ≡ some stack
    → get_thread_stack_current u.id threads ≡ some u.address
    → u.address ≢ stack
    → self ≢ u.id
other-thread self stack threads u current registered other same = other (
    some-injective u.address stack
      (sym registered ∙ ap (λ id. get_thread_stack_current id threads) (sym same) ∙ current))

-- An exception on top of a stack.
module _ (self file function line object stack e : ℕ) (s : State) (stacks : Stacks) (t : Thread)
    (holds : Holds s stacks) (current : get_thread_stack_current self s.threads ≡ some stack)
    (found : find_node stack s.threads ≡ some t) (own : t.id ≡ self) (live : object ≢ 0)
    (place : s.heap e ≡ unused stack e) (real : e ≢ 0) where
  abbrev pub pushed_state : State
  pushed_state = with_header stack e (thrown self file function line object t.stack) s

  abbrev pub pushed_stacks : Stacks
  pushed_stacks = with_stack_of self ((e, object) ∷ stacks self) stacks

  pushed-frame :
      (id next : ℕ) (xs : List (ℕ × ℕ))
      → Linked s.heap id next xs
      → Linked pushed_state.heap id next xs
  pushed-frame id next xs l =
      Linked-frame s.heap pushed_state.heap id next xs
        (λ p h here live own.
          written-frame s.heap e (some (thrown self file function line object t.stack))
            (unused-dead s.heap stack e place) p h here live)
        l

  pushed-other :
      (u : Thread)
      → u.address ≢ stack
      → IsGood s.heap s.threads stacks u
      → IsGood pushed_state.heap pushed_state.threads pushed_stacks u
  pushed-other u other (registered, linked, owned) =
      let apart : (self == u.id) ≡ false =
        ==-ne (other-thread self stack s.threads u current registered other) in
      let elsewhere : e ≢ ehstorage u.address = λ same.
        let not_own : (e == ehstorage stack) ≡ false =
          ==-ne (λ (at : e ≡ ehstorage stack). other (omega (arith, sym same ∙ at))) in
        let nothing : s.heap e ≡ none = place ∙ (rw not_own refl) in
        elim owned [
          | inl z ↦ (let clash : none ≡ some zero_header = sym nothing ∙ ap s.heap same ∙ z in cc)
          | inr (h, here, live, own) ↦
              (let clash : none ≡ some h = sym nothing ∙ ap s.heap same ∙ here in cc)
        ] in
      (
        current-set_node stack u.id e s.threads ∙ registered,
        rw apart (pushed-frame u.id u.stack (stacks u.id) linked),
        IsOwned-written s.heap e (some (thrown self file function line object t.stack)) u elsewhere
            owned,
      )

  pushed-own :
      IsGood s.heap s.threads stacks t
      → IsGood pushed_state.heap pushed_state.threads pushed_stacks (record t { stack = e })
  pushed-own (registered, linked, owned) =
      let h = thrown self file function line object t.stack in
      let at : t.address ≡ stack = find_node-address stack s.threads found in
      let mine : (self == t.id) ≡ true = rw own (==-refl self) in
      let same_id : stacks t.id ≡ stacks self = ap stacks own in
      let apart =
        Linked-unused s.heap t.id t.stack e (stacks t.id) (unused-dead s.heap stack e place)
          linked in
      let behind = pushed-frame t.id t.stack (stacks t.id) linked in
      (
        current-set_node stack t.id e s.threads ∙ registered,
        rw mine (
          h,
          set_header-here s.heap e (some h),
          refl,
          real,
          refl,
          live,
          sym own,
          subst (λ xs. All (λ x. x.0 ≢ e) xs) same_id apart,
          subst (λ xs. Linked pushed_state.heap t.id t.stack xs) same_id behind,
        ),
        elim (Bool-cases (e == ehstorage t.address)) [
          | inl same ↦ inr (h, rw same refl, live, sym own)
          | inr other ↦
              IsOwned-written s.heap e (some h) (record t { stack = e }) (ground (arith, other))
                owned
        ],
      )

  pub pushed-Holds : Holds pushed_state pushed_stacks
  pushed-Holds = record {
    distinct = set_node-Distinct stack e s.threads holds.distinct;
    good =
        All-set_node stack (IsGood s.heap s.threads stacks)
          (IsGood pushed_state.heap pushed_state.threads pushed_stacks) e s.threads t holds.distinct
          found holds.good pushed-other pushed-own;
    absent = λ id missing.
        let missing' : get_thread_stack_current id s.threads ≡ none =
          sym (current-set_node stack id e s.threads) ∙ missing in
        let apart : (self == id) ≡ false = ==-ne (λ same.
          let clash : some stack ≡ none =
            sym current ∙ ap (λ k. get_thread_stack_current k s.threads) same ∙ missing' in
          cc) in
        rw apart (holds.absent id missing');
  }
