-- ===== src/Except/Whole.antt =====
-- c/except.c: a throw and a catch in a thread of several, from the first call to the last.
use mathlib.Core.Path.{subst}
use yruntime.Base.{
  ℕ, ◌≡◌, ◌≢◌, refl, ap, sym, ◌∙◌, List, [], ◌∷◌, Option, none, some, true, false, ◌==◌, Bool-cases,
  Option-cases, inl, inr, ◌⊎◌, ==_iff, All, All-append, arith,
}
use yruntime.Unwind.Memory.{ok}
use yruntime.Except.State.{
  Header, zero_header, Thread, State, ehstorage, get_thread_stack_current, find_node, set_node,
  unlink,
}
use yruntime.Except.Threads.{
  ==-refl, ==-ne, set_header-here, appended, set_node-appended, current-appended,
  find_node-appended, find_node-set_node, current-set_node, find_node-current, find_node-All,
  find_node-address,
}
use yruntime.Except.Operations.{throw, remove_thread, begin_catch}
use yruntime.Except.Steps.{StorageIsValid, throw-with_header}
use yruntime.Except.RoundTrip.{with_stack, throw-new}
use yruntime.Except.Stacks.{Stacks, with_stack_of, Linked, IsOwned, IsGood, Holds, IsBusy, AreFree}
use yruntime.Except.Chain.{unlink-set_node}
use yruntime.Except.Thrown.{with_stack-Holds, pushed_state, pushed-Holds}
use yruntime.Except.Removed.{removed, remove_thread-cases, removed-Holds}
use yruntime.Except.Caught.{catch-top, popped, popped-Holds}

set_node-busy :
    (stack v : ℕ) (us : List Thread)
    → v ≢ 0
    → All (λ t. t.stack ≢ 0) us
    → All (λ t. t.stack ≢ 0) (set_node stack v us)
set_node-busy stack v [] real k = tt
set_node-busy stack v (u ∷ us) real (ku, k) = elim (Bool-cases (u.address == stack)) [
  | inl e ↦ rw e (real, k)
  | inr e ↦ rw e (ku, set_node-busy stack v us real k)
]

set_node-IsBusy :
    (stack v : ℕ) (ts : List Thread) → v ≢ 0 → IsBusy ts → IsBusy (set_node stack v ts)
set_node-IsBusy stack v [] real h = h
set_node-IsBusy stack v (g ∷ ts) real h = elim (Bool-cases (g.address == stack)) [
  | inl e ↦ rw e h
  | inr e ↦ rw e (set_node-busy stack v ts real h)
]

unlink-busy :
    (stack : ℕ) (us : List Thread)
    → All (λ t. t.stack ≢ 0) us
    → All (λ t. t.stack ≢ 0) (unlink stack us)
unlink-busy stack [] k = tt
unlink-busy stack (u ∷ us) (ku, k) = elim (Bool-cases (u.address == stack)) [
  | inl e ↦ rw e k
  | inr e ↦ rw e (ku, unlink-busy stack us k)
]

appended-IsBusy :
    (stack self e : ℕ) (ts : List Thread) → e ≢ 0 → IsBusy ts → IsBusy (appended stack self e ts)
appended-IsBusy stack self e [] real h = absurd h
appended-IsBusy stack self e (g ∷ ts) real h =
    All-append (λ t. t.stack ≢ 0) ts (record { address = stack; stack = e; id = self } ∷ []) h
      (real, tt)

-- A throw, in a thread that has a stack and in one that has none.
abbrev pub Throws : ℕ → ℕ → ℕ → ℕ → ℕ → ℕ → ℕ → State → Stacks → Type 0
Throws self file function line object calloc calloc' s stacks =
    (e : ℕ) × (s' : State) × (throw self file function line object calloc calloc' s ≡ ok (e, s'))
    × Holds s' (with_stack_of self ((e, object) ∷ stacks self) stacks)
    × IsBusy s'.threads

IsOwned-valid :
    (heap : ℕ → Option Header) (t : Thread) (stack : ℕ)
    → t.address ≡ stack
    → IsOwned heap t
    → StorageIsValid heap stack
IsOwned-valid heap t stack at owned =
    subst (StorageIsValid heap) at
      (elim owned [ inl z ↦ inl z | inr (h, here, live, own) ↦ inr (h, here, live) ])

pub throw-Throws :
    (self file function line object calloc calloc' : ℕ) (s : State) (stacks : Stacks)
    → Holds s stacks
    → IsBusy s.threads
    → AreFree s calloc calloc'
    → object ≢ 0
    → Throws self file function line object calloc calloc' s stacks
throw-Throws self file function line object calloc calloc' s stacks holds busy fresh live =
    elim (Option-cases (get_thread_stack_current self s.threads)) [
      | inr (stack, current) ↦
          (let (t, found, own) = find_node-current self stack s.threads holds.distinct current in
            let good =
              find_node-All (IsGood s.heap s.threads stacks) stack s.threads found holds.good in
            let storage =
              IsOwned-valid s.heap t stack (find_node-address stack s.threads found) good.2 in
            let (e, thrown_ok, place, real) =
              throw-with_header self file function line object 0 calloc live s stack calloc' t found
                own current storage fresh.some_place fresh.free in
            (
              e,
              pushed_state self file function line object stack e s stacks t holds current found own
                  live place real,
              thrown_ok,
              pushed-Holds self file function line object stack e s stacks t holds current found own
                  live place real,
              set_node-IsBusy stack e s.threads real busy,
            ))
      | inl current ↦
          (let s1 = with_stack self calloc s in
            let holds1 = with_stack-Holds self calloc s stacks holds current fresh.new fresh.room in
            let t : Thread = record { address = calloc; stack = 0; id = self } in
            let current1 = current-appended calloc self 0 s.threads current in
            let found1 = find_node-appended calloc self 0 s.threads fresh.new in
            let storage : StorageIsValid s1.heap calloc =
              inl (set_header-here s.heap (ehstorage calloc) (some zero_header)) in
            let other : (ehstorage calloc == calloc') ≡ false =
              ==-ne (λ same. fresh.apart (sym same)) in
            let free1 : s1.heap calloc' ≡ none = rw other fresh.free in
            let (e, thrown_ok, place, real) =
              throw-with_header self file function line object 0 calloc live s1 calloc calloc' t
                found1 refl current1 storage fresh.some_place free1 in
            (
              e,
              pushed_state self file function line object calloc e s1 stacks t holds1 current1
                  found1 refl live place real,
              throw-new self file function line object calloc calloc' s current fresh.some_stack
                  ∙ thrown_ok,
              pushed-Holds self file function line object calloc e s1 stacks t holds1 current1
                  found1 refl live place real,
              subst IsBusy (sym (set_node-appended calloc self 0 e s.threads fresh.new))
                  (appended-IsBusy calloc self e s.threads real busy),
            ))
    ]

-- What becomes of a stack that is left without exceptions: the main thread's stays, another is
-- taken out of the chain.
remove_thread-IsBusy :
    (stack v : ℕ) (heap : ℕ → Option Header) (ts : List Thread) (t : Thread)
    → IsBusy ts
    → find_node stack ts ≡ some t
    → (remove_thread stack (record { heap = heap; threads = set_node stack v ts })
          ≡ record { heap = heap; threads = set_node stack v ts })
        × IsBusy (set_node stack v ts)
      ⊎ (remove_thread stack (record { heap = heap; threads = set_node stack v ts })
          ≡ removed stack (record { heap = heap; threads = set_node stack v ts }))
        × IsBusy (unlink stack (set_node stack v ts))
remove_thread-IsBusy stack v heap [] t busy found = absurd busy
remove_thread-IsBusy stack v heap (g ∷ ts) t busy found =
    let found' = find_node-set_node stack v (g ∷ ts) found in
    elim (Bool-cases (g.address == stack)) [
      | inl e ↦
          (let set : set_node stack v (g ∷ ts) ≡ record g { stack = v } ∷ ts = rw e refl in
            let found1 : find_node stack (record g { stack = v } ∷ ts)
                ≡ some (record t { stack = v }) =
              ap (find_node stack) (sym set) ∙ found' in
            elim (remove_thread-cases stack heap (record g { stack = v }) ts
              (record t { stack = v }) found1) [
                | inl (_, same) ↦ inl (rw e same, rw e busy)
                | inr (apart, _) ↦ (let clash : true ≡ false = sym e ∙ apart in cc)
              ])
      | inr e ↦
          (let set : set_node stack v (g ∷ ts) ≡ g ∷ set_node stack v ts = rw e refl in
            let found1 : find_node stack (g ∷ set_node stack v ts) ≡ some (record t { stack = v }) =
              ap (find_node stack) (sym set) ∙ found' in
            elim (remove_thread-cases stack heap g (set_node stack v ts) (record t { stack = v })
              found1) [
                | inl (at, _) ↦ (let clash : true ≡ false = sym at ∙ e in cc)
                | inr (_, gone) ↦ inr (
                  ap (λ us. remove_thread stack (record { heap = heap; threads = us })) set
                      ∙ gone
                      ∙ ap {B = State} (λ us. removed stack (record { heap = heap; threads = us }))
                          (sym set),
                  rw (e, e, unlink-set_node stack v ts) (unlink-busy stack ts busy),
                )
              ])
    ]

-- A list that nothing leads to is empty.
Linked-null :
    (heap : ℕ → Option Header) (id e : ℕ) (xs : List (ℕ × ℕ))
    → e ≡ 0
    → Linked heap id e xs
    → xs ≡ []
Linked-null heap id e [] null l = refl
Linked-null heap id e ((p, object) ∷ xs) null (h, here, top, real, is, live, own, apart, l) =
    absurd (real (sym top ∙ null))

abbrev pub Catches : ℕ → ℕ → ℕ → ℕ → ℕ → List (ℕ × ℕ) → State → Stacks → Type 0
Catches self code e calloc object xs s stacks =
    (s' : State) × (begin_catch self code e calloc s ≡ ok (object, s'))
    × Holds s' (with_stack_of self xs stacks)
    × IsBusy s'.threads

pub catch-Catches :
    (self code e calloc object : ℕ) (xs : List (ℕ × ℕ)) (s : State) (stacks : Stacks)
    → Holds s stacks
    → IsBusy s.threads
    → stacks self ≡ (e, object) ∷ xs
    → (code ≡ 0) ⊎ (code ≡ 1)
    → Catches self code e calloc object xs s stacks
catch-Catches self code e calloc object xs s stacks holds busy on_top reason =
    elim (Option-cases (get_thread_stack_current self s.threads)) [
      | inl missing ↦
          (let clash : (e, object) ∷ xs ≡ [] = sym on_top ∙ holds.absent self missing in cc)
      | inr (stack, current) ↦
          (let (t, found, own) = find_node-current self stack s.threads holds.distinct current in
            let good =
              find_node-All (IsGood s.heap s.threads stacks) stack s.threads found holds.good in
            let linked : Linked s.heap self t.stack ((e, object) ∷ xs) =
              subst (λ ys. Linked s.heap self t.stack ys) on_top
                (subst (λ id. Linked s.heap id t.stack (stacks id)) own good.1) in
            let (h, here, top, real, is, live, own_header, apart, rest) = linked in
            let live' : h.object ≢ 0 = λ z. live (sym is ∙ z) in
            let caught =
              catch-top self code e calloc stack s t h current found top here own_header reason in
            let holds1 =
              popped-Holds self stack e s stacks t h xs holds current found own here live'
                own_header apart rest in
            let s1 = popped stack e h.next s in
            elim (Bool-cases (h.next == 0)) [
              | inr more ↦ (
                s1,
                caught ∙ rw (more, is) refl,
                holds1,
                set_node-IsBusy stack h.next s.threads (ground (arith, more)) busy,
              )
              | inl last ↦
                  (let null : h.next ≡ 0 = (==_iff h.next 0).0 last in
                    let gone : xs ≡ [] = Linked-null s.heap self h.next xs null rest in
                    let empty : with_stack_of self xs stacks self ≡ [] = rw (==-refl self) gone in
                    elim (remove_thread-IsBusy stack h.next s1.heap s.threads t busy found) [
                      | inl (stays, busy') ↦ (s1, caught ∙ rw (last, is, stays) refl, holds1, busy')
                      | inr (leaves, busy') ↦ (
                        removed stack s1,
                        caught ∙ rw (last, is, leaves) refl,
                        removed-Holds self stack s1 (with_stack_of self xs stacks)
                            (record t { stack = h.next }) holds1
                            (current-set_node stack self h.next s.threads ∙ current)
                            (find_node-set_node stack h.next s.threads found) own empty,
                        busy',
                      )
                    ])
            ])
    ]
