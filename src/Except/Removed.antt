-- ===== src/Except/Removed.antt =====
-- c/except.c: `_yrt_exc_remove_thread` on the stacks of several threads.
use mathlib.Core.Option.{some-injective}
use yruntime.Base.{
  ℕ, ◌≡◌, ◌≢◌, refl, ap, sym, ◌∙◌, List, [], ◌∷◌, Option, none, some, true, false, ◌==◌, Bool-cases,
  Option-cases, inl, inr, ◌⊎◌, ==_iff, arith,
}
use yruntime.Except.State.{
  Header, zero_header, Thread, State, ehstorage, get_thread_stack_current, find_node, unlink,
  set_header,
}
use yruntime.Except.Threads.{==-ne, find_node-current, find_node-All, find_node-address}
use yruntime.Except.Operations.{remove_thread}
use yruntime.Except.Stacks.{Stacks, IsGood, Holds, Linked-frame}
use yruntime.Except.Chain.{All-unlink, unlink-Distinct, current-unlink}
use yruntime.Except.Thrown.{IsOwned-written, other-thread}

-- The state without a stack, whose header is freed with it.
abbrev pub removed : ℕ → State → State
removed stack s = record {
  heap = set_header (ehstorage stack) none s.heap;
  threads = unlink stack s.threads;
}

pub remove_thread-cases :
    (stack : ℕ) (heap : ℕ → Option Header) (global : Thread) (others : List Thread) (t : Thread)
    → find_node stack (global ∷ others) ≡ some t
    → ((global.address == stack) ≡ true)
        × (remove_thread stack (record { heap = heap; threads = global ∷ others })
            ≡ record { heap = heap; threads = global ∷ others })
      ⊎ ((global.address == stack) ≡ false)
        × (remove_thread stack (record { heap = heap; threads = global ∷ others })
            ≡ removed stack (record { heap = heap; threads = global ∷ others }))
unfolding remove_thread
remove_thread-cases stack heap global others t found = elim (Bool-cases (global.address == stack)) [
  | inl e ↦ inl (e, rw (remove_thread, e) refl)
  | inr e ↦
      let behind : find_node stack (global ∷ others) ≡ find_node stack others = rw e refl in
      inr (e, rw (remove_thread, e, sym behind ∙ found) refl)
]

-- A stack without exceptions is taken out of the chain.
module _ (self stack : ℕ) (s : State) (stacks : Stacks) (t : Thread) (holds : Holds s stacks)
    (current : get_thread_stack_current self s.threads ≡ some stack)
    (found : find_node stack s.threads ≡ some t) (own : t.id ≡ self)
    (empty : stacks self ≡ []) where
  removed-frame :
      IsGood s.heap s.threads stacks t
      → (id : ℕ) → self ≢ id
      → (p : ℕ) (k : Header) → s.heap p ≡ some k
      → k.object ≢ 0
      → k.thread_id ≡ id
      → (removed stack s).heap p ≡ some k
  removed-frame (registered, linked, owned) id other p k there live own' =
      let at : t.address ≡ stack = find_node-address stack s.threads found in
      let elsewhere : (ehstorage stack == p) ≡ false = ==-ne (λ same.
        let place : ehstorage t.address ≡ p = ap ehstorage at ∙ same in
        elim owned [
          | inl z ↦
              (let one : k ≡ zero_header =
                  some-injective k zero_header (sym there ∙ ap s.heap (sym place) ∙ z) in
                live (ap (λ x. x.object) one))
          | inr (h, here, alive, own_header) ↦
              (let one : k ≡ h = some-injective k h (sym there ∙ ap s.heap (sym place) ∙ here) in
                other (sym own ∙ sym own_header ∙ ap (λ x. x.thread_id) (sym one) ∙ own'))
        ]) in
      rw elsewhere there

  removed-other :
      IsGood s.heap s.threads stacks t
      → (u : Thread) → u.address ≢ stack
      → IsGood s.heap s.threads stacks u
      → IsGood (removed stack s).heap (removed stack s).threads stacks u
  removed-other good u other (registered, linked, owned) =
      let distinct_id = other-thread self stack s.threads u current registered other in
      let apart : ehstorage stack ≢ ehstorage u.address = λ same. other (omega (arith, same)) in
      (
        current-unlink stack u.id u.address s.threads registered other,
        Linked-frame s.heap (removed stack s).heap u.id u.stack (stacks u.id)
            (removed-frame good u.id distinct_id) linked,
        IsOwned-written s.heap (ehstorage stack) none u apart owned,
      )

  pub removed-Holds : Holds (removed stack s) stacks
  removed-Holds =
      let good = find_node-All (IsGood s.heap s.threads stacks) stack s.threads found holds.good in
      record {
        distinct = unlink-Distinct stack s.threads holds.distinct;
        good =
            All-unlink stack (IsGood s.heap s.threads stacks)
              (IsGood (removed stack s).heap (removed stack s).threads stacks) s.threads
              holds.distinct holds.good (removed-other good);
        absent = λ id missing. elim (Option-cases (get_thread_stack_current id s.threads)) [
          | inl none_before ↦ holds.absent id none_before
          | inr (a, before) ↦ (elim (Bool-cases (a == stack)) [
            | inl at ↦
                (let (u, found', own') =
                    find_node-current id stack s.threads holds.distinct
                      (before ∙ ap some ((==_iff a stack).0 at)) in
                  let one : u ≡ t = some-injective u t (sym found' ∙ found) in
                  let same : id ≡ self = sym own' ∙ ap (λ x. x.id) one ∙ own in
                  ap stacks same ∙ empty)
            | inr other ↦
                (let still = current-unlink stack id a s.threads before (ground (arith, other)) in
                  let clash : some a ≡ none = sym still ∙ missing in cc)
          ])
        ];
      }
