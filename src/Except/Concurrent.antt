-- ===== src/Except/Concurrent.antt =====
-- c/except.c: what holds of the chain however the threads take their turns.
use mathlib.Core.Option.{some-injective}
use yruntime.Base.{
  ℕ, ◌≡◌, ◌≢◌, refl, sym, ap, ◌∙◌, List, [], ◌∷◌, none, some, ◌==◌, Bool-cases, inl, inr, update,
  update-cases, ◌↔◌,
}
use yruntime.Except.State.{Thread, get_thread_stack_current, find_node, unlink}
use yruntime.Except.Threads.{
  ==-ne, appended, current-set_node, current-appended, Distinct, find_node-current,
}
use yruntime.Except.Chain.{
  set_node-Distinct, unlink-Distinct, current-unlink, current-appended_before, appended-Distinct,
}
use yruntime.Except.Interleaved.{
  Place, outside, missing, using, Access, find, miss, insert, write, leave, remove, Process,
  start_process, turn, start, later, Reachable,
}

-- A search that finds nothing finds nothing behind a removal, and nothing behind an insertion for
-- another thread.
current-unlink-none :
    (stack id : ℕ) (ts : List Thread)
    → get_thread_stack_current id ts ≡ none
    → get_thread_stack_current id (unlink stack ts) ≡ none
current-unlink-none stack id [] h = h
current-unlink-none stack id (u ∷ ts) h = elim (Bool-cases (u.id == id)) [
  | inl e ↦ let head : get_thread_stack_current id (u ∷ ts) ≡ some u.address = rw e refl in cc
  | inr e ↦
      let behind : get_thread_stack_current id (u ∷ ts) ≡ get_thread_stack_current id ts =
        rw e refl in
      elim (Bool-cases (u.address == stack)) [
        | inl at ↦ rw at (sym behind ∙ h)
        | inr apart ↦ rw (apart, e) (current-unlink-none stack id ts (sym behind ∙ h))
      ]
]

current-appended_other :
    (stack self v id : ℕ) (ts : List Thread)
    → self ≢ id
    → get_thread_stack_current id ts ≡ none
    → get_thread_stack_current id (appended stack self v ts) ≡ none
current-appended_other stack self v id [] other h = rw (==-ne other) refl
current-appended_other stack self v id (u ∷ ts) other h = elim (Bool-cases (u.id == id)) [
  | inl e ↦ let head : get_thread_stack_current id (u ∷ ts) ≡ some u.address = rw e refl in cc
  | inr e ↦
      let behind : get_thread_stack_current id (u ∷ ts) ≡ get_thread_stack_current id ts =
        rw e refl in
      rw e (current-appended_other stack self v id ts other (sym behind ∙ h))
]

-- One stack is not the stack of two threads.
current_same :
    (i j a : ℕ) (ts : List Thread)
    → Distinct ts
    → get_thread_stack_current i ts ≡ some a
    → get_thread_stack_current j ts ≡ some a
    → i ≡ j
current_same i j a ts d hi hj =
    let (t, found, ti) = find_node-current i a ts d hi in
    let (u, found', uj) = find_node-current j a ts d hj in
    let same = some-injective t u (sym found ∙ found') in sym ti ∙ ap (λ t. t.id) same ∙ uj

using_same : {a b : ℕ} → using a ≡ using b → a ≡ b
using_same h = cc

pub record Inv (chain : List Thread) (places : ℕ → Place) : Type 0 where
  pub distinct : Distinct chain
  pub found : (i a : ℕ) → places i ≡ using a → get_thread_stack_current i chain ≡ some a
  pub lacking : (i : ℕ) → places i ≡ missing → get_thread_stack_current i chain ≡ none

module _ {chain : List Thread} {places : ℕ → Place} (inv : Inv chain places) {global i : ℕ} where
  open inv use {distinct, found, lacking}

  Access-Distinct :
      {chain' : List Thread} {place' : Place}
      → Access global i chain (places i) chain' place'
      → Distinct chain'
  Access-Distinct (find at h) = distinct
  Access-Distinct (miss at h) = distinct
  Access-Distinct (insert {stack} at new) = appended-Distinct stack i 0 chain new distinct
  Access-Distinct (write {stack} e at) = set_node-Distinct stack e chain distinct
  Access-Distinct (leave at) = distinct
  Access-Distinct (remove {stack} at apart h empty) = unlink-Distinct stack chain distinct

  -- The thread itself.
  Access-found_own :
      {chain' : List Thread} {place' : Place} (a : ℕ)
      → Access global i chain (places i) chain' place'
      → place' ≡ using a
      → get_thread_stack_current i chain' ≡ some a
  Access-found_own a (find at h) here = h ∙ ap some (using_same here)
  Access-found_own a (miss at h) here = cc
  Access-found_own a (insert {stack} at new) here =
      current-appended stack i 0 chain (lacking i at) ∙ ap some (using_same here)
  Access-found_own a (write {stack} e at) here =
      current-set_node stack i e chain ∙ found i stack at ∙ ap some (using_same here)
  Access-found_own a (leave at) here = cc
  Access-found_own a (remove at apart h empty) here = cc

  Access-lacking_own :
      {chain' : List Thread} {place' : Place}
      → Access global i chain (places i) chain' place'
      → place' ≡ missing
      → get_thread_stack_current i chain' ≡ none
  Access-lacking_own (find at h) here = cc
  Access-lacking_own (miss at h) here = h
  Access-lacking_own (insert at new) here = cc
  Access-lacking_own (write e at) here = cc
  Access-lacking_own (leave at) here = cc
  Access-lacking_own (remove at apart h empty) here = cc

  -- Another thread.
  Access-found_other :
      {chain' : List Thread} {place' : Place} (j a : ℕ)
      → i ≢ j
      → get_thread_stack_current j chain ≡ some a
      → Access global i chain (places i) chain' place'
      → get_thread_stack_current j chain' ≡ some a
  Access-found_other j a other h (find at _) = h
  Access-found_other j a other h (miss at _) = h
  Access-found_other j a other h (insert {stack} at new) =
      current-appended_before stack i 0 j a chain h
  Access-found_other j a other h (write {stack} e at) = current-set_node stack j e chain ∙ h
  Access-found_other j a other h (leave at) = h
  Access-found_other j a other h (remove {stack} at apart _ empty) =
      current-unlink stack j a chain h
        (λ same. other (current_same i j a chain distinct (rw (← same) at (found i stack at)) h))

  Access-lacking_other :
      {chain' : List Thread} {place' : Place} (j : ℕ)
      → i ≢ j
      → get_thread_stack_current j chain ≡ none
      → Access global i chain (places i) chain' place'
      → get_thread_stack_current j chain' ≡ none
  Access-lacking_other j other h (find at _) = h
  Access-lacking_other j other h (miss at _) = h
  Access-lacking_other j other h (insert {stack} at new) =
      current-appended_other stack i 0 j chain other h
  Access-lacking_other j other h (write {stack} e at) = current-set_node stack j e chain ∙ h
  Access-lacking_other j other h (leave at) = h
  Access-lacking_other j other h (remove {stack} at apart _ empty) =
      current-unlink-none stack j chain h

  Access-Inv :
      {chain' : List Thread} {place' : Place}
      → Access global i chain (places i) chain' place'
      → Inv chain' (update places i place')
  Access-Inv {place'} mv = record {
    distinct = Access-Distinct mv;
    found = λ j a here. elim (update-cases places i place' j here) [
      | inl (same, own) ↦ rw (← same) (Access-found_own a mv own)
      | inr (other, there) ↦ Access-found_other j a other (found j a there) mv
    ];
    lacking = λ j here. elim (update-cases places i place' j here) [
      | inl (same, own) ↦ rw (← same) (Access-lacking_own mv own)
      | inr (other, there) ↦ Access-lacking_other j other (lacking j there) mv
    ];
  }

start_process-Inv : (global main : ℕ) → Inv (start_process global main).chain (λ i. outside)
start_process-Inv global main = record {
  distinct = (tt, tt);
  found = λ i a here. cc;
  lacking = λ i here. cc;
}

Reachable-Inv : {global main : ℕ} {p : Process} → Reachable global main p → Inv p.chain p.places
Reachable-Inv {global} {main} start = start_process-Inv global main
Reachable-Inv (later r (turn i mv)) = Access-Inv (Reachable-Inv r) mv

-- However the threads take their turns: where two threads work on stacks, the chain has the stack
-- of the one as its own, a search for the thread finds it there, and the stacks are the same just
-- where the threads are.
pub stacks_apart :
    {global main : ℕ} {p : Process} (i j stack stack' : ℕ)
    → Reachable global main p
    → p.places i ≡ using stack
    → p.places j ≡ using stack'
    → (get_thread_stack_current i p.chain ≡ some stack)
      × ((t : Thread) × (find_node stack p.chain ≡ some t) × (t.id ≡ i))
      × ((i ≡ j) ↔ (stack ≡ stack'))
stacks_apart {p} i j stack stack' r hi hj =
    let inv = Reachable-Inv r in
    let found = inv.found i stack hi in
    let found' = inv.found j stack' hj in
    (
      found,
      find_node-current i stack p.chain inv.distinct found,
      (
        λ same. some-injective stack stack' (sym found ∙ rw (← same) at found'),
        λ same. current_same i j stack p.chain inv.distinct found (rw (← same) at found'),
      ),
    )
