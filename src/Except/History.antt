-- ===== src/Except/History.antt =====
-- c/except.c: any sequence of throws, unwinding and catches in several threads. A step is a whole
-- operation; what the threads share is read and written under `_yrt_exc_mutex`, and a stack is its
-- thread's.
use mathlib.Core.Path.{subst}
use yruntime.Base.{ℕ, ◌≡◌, ◌≢◌, refl, sym, ◌∙◌, List, [], ◌∷◌, inl, ◌⊎◌, All}
use yruntime.Unwind.Memory.{Memory, ok, ok-injective}
use yruntime.Unwind.Encoded.{Frame}
use yruntime.Unwind.Scan.{Slots}
use yruntime.Unwind.Personality.{Answer}
use yruntime.Except.State.{Thread, State, ehstorage, exc_init}
use yruntime.Except.Threads.{==-refl}
use yruntime.Except.Operations.{throw, begin_catch}
use yruntime.Except.Stacks.{Stacks, with_stack_of, Linked, IsGood, Holds, IsBusy, AreFree}
use yruntime.Except.Unwinding.{call_personality}
use yruntime.Except.Saved.{call_personality-Holds}
use yruntime.Except.Whole.{throw-Throws, catch-Catches}

-- The states of a run, with the exceptions that are on the stacks of the threads: a throw puts one
-- on top of its thread's, a catch takes the one on top of its thread's off, and the unwinder calls
-- the personality routine for the one on top.
pub data Reach : State → Stacks → Type 0 where
  start : (address self : ℕ) → Reach (exc_init address self) (λ id. [])
  thrown_in :
      {s s' : State} {stacks : Stacks} (self file function line object calloc calloc' e : ℕ)
      → Reach s stacks
      → AreFree s calloc calloc'
      → object ≢ 0
      → throw self file function line object calloc calloc' s ≡ ok (e, s')
      → Reach s' (with_stack_of self ((e, object) ∷ stacks self) stacks)
  caught_in :
      {s s' : State} {stacks : Stacks} (self code e object object' calloc : ℕ) (xs : List (ℕ × ℕ))
      → Reach s stacks
      → stacks self ≡ (e, object) ∷ xs
      → (code ≡ 0) ⊎ (code ≡ 1)
      → begin_catch self code e calloc s ≡ ok (object', s')
      → Reach s' (with_stack_of self xs stacks)
  unwound_in :
      {s s' : State} {stacks : Stacks} (fuel actions self e object : ℕ) (mem : Memory)
      (slots : Slots) (frame : Frame) (a : Answer) (xs : List (ℕ × ℕ))
      → Reach s stacks
      → stacks self ≡ (e, object) ∷ xs
      → call_personality fuel actions e mem slots frame s ≡ ok (a, s')
      → Reach s' stacks

start-Holds : (address self : ℕ) → Holds (exc_init address self) (λ id. [])
start-Holds address self = record {
  distinct = (tt, tt);
  good = ((rw (==-refl self) refl, refl, inl (rw (==-refl (ehstorage address)) refl)), tt);
  absent = λ id missing. refl;
}

pub Reach-Holds : (s : State) (stacks : Stacks) → Reach s stacks → Holds s stacks × IsBusy s.threads
Reach-Holds s stacks (start address self) = (start-Holds address self, tt)
Reach-Holds s stacks
      (thrown_in {s = s0} {stacks = stacks0} self file function line object calloc calloc' e run
        fresh live done) =
    let (holds, busy) = Reach-Holds s0 stacks0 run in
    let (e1, s1, done1, holds1, busy1) =
      throw-Throws self file function line object calloc calloc' s0 stacks0 holds busy fresh live in
    let same : (e1, s1) ≡ (e, s) = ok-injective (sym done1 ∙ done) in
    subst {A = ℕ × State}
      (λ r.
        Holds r.1 (with_stack_of self ((r.0, object) ∷ stacks0 self) stacks0) × IsBusy r.1.threads)
      same (holds1, busy1)
Reach-Holds s stacks
      (caught_in {s = s0} {stacks = stacks0} self code e object object' calloc xs run top reason
        done) =
    let (holds, busy) = Reach-Holds s0 stacks0 run in
    let (s1, done1, holds1, busy1) =
      catch-Catches self code e calloc object xs s0 stacks0 holds busy top reason in
    let same : (object, s1) ≡ (object', s) = ok-injective (sym done1 ∙ done) in
    subst {A = ℕ × State} (λ r. Holds r.1 (with_stack_of self xs stacks0) × IsBusy r.1.threads) same
      (holds1, busy1)
Reach-Holds s stacks
      (unwound_in {s = s0} fuel actions self e object mem slots frame a xs run top done) =
    let (holds, busy) = Reach-Holds s0 stacks run in
    let (holds', same, _) =
      call_personality-Holds fuel actions self e object mem slots frame xs s0 s stacks a holds top
        done in
    (holds', subst IsBusy (sym same) busy)

-- In every run of throws, calls of the personality routine and catches in any threads: a throw of
-- an object that is not NULL, where the allocator returns addresses that are not in use, succeeds.
-- Behind it each thread finds a stack in the chain if it has exceptions, and that stack leads from
-- header to header through exactly its exceptions, the new one first in the thread that threw.
pub throw-Reach :
    (self file function line object calloc calloc' : ℕ) (s : State) (stacks : Stacks)
    → Reach s stacks
    → AreFree s calloc calloc'
    → object ≢ 0
    → (e : ℕ) × (s' : State) × (throw self file function line object calloc calloc' s ≡ ok (e, s'))
      × Holds s' (with_stack_of self ((e, object) ∷ stacks self) stacks)
      × Reach s' (with_stack_of self ((e, object) ∷ stacks self) stacks)
throw-Reach self file function line object calloc calloc' s stacks run fresh live =
    let (holds, busy) = Reach-Holds s stacks run in
    let (e, s', done, holds', _) =
      throw-Throws self file function line object calloc calloc' s stacks holds busy fresh live in
    (
      e,
      s',
      done,
      holds',
      thrown_in self file function line object calloc calloc' e run fresh live done,
    )

-- In every run of throws, calls of the personality routine and catches in any threads, however they
-- are interleaved: where an exception is on top of its thread's, the catch of its header in that
-- thread, with a cleanup that is called with the code 0 or 1, gives its object, and takes it off
-- that stack and none off another.
pub begin_catch-Reach :
    (self code e object calloc : ℕ) (xs : List (ℕ × ℕ)) (s : State) (stacks : Stacks)
    → Reach s stacks
    → stacks self ≡ (e, object) ∷ xs
    → (code ≡ 0) ⊎ (code ≡ 1)
    → (s' : State) × (begin_catch self code e calloc s ≡ ok (object, s'))
      × Reach s' (with_stack_of self xs stacks)
begin_catch-Reach self code e object calloc xs s stacks run top reason =
    let (holds, busy) = Reach-Holds s stacks run in
    let (s', done, _, _) =
      catch-Catches self code e calloc object xs s stacks holds busy top reason in
    (s', done, caught_in self code e object object calloc xs run top reason done)

none_left-single :
    (s : State) (stacks : Stacks) (threads : List Thread)
    → ((id : ℕ) → stacks id ≡ [])
    → All (IsGood s.heap s.threads stacks) threads
    → IsBusy threads
    → (global : Thread) × (threads ≡ global ∷ []) × (global.stack ≡ 0)
none_left-single s stacks [] none_left good busy = absurd busy
none_left-single s stacks (g ∷ []) none_left (good, _) busy =
    (g, refl, subst (Linked s.heap g.id g.stack) (none_left g.id) good.1)
none_left-single s stacks (g ∷ t ∷ ts) none_left (_, (good, _)) (busy, _) =
    absurd (busy (subst (Linked s.heap t.id t.stack) (none_left t.id) good.1))

-- In every run where all exceptions have been caught, the chain has one stack left, and that is
-- empty.
pub Reach-all_caught :
    (s : State) (stacks : Stacks)
    → Reach s stacks
    → ((id : ℕ) → stacks id ≡ [])
    → (global : Thread) × (s.threads ≡ global ∷ []) × (global.stack ≡ 0)
Reach-all_caught s stacks run none_left =
    let (holds, busy) = Reach-Holds s stacks run in
    none_left-single s stacks s.threads none_left holds.good busy
