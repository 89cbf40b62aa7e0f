-- ===== src/Except/Stacks.antt =====
-- c/except.c: the stacks of the threads as lists of headers with their objects.
use yruntime.Base.{
  ℕ, ◌≡◌, ◌≢◌, ap, sym, ◌∙◌, List, [], ◌∷◌, Option, none, some, ◌==◌, if◌then◌else◌, ◌⊎◌, All,
}
use yruntime.Except.State.{
  Header, zero_header, Thread, State, ehstorage, get_thread_stack_current, find_node, set_header,
}
use yruntime.Except.Threads.{==-ne, Distinct}

-- The exceptions of a thread, the last one first: the addresses of their headers, and the objects.
abbrev pub Stacks : Type 0
Stacks = ℕ → List (ℕ × ℕ)

abbrev pub with_stack_of : ℕ → List (ℕ × ℕ) → Stacks → Stacks
with_stack_of id xs stacks k = if id == k then xs else stacks k

-- The headers that `e` leads to are those of the list, live, different, and of the thread.
abbrev pub Linked : (ℕ → Option Header) → ℕ → ℕ → List (ℕ × ℕ) → Type 0
Linked heap id e [] = e ≡ 0
Linked heap id e ((p, object) ∷ xs) =
    (h : Header) × (heap p ≡ some h)
    × (e ≡ p)
    × (p ≢ 0)
    × (h.object ≡ object)
    × (object ≢ 0)
    × (h.thread_id ≡ id)
    × All (λ x. x.0 ≢ p) xs
    × Linked heap id h.next xs

-- A stack's own header is zeroed, or holds an exception of its thread.
abbrev pub IsOwned : (ℕ → Option Header) → Thread → Type 0
IsOwned heap t =
    (heap (ehstorage t.address) ≡ some zero_header)
    ⊎ ((h : Header) × (heap (ehstorage t.address) ≡ some h) × (h.object ≢ 0) × (h.thread_id ≡ t.id))

-- The stack is the one that its thread finds, it holds the thread's exceptions, and its header is
-- its own.
abbrev pub IsGood : (ℕ → Option Header) → List Thread → Stacks → Thread → Type 0
IsGood heap threads stacks t =
    (get_thread_stack_current t.id threads ≡ some t.address)
    × Linked heap t.id t.stack (stacks t.id)
    × IsOwned heap t

-- A thread without a stack has no exceptions.
abbrev pub IsAbsent : List Thread → Stacks → Type 0
IsAbsent threads stacks = (id : ℕ) → get_thread_stack_current id threads ≡ none → stacks id ≡ []

pub record Holds (s : State) (stacks : Stacks) : Type 0 where
  pub distinct : Distinct s.threads
  pub good : All (IsGood s.heap s.threads stacks) s.threads
  pub absent : IsAbsent s.threads stacks

-- Only the main thread's stack may be empty.
abbrev pub IsBusy : List Thread → Type 0
IsBusy [] = ⊥
IsBusy (global ∷ others) = All (λ t. t.stack ≢ 0) others

-- What the allocator returns is not in use: the address of a stack, and that of a header.
pub record AreFree (s : State) (calloc calloc' : ℕ) : Type 0 where
  pub some_stack : calloc ≢ 0
  pub new : find_node calloc s.threads ≡ none
  pub room : s.heap (ehstorage calloc) ≡ none
  pub some_place : calloc' ≢ 0
  pub free : s.heap calloc' ≡ none
  pub apart : calloc' ≢ ehstorage calloc

-- Headers that are live and of the thread stay where they are.
pub Linked-frame :
    (heap heap' : ℕ → Option Header) (id e : ℕ) (xs : List (ℕ × ℕ))
    → ((p : ℕ) (h : Header) → heap p ≡ some h → h.object ≢ 0 → h.thread_id ≡ id → heap' p ≡ some h)
    → Linked heap id e xs
    → Linked heap' id e xs
Linked-frame heap heap' id e [] keep l = l
Linked-frame heap heap' id e ((p, object) ∷ xs) keep (h, here, top, real, is, live, own, apart, l) =
    (
      h,
      keep p h here (λ z. live (sym is ∙ z)) own,
      top,
      real,
      is,
      live,
      own,
      apart,
      Linked-frame heap heap' id h.next xs keep l,
    )

-- A write to a header that is none of the list.
pub Linked-apart :
    (heap : ℕ → Option Header) (id e p : ℕ) (new : Option Header) (xs : List (ℕ × ℕ))
    → All (λ x. x.0 ≢ p) xs
    → Linked heap id e xs
    → Linked (set_header p new heap) id e xs
Linked-apart heap id e p new [] apart l = l
Linked-apart heap id e p new ((q, object) ∷ xs) (other, others)
      (h, here, top, real, is, live, own, apart, l) =
    (
      h,
      rw (==-ne (λ same. other (sym same))) here,
      top,
      real,
      is,
      live,
      own,
      apart,
      Linked-apart heap id h.next p new xs others l,
    )

-- An address where nothing is live is none of the list.
pub Linked-unused :
    (heap : ℕ → Option Header) (id e p : ℕ) (xs : List (ℕ × ℕ))
    → ((h : Header) → heap p ≡ some h → h.object ≡ 0)
    → Linked heap id e xs
    → All (λ x. x.0 ≢ p) xs
Linked-unused heap id e p [] dead l = tt
Linked-unused heap id e p ((q, object) ∷ xs) dead (h, here, top, real, is, live, own, apart, l) = (
  λ same. live (sym is ∙ dead h (ap heap (sym same) ∙ here)),
  Linked-unused heap id h.next p xs dead l,
)
