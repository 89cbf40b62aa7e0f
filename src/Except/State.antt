-- ===== src/Except/State.antt =====
-- c/except.h and c/except.c: the exception headers, and the list of the threads' stacks.
use yruntime.Base.{ℕ, ◌+◌, List, [], ◌∷◌, Option, none, some, ◌==◌, if◌then◌else◌}
use yruntime.Unwind.Scan.{Saved}

-- `_yrt_exception_header_`. Pointers are addresses, 0 is NULL. `saved` are the four fields that
-- phase 1 of the unwinding writes.
pub record Header : Type 0 where
  pub object : ℕ
  pub thread_id : ℕ
  pub file : ℕ
  pub function : ℕ
  pub line : ℕ
  pub saved : Saved
  pub next : ℕ

-- What `calloc` gives and `memset` leaves.
abbrev pub zero_header : Header
zero_header = record {
  object = 0;
  thread_id = 0;
  file = 0;
  function = 0;
  line = 0;
  saved = record { handler = 0; lsda = 0; landing_pad = 0; cfa = 0 };
  next = 0;
}

-- `_yrt_exc_thread_stack_` at its address, its header `ehstorage` aside.
pub record Thread : Type 0 where
  pub address : ℕ
  pub stack : ℕ
  pub id : ℕ

-- The header at each live address, and the chain of the stacks, `global_stack` first.
pub record State : Type 0 where
  pub heap : ℕ → Option Header
  pub threads : List Thread

-- The place of `ehstorage`, behind two pointers.
abbrev pub ehstorage : ℕ → ℕ
ehstorage address = address + 16

-- `_yrt_exc_get_thread_stack_current`: the address of the first stack with the id.
abbrev pub get_thread_stack_current : ℕ → List Thread → Option ℕ
get_thread_stack_current id [] = none
get_thread_stack_current id (t ∷ ts) =
    if t.id == id then some t.address else get_thread_stack_current id ts

-- The stack at an address.
abbrev pub find_node : ℕ → List Thread → Option Thread
find_node stack [] = none
find_node stack (t ∷ ts) = if t.address == stack then some t else find_node stack ts

-- `stack-> stack = e`.
abbrev pub set_node : ℕ → ℕ → List Thread → List Thread
set_node stack e [] = []
set_node stack e (t ∷ ts) =
    if t.address == stack then record t { stack = e } ∷ ts else t ∷ set_node stack e ts

-- The chain without the stack at an address.
abbrev pub unlink : ℕ → List Thread → List Thread
unlink stack [] = []
unlink stack (t ∷ ts) = if t.address == stack then ts else t ∷ unlink stack ts

abbrev pub set_header : ℕ → Option Header → (ℕ → Option Header) → ℕ → Option Header
set_header p h heap a = if p == a then h else heap a

-- `_yrt_exc_init` in the thread `self`, with `global_stack` at the address.
abbrev pub exc_init : ℕ → ℕ → State
exc_init address self = record {
  heap = set_header (ehstorage address) (some zero_header) (λ a. none);
  threads = record { address = address; stack = 0; id = self } ∷ [];
}
