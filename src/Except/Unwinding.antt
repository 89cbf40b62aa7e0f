-- ===== src/Except/Unwinding.antt =====
-- c/personality.c on the exception headers of c/except.c: a call of the personality routine reads
-- the fields that phase 1 saved from the header, and phase 1 writes them there.
use yruntime.Base.{ℕ, ◌≡◌, refl, some}
use yruntime.Unwind.Memory.{Memory, Outcome, ok, ◌>>=◌}
use yruntime.Unwind.Encoded.{Frame}
use yruntime.Unwind.Scan.{Slots}
use yruntime.Unwind.Personality.{Answer, personality}
use yruntime.Except.State.{Header, State}
use yruntime.Except.Steps.{load_header-found}
use yruntime.Except.Operations.{load_header, store_header}

-- The unwind header is the first field of the header, at the same address `e`.
unfoldable pub call_personality :
    ℕ → ℕ → ℕ → Memory → Slots → Frame → State → Outcome (Answer × State)
call_personality fuel actions e mem slots frame s = do
  h ← load_header e s
  a ← personality fuel actions e mem slots frame h.saved
  ok (a, store_header e (some (record h { saved = a.saved })) s)

pub call_personality-found :
    (fuel actions e : ℕ) (mem : Memory) (slots : Slots) (frame : Frame) (s : State) (h : Header)
    (a : Answer)
    → s.heap e ≡ some h
    → personality fuel actions e mem slots frame h.saved ≡ ok a
    → call_personality fuel actions e mem slots frame s
      ≡ ok (a, store_header e (some (record h { saved = a.saved })) s)
unfolding call_personality
call_personality-found fuel actions e mem slots frame s h a here ran =
    rw (load_header-found e s here, ran) refl
