-- ===== src/Except/Delivery.antt =====
-- c/personality.c and c/except.c: an exception from the search for its handler to its catch.
use yruntime.Base.{ℕ, ◌≡◌, ◌≢◌, refl, List, ◌∷◌, some, ◌⊎◌}
use yruntime.Unwind.Memory.{Memory, ok}
use yruntime.Unwind.Encoded.{Frame}
use yruntime.Unwind.Action.{search_phase}
use yruntime.Unwind.Scan.{handler_found, install_context, Saved, Slots, Scanned, scan_lsda}
use yruntime.Unwind.Personality.{Answer}
use yruntime.Unwind.Personality.Phases.{personality_phases}
use yruntime.Except.State.{State}
use yruntime.Except.Operations.{begin_catch}
use yruntime.Except.Unwinding.{call_personality, call_personality-found}
use yruntime.Except.Stacks.{Stacks, with_stack_of}
use yruntime.Except.Saved.{call_personality-Holds}
use yruntime.Except.History.{Reach, unwound_in, Reach-Holds, begin_catch-Reach}

-- In every run of throws, calls of the personality routine and catches in any threads: where the
-- search phase, called for the exception on top of its thread's, reports a handler and saves a
-- landing pad that is not 0, the call for the handler's frame finds in the header what the search
-- phase saved, and installs the header's address with the handler and the landing pad that were
-- scanned; the catch of that header then gives the exception's object and takes it off its stack.
pub begin_catch-call_personality :
    (fuel fuel' self e object code calloc : ℕ) (mem mem' : Memory) (slots slots' : Slots)
    (frame frame' : Frame) (xs : List (ℕ × ℕ)) (s s' : State) (stacks : Stacks) (a : Answer)
    → Reach s stacks
    → stacks self ≡ (e, object) ∷ xs
    → call_personality fuel search_phase e mem slots frame s ≡ ok (a, s')
    → a.reason ≡ handler_found
    → a.saved.landing_pad ≢ 0
    → (code ≡ 0) ⊎ (code ≡ 1)
    → (saved : Saved) × (found : Scanned) × (b : Answer) × (s2 : State) × (s3 : State) × (scan_lsda
          fuel search_phase mem slots frame frame.lsda frame.cfa saved
        ≡ ok found)
      × (call_personality fuel' 6 e mem' slots' frame' s' ≡ ok (b, s2))
      × (b.reason ≡ install_context)
      × (b.install
          ≡ some (record { exception = e; selector = found.handler; ip = found.landing_pad }))
      × (begin_catch self code e calloc s2 ≡ ok (object, s3))
      × Reach s3 (with_stack_of self xs stacks)
begin_catch-call_personality fuel fuel' self e object code calloc mem mem' slots slots' frame frame'
      xs s s' stacks a run top searched found real reason =
    let (holds, _) = Reach-Holds s stacks run in
    let (_, _, (h, ran, here)) =
      call_personality-Holds fuel search_phase self e object mem slots frame xs s s' stacks a holds
        top searched in
    let run' = unwound_in fuel search_phase self e object mem slots frame a xs run top searched in
    let (scanned, scan, install) =
      personality_phases fuel e mem slots frame h.saved a fuel' mem' slots' frame' ran found real in
    let second =
      call_personality-found fuel' 6 e mem' slots' frame' s' (record h { saved = a.saved }) _ here
        install in
    let run2 = unwound_in fuel' 6 self e object mem' slots' frame' _ xs run' top second in
    let (s3, caught, run3) =
      begin_catch-Reach self code e object calloc xs _ stacks run2 top reason in
    (h.saved, scanned, _, _, s3, scan, second, refl, refl, caught, run3)
