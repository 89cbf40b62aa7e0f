-- ===== src/Unwind/Personality/Phases.antt =====
-- c/personality.c: what the two phases of an unwinding say to one another.
use Prim.Native.Nat.{bit_and}
use yruntime.Base.{
  ℕ, ◌+◌, ◌≡◌, ◌≢◌, ◌⊎◌, refl, none, some, arith, false, ◌==◌, inl, inr, Bool-cases,
}
use yruntime.Unwind.Memory.{
  Memory, Outcome, ok, ok-injective, terminated, fault, no_fuel, ◌>>=◌, Ensures, Ensures-bind,
  Ensures-then, Ensures-ok, returns,
}
use yruntime.Unwind.Encoded.{Frame}
use yruntime.Unwind.Action.{search_phase, Lookup}
use yruntime.Unwind.Scan.{
  no_reason, handler_found, install_context, continue_unwind, Saved, Slots, Scanned, Site,
  read_header, site_loop, find_action, decide_reason, scan_lsda,
}
use yruntime.Unwind.Personality.{Answer, finish, after_scan, personality}

-- What the scan says: it found a handler in the search phase and saved it, or it goes on with the
-- saved fields as they were, or it is a cleanup outside the search phase.
abbrev ScanAnswer : ℕ → Frame → Saved → Scanned → Type 0
ScanAnswer actions frame saved s =
    ((s.reason ≡ handler_found)
      × (bit_and actions search_phase ≢ 0)
      × (s.saved ≡ record {
        handler = s.handler;
        lsda = frame.lsda;
        landing_pad = s.landing_pad;
        cfa = frame.cfa;
      }))
    ⊎ ((s.reason ≡ continue_unwind) × (s.saved ≡ saved))
    ⊎ ((s.reason ≡ no_reason) × (bit_and actions search_phase ≡ 0) × (s.saved ≡ saved))

decide_reason-ScanAnswer :
    (actions : ℕ) (frame : Frame) (saved : Saved) (pad : ℕ) (found : Lookup)
    → ScanAnswer actions frame saved (decide_reason actions frame.lsda frame.cfa saved pad found)
unfolding decide_reason
decide_reason-ScanAnswer actions frame saved pad found = ground arith

scan_lsda-ScanAnswer :
    (fuel actions : ℕ) (mem : Memory) (slots : Slots) (frame : Frame) (saved : Saved)
    → Ensures
        (ScanAnswer actions frame saved)
        (scan_lsda fuel actions mem slots frame frame.lsda frame.cfa saved)
unfolding scan_lsda
scan_lsda-ScanAnswer fuel actions mem slots frame saved = elim (Bool-cases (frame.lsda == 0)) [
  | inl missing ↦ rw missing (returns (inr (inl (refl, refl))))
  | inr present ↦ rw present (
      Ensures-bind (read_header mem slots frame frame.lsda) λ h.
        Ensures-bind (site_loop (h.table_size + 1) h.sites mem h.first start) λ site.
          Ensures-bind (find_action fuel actions mem h.types site)
            λ found. returns (decide_reason-ScanAnswer actions frame saved site.landing_pad found))
]
  where
    start : Site
    start = record { landing_pad = 0; action_record = 0 }

abbrev CallAnswer : ℕ → Saved → Answer → Type 0
CallAnswer actions saved a =
    ((a.reason ≡ handler_found) × (bit_and actions search_phase ≢ 0) × (a.install ≡ none))
    ⊎ ((a.reason ≡ continue_unwind) × (a.saved ≡ saved) × (a.install ≡ none))
    ⊎ ((a.reason ≡ install_context) × (bit_and actions search_phase ≡ 0) × (a.saved ≡ saved))

after_scan-CallAnswer :
    (actions header : ℕ) (frame : Frame) (saved : Saved) (s : Scanned)
    → ScanAnswer actions frame saved s
    → CallAnswer actions saved (after_scan s.reason header s)
after_scan-CallAnswer actions header frame saved s (inl (e, searching, _)) =
    rw e (unfold after_scan in inl (refl, searching, refl))
after_scan-CallAnswer actions header frame saved s (inr (inl (e, same))) =
    rw e (unfold after_scan in inr (inl (refl, same, refl)))
after_scan-CallAnswer actions header frame saved s (inr (inr (e, off, same))) =
    rw e (unfold after_scan finish in ground arith)

-- On a call for any frame but the one that holds the handler, the routine does one of three
-- things: in the search phase it reports a handler and installs nothing; it lets the unwinding go
-- on, and installs and saves nothing; or, outside the search phase, it installs the frame's
-- landing pad and leaves the saved fields alone.
personality_cases :
    (fuel actions header : ℕ) (mem : Memory) (slots : Slots) (frame : Frame) (saved : Saved)
    {a : Answer}
    → actions ≢ 6
    → personality fuel actions header mem slots frame saved ≡ ok a
    → ((a.reason ≡ handler_found) × (bit_and actions search_phase ≢ 0) × (a.install ≡ none))
      ⊎ ((a.reason ≡ continue_unwind) × (a.saved ≡ saved) × (a.install ≡ none))
      ⊎ ((a.reason ≡ install_context) × (bit_and actions search_phase ≡ 0) × (a.saved ≡ saved))
unfolding personality
personality_cases fuel actions header mem slots frame saved ne h =
    let other : (actions == 6) ≡ false = ground arith in
    Ensures-ok {P = CallAnswer actions saved}
      (Ensures-then (scan_lsda-ScanAnswer fuel actions mem slots frame saved)
        λ s found. returns (after_scan-CallAnswer actions header frame saved s found))
      (rw other at h)

scan_of :
    (m : Outcome Scanned) (header : ℕ) (a : Answer)
    → (m >>= λ s. ok (after_scan s.reason header s)) ≡ ok a
    → (s : Scanned) × (m ≡ ok s) × (after_scan s.reason header s ≡ a)
scan_of (ok s) header a h = (s, refl, ok-injective h)
scan_of terminated header a h = cc
scan_of fault header a h = cc
scan_of no_fuel header a h = cc

abbrev SavedFrom : Scanned → Saved → Type 0
SavedFrom s saved = (saved.handler ≡ s.handler) × (saved.landing_pad ≡ s.landing_pad)

-- A reported handler is one that the scan found and saved.
found_by :
    (frame : Frame) (header : ℕ) (saved : Saved) (s : Scanned) (a : Answer)
    → ScanAnswer search_phase frame saved s
    → after_scan s.reason header s ≡ a
    → a.reason ≡ handler_found
    → SavedFrom s a.saved
found_by frame header saved s a (inl (e, _, k)) f r =
    let answer = rw e at f in unfold after_scan in ground arith
found_by frame header saved s a (inr (inl (e, _))) f r =
    let answer = rw e at f in unfold after_scan in ground arith
found_by frame header saved s a (inr (inr (e, off, _))) f r = absurd (omega arith)

handler_phase :
    (fuel header : ℕ) (mem : Memory) (slots : Slots) (frame : Frame) (s : Scanned) (saved : Saved)
    → SavedFrom s saved
    → saved.landing_pad ≢ 0
    → personality fuel 6 header mem slots frame saved
      ≡ ok (record {
        reason = install_context;
        saved = saved;
        install = some (record { exception = header; selector = s.handler; ip = s.landing_pad });
      })
unfolding personality finish
handler_phase fuel header mem slots frame s saved from nz = ground arith

-- Where the search phase reports a handler and the saved landing pad is not 0, the call for the
-- handler's frame installs the handler and the landing pad that the search phase scanned, with
-- the address of the header, whatever memory and frame it is then given.
pub personality_phases :
    (fuel header : ℕ) (mem : Memory) (slots : Slots) (frame : Frame) (saved : Saved) (a : Answer)
    (fuel' : ℕ) (mem' : Memory) (slots' : Slots) (frame' : Frame)
    → personality fuel search_phase header mem slots frame saved ≡ ok a
    → a.reason ≡ handler_found
    → a.saved.landing_pad ≢ 0
    → (s : Scanned) × (scan_lsda fuel search_phase mem slots frame frame.lsda frame.cfa saved
        ≡ ok s)
      × (personality fuel' 6 header mem' slots' frame' a.saved
          ≡ ok (record {
            reason = install_context;
            saved = a.saved;
            install =
                some (record { exception = header; selector = s.handler; ip = s.landing_pad });
          }))
unfolding personality
personality_phases fuel header mem slots frame saved a fuel' mem' slots' frame' h r nz =
    let (s, e, f) = scan_of _ header a h in
    let found = Ensures-ok (scan_lsda-ScanAnswer fuel search_phase mem slots frame saved) e in
    (
      s,
      e,
      handler_phase fuel' header mem' slots' frame' s a.saved
          (found_by frame header saved s a found f r) nz,
    )
