-- ===== src/Unwind/Personality.antt =====
-- c/personality.c: `_yrt_exc_personality` and `__gyc_personality_v0`, with `_yrt_exc_restore`.
pub mod Phases
use yruntime.Base.{ℕ, Option, none, some, ◌==◌, if◌then◌else◌}
use yruntime.Unwind.Memory.{Memory, Outcome, ok, terminated, ◌>>=◌}
use yruntime.Unwind.Encoded.{Frame}
use yruntime.Unwind.Scan.{
  Reason, no_reason, fatal_phase1_error, install_context, continue_unwind, Saved, Slots, Scanned,
  scan_lsda,
}

-- What `_Unwind_SetGR` and `_Unwind_SetIP` are given: the two registers of the handler, and the
-- address to go on at.
pub record Install : Type 0 where
  pub exception : ℕ
  pub selector : ℕ
  pub ip : ℕ

pub record Answer : Type 0 where
  pub reason : Reason
  pub saved : Saved
  pub install : Option Install

-- `header` is the address of the unwind header.
unfoldable pub finish : ℕ → ℕ → ℕ → Saved → Answer
finish header landing_pad handler saved =
    if landing_pad == 0
    then record { reason = continue_unwind; saved = saved; install = none }
    else record {
      reason = install_context;
      saved = saved;
      install = some (record { exception = header; selector = handler; ip = landing_pad });
    }

-- `if (result) return result;`, where `no_reason` is the code 0.
unfoldable pub after_scan : Reason → ℕ → Scanned → Answer
after_scan no_reason header s = finish header s.landing_pad s.handler s.saved
after_scan reason header s = record { reason = reason; saved = s.saved; install = none }

-- `actions == (_UA_CLEANUP_PHASE | _UA_HANDLER_FRAME)` is the frame that phase 1 chose.
unfoldable pub personality : ℕ → ℕ → ℕ → Memory → Slots → Frame → Saved → Outcome Answer
personality fuel actions header mem slots frame saved =
    if actions == 6
    then (if saved.landing_pad == 0
        then terminated
        else ok (finish header saved.landing_pad saved.handler saved))
    else (do
      s ← scan_lsda fuel actions mem slots frame frame.lsda frame.cfa saved
      ok (after_scan s.reason header s))

unfoldable pub gyc_personality_v0 : ℕ → ℕ → ℕ → ℕ → Memory → Slots → Frame → Saved → Outcome Answer
gyc_personality_v0 fuel iversion actions header mem slots frame saved =
    if iversion == 1
    then personality fuel actions header mem slots frame saved
    else ok (record { reason = fatal_phase1_error; saved = saved; install = none })
