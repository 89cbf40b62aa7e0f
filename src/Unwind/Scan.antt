-- ===== src/Unwind/Scan.antt =====
-- c/personality.c: `_yrt_exc_scan_lsda`, with `_yrt_exc_save`.
pub mod Sites
pub mod Progress
use Prim.Native.Nat.{bit_and}
use yruntime.Base.{
  ℕ, zero, suc, ◌+◌, ◌-◌, ◌%◌, ◌^◌, none, some, true, false, not, ◌&&◌, ltb, ◌==◌, if◌then◌else◌,
}
use yruntime.Unwind.Memory.{Memory, Outcome, ok, no_fuel, ◌>>=◌, load_byte}
use yruntime.Unwind.Leb.{read_uleb128}
use yruntime.Unwind.Encoded.{Frame, omit, base_of_encoded_value, read_encoded_value}
use yruntime.Unwind.Action.{TypeTable, Lookup, search_phase, action_table_lookup}

-- The result codes of the unwinder that the routine returns.
pub data Reason : Type 0 where
  no_reason fatal_phase1_error handler_found install_context continue_unwind : Reason

-- The fields of the exception header that phase 1 saves for phase 2.
pub record Saved : Type 0 where
  pub handler : ℕ
  pub lsda : ℕ
  pub landing_pad : ℕ
  pub cfa : ℕ

-- What the call-site loop leaves in `*landingPad` and `actionRecord`; 0 stands for NULL.
pub record Site : Type 0 where
  pub landing_pad : ℕ
  pub action_record : ℕ

-- The constants of the loop. `slot` is the address of the variable `p` of the scan.
pub record Table : Type 0 where
  pub encoding : ℕ
  pub slot : ℕ
  pub start : ℕ
  pub lp_start : ℕ
  pub ip : ℕ
  pub action_table : ℕ

-- One entry of the call-site table, and the pointer behind it.
pub record Entry : Type 0 where
  pub start : ℕ
  pub len : ℕ
  pub pad : ℕ
  pub action : ℕ
  pub behind : ℕ

unfoldable pub read_site : Table → Memory → ℕ → Outcome Entry
read_site t mem p = do
  (start, p) ← read_encoded_value none t.encoding t.slot mem p
  (len, p) ← read_encoded_value none t.encoding t.slot mem p
  (pad, p) ← read_encoded_value none t.encoding t.slot mem p
  (action, p) ← read_uleb128 mem p
  ok (record { start = start; len = len; pad = pad; action = action; behind = p })

-- The site of an entry whose range holds `ip`.
abbrev pub site_of : Table → Entry → Site → Site
site_of t e site = record {
  landing_pad = if e.pad == 0 then site.landing_pad else (t.lp_start + e.pad) % 2 ^ 64;
  action_record =
      if e.action == 0 then site.action_record else (t.action_table + e.action - 1) % 2 ^ 64;
}

-- The first test of the C code ends the loop by moving `p` to the end of the table.
unfoldable pub site_loop : ℕ → Table → Memory → ℕ → Site → Outcome Site
site_loop zero t mem p site = no_fuel
site_loop (suc fuel) t mem p site =
    if ltb p t.action_table
    then (do
      e ← read_site t mem p
      let next = site_loop fuel t mem e.behind site
      if ltb t.ip ((t.start + e.start) % 2 ^ 64)
          then ok site
          else if ltb t.ip ((t.start + e.start + e.len) % 2 ^ 64)
          then ok (site_of t e site)
          else next)
    else ok site

-- The header of the table: the loop's constants, the type table, and where the loop begins.
pub record Header : Type 0 where
  pub sites : Table
  pub types : TypeTable
  pub first : ℕ
  pub table_size : ℕ

-- The addresses of the variables `p` and `tp`.
pub record Slots : Type 0 where
  pub p : ℕ
  pub tp : ℕ

-- `ip` is the return address, and points behind the call.
abbrev pub call_ip : Frame → ℕ
call_ip frame = if frame.ip_before_insn then frame.ip else (frame.ip + 2 ^ 64 - 1) % 2 ^ 64

unfoldable pub read_header : Memory → Slots → Frame → ℕ → Outcome Header
read_header mem slots frame lsda = do
  lp_encoding ← load_byte mem lsda
  (lp_start, p) ←
      if lp_encoding == omit
      then ok (frame.region_start, lsda + 1)
      else read_encoded_value (some frame) lp_encoding slots.p mem (lsda + 1)
  ttype_encoding ← load_byte mem p
  (ttype, p) ←
      if ttype_encoding == omit
      then ok (0, p + 1)
      else (do (offset, p) ← read_uleb128 mem (p + 1); ok ((p + offset) % 2 ^ 64, p))
  cs_encoding ← load_byte mem p
  (table_size, p) ← read_uleb128 mem (p + 1)
  ttype_base ← base_of_encoded_value ttype_encoding (some frame)
  ok (record {
    sites = record {
      encoding = cs_encoding;
      slot = slots.p;
      start = frame.region_start;
      lp_start = lp_start;
      ip = call_ip frame;
      action_table = p + table_size;
    };
    types = record { base = ttype_base; table = ttype; encoding = ttype_encoding; slot = slots.tp };
    first = p;
    table_size = table_size;
  })

-- With no action record the frame has a cleanup; `landingPad == 0` asks for the address of the
-- result, which is never NULL.
unfoldable pub find_action : ℕ → ℕ → Memory → TypeTable → Site → Outcome Lookup
find_action fuel actions mem types site =
    if site.action_record == 0
    then ok (record { handler = 0; saw_handler = false; saw_cleanup = true })
    else action_table_lookup fuel actions mem types site.action_record false

-- What the scan returns and writes.
pub record Scanned : Type 0 where
  pub reason : Reason
  pub landing_pad : ℕ
  pub handler : ℕ
  pub saved : Saved

abbrev pub answer : Reason → ℕ → Lookup → Saved → Scanned
answer reason pad found saved = record {
  reason = reason;
  landing_pad = pad;
  handler = found.handler;
  saved = saved;
}

-- The end of `_yrt_exc_scan_lsda`, from what the two loops found.
unfoldable pub decide_reason : ℕ → ℕ → ℕ → Saved → ℕ → Lookup → Scanned
decide_reason actions lsda cfa saved pad found =
    if not found.saw_cleanup && not found.saw_handler
    then answer continue_unwind pad found saved
    else if bit_and actions search_phase == 0
    then answer no_reason pad found saved
    else if not found.saw_handler
    then answer continue_unwind pad found saved
    else answer handler_found pad found
        (record { handler = found.handler; lsda = lsda; landing_pad = pad; cfa = cfa })

-- `fuel` bounds the walk through the action table. A round of the site loop takes a byte at least.
unfoldable pub scan_lsda : ℕ → ℕ → Memory → Slots → Frame → ℕ → ℕ → Saved → Outcome Scanned
scan_lsda fuel actions mem slots frame lsda cfa saved =
    if lsda == 0
    then ok (record { reason = continue_unwind; landing_pad = 0; handler = 0; saved = saved })
    else (do
      h ← read_header mem slots frame lsda
      site ←
          site_loop (h.table_size + 1) h.sites mem h.first
            (record { landing_pad = 0; action_record = 0 })
      found ← find_action fuel actions mem h.types site
      ok (decide_reason actions lsda cfa saved site.landing_pad found))
