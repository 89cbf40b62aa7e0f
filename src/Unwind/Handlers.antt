-- ===== src/Unwind/Handlers.antt =====
-- c/personality.c: the search for a handler in a table as a compiler writes it.
use mathlib.Core.Path.{subst}
use yruntime.Base.{
  ℕ, zero, suc, ◌+◌, ◌-◌, ◌%◌, ◌^◌, ◌<◌, ◌≡◌, ◌≢◌, refl, ap, List, ◌∷◌, ◌++◌, none, some, Bool,
  true, false, not, ◌&&◌, ◌==◌, length, length-append, All, Bool-cases, inl, inr, replicate, arith,
}
use yruntime.Unwind.Memory.{Memory, ok, Holds}
use yruntime.Unwind.Leb.{leb_value}
use yruntime.Unwind.Leb.Decode.{load_byte_at, read_uleb128-leb_value}
use yruntime.Unwind.Encoded.{Frame, omit, base_of_encoded_value}
use yruntime.Unwind.Action.{TypeTable, search_phase}
use yruntime.Unwind.Action.Select.{Chain, select, forced, IsReadable, action_table_lookup-select}
use yruntime.Unwind.Scan.{
  Saved, Table, Entry, Slots, call_ip, read_header, find_action, handler_found, install_context,
  decide_reason, scan_lsda,
}
use yruntime.Unwind.Scan.Sites.{Sites, IsOrdered, Covers, site_loop-Covers}
use yruntime.Unwind.Written.{
  IsNumber, CallSite, AreNumbers, sites_bytes, entries, header_bytes, Holds-front, Holds-back,
  entries-Sites, length-entries,
}
use yruntime.Unwind.Personality.{personality, after_scan, finish}

-- What stands behind the header, and the loop's constants.
module _ (slots : Slots) (frame : Frame) (lsda encoding base : ℕ) (offset size : List ℕ) where
  abbrev pub first_site : ℕ
  first_site = lsda + 2 + length offset + 1 + length size

  abbrev pub written_sites : Table
  written_sites = record {
    encoding = 0x01;
    slot = slots.p;
    start = frame.region_start;
    lp_start = frame.region_start;
    ip = call_ip frame;
    action_table = first_site + leb_value size;
  }

  abbrev pub written_types : TypeTable
  written_types = record {
    base = base;
    table = (lsda + 2 + length offset + leb_value offset) % 2 ^ 64;
    encoding = encoding;
    slot = slots.tp;
  }

  read_header-header_bytes :
      (mem : Memory)
      → encoding ≢ omit
      → base_of_encoded_value encoding (some frame) ≡ ok base
      → Holds mem lsda (header_bytes encoding offset size)
      → IsNumber offset
      → IsNumber size
      → read_header mem slots frame lsda
        ≡ ok (record {
          sites = written_sites;
          types = written_types;
          first = first_site;
          table_size = leb_value size;
        })
  unfolding read_header
  read_header-header_bytes mem typed based (h0, _, (h1, small, h)) (leb, short, fits)
        (leb', short', fits') =
      let at : lsda + 1 + 1 ≡ lsda + 2 = omega arith in
      let h2 = subst (λ q. Holds mem q (offset ++ 0x01 ∷ size)) at h in
      let behind = Holds-back mem (lsda + 2) offset (0x01 ∷ size) h2 in
      let r0 = load_byte_at mem lsda 0xff h0 (omega arith) in
      let r1 = load_byte_at mem (lsda + 1) encoding h1 small in
      let r2 =
        read_uleb128-leb_value offset mem (lsda + 2)
          (Holds-front mem (lsda + 2) offset (0x01 ∷ size) h2) leb short fits in
      let r3 = load_byte_at mem (lsda + 2 + length offset) 0x01 behind.0 (omega arith) in
      let r4 =
        read_uleb128-leb_value size mem (lsda + 2 + length offset + 1) behind.2 leb' short' fits' in
      let with_types : (encoding == omit) ≡ false = ground arith in
      rw (r0, r1, with_types, at, r2, r3, r4, based) refl

-- The answer of the search phase: the filter that is selected is saved, with the landing pad.
abbrev pub saved_handler : Frame → ℕ → ℕ → Saved
saved_handler frame pad filter = record {
  handler = filter;
  lsda = frame.lsda;
  landing_pad = (frame.region_start + pad) % 2 ^ 64;
  cfa = frame.cfa;
}

-- Cleanups in front of a handler.
select-handler :
    (cleanups filter : ℕ) (rest : List ℕ) (cleanup : Bool)
    → filter ≢ 0
    → (seen : Bool) × (select false (replicate cleanups 0 ++ filter ∷ rest) cleanup
        ≡ record { handler = filter % 2 ^ 32; saw_handler = true; saw_cleanup = seen })
unfolding select
select-handler zero filter rest cleanup h =
    let some_filter : (filter == 0) ≡ false = ground arith in (cleanup, rw some_filter refl)
select-handler (suc cleanups) filter rest cleanup h = select-handler cleanups filter rest true h

module _ (slots : Slots) (frame : Frame) (encoding base : ℕ) (offset size : List ℕ)
    (cs : List CallSite) (mem : Memory) (present : frame.lsda ≢ 0) (typed : encoding ≢ omit)
    (based : base_of_encoded_value encoding (some frame) ≡ ok base)
    (written : Holds mem frame.lsda (header_bytes encoding offset size ++ sites_bytes cs))
    (numbers : IsNumber offset × IsNumber size × All AreNumbers cs)
    (sized : leb_value size ≡ length (sites_bytes cs)) where
  abbrev pub sites_of : Table
  sites_of = written_sites slots frame frame.lsda encoding base offset size

  abbrev pub types_of : TypeTable
  types_of = written_types slots frame frame.lsda encoding base offset size

  abbrev pub first_of : ℕ
  first_of = first_site slots frame frame.lsda encoding base offset size

  sites_of-Sites : Sites sites_of mem first_of (entries first_of cs)
  sites_of-Sites =
      let header = header_bytes encoding offset size in
      let place : frame.lsda + length header ≡ first_of =
        omega (arith, length-append offset (0x01 ∷ size)) in
      let here =
        subst (λ q. Holds mem q (sites_bytes cs)) place
          (Holds-back mem frame.lsda header (sites_bytes cs) written) in
      entries-Sites sites_of mem first_of cs refl (omega (arith, sized)) here numbers.2

  scan_lsda-written :
      (fuel actions : ℕ) (saved : Saved) (before : List Entry) (e : Entry) (after : List Entry)
      (filters : List ℕ)
      → entries first_of cs ≡ before ++ e ∷ after
      → IsOrdered sites_of 0 (before ++ e ∷ after)
      → Covers sites_of e
      → e.pad ≢ 0
      → e.action ≢ 0
      → sites_of.action_table + e.action < 2 ^ 64
      → Chain mem (sites_of.action_table + e.action - 1) filters
      → All (IsReadable mem types_of) filters
      → length filters < fuel
      → scan_lsda fuel actions mem slots frame frame.lsda frame.cfa saved
        ≡ ok (
            decide_reason actions frame.lsda frame.cfa saved
              ((frame.region_start + e.pad) % 2 ^ 64)
              (select (forced actions) filters false))
  unfolding scan_lsda find_action
  scan_lsda-written fuel actions saved before e after filters split ordered covers padded acting low
        chain readable enough =
      let header =
        read_header-header_bytes slots frame frame.lsda encoding base offset size mem typed based
          (Holds-front mem frame.lsda (header_bytes encoding offset size) (sites_bytes cs) written)
          numbers.0 numbers.1 in
      let some_lsda : (frame.lsda == 0) ≡ false = ground arith in
      let few : length (before ++ e ∷ after) < leb_value size + 1 =
        omega (arith, ap length split, length-entries first_of cs numbers.2, sized) in
      let loop =
        site_loop-Covers {t = sites_of} {mem = mem} {p = first_of} (leb_value size + 1) 0
          (record { landing_pad = 0; action_record = 0 }) before e after
          (subst (Sites sites_of mem first_of) split sites_of-Sites) ordered covers few in
      let some_pad : (e.pad == 0) ≡ false = ground arith in
      let some_action : (e.action == 0) ≡ false = ground arith in
      let place : (sites_of.action_table + e.action - 1) % 2 ^ 64
          ≡ sites_of.action_table + e.action - 1 =
        omega arith in
      let some_record : (sites_of.action_table + e.action - 1 == 0) ≡ false = ground arith in
      let walk = action_table_lookup-select fuel actions types_of false chain readable enough in
      rw (some_lsda, header, loop, some_pad, some_action, place, some_record, walk) refl

  -- A frame with a table in LEB128: the header, and the call sites in order, of which one with a
  -- landing pad and an action covers the call. Its action leads to a chain of records, which is
  -- shorter than the fuel and whose entries can be read, with cleanups in front of a handler. Then
  -- the search phase reports a handler and saves its filter and the landing pad, at the distance
  -- that the call site gives from the start of the frame's function; and the call for the handler's
  -- frame goes on there with that filter.
  pub personality-written :
      (fuel header cleanups filter : ℕ) (rest : List ℕ) (saved : Saved) (before : List Entry)
      (e : Entry) (after : List Entry)
      → entries first_of cs ≡ before ++ e ∷ after
      → IsOrdered sites_of 0 (before ++ e ∷ after)
      → Covers sites_of e
      → e.pad ≢ 0
      → (frame.region_start + e.pad) % 2 ^ 64 ≢ 0
      → e.action ≢ 0
      → sites_of.action_table + e.action < 2 ^ 64
      → Chain mem (sites_of.action_table + e.action - 1) (replicate cleanups 0 ++ filter ∷ rest)
      → All (IsReadable mem types_of) (replicate cleanups 0 ++ filter ∷ rest)
      → length (replicate cleanups 0 ++ filter ∷ rest) < fuel
      → filter ≢ 0
      → (personality fuel search_phase header mem slots frame saved
          ≡ ok (record {
            reason = handler_found;
            saved = saved_handler frame e.pad (filter % 2 ^ 32);
            install = none;
          }))
        × (personality fuel 6 header mem slots frame (saved_handler frame e.pad (filter % 2 ^ 32))
            ≡ ok (record {
              reason = install_context;
              saved = saved_handler frame e.pad (filter % 2 ^ 32);
              install = some (record {
                exception = header;
                selector = filter % 2 ^ 32;
                ip = (frame.region_start + e.pad) % 2 ^ 64;
              });
            }))
  unfolding personality after_scan finish decide_reason
  personality-written fuel header cleanups filter rest saved before e after split ordered covers
        padded landing acting low chain readable enough some_filter =
      let scanned =
        scan_lsda-written fuel search_phase saved before e after
          (replicate cleanups 0 ++ filter ∷ rest) split ordered covers padded acting low chain
          readable enough in
      let (seen, selected) = select-handler cleanups filter rest false some_filter in
      let some_landing : ((frame.region_start + e.pad) % 2 ^ 64 == 0) ≡ false = ground arith in
      let handled : (not seen && not true) ≡ false = elim (Bool-cases seen) [
        | inl e ↦ rw e refl
        | inr e ↦ rw e refl
      ] in
      (rw (scanned, selected, handled) refl, rw some_landing refl)
