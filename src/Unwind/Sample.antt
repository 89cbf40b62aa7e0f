-- ===== src/Unwind/Sample.antt =====
-- c/personality.c: a table in memory, and a run of the search phase over it.
use yruntime.Base.{ℕ, ◌-◌, ◌≡◌, refl, List, [], ◌∷◌, none, false, ltb, get_elem?, if◌then◌else◌}
use yruntime.Unwind.Memory.{Memory, ok, load_byte, read_unaligned}
use yruntime.Unwind.Leb.{uleb_loop, read_uleb128, extend_sign, sleb_loop, read_sleb128}
use yruntime.Unwind.Encoded.{
  Frame, size_of_encoded_value, base_of_encoded_value, read_sized, read_format, relocate,
  read_encoded_value_with_base, read_encoded_value,
}
use yruntime.Unwind.Action.{read_entry, action_table_lookup, search_phase}
use yruntime.Unwind.Scan.{
  handler_found, Saved, Slots, read_site, site_loop, read_header, find_action, decide_reason,
  scan_lsda,
}
use yruntime.Unwind.Personality.{Answer, after_scan, personality}

abbrev pub mem_at : ℕ → List ℕ → Memory
mem_at base bytes p = if ltb p base then none else get_elem? bytes (p - base)

-- A frame at 5000 with one call site of ten bytes, a landing pad 32 bytes on, and a record of the
-- filter 1 whose type is catch-all.
abbrev pub bytes : List ℕ
bytes = 0xff ∷ 0x00 ∷ 16 ∷ 0x01 ∷ 4 ∷ 0 ∷ 10 ∷ 0x20 ∷ 1 ∷ 1 ∷ 0 ∷ 0 ∷ 0 ∷ 0 ∷ 0 ∷ 0 ∷ 0 ∷ 0 ∷ 0 ∷ []

abbrev pub mem : Memory
mem = mem_at 1000 bytes

abbrev pub frame : Frame
frame = record {
  lsda = 1000;
  cfa = 9000;
  ip = 5006;
  ip_before_insn = false;
  region_start = 5000;
  text_base = 0;
  data_base = 0;
}

abbrev pub slots : Slots
slots = record { p = 8000; tp = 8008 }

abbrev pub unset : Saved
unset = record { handler = 0; lsda = 0; landing_pad = 0; cfa = 0 }

abbrev pub found : Answer
found = record {
  reason = handler_found;
  saved = record { handler = 1; lsda = 1000; landing_pad = 5032; cfa = 9000 };
  install = none;
}

pub search_run : (header : ℕ) → personality 2 search_phase header mem slots frame unset ≡ ok found
unfolding personality after_scan scan_lsda decide_reason find_action action_table_lookup read_entry
    size_of_encoded_value read_encoded_value_with_base read_format read_sized relocate read_header
    site_loop read_site read_encoded_value base_of_encoded_value read_uleb128 uleb_loop read_sleb128
    sleb_loop extend_sign load_byte read_unaligned
search_run header = refl
