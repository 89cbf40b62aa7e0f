-- ===== src/Unwind/Runs.antt =====
-- c/personality.c: a table in memory, runs over it, and the theorems at it.
use yruntime.Base.{ℕ, ◌-◌, ◌^◌, ◌<◌, ◌≡◌, refl, List, [], ◌∷◌, ◌++◌, some, arith, false}
use yruntime.Unwind.Sample.{mem_at, mem, frame, slots, unset, found, search_run}
use yruntime.Unwind.Memory.{Holds, ok, load_byte, read_unaligned}
use yruntime.Unwind.Leb.{
  uleb_loop, read_uleb128, extend_sign, sleb_loop, read_sleb128, leb_value, leb_scale, sleb_value,
}
use yruntime.Unwind.Leb.Decode.{read_uleb128-leb_value}
use yruntime.Unwind.Leb.Signed.{read_sleb128-sleb_value}
use yruntime.Unwind.Encoded.{
  size_of_encoded_value, base_of_encoded_value, read_sized, read_format, relocate,
  read_encoded_value_with_base, read_encoded_value,
}
use yruntime.Unwind.Action.{TypeTable, read_entry, action_table_lookup, search_phase}
use yruntime.Unwind.Action.Select.{Chain, last, select, action_table_lookup-select}
use yruntime.Unwind.Scan.{
  install_context, Site, Table, Entry, read_site, site_of, site_loop, Scanned, scan_lsda,
}
use yruntime.Unwind.Scan.Sites.{Sites, done, site, site_loop-Covers}
use yruntime.Unwind.Scan.Progress.{HasFuel, site_loop-HasFuel}
use yruntime.Unwind.Written.{CallSite, IsNumber, header_bytes, sites_bytes}
use yruntime.Unwind.Handlers.{personality-written}
use yruntime.Unwind.Personality.{personality}
use yruntime.Unwind.Personality.Phases.{personality_phases}

-- 624485 and -123456, the examples of the DWARF standard.
abbrev unsigned_bytes : List ℕ
unsigned_bytes = 0xE5 ∷ 0x8E ∷ 0x26 ∷ []

abbrev signed_bytes : List ℕ
signed_bytes = 0xC0 ∷ 0xBB ∷ 0x78 ∷ []

unsigned_value : leb_value unsigned_bytes ≡ 624485
unfolding leb_value
unsigned_value = refl

signed_value : sleb_value signed_bytes ≡ 2 ^ 64 - 123456
unfolding sleb_value leb_value leb_scale
signed_value = refl

read_uleb128-leb_value_example :
    read_uleb128 (mem_at 8 unsigned_bytes) 8 ≡ ok (leb_value unsigned_bytes, 11)
unfolding leb_value
read_uleb128-leb_value_example =
    read_uleb128-leb_value unsigned_bytes (mem_at 8 unsigned_bytes) 8
      (refl, omega arith, (refl, omega arith, (refl, omega arith, tt))) (omega arith) (omega arith)
      (omega arith)

read_sleb128-sleb_value_example :
    read_sleb128 (mem_at 8 signed_bytes) 8 ≡ ok (sleb_value signed_bytes, 11)
read_sleb128-sleb_value_example =
    read_sleb128-sleb_value signed_bytes (mem_at 8 signed_bytes) 8
      (refl, omega arith, (refl, omega arith, (refl, omega arith, tt))) (omega arith) (omega arith)

half_run :
    read_encoded_value_with_base 0x02 0 8000 (mem_at 8 (0xFE ∷ 0xFF ∷ [])) 8 ≡ ok (0xFFFE, 10)
unfolding read_encoded_value_with_base read_format read_sized relocate load_byte read_unaligned
half_run = refl

half_size : size_of_encoded_value 0x02 ≡ ok 2
unfolding size_of_encoded_value
half_size = refl

personality_phases_example :
    (s : Scanned) × (scan_lsda 2 search_phase mem slots frame 1000 9000 unset ≡ ok s)
    × (personality 0 6 77 mem slots frame found.saved
        ≡ ok (record {
          reason = install_context;
          saved = found.saved;
          install = some (record { exception = 77; selector = s.handler; ip = s.landing_pad });
        }))
personality_phases_example =
    personality_phases 2 77 mem slots frame unset found 0 mem slots frame (search_run 77) refl
      (omega arith)

abbrev types : TypeTable
types = record { base = 0; table = 1019; encoding = 0; slot = 8008 }

chain : Chain mem 1009 (1 ∷ [])
unfolding read_sleb128 sleb_loop extend_sign load_byte
chain = last {apn = 1010} {behind = 1011} refl refl

entry_run : read_entry types mem 1 ≡ ok (0, 1019)
unfolding read_entry size_of_encoded_value read_encoded_value_with_base read_format read_sized
    relocate load_byte read_unaligned
entry_run = refl

action_table_lookup-select_example :
    action_table_lookup 2 search_phase mem types 1009 false ≡ ok (select false (1 ∷ []) false)
action_table_lookup-select_example =
    action_table_lookup-select 2 search_phase types false chain ((λ _. ((0, 1019), entry_run)), tt)
      (omega arith)

abbrev table : Table
table = record {
  encoding = 1;
  slot = 8000;
  start = 5000;
  lp_start = 5000;
  ip = 5005;
  action_table = 1009;
}

abbrev entry : Entry
entry = record { start = 0; len = 10; pad = 32; action = 1; behind = 1009 }

entry_read : read_site table mem 1005 ≡ ok entry
unfolding read_site read_encoded_value base_of_encoded_value read_encoded_value_with_base
    read_format relocate read_uleb128 uleb_loop load_byte
entry_read = refl

sites : Sites table mem 1005 (entry ∷ [])
sites = site (omega arith) entry_read (done (omega arith))

abbrev no_site : Site
no_site = record { landing_pad = 0; action_record = 0 }

site_loop-Covers_example : site_loop 5 table mem 1005 no_site ≡ ok (site_of table entry no_site)
site_loop-Covers_example =
    site_loop-Covers 5 0 no_site [] entry [] sites (omega arith, omega arith, tt)
      (omega arith, omega arith) (omega arith)

-- An instruction behind the only range.
abbrev late_table : Table
late_table = record table { ip = 5010 }

late_table-Sites : Sites late_table mem 1005 (entry ∷ [])
unfolding read_site
late_table-Sites = site (omega arith) entry_read (done (omega arith))

site_loop-HasFuel_example : HasFuel (site_loop 5 table mem 1005 no_site)
site_loop-HasFuel_example =
    site_loop-HasFuel 5 table mem 1005 no_site (omega arith) (omega arith) (omega arith)

-- The only call site of the table.
abbrev call_site : CallSite
call_site = record { start = 0 ∷ []; len = 10 ∷ []; pad = 0x20 ∷ []; action = 1 ∷ [] }

no_base : base_of_encoded_value 0x00 (some frame) ≡ ok 0
unfolding base_of_encoded_value
no_base = refl

small-IsNumber : (n : ℕ) → n < 128 → IsNumber (n ∷ [])
unfolding leb_value
small-IsNumber n h = (h, omega arith, omega arith)

one_value : leb_value (4 ∷ []) ≡ 4
unfolding leb_value
one_value = refl

written_table :
    Holds mem 1000 (header_bytes 0x00 (16 ∷ []) (4 ∷ []) ++ sites_bytes (call_site ∷ []))
written_table = (
  refl,
  omega arith,
  (
    refl,
    omega arith,
    (
      refl,
      omega arith,
      (
        refl,
        omega arith,
        (
          refl,
          omega arith,
          (refl, omega arith, (refl, omega arith, (refl, omega arith, (refl, omega arith, tt)))),
        ),
      ),
    ),
  ),
)

personality-written_example :
    (personality 2 search_phase 77 mem slots frame unset ≡ ok found)
    × (personality 2 6 77 mem slots frame found.saved
        ≡ ok (record {
          reason = install_context;
          saved = found.saved;
          install = some (record { exception = 77; selector = 1; ip = 5032 });
        }))
unfolding leb_value
personality-written_example =
    personality-written slots frame 0x00 0 (16 ∷ []) (4 ∷ []) (call_site ∷ []) mem (omega arith)
      (omega arith) no_base written_table
      (
        small-IsNumber 16 (omega arith),
        small-IsNumber 4 (omega arith),
        (
          (
            small-IsNumber 0 (omega arith),
            small-IsNumber 10 (omega arith),
            small-IsNumber 0x20 (omega arith),
            small-IsNumber 1 (omega arith),
          ),
          tt,
        ),
      )
      one_value 2 77 0 1 [] unset [] entry [] refl (omega arith, omega arith, tt)
      (omega arith, omega arith) (omega arith) (omega arith) (omega arith) (omega arith) chain
      ((λ _. ((0, 1019), entry_run)), tt) (omega arith) (omega arith)
