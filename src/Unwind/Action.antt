-- ===== src/Unwind/Action.antt =====
-- c/personality.c: `_yrt_exc_action_table_lookup`.
pub mod Select
use Prim.Native.Nat.{bit_and}
use yruntime.Base.{ℕ, zero, suc, ◌+◌, ◌-◌, ◌*◌, ◌%◌, ◌^◌, Bool, true, false, ◌==◌, if◌then◌else◌}
use yruntime.Unwind.Memory.{Memory, Outcome, ok, no_fuel, ◌>>=◌}
use yruntime.Unwind.Leb.{read_sleb128}
use yruntime.Unwind.Encoded.{size_of_encoded_value, read_encoded_value_with_base}

abbrev pub search_phase : ℕ
search_phase = 1

abbrev pub cleanup_phase : ℕ
cleanup_phase = 2

abbrev pub handler_frame : ℕ
handler_frame = 4

abbrev pub force_unwind : ℕ
force_unwind = 8

-- The type table as the scan finds it; `slot` is the address of the variable `tp`.
pub record TypeTable : Type 0 where
  pub base : ℕ
  pub table : ℕ
  pub encoding : ℕ
  pub slot : ℕ

-- The entry of the type table that a filter selects; the filter is unsigned.
unfoldable pub read_entry : TypeTable → Memory → ℕ → Outcome (ℕ × ℕ)
read_entry types mem filter = do
  size ← size_of_encoded_value types.encoding
  read_encoded_value_with_base types.encoding types.base types.slot mem
      ((types.table + (2 ^ 64 - filter * size % 2 ^ 64)) % 2 ^ 64)

-- The returned filter as the 32 bits of an `int`, `saw_handler` and `saw_cleanup`.
pub record Lookup : Type 0 where
  pub handler : ℕ
  pub saw_handler : Bool
  pub saw_cleanup : Bool

-- `filter > 0` holds of every filter that is not 0, since the filter is unsigned.
-- A record ends the walk where its displacement is 0.
unfoldable pub action_table_lookup : ℕ → ℕ → Memory → TypeTable → ℕ → Bool → Outcome Lookup
action_table_lookup zero actions mem types action_record cleanup = no_fuel
action_table_lookup (suc fuel) actions mem types action_record cleanup = do
  (filter, apn) ← read_sleb128 mem action_record
  (disp, _) ← read_sleb128 mem apn
  let seen = if filter == 0 then true else cleanup
  let next = action_table_lookup fuel actions mem types ((apn + disp) % 2 ^ 64) seen
  let onward =
      if disp == 0
      then ok (record { handler = 0; saw_handler = false; saw_cleanup = seen })
      else next
  if filter == 0
      then onward
      else if bit_and actions force_unwind == 0
      then (do
        _ ← read_entry types mem filter
        ok (record { handler = filter % 2 ^ 32; saw_handler = true; saw_cleanup = cleanup }))
      else onward
