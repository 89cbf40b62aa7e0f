-- ===== src/Unwind/Action/Select.antt =====
-- c/personality.c: what the walk through the action table selects.
use Prim.Native.Nat.{bit_and}
use yruntime.Base.{
  ℕ, zero, suc, ◌+◌, ◌%◌, ◌^◌, ◌<◌, ◌≡◌, ◌≢◌, refl, List, [], ◌∷◌, length, All, arith, Bool, true,
  false, inl, inr, Bool-cases, ◌==◌, if◌then◌else◌,
}
use yruntime.Unwind.Memory.{Memory, ok}
use yruntime.Unwind.Leb.{read_sleb128}
use yruntime.Unwind.Action.{TypeTable, Lookup, force_unwind, read_entry, action_table_lookup}

-- The filters of the records that follow one another from a place in memory.
pub data Chain (mem : Memory) : ℕ → List ℕ → Type 0 where
  last :
      {record_at apn filter behind : ℕ}
      → read_sleb128 mem record_at ≡ ok (filter, apn)
      → read_sleb128 mem apn ≡ ok (0, behind)
      → Chain mem record_at (filter ∷ [])
  next :
      {record_at apn filter disp behind : ℕ} {filters : List ℕ}
      → read_sleb128 mem record_at ≡ ok (filter, apn)
      → read_sleb128 mem apn ≡ ok (disp, behind)
      → disp ≢ 0
      → Chain mem ((apn + disp) % 2 ^ 64) filters
      → Chain mem record_at (filter ∷ filters)

-- The first filter that is not 0 is the handler, unless the unwinding is forced; a 0 passed on the
-- way is a cleanup.
unfoldable pub select : Bool → List ℕ → Bool → Lookup
select forced [] cleanup = record { handler = 0; saw_handler = false; saw_cleanup = cleanup }
select forced (filter ∷ filters) cleanup =
    if filter == 0
    then select forced filters true
    else if forced
    then select forced filters cleanup
    else record { handler = filter % 2 ^ 32; saw_handler = true; saw_cleanup = cleanup }

abbrev pub forced : ℕ → Bool
forced actions = if bit_and actions force_unwind == 0 then false else true

-- The entry of a filter can be read.
abbrev pub IsReadable : Memory → TypeTable → ℕ → Type 0
IsReadable mem types filter = filter ≢ 0 → (e : ℕ × ℕ) × (read_entry types mem filter ≡ ok e)

-- On a chain of records that is shorter than the fuel and whose entries can be read, the walk
-- selects what the list of filters says.
pub action_table_lookup-select :
    (fuel actions : ℕ) (types : TypeTable) (cleanup : Bool) {mem : Memory} {record_at : ℕ}
    {filters : List ℕ}
    → Chain mem record_at filters
    → All (IsReadable mem types) filters
    → length filters < fuel
    → action_table_lookup fuel actions mem types record_at cleanup
      ≡ ok (select (forced actions) filters cleanup)
unfolding action_table_lookup select
action_table_lookup-select zero actions types cleanup c r h = absurd (omega arith)
action_table_lookup-select (suc fuel) actions types cleanup (last {filter} e d) (r, _) h =
    rw (e, d)
      (elim (Bool-cases (filter == 0)) [
        | inl zero_filter ↦ rw zero_filter refl
        | inr nz ↦ rw nz (elim (Bool-cases (bit_and actions force_unwind == 0)) [
          | inl free ↦ rw (free, (r (ground arith)).1) refl
          | inr bound ↦ rw bound refl
        ])
      ])
action_table_lookup-select (suc fuel) actions types cleanup (next {filter} {disp} e d nz c) (r, rs)
      h =
    let goes_on : (disp == 0) ≡ false = ground arith in
    let walk =
      λ (seen : Bool). action_table_lookup-select fuel actions types seen c rs (omega arith) in
    rw (e, d, goes_on)
      (elim (Bool-cases (filter == 0)) [
        | inl zero_filter ↦ rw zero_filter (walk true)
        | inr nz_filter ↦ rw nz_filter (elim (Bool-cases (bit_and actions force_unwind == 0)) [
          | inl free ↦ rw (free, (r (ground arith)).1) refl
          | inr bound ↦ rw bound (walk cleanup)
        ])
      ])
