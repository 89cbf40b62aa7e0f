-- ===== src/Trace/Lines.antt =====
-- c/stacktrace.c: `_yrt_find_dwarf_die`, `_yrt_find_in_dwarf` and `_yrt_resolve_address`. What
-- libdwarf answers is a parameter, the record DebugInfo, and `none` is an error that it reports.
use yruntime.Base.{
  ℕ, ◌+◌, ◌-◌, ◌%◌, ◌^◌, List, [], ◌∷◌, Option, none, some, Bool, not, ltb, ◌==◌, if◌then◌else◌,
  ◌>>=◌,
}

-- A row of the line table: the address, the source file and the line.
pub record Line : Type 0 where
  pub lineaddr : Option ℕ
  pub linesrc : Option (List ℕ)
  pub lineno : Option ℕ

-- `arange` gives the offset of the unit whose range holds an address, or an error on the way to it.
pub record DebugInfo : Type 0 where
  pub descriptor : ℕ
  pub init : Bool
  pub aranges : Bool
  pub arange : ℕ → Option ℕ
  pub offdie : ℕ → Bool
  pub srclines : ℕ → Option (List Line)

-- `*file`, without a text for NULL, and `*line`.
pub record Location : Type 0 where
  pub file : Option (List ℕ)
  pub line : ℕ

-- The die, by its offset.
unfoldable pub find_dwarf_die : DebugInfo → ℕ → Option ℕ
find_dwarf_die d addr =
    if d.aranges
    then (do offset ← d.arange addr; if d.offdie offset then some offset else none)
    else none

-- `abs ((uint64_t) addr)`, where `abs` takes an `int`.
abbrev pub abs_int : ℕ → ℕ
abs_int addr = let low = addr % 2 ^ 32 in if ltb low (2 ^ 31) then low else 2 ^ 32 - low

-- `int dist`, as it is compared with the unsigned `max`.
unfoldable pub line_dist : ℕ → ℕ → ℕ
line_dist addr lineaddr =
    let low = (abs_int addr + 2 ^ 64 - lineaddr) % 2 ^ 64 % 2 ^ 32 in
    if ltb low (2 ^ 31) then low else low + (2 ^ 64 - 2 ^ 32)

-- The loop over the rows.
unfoldable pub line_loop : List Line → ℕ → ℕ → Location → Location
line_loop [] addr max found = found
line_loop (row ∷ rows) addr max found = elim row.lineaddr [
  | none ↦ found
  | some lineaddr ↦
      let dist = line_dist addr lineaddr in
      let next = line_loop rows addr max found in
      if ltb dist max
      then (elim row.linesrc [
        | none ↦ found
        | some srcfile ↦ (elim row.lineno [
          | none ↦ let here : Location = record { file = some srcfile; line = found.line } in here
          | some lineno ↦
              let here : Location = record { file = some srcfile; line = lineno % 2 ^ 32 } in
              let more = line_loop rows addr dist here in if dist == 0 then here else more
        ])
      ])
      else next
]

unfoldable pub find_in_dwarf : DebugInfo → ℕ → Location → Location
find_in_dwarf d addr found =
    if d.descriptor == 0
    then found
    else if not d.init
    then found
    else (elim (find_dwarf_die d addr) [
      | none ↦ found
      | some die ↦ (elim (d.srclines die) [
        | none ↦ found
        | some rows ↦ line_loop rows addr addr found
      ])
    ])

abbrev pub no_location : Location
no_location = record { file = none; line = 0 }

unfoldable pub resolve_address : DebugInfo → ℕ → Location
resolve_address d addr = find_in_dwarf d addr no_location
