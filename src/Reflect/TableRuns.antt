-- ===== src/Reflect/TableRuns.antt =====
-- c/reflect.c on Windows: a module registered before the first lookup, and one behind it.
use yruntime.Base.{ℕ, ◌≡◌, List, [], ◌∷◌, ◌++◌, ◌==◌, if◌then◌else◌, bytes_eq, arith}
use yruntime.Reflect.Table.{
  Symbol, SymbolEntry, SymbolTable, find_symbol_in_table_array, find_symbol_from_addr,
}
use yruntime.Reflect.Registered.{
  register_all, table_of, start_reflection, find_symbol_in_table_array-register_all,
}

abbrev at_symbol : Symbol
at_symbol = record { kind = 0; ptr = 4096; size = 16; name = b'a' ∷ b't' ∷ [] }

abbrev to_symbol : Symbol
to_symbol = record { kind = 0; ptr = 8192; size = 32; name = b't' ∷ b'o' ∷ [] }

abbrev lacking_symbol : Symbol
lacking_symbol = record { kind = 0; ptr = 0; size = 0; name = [] }

abbrev array_entry : SymbolEntry
array_entry = record { module_name = b'a' ∷ []; number_of_symbols = 1; symbols = at_symbol ∷ [] }

abbrev conv_entry : SymbolEntry
conv_entry = record { module_name = b'c' ∷ []; number_of_symbols = 1; symbols = to_symbol ∷ [] }

-- An index that lists the symbols.
abbrev list_symbols : List SymbolEntry → List Symbol
list_symbols [] = []
list_symbols (e ∷ es) = e.symbols ++ list_symbols es

abbrev index_of : SymbolTable → List Symbol
index_of table = list_symbols table.data'

abbrev by_name : List Symbol → List ℕ → Symbol
by_name [] name = lacking_symbol
by_name (s ∷ ss) name = let rest = by_name ss name in if bytes_eq s.name name then s else rest

abbrev by_addr : List Symbol → ℕ → Symbol
by_addr [] addr = lacking_symbol
by_addr (s ∷ ss) addr = let rest = by_addr ss addr in if s.ptr == addr then s else rest

find_symbol_in_table_array-register_all_example :
    let find_name = find_symbol_in_table_array index_of by_name by_addr in
    let find_addr = find_symbol_from_addr index_of by_name by_addr in
    let first = find_name (register_all (start_reflection []) (array_entry ∷ [])) at_symbol.name in
    let next = register_all first.1 (conv_entry ∷ []) in
    (first.0 ≡ at_symbol)
    × (next.table ≡ table_of (array_entry ∷ conv_entry ∷ []))
    × ((find_name next to_symbol.name).0 ≡ lacking_symbol)
    × ((find_addr next 8192).0 ≡ lacking_symbol)
unfolding bytes_eq
find_symbol_in_table_array-register_all_example =
    find_symbol_in_table_array-register_all index_of by_name by_addr [] (array_entry ∷ [])
      (conv_entry ∷ []) at_symbol.name to_symbol.name 8192 (omega arith)
