-- ===== src/Reflect/Table.antt =====
-- c/reflect.c on Windows: the table of the symbols that modules register, and the index over it
-- that the first lookup makes. `construct_index_table` and the lookups in the index are of
-- core/reflect.yr.
use yruntime.Base.{ℕ, ◌+◌, ◌%◌, ◌^◌, List, [], ◌∷◌, ◌++◌, Bool, true, ◌==◌, if◌then◌else◌, take}

-- `struct ReflectSymbol`, with the bytes of the name.
pub record Symbol : Type 0 where
  pub kind : ℕ
  pub ptr : ℕ
  pub size : ℕ
  pub name : List ℕ

-- `struct ReflectSymbolTableEntry`
pub record SymbolEntry : Type 0 where
  pub module_name : List ℕ
  pub number_of_symbols : ℕ
  pub symbols : List Symbol

-- `struct ReflectSymbolTable`
pub record SymbolTable : Type 0 where
  pub number_of_entries : ℕ
  pub data' : List SymbolEntry

-- `__yrt_reflectSymbolTable__`, `__INDEX_TABLE_CONSTRUCTED__` and the index.
pub record Reflection (Index : Type 0) : Type 0 where
  pub table : SymbolTable
  pub constructed : Bool
  pub index : Index

-- An `unsigned long` has 32 bits on Windows.
unfoldable pub add_entry : SymbolTable → SymbolEntry → SymbolTable
add_entry table entry =
    let nb_entry = table.number_of_entries % 2 ^ 32 in
    if nb_entry == 0 then (record { number_of_entries = 1; data' = entry ∷ [] }) else (record {
      number_of_entries = (nb_entry + 1) % 2 ^ 32;
      data' = take nb_entry table.data' ++ entry ∷ [];
    })

abbrev pub register_symbol_table :
    {Index : Type 0} → Reflection Index → List ℕ → ℕ → List Symbol → Reflection Index
register_symbol_table r module_name number_of_symbols symbols = record r {
  table = add_entry r.table (record {
    module_name = module_name;
    number_of_symbols = number_of_symbols;
    symbols = symbols;
  });
}

module _ {Index : Type 0} (construct_index_table : SymbolTable → Index)
    (in_index : Index → List ℕ → Symbol) (in_index_from_addr : Index → ℕ → Symbol) where
  unfoldable pub ensure_index : Reflection Index → Reflection Index
  ensure_index r =
      if r.constructed
      then r
      else (record r { constructed = true; index = construct_index_table r.table })

  abbrev pub find_symbol_in_table_array : Reflection Index → List ℕ → Symbol × Reflection Index
  find_symbol_in_table_array r name = let r' = ensure_index r in (in_index r'.index name, r')

  abbrev pub find_symbol_from_addr : Reflection Index → ℕ → Symbol × Reflection Index
  find_symbol_from_addr r addr = let r' = ensure_index r in (in_index_from_addr r'.index addr, r')

  abbrev pub find_symbol_from_addr_with_elf_name :
      Reflection Index → ℕ → List ℕ → Symbol × Reflection Index
  find_symbol_from_addr_with_elf_name r addr filename =
      let r' = ensure_index r in (in_index_from_addr r'.index addr, r')
