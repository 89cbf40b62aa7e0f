-- ===== src/Reflect/Registered.antt =====
-- c/reflect.c on Windows: which modules the lookups see.
use yruntime.Base.{
  ℕ, ◌+◌, ◌%◌, ◌^◌, ◌<◌, ◌≡◌, refl, sym, ap, ◌∙◌, List, [], ◌∷◌, ◌++◌, append-nil, append_assoc,
  true, false, ◌==◌, take, take-append_length, length, length-append, arith,
}
use yruntime.Reflect.Table.{
  Symbol, SymbolEntry, SymbolTable, Reflection, add_entry, register_symbol_table, ensure_index,
  find_symbol_in_table_array, find_symbol_from_addr,
}

-- The modules of a list, registered one behind the other.
unfoldable pub register_all :
    {Index : Type 0} → Reflection Index → List SymbolEntry → Reflection Index
register_all r [] = r
register_all r (e ∷ es) =
    register_all (register_symbol_table r e.module_name e.number_of_symbols e.symbols) es

-- The table that has the entries of a list.
abbrev pub table_of : List SymbolEntry → SymbolTable
table_of es = record { number_of_entries = length es; data' = es }

-- Nothing is registered, and there is no index yet.
abbrev pub start_reflection : {Index : Type 0} → Index → Reflection Index
start_reflection i = record { table = table_of []; constructed = false; index = i }

add_entry-table_of :
    (es : List SymbolEntry) (e : SymbolEntry)
    → length es + 1 < 2 ^ 32
    → add_entry (table_of es) e ≡ table_of (es ++ e ∷ [])
unfolding add_entry
add_entry-table_of [] e h = refl
add_entry-table_of (x ∷ es) e h =
    let n = length (x ∷ es) in
    let same : n % 2 ^ 32 ≡ n = omega arith in
    let filled : (n == 0) ≡ false = ground arith in
    let whole : take (length es) es ≡ es =
      sym (ap (take (length es)) (append-nil es)) ∙ take-append_length es [] in
    let count : (n + 1) % 2 ^ 32 ≡ length ((x ∷ es) ++ e ∷ []) =
      omega (arith, length-append (x ∷ es) (e ∷ [])) in
    rw (same, filled, whole, count) refl

module _ {Index : Type 0} where
  register_all-table :
      (r : Reflection Index) (front es : List SymbolEntry)
      → r.table ≡ table_of front
      → length front + length es < 2 ^ 32
      → register_all r es ≡ record r { table = table_of (front ++ es) }
  unfolding register_all
  register_all-table r front [] t small =
      ap (λ t. record r { table = t }) (t ∙ ap table_of (sym (append-nil front)))
  register_all-table r front (e ∷ es) t small =
      let one = add_entry-table_of front e (omega arith) in
      let r' = register_symbol_table r e.module_name e.number_of_symbols e.symbols in
      let t' : r'.table ≡ table_of (front ++ e ∷ []) = ap (λ t. add_entry t e) t ∙ one in
      register_all-table r' (front ++ e ∷ []) es t' (omega (arith, length-append front (e ∷ [])))
      ∙ ap (λ es. record r { table = table_of es }) (append_assoc front (e ∷ []) es)

-- From the start, for fewer than 2^32 modules: the first lookup of a name looks in the index over
-- the modules that are registered so far, in their order; after it, modules that are registered
-- later are in the table, and no lookup, by name or by address, sees them.
pub find_symbol_in_table_array-register_all :
    {Index : Type 0} (construct_index_table : SymbolTable → Index)
    (in_index : Index → List ℕ → Symbol) (in_index_from_addr : Index → ℕ → Symbol) (i : Index)
    (es later : List SymbolEntry) (name name' : List ℕ) (addr : ℕ)
    → length es + length later < 2 ^ 32
    → let find_name =
        find_symbol_in_table_array construct_index_table in_index in_index_from_addr in
      let find_addr = find_symbol_from_addr construct_index_table in_index in_index_from_addr in
      let first = find_name (register_all (start_reflection i) es) name in
      let next = register_all first.1 later in
      let known = construct_index_table (table_of es) in
      (first.0 ≡ in_index known name)
      × (next.table ≡ table_of (es ++ later))
      × ((find_name next name').0 ≡ in_index known name')
      × ((find_addr next addr).0 ≡ in_index_from_addr known addr)
unfolding ensure_index
find_symbol_in_table_array-register_all construct_index_table in_index in_index_from_addr i es later
      name name' addr small =
    let before = register_all-table (start_reflection i) [] es refl (omega arith) in
    let indexed : Reflection _ = record {
      table = table_of es;
      constructed = true;
      index = construct_index_table (table_of es);
    } in
    let after = register_all-table indexed es later refl small in
    rw (before, after) (refl, refl, refl, refl)
