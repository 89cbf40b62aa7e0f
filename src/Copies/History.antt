-- ===== src/Copies/History.antt =====
-- c/ymemory.c: `_yrt_insert_dcopy_map` and `_yrt_find_dcopy_map` over a history of insertions.
use yruntime.Base.{
  ℕ, ◌+◌, ◌*◌, ◌%◌, ◌^◌, ◌≤◌, ◌<◌, ◌≡◌, refl, ap, sym, ◌∙◌, List, [], ◌∷◌, ◌++◌, some, not, leb,
  ◌==◌, if◌then◌else◌, length, length-append, length-drop, drop, Bool-cases, inl, inr, leb→le,
  append_assoc, append-nil, arith,
}
use yruntime.Copies.Map.{
  DcopyMap, store, purge_dcopy_map, dcopy_map_is_started, find_dcopy_map, copy_loop, dcopy_map_grow,
  insert_dcopy_map, insert_all, find_loop,
}
use yruntime.Copies.Refines.{
  Represents, lookup, keys, values, copy_loop-append, find_loop-lookup, store-append, length-keys,
  length-values, keys-append, values-append,
}

copy_loop-whole :
    (n : ℕ) (source target : List ℕ)
    → length source ≡ n
    → n ≤ length target
    → copy_loop n 0 source target ≡ some (source ++ drop n target)
copy_loop-whole n source target h k = rw (← h) (copy_loop-append [] source target (omega arith))

-- The length of the arrays after `_yrt_dcopy_map_grow`.
abbrev pub grown_len : ℕ → ℕ
grown_len len = if len == 0 then 10 else len * 2 % 2 ^ 64

grown_len-bounds : (len : ℕ) → len < 2 ^ 60 → (len < grown_len len) × (grown_len len < 2 ^ 61)
grown_len-bounds len h = (ground arith, ground arith)

-- A word behind the used ones takes the place of an unused one.
store-spare :
    (words front spare : List ℕ) (n value : ℕ)
    → words ≡ front ++ spare
    → n ≡ length front
    → n < length words
    → (spare' : List ℕ) × (store words n value ≡ some (front ++ value ∷ spare'))
      × (length (front ++ value ∷ spare') ≡ length words)
store-spare words front [] n value h k room =
    let none_left : List ℕ = [] in
    absurd (omega (arith, ap length h, length-append front none_left))
store-spare words front (x ∷ spare) n value h k room = (
  spare,
  rw (h, k) (store-append front spare x value),
  omega (arith, ap length h, length-append front (x ∷ spare), length-append front (value ∷ spare)),
)

used-bounded : (m : DcopyMap) (es : List (ℕ × ℕ)) → Represents m es → m.used ≤ m.len
used-bounded m es r =
    omega (arith, ap length r.from_words, length-append (keys es) r.spare_from, length-keys es)

-- Where the arrays have room, the entry goes behind the others.
write_entry :
    (m : DcopyMap) (es : List (ℕ × ℕ)) (key value : ℕ)
    → Represents m es
    → m.used < m.len
    → m.len < 2 ^ 62
    → (from' to' : List ℕ) × (store m.from m.used key ≡ some from')
      × (store m.to m.used value ≡ some to')
      × Represents
          (record { len = m.len; used = (m.used + 1) % 2 ^ 64; from = from'; to = to' })
          (es ++ (key, value) ∷ [])
write_entry m es key value r room small =
    let in_from =
      store-spare m.from (keys es) r.spare_from m.used key r.from_words
        (omega (arith, length-keys es)) (omega arith) in
    let in_to =
      store-spare m.to (values es) r.spare_to m.used value r.to_words
        (omega (arith, length-values es)) (omega arith) in
    (
      keys es ++ key ∷ in_from.0,
      values es ++ value ∷ in_to.0,
      in_from.1,
      in_to.1,
      record {
        spare_from = in_from.0;
        spare_to = in_to.0;
        from_words = rw (keys-append, append_assoc) refl;
        to_words = rw (values-append, append_assoc) refl;
        used_count = omega (arith, length-append es ((key, value) ∷ []));
        from_size = in_from.2 ∙ r.from_size;
        to_size = in_to.2 ∙ r.to_size;
      },
    )

-- `gc_malloc` returns as many words as were asked for.
module _ (gc_malloc : ℕ → List ℕ) (gc_malloc-size : (n : ℕ) → length (gc_malloc (n * 8)) ≡ n) where
  pub dcopy_map_grow-Represents :
      (m : DcopyMap) (es : List (ℕ × ℕ))
      → Represents m es
      → m.len < 2 ^ 60
      → (m' : DcopyMap) × (dcopy_map_grow gc_malloc m ≡ some m')
        × Represents m' es
        × (m.len < m'.len)
        × (m'.len ≡ grown_len m.len)
  unfolding dcopy_map_grow
  dcopy_map_grow-Represents m es r small =
      let len' = grown_len m.len in
      let words = gc_malloc (len' * 8 % 2 ^ 64) in
      let bounds = grown_len-bounds m.len small in
      let bytes : len' * 8 % 2 ^ 64 ≡ len' * 8 = omega (arith, bounds.0, bounds.1) in
      let size : length words ≡ len' = rw bytes (gc_malloc-size len') in
      let copied_from = copy_loop-whole m.len m.from words r.from_size (omega (arith, bounds.0)) in
      let copied_to = copy_loop-whole m.len m.to words r.to_size (omega (arith, bounds.0)) in
      (
        record {
          len = len';
          used = m.used;
          from = m.from ++ drop m.len words;
          to = m.to ++ drop m.len words;
        },
        rw (copied_from, copied_to) refl,
        record {
          spare_from = r.spare_from ++ drop m.len words;
          spare_to = r.spare_to ++ drop m.len words;
          from_words = rw r.from_words (append_assoc (keys es) r.spare_from _);
          to_words = rw r.to_words (append_assoc (values es) r.spare_to _);
          used_count = r.used_count;
          from_size = omega (
            arith,
            length-append m.from (drop m.len words),
            length-drop m.len words,
            r.from_size,
            bounds.0,
          );
          to_size = omega (
            arith,
            length-append m.to (drop m.len words),
            length-drop m.len words,
            r.to_size,
            bounds.0,
          );
        },
        bounds.0,
        refl,
      )

  insert_dcopy_map-Represents :
      (m : DcopyMap) (es : List (ℕ × ℕ)) (key value : ℕ)
      → Represents m es
      → m.len ≤ 10 + 2 * length es
      → length es < 2 ^ 58
      → (m' : DcopyMap) × (insert_dcopy_map gc_malloc m key value ≡ some m')
        × Represents m' (es ++ (key, value) ∷ [])
        × (m'.len ≤ 10 + 2 * length es)
        × (m.len ≤ m'.len)
        × (0 < m'.len)
  unfolding insert_dcopy_map
  insert_dcopy_map-Represents m es key value r bound small = elim (Bool-cases (leb m.len m.used)) [
    | inl full ↦
        let fact = leb→le _ _ full in
        let (g, grow_ok, rg, wider, size) = dcopy_map_grow-Represents m es r (omega arith) in
        let same : m.used ≡ g.used = r.used_count ∙ sym rg.used_count in
        let doubled : grown_len m.len ≤ 10 + 2 * m.len = ground arith in
        let room : g.used < g.len = omega (arith, used-bounded m es r) in
        let (from', to', from_ok, to_ok, written) =
          write_entry g es key value rg room (omega arith) in
        let in_from : store g.from m.used key ≡ some from' =
          ap (λ u. store g.from u key) same ∙ from_ok in
        let in_to : store g.to m.used value ≡ some to' =
          ap (λ u. store g.to u value) same ∙ to_ok in
        (_, rw (full, grow_ok, in_from, in_to) refl, written, omega arith, omega arith, omega arith)
    | inr has_room ↦
        let room : m.used < m.len = ground arith in
        let (from', to', from_ok, to_ok, written) =
          write_entry m es key value r room (omega arith) in
        (_, rw (has_room, from_ok, to_ok) refl, written, bound, omega arith, omega arith)
  ]

  insert_all-Represents :
      (new es : List (ℕ × ℕ)) (m : DcopyMap)
      → Represents m es
      → m.len ≤ 10 + 2 * length es
      → length es + length new < 2 ^ 58
      → (m' : DcopyMap) × (insert_all gc_malloc new m ≡ some m')
        × Represents m' (es ++ new)
        × (m.len ≤ m'.len)
        × (0 < length new → 0 < m'.len)
        × (length new ≡ 0 → m'.len ≡ m.len)
  insert_all-Represents [] es m r bound small =
      (m, refl, rw append-nil r, omega arith, λ h. absurd (omega arith), λ h. refl)
  insert_all-Represents (e ∷ new) es m r bound small =
      let (m', step, r', bound', wider, used') =
        insert_dcopy_map-Represents m es (e.0) (e.1) r bound (omega arith) in
      let (m'', steps, r'', wider', used'', same) =
        insert_all-Represents new (es ++ e ∷ []) m' r' (omega (arith, length-append es (e ∷ [])))
          (omega (arith, length-append es (e ∷ []))) in
      (
        m'',
        rw (step, steps) refl,
        rw (← append_assoc es (e ∷ []) new) r'',
        omega arith,
        λ h. omega arith,
        λ h. absurd (omega arith),
      )

find_dcopy_map-lookup :
    (m : DcopyMap) (es : List (ℕ × ℕ)) (key : ℕ)
    → Represents m es
    → find_dcopy_map m key ≡ some (lookup key es)
unfolding find_dcopy_map
find_dcopy_map-lookup m es key r =
    ap (λ n. find_loop n 0 m key) r.used_count
    ∙ (find_loop-lookup m key es [] [] r.spare_from r.spare_to r.from_words r.to_words refl)

-- The map that `_yrt_purge_dcopy_map` leaves holds nothing.
purge_dcopy_map-Represents : (m : DcopyMap) → Represents (purge_dcopy_map m) []
purge_dcopy_map-Represents m = record {
  spare_from = [];
  spare_to = [];
  from_words = refl;
  to_words = refl;
  used_count = refl;
  from_size = refl;
  to_size = refl;
}

-- Where `GC_malloc` returns blocks of the size asked for: fewer than 2^58 insertions into a
-- purged map write nothing out of bounds. `_yrt_find_dcopy_map` then finds for each key the copy
-- that was inserted for it first, or NULL, and the map counts as started where there was one
-- insertion at least.
pub insert_all-find :
    (gc_malloc : ℕ → List ℕ) (before : DcopyMap) (history : List (ℕ × ℕ))
    → ((n : ℕ) → length (gc_malloc (n * 8)) ≡ n)
    → length history < 2 ^ 58
    → (m : DcopyMap) × (insert_all gc_malloc history (purge_dcopy_map before) ≡ some m)
      × ((key : ℕ) → find_dcopy_map m key ≡ some (lookup key history))
      × (dcopy_map_is_started m ≡ not (length history == 0))
insert_all-find gc_malloc before history size small =
    let (m, run, r, wider, used, same) =
      insert_all-Represents gc_malloc size history [] (purge_dcopy_map before)
        (purge_dcopy_map-Represents before) (omega arith) (omega arith) in
    (m, run, λ key. find_dcopy_map-lookup m history key r, ground arith)
