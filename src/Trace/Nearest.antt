-- ===== src/Trace/Nearest.antt =====
-- c/stacktrace.c: the row that `_yrt_find_in_dwarf` chooses.
use mathlib.Core.Path.{subst}
use yruntime.Base.{
  ℕ, ◌-◌, ◌%◌, ◌^◌, ◌≤◌, ◌<◌, ◌≡◌, ◌≢◌, ◌⊎◌, inl, inr, refl, ap, sym, ◌∙◌, List, [], ◌∷◌, ◌++◌, map,
  some, true, false, ltb, ◌==◌, if◌then◌else◌, All, Bool-cases, ltb→lt, arith,
}
use yruntime.Trace.Lines.{
  Line, DebugInfo, Location, find_dwarf_die, line_dist, line_loop, find_in_dwarf, no_location,
  resolve_address,
}

-- A row that libdwarf reads without an error.
pub record Row : Type 0 where
  pub address : ℕ
  pub source : List ℕ
  pub number : ℕ

abbrev pub row_line : Row → Line
row_line r = record { lineaddr = some r.address; linesrc = some r.source; lineno = some r.number }

abbrev pub location_of : Row → Location
location_of r = record { file = some r.source; line = r.number % 2 ^ 32 }

-- No row is nearer than `max`, and nothing new is found; or the result is one of the rows, nearer
-- than `max`, and no row is nearer than it.
abbrev pub Chosen : (Row → ℕ) → ℕ → Location → List Row → Location → Type 0
Chosen dist max found rows result =
    (All (λ r. max ≤ dist r) rows × (result ≡ found))
    ⊎ ((best : Row) × (dist best < max)
        × All (λ r. dist best ≤ dist r) rows
        × (before : List Row) × (behind : List Row) × (rows ≡ before ++ best ∷ behind)
        × (result ≡ location_of best))

All-map {ℓ κ μ} :
    {A : Type ℓ} {P : A → Type κ} {Q : A → Type μ} (xs : List A)
    → ((x : A) → P x → Q x)
    → All P xs
    → All Q xs
All-map [] f h = tt
All-map (x ∷ xs) f (hx, h) = (f x hx, All-map xs f h)

All-any {ℓ κ} : {A : Type ℓ} {P : A → Type κ} (xs : List A) → ((x : A) → P x) → All P xs
All-any [] f = tt
All-any (x ∷ xs) f = (f x, All-any xs f)

line_loop-row :
    (r : Row) (rest : List Line) (addr max : ℕ) (found : Location)
    → line_loop (row_line r ∷ rest) addr max found ≡ (
        if ltb (line_dist addr r.address) max
        then (if line_dist addr r.address == 0
            then location_of r
            else line_loop rest addr (line_dist addr r.address) (location_of r))
        else line_loop rest addr max found)
unfolding line_loop
line_loop-row r rest addr max found = refl

line_loop-Chosen :
    (rows : List Row) (addr max : ℕ) (found : Location)
    → Chosen
        (λ r. line_dist addr r.address)
        max
        found
        rows
        (line_loop (map row_line rows) addr max found)
line_loop-Chosen [] addr max found = inl (tt, unfold line_loop in refl)
line_loop-Chosen (r ∷ rows) addr max found =
    let step = line_loop-row r (map row_line rows) addr max found in
    let d : ℕ = line_dist addr r.address in
    elim (Bool-cases (ltb d max)) [
      | inr far ↦
          (let e : line_loop (map row_line (r ∷ rows)) addr max found
                ≡ line_loop (map row_line rows) addr max found =
              step ∙ (rw far refl) in
            elim (line_loop-Chosen rows addr max found) [
              | inl (none_near, same) ↦ inl ((ground (arith, far), none_near), e ∙ same)
              | inr (best, near, least, before, behind, split, same) ↦ inr (
                best,
                near,
                (ground (arith, far), least),
                r ∷ before,
                behind,
                ap (λ l. r ∷ l) split,
                e ∙ same,
              )
            ])
      | inl near ↦ (elim (Bool-cases (d == 0)) [
        | inl stop ↦ inr (
          r,
          ground (arith, near),
          (ground arith, All-any rows (λ x. ground (arith, stop))),
          [],
          rows,
          refl,
          step ∙ (rw (near, stop) refl),
        )
        | inr go ↦
            (let e : line_loop (map row_line (r ∷ rows)) addr max found
                  ≡ line_loop (map row_line rows) addr d (location_of r) =
                step ∙ (rw (near, go) refl) in
              elim (line_loop-Chosen rows addr d (location_of r)) [
                | inl (none_near, same) ↦
                    inr
                      (r, ground (arith, near), (ground arith, none_near), [], rows, refl, e ∙ same)
                | inr (best, nearer, least, before, behind, split, same) ↦ inr (
                  best,
                  ground (arith, near, nearer),
                  (ground (arith, nearer), least),
                  r ∷ before,
                  behind,
                  ap (λ l. r ∷ l) split,
                  e ∙ same,
                )
              ])
      ])
    ]

line_dist-behind :
    (addr lineaddr : ℕ)
    → addr < 2 ^ 31
    → lineaddr ≤ addr
    → line_dist addr lineaddr ≡ addr - lineaddr
unfolding line_dist
line_dist-behind addr lineaddr h le = ground arith

line_dist-ahead :
    (addr lineaddr : ℕ)
    → addr < 2 ^ 31
    → lineaddr < 2 ^ 31
    → addr < lineaddr
    → line_dist addr lineaddr ≡ 2 ^ 64 - (lineaddr - addr)
unfolding line_dist
line_dist-ahead addr lineaddr h k lt = ground arith

-- No row starts between the first byte and `addr`, and the result is no location; or the result is
-- the location of a row that starts there, and no such row starts behind it.
abbrev pub Nearest : ℕ → List Row → Location → Type 0
Nearest addr rows result =
    (All (λ r. (r.address ≡ 0) ⊎ (addr < r.address)) rows × (result ≡ no_location))
    ⊎ ((best : Row) × (0 < best.address)
        × (best.address ≤ addr)
        × All (λ r. (addr < r.address) ⊎ (r.address ≤ best.address)) rows
        × (before : List Row) × (behind : List Row) × (rows ≡ before ++ best ∷ behind)
        × (result ≡ location_of best))

abbrev pub IsLow : Row → Type 0
IsLow r = r.address < 2 ^ 31

dist-out :
    (addr a : ℕ) → addr < 2 ^ 31 → a < 2 ^ 31 → addr ≤ line_dist addr a → (a ≡ 0) ⊎ (addr < a)
dist-out addr a h k far = elim (Bool-cases (ltb addr a)) [
  | inl lt ↦ inr (ltb→lt addr a lt)
  | inr le ↦ (let e = line_dist-behind addr a h (ground (arith, le)) in ground (arith, e, far))
]

dist-in : (addr a : ℕ) → addr < 2 ^ 31 → a < 2 ^ 31 → line_dist addr a < addr → (0 < a) × (a ≤ addr)
dist-in addr a h k near = elim (Bool-cases (ltb addr a)) [
  | inl lt ↦ (let e = line_dist-ahead addr a h k (ltb→lt addr a lt) in ground (arith, e, near))
  | inr le ↦ (let e = line_dist-behind addr a h (ground (arith, le)) in ground (arith, e, near, le))
]

All-both {ℓ κ μ} :
    {A : Type ℓ} (P : A → Type κ) (Q : A → Type μ) (xs : List A)
    → All P xs
    → All Q xs
    → All (λ x. P x × Q x) xs
All-both P Q [] h k = tt
All-both P Q (x ∷ xs) (hx, h) (kx, k) = ((hx, kx), All-both P Q xs h k)

All-middle {ℓ κ} :
    {A : Type ℓ} (P : A → Type κ) (before : List A) (x : A) (behind : List A)
    → All P (before ++ x ∷ behind)
    → P x
All-middle P [] x behind (h, _) = h
All-middle P (y ∷ before) x behind (_, h) = All-middle P before x behind h

Chosen-Nearest :
    (addr : ℕ) (rows : List Row) (result : Location)
    → addr < 2 ^ 31
    → All IsLow rows
    → Chosen (λ r. line_dist addr r.address) addr no_location rows result
    → Nearest addr rows result
Chosen-Nearest addr rows result h low (inl (far, same)) = inl (
  All-map rows (λ r p. dist-out addr r.address h p.0 p.1)
      (All-both IsLow (λ r. addr ≤ line_dist addr r.address) rows low far),
  same,
)
Chosen-Nearest addr rows result h low (inr (best, near, least, before, behind, split, same)) =
    let low_best : IsLow best =
      All-middle IsLow before best behind (subst (λ l. All IsLow l) split low) in
    let inside = dist-in addr best.address h low_best near in
    inr (
      best,
      inside.0,
      inside.1,
      All-map rows
          (λ r p. elim (Bool-cases (ltb addr r.address)) [
            | inl lt ↦ inl (ltb→lt addr r.address lt)
            | inr le ↦
                let e = line_dist-behind addr r.address h (ground (arith, le)) in
                let e' = line_dist-behind addr best.address h inside.1 in
                inr (ground (arith, e, e', p, le))
          ])
          least,
      before,
      behind,
      split,
      same,
    )

-- A file with debug information, a unit whose range holds an address below `2 ^ 31`, and rows that
-- libdwarf reads without an error, all below `2 ^ 31`: the location is that of a row that starts at
-- or before the address, and not at 0, such that no row between them is nearer; where there is no
-- such row, no file is found.
pub resolve_address-Nearest :
    (d : DebugInfo) (addr die : ℕ) (rows : List Row)
    → d.descriptor ≢ 0
    → d.init ≡ true
    → find_dwarf_die d addr ≡ some die
    → d.srclines die ≡ some (map row_line rows)
    → addr < 2 ^ 31
    → All IsLow rows
    → Nearest addr rows (resolve_address d addr)
unfolding resolve_address find_in_dwarf find_dwarf_die line_loop
resolve_address-Nearest d addr die rows fd ok in_unit lines h low =
    let open_file : (d.descriptor == 0) ≡ false = ground arith in
    let e : resolve_address d addr ≡ line_loop (map row_line rows) addr addr no_location =
      rw (resolve_address, find_in_dwarf, open_file, ok, in_unit, lines) refl in
    subst (λ r. Nearest addr rows r) (sym e)
      (Chosen-Nearest addr rows _ h low (line_loop-Chosen rows addr addr no_location))
