-- ===== src/Unwind/Written.antt =====
-- c/personality.c: a table as a compiler writes it, with numbers in LEB128, scanned back.
use mathlib.Core.Path.{subst}
use yruntime.Base.{
  ℕ, ◌+◌, ◌^◌, ◌≤◌, ◌<◌, ◌≡◌, refl, sym, List, [], ◌∷◌, ◌++◌, none, ◌==◌, length, length-append,
  All, Bool-cases, inl, inr, arith,
}
use yruntime.Unwind.Memory.{Memory, ok, Holds}
use yruntime.Unwind.Leb.{IsLeb, leb_value}
use yruntime.Unwind.Leb.Decode.{read_uleb128-leb_value}
use yruntime.Unwind.Encoded.{
  base_of_encoded_value, read_format, relocate, read_encoded_value_with_base, read_encoded_value,
}
use yruntime.Unwind.Scan.{Table, Entry, read_site}
use yruntime.Unwind.Scan.Sites.{Sites, done, site}

-- The bytes of a number.
abbrev pub IsNumber : List ℕ → Type 0
IsNumber bs = IsLeb bs × (length bs ≤ 10) × (leb_value bs < 2 ^ 64)

-- A call site by the bytes of its four numbers.
pub record CallSite : Type 0 where
  pub start : List ℕ
  pub len : List ℕ
  pub pad : List ℕ
  pub action : List ℕ

abbrev pub AreNumbers : CallSite → Type 0
AreNumbers c = IsNumber c.start × IsNumber c.len × IsNumber c.pad × IsNumber c.action

abbrev pub site_bytes : CallSite → List ℕ
site_bytes c = c.start ++ (c.len ++ (c.pad ++ c.action))

abbrev pub sites_bytes : List CallSite → List ℕ
sites_bytes [] = []
sites_bytes (c ∷ cs) = site_bytes c ++ sites_bytes cs

-- The entry that a call site at `p` is read as.
abbrev pub entry_at : ℕ → CallSite → Entry
entry_at p c = record {
  start = leb_value c.start;
  len = leb_value c.len;
  pad = leb_value c.pad;
  action = leb_value c.action;
  behind = p + length c.start + length c.len + length c.pad + length c.action;
}

abbrev pub entries : ℕ → List CallSite → List Entry
entries p [] = []
entries p (c ∷ cs) = entry_at p c ∷ entries (entry_at p c).behind cs

-- Without a base for the landing pads, with a type table and call sites in LEB128.
abbrev pub header_bytes : ℕ → List ℕ → List ℕ → List ℕ
header_bytes encoding offset size = 0xff ∷ encoding ∷ (offset ++ 0x01 ∷ size)

pub Holds-front : (mem : Memory) (p : ℕ) (xs ys : List ℕ) → Holds mem p (xs ++ ys) → Holds mem p xs
Holds-front mem p [] ys h = tt
Holds-front mem p (x ∷ xs) ys (here, small, h) = (here, small, Holds-front mem (p + 1) xs ys h)

pub Holds-back :
    (mem : Memory) (p : ℕ) (xs ys : List ℕ) → Holds mem p (xs ++ ys) → Holds mem (p + length xs) ys
Holds-back mem p [] ys h = subst (λ q. Holds mem q ys) (omega arith) h
Holds-back mem p (x ∷ xs) ys (here, small, h) =
    subst (λ q. Holds mem q ys) (omega arith) (Holds-back mem (p + 1) xs ys h)

read_number :
    (bs : List ℕ) (slot : ℕ) (mem : Memory) (p : ℕ)
    → Holds mem p bs
    → IsNumber bs
    → read_encoded_value none 0x01 slot mem p ≡ ok (leb_value bs, p + length bs)
unfolding read_encoded_value base_of_encoded_value read_encoded_value_with_base read_format relocate
read_number bs slot mem p h (leb, short, small) =
    let read = read_uleb128-leb_value bs mem p h leb short small in
    rw read (elim (Bool-cases (leb_value bs == 0)) [
      | inl z ↦ rw z (ground (arith, z))
      | inr nz ↦ rw nz (ground arith)
    ])

read_site-entry_at :
    (t : Table) (mem : Memory) (p : ℕ) (c : CallSite)
    → t.encoding ≡ 0x01
    → Holds mem p (site_bytes c)
    → AreNumbers c
    → read_site t mem p ≡ ok (entry_at p c)
unfolding read_site
read_site-entry_at t mem p c leb h (start, len, pad, action) =
    let h1 = Holds-back mem p c.start (c.len ++ (c.pad ++ c.action)) h in
    let h2 = Holds-back mem (p + length c.start) c.len (c.pad ++ c.action) h1 in
    let h3 = Holds-back mem (p + length c.start + length c.len) c.pad c.action h2 in
    let r0 = read_number c.start t.slot mem p (Holds-front mem p c.start _ h) start in
    let r1 = read_number c.len t.slot mem (p + length c.start) (Holds-front mem _ c.len _ h1) len in
    let r2 =
      read_number c.pad t.slot mem (p + length c.start + length c.len)
        (Holds-front mem _ c.pad _ h2) pad in
    let (leb3, short3, small3) = action in
    let r3 =
      read_uleb128-leb_value c.action mem (p + length c.start + length c.len + length c.pad) h3 leb3
        short3 small3 in
    rw (leb, r0, r1, r2, r3) refl

length-site_bytes : (p : ℕ) (c : CallSite) → (entry_at p c).behind ≡ p + length (site_bytes c)
length-site_bytes p c = omega (
  arith,
  length-append c.start (c.len ++ (c.pad ++ c.action)),
  length-append c.len (c.pad ++ c.action),
  length-append c.pad c.action,
)

number-long : (bs : List ℕ) → IsLeb bs → 0 < length bs
number-long [] h = absurd h
number-long (b ∷ bs) h = omega arith

pub entries-Sites :
    (t : Table) (mem : Memory) (p : ℕ) (cs : List CallSite)
    → t.encoding ≡ 0x01
    → t.action_table ≡ p + length (sites_bytes cs)
    → Holds mem p (sites_bytes cs)
    → All AreNumbers cs
    → Sites t mem p (entries p cs)
entries-Sites t mem p [] leb end h n = done (omega arith)
entries-Sites t mem p (c ∷ cs) leb end h (nc, n) =
    let behind = length-site_bytes p c in
    let size = length-append (site_bytes c) (sites_bytes cs) in
    let long = number-long c.start nc.0.0 in
    let total = length-append c.start (c.len ++ (c.pad ++ c.action)) in
    let back =
      subst (λ q. Holds mem q (sites_bytes cs)) (sym behind)
        (Holds-back mem p (site_bytes c) (sites_bytes cs) h) in
    site (omega (arith, size, total, long, end))
      (read_site-entry_at t mem p c leb (Holds-front mem p (site_bytes c) (sites_bytes cs) h) nc)
      (entries-Sites t mem (entry_at p c).behind cs leb (omega (arith, behind, size, end)) back n)

-- No more entries than bytes.
pub length-entries :
    (p : ℕ) (cs : List CallSite)
    → All AreNumbers cs
    → length (entries p cs) ≤ length (sites_bytes cs)
length-entries p [] n = omega arith
length-entries p (c ∷ cs) (nc, n) = omega (
  arith,
  length-entries (entry_at p c).behind cs n,
  length-append (site_bytes c) (sites_bytes cs),
  number-long c.start nc.0.0,
  length-append c.start (c.len ++ (c.pad ++ c.action)),
)
