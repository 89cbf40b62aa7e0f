-- ===== src/Unwind/Scan/Progress.antt =====
-- c/personality.c: the call-site loop ends.
use Prim.Native.Nat.{bit_and}
use Prim.Native.Nat.{◌%◌, ◌^◌}
use yruntime.Base.{
  ℕ, zero, suc, ◌+◌, ◌≤◌, ◌<◌, ◌≡◌, ◌≢◌, arith, Bool, ◌||◌, if◌then◌else◌, none, true, false, ltb,
  ◌==◌, Option-cases, Bool-cases, ltb→lt, inl, inr,
}
use yruntime.Unwind.Memory.{
  Memory, Outcome, ok, terminated, fault, ◌>>=◌, load_byte, read_unaligned,
}
use yruntime.Unwind.Leb.{add_group, uleb_loop, read_uleb128, sleb_loop, read_sleb128}
use yruntime.Unwind.Encoded.{
  omit, aligned, base_of_encoded_value, read_sized, read_format, relocate,
  read_encoded_value_with_base, read_encoded_value,
}
use yruntime.Unwind.Scan.{Site, Table, Entry, read_site, site_loop}

-- No lack of fuel, and where there is a result the pointer has moved on from `p`.
data Advances (p : ℕ) : Outcome (ℕ × ℕ) → Type 0 where
  moves : {v q : ℕ} → p ≤ q → Advances p (ok (v, q))
  aborts : Advances p terminated
  faults : Advances p fault

-- Not `no_fuel`.
pub data HasFuel {ℓ} {A : Type ℓ} : Outcome A → Type ℓ where
  gives : {a : A} → HasFuel (ok a)
  aborts : HasFuel terminated
  faults : HasFuel fault

load_byte-HasFuel : (mem : Memory) (p : ℕ) → HasFuel (load_byte mem p)
unfolding load_byte
load_byte-HasFuel mem p = elim (Option-cases (mem p)) [
  | inl unmapped ↦ rw (unmapped, load_byte) HasFuel.faults
  | inr (b, e) ↦ rw (e, load_byte) gives
]

weaken : {p q : ℕ} {r : Outcome (ℕ × ℕ)} → p ≤ q → Advances q r → Advances p r
weaken h (moves k) = moves (omega arith)
weaken h aborts = aborts
weaken h faults = faults

-- The step of a loop behind the byte that it loads.
byte_step :
    {p : ℕ} {m : Outcome ℕ} (f : ℕ → Outcome (ℕ × ℕ))
    → HasFuel m
    → ((b : ℕ) → Advances p (f b))
    → Advances p (m >>= f)
byte_step f gives k = k _
byte_step f aborts k = aborts
byte_step f faults k = faults

bind-HasFuel {ℓ κ} :
    {A : Type ℓ} {B : Type κ} {m : Outcome A} (f : A → Outcome B)
    → HasFuel m
    → ((a : A) → HasFuel (f a))
    → HasFuel (m >>= f)
bind-HasFuel f gives k = k _
bind-HasFuel f aborts k = aborts
bind-HasFuel f faults k = faults

-- A choice of two reads.
choice :
    {p : ℕ} (b : Bool) {r r' : Outcome (ℕ × ℕ)}
    → Advances p r
    → Advances p r'
    → Advances p (if b then r else r')
choice true h k = h
choice false h k = k

uleb_loop-Advances :
    (rounds : ℕ) (mem : Memory) (p result shift : ℕ)
    → Advances (p + 1) (uleb_loop rounds mem p result shift)
unfolding uleb_loop
uleb_loop-Advances zero mem p result shift = faults
uleb_loop-Advances (suc rounds) mem p result shift = byte_step _ (load_byte-HasFuel mem p) λ b.
    choice (ltb shift 64)
      (choice (bit_and b 0x80 == 0) (moves (omega arith)) (
        weaken (omega arith)
          (uleb_loop-Advances rounds mem (p + 1) (add_group result b shift) (shift + 7))))
      faults

sleb_loop-Advances :
    (rounds : ℕ) (mem : Memory) (p result shift : ℕ)
    → Advances (p + 1) (sleb_loop rounds mem p result shift)
unfolding sleb_loop
sleb_loop-Advances zero mem p result shift = faults
sleb_loop-Advances (suc rounds) mem p result shift = byte_step _ (load_byte-HasFuel mem p) λ b.
    choice (ltb shift 64)
      (choice (bit_and b 0x80 == 0) (moves (omega arith)) (
        weaken (omega arith)
          (sleb_loop-Advances rounds mem (p + 1) (add_group result b shift) (shift + 7))))
      faults

read_unaligned-HasFuel : (size : ℕ) (mem : Memory) (p : ℕ) → HasFuel (read_unaligned size mem p)
unfolding read_unaligned
read_unaligned-HasFuel zero mem p = gives
read_unaligned-HasFuel (suc size) mem p =
    bind-HasFuel _ (load_byte-HasFuel mem p)
      λ b. bind-HasFuel _ (read_unaligned-HasFuel size mem (p + 1)) λ high. gives

read_sized-Advances : (size : ℕ) (mem : Memory) (p : ℕ) → Advances p (read_sized size mem p)
unfolding read_sized
read_sized-Advances size mem p =
    byte_step _ (read_unaligned-HasFuel size mem p) λ x. moves (omega arith)

read_uleb128-Advances : (mem : Memory) (p : ℕ) → Advances (p + 1) (read_uleb128 mem p)
unfolding read_uleb128
read_uleb128-Advances mem p = uleb_loop-Advances 10 mem p 0 0

read_sleb128-Advances : (mem : Memory) (p : ℕ) → Advances (p + 1) (read_sleb128 mem p)
unfolding read_sleb128
read_sleb128-Advances mem p = sleb_loop-Advances 10 mem p 0 0

read_format-Advances : (format : ℕ) (mem : Memory) (p : ℕ) → Advances p (read_format format mem p)
unfolding read_format
read_format-Advances format mem p = choice _ (weaken (omega arith) (read_uleb128-Advances mem p)) (
    choice _ (weaken (omega arith) (read_sleb128-Advances mem p)) (
      choice _ (read_sized-Advances 2 mem p) (
        choice _ (read_sized-Advances 4 mem p) (
          choice _ (read_sized-Advances 8 mem p) (choice _ (read_sized-Advances 8 mem p) aborts)))))

choice-HasFuel {ℓ} :
    {A : Type ℓ} (b : Bool) {r r' : Outcome A}
    → HasFuel r
    → HasFuel r'
    → HasFuel (if b then r else r')
choice-HasFuel true h k = h
choice-HasFuel false h k = k

relocate-HasFuel :
    (encoding base slot : ℕ) (mem : Memory) (result : ℕ)
    → HasFuel (relocate encoding base slot mem result)
unfolding relocate
relocate-HasFuel encoding base slot mem result =
    choice-HasFuel (result == 0) gives
      (choice-HasFuel (bit_and encoding 0x80 == 0) gives (read_unaligned-HasFuel 8 mem _))

base-HasFuel : (encoding : ℕ) → HasFuel (base_of_encoded_value encoding none)
unfolding base_of_encoded_value
base-HasFuel encoding = choice-HasFuel (encoding == omit) gives (
    choice-HasFuel ((field == 0x00) || (field == 0x10) || (field == 0x50)) gives (
      choice-HasFuel (field == 0x20) faults
        (choice-HasFuel (field == 0x30) faults (choice-HasFuel (field == 0x40) faults aborts))))
  where
    field : ℕ
    field = bit_and encoding 0x70

pair_step :
    {p : ℕ} {r : Outcome (ℕ × ℕ)} (g : ℕ → Outcome ℕ)
    → Advances p r
    → ((w : ℕ) → HasFuel (g w))
    → Advances p (◌>>=◌ {B = ℕ × ℕ} r (λ (w, q). g w >>= λ value. ok (value, q)))
pair_step g (moves h) k = byte_step _ (k _) (λ value. moves h)
pair_step g aborts k = aborts
pair_step g faults k = faults

read_encoded-Advances :
    (encoding slot : ℕ) (mem : Memory) (p : ℕ)
    → encoding ≢ aligned
    → Advances p (read_encoded_value none encoding slot mem p)
unfolding read_encoded_value read_encoded_value_with_base
read_encoded-Advances encoding slot mem p ne =
    let plain : (encoding == aligned) ≡ false = ground arith in
    byte_step _ (base-HasFuel encoding) λ base. rw plain (
      pair_step (relocate encoding base slot mem) (read_format-Advances _ mem p)
        (relocate-HasFuel encoding base slot mem))

-- An entry ends behind the place where it begins.
data Passes (p : ℕ) : Outcome Entry → Type 0 where
  passes : {e : Entry} → p < e.behind → Passes p (ok e)
  aborts : Passes p terminated
  faults : Passes p fault

read_step :
    {p low : ℕ} {r : Outcome (ℕ × ℕ)} (f : ℕ × ℕ → Outcome Entry)
    → Advances low r
    → ((v q : ℕ) → low ≤ q → Passes p (f (v, q)))
    → Passes p (r >>= f)
read_step f (moves h) k = k _ _ h
read_step f aborts k = aborts
read_step f faults k = faults

read_site-Passes :
    (t : Table) (mem : Memory) (p : ℕ) → t.encoding ≢ aligned → Passes p (read_site t mem p)
unfolding read_site
read_site-Passes t mem p ne =
    read_step _ (read_encoded-Advances t.encoding t.slot mem p ne) λ start q1 h1.
      read_step _ (read_encoded-Advances t.encoding t.slot mem q1 ne) λ len q2 h2.
        read_step _ (read_encoded-Advances t.encoding t.slot mem q2 ne) λ pad q3 h3.
          read_step _ (read_uleb128-Advances mem q3) λ action q4 h4. passes (omega arith)

site_step :
    {p : ℕ} {r : Outcome Entry} (f : Entry → Outcome Site)
    → Passes p r
    → ((e : Entry) → p < e.behind → HasFuel (f e))
    → HasFuel (r >>= f)
site_step f (passes h) k = k _ h
site_step f aborts k = aborts
site_step f faults k = faults

-- Unless the call sites have the aligned encoding, the loop ends, with a site, an abort or a
-- fault, on fuel for one round more than there are bytes to the end of the table; what memory
-- holds does not matter.
pub site_loop-HasFuel :
    (fuel : ℕ) (t : Table) (mem : Memory) (p : ℕ) (site : Site)
    → t.encoding ≢ aligned
    → 0 < fuel
    → t.action_table < p + fuel
    → HasFuel (site_loop fuel t mem p site)
unfolding site_loop
site_loop-HasFuel zero t mem p site ne pos h = absurd (omega arith)
site_loop-HasFuel (suc fuel) t mem p site ne pos h = elim (Bool-cases (ltb p t.action_table)) [
  | inl inside ↦ rw inside (
      site_step _ (read_site-Passes t mem p ne) λ e moved.
        choice-HasFuel (ltb t.ip ((t.start + e.start) % 2 ^ 64)) gives (
          choice-HasFuel (ltb t.ip ((t.start + e.start + e.len) % 2 ^ 64)) gives (
            site_loop-HasFuel fuel t mem e.behind site ne (omega (arith, ltb→lt _ _ inside))
              (omega arith))))
  | inr outside ↦ rw outside gives
]
