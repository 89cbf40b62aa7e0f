-- ===== src/Unwind/Scan/Sites.antt =====
-- c/personality.c: what the call-site loop finds in a table of ranges.
use yruntime.Base.{
  ℕ, zero, suc, ◌+◌, ◌%◌, ◌^◌, ◌≤◌, ◌<◌, ◌≡◌, refl, ◌∙◌, List, [], ◌∷◌, ◌++◌, length, All, arith,
  lt→ltb, le→ltb_false,
}
use native.Mathlib.Decide.{dec_lt}
use yruntime.Unwind.Memory.{Memory, ok}
use yruntime.Unwind.Scan.{Site, Table, Entry, read_site, site_of, site_loop}

-- The entries of the table from a place on, as they are read.
pub data Sites (t : Table) (mem : Memory) : ℕ → List Entry → Type 0 where
  done : {p : ℕ} → t.action_table ≤ p → Sites t mem p []
  site :
      {p : ℕ} {e : Entry} {es : List Entry}
      → p < t.action_table
      → read_site t mem p ≡ ok e
      → Sites t mem e.behind es
      → Sites t mem p (e ∷ es)

abbrev pub first_ip : Table → Entry → ℕ
first_ip t e = t.start + e.start

abbrev pub end_ip : Table → Entry → ℕ
end_ip t e = t.start + e.start + e.len

-- The ranges stand in order from `low` on, and none reaches the end of the address space.
abbrev pub IsOrdered : Table → ℕ → List Entry → Type 0
IsOrdered t low [] = Unit {0}
IsOrdered t low (e ∷ es) =
    (low ≤ first_ip t e) × (end_ip t e < 2 ^ 64) × IsOrdered t (end_ip t e) es

abbrev pub Covers : Table → Entry → Type 0
Covers t e = (first_ip t e ≤ t.ip) × (t.ip < end_ip t e)

low-le :
    (t : Table) (low : ℕ) (before : List Entry) (e : Entry) (after : List Entry)
    → IsOrdered t low (before ++ e ∷ after)
    → low ≤ first_ip t e
low-le t low [] e after (h, _, _) = h
low-le t low (b ∷ before) e after (h, _, o) = omega (arith, low-le t (end_ip t b) before e after o)

-- A round on an entry that ends at or below `ip`.
site_loop-pass :
    (fuel : ℕ) (t : Table) (mem : Memory) (p : ℕ) (s : Site) (e : Entry)
    → p < t.action_table
    → read_site t mem p ≡ ok e
    → end_ip t e ≤ t.ip
    → end_ip t e < 2 ^ 64
    → site_loop (suc fuel) t mem p s ≡ site_loop fuel t mem e.behind s
unfolding site_loop
site_loop-pass fuel t mem p s e inside r low small =
    let first : first_ip t e % 2 ^ 64 ≡ first_ip t e = omega arith in
    let end : end_ip t e % 2 ^ 64 ≡ end_ip t e = omega arith in
    rw (lt→ltb _ _ inside, r, first, end, le→ltb_false _ _ low)
      (rw (le→ltb_false t.ip (first_ip t e) (omega arith)) refl)

-- In a table in order, the loop takes the landing pad and the action of the entry that covers the
-- instruction, if it runs on fuel for one entry more than the table has.
pub site_loop-Covers :
    {t : Table} {mem : Memory} {p : ℕ} (fuel low : ℕ) (s : Site) (before : List Entry) (e : Entry)
    (after : List Entry)
    → Sites t mem p (before ++ e ∷ after)
    → IsOrdered t low (before ++ e ∷ after)
    → Covers t e
    → length (before ++ e ∷ after) < fuel
    → site_loop fuel t mem p s ≡ ok (site_of t e s)
site_loop-Covers zero low s before e after m o c h = absurd (omega arith)
site_loop-Covers {t} {mem} {p} (suc fuel) low s [] e after (site inside r m) (_, small, o) (lo, hi)
      h =
    let first : first_ip t e % 2 ^ 64 ≡ first_ip t e = omega arith in
    let end : end_ip t e % 2 ^ 64 ≡ end_ip t e = omega arith in
    unfold site_loop in
    rw (lt→ltb _ _ inside, r, first, end, le→ltb_false _ _ lo) (rw (lt→ltb _ _ hi) refl)
site_loop-Covers {t} {mem} {p} (suc fuel) low s (b ∷ before) e after (site inside r m) (_, small, o)
      c h =
    site_loop-pass fuel t mem p s b inside r (omega (arith, low-le t (end_ip t b) before e after o))
      small
    ∙ site_loop-Covers fuel (end_ip t b) s before e after m o c (omega arith)

-- In a table in order where no entry covers the instruction, the loop leaves everything as it was.
site_loop-none :
    {t : Table} {mem : Memory} {p : ℕ} {es : List Entry} (fuel low : ℕ) (s : Site)
    → Sites t mem p es
    → IsOrdered t low es
    → All (λ e. ¬ (Covers t e)) es
    → length es < fuel
    → site_loop fuel t mem p s ≡ ok s
site_loop-none zero low s m o n h = absurd (omega arith)
site_loop-none {t} {mem} {p} (suc fuel) low s (done out) o n h =
    unfold site_loop in rw (le→ltb_false _ _ out) refl
site_loop-none {t} {mem} {p} (suc fuel) low s (site {e} {es} inside r m) (_, small, o) (n, ns) h =
    let first : first_ip t e % 2 ^ 64 ≡ first_ip t e = omega arith in
    elim (dec_lt t.ip (first_ip t e)) [
      | yes early ↦ unfold site_loop in rw (lt→ltb _ _ inside, r, first, lt→ltb _ _ early) refl
      | no late ↦
          let ended : ¬ (t.ip < end_ip t e) = λ q. n (omega arith, q) in
          site_loop-pass fuel t mem p s e inside r (omega arith) small
          ∙ site_loop-none fuel (end_ip t e) s m o ns (omega arith)
    ]
