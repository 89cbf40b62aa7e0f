-- ===== src/Unwind/Leb/Values.antt =====
-- The numbers that byte strings of the LEB128 format stand for.
use yruntime.Base.{ℕ, ◌+◌, ◌-◌, ◌*◌, ◌%◌, ◌^◌, ◌≤◌, ◌<◌, List, [], ◌∷◌, ltb, if◌then◌else◌}

-- All bytes but the last have their top bit set. Padded forms are included.
abbrev pub IsLeb : List ℕ → Type 0
IsLeb [] = ⊥
IsLeb (b ∷ []) = b < 128
IsLeb (b ∷ c ∷ r) = (128 ≤ b) × IsLeb (c ∷ r)

-- The groups of seven bits, lowest first.
unfoldable pub leb_value : List ℕ → ℕ
leb_value [] = 0
leb_value (b ∷ r) = b % 128 + 128 * leb_value r

-- The scale of what stands behind the groups: 128 to their number.
unfoldable pub leb_scale : List ℕ → ℕ
leb_scale [] = 1
leb_scale (b ∷ r) = 128 * leb_scale r

-- A number below the scale as a signed one, in 64-bit two's complement: below half the scale it
-- is positive.
abbrev pub signed_at : ℕ → ℕ → ℕ
signed_at value scale = if ltb (2 * value) scale then value else value + (2 ^ 64 - scale)

unfoldable pub sleb_value : List ℕ → ℕ
sleb_value bs = signed_at (leb_value bs) (leb_scale bs)
