-- ===== src/Base/Bytes.antt =====
-- Numbers and their bytes, the lowest first.
use Prim.Native.Nat.{ℕ, zero, suc, ◌+◌, ◌*◌, ◌/◌, ◌%◌, ◌≤◌}
use mathlib.Core.Path.{◌≡◌, refl, ap, ap₂, ◌∙◌}
use mathlib.Core.List.{List, [], ◌∷◌, ◌++◌}
use native.Mathlib.Omega.{arith}
use yruntime.Base.Lists.{length, take}

abbrev pub le_value : List ℕ → ℕ
le_value [] = 0
le_value (b ∷ bs) = b + 256 * le_value bs

abbrev pub le_bytes : ℕ → ℕ → List ℕ
le_bytes zero v = []
le_bytes (suc n) v = v % 256 ∷ le_bytes n (v / 256)

pub length-le_bytes : (n v : ℕ) → length (le_bytes n v) ≡ n
length-le_bytes zero v = refl
length-le_bytes (suc n) v = ap suc (length-le_bytes n (v / 256))

pub take-le_bytes : (n m v : ℕ) → n ≤ m → take n (le_bytes m v) ≡ le_bytes n v
take-le_bytes zero m v h = refl
take-le_bytes (suc n) zero v h = absurd (omega arith)
take-le_bytes (suc n) (suc m) v h =
    ap (λ bs. v % 256 ∷ bs) (take-le_bytes n m (v / 256) (omega arith))

-- The lowest bytes of a number that is put together from them and any others.
pub le_bytes-le_value :
    (n v : ℕ) (rest : List ℕ) → le_bytes n (le_value (le_bytes n v ++ rest)) ≡ le_bytes n v
le_bytes-le_value zero v rest = refl
le_bytes-le_value (suc n) v rest =
    let others = le_value (le_bytes n (v / 256) ++ rest) in
    let low : (v % 256 + 256 * others) % 256 ≡ v % 256 = omega arith in
    let high : (v % 256 + 256 * others) / 256 ≡ others = omega arith in
    ap₂ (λ b bs. b ∷ bs) low (ap (le_bytes n) high ∙ le_bytes-le_value n (v / 256) rest)
