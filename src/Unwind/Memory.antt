-- ===== src/Unwind/Memory.antt =====
-- The memory that c/personality.c reads its tables from, and the outcome of a read.
use mathlib.Core.Path.{subst}
use yruntime.Base.{ℕ, zero, suc, ◌+◌, ◌*◌, ◌%◌, ◌<◌, ◌≡◌, refl, List, [], ◌∷◌, Option, none, some}

-- A byte at each mapped address.
abbrev pub Memory : Type 0
Memory = ℕ → Option ℕ

-- `terminated` is the end of the process, by `_yrt_exc_terminate` or a panic. `fault` is a read at
-- an unmapped address, or a shift by 64 or more, which C leaves undefined. `no_fuel` is no outcome
-- of the C code.
pub data Outcome {ℓ} (A : Type ℓ) : Type ℓ where
  ok : A → Outcome A
  terminated : Outcome A
  fault : Outcome A
  no_fuel : Outcome A

infixl 5 ◌>>=◌
abbrev pub ◌>>=◌ {ℓ κ} : {A : Type ℓ} {B : Type κ} → Outcome A → (A → Outcome B) → Outcome B
ok a >>= f = f a
terminated >>= f = terminated
fault >>= f = fault
no_fuel >>= f = no_fuel

pub ok-injective {ℓ} : {A : Type ℓ} {a b : A} → ok a ≡ ok b → a ≡ b
ok-injective e = cc e

-- What a successful chain went through.
pub >>=-eq-ok {ℓ κ} :
    {A : Type ℓ} {B : Type κ} (first : Outcome A) (onward : A → Outcome B) {y : B}
    → (first >>= onward) ≡ ok y
    → (x : A) × (first ≡ ok x) × (onward x ≡ ok y)
>>=-eq-ok (ok x) onward ends = (x, refl, ends)
>>=-eq-ok terminated onward ends = cc
>>=-eq-ok fault onward ends = cc
>>=-eq-ok no_fuel onward ends = cc

-- A property of the result, where there is one.
pub data Ensures {ℓ κ} {A : Type ℓ} (P : A → Type κ) : Outcome A → Type (ℓ ⊔ κ) where
  returns : {a : A} → P a → Ensures P (ok a)
  aborts : Ensures P terminated
  faults : Ensures P fault
  stops : Ensures P no_fuel

pub Ensures-bind {ℓ κ μ} :
    {A : Type ℓ} {B : Type κ} {P : B → Type μ} (m : Outcome A) {f : A → Outcome B}
    → ((a : A) → Ensures P (f a))
    → Ensures P (m >>= f)
Ensures-bind (ok a) k = k a
Ensures-bind terminated k = aborts
Ensures-bind fault k = faults
Ensures-bind no_fuel k = stops

pub Ensures-then {ℓ κ μ ν} :
    {A : Type ℓ} {B : Type κ} {P : A → Type μ} {Q : B → Type ν} {m : Outcome A} {f : A → Outcome B}
    → Ensures P m
    → ((a : A) → P a → Ensures Q (f a))
    → Ensures Q (m >>= f)
Ensures-then (returns h) k = k _ h
Ensures-then aborts k = aborts
Ensures-then faults k = faults
Ensures-then stops k = stops

pub Ensures-ok {ℓ κ} :
    {A : Type ℓ} {P : A → Type κ} {r : Outcome A} {a : A} → Ensures P r → r ≡ ok a → P a
Ensures-ok {P} (returns h) e = let same = ok-injective e in subst P same h
Ensures-ok aborts e = cc
Ensures-ok faults e = cc
Ensures-ok stops e = cc

-- `*p` as an `unsigned char`.
unfoldable pub load_byte : Memory → ℕ → Outcome ℕ
load_byte mem p = elim (mem p) [ none ↦ fault | some b ↦ ok (b % 256) ]

-- The bytes that stand at `p`.
abbrev pub Holds : Memory → ℕ → List ℕ → Type 0
Holds mem p [] = Unit {0}
Holds mem p (b ∷ bs) = (mem p ≡ some b) × (b < 256) × Holds mem (p + 1) bs

-- `memcpy` of a little-endian number of so many bytes.
unfoldable pub read_unaligned : ℕ → Memory → ℕ → Outcome ℕ
read_unaligned zero mem p = ok 0
read_unaligned (suc size) mem p = do
  b ← load_byte mem p
  high ← read_unaligned size mem (p + 1)
  ok (b + 256 * high)
