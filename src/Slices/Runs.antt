-- ===== src/Slices/Runs.antt =====
-- c/ymemory.c: slices of two-byte elements.
use yruntime.Base.{
  ℕ, zero, ◌≡◌, refl, List, [], ◌∷◌, ◌++◌, some, length-replicate, replicate, arith,
}
use yruntime.Slices.Code.{Slice, alloc_array, dup_slice, concat_slices}
use yruntime.Slices.Contents.{repeat, slices-contents}

abbrev zeroed : ℕ → List ℕ
zeroed bytes = replicate bytes 0

abbrev one_pair : Slice
one_pair = record { len = 1; data' = 5 ∷ 6 ∷ [] }

abbrev two_pairs : Slice
two_pairs = record { len = 2; data' = 1 ∷ 2 ∷ 3 ∷ 4 ∷ [] }

slices-contents_example :
    (alloc_array zeroed (7 ∷ 8 ∷ []) 2 3 ≡ some (record { len = 3; data' = repeat 3 (7 ∷ 8 ∷ []) }))
    × (dup_slice zeroed one_pair 2 ≡ some one_pair)
    × (concat_slices zeroed one_pair two_pairs 2
        ≡ some (record { len = 3; data' = one_pair.data' ++ two_pairs.data' }))
slices-contents_example =
    slices-contents zeroed 2 3 (7 ∷ 8 ∷ []) one_pair two_pairs (λ n. length-replicate n zero) refl
      refl refl (omega arith) (omega arith) (omega arith)
