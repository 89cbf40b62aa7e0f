-- ===== src/Copies/Runs.antt =====
-- c/ymemory.c: a history of eleven insertions, one more than the first arrays hold.
use yruntime.Base.{
  ℕ, zero, ◌*◌, ◌/◌, ◌≡◌, List, [], ◌∷◌, some, not, ◌==◌, length, length-replicate, replicate,
  arith,
}
use yruntime.Copies.Map.{
  DcopyMap, purge_dcopy_map, dcopy_map_is_started, find_dcopy_map, insert_all,
}
use yruntime.Copies.Refines.{lookup}
use yruntime.Copies.History.{insert_all-find}

abbrev zeroed : ℕ → List ℕ
zeroed bytes = replicate (bytes / 8) 0

zeroed-size : (n : ℕ) → length (zeroed (n * 8)) ≡ n
zeroed-size n = omega (arith, length-replicate (n * 8 / 8) zero)

abbrev used_map : DcopyMap
used_map = record { len = 1; used = 1; from = 9 ∷ []; to = 9 ∷ [] }

abbrev eleven : List (ℕ × ℕ)
eleven =
    (1, 11)
    ∷ (2, 12)
    ∷ (3, 13)
    ∷ (4, 14)
    ∷ (5, 15)
    ∷ (1, 16)
    ∷ (7, 17)
    ∷ (8, 18)
    ∷ (9, 19)
    ∷ (10, 20)
    ∷ (11, 21)
    ∷ []

insert_all-find_example :
    (m : DcopyMap) × (insert_all zeroed eleven (purge_dcopy_map used_map) ≡ some m)
    × ((key : ℕ) → find_dcopy_map m key ≡ some (lookup key eleven))
    × (dcopy_map_is_started m ≡ not (length eleven == 0))
insert_all-find_example = insert_all-find zeroed used_map eleven zeroed-size (omega arith)
