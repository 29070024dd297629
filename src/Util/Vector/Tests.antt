-- ===== src/Util/Vector/Tests.antt =====
-- Vectors of three values.
use cs.Base.{ℕ, zero, suc, ◌≤◌, ◌<◌, ◌≡◌, refl, arith, true, false, [], ◌∷◌, none, some}
use cs.Util.Vector.{
  Vector, ascending, vector_insertion_sort, vector_selection_sort, vector_binsearch_ascending,
  ascend, vector_get_unchecked,
}
use cs.Util.Vector.Cells.{IsValid, SameShape, at}
use cs.Util.Vector.Same.{vector_selection_sort-vector_insertion_sort}
use cs.Util.Vector.Sort.{Sorted, count, vector_insertion_sort-Sorted}

abbrev three : Vector
three = record { size = 3; capacity = 4; values = 5 ∷ 3 ∷ 9 ∷ 7 ∷ [] }

three-IsValid : IsValid three
three-IsValid = record { whole = refl; fits = omega arith }

abbrev falling : Vector
falling = record { size = 3; capacity = 3; values = 9 ∷ 5 ∷ 3 ∷ [] }

falling_order : (i j : ℕ) → i < j → j < 3 → at falling j ≤ at falling i
falling_order i zero p q = absurd (omega arith)
falling_order zero (suc zero) p q = omega arith
falling_order (suc i) (suc zero) p q = absurd (omega arith)
falling_order zero (suc (suc zero)) p q = omega arith
falling_order (suc zero) (suc (suc zero)) p q = omega arith
falling_order (suc (suc i)) (suc (suc zero)) p q = absurd (omega arith)
falling_order i (suc (suc (suc j))) p q = absurd (omega arith)

abbrev rising : Vector
rising = record { size = 3; capacity = 3; values = 1 ∷ 2 ∷ 3 ∷ [] }

-- The search by halves for rising values finds the middle one and misses the first.
rising_two : vector_binsearch_ascending rising 2 ≡ some 1
unfolding vector_binsearch_ascending ascend vector_get_unchecked
rising_two = refl

rising_one : vector_binsearch_ascending rising 1 ≡ none
unfolding vector_binsearch_ascending ascend vector_get_unchecked
rising_one = refl

ascending_total : (a b : ℕ) → ascending a b ≡ false → ascending b a ≡ true
ascending_total a b h = ground arith

ascending_trans : (a b c : ℕ) → ascending a b ≡ true → ascending b c ≡ true → ascending a c ≡ true
ascending_trans a b c h h' = ground arith

vector_insertion_sort-Sorted_example :
    SameShape three (vector_insertion_sort three ascending)
    × Sorted ascending (vector_insertion_sort three ascending) 3
    × ((x : ℕ) → count (vector_insertion_sort three ascending) x 3 ≡ count three x 3)
vector_insertion_sort-Sorted_example =
    vector_insertion_sort-Sorted ascending ascending_total ascending_trans three three-IsValid

ascending_antisym : (a b : ℕ) → ascending a b ≡ true → ascending b a ≡ true → a ≡ b
ascending_antisym a b h h' = ground arith

vector_selection_sort-vector_insertion_sort_example :
    at (vector_selection_sort three ascending) 1 ≡ at (vector_insertion_sort three ascending) 1
vector_selection_sort-vector_insertion_sort_example =
    vector_selection_sort-vector_insertion_sort ascending ascending_total ascending_trans
      ascending_antisym three three-IsValid 1 (omega arith)
