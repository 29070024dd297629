-- ===== src/Util/LinkedList/Tests.antt =====
-- The list theorems on a list of two elements.
use cs.Base.{ℕ, ◌≡◌, refl, arith, true, [], ◌∷◌, ◌++◌, none, some, ◌==◌, if◌then◌else◌}
use cs.Util.LinkedList.{elem, Store, list_add, list_remove_elem, list_remove, list_clear}
use cs.Util.LinkedList.Chain.{Cells, occurs, Chain.done, Chain.step, IsList}
use cs.Util.LinkedList.Add.{list_add-IsList}
use cs.Util.LinkedList.Remove.{drop, list_remove_elem-IsList}
use cs.Util.LinkedList.Search.{has_value, remove_value, list_remove-IsList}
use cs.Util.LinkedList.Clear.{list_clear-IsList}

-- The head at 10, 5 at 20 and 6 at 30.
abbrev two : Store
two x =
    if x == 10
    then some (elem 0 30 20)
    else if x == 20
    then some (elem 5 10 30)
    else if x == 30
    then some (elem 6 20 10)
    else none

abbrev two_cells : Cells
two_cells = (20, 5) ∷ (30, 6) ∷ []

two-IsList : IsList two 10 two_cells
two-IsList = record {
  first = 20;
  last = 30;
  head_value = 0;
  head = refl;
  chain = step refl refl (step refl refl done);
  apart = refl;
  no_null = refl;
  not_null = λ i. ground arith;
}

list_add-IsList_example :
    (s' : Store) × (list_add two 10 40 7 ≡ some s') × IsList s' 10 (two_cells ++ (40, 7) ∷ [])
list_add-IsList_example =
    list_add-IsList two 10 40 7 two_cells two-IsList refl (λ i. ground arith) (λ i. ground arith)

list_remove_elem-IsList_example :
    (s' : Store) × (list_remove_elem two 20 ≡ some s')
    × IsList s' 10 (drop 20 two_cells)
    × (s' 20 ≡ none)
list_remove_elem-IsList_example = list_remove_elem-IsList two 10 20 two_cells two-IsList refl

list_remove-IsList_example :
    (s' : Store) × (list_remove 3 two 10 6 ≡ some (has_value 6 two_cells, s'))
    × IsList s' 10 (remove_value 6 two_cells)
list_remove-IsList_example = list_remove-IsList 3 two 10 6 two_cells two-IsList (omega arith)

list_clear-IsList_example :
    (s' : Store) × (list_clear 3 two 10 ≡ some s')
    × IsList s' 10 []
    × ((a : ℕ) → occurs a two_cells ≡ true → s' a ≡ none)
list_clear-IsList_example = list_clear-IsList 3 two 10 two_cells two-IsList (omega arith)
