-- ===== src/Util/LinkedList/Search.antt =====
-- list_find_elem, list_contains, list_size and list_remove on a list.
use native.Mathlib.Nat.{mod-eq_of_lt, zero-add}
use cs.Base.{
  ℕ, zero, suc, ◌+◌, ◌<◌, ◌%◌, ◌^◌, ◌≡◌, refl, sym, ap, ◌∙◌, arith, Bool, Bool-cases, inl, inr,
  true, false, [], ◌∷◌, some, ◌==◌, if◌then◌else◌,
}
use cs.Base.Lists.{length}
use cs.Memory.{null}
use cs.Util.LinkedList.{
  Store, find_from, list_find_elem, list_contains, size_from, list_size, list_remove,
}
use cs.Util.LinkedList.Chain.{Cells, occurs, Chain, Chain.done, Chain.step, IsList}
use cs.Util.LinkedList.Remove.{drop, removal, node}

-- The address of the first element with a value, NULL where there is none.
unfoldable pub address_of : ℕ → Cells → ℕ
address_of value [] = null
address_of value (c ∷ cs) = let rest = address_of value cs in if c.1 == value then c.0 else rest

unfoldable pub has_value : ℕ → Cells → Bool
has_value value [] = false
has_value value (c ∷ cs) = let rest = has_value value cs in if c.1 == value then true else rest

find_from-address_of :
    {s : Store} {lst last from p : ℕ} {cs : Cells} (fuel value : ℕ)
    → Chain s lst last from p cs
    → occurs null cs ≡ false
    → occurs lst cs ≡ false
    → length cs < fuel
    → find_from fuel s lst p value ≡ some (address_of value cs)
unfolding find_from address_of length
find_from-address_of zero value c nn out enough = ground arith
find_from-address_of {lst} (suc fuel) value done nn out enough = ground (arith)
find_from-address_of (suc fuel) value (step h o c) nn out enough =
    rw h (
      ground
        (arith, find_from-address_of fuel value c (ground arith) (ground arith) (ground arith)))

size_from-length :
    {s : Store} {lst last from p : ℕ} {cs : Cells} (fuel n : ℕ)
    → Chain s lst last from p cs
    → occurs null cs ≡ false
    → occurs lst cs ≡ false
    → length cs < fuel
    → n + length cs < 2 ^ 64
    → size_from fuel s lst p n ≡ some (n + length cs)
unfolding size_from length
size_from-length zero n c nn out enough fits = ground arith
size_from-length (suc fuel) n done nn out enough fits = ground (arith)
size_from-length {lst} (suc fuel) n (step {p} {q} {v} {cs} h o c) nn out enough fits =
    let rest =
      size_from-length fuel (n + 1) c (ground arith) (ground arith) (ground arith) (ground arith) in
    let next : (n + 1) % 2 ^ 64 ≡ n + 1 = mod-eq_of_lt (ground arith) in
    rw h (rw next (ground (arith, rest)))

-- Enough fuel for the length of the list finds the first element with the value.
pub list_find_elem-address_of :
    (fuel : ℕ) (s : Store) (lst value : ℕ) (cs : Cells)
    → IsList s lst cs
    → length cs < fuel
    → list_find_elem fuel s lst value ≡ some (address_of value cs)
unfolding list_find_elem
list_find_elem-address_of fuel s lst value cs l enough =
    rw (l.head) (find_from-address_of fuel value l.chain l.no_null l.apart enough)

address_of-null :
    (value : ℕ) (cs : Cells)
    → occurs null cs ≡ false
    → address_of value cs == null ≡ (if has_value value cs then false else true)
unfolding address_of has_value
address_of-null value [] nn = refl
address_of-null value (c ∷ cs) nn = ground (arith, address_of-null value cs (ground arith))

occurs-address_of :
    (value : ℕ) (cs : Cells) → has_value value cs ≡ true → occurs (address_of value cs) cs ≡ true
unfolding address_of has_value
occurs-address_of value [] i = ground arith
occurs-address_of value (c ∷ cs) i =
    ground (arith, λ (j : has_value value cs ≡ true). occurs-address_of value cs j)

pub list_contains-has_value :
    (fuel : ℕ) (s : Store) (lst value : ℕ) (cs : Cells)
    → IsList s lst cs
    → length cs < fuel
    → list_contains fuel s lst value ≡ some (has_value value cs)
unfolding list_contains
list_contains-has_value fuel s lst value cs l enough =
    rw (list_find_elem-address_of fuel s lst value cs l enough)
      (rw (address_of-null value cs l.no_null) (ground arith))

pub list_size-length :
    (fuel : ℕ) (s : Store) (lst : ℕ) (cs : Cells)
    → IsList s lst cs
    → length cs < fuel
    → length cs < 2 ^ 64
    → list_size fuel s lst ≡ some (length cs)
unfolding list_size
list_size-length fuel s lst cs l enough fits = rw (l.head) (
    size_from-length fuel 0 l.chain l.no_null l.apart enough (omega (arith, fits))
    ∙ ap some (zero-add (length cs)))

-- The list without its first element of a value.
unfoldable pub remove_value : ℕ → Cells → Cells
remove_value value [] = []
remove_value value (c ∷ cs) =
    let rest = remove_value value cs in if c.1 == value then cs else c ∷ rest

drop-address_of :
    (value : ℕ) (cs : Cells) {s : Store} {stop last from p : ℕ}
    → Chain s stop last from p cs
    → has_value value cs ≡ true
    → drop (address_of value cs) cs ≡ remove_value value cs
unfolding drop address_of has_value remove_value
drop-address_of value [] c i = refl
drop-address_of value ((p, v) ∷ cs) (step h o c) i = elim (Bool-cases (v == value)) [
  | inl j ↦ ground (arith)
  | inr j ↦
      ground (
        arith,
        drop-address_of value cs c (ground arith),
        occurs-address_of value cs (ground arith),
      )
]

remove_value_away :
    (value : ℕ) (cs : Cells) → has_value value cs ≡ false → remove_value value cs ≡ cs
unfolding has_value remove_value
remove_value_away value [] i = refl
remove_value_away value (c ∷ cs) i =
    ground (arith, λ (j : has_value value cs ≡ false). remove_value_away value cs j)

-- With enough fuel, `list_remove` returns whether the list has the value, and leaves the list without the
-- first element of that value.
pub list_remove-IsList :
    (fuel : ℕ) (s : Store) (lst value : ℕ) (cs : Cells)
    → IsList s lst cs
    → length cs < fuel
    → (s' : Store) × (list_remove fuel s lst value ≡ some (has_value value cs, s'))
      × IsList s' lst (remove_value value cs)
unfolding list_remove
list_remove-IsList fuel s lst value cs l enough =
    let found = list_find_elem-address_of fuel s lst value cs l enough in
    let test = address_of-null value cs l.no_null in
    elim (Bool-cases (has_value value cs)) [
      | inl i ↦
          let e = address_of value cs in
          let r =
            removal s lst e cs l (node s lst cs l e (occurs-address_of value cs i))
              (occurs-address_of value cs i) in
          (
            r.after,
            rw found (rw (test, i) (rw r.run refl)),
            rw (sym (drop-address_of value cs l.chain i)) r.list,
          )
      | inr i ↦ (s, rw found (rw (test, i) refl), rw (remove_value_away value cs i) l)
    ]
