-- ===== src/Util/Vector/Search.antt =====
-- Searching: the first index of a value, and its removal; the searches by halves.
use cs.Base.{
  ℕ, zero, suc, ◌+◌, ◌-◌, ◌/◌, ◌^◌, ◌≤◌, ◌<◌, ◌≡◌, ◌≢◌, refl, arith, Bool-cases, ◌⊎◌, inl, inr,
  true, false, List, Option, none, some, ltb, ◌==◌, if◌then◌else◌, Option-cases,
}
use cs.Base.Lists.{get_or}
use cs.Util.Vector.{
  Vector, vector_get, vector_get_unchecked, find_from, vector_find, vector_remove_value, descend,
  vector_binsearch_descending, ascend, vector_binsearch_ascending,
}
use cs.Util.Vector.Cells.{IsValid, at, vector_get_unchecked_at}
use cs.Util.Vector.Insert.{vector_remove-get}

-- The first index from `i` on, among `k`, that holds the value, if there is one.
abbrev FirstAt : List ℕ → ℕ → ℕ → ℕ → Option ℕ → Type 0
FirstAt vals val i k none = (j : ℕ) → i ≤ j → j < i + k → get_or vals j 0 ≢ val
FirstAt vals val i k (some p) =
    (i ≤ p)
    × (p < i + k)
    × (get_or vals p 0 ≡ val)
    × ((j : ℕ) → i ≤ j → j < p → get_or vals j 0 ≢ val)

first_later :
    (vals : List ℕ) (val k i : ℕ) (o : Option ℕ)
    → get_or vals i 0 ≢ val
    → FirstAt vals val (i + 1) k o
    → FirstAt vals val i (suc k) o
first_later vals val k i none ne f = λ j p q. elim (Bool-cases (j == i)) [
  | inl same ↦ let e : j ≡ i = ground arith in rw e ne
  | inr other ↦ f j (ground arith) (omega arith)
]
first_later vals val k i (some o) ne f = (
  omega (arith, f.0),
  omega (arith, f.1),
  f.2,
  λ j p q. elim (Bool-cases (j == i)) [
    | inl same ↦ let e : j ≡ i = ground arith in rw e ne
    | inr other ↦ f.3 j (ground arith) q
  ],
)

find_from-FirstAt : (vals : List ℕ) (val k i : ℕ) → FirstAt vals val i k (find_from vals val k i)
unfolding find_from
find_from-FirstAt vals val zero i = λ j p q. absurd (omega arith)
find_from-FirstAt vals val (suc k) i = elim (Bool-cases (get_or vals i 0 == val)) [
  | inl here ↦ rw here (omega arith, omega arith, ground arith, λ j p q. absurd (omega arith))
  | inr away ↦ rw away (
      first_later vals val k i (find_from vals val k (i + 1)) (ground arith)
        (find_from-FirstAt vals val k (i + 1)))
]

-- The index is the first at which the vector gives the value; none where it gives it nowhere.
abbrev pub IsFirst : Vector → ℕ → Option ℕ → Type 0
IsFirst v val none = (j : ℕ) → vector_get v j ≢ some val
IsFirst v val (some p) = (vector_get v p ≡ some val) × ((j : ℕ) → j < p → vector_get v j ≢ some val)

cells-IsFirst :
    (v : Vector) (val : ℕ) (o : Option ℕ) → FirstAt v.values val 0 v.size o → IsFirst v val o
unfolding vector_get
cells-IsFirst v val none f = λ j. ground (arith, f j)
cells-IsFirst v val (some p) f = (ground (arith, f.1, f.2), λ j h. ground (arith, f.1, f.3 j))

-- `vector_find` of a vector with fewer than 2^31 values gives the first index at which the value
-- stands, or -1 where no index holds it.
pub vector_find-IsFirst :
    (v : Vector) (val : ℕ) → v.size < 2 ^ 31 → IsFirst v val (vector_find v val)
unfolding vector_find
vector_find-IsFirst v val small =
    let fits : ltb v.size (2 ^ 31) ≡ true = ground arith in
    rw fits (
      cells-IsFirst v val (find_from v.values val v.size 0)
        (find_from-FirstAt v.values val v.size 0))

-- On a well-formed vector `vector_remove_value` returns false and changes nothing where no index
-- holds the value; otherwise it returns true, keeps the values before the first such index, moves
-- those after it down by one, and leaves a well-formed vector.
pub vector_remove_value-get :
    (v : Vector) (val : ℕ)
    → IsValid v
    → (IsFirst v val none × (vector_remove_value v val ≡ (false, v)))
      ⊎ ((p : ℕ) × IsFirst v val (some p)
          × ((vector_remove_value v val).0 ≡ true)
          × IsValid (vector_remove_value v val).1
          × ((j : ℕ)
              → vector_get (vector_remove_value v val).1 j
                ≡ (if ltb j p then vector_get v j else vector_get v (j + 1))))
unfolding vector_remove_value
vector_remove_value-get v val ok =
    let first = find_from-FirstAt v.values val v.size 0 in
    elim (Option-cases (find_from v.values val v.size 0)) [
      | inl absent ↦
          inl (cells-IsFirst v val none (rw absent at first), rw (vector_remove_value, absent) refl)
      | inr (p, e) ↦
          let found : FirstAt v.values val 0 v.size (some p) = rw e at first in
          let gone = vector_remove-get v p ok in
          let inside : ltb p v.size ≡ true = ground (arith, found.1) in
          inr (
            p,
            cells-IsFirst v val (some p) found,
            rw (vector_remove_value, e) refl,
            rw (vector_remove_value, e) gone.1,
            rw (vector_remove_value, e) (λ j. ground (arith, gone.2 j)),
          )
    ]

-- The result of a search: an index at which the vector gives the key, or none where it gives it
-- nowhere.
abbrev pub IsHit : Vector → ℕ → Option ℕ → Type 0
IsHit v key none = (j : ℕ) → vector_get v j ≢ some key
IsHit v key (some m) = vector_get v m ≡ some key

module _ (v : Vector) (key : ℕ) (order : (i j : ℕ) → i < j → j < v.size → at v j ≤ at v i) where
  descend-IsHit :
      (fuel low stop : ℕ)
      → stop ≤ v.size
      → stop < low + fuel
      → ((j : ℕ) → j < low → key < at v j)
      → ((j : ℕ) → stop ≤ j → j < v.size → at v j < key)
      → IsHit v key (descend fuel v key low stop)
  unfolding descend vector_get
  descend-IsHit zero low stop fits enough left right = λ j. ground (arith, left j, right j)
  descend-IsHit (suc fuel) low stop fits enough left right =
      let mid = (low + stop - 1) / 2 in
      elim (Bool-cases (ltb low stop)) [
        | inr over ↦ rw over (λ j. ground (arith, left j, right j))
        | inl more ↦
            let here = vector_get_unchecked_at v mid (ground arith) in
            elim (Bool-cases (ltb (vector_get_unchecked v mid) key)) [
              | inl small ↦
                  rw (more, small)
                    (descend-IsHit fuel low mid (ground arith) (ground arith) left
                      (λ j p q. ground (arith, order mid j)))
              | inr big ↦ elim (Bool-cases (ltb key (vector_get_unchecked v mid))) [
                | inl large ↦
                    rw (more, big, large)
                      (descend-IsHit fuel (mid + 1) stop fits (ground arith)
                        (λ j p. ground (arith, order j mid)) right)
                | inr equal ↦ rw (more, big, equal) (ground arith)
              ]
            ]
      ]

-- On a vector whose values do not increase, `vector_binsearch_descending` gives an index that holds
-- the key, or -1 where none does.
pub vector_binsearch_descending-IsHit :
    (v : Vector) (key : ℕ)
    → ((i j : ℕ) → i < j → j < v.size → at v j ≤ at v i)
    → IsHit v key (vector_binsearch_descending v key)
unfolding vector_binsearch_descending
vector_binsearch_descending-IsHit v key order =
    descend-IsHit v key order (v.size + 1) 0 v.size (omega arith) (omega arith)
      (λ j h. absurd (omega arith)) (λ j p q. absurd (omega arith))

ascend_lem :
    (v : Vector) (key fuel low high m : ℕ)
    → high ≤ v.size
    → ascend fuel v key low high ≡ some m
    → vector_get v m ≡ some key
unfolding ascend vector_get vector_get_unchecked
ascend_lem v key zero low high m fits e = ground arith
ascend_lem v key (suc fuel) low high m fits e = ground (
  arith,
  ascend_lem v key fuel low ((low + high) / 2 - 1) m,
  ascend_lem v key fuel ((low + high) / 2 + 1) high m,
)

-- An index that `vector_binsearch_ascending` gives holds the key, whatever the order of the values.
pub vector_binsearch_ascending_lem :
    (v : Vector) (key m : ℕ) → vector_binsearch_ascending v key ≡ some m → vector_get v m ≡ some key
unfolding vector_binsearch_ascending
vector_binsearch_ascending_lem v key m e = ascend_lem v key (v.size + 1) 0 v.size m (omega arith) e
