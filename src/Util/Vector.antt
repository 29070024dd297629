-- ===== src/Util/Vector.antt =====
-- util/src/vector.c: the growing array of 64-bit values. `values` is the allocated array, of
-- `capacity` cells. The allocations are taken to succeed, as the source does, and `g_kcalloc` clears
-- the cells. A function with an out parameter returns an option.
pub mod Cells
pub mod Insert
pub mod Search
pub mod Sort
pub mod Selection
pub mod Same
mod Tests
use cs.Base.{
  ℕ, zero, suc, ◌+◌, ◌-◌, ◌*◌, ◌/◌, ◌%◌, ◌^◌, Bool, true, false, ◌&&◌, List, Option, none, some,
  not, ltb, leb, ◌==◌, if◌then◌else◌,
}
use cs.Base.Lists.{get_or, set, replicate}

pub record Vector : Type 0 where
  pub size : ℕ
  pub capacity : ℕ
  pub values : List ℕ

pub vector_new : Vector
vector_new = record { size = 0; capacity = 0; values = replicate 0 0 }

pub vector_new_with_capacity : ℕ → Vector
vector_new_with_capacity capacity = record {
  size = 0;
  capacity = capacity;
  values = replicate capacity 0;
}

pub vector_get_unchecked : Vector → ℕ → ℕ
vector_get_unchecked v idx = if leb v.size idx then 0 else get_or v.values idx 0

pub vector_get : Vector → ℕ → Option ℕ
vector_get v idx = if leb v.size idx then none else some (get_or v.values idx 0)

pub vector_set : Vector → ℕ → ℕ → Bool × Vector
vector_set v idx val =
    if leb v.size idx
    then (false, v)
    else (true, record { size = v.size; capacity = v.capacity; values = set v.values idx val })

-- `for (i = ...; i < vec->size; i++) vals[i] = vec->values[i]`, with `k` rounds left
unfoldable pub copy_values : List ℕ → ℕ → ℕ → List ℕ → List ℕ
copy_values old zero i vals = vals
copy_values old (suc k) i vals = copy_values old k (i + 1) (set vals i (get_or old i 0))

-- a new array of `cap` cells with the first `n` values
pub moved_to : Vector → ℕ → ℕ → Vector
unfolding copy_values
moved_to v n cap = record {
  size = n;
  capacity = cap;
  values = copy_values v.values n 0 (replicate cap 0);
}

pub vector_resize : Vector → ℕ → Vector
vector_resize v new_size =
    let w = if ltb v.capacity new_size then moved_to v v.size new_size else v in
    record { size = new_size; capacity = w.capacity; values = w.values }

pub vector_reserve : Vector → ℕ → Vector
vector_reserve v new_capacity =
    if ltb v.capacity new_capacity
    then moved_to v v.size new_capacity
    else if ltb 0 new_capacity && ltb new_capacity v.capacity
    then moved_to v (if ltb new_capacity v.size then new_capacity else v.size) new_capacity
    else v

-- `for (i = ...; i < new_size; i++) vector_set(vec, i, def)`, with `k` rounds left
unfoldable pub fill_from : ℕ → ℕ → ℕ → Vector → Vector
fill_from def zero i v = v
fill_from def (suc k) i v = fill_from def k (i + 1) (vector_set v i def).1

pub vector_resize_with_default : Vector → ℕ → ℕ → Vector
vector_resize_with_default v new_size def =
    fill_from def (new_size - v.size) v.size (vector_resize v new_size)

-- `for (...; i > idx; i--) vector_set(vec, i, vector_get_unchecked(vec, i - 1))`, where `i` is
-- `idx + k`
unfoldable pub shift_up : ℕ → ℕ → Vector → Vector
shift_up idx zero v = v
shift_up idx (suc k) v =
    shift_up idx k (vector_set v (idx + suc k) (vector_get_unchecked v (idx + k))).1

pub vector_insert : Vector → ℕ → ℕ → Vector
vector_insert v idx value =
    let w = vector_resize v ((v.size + 1) % 2 ^ 32) in
    (vector_set (shift_up idx (w.size - 1 - idx) w) idx value).1

pub vector_push : Vector → ℕ → Vector
vector_push v value = vector_insert v v.size value

-- `for (; idx < vec->size; idx++) vec->values[idx] = vec->values[idx + 1]`, with `k` rounds left
unfoldable pub shift_down : ℕ → ℕ → List ℕ → List ℕ
shift_down zero idx vals = vals
shift_down (suc k) idx vals = shift_down k (idx + 1) (set vals idx (get_or vals (idx + 1) 0))

pub vector_remove : Vector → ℕ → Bool × Vector
vector_remove v idx = if leb v.size idx then (false, v) else (
  true,
  record {
    size = v.size - 1;
    capacity = v.capacity;
    values = shift_down (v.size - 1 - idx) idx v.values;
  },
)

-- the first index from `i` on, among `k`, that holds the value
unfoldable pub find_from : List ℕ → ℕ → ℕ → ℕ → Option ℕ
find_from vals val zero i = none
find_from vals val (suc k) i =
    let rest = find_from vals val k (i + 1) in if get_or vals i 0 == val then some i else rest

-- The bound is `(int)vec->size`, negative from 2^31 on; `none` is -1.
pub vector_find : Vector → ℕ → Option ℕ
vector_find v val = if ltb v.size (2 ^ 31) then find_from v.values val v.size 0 else none

pub vector_remove_value : Vector → ℕ → Bool × Vector
vector_remove_value v val = elim (find_from v.values val v.size 0) [
  | none ↦ (false, v)
  | some i ↦ (true, (vector_remove v i).1)
]

pub vector_clear : Vector → Vector
vector_clear v = vector_resize v 0

pub vector_size : Vector → ℕ
vector_size v = v.size

pub vector_capacity : Vector → ℕ
vector_capacity v = v.capacity

-- the swap in the loop of `vector_insertion_sort`
pub swap_down : Vector → ℕ → Vector
swap_down v j =
    let left = vector_get_unchecked v j in
    let right = vector_get_unchecked v (j + 1) in
    (vector_set (vector_set v (j + 1) left).1 j right).1

-- `while (j > 0 && !comp(...))`
unfoldable pub sink : (ℕ → ℕ → Bool) → ℕ → Vector → Vector
sink comp zero v = v
sink comp (suc j) v =
    let rest = sink comp j (swap_down v j) in
    if comp (vector_get_unchecked v j) (vector_get_unchecked v (j + 1)) then v else rest

-- `for (i = ...; i < vector_size(vec); i++)`, with `k` rounds left
unfoldable pub sort_from : (ℕ → ℕ → Bool) → ℕ → ℕ → Vector → Vector
sort_from comp zero i v = v
sort_from comp (suc k) i v = sort_from comp k (i + 1) (sink comp i v)

pub vector_insertion_sort : Vector → (ℕ → ℕ → Bool) → Vector
vector_insertion_sort v comp = sort_from comp (v.size - 1) 1 v

pub vector_sort : Vector → (ℕ → ℕ → Bool) → Vector
vector_sort v comp = vector_insertion_sort v comp

-- the inner loop of `vector_selection_sort`, with `k` rounds left: the index of the least value
unfoldable pub min_from : (ℕ → ℕ → Bool) → Vector → ℕ → ℕ → ℕ → ℕ
min_from comp v zero j min_idx = min_idx
min_from comp v (suc k) j min_idx =
    min_from comp v k (j + 1)
      (if comp (vector_get_unchecked v min_idx) (vector_get_unchecked v j) then min_idx else j)

pub exchange : Vector → ℕ → ℕ → Vector
exchange v i min_idx =
    let tmp = vector_get_unchecked v i in
    (vector_set (vector_set v i (vector_get_unchecked v min_idx)).1 min_idx tmp).1

-- the outer loop, with `k` rounds left
unfoldable pub select_from : (ℕ → ℕ → Bool) → ℕ → ℕ → Vector → Vector
unfolding min_from
select_from comp zero i v = v
select_from comp (suc k) i v =
    select_from comp k (i + 1) (exchange v i (min_from comp v (v.size - (i + 1)) (i + 1) i))

-- for fewer than 2^32 values, so that the indices do not wrap
pub vector_selection_sort : Vector → (ℕ → ℕ → Bool) → Vector
unfolding select_from
vector_selection_sort v comp = select_from comp v.size 0 v

-- `vector_sort_unsigned_long_comparator_ascending` and `..._descending`
abbrev pub ascending : ℕ → ℕ → Bool
ascending left right = leb left right

abbrev pub descending : ℕ → ℕ → Bool
descending left right = leb right left

-- The loop of `vector_binsearch_ascending` on fuel. `high` may be -1 in the code: it is 0 here,
-- which ends the loop too.
unfoldable pub ascend : ℕ → Vector → ℕ → ℕ → ℕ → Option ℕ
ascend zero v key low high = none
ascend (suc fuel) v key low high =
    let mid = (low + high) / 2 in
    let below = ascend fuel v key low (mid - 1) in
    let above = ascend fuel v key (mid + 1) high in
    if not (ltb low high)
    then none
    else if ltb key (vector_get_unchecked v mid)
    then below
    else if ltb (vector_get_unchecked v mid) key
    then above
    else some mid

-- for fewer than 2^30 values, so that no `int` overflows
pub vector_binsearch_ascending : Vector → ℕ → Option ℕ
vector_binsearch_ascending v key = ascend (v.size + 1) v key 0 v.size

-- The loop of `vector_binsearch_descending` on fuel, where `high` is `stop - 1`.
unfoldable pub descend : ℕ → Vector → ℕ → ℕ → ℕ → Option ℕ
descend zero v key low stop = none
descend (suc fuel) v key low stop =
    let mid = (low + stop - 1) / 2 in
    let below = descend fuel v key low mid in
    let above = descend fuel v key (mid + 1) stop in
    if not (ltb low stop)
    then none
    else if ltb (vector_get_unchecked v mid) key
    then below
    else if ltb key (vector_get_unchecked v mid)
    then above
    else some mid

pub vector_binsearch_descending : Vector → ℕ → Option ℕ
vector_binsearch_descending v key = descend (v.size + 1) v key 0 v.size
