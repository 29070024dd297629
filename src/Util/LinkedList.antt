-- ===== src/Util/LinkedList.antt =====
-- util/src/list.c: the doubly linked list with its head as a sentinel. A `Store` holds the elements
-- that are allocated, a list head among them (its value is not set). `none` is a fault, as at a
-- pointer to nothing, or the end of the fuel of a loop. The address that `g_kzalloc` returns is an
-- argument. Ascending order follows `prev` from the head, descending order `next`.
pub mod Chain
pub mod Remove
pub mod Add
pub mod Search
pub mod Clear
pub mod Free
mod Tests
use cs.Base.{
  ℕ, zero, suc, ◌+◌, ◌%◌, ◌^◌, Bool, true, false, ◌||◌, Option, none, some, ◌==◌, if◌then◌else◌,
  ◌>>=◌,
}
use cs.Memory.{null}

pub record ListElem : Type 0 where
  pub value : ℕ
  pub next : ℕ
  pub prev : ℕ

abbrev pub elem : ℕ → ℕ → ℕ → ListElem
elem value next prev = record { value = value; next = next; prev = prev }

abbrev pub Store : Type 0
Store = ℕ → Option ListElem

abbrev pub update : Store → ℕ → Option ListElem → Store
update s p e x = if x == p then e else s x

-- `p->next = q`
pub set_next : Store → ℕ → ℕ → Option Store
set_next s p q = do e ← s p; some (update s p (some (elem e.value q e.prev)))

-- `p->prev = q`
pub set_prev : Store → ℕ → ℕ → Option Store
set_prev s p q = do e ← s p; some (update s p (some (elem e.value e.next q)))

-- `p->value = v`
pub set_value : Store → ℕ → ℕ → Option Store
set_value s p v = do e ← s p; some (update s p (some (elem v e.next e.prev)))

pub list_init : Store → ℕ → Option Store
list_init s lst = do s ← set_next s lst lst; set_prev s lst lst

-- `lst` is the address of the new head, `old` what the memory there holds, as `g_kmalloc` leaves it.
pub list_new : Store → ℕ → ListElem → Option Store
list_new s lst old = list_init (update s lst (some old)) lst

-- `l` is the address of the new element, which is zeroed.
pub list_add : Store → ℕ → ℕ → ℕ → Option Store
list_add s lst l value =
    let s = update s l (some (elem 0 0 0)) in
    do
      head ← s lst
      s ← set_next s l head.next
      s ← set_prev s l lst
      e ← s l
      s ← set_prev s e.next l
      e ← s l
      s ← set_next s e.prev l
      set_value s l value

pub list_remove_elem : Store → ℕ → Option Store
list_remove_elem s p = do
  e ← s p
  s ← set_prev s e.next e.prev
  e ← s p
  s ← set_next s e.prev e.next
  some (update s p none)

unfoldable pub list_elem_valid : ℕ → ℕ → Bool
list_elem_valid lst e = if e == null || e == lst then false else true

-- The loop of `list_find_elem` and `list_find_celem` from `e` on, in ascending order.
unfoldable pub find_from : ℕ → Store → ℕ → ℕ → ℕ → Option ℕ
unfolding list_elem_valid
find_from zero s lst e value = none
find_from (suc fuel) s lst e value =
    if list_elem_valid lst e
    then (do n ← s e; if n.value == value then some e else find_from fuel s lst n.prev value)
    else some null

pub list_find_elem : ℕ → Store → ℕ → ℕ → Option ℕ
list_find_elem fuel s lst value = do head ← s lst; find_from fuel s lst head.prev value

pub list_contains : ℕ → Store → ℕ → ℕ → Option Bool
list_contains fuel s lst value = do
  e ← list_find_elem fuel s lst value
  some (if e == null then false else true)

-- The loop of `list_remove` finds an element as `list_find_elem` does.
pub list_remove : ℕ → Store → ℕ → ℕ → Option (Bool × Store)
list_remove fuel s lst value = do
  e ← list_find_elem fuel s lst value
  if e == null then some (false, s) else (do s ← list_remove_elem s e; some (true, s))

-- The loop of `list_size`.
unfoldable pub size_from : ℕ → Store → ℕ → ℕ → ℕ → Option ℕ
unfolding list_elem_valid
size_from zero s lst e n = none
size_from (suc fuel) s lst e n =
    if list_elem_valid lst e
    then (do el ← s e; size_from fuel s lst el.prev ((n + 1) % 2 ^ 64))
    else some n

pub list_size : ℕ → Store → ℕ → Option ℕ
list_size fuel s lst = do head ← s lst; size_from fuel s lst head.prev 0

-- The loop of `list_clear`, in descending order.
unfoldable pub clear_from : ℕ → Store → ℕ → ℕ → Option Store
clear_from zero s lst e = none
clear_from (suc fuel) s lst e =
    if e == lst
    then some s
    else (do n ← s e; s ← list_remove_elem s e; clear_from fuel s lst n.next)

pub list_clear : ℕ → Store → ℕ → Option Store
list_clear fuel s lst = do head ← s lst; clear_from fuel s lst head.next

-- the element that `list_pop_back` and `list_pop` remove and return, NULL of an empty list
pub list_pop_back : Store → ℕ → Option (ℕ × Store)
list_pop_back s lst = do
  head ← s lst
  if lst == head.next
      then some (null, s)
      else (do s ← list_remove_elem s head.next; some (head.next, s))

pub list_pop : Store → ℕ → Option (ℕ × Store)
list_pop s lst = do
  head ← s lst
  if lst == head.prev
      then some (null, s)
      else (do s ← list_remove_elem s head.prev; some (head.prev, s))

-- The loop of `list_free`.
unfoldable pub free_from : ℕ → Store → ℕ → ℕ → Option Store
free_from zero s lst e = none
free_from (suc fuel) s lst e =
    if e == lst
    then some (update s lst none)
    else (do n ← s e; free_from fuel (update s e none) lst n.next)

pub list_free : ℕ → Store → ℕ → Option Store
list_free fuel s lst =
    if lst == null then some s else (do head ← s lst; free_from fuel s lst head.next)

unfoldable pub list_elem_start_ascending : Store → ℕ → Option ℕ
list_elem_start_ascending s lst = do head ← s lst; some head.prev

unfoldable pub list_elem_start_descending : Store → ℕ → Option ℕ
list_elem_start_descending s lst = do head ← s lst; some head.next

unfoldable pub list_elem_next : Store → ℕ → Option ℕ
list_elem_next s p = do e ← s p; some e.next

unfoldable pub list_elem_prev : Store → ℕ → Option ℕ
list_elem_prev s p = do e ← s p; some e.prev

unfoldable pub list_elem_value : Store → ℕ → Option ℕ
list_elem_value s p = do e ← s p; some e.value

-- One round of `list_sort` from `e` on: whether two values were swapped, and the store.
unfoldable pub sort_round : ℕ → Store → ℕ → (ℕ → ℕ → Bool) → ℕ → Bool → Option (Bool × Store)
sort_round zero s lst comp e swapped = none
sort_round (suc fuel) s lst comp e swapped = do
  n ← s e
  if n.prev == lst then some (swapped, s) else (do
    m ← s n.prev
    if comp n.value m.value then sort_round fuel s lst comp n.prev swapped else (do
      s ← set_value s e m.value
      s ← set_value s n.prev n.value
      sort_round fuel s lst comp n.prev true))

-- `rounds` bounds the rounds of the loop, `fuel` the length of each.
unfoldable pub list_sort : ℕ → ℕ → Store → ℕ → (ℕ → ℕ → Bool) → Option Store
unfolding sort_round
list_sort zero fuel s lst comp = none
list_sort (suc rounds) fuel s lst comp = do
  head ← s lst
  (swapped, s) ← sort_round fuel s lst comp head.prev false
  if swapped then list_sort rounds fuel s lst comp else some s
