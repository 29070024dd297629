-- ===== src/Page.antt =====
-- src/page.c: the page allocator. Two bookkeeping bits for each page of the heap are kept in the
-- first pages of the heap itself: 0 is free, 2 is taken, 3 is taken and the last of its chunk.
-- `Region` holds the linker's symbols for the heap. A page number is the C `int` where that is not
-- negative; -1 and the other negative values are `none`. The mutex is taken and released within
-- each call, so a call is one step. The products with the page size, which the code computes in
-- `int`, are exact here: they agree on heaps below 2 GiB.
pub mod Book
pub mod Init
pub mod Search
pub mod Chunk
pub mod Count
pub mod Alloc
pub mod Free
pub mod Sample
mod Tests
use cs.Base.{
  ℕ, zero, suc, ◌+◌, ◌-◌, ◌*◌, ◌/◌, ◌%◌, ◌^◌, Bool, true, false, ◌&&◌, ◌||◌, not, Option, none,
  some, bit_and, bit_or, ltb, leb, ◌==◌, if◌then◌else◌,
}
use cs.Memory.{Memory, null, store8}
use cs.Util.Align.{align_up}
use cs.Util.Mem.{memset}

-- `sym_start(heap)` and `sym_end(heap)`
pub record Region : Type 0 where
  pub start : ℕ
  pub stop : ℕ

abbrev pub page_size : ℕ
page_size = 4096

-- `(heap_end - heap_start) / PAGE_SIZE`, on 64 bits
abbrev pub num_pages : Region → ℕ
num_pages r = (2 ^ 64 + r.stop - r.start) % 2 ^ 64 / page_size

-- the address of the byte that holds the bits of a page
abbrev pub book_byte : Region → ℕ → ℕ
book_byte r i = r.start + i / 4

pub bk_test : Region → Memory → ℕ → ℕ
bk_test r m i = m (book_byte r i) / 2 ^ (i % 4 * 2) % 4

pub bk_set : Region → Memory → ℕ → Bool → Memory
bk_set r m i last =
    store8 m (book_byte r i)
      (bit_or (m (book_byte r i)) ((2 + (if last then 1 else 0)) * 2 ^ (i % 4 * 2)))

-- `~(0x3 << bit_num)`, as far as a byte goes
pub bk_clear : Region → Memory → ℕ → Memory
bk_clear r m i = store8 m (book_byte r i) (bit_and (m (book_byte r i)) (0xff - 3 * 2 ^ (i % 4 * 2)))

-- The quotient is computed on 64 bits and converted to a 32-bit `int`.
pub map_page_to_idx : Region → ℕ → Option ℕ
map_page_to_idx r addr =
    let idx = (2 ^ 64 + addr - r.start) % 2 ^ 64 / page_size % 2 ^ 32 in
    if leb r.stop addr || not (addr % page_size == 0)
    then none
    else if ltb idx (2 ^ 31)
    then some idx
    else none

abbrev pub bk_size : Region → ℕ
bk_size r = align_up (num_pages r / 4) page_size

-- `for (i = ...; ...; i++) bk_set(i, true)`, with `k` rounds left
unfoldable pub mark_last : Region → ℕ → ℕ → Memory → Memory
mark_last r zero i m = m
mark_last r (suc k) i m = mark_last r k (i + 1) (bk_set r m i true)

pub page_init : Region → Memory → Memory
unfolding mark_last
page_init r m = mark_last r (bk_size r / page_size) 0 (memset m r.start 0 (bk_size r))

-- The search of `page_nalloc`: `k` pages are left, `start` is `start_indx` (`none` for -1). The
-- result is `start_indx` and `end_indx`, `none` where `end_indx` stays -1.
unfoldable pub search_from : Region → Memory → ℕ → ℕ → ℕ → Option ℕ → ℕ → Option (ℕ × ℕ)
search_from r m n zero i start pages_free = none
search_from r m n (suc k) i start pages_free =
    let again = search_from r m n k (i + 1) none pages_free in
    let first : ℕ = elim start [ none ↦ i | some s ↦ s ] in
    let more = search_from r m n k (i + 1) (some first) (pages_free + 1) in
    if leb 2 (bk_test r m i) then again else if pages_free + 1 == n then some (first, i) else more

-- `for (i = ...; ...; i++) bk_set(i, false)`, with `k` rounds left
unfoldable pub mark_taken : Region → ℕ → ℕ → Memory → Memory
mark_taken r zero i m = m
mark_taken r (suc k) i m = mark_taken r k (i + 1) (bk_set r m i false)

-- the bits of the chunk from page `s` to page `e`
pub take_chunk : Region → Memory → ℕ → ℕ → Memory
unfolding mark_taken
take_chunk r m s e = bk_set r (mark_taken r (e - s) s m) e true

-- The address (NULL on failure) and the memory after the call. A count that is not positive is 0.
pub page_nalloc : Region → Memory → ℕ → ℕ × Memory
unfolding search_from take_chunk
page_nalloc r m n = if n == 0 then (null, m) else elim (search_from r m n (num_pages r) 0 none 0) [
  | none ↦ (null, m)
  | some (s, e) ↦ (r.start + s * page_size, take_chunk r m s e)
]

pub page_znalloc : Region → Memory → ℕ → ℕ × Memory
unfolding page_nalloc
page_znalloc r m n =
    if n == 0
    then (null, m)
    else let (mem, m') = page_nalloc r m n in
      if mem == null then (null, m') else (mem, memset m' mem 0 (n * page_size))

-- `while (bk_test(end_idx) != 3 && end_idx < num_pages - 1) end_idx++`, with `k` pages to go
unfoldable pub chunk_end : Region → Memory → ℕ → ℕ → ℕ
chunk_end r m zero e = e
chunk_end r m (suc k) e =
    let next = chunk_end r m k (e + 1) in
    if not (bk_test r m e == 3) && ltb e ((2 ^ 64 + num_pages r - 1) % 2 ^ 64) then next else e

-- `for (i = ...; ...; i++) bk_clear(i)`, with `k` rounds left
unfoldable pub clear_pages : Region → ℕ → ℕ → Memory → Memory
clear_pages r zero i m = m
clear_pages r (suc k) i m = clear_pages r k (i + 1) (bk_clear r m i)

-- the bits of the chunk from page `i`, cleared
pub free_chunk : Region → Memory → ℕ → Memory
unfolding chunk_end clear_pages
free_chunk r m i = let e = chunk_end r m (num_pages r) i in clear_pages r (e + 1 - i) i m

-- `none` for page 0: `bk_test(-1)` shifts by a negative count, which C leaves undefined.
pub page_free : Region → Memory → ℕ → Option Memory
unfolding free_chunk
page_free r m p = if p == null then some m else elim (map_page_to_idx r p) [
  | none ↦ some m
  | some zero ↦ none
  | some (suc i) ↦ if bk_test r m i == 2 then some m else some (free_chunk r m (suc i))
]

-- The number of pages among the `k` from `i` on that pass the loop's test.
unfoldable pub count_free_from : Region → Memory → ℕ → ℕ → ℕ
count_free_from r m zero i = 0
count_free_from r m (suc k) i =
    (if ltb (bk_test r m i) 2 then 1 else 0) + count_free_from r m k (i + 1)

unfoldable pub count_taken_from : Region → Memory → ℕ → ℕ → ℕ
count_taken_from r m zero i = 0
count_taken_from r m (suc k) i =
    (if leb 2 (bk_test r m i) then 1 else 0) + count_taken_from r m k (i + 1)

pub page_count_free : Region → Memory → ℕ
unfolding count_free_from
page_count_free r m = count_free_from r m (num_pages r) 0

pub page_count_taken : Region → Memory → ℕ
unfolding count_taken_from
page_count_taken r m = count_taken_from r m (num_pages r) 0
