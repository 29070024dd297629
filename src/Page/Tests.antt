-- ===== src/Page/Tests.antt =====
-- The page allocator on the heap of eight pages: each theorem at a concrete state.
use cs.Base.{
  ℕ, ◌+◌, ◌-◌, ◌*◌, ◌/◌, ◌%◌, ◌≤◌, ◌<◌, ◌≡◌, refl, arith, ◌&&◌, ◌==◌, not, some, leb, ltb,
  if◌then◌else◌,
}
use cs.Memory.{Memory}
use cs.Util.Align.{align_up}
use cs.Page.{
  Region, book_byte, num_pages, page_size, bk_size, bk_test, bk_clear, page_init, page_nalloc,
  map_page_to_idx, free_chunk, page_free, count_free_from, page_count_free,
}
use cs.Page.Init.{bk_pages, page_init_statuses, bk_size_covers}
use cs.Page.Alloc.{
  IsValid, Allocated, page_nalloc-Allocated, page_nalloc_short, page_nalloc-IsValid,
}
use cs.Page.Sample.{heap, noise, noise-IsBytes, fresh, heap-IsRegion, fresh-IsValid, fresh_counts}
use cs.Page.Free.{IsChunk, page_free-chunk, page_free_double, page_free-IsValid, page_free-nalloc}

-- Pages 1 and 2 handed out one by one, then page 1 given back: a gap of one page.
gap : Memory
unfolding fresh page_nalloc bk_test free_chunk bk_clear
gap = free_chunk heap (page_nalloc heap (page_nalloc heap fresh 1).1 1).1 1

gap_statuses :
    (bk_test heap gap 0 ≡ 3)
    × (bk_test heap gap 1 ≡ 0)
    × (bk_test heap gap 2 ≡ 3)
    × (bk_test heap gap 3 ≡ 0)
    × (page_count_free heap gap ≡ 6)
    × (count_free_from heap gap 2 0 ≡ 1)
unfolding gap page_count_free
gap_statuses = (refl, refl, refl, refl, refl, refl)

two_taken : Memory
unfolding fresh page_nalloc bk_test
two_taken = (page_nalloc heap (page_nalloc heap fresh 1).1 1).1

two_taken-IsValid : IsValid heap two_taken
unfolding two_taken
two_taken-IsValid =
    page_nalloc-IsValid heap (page_nalloc heap fresh 1).1 1
      (page_nalloc-IsValid heap fresh 1 fresh-IsValid)

first_freed : page_free heap two_taken 0x2000 ≡ some gap
unfolding page_free two_taken gap map_page_to_idx
first_freed = refl

gap-IsValid : IsValid heap gap
gap-IsValid = page_free-IsValid heap two_taken 0x2000 (omega arith) two_taken-IsValid first_freed

page_init_statuses_example :
    bk_test heap (page_init heap noise) 5 ≡ (if ltb 5 (bk_pages heap) then 3 else 0)
unfolding align_up
page_init_statuses_example = page_init_statuses heap noise noise-IsBytes 5 (omega arith)

-- 16385 pages: a quarter of them is 4096, and the last one has its bits in the byte after those.
abbrev odd_heap : Region
odd_heap = record { start = 0x1000; stop = 0x4002000 }

bk_size_covers_example :
    (ltb (book_byte odd_heap 16384) (0x1000 + bk_size odd_heap)
      ≡ not (num_pages odd_heap / 4 % page_size == 0 && leb (num_pages odd_heap / 4 * 4) 16384))
    × (book_byte odd_heap 16384 ≤ 0x1000 + bk_size odd_heap)
bk_size_covers_example = bk_size_covers odd_heap 16384 (omega arith)

page_nalloc-Allocated_example :
    (s : ℕ) × (e : ℕ) × Allocated heap fresh 3 (page_nalloc heap fresh 3) s e
page_nalloc-Allocated_example =
    page_nalloc-Allocated heap fresh 3 fresh-IsValid (omega arith) (omega (arith, fresh_counts.0))

page_nalloc_short_example :
    (s : ℕ) × (e : ℕ) × Allocated heap gap 2 (page_nalloc heap gap 2) s e × (e + 1 - s < 2)
page_nalloc_short_example =
    page_nalloc_short heap gap 2 2 gap-IsValid (omega (arith, gap_statuses.4)) (omega arith)
      (omega (arith, gap_statuses.2)) (omega (arith, gap_statuses.5))
      (omega (arith, gap_statuses.5))

page_nalloc-IsValid_example : IsValid heap (page_nalloc heap gap 2).1
page_nalloc-IsValid_example = page_nalloc-IsValid heap gap 2 gap-IsValid

-- page 2 is a chunk of its own
gap-IsChunk : IsChunk heap gap 2 2
gap-IsChunk = record {
  order = omega arith;
  within = omega arith;
  inner = λ j p q. absurd (omega arith);
  last = gap_statuses.2;
}

page_free-chunk_example :
    (m' : Memory) × (page_free heap gap 0x3000 ≡ some m')
    × ((j : ℕ) → bk_test heap m' j ≡ (if leb 2 j && leb j 2 then 0 else bk_test heap gap j))
page_free-chunk_example =
    page_free-chunk heap gap 1 2 heap-IsRegion gap-IsValid.bytes gap-IsChunk
      (omega (arith, gap_statuses.1))

page_free_double_example :
    (m' : Memory) × (page_free heap gap 0x2000 ≡ some m')
    × ((j : ℕ) → 2 ≤ j → j ≤ 2 → bk_test heap m' j ≡ 0)
page_free_double_example =
    page_free_double heap gap 0 2 2 heap-IsRegion gap-IsValid.bytes gap-IsChunk (omega arith)
      page_one (omega (arith, gap_statuses.0))
  where
    page_one : (j : ℕ) → 1 ≤ j → j < 2 → bk_test heap gap j ≡ 0
    page_one j p q = let e : j ≡ 1 = omega arith in rw e gap_statuses.1

handed_out : (s : ℕ) × (e : ℕ) × Allocated heap fresh 3 (page_nalloc heap fresh 3) s e
handed_out =
    page_nalloc-Allocated heap fresh 3 fresh-IsValid (omega arith) (omega (arith, fresh_counts.0))

page_free-nalloc_example :
    (m' : Memory) × (page_free heap (page_nalloc heap fresh 3).1 (page_nalloc heap fresh 3).0
      ≡ some m')
    × ((j : ℕ) → bk_test heap m' j ≡ bk_test heap fresh j)
page_free-nalloc_example =
    page_free-nalloc heap fresh 3 handed_out.0 handed_out.1 heap-IsRegion fresh-IsValid
      fresh_counts.1 handed_out.2
