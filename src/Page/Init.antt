-- ===== src/Page/Init.antt =====
-- `page_init`: the state that the allocator starts in, and when the bookkeeping bytes are enough.
use cs.Base.{
  ℕ, ◌+◌, ◌/◌, ◌%◌, ◌≤◌, ◌<◌, ◌≡◌, ◌*◌, ◌&&◌, ◌==◌, not, refl, arith, ltb, leb, if◌then◌else◌,
}
use native.Mathlib.Nat.{zero-div}
use cs.Memory.{Memory}
use cs.Util.Align.{align_up_page}
use cs.Util.Mem.{memset}
use cs.Util.Mem.Set.{memset_lem}
use cs.Util.Mem.Copy.{IsBytes}
use cs.Page.{Region, num_pages, page_size, bk_size, bk_test, book_byte, page_init}
use cs.Page.Chunk.{mark_last-IsBytes, mark_last_at}
use cs.Page.Alloc.{IsValid}

-- the number of pages that hold the bookkeeping
abbrev pub bk_pages : Region → ℕ
bk_pages r = bk_size r / page_size

module _ (r : Region) (m : Memory) (b : IsBytes m) where
  zeroed : IsBytes (memset m r.start 0 (bk_size r))
  zeroed x = ground (arith, memset_lem m r.start 0 (bk_size r) x, b x)

  zero_status : (i : ℕ) → i / 4 < bk_size r → bk_test r (memset m r.start 0 (bk_size r)) i ≡ 0
  unfolding bk_test
  zero_status i h =
      let byte : memset m r.start 0 (bk_size r) (r.start + i / 4) ≡ 0 =
        ground (arith, memset_lem m r.start 0 (bk_size r) (r.start + i / 4)) in
      rw (byte, zero-div) refl

  -- After `page_init` the pages of the bookkeeping itself are chunks of one page, and every other
  -- page whose bits lie in the zeroed bytes is free.
  pub page_init_statuses :
      (i : ℕ)
      → i / 4 < bk_size r
      → bk_test r (page_init r m) i ≡ (if ltb i (bk_pages r) then 3 else 0)
  unfolding page_init
  page_init_statuses i h = ground (
    arith,
    mark_last_at r (bk_pages r) 0 i (memset m r.start 0 (bk_size r)) zeroed,
    zero_status i h,
  )

  page_init-IsBytes : IsBytes (page_init r m)
  unfolding page_init
  page_init-IsBytes = mark_last-IsBytes r (bk_pages r) 0 (memset m r.start 0 (bk_size r)) zeroed

  covers : (i : ℕ) → num_pages r % 4 ≡ 0 → i < num_pages r → i / 4 < bk_size r
  covers i h p = omega (arith, align_up_page (num_pages r / 4) (omega arith))

  -- Where the number of pages is a multiple of 4, `page_init` leaves well-formed bookkeeping.
  pub page_init-IsValid : num_pages r % 4 ≡ 0 → IsValid r (page_init r m)
  page_init-IsValid h = record {
    bytes = page_init-IsBytes;
    no_lone_last = λ i p. ground (arith, page_init_statuses i (omega (arith, covers i h p)));
    closed = λ i p. ground (arith, page_init_statuses i (omega (arith, covers i h p)));
  }

-- The byte with the bits of a page of the heap lies in the bookkeeping, unless a quarter of the number of
-- pages, rounded down, fills whole pages and the page comes after the last four that share a byte: then
-- it is the first byte behind the bookkeeping.
pub bk_size_covers :
    (r : Region) (i : ℕ)
    → i < num_pages r
    → (ltb (book_byte r i) (r.start + bk_size r)
        ≡ not (num_pages r / 4 % page_size == 0 && leb (num_pages r / 4 * 4) i))
      × (book_byte r i ≤ r.start + bk_size r)
bk_size_covers r i h = (
  ground (arith, align_up_page (num_pages r / 4) (omega arith)),
  omega (arith, align_up_page (num_pages r / 4) (omega arith)),
)
