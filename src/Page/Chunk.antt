-- ===== src/Page/Chunk.antt =====
-- Runs of pages: what the loops of `page_nalloc`, `page_free` and `page_init` do to the statuses,
-- and where `page_free` stops.
use cs.Base.{
  ◌∙◌, ℕ, zero, suc, ◌+◌, ◌-◌, ◌≤◌, ◌<◌, ◌≡◌, ◌≢◌, ◌⊎◌, inl, inr, refl, arith, true, false, ◌&&◌,
  bit_or, leb, ◌==◌, if◌then◌else◌, Bool-cases,
}
use cs.Memory.{Memory, in_range}
use cs.Util.Mem.Copy.{IsBytes}
use cs.Page.{
  Region, book_byte, num_pages, bk_test, bk_set, bk_clear, mark_last, mark_taken, take_chunk,
  chunk_end, clear_pages, free_chunk,
}
use cs.Page.Book.{bk_test-set, bk_test-clear, bk_set-IsBytes, bk_set_outside, bk_clear-IsBytes}

module _ (r : Region) where
  pub mark_last-IsBytes : (k i : ℕ) (m : Memory) → IsBytes m → IsBytes (mark_last r k i m)
  unfolding mark_last
  mark_last-IsBytes zero i m b = b
  mark_last-IsBytes (suc k) i m b =
      mark_last-IsBytes k (i + 1) (bk_set r m i true) (bk_set-IsBytes r m i true b)

  pub mark_last_at :
      (k i j : ℕ) (m : Memory)
      → IsBytes m
      → bk_test r (mark_last r k i m) j
        ≡ (if in_range i k j then bit_or (bk_test r m j) 3 else bk_test r m j)
  unfolding mark_last
  mark_last_at zero i j m b = ground arith
  mark_last_at (suc k) i j m b = ground (
    arith,
    mark_last_at k (i + 1) j (bk_set r m i true) (bk_set-IsBytes r m i true b),
    bk_test-set r m i j true b,
  )

  mark_taken-IsBytes : (k i : ℕ) (m : Memory) → IsBytes m → IsBytes (mark_taken r k i m)
  unfolding mark_taken
  mark_taken-IsBytes zero i m b = b
  mark_taken-IsBytes (suc k) i m b =
      mark_taken-IsBytes k (i + 1) (bk_set r m i false) (bk_set-IsBytes r m i false b)

  mark_taken_at :
      (k i j : ℕ) (m : Memory)
      → IsBytes m
      → bk_test r (mark_taken r k i m) j
        ≡ (if in_range i k j then bit_or (bk_test r m j) 2 else bk_test r m j)
  unfolding mark_taken
  mark_taken_at zero i j m b = ground arith
  mark_taken_at (suc k) i j m b = ground (
    arith,
    mark_taken_at k (i + 1) j (bk_set r m i false) (bk_set-IsBytes r m i false b),
    bk_test-set r m i j false b,
  )

  clear_pages-IsBytes : (k i : ℕ) (m : Memory) → IsBytes m → IsBytes (clear_pages r k i m)
  unfolding clear_pages
  clear_pages-IsBytes zero i m b = b
  clear_pages-IsBytes (suc k) i m b =
      clear_pages-IsBytes k (i + 1) (bk_clear r m i) (bk_clear-IsBytes r m i b)

  clear_pages_at :
      (k i j : ℕ) (m : Memory)
      → IsBytes m
      → bk_test r (clear_pages r k i m) j ≡ (if in_range i k j then 0 else bk_test r m j)
  unfolding clear_pages
  clear_pages_at zero i j m b = ground arith
  clear_pages_at (suc k) i j m b = ground (
    arith,
    clear_pages_at k (i + 1) j (bk_clear r m i) (bk_clear-IsBytes r m i b),
    bk_test-clear r m i j b,
  )

  pub take_chunk-IsBytes : (m : Memory) (s e : ℕ) → IsBytes m → IsBytes (take_chunk r m s e)
  unfolding take_chunk
  take_chunk-IsBytes m s e b =
      bk_set-IsBytes r (mark_taken r (e - s) s m) e true (mark_taken-IsBytes (e - s) s m b)

  -- A run of pages with status 0 is taken: 2 on each, and 3 on the last.
  pub take_chunk_at :
      (m : Memory) (s e j : ℕ)
      → IsBytes m
      → s ≤ e
      → ((i : ℕ) → s ≤ i → i ≤ e → bk_test r m i ≡ 0)
      → bk_test r (take_chunk r m s e) j
        ≡ (if j == e then 3 else if in_range s (e - s) j then 2 else bk_test r m j)
  unfolding take_chunk
  take_chunk_at m s e j b h free = ground (
    arith,
    mark_taken_at (e - s) s j m b,
    free j,
    bk_test-set r (mark_taken r (e - s) s m) e j true (mark_taken-IsBytes (e - s) s m b),
  )

  mark_taken_outside :
      (k i x : ℕ) (m : Memory)
      → ((j : ℕ) → j < i + k → x ≢ book_byte r j)
      → mark_taken r k i m x ≡ m x
  unfolding mark_taken
  mark_taken_outside zero i x m h = refl
  mark_taken_outside (suc k) i x m h =
      mark_taken_outside k (i + 1) x (bk_set r m i false) (λ j p. h j (omega arith))
      ∙ bk_set_outside r m i x false (h i (omega arith))

  pub take_chunk_outside :
      (m : Memory) (s e x : ℕ)
      → s ≤ e
      → ((j : ℕ) → j ≤ e → x ≢ book_byte r j)
      → take_chunk r m s e x ≡ m x
  unfolding take_chunk
  take_chunk_outside m s e x order h =
      bk_set_outside r (mark_taken r (e - s) s m) e x true (h e (omega arith))
      ∙ mark_taken_outside (e - s) s x m (λ j p. h j (omega arith))

  pub free_chunk-IsBytes : (m : Memory) (i : ℕ) → IsBytes m → IsBytes (free_chunk r m i)
  unfolding free_chunk
  free_chunk-IsBytes m i b = clear_pages-IsBytes (chunk_end r m (num_pages r) i + 1 - i) i m b

  pub free_chunk_at :
      (m : Memory) (i j : ℕ)
      → IsBytes m
      → i ≤ chunk_end r m (num_pages r) i
      → bk_test r (free_chunk r m i) j
        ≡ (if leb i j && leb j (chunk_end r m (num_pages r) i) then 0 else bk_test r m j)
  unfolding free_chunk
  free_chunk_at m i j b h =
      ground (arith, clear_pages_at (chunk_end r m (num_pages r) i + 1 - i) i j m b)

  -- The loop stops at the first page with status 3.
  pub chunk_end-eq :
      (m : Memory) (k i e : ℕ)
      → i ≤ e
      → e < i + k
      → e < num_pages r
      → ((j : ℕ) → i ≤ j → j < e → bk_test r m j ≢ 3)
      → bk_test r m e ≡ 3
      → chunk_end r m k i ≡ e
  unfolding chunk_end
  chunk_end-eq m zero i e h hk hn before at_end = absurd (omega arith)
  chunk_end-eq m (suc k) i e h hk hn before at_end = elim (Bool-cases (i == e)) [
    | inl here ↦ ground arith
    | inr on ↦
        let further : i + 1 ≤ e = ground arith in
        ground (
          arith,
          before i,
          chunk_end-eq m k (i + 1) e further (omega arith) hn (λ j p. before j (omega arith))
              at_end,
        )
  ]

  -- The loop never leaves the heap.
  pub chunk_end_bounds :
      (m : Memory) (k i : ℕ)
      → i < num_pages r
      → (i ≤ chunk_end r m k i) × (chunk_end r m k i < num_pages r)
  unfolding chunk_end
  chunk_end_bounds m zero i h = omega arith
  chunk_end_bounds m (suc k) i h = ground (arith, chunk_end_bounds m k (i + 1))

  -- With fuel for every page it stops at status 3 or at the last page of the heap.
  pub chunk_end_last :
      (m : Memory) (k i : ℕ)
      → i < num_pages r
      → num_pages r ≤ i + k
      → (bk_test r m (chunk_end r m k i) ≡ 3) ⊎ (chunk_end r m k i ≡ num_pages r - 1)
  unfolding chunk_end
  chunk_end_last m zero i h hk = absurd (omega arith)
  chunk_end_last m (suc k) i h hk = ground (arith, chunk_end_last m k (i + 1))

  -- Past the heap it stops at once.
  pub chunk_end_past :
      (m : Memory) (k i : ℕ) → num_pages r ≤ i → 0 < num_pages r → chunk_end r m k i ≡ i
  unfolding chunk_end
  chunk_end_past m zero i h pos = refl
  chunk_end_past m (suc k) i h pos = ground arith
