-- ===== src/Page/Free.antt =====
-- `page_free`: what a call gives back, that allocation and release are inverse, and what a double
-- free destroys.
use cs.Base.{
  ℕ, zero, suc, ◌+◌, ◌*◌, ◌%◌, ◌^◌, ◌≤◌, ◌<◌, ◌≡◌, ◌≢◌, ◌⊎◌, inl, inr, refl, arith, ◌&&◌, Option,
  none, some, leb, ltb, ◌==◌, if◌then◌else◌, Bool-cases,
}
use mathlib.Core.Path.{subst}
use cs.Memory.{Memory, null}
use cs.Util.Mem.Copy.{IsBytes}
use cs.Page.{
  Region, num_pages, page_size, bk_test, map_page_to_idx, chunk_end, free_chunk, page_free,
  page_nalloc,
}
use cs.Page.Chunk.{
  chunk_end-eq, chunk_end_bounds, chunk_end_past, free_chunk_at, free_chunk-IsBytes,
}
use cs.Page.Alloc.{IsValid, Allocated}

-- A heap that the linker script can lay out: page aligned, above address 0, within 64 bits, and
-- with fewer pages than an `int` counts.
pub record IsRegion (r : Region) : Type 0 where
  pub aligned : r.start % page_size ≡ 0
  pub above : 0 < r.start
  pub order : r.start ≤ r.stop
  pub fits : r.stop < 2 ^ 64
  pub few : num_pages r < 2 ^ 31

-- Pages `s` to `e` are one chunk.
pub record IsChunk (r : Region) (m : Memory) (s e : ℕ) : Type 0 where
  pub order : s ≤ e
  pub within : e < num_pages r
  pub inner : (j : ℕ) → s ≤ j → j < e → bk_test r m j ≡ 2
  pub last : bk_test r m e ≡ 3

pub map_page_to_idx-page :
    (r : Region) (i : ℕ)
    → IsRegion r
    → i < num_pages r
    → map_page_to_idx r (r.start + i * page_size) ≡ some i
unfolding map_page_to_idx
map_page_to_idx-page r i g h = ground arith

module _ (r : Region) (m : Memory) where
  free_page :
      (i : ℕ)
      → IsRegion r
      → suc i < num_pages r
      → bk_test r m i ≢ 2
      → page_free r m (r.start + suc i * page_size) ≡ some (free_chunk r m (suc i))
  unfolding page_free
  free_page i g h start = ground (arith, map_page_to_idx-page r (suc i) g h)

  -- The pages that a call clears when no page before `e` is the last of a chunk: free pages are
  -- passed over like taken ones.
  clears_to :
      (i e : ℕ)
      → IsBytes m
      → i ≤ e
      → e < num_pages r
      → ((j : ℕ) → i ≤ j → j < e → bk_test r m j ≢ 3)
      → bk_test r m e ≡ 3
      → (j : ℕ) → bk_test r (free_chunk r m i) j ≡ (if leb i j && leb j e then 0 else bk_test r m j)
  clears_to i e b h hn before at_end j =
      let stop : chunk_end r m (num_pages r) i ≡ e =
        chunk_end-eq r m (num_pages r) i e h (omega arith) hn before at_end in
      ground (arith, stop, free_chunk_at r m i j b)

  -- Releasing a chunk that does not begin at page 0, by the address of its first page, clears the
  -- statuses of exactly its pages. The page before it must not be the inside of another chunk.
  pub page_free-chunk :
      (i e : ℕ)
      → IsRegion r
      → IsBytes m
      → IsChunk r m (suc i) e
      → bk_test r m i ≢ 2
      → (m' : Memory) × (page_free r m (r.start + suc i * page_size) ≡ some m')
        × ((j : ℕ) → bk_test r m' j ≡ (if leb (suc i) j && leb j e then 0 else bk_test r m j))
  page_free-chunk i e g b c start = (
    free_chunk r m (suc i),
    free_page i g (omega (arith, c.order, c.within)) start,
    clears_to (suc i) e b c.order c.within (λ j p q. omega (arith, c.inner j p q)) c.last,
  )

  -- A double free: if page `i + 1` and every page from there to the chunk of pages `s` to `e` are
  -- free, then releasing page `i + 1` clears that chunk as well, which its owner still holds.
  pub page_free_double :
      (i s e : ℕ)
      → IsRegion r
      → IsBytes m
      → IsChunk r m s e
      → suc i ≤ s
      → ((j : ℕ) → suc i ≤ j → j < s → bk_test r m j ≡ 0)
      → bk_test r m i ≢ 2
      → (m' : Memory) × (page_free r m (r.start + suc i * page_size) ≡ some m')
        × ((j : ℕ) → s ≤ j → j ≤ e → bk_test r m' j ≡ 0)
  page_free_double i s e g b c before free start = (
    free_chunk r m (suc i),
    free_page i g (omega (arith, c.order, c.within)) start,
    λ j p q.
        ground (arith, clears_to (suc i) e b (omega (arith, c.order)) c.within not_last c.last j),
  )
    where
      not_last : (j : ℕ) → suc i ≤ j → j < e → bk_test r m j ≢ 3
      not_last j p q = elim (Bool-cases (ltb j s)) [
        | inl outside ↦ omega (arith, free j p (ground arith))
        | inr inside ↦ omega (arith, c.inner j (ground arith) q)
      ]

  refused_inside :
      (p i : ℕ) → map_page_to_idx r p ≡ some (suc i) → bk_test r m i ≡ 2 → page_free r m p ≡ some m
  unfolding page_free
  refused_inside p i idx inside = ground arith

  -- An address that is NULL, not page aligned, past the heap, or that of a page behind the inside
  -- of a chunk is refused: the call changes nothing.
  pub page_free-refused :
      (p : ℕ)
      → (p ≡ null)
        ⊎ (r.stop ≤ p)
        ⊎ (p % page_size ≢ 0)
        ⊎ ((i : ℕ) × (map_page_to_idx r p ≡ some (suc i)) × (bk_test r m i ≡ 2))
      → page_free r m p ≡ some m
  unfolding page_free map_page_to_idx
  page_free-refused p (inl h) = ground arith
  page_free-refused p (inr (inl h)) = ground arith
  page_free-refused p (inr (inr (inl h))) = ground arith
  page_free-refused p (inr (inr (inr (i, idx, inside)))) = refused_inside p i idx inside

  chunk_end_ge : (i : ℕ) → 0 < num_pages r → i ≤ chunk_end r m (num_pages r) i
  chunk_end_ge i pos = elim (Bool-cases (ltb i (num_pages r))) [
    | inl inside ↦ (chunk_end_bounds r m (num_pages r) i (ground arith)).0
    | inr past ↦ omega (arith, chunk_end_past r m (num_pages r) i (ground arith) pos)
  ]

  free_chunk-IsValid :
      (i : ℕ)
      → 0 < num_pages r
      → bk_test r m i ≢ 2
      → IsValid r m
      → IsValid r (free_chunk r m (suc i))
  free_chunk-IsValid i pos start v =
      let at = λ (j : ℕ). free_chunk_at r m (suc i) j v.bytes (chunk_end_ge (suc i) pos) in
      record {
        bytes = free_chunk-IsBytes r m (suc i) v.bytes;
        no_lone_last = λ j h. ground (arith, at j, v.no_lone_last j h);
        closed = λ j h z. ground (arith, at j, at (suc j), v.closed j h);
      }

  freed_cases :
      (p : ℕ) {m' : Memory} (o : Option ℕ)
      → map_page_to_idx r p ≡ o
      → page_free r m p ≡ some m'
      → (m ≡ m') ⊎ ((i : ℕ) × (bk_test r m i ≢ 2) × (free_chunk r m (suc i) ≡ m'))
  unfolding page_free
  freed_cases p none idx eq = ground arith
  freed_cases p (some zero) idx eq = ground arith
  freed_cases p (some (suc i)) idx eq = elim (Bool-cases (p == null)) [
    | inl is_null ↦ ground arith
    | inr address ↦ elim (Bool-cases (bk_test r m i == 2)) [
      | inl inside ↦ ground arith
      | inr start ↦ inr (i, ground arith, ground arith)
    ]
  ]

  -- Whatever the address, a call that is defined keeps the bookkeeping of a heap with any pages
  -- well formed.
  pub page_free-IsValid :
      (p : ℕ) {m' : Memory}
      → 0 < num_pages r
      → IsValid r m
      → page_free r m p ≡ some m'
      → IsValid r m'
  page_free-IsValid p pos v eq = elim (freed_cases p (map_page_to_idx r p) refl eq) [
    | inl same ↦ subst (IsValid r) same v
    | inr (i, start, cleared) ↦ subst (IsValid r) cleared (free_chunk-IsValid i pos start v)
  ]

-- After a `page_nalloc` that hands out pages `s` to `e`, `page_free` of its result puts every
-- status back to what it was before, if page 0 is taken, as `page_init` leaves it.
pub page_free-nalloc :
    (r : Region) (m : Memory) (n s e : ℕ)
    → IsRegion r
    → IsValid r m
    → bk_test r m 0 ≡ 3
    → Allocated r m n (page_nalloc r m n) s e
    → (m' : Memory) × (page_free r (page_nalloc r m n).1 (page_nalloc r m n).0 ≡ some m')
      × ((j : ℕ) → bk_test r m' j ≡ bk_test r m j)
page_free-nalloc r m n zero e g v zero_taken a =
    absurd (omega (arith, a.free 0 (omega arith) (omega arith)))
page_free-nalloc r m n (suc i) e g v zero_taken a =
    let (m', freed, statuses) =
      page_free-chunk r (page_nalloc r m n).1 i e g a.bytes chunk
        (ground (arith, a.statuses i, v.closed i, a.free (suc i), a.order, a.within)) in
    (m', rw a.address freed, λ j. ground (arith, statuses j, a.statuses j, a.free j, a.order))
  where
    chunk : IsChunk r (page_nalloc r m n).1 (suc i) e
    chunk = record {
      order = a.order;
      within = a.within;
      inner = λ j p q. ground (arith, a.statuses j);
      last = ground (arith, a.statuses e);
    }
