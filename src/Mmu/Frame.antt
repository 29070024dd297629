-- ===== src/Mmu/Frame.antt =====
-- What `mmu_map` relies on of the page allocator: a new table is one free page, zeroed, and the
-- call writes nothing else but one byte of the bookkeeping.
use cs.Base.{
  ℕ, suc, ◌+◌, ◌*◌, ◌/◌, ◌≤◌, ◌<◌, ◌≡◌, ◌≢◌, ◌⊎◌, inl, inr, Bool-cases, ◌∙◌, arith, true, false,
  leb, if◌then◌else◌,
}
use cs.Memory.{Memory, null, in_range}
use cs.Util.Mem.Copy.{IsBytes}
use cs.Page.{
  Region, num_pages, page_size, bk_test, book_byte, page_nalloc, page_znalloc, bk_size,
  page_count_free,
}
use cs.Util.Align.{align_up_page}
use cs.Page.Book.{bk_test-congr}
use cs.Mmu.{mmu_table_create}
use cs.Page.Init.{bk_pages}
use cs.Page.Alloc.{
  IsValid, Allocated, page_nalloc-Allocated, page_nalloc-IsValid, page_znalloc_lem,
  page_znalloc-fails,
}
use cs.Page.Free.{IsRegion}

-- The state in which the page allocator hands out tables: its bookkeeping is well formed, holds
-- the bits of every page, and the pages that it occupies are taken.
pub record Ready (r : Region) (m : Memory) : Type 0 where
  pub region : IsRegion r
  pub valid : IsValid r m
  pub covered : num_pages r ≤ 4 * bk_size r
  pub room : bk_pages r ≤ num_pages r
  pub booked : (i : ℕ) → i < bk_pages r → 2 ≤ bk_test r m i

-- Page `i` is in use by somebody, and does not hold bookkeeping.
pub record IsFrame (r : Region) (m : Memory) (i : ℕ) : Type 0 where
  pub inside : i < num_pages r
  pub behind : bk_pages r ≤ i
  pub taken : 2 ≤ bk_test r m i

abbrev pub frame_addr : Region → ℕ → ℕ
frame_addr r i = r.start + i * page_size

-- `m'` differs from `m` at most in page `i` and in the bookkeeping.
abbrev pub SameBut : Region → ℕ → Memory → Memory → Type 0
SameBut r i m m' =
    (x : ℕ) → r.start + bk_size r ≤ x → in_range (frame_addr r i) page_size x ≡ false → m' x ≡ m x

ne_of_lt : (x y : ℕ) → y < x → x ≢ y
ne_of_lt x y h = omega arith

pub record NewFrame (r : Region) (m : Memory) (out : ℕ × Memory) (i : ℕ) : Type 0 where
  pub address : out.0 ≡ frame_addr r i
  pub ready : Ready r out.1
  pub frame : IsFrame r out.1 i
  pub was_free : bk_test r m i ≡ 0
  pub zeroed : (x : ℕ) → in_range (frame_addr r i) page_size x ≡ true → out.1 x ≡ 0
  pub same : SameBut r i m out.1
  pub keeps : (j : ℕ) → j ≢ i → j < num_pages r → bk_test r out.1 j ≡ bk_test r m j

module _ (r : Region) (m : Memory) (ok : Ready r m) where
  -- the bookkeeping fills whole pages
  pub bk_whole : bk_pages r * page_size ≡ bk_size r
  bk_whole = omega (arith, align_up_page (num_pages r / 4) (omega arith))

  book_byte_low : (i : ℕ) → i < num_pages r → book_byte r i < r.start + bk_size r
  book_byte_low i h = omega (arith, ok.covered)

  -- A memory with the same bookkeeping bytes is as ready, and has the same frames.
  module _ (m' : Memory) (bytes : IsBytes m')
      (same : (x : ℕ) → r.start ≤ x → x < r.start + bk_size r → m' x ≡ m x) where
    pub bk_test_same : (i : ℕ) → i < num_pages r → bk_test r m' i ≡ bk_test r m i
    bk_test_same i h =
        bk_test-congr r m m' i (same (book_byte r i) (omega arith) (book_byte_low i h))

    pub Ready-same : Ready r m'
    Ready-same = record {
      region = ok.region;
      valid = record {
        bytes = bytes;
        no_lone_last = λ i h. rw (bk_test_same i h) (ok.valid.no_lone_last i h);
        closed =
            λ i h z. ground (arith, bk_test_same i h, ok.valid.closed i h, bk_test_same (suc i));
      };
      covered = ok.covered;
      room = ok.room;
      booked = λ i h. rw (bk_test_same i (omega (arith, ok.room))) (ok.booked i h);
    }

    pub IsFrame-same : (i : ℕ) → IsFrame r m i → IsFrame r m' i
    IsFrame-same i f = record {
      inside = f.inside;
      behind = f.behind;
      taken = rw (bk_test_same i f.inside) f.taken;
    }

module _ (r : Region) (m : Memory) (ok : Ready r m) where
  module _ (s e : ℕ) (a : Allocated r m 1 (page_nalloc r m 1) s e) where
    one_page : e ≡ s
    one_page = omega (arith, a.length, a.order)

    was_free : bk_test r m s ≡ 0
    was_free = a.free s (omega arith) a.order

    behind : bk_pages r ≤ s
    behind = elim (Bool-cases (leb (bk_pages r) s)) [
      | inl fine ↦ ground arith
      | inr below ↦ absurd (omega (arith, ok.booked s (ground arith), was_free))
    ]

    nalloc-Ready : Ready r (page_nalloc r m 1).1
    nalloc-Ready = record {
      region = ok.region;
      valid = page_nalloc-IsValid r m 1 ok.valid;
      covered = ok.covered;
      room = ok.room;
      booked = λ i h. ground (arith, a.statuses i, ok.booked i h);
    }

    -- the memory after the zeroing, byte by byte
    zalloc_at :
        (x : ℕ)
        → (page_znalloc r m 1).1 x
          ≡ (if in_range (frame_addr r s) page_size x then 0 else (page_nalloc r m 1).1 x)
    zalloc_at x = ground (arith, page_znalloc_lem r m 1 x, a.address, ok.region.above)

    zalloc-IsBytes : IsBytes (page_znalloc r m 1).1
    zalloc-IsBytes x = ground (arith, zalloc_at x, a.bytes x)

    books_same :
        (x : ℕ)
        → r.start ≤ x
        → x < r.start + bk_size r
        → (page_znalloc r m 1).1 x ≡ (page_nalloc r m 1).1 x
    books_same x p q = ground (arith, zalloc_at x, behind, bk_whole r m ok)

    kept :
        (j : ℕ)
        → j < num_pages r
        → bk_test r (page_znalloc r m 1).1 j ≡ bk_test r (page_nalloc r m 1).1 j
    kept j h =
        bk_test_same r (page_nalloc r m 1).1 nalloc-Ready (page_znalloc r m 1).1 zalloc-IsBytes
          books_same j h

    zalloc-NewFrame : NewFrame r m (page_znalloc r m 1) s
    zalloc-NewFrame = record {
      address = (page_znalloc_lem r m 1 0).0 ∙ a.address;
      ready =
          Ready-same r (page_nalloc r m 1).1 nalloc-Ready (page_znalloc r m 1).1 zalloc-IsBytes
            books_same;
      frame = record {
        inside = omega (arith, one_page, a.within);
        behind = behind;
        taken = omega (arith, kept s (omega (arith, one_page, a.within)), ground_status);
      };
      was_free = was_free;
      zeroed = λ x h. ground (arith, zalloc_at x);
      same = λ x p q. ground (
        arith,
        zalloc_at x,
        a.outside x (λ i h. ne_of_lt x (book_byte r i) (omega (arith, book_byte_low r m ok i h))),
      );
      keeps = λ j ne h. ground (arith, kept j h, a.statuses j, one_page);
    }
      where
        ground_status : 2 ≤ bk_test r (page_nalloc r m 1).1 s
        ground_status = ground (arith, a.statuses s, one_page)

  pub create_cases :
      ((mmu_table_create r m ≡ (null, m)) × (page_count_free r m ≡ 0))
      ⊎ ((i : ℕ) × NewFrame r m (mmu_table_create r m) i)
  unfolding mmu_table_create
  create_cases = elim (Bool-cases (leb 1 (page_count_free r m))) [
    | inl enough ↦
        let (s, e, a) = page_nalloc-Allocated r m 1 ok.valid (omega arith) (ground arith) in
        inr (s, zalloc-NewFrame s e a)
    | inr few ↦ inl (page_znalloc-fails r m 1 (ground arith), ground arith)
  ]
