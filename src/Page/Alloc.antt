-- ===== src/Page/Alloc.antt =====
-- `page_nalloc` and `page_znalloc`: the bookkeeping invariant, what a successful call hands out,
-- and exactly when a call fails.
use cs.Base.{
  ℕ, suc, ◌+◌, ◌-◌, ◌*◌, ◌≤◌, ◌<◌, ◌≡◌, ◌≢◌, inl, inr, refl, ◌∙◌, arith, true, false, ◌&&◌, not,
  Option, none, some, leb, ltb, ◌==◌, if◌then◌else◌, Bool-cases,
}
use cs.Memory.{Memory, null, in_range}
use cs.Util.Mem.Copy.{IsBytes}
use cs.Util.Mem.Set.{memset_lem}
use cs.Page.{
  Region, book_byte, num_pages, page_size, bk_test, search_from, take_chunk, page_nalloc,
  page_znalloc, count_free_from, page_count_free,
}
use cs.Page.Chunk.{take_chunk-IsBytes, take_chunk_outside, take_chunk_at}
use cs.Page.Count.{count_free_append, count_free_all}
use cs.Page.Search.{Found, search_from-Found, search_from-none}

-- The bookkeeping is well formed: no page has the bit "last" alone, and a page that is taken and
-- not last is followed by a taken page of the heap.
pub record IsValid (r : Region) (m : Memory) : Type 0 where
  pub bytes : IsBytes m
  pub no_lone_last : (i : ℕ) → i < num_pages r → bk_test r m i ≢ 1
  pub closed :
      (i : ℕ)
      → i < num_pages r
      → bk_test r m i ≡ 2
      → (suc i < num_pages r) × (2 ≤ bk_test r m (suc i))

-- What a successful call with `n` hands out: pages `s` to `e`, free before and now one chunk, with
-- all other statuses kept. The count says how many pages the chunk lacks.
pub record Allocated (r : Region) (m : Memory) (n : ℕ) (out : ℕ × Memory) (s e : ℕ) : Type 0 where
  pub address : out.0 ≡ r.start + s * page_size
  pub order : s ≤ e
  pub within : e < num_pages r
  pub free : (j : ℕ) → s ≤ j → j ≤ e → bk_test r m j ≡ 0
  pub statuses :
      (j : ℕ)
      → bk_test r out.1 j ≡ (if j == e then 3 else if leb s j && ltb j e then 2 else bk_test r m j)
  pub bytes : IsBytes out.1
  pub outside : (x : ℕ) → ((i : ℕ) → i < num_pages r → x ≢ book_byte r i) → out.1 x ≡ m x
  pub length : count_free_from r m s 0 + (e + 1 - s) ≡ n

module _ (r : Region) (m : Memory) (n : ℕ) where
  chunk_length :
      (s e : ℕ)
      → s ≤ e
      → ((j : ℕ) → s ≤ j → j ≤ e → bk_test r m j < 2)
      → count_free_from r m s 0 + (e + 1 - s) ≡ 0 + count_free_from r m (e + 1 - 0) 0
  chunk_length s e h free =
      let parts : e + 1 - 0 ≡ s + (e + 1 - s) = omega arith in
      rw (parts, count_free_append r m s (e + 1 - s) 0)
        (omega (
          arith,
          count_free_all r m (e + 1 - s) (0 + s) (λ j p q. free j (omega arith) (omega arith)),
        ))

  count_mono : (a b : ℕ) → a ≤ b → count_free_from r m a 0 ≤ count_free_from r m b 0
  count_mono a b h =
      let parts : b ≡ a + (b - a) = omega arith in
      rw parts (omega (arith, count_free_append r m a (b - a) 0))

  count_upto :
      (e : ℕ)
      → e < num_pages r
      → count_free_from r m (e + 1 - 0) 0 ≤ count_free_from r m (num_pages r) 0
  count_upto e h = count_mono (e + 1 - 0) (num_pages r) (omega arith)

  Found-Allocated :
      {s e : ℕ}
      → IsValid r m
      → Found r m n (num_pages r) 0 none 0 s e
      → Allocated r m n (r.start + s * page_size, take_chunk r m s e) s e
  Found-Allocated {s} {e} v f = record {
    address = refl;
    order = f.order;
    within = omega arith;
    free = zeros;
    statuses = λ j. ground (arith, take_chunk_at r m s e j v.bytes f.order zeros);
    bytes = take_chunk-IsBytes r m s e v.bytes;
    outside = λ x h. take_chunk_outside r m s e x f.order (λ j p. h j (omega (arith, f.within)));
    length = chunk_length s e f.order f.free ∙ f.count;
  }
    where
      zeros : (j : ℕ) → s ≤ j → j ≤ e → bk_test r m j ≡ 0
      zeros j p q = ground (arith, f.free j p q, v.no_lone_last j)

  -- Over well-formed bookkeeping, a call for `n > 0` pages succeeds whenever at least `n` pages of
  -- the heap are free. It returns the address of its first page `s`; every page from `s` to `e`
  -- was free, and is now marked 2, the last one 3, while every other status and every byte outside the bookkeeping is kept. The chunk has
  -- `n` pages less the number of free pages below `s`.
  pub page_nalloc-Allocated :
      IsValid r m
      → 0 < n
      → n ≤ page_count_free r m
      → (s : ℕ) × (e : ℕ) × Allocated r m n (page_nalloc r m n) s e
  unfolding page_nalloc page_count_free
  page_nalloc-Allocated v pos enough = go (search_from r m n (num_pages r) 0 none 0) refl
    where
      go :
          (o : Option (ℕ × ℕ))
          → search_from r m n (num_pages r) 0 none 0 ≡ o
          → (s : ℕ) × (e : ℕ) × Allocated r m n (page_nalloc r m n) s e
      go none e = absurd (omega (arith, search_from-none r m n (num_pages r) 0 none 0 pos e))
      go (some (s, e)) eq = (
        s,
        e,
        rw (positive, eq, page_nalloc)
            (Found-Allocated v (
              search_from-Found r m n (num_pages r) 0 none 0 (omega arith)
                (λ j p q. absurd (omega arith)) eq)),
      )
        where
          positive : (n == 0) ≡ false
          positive = ground arith

  -- A call for more pages than are free in the whole heap returns NULL and changes nothing.
  pub page_nalloc-fails : page_count_free r m < n → page_nalloc r m n ≡ (null, m)
  unfolding page_nalloc page_count_free
  page_nalloc-fails few = go (search_from r m n (num_pages r) 0 none 0) refl
    where
      go :
          (o : Option (ℕ × ℕ))
          → search_from r m n (num_pages r) 0 none 0 ≡ o
          → page_nalloc r m n ≡ (null, m)
      go none eq = ground arith
      go (some (s, e)) eq =
          let f =
            search_from-Found r m n (num_pages r) 0 none 0 (omega arith)
              (λ j p q. absurd (omega arith)) eq in
          absurd (omega (arith, f.count, f.within, few, count_upto e (omega (arith, f.within))))

  -- The chunk is too short where a taken page lies between free pages that the search has counted:
  -- if page `t` is taken, some but fewer than `n` pages below it are free, and the heap has `n`
  -- free pages, then the call succeeds and returns a chunk of fewer than `n` pages.
  pub page_nalloc_short :
      (t : ℕ)
      → IsValid r m
      → n ≤ page_count_free r m
      → t < num_pages r
      → 2 ≤ bk_test r m t
      → 0 < count_free_from r m t 0
      → count_free_from r m t 0 < n
      → (s : ℕ) × (e : ℕ) × Allocated r m n (page_nalloc r m n) s e × (e + 1 - s < n)
  page_nalloc_short t v enough ht taken some_free few =
      let (s, e, a) = page_nalloc-Allocated v (omega arith) enough in
      (s, e, a, shorter s e a.order a.free a.length)
    where
      shorter :
          (s e : ℕ)
          → s ≤ e
          → ((j : ℕ) → s ≤ j → j ≤ e → bk_test r m j ≡ 0)
          → count_free_from r m s 0 + (e + 1 - s) ≡ n
          → e + 1 - s < n
      shorter s e order free len = elim (Bool-cases (ltb t s)) [
        | inl before ↦ omega (arith, count_mono t s (ground arith))
        | inr after ↦ elim (Bool-cases (leb t e)) [
          | inl inside ↦ absurd (omega (arith, free t (ground arith) (ground arith)))
          | inr beyond ↦
              let past : e + 1 ≤ t = ground arith in
              absurd (
                omega (
                  arith,
                  count_mono (e + 1 - 0) t (omega (arith, past)),
                  chunk_length s e order (λ j p q. omega (arith, free j p q)),
                ))
        ]
      ]

  page_nalloc_none : (n == 0) ≡ true → page_nalloc r m n ≡ (null, m)
  unfolding page_nalloc
  page_nalloc_none e = rw e

  Allocated-IsValid :
      (out : ℕ × Memory) (s e : ℕ) → IsValid r m → Allocated r m n out s e → IsValid r out.1
  Allocated-IsValid out s e v a = record {
    bytes = a.bytes;
    no_lone_last = λ i h. ground (arith, a.statuses i, v.no_lone_last i h);
    closed = λ i h z.
        ground (
          arith,
          a.statuses i,
          a.statuses (suc i),
          v.closed i h,
          a.free (suc i),
          a.order,
          a.within,
        );
  }

  -- A call keeps the bookkeeping well formed, whether it succeeds or fails.
  pub page_nalloc-IsValid : IsValid r m → IsValid r (page_nalloc r m n).1
  page_nalloc-IsValid v = elim (Bool-cases (leb n (page_count_free r m))) [
    | inl enough ↦ elim (Bool-cases (n == 0)) [
      | inl nothing ↦ rw (page_nalloc_none nothing) v
      | inr some_pages ↦
          let (s, e, a) = page_nalloc-Allocated v (ground arith) (ground arith) in
          Allocated-IsValid (page_nalloc r m n) s e v a
    ]
    | inr few ↦ rw (page_nalloc-fails (ground arith)) v
  ]

  -- `page_znalloc` returns what `page_nalloc` returns. After a success the bytes of `n` pages from
  -- that address on are 0, and every other byte is as `page_nalloc` left it; after a failure the
  -- whole memory is as `page_nalloc` left it.
  pub page_znalloc_lem :
      (x : ℕ)
      → ((page_znalloc r m n).0 ≡ (page_nalloc r m n).0)
        × ((page_znalloc r m n).1 x ≡ (
            if not ((page_nalloc r m n).0 == null)
              && in_range (page_nalloc r m n).0 (n * page_size) x
            then 0
            else (page_nalloc r m n).1 x))
  unfolding page_znalloc
  page_znalloc_lem x = ground (
    arith,
    page_nalloc_none,
    memset_lem (page_nalloc r m n).1 (page_nalloc r m n).0 0 (n * page_size) x,
  )

  pub page_znalloc-fails : page_count_free r m < n → page_znalloc r m n ≡ (null, m)
  unfolding page_znalloc
  page_znalloc-fails few = rw (page_nalloc-fails few) (ground arith)
