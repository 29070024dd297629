-- ===== src/Page/Count.antt =====
-- Counting pages: the two counts of page.c, and sums of counts over adjacent ranges.
use cs.Base.{◌≢◌, if◌then◌else◌, ℕ, zero, suc, ◌+◌, ◌≤◌, ◌<◌, ◌≡◌, refl, arith, ap}
use native.Mathlib.Nat.{add-zero, zero-add}
use cs.Memory.{Memory, in_range}
use cs.Page.{
  Region, num_pages, bk_test, count_free_from, count_taken_from, page_count_free, page_count_taken,
}

module _ (r : Region) (m : Memory) where
  count_sum : (k i : ℕ) → count_free_from r m k i + count_taken_from r m k i ≡ k
  unfolding count_free_from count_taken_from
  count_sum zero i = refl
  count_sum (suc k) i = ground (arith, count_sum k (i + 1))

  -- The two counts classify every page of the heap exactly once.
  pub page_count_free-add-taken : page_count_free r m + page_count_taken r m ≡ num_pages r
  unfolding page_count_free page_count_taken
  page_count_free-add-taken = count_sum (num_pages r) 0

  pub count_free-le : (k i : ℕ) → count_free_from r m k i ≤ k
  count_free-le k i = omega (arith, count_sum k i)

  pub count_free_append :
      (a b i : ℕ)
      → count_free_from r m (a + b) i ≡ count_free_from r m a i + count_free_from r m b (i + a)
  unfolding count_free_from
  count_free_append zero b i = omega (
    arith,
    ap (λ (t : ℕ). count_free_from r m t i) (zero-add b),
    ap (count_free_from r m b) (add-zero i),
  )
  count_free_append (suc a) b i =
      let e : suc a + b ≡ suc (a + b) = omega arith in
      let f : i + suc a ≡ i + 1 + a = omega arith in
      rw (e, f) (omega (arith, count_free_append a b (i + 1)))

  pub count_free_all :
      (k i : ℕ) → ((j : ℕ) → i ≤ j → j < i + k → bk_test r m j < 2) → count_free_from r m k i ≡ k
  unfolding count_free_from
  count_free_all zero i free = refl
  count_free_all (suc k) i free =
      ground (arith, free i, count_free_all k (i + 1) (λ j p q. free j (omega arith) (omega arith)))

-- Where one free page is taken and no other status changes, the count falls by one.
module _ (r : Region) (m m' : Memory) (f : ℕ) (was_free : bk_test r m f < 2)
    (taken : 2 ≤ bk_test r m' f)
    (same : (j : ℕ) → j ≢ f → j < num_pages r → bk_test r m' j ≡ bk_test r m j) where
  count_taken_one :
      (k i : ℕ)
      → i + k ≤ num_pages r
      → count_free_from r m' k i + (if in_range i k f then 1 else 0) ≡ count_free_from r m k i
  unfolding count_free_from
  count_taken_one zero i h = ground arith
  count_taken_one (suc k) i h = ground (arith, count_taken_one k (i + 1), same i)

  pub page_count_free_one : f < num_pages r → page_count_free r m' + 1 ≡ page_count_free r m
  unfolding page_count_free
  page_count_free_one h = ground (arith, count_taken_one (num_pages r) 0)
