-- ===== src/Page/Search.antt =====
-- The search loop of `page_nalloc`: what its two indices say of the pages, and when it finds none.
-- The counter `pages_free` is not reset where the search meets a taken page.
use cs.Base.{
  ℕ, zero, suc, ◌+◌, ◌-◌, ◌≤◌, ◌<◌, ◌≡◌, inl, inr, refl, arith, Option, none, some, leb, ltb, ◌==◌,
  if◌then◌else◌, Bool-cases,
}
use cs.Memory.{Memory}
use cs.Page.{Region, bk_test, search_from, count_free_from}

-- the first page of the run of free pages that the search is in
abbrev pub run_start : ℕ → Option ℕ → ℕ
run_start i none = i
run_start i (some s) = s

-- What a successful search says of its two indices.
pub record Found (r : Region) (m : Memory) (n k i : ℕ) (start : Option ℕ) (pf s e : ℕ)
    : Type 0 where
  pub low : run_start i start ≤ s
  pub order : s ≤ e
  pub reach : i ≤ e
  pub within : e < i + k
  pub free : (j : ℕ) → s ≤ j → j ≤ e → bk_test r m j < 2
  pub count : pf + count_free_from r m (e + 1 - i) i ≡ n

module _ (r : Region) (m : Memory) (n : ℕ) where
  count_step :
      (i e : ℕ)
      → i ≤ e
      → count_free_from r m (e + 1 - i) i
        ≡ (if ltb (bk_test r m i) 2 then 1 else 0) + count_free_from r m (e + 1 - (i + 1)) (i + 1)
  unfolding count_free_from
  count_step i e h = let fuel : e + 1 - i ≡ suc (e + 1 - (i + 1)) = omega arith in rw fuel refl

  -- A page is free: the run goes on.
  run_step :
      (i : ℕ) (start : Option ℕ)
      → run_start i start ≤ i
      → ((j : ℕ) → run_start i start ≤ j → j < i → bk_test r m j < 2)
      → bk_test r m i < 2
      → (j : ℕ) → run_start i start ≤ j
      → j < i + 1
      → bk_test r m j < 2
  run_step i start lo run free j p q = elim (Bool-cases (j == i)) [
    | inl here ↦ ground arith
    | inr before ↦ run j p (ground arith)
  ]

  Found-last :
      (k i : ℕ) (start : Option ℕ) (pf : ℕ)
      → run_start i start ≤ i
      → ((j : ℕ) → run_start i start ≤ j → j < i → bk_test r m j < 2)
      → bk_test r m i < 2
      → pf + 1 ≡ n
      → Found r m n (suc k) i start pf (run_start i start) i
  unfolding count_free_from
  Found-last k i start pf lo run free done = record {
    low = omega arith;
    order = lo;
    reach = omega arith;
    within = omega arith;
    free = λ j p q. run_step i start lo run free j p (omega arith);
    count =
        let fuel : i + 1 - (i + 1) ≡ 0 = omega arith in
        rw (count_step i i (omega arith), fuel) (ground arith);
  }

  Found-next :
      (k i : ℕ) (start start' : Option ℕ) (pf pf' : ℕ) {s e : ℕ}
      → run_start i start ≤ run_start (i + 1) start'
      → pf' ≡ (if ltb (bk_test r m i) 2 then 1 else 0) + pf
      → Found r m n k (i + 1) start' pf' s e
      → Found r m n (suc k) i start pf s e
  Found-next k i start start' pf pf' {s} {e} lo eq f = record {
    low = omega arith;
    order = f.order;
    reach = omega arith;
    within = omega arith;
    free = f.free;
    count = omega (arith, count_step i e (omega arith));
  }

  pub search_from-Found :
      (k i : ℕ) (start : Option ℕ) (pf : ℕ) {s e : ℕ}
      → run_start i start ≤ i
      → ((j : ℕ) → run_start i start ≤ j → j < i → bk_test r m j < 2)
      → search_from r m n k i start pf ≡ some (s, e)
      → Found r m n k i start pf s e
  unfolding search_from count_free_from
  search_from-Found zero i start pf lo run h = cc
  search_from-Found (suc k) i start pf {s} {e} lo run h =
      elim (Bool-cases (leb 2 (bk_test r m i))) [
        | inl taken ↦ Found-next k i start none pf pf (omega arith) (ground arith) (
            search_from-Found k (i + 1) none pf (omega arith) (λ j p q. absurd (omega arith))
              (rw taken at h))
        | inr free ↦ elim (Bool-cases (pf + 1 == n)) [
          | inl done ↦
              let ends : (run_start i start ≡ s) × (i ≡ e) = ground arith in
              rw (← ends.0, ← ends.1) (Found-last k i start pf lo run (ground arith) (ground arith))
          | inr more ↦
              Found-next k i start (some (run_start i start)) pf (pf + 1) (omega arith)
                (ground arith)
                (search_from-Found k (i + 1) (some (run_start i start)) (pf + 1) (omega arith)
                  (run_step i start lo run (ground arith)) (rw (free, more) at h))
        ]
      ]

  pub search_from-none :
      (k i : ℕ) (start : Option ℕ) (pf : ℕ)
      → pf < n
      → search_from r m n k i start pf ≡ none
      → pf + count_free_from r m k i < n
  unfolding search_from count_free_from
  search_from-none zero i start pf p h = omega arith
  search_from-none (suc k) i start pf p h = ground (
    arith,
    search_from-none k (i + 1) none pf,
    search_from-none k (i + 1) (some (run_start i start)) (pf + 1),
  )
