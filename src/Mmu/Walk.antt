-- ===== src/Mmu/Walk.antt =====
-- The walk of `mmu_map` from the root to the table of the new leaf: it follows the branches that
-- are there and adds tables where one is missing, and leaves a chain of branches behind.
use cs.Base.{
  ℕ, zero, suc, ◌+◌, ◌/◌, ◌^◌, ◌≤◌, ◌<◌, ◌≡◌, ◌≢◌, ◌⊎◌, inl, inr, refl, sym, ◌∙◌, arith, Bool, true,
  false, ◌||◌, Option, some, none, ◌==◌, Bool-cases, bit_or,
}
use mathlib.Core.Path.{subst}
use cs.Memory.{Memory, null, in_range, store64, load64}
use cs.Memory.Words.{store64_other, load64-store64_same, load64-congr, load64-zero}
use cs.Util.Mem.Copy.{store64-IsBytes}
use cs.Page.{Region, page_size, bk_size, page_count_free}
use cs.Page.Count.{page_count_free_one}
use cs.Mmu.{slot, is_valid, is_leaf, next_table, branch_table, walk, mmu_table_create}
use cs.Mmu.Entry.{vpn-eq, is_valid-eq, is_leaf-eq, next_table-eq, branch_entry}
use cs.Mmu.Frame.{
  Ready, IsFrame, NewFrame, frame_addr, bk_whole, bk_test_same, Ready-same, IsFrame-same,
  create_cases,
}

-- The tables from page `i` down `k` levels are frames of their own, none of them in `above`, linked
-- by branches as far as they exist: no leaf lies on the way.
pub data Clean (r : Region) (m : Memory) (vaddr lvl : ℕ) : ℕ → ℕ → (ℕ → Bool) → Type 0 where
  bottom :
      {i : ℕ} {above : ℕ → Bool}
      → IsFrame r m i
      → above i ≡ false
      → Clean r m vaddr lvl zero i above
  absent :
      {k i : ℕ} {above : ℕ → Bool}
      → IsFrame r m i
      → above i ≡ false
      → is_valid (load64 m (slot (frame_addr r i) vaddr (lvl + suc k))) ≡ false
      → Clean r m vaddr lvl (suc k) i above
  link :
      {k i : ℕ} {above : ℕ → Bool} (j : ℕ)
      → IsFrame r m i
      → above i ≡ false
      → is_valid (load64 m (slot (frame_addr r i) vaddr (lvl + suc k))) ≡ true
      → is_leaf (load64 m (slot (frame_addr r i) vaddr (lvl + suc k))) ≡ false
      → next_table (load64 m (slot (frame_addr r i) vaddr (lvl + suc k))) ≡ frame_addr r j
      → Clean r m vaddr lvl k j (λ x. above x || x == i)
      → Clean r m vaddr lvl (suc k) i above

-- From table `tab`, `k` branches lead to table `t`.
abbrev pub Chain : Memory → (vaddr lvl k tab t : ℕ) → Type 0
Chain m vaddr lvl zero tab t = tab ≡ t
Chain m vaddr lvl (suc k) tab t =
    (is_valid (load64 m (slot tab vaddr (lvl + suc k))) ≡ true)
    × (is_leaf (load64 m (slot tab vaddr (lvl + suc k))) ≡ false)
    × Chain m vaddr lvl k (branch_table (load64 m (slot tab vaddr (lvl + suc k)))) t

-- `m'` agrees with `m` outside page `t`.
abbrev pub Outside : Region → ℕ → Memory → Memory → Type 0
Outside r t m m' = (x : ℕ) → in_range (frame_addr r t) page_size x ≡ false → m' x ≡ m x

-- The outcome of a walk that reaches page `t`.
pub record Walked (r : Region) (m : Memory) (vaddr lvl k i : ℕ) (above : ℕ → Bool)
    (out : Option ℕ × Memory) (t : ℕ) : Type 0 where
  pub result : out.0 ≡ some (frame_addr r t)
  pub ready : Ready r out.1
  pub frame : IsFrame r out.1 t
  pub apart : above t ≡ false
  pub chain :
      (m' : Memory) → Outside r t out.1 m' → Chain m' vaddr lvl k (frame_addr r i) (frame_addr r t)
  pub kept :
      (j x : ℕ) → above j ≡ true → in_range (frame_addr r j) page_size x ≡ true → out.1 x ≡ m x

pages_apart :
    (r : Region) (i j x : ℕ)
    → i ≢ j
    → in_range (frame_addr r i) page_size x ≡ true
    → in_range (frame_addr r j) page_size x ≡ false
pages_apart r i j x ne h = ground arith

slot_in_page :
    (r : Region) (i vaddr lvl x : ℕ)
    → slot (frame_addr r i) vaddr lvl ≤ x
    → x < slot (frame_addr r i) vaddr lvl + 8
    → in_range (frame_addr r i) page_size x ≡ true
slot_in_page r i vaddr lvl x p q = ground (arith, vpn-eq vaddr lvl)

-- A slot of page `i` reads the same in memories that agree on that page.
slot-congr :
    (r : Region) (m m' : Memory) (i vaddr lvl : ℕ)
    → ((x : ℕ) → in_range (frame_addr r i) page_size x ≡ true → m' x ≡ m x)
    → load64 m' (slot (frame_addr r i) vaddr lvl) ≡ load64 m (slot (frame_addr r i) vaddr lvl)
slot-congr r m m' i vaddr lvl same =
    load64-congr m' m (slot (frame_addr r i) vaddr lvl)
      λ x p q. same x (slot_in_page r i vaddr lvl x p q)

own_more :
    (r : Region) (m : Memory) (above : ℕ → Bool) (i : ℕ)
    → IsFrame r m i
    → ((j : ℕ) → above j ≡ true → IsFrame r m j)
    → (j : ℕ) → (above j || j == i) ≡ true
    → IsFrame r m j
own_more r m above i fi owned j h = elim (Bool-cases (above j)) [
  | inl up ↦ owned j up
  | inr not_up ↦ let e : j ≡ i = ground arith in rw e fi
]

module _ (r : Region) (vaddr lvl : ℕ) where
  -- Following a branch that is there.
  walk_link :
      (m : Memory) (k i j : ℕ) (above : ℕ → Bool) {out : Option ℕ × Memory} {t : ℕ}
      → above i ≡ false
      → is_valid (load64 m (slot (frame_addr r i) vaddr (lvl + suc k))) ≡ true
      → is_leaf (load64 m (slot (frame_addr r i) vaddr (lvl + suc k))) ≡ false
      → next_table (load64 m (slot (frame_addr r i) vaddr (lvl + suc k))) ≡ frame_addr r j
      → Walked r m vaddr lvl k j (λ x. above x || x == i) out t
      → Walked r m vaddr lvl (suc k) i above out t
  walk_link m k i j above {out} {t} free valid branch next w = record {
    result = w.result;
    ready = w.ready;
    frame = w.frame;
    apart = ground (arith, w.apart);
    chain = λ m' same.
        let e =
          slot-congr r m m' i vaddr (lvl + suc k)
            (λ x p. same x (pages_apart r i t x ne p) ∙ w.kept i x self p) in
        (
          rw e valid,
          rw e branch,
          rw (e, ← next_table-eq (load64 m (slot (frame_addr r i) vaddr (lvl + suc k))), next)
              (w.chain m' same),
        );
    kept = λ j x a p. w.kept j x (ground arith) p;
  }
    where
      self : (above i || i == i) ≡ true
      self = ground arith

      ne : i ≢ t
      ne = ground (arith, w.apart)

  -- Adding table `f` below table `i`, which has no branch there.
  module _ (m : Memory) (k i : ℕ) (above : ℕ → Bool) (ok : Ready r m) (fi : IsFrame r m i)
      (free : above i ≡ false) (owned : (j : ℕ) → above j ≡ true → IsFrame r m j) (new : ℕ × Memory)
      (f : ℕ) (n : NewFrame r m new f) where
    abbrev at : ℕ
    at = slot (frame_addr r i) vaddr (lvl + suc k)

    abbrev entry : ℕ
    entry = bit_or (new.0 / 4) 1

    abbrev grown : Memory
    grown = store64 new.1 at entry

    new_entry :
        (entry ≡ frame_addr r f / 4 + 1) × (next_table entry ≡ frame_addr r f) × (entry < 2 ^ 64)
    new_entry =
        let e =
          branch_entry (frame_addr r f)
            (omega (arith, n.frame.inside, ok.region.fits, ok.region.order))
            (omega (arith, ok.region.aligned)) in
        rw n.address e

    frame_ne : (j : ℕ) → IsFrame r m j → j ≢ f
    frame_ne j fj = ground (arith, fj.taken, n.was_free)

    -- the store lies in page `i`
    grown_other : (x : ℕ) → in_range (frame_addr r i) page_size x ≡ false → grown x ≡ new.1 x
    grown_other x h = store64_other new.1 at entry x (ground (arith, vpn-eq vaddr (lvl + suc k)))

    books_kept : (x : ℕ) → r.start ≤ x → x < r.start + bk_size r → grown x ≡ new.1 x
    books_kept x p q = grown_other x (ground (arith, fi.behind, bk_whole r m ok))

    grown-Ready : Ready r grown
    grown-Ready =
        Ready-same r new.1 n.ready grown (store64-IsBytes new.1 at entry n.ready.valid.bytes)
          books_kept

    grown-IsFrame : (j : ℕ) → IsFrame r new.1 j → IsFrame r grown j
    grown-IsFrame =
        IsFrame-same r new.1 n.ready grown (store64-IsBytes new.1 at entry n.ready.valid.bytes)
          books_kept

    old-IsFrame : (j : ℕ) → IsFrame r m j → IsFrame r grown j
    old-IsFrame j fj = grown-IsFrame j (record {
      inside = fj.inside;
      behind = fj.behind;
      taken = omega (arith, n.keeps j (frame_ne j fj) fj.inside, fj.taken);
    })

    owned_after : (j : ℕ) → (above j || j == i) ≡ true → IsFrame r grown j
    owned_after j h = old-IsFrame j (own_more r m above i fi owned j h)

    new_apart : (above f || f == i) ≡ false
    new_apart = elim (Bool-cases (above f)) [
      | inl up ↦ absurd (frame_ne f (owned f up) refl)
      | inr not_up ↦ ground (arith, frame_ne i fi)
    ]

    -- One page fewer is free.
    grown_count : page_count_free r grown + 1 ≡ page_count_free r m
    grown_count =
        page_count_free_one r m grown f (omega (arith, n.was_free)) (grown-IsFrame f n.frame).taken
          (λ j ne h.
            bk_test_same r new.1 n.ready grown (store64-IsBytes new.1 at entry n.ready.valid.bytes)
              books_kept j h
            ∙ n.keeps j ne h)
          n.frame.inside

    -- A word of the new table is zero.
    new_empty : (l : ℕ) → load64 grown (slot (frame_addr r f) vaddr l) ≡ 0
    new_empty l =
        slot-congr r (λ x. 0) grown f vaddr l
          (λ x p. grown_other x (pages_apart r f i x (λ e. frame_ne i fi (sym e)) p) ∙ n.zeroed x p)
        ∙ load64-zero (slot (frame_addr r f) vaddr l)

    new-Clean : (k' : ℕ) → Clean r grown vaddr lvl k' f (λ x. above x || x == i)
    new-Clean zero = bottom (grown-IsFrame f n.frame) new_apart
    new-Clean (suc k') =
        absent (grown-IsFrame f n.frame) new_apart (rw (new_empty (lvl + suc k')) refl)

    page_high :
        (j : ℕ)
        → IsFrame r m j
        → (x : ℕ) → in_range (frame_addr r j) page_size x ≡ true
        → r.start + bk_size r ≤ x
    page_high j fj x p = ground (arith, fj.behind, bk_whole r m ok)

    kept_page :
        (j x : ℕ) → above j ≡ true → in_range (frame_addr r j) page_size x ≡ true → grown x ≡ m x
    kept_page j x up p =
        grown_other x (pages_apart r j i x (ground arith) p)
        ∙ n.same x (page_high j (owned j up) x p) (pages_apart r j f x (frame_ne j (owned j up)) p)

    walk_grown :
        {out : Option ℕ × Memory} {t : ℕ}
        → Walked r grown vaddr lvl k f (λ x. above x || x == i) out t
        → Walked r m vaddr lvl (suc k) i above out t
    walk_grown {out} {t} w = record {
      result = w.result;
      ready = w.ready;
      frame = w.frame;
      apart = ground (arith, w.apart);
      chain = λ m' same.
          let e =
            slot-congr r grown m' i vaddr (lvl + suc k)
              (λ x p. same x (pages_apart r i t x ne p) ∙ w.kept i x self p)
            ∙ load64-store64_same new.1 at entry new_entry.2 in
          (rw e valid, rw e branch, rw (e, ← next_table-eq entry, new_entry.1) (w.chain m' same));
      kept = λ j x a p. w.kept j x (ground arith) p ∙ kept_page j x a p;
    }
      where
        self : (above i || i == i) ≡ true
        self = ground arith

        ne : i ≢ t
        ne = ground (arith, w.apart)

        valid : is_valid entry ≡ true
        valid = ground (arith, is_valid-eq entry, new_entry.0, ok.region.aligned)

        branch : is_leaf entry ≡ false
        branch = ground (arith, is_leaf-eq entry, new_entry.0, ok.region.aligned)

  abbrev Outcome : Memory → ℕ → ℕ → (ℕ → Bool) → ℕ → Type 0
  Outcome m k i above tab =
      (((walk r m vaddr lvl k tab).0 ≡ none) × (page_count_free r m < k))
      ⊎ ((t : ℕ) × Walked r m vaddr lvl k i above (walk r m vaddr lvl k tab) t)

  -- The walk ends at a table of its own, unless fewer pages are free than levels lie above.
  pub walk_outcome :
      (k i : ℕ) (m : Memory) (above : ℕ → Bool)
      → Ready r m
      → Clean r m vaddr lvl k i above
      → ((j : ℕ) → above j ≡ true → IsFrame r m j)
      → (((walk r m vaddr lvl k (frame_addr r i)).0 ≡ none) × (page_count_free r m < k))
        ⊎ ((t : ℕ) × Walked r m vaddr lvl k i above (walk r m vaddr lvl k (frame_addr r i)) t)
  unfolding walk
  walk_outcome zero i m above ok (bottom fi free) owned = inr (
    i,
    record {
      result = refl;
      ready = ok;
      frame = fi;
      apart = free;
      chain = λ m' same. refl;
      kept = λ j x a p. refl;
    },
  )
  walk_outcome (suc k) i m above ok (link j fi free valid branch next rest) owned =
      rw (valid, next)
        (elim (walk_outcome k j m (λ x. above x || x == i) ok rest
          (own_more r m above i fi owned)) [
            | inl (out, few) ↦ inl (out, omega arith)
            | inr (t, w) ↦ inr (t, walk_link m k i j above free valid branch next w)
          ])
  walk_outcome (suc k) i m above ok (absent fi free invalid) owned = elim (create_cases r m ok) [
    | inl (full, none_left) ↦ rw (invalid, full) (inl (refl, omega arith))
    | inr (f, n) ↦
        let made : ((mmu_table_create r m).0 == null) ≡ false =
          ground (arith, n.address, ok.region.above) in
        let g = grown m k i above ok fi free owned (mmu_table_create r m) f n in
        let ih =
          walk_outcome k f g (λ x. above x || x == i)
            (grown-Ready m k i above ok fi free owned (mmu_table_create r m) f n)
            (new-Clean m k i above ok fi free owned (mmu_table_create r m) f n k)
            (owned_after m k i above ok fi free owned (mmu_table_create r m) f n) in
        rw (invalid, made)
          (elim (subst (Outcome g k f (λ x. above x || x == i)) (sym n.address) ih) [
            | inl (out, few) ↦ inl (
              out,
              omega (arith, grown_count m k i above ok fi free owned (mmu_table_create r m) f n),
            )
            | inr (t, w) ↦
                inr (t, walk_grown m k i above ok fi free owned (mmu_table_create r m) f n w)
          ])
  ]
