-- ===== src/Kmalloc/Alloc.antt =====
-- `alloc_block` over a well-formed heap.
use cs.Base.{
  ℕ, ◌+◌, ◌^◌, ◌≤◌, ◌<◌, ◌≡◌, ◌≢◌, refl, ap, ◌∙◌, arith, Bool, Bool-cases, inl, inr, ◌⊎◌, true,
  false, ◌&&◌, List, [], ◌∷◌, Option, none, some, ltb, leb, ◌==◌,
}
use cs.Memory.{null}
use cs.Util.Align.{align_up, align_up_lem}
use cs.Kmalloc.{
  Block, Heap, Config, add64, sub64, take_first, is_top, serves, give_back, block, reuse, extend,
  serve, alloc_block, free, alloc, kmalloc, addr_of, kfree,
}
use cs.Kmalloc.Cover.{
  between, covers, FitsOne, Fits, Split, any, Found, take_first-Found, compact_insert_lem,
}
use cs.Kmalloc.Tiles.{free-Freed, IsConfig, IsValid, covered_bounds}

-- What a successful allocation of `size` bytes gives: a block of its own.
pub record Allocated (c : Config) (start : ℕ) (h : Heap) (size : ℕ) (out : Option Block × Heap)
    (b : Block) : Type 0 where
  pub result : out.0 ≡ some b
  pub valid : IsValid c start out.1
  pub used : out.1.used ≡ b ∷ h.used
  pub enough : size ≤ b.size
  pub inside : (start ≤ b.addr) × (b.addr + b.size ≤ c.limit)
  pub apart : (x : ℕ) → b.addr ≤ x → x < b.addr + b.size → covers h.used x ≡ 0

module _ (c : Config) (start : ℕ) (h : Heap) (set : IsConfig c) (ok : IsValid c start h) (num : ℕ)
    (pos : 0 < num) (small : num < 2 ^ 63) where
  -- On top of the tiles.
  extend-Allocated :
      (ltb 0 h.fresh && leb (add64 h.top num) c.limit) ≡ true
      → Allocated c start h num (extend c h num) (block h.top num)
  unfolding extend
  extend-Allocated room = rw room (record {
    result = refl;
    valid = record {
      order = ground (arith, ok.order, ok.within, set.limited);
      within = ground (arith, ok.within, set.limited);
      tiles = λ x. ground (arith, ok.tiles x, ok.order, ok.within, set.limited);
      free_fits = ok.free_fits;
      used_fits = ((pos, omega (arith, ok.within, set.limited)), ok.used_fits);
      count = ground (arith, ok.count);
    };
    used = refl;
    enough = omega arith;
    inside = (ok.order, ground (arith, ok.within, set.limited));
    apart = λ x p q. ground (arith, ok.tiles x);
  })

  -- In a free block that serves.
  module _ (ptr : Block) (others : List Block) (s : Split h.free ptr others) where
    fits : FitsOne ptr × Fits others
    fits = s.fits ok.free_fits

    tiles :
        (x : ℕ)
        → between ptr.addr (ptr.addr + ptr.size) x + (covers others x + covers h.used x)
          ≡ between start h.top x
    tiles x = omega (arith, s.cover x, ok.tiles x)

    bounds : (start ≤ ptr.addr) × (ptr.addr + ptr.size ≤ h.top)
    bounds =
        covered_bounds start h.top ptr.addr ptr.size (λ x. covers others x + covers h.used x)
          fits.0.0 tiles

    reuse-Allocated :
        serves c h.top num ptr ≡ true
        → Allocated c start h num
            (some (reuse c h num ptr others).0, (reuse c h num ptr others).1)
            (reuse c h num ptr others).0
    unfolding reuse give_back
    reuse-Allocated good = elim (Bool-cases (is_top c h.top num ptr)) [
      | inl top ↦ rw top (record {
        result = refl;
        valid = record {
          order = ground (arith, bounds, set.limited);
          within = ground (arith, bounds, ok.within, set.limited);
          tiles = λ x. ground (arith, tiles x, bounds, ok.within, set.limited);
          free_fits = fits.1;
          used_fits = ((pos, omega (arith, bounds, ok.within, set.limited)), ok.used_fits);
          count = omega (arith, s.count, ok.count);
        };
        used = refl;
        enough = omega arith;
        inside = (bounds.0, ground (arith, bounds, ok.within, set.limited));
        apart = λ x p q. ground (arith, tiles x, bounds, ok.within, set.limited);
      })
      | inr low ↦ elim (Bool-cases (ltb 0 h.fresh && leb c.split_thresh (sub64 ptr.size num))) [
        | inl split ↦
            let rest = block (add64 ptr.addr num) (sub64 ptr.size num) in
            let begins : rest.addr ≡ ptr.addr + num =
              ground (arith, bounds, ok.within, set.limited) in
            let ends : rest.addr + rest.size ≡ ptr.addr + ptr.size =
              ground (arith, bounds, ok.within, set.limited) in
            let left : FitsOne rest =
              (ground (arith, set.thresh), ground (arith, bounds, ok.within, set.limited)) in
            let g = compact_insert_lem rest others left fits.1 in
            rw (low, split)
              (record {
                result = refl;
                valid = record {
                  order = ok.order;
                  within = ok.within;
                  tiles = λ x. ground (arith, g.0 x, begins, ends, tiles x, left.0);
                  free_fits = g.2;
                  used_fits = (
                    (pos, omega (arith, begins, ends, left, bounds, ok.within, set.limited)),
                    ok.used_fits,
                  );
                  count = ground (arith, g.1, s.count, ok.count);
                };
                used = refl;
                enough = omega arith;
                inside = (bounds.0, omega (arith, begins, ends, bounds, ok.within, left.0));
                apart = λ x p q. ground (arith, tiles x, begins, ends, bounds, left.0);
              })
        | inr whole ↦
            rw (low, whole)
              (record {
                result = refl;
                valid = record {
                  order = ok.order;
                  within = ok.within;
                  tiles = λ x. omega (arith, tiles x);
                  free_fits = fits.1;
                  used_fits = (fits.0, ok.used_fits);
                  count = omega (arith, s.count, ok.count);
                };
                used = refl;
                enough = ground arith;
                inside = (bounds.0, omega (arith, bounds, ok.within));
                apart = λ x p q. ground (arith, tiles x, bounds);
              })
      ]
    ]

-- No block: nothing free serves, and there is no blank block or no room above the top.
pub record Full (c : Config) (h : Heap) (num : ℕ) : Type 0 where
  pub no_block : any (λ b. leb num b.size) h.free ≡ false
  pub no_room : (h.fresh ≡ 0) ⊎ (c.limit < h.top + num)

give_back_used : (b : Block) (g : Heap) → (give_back b g).used ≡ g.used
unfolding give_back
give_back_used b g = refl

take_first_hit :
    (test : Block → Bool) (b : Block) (rest : List Block)
    → test b ≡ true
    → take_first test (b ∷ rest) ≡ some (b, rest)
unfolding take_first
take_first_hit test b rest hit = rw hit refl

free_first :
    (g : Heap) (b : Block) (rest : List Block) (p : ℕ)
    → take_first (λ b'. p == b'.addr) g.used ≡ some (b, rest)
    → (free g p).1.used ≡ rest
unfolding free
free_first g b rest p out =
    rw (free, out)
      (give_back_used b (record { free = g.free; used = rest; fresh = g.fresh; top = g.top }))

any_weaker :
    (f g : Block → Bool) (bs : List Block)
    → ((b : Block) → f b ≡ false → g b ≡ false)
    → any f bs ≡ false
    → any g bs ≡ false
any_weaker f g [] weak h = refl
any_weaker f g (b ∷ bs) weak h = ground (arith, weak b, any_weaker f g bs weak)

extend-none :
    (c : Config) (h : Heap) (num : ℕ)
    → (ltb 0 h.fresh && leb (add64 h.top num) c.limit) ≡ false
    → extend c h num ≡ (none, h)
unfolding extend
extend-none c h num full = rw full refl

module _ (c : Config) (start : ℕ) (h : Heap) (set : IsConfig c) (ok : IsValid c start h) where
  alloc-Found :
      (num : ℕ) (o : Option (Block × List Block))
      → 0 < num
      → num < 2 ^ 63
      → Found (serves c h.top num) h.free o
      → ((serve c h num o ≡ (none, h)) × Full c h num)
        ⊎ ((b : Block) × Allocated c start h num (serve c h num o) b)
  unfolding serve
  alloc-Found num (some (ptr, others)) pos small f =
      inr (_, reuse-Allocated c start h set ok num pos small ptr others f.1 f.0)
  alloc-Found num none pos small f =
      elim (Bool-cases (ltb 0 h.fresh && leb (add64 h.top num) c.limit)) [
        | inl room ↦ inr (block h.top num, extend-Allocated c start h set ok num pos small room)
        | inr full ↦ inl (
          extend-none c h num full,
          record {
            no_block =
                any_weaker (serves c h.top num) (λ b. leb num b.size) h.free (λ b e. ground arith)
                  f;
            no_room = ground (arith, ok.within, set.limited);
          },
        )
      ]

  module _ (size : ℕ) (pos : 0 < size) (small : size + 2 ^ 32 < 2 ^ 63) where
    rounded : (size ≤ align_up size 8) × (align_up size 8 < size + 8)
    rounded = let a = align_up_lem 3 size (omega arith) (omega arith) in (a.1, a.2)

    found :
        ((alloc_block c h size ≡ (none, h)) × Full c h (align_up size 8))
        ⊎ ((b : Block) × Allocated c start h (align_up size 8) (alloc_block c h size) b)
    unfolding alloc_block
    found =
        let same : align_up size c.alignment ≡ align_up size 8 = ap (align_up size) set.aligned in
        rw same (
          alloc-Found (align_up size 8) (take_first (serves c h.top (align_up size 8)) h.free)
            (omega (arith, rounded)) (omega (arith, rounded))
            (take_first-Found (serves c h.top (align_up size 8)) h.free))

    -- On a well-formed heap with the settings of `heap_init`, a request of a positive size below
    -- 2^63 - 2^32 bytes either returns NULL and changes nothing, where no free block has the size
    -- rounded up to 8 and no blank block or no room above the top is left; or it gives a used block
    -- of its own of at least that size, within the heap, at no address of which another used block
    -- lies, keeps the other used blocks and leaves a well-formed heap.
    pub kmalloc-Allocated :
        ((kmalloc c h size ≡ (null, h)) × Full c h (align_up size 8))
        ⊎ ((b : Block) × ((kmalloc c h size).0 ≡ b.addr)
            × Allocated c start h size (some b, (kmalloc c h size).1) b)
    unfolding kmalloc alloc
    kmalloc-Allocated = elim found [
      | inl (none_left, full) ↦
          inl (ap (λ (o : Option Block × Heap). (addr_of o.0, o.1)) none_left, full)
      | inr (b, a) ↦ inr (
        b,
        ap addr_of a.result,
        record {
          result = refl;
          valid = a.valid;
          used = a.used;
          enough = omega (arith, a.enough, rounded);
          inside = a.inside;
          apart = a.apart;
        },
      )
    ]

  -- The block in front of the used list is given back.
  kfree_first :
      (g : Heap) (b : Block) (rest : List Block) (p : ℕ)
      → g.used ≡ b ∷ rest
      → p ≡ b.addr
      → p ≢ null
      → IsValid c start g
      → ((kfree g p).used ≡ rest) × IsValid c start (kfree g p)
  unfolding kfree
  kfree_first g b rest p first at set_p valid =
      let given : (p == null) ≡ false = ground arith in
      let hit : (p == b.addr) ≡ true = ground arith in
      rw given (
        free_first g b rest p (
            ap (take_first (λ b'. p == b'.addr)) first
            ∙ take_first_hit (λ b'. p == b'.addr) b rest hit),
        elim (free-Freed c start g valid p) [
          | inl (same, missing) ↦ absurd (ground (arith, ap (any (λ b'. p == b'.addr)) first))
          | inr (b', f) ↦ f.valid
        ],
      )

  -- On a well-formed heap with the settings of `heap_init`, `kfree` of what `kmalloc` gave for a
  -- positive size below 2^63 - 2^32 bytes restores the used blocks and leaves a well-formed heap.
  pub kfree-kmalloc :
      (size : ℕ)
      → 0 < size
      → size + 2 ^ 32 < 2 ^ 63
      → (kmalloc c h size).0 ≢ null
      → ((kfree (kmalloc c h size).1 (kmalloc c h size).0).used ≡ h.used)
        × IsValid c start (kfree (kmalloc c h size).1 (kmalloc c h size).0)
  unfolding kfree free
  kfree-kmalloc size pos small some_given = elim (kmalloc-Allocated size pos small) [
    | inl (refused, full) ↦ absurd (some_given (ap (λ (o : ℕ × Heap). o.0) refused))
    | inr (b, given, a) ↦
        kfree_first (kmalloc c h size).1 b h.used (kmalloc c h size).0 a.used given some_given
          a.valid
  ]
