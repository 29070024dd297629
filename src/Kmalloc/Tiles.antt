-- ===== src/Kmalloc/Tiles.antt =====
-- The invariant of the heap: the free and the used blocks tile the addresses from the end of the
-- bookkeeping to `top`, and no block record is lost.
use cs.Base.{
  ℕ, ◌+◌, ◌-◌, ◌*◌, ◌^◌, ◌≤◌, ◌<◌, ◌≡◌, refl, arith, Bool, inl, inr, ◌⊎◌, true, false, List, Option,
  none, some, ◌==◌,
}
use cs.Base.Lists.{length}
use cs.Kmalloc.{Block, Heap, Config, take_first, give_back, free, init}
use cs.Kmalloc.Cover.{
  between, covers, Fits, Split, any, Found, take_first-Found, compact_insert_lem,
}

-- The settings that `heap_init` passes to `init`, as far as they matter: an alignment of 8 bytes, a
-- threshold that is not 0, and a heap in the lower half of the addresses.
pub record IsConfig (c : Config) : Type 0 where
  pub aligned : c.alignment ≡ 8
  pub thresh : 0 < c.split_thresh
  pub limited : c.limit < 2 ^ 63

-- `start` is the end of the bookkeeping.
pub record IsValid (c : Config) (start : ℕ) (h : Heap) : Type 0 where
  pub order : start ≤ h.top
  pub within : h.top ≤ c.limit
  pub tiles : (x : ℕ) → covers h.free x + covers h.used x ≡ between start h.top x
  pub free_fits : Fits h.free
  pub used_fits : Fits h.used
  pub count : length h.free + length h.used + h.fresh ≡ c.max_blocks

pub init-IsValid :
    (c : Config) (base : ℕ)
    → base + 32 + 24 * c.max_blocks ≤ c.limit
    → IsValid c (base + 32 + 24 * c.max_blocks) (init base c.max_blocks)
unfolding init
init-IsValid c base room = record {
  order = omega arith;
  within = room;
  tiles = λ x. ground arith;
  free_fits = tt;
  used_fits = tt;
  count = omega arith;
}

-- Where the address of a block that is not empty is covered once at most, it lies within the tiles.
pub covered_bounds :
    (start top a n : ℕ) (rest : ℕ → ℕ)
    → 0 < n
    → ((x : ℕ) → between a (a + n) x + rest x ≡ between start top x)
    → (start ≤ a) × (a + n ≤ top)
covered_bounds start top a n rest pos eq = ground (arith, eq a, eq (a + n - 1))

-- A used block `b` is given back.
pub record Freed (c : Config) (start : ℕ) (h : Heap) (p : ℕ) (out : Bool × Heap) (b : Block)
    : Type 0 where
  pub done : out.0 ≡ true
  pub valid : IsValid c start out.1
  pub found : b.addr ≡ p
  pub removed : Split h.used b out.1.used
  pub given : (x : ℕ) → covers out.1.free x ≡ between b.addr (b.addr + b.size) x + covers h.free x

module _ (c : Config) (start : ℕ) (h : Heap) (ok : IsValid c start h) (p : ℕ) where
  free-Found :
      (o : Option (Block × List Block))
      → Found (λ b. p == b.addr) h.used o
      → take_first (λ b. p == b.addr) h.used ≡ o
      → ((free h p ≡ (false, h)) × (any (λ b. p == b.addr) h.used ≡ false))
        ⊎ ((b : Block) × Freed c start h p (free h p) b)
  unfolding free give_back
  free-Found none f e = inl (rw (free, e) refl, f)
  free-Found (some (b, others)) f e =
      let s = f.1 in
      let g = compact_insert_lem b h.free (s.fits ok.used_fits).0 ok.free_fits in
      rw (free, e)
        (inr (
          b,
          record {
            done = refl;
            valid = record {
              order = ok.order;
              within = ok.within;
              tiles = λ x. omega (arith, g.0 x, s.cover x, ok.tiles x);
              free_fits = g.2;
              used_fits = (s.fits ok.used_fits).1;
              count = omega (arith, g.1, s.count, ok.count);
            };
            found = ground (arith, f.0);
            removed = s;
            given = g.0;
          },
        ))

  -- On a well-formed heap, `free` of the address of a used block takes that block out of the used
  -- list, adds its bytes to the free ones and leaves a well-formed heap; `free` of any other address
  -- returns false and changes nothing.
  pub free-Freed :
      ((free h p ≡ (false, h)) × (any (λ b. p == b.addr) h.used ≡ false))
      ⊎ ((b : Block) × Freed c start h p (free h p) b)
  free-Freed =
      free-Found (take_first (λ b. p == b.addr) h.used) (take_first-Found (λ b. p == b.addr) h.used)
        refl
