-- ===== src/Kmalloc/Check.antt =====
-- `heap_check`, `heap_init`, and sizes that wrap.
use cs.Base.{
  ℕ, ◌+◌, ◌*◌, ◌^◌, ◌≤◌, ◌<◌, ◌≡◌, refl, ap, ◌∙◌, arith, true, ◌&&◌, List, Option, none, some, ltb,
  leb,
}
use cs.Memory.{Memory}
use cs.Util.Align.{align_up, align_up_eight}
use cs.Page.{Region}
use cs.Kmalloc.{
  Block, Heap, Config, add64, take_first, serves, block, reuse, extend, serve, alloc_block,
  heap_check, heap_num_free, heap_num_used, heap_num_fresh, heap_init, kernel_config,
  kernel_heap_start,
}
use cs.Kmalloc.Cover.{covers, Found, take_first-Found}
use cs.Kmalloc.Tiles.{IsConfig, IsValid, covered_bounds, init-IsValid}

-- `heap_check` holds of a well-formed heap.
pub heap_check_lem : (c : Config) (start : ℕ) (h : Heap) → IsValid c start h → heap_check c h ≡ true
unfolding heap_check heap_num_free heap_num_used heap_num_fresh
heap_check_lem c start h ok = ground (arith, ok.count)

-- `heap_init` leaves a well-formed heap, whatever becomes of its pages.
pub heap_init-IsValid :
    (r : Region) (m : Memory) (table : ℕ)
    → IsConfig kernel_config
      × IsValid kernel_config (kernel_heap_start + 32 + 24 * 2048) (heap_init r m table).0
unfolding heap_init
heap_init-IsValid r m table = (
  record { aligned = refl; thresh = omega arith; limited = omega arith },
  init-IsValid kernel_config kernel_heap_start (omega arith),
)

reuse_small :
    (c : Config) (h : Heap) (ptr : Block) (others : List Block)
    → (reuse c h 0 ptr others).0.size ≤ ptr.size
unfolding reuse
reuse_small c h ptr others = ground arith

module _ (c : Config) (start : ℕ) (h : Heap) (set : IsConfig c) (ok : IsValid c start h)
    (fresh : 0 < h.fresh) where
  empty-Found :
      (o : Option (Block × List Block))
      → Found (serves c h.top 0) h.free o
      → (b : Block) × ((serve c h 0 o).0 ≡ some b) × (b.size < 2 ^ 63)
  unfolding serve extend reuse
  empty-Found none f =
      let room : (ltb 0 h.fresh && leb (add64 h.top 0) c.limit) ≡ true =
        ground (arith, ok.within, set.limited) in
      rw room (block h.top 0, refl, omega arith)
  empty-Found (some (ptr, others)) f =
      let low =
        covered_bounds start h.top ptr.addr ptr.size (λ x. covers others x + covers h.used x)
          (f.1.fits ok.free_fits).0.0 (λ x. omega (arith, f.1.cover x, ok.tiles x)) in
      (
        (reuse c h 0 ptr others).0,
        refl,
        omega (arith, reuse_small c h ptr others, low, ok.within, set.limited),
      )

  -- On a well-formed heap with the settings of `heap_init` and a blank block, a request of fewer than
  -- 8 bytes below 2^64 wraps: it succeeds with a block that is smaller than was asked for.
  pub alloc_block_wraps :
      (size : ℕ)
      → size < 2 ^ 64
      → 2 ^ 64 < size + 8
      → (b : Block) × ((alloc_block c h size).0 ≡ some b) × (b.size < size)
  unfolding alloc_block
  alloc_block_wraps size fits big =
      let none_left : align_up size c.alignment ≡ 0 =
        ap (align_up size) set.aligned ∙ align_up_eight size fits ∙ omega arith in
      let (b, done, small) =
        empty-Found (take_first (serves c h.top 0) h.free)
          (take_first-Found (serves c h.top 0) h.free) in
      rw none_left (b, done, omega (arith, small))
