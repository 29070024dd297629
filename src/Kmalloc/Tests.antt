-- ===== src/Kmalloc/Tests.antt =====
-- The kernel heap as `heap_init` leaves it.
use cs.Base.{ℕ, ◌+◌, ◌-◌, ◌*◌, ◌^◌, ◌<◌, ◌≡◌, ◌⊎◌, refl, ap, inl, inr, arith, false, some, ◌==◌}
use cs.Memory.{null}
use cs.Util.Align.{align_up}
use cs.Kmalloc.{
  Block, Heap, kernel_config, kernel_heap_start, init, kmalloc, kfree, free, alloc_block, alloc,
  extend, serve, take_first,
}
use cs.Kmalloc.Cover.{any}
use cs.Kmalloc.Tiles.{IsConfig, IsValid, Freed, init-IsValid, free-Freed}
use cs.Kmalloc.Alloc.{Full, Allocated, kmalloc-Allocated, kfree-kmalloc}
use cs.Kmalloc.Check.{alloc_block_wraps}

abbrev start : ℕ
start = kernel_heap_start + 32 + 24 * 2048

abbrev empty : Heap
empty = init kernel_heap_start 2048

config : IsConfig kernel_config
config = record { aligned = refl; thresh = omega arith; limited = omega arith }

empty-IsValid : IsValid kernel_config start empty
empty-IsValid = init-IsValid kernel_config kernel_heap_start (omega arith)

given : (kmalloc kernel_config empty 100).0 ≡ start
unfolding kmalloc alloc alloc_block take_first serve extend init align_up
given = refl

kmalloc-Allocated_example :
    ((kmalloc kernel_config empty 100 ≡ (null, empty)) × Full kernel_config empty (align_up 100 8))
    ⊎ ((b : Block) × ((kmalloc kernel_config empty 100).0 ≡ b.addr)
        × Allocated kernel_config start empty 100 (some b, (kmalloc kernel_config empty 100).1) b)
kmalloc-Allocated_example =
    kmalloc-Allocated kernel_config start empty config empty-IsValid 100 (omega arith) (omega arith)

kfree-kmalloc_example :
    ((kfree (kmalloc kernel_config empty 100).1 (kmalloc kernel_config empty 100).0).used
      ≡ empty.used)
    × IsValid kernel_config start
        (kfree (kmalloc kernel_config empty 100).1 (kmalloc kernel_config empty 100).0)
kfree-kmalloc_example =
    kfree-kmalloc kernel_config start empty config empty-IsValid 100 (omega arith) (omega arith)
      (λ e. omega (arith, given))

taken :
    (b : Block) × Allocated kernel_config start empty 100
      (some b, (kmalloc kernel_config empty 100).1)
      b
taken = elim kmalloc-Allocated_run [
  | inl (refused, full) ↦ absurd (omega (arith, given, ap (λ (o : ℕ × Heap). o.0) refused))
  | inr (b, e, a) ↦ (b, a)
]
  where
    kmalloc-Allocated_run :
        ((kmalloc kernel_config empty 100 ≡ (null, empty))
          × Full kernel_config empty (align_up 100 8))
        ⊎ ((b : Block) × ((kmalloc kernel_config empty 100).0 ≡ b.addr)
            × Allocated kernel_config start empty 100
                (some b, (kmalloc kernel_config empty 100).1)
                b)
    kmalloc-Allocated_run =
        kmalloc-Allocated kernel_config start empty config empty-IsValid 100 (omega arith)
          (omega arith)

abbrev one : Heap
one = (kmalloc kernel_config empty 100).1

free-Freed_example :
    ((free one start ≡ (false, one)) × (any (λ b. start == b.addr) one.used ≡ false))
    ⊎ ((b : Block) × Freed kernel_config start one start (free one start) b)
free-Freed_example = free-Freed kernel_config start one taken.1.valid start

blank : 0 < empty.fresh
unfolding init
blank = omega arith

alloc_block_wraps_example :
    (b : Block) × ((alloc_block kernel_config empty (2 ^ 64 - 1)).0 ≡ some b)
    × (b.size < 2 ^ 64 - 1)
alloc_block_wraps_example =
    alloc_block_wraps kernel_config start empty config empty-IsValid blank (2 ^ 64 - 1)
      (omega arith) (omega arith)
