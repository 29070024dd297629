-- ===== src/Kmalloc.antt =====
-- src/kmalloc.c: the kernel heap, first fit over lists of blocks. The `free` and `used` lists are
-- lists of blocks in the order of their `next` pointers. The blank blocks of the `fresh` list differ
-- in nothing, so the list is its length. `Config` holds the static variables that `init` sets once.
-- Addresses and sizes are 64-bit words.
pub mod Cover
pub mod Tiles
pub mod Alloc
pub mod Check
mod Tests
use cs.Base.{
  ℕ, zero, suc, ◌+◌, ◌-◌, ◌*◌, ◌/◌, ◌%◌, ◌^◌, Bool, true, false, ◌&&◌, ◌||◌, List, [], ◌∷◌, Option,
  none, some, ltb, leb, ◌==◌, if◌then◌else◌,
}
use cs.Base.Lists.{length}
use cs.Memory.{Memory, null}
use cs.Util.Align.{align_up}
use cs.Util.Mem.{memset}
use cs.Page.{Region, page_znalloc}
use cs.Mmu.{mmu_map_range}

pub record Block : Type 0 where
  pub addr : ℕ
  pub size : ℕ

pub record Heap : Type 0 where
  pub free : List Block
  pub used : List Block
  pub fresh : ℕ
  pub top : ℕ

-- `heap_limit`, `heap_split_thresh`, `heap_alignment`, `heap_max_blocks`
pub record Config : Type 0 where
  pub limit : ℕ
  pub split_thresh : ℕ
  pub alignment : ℕ
  pub max_blocks : ℕ

-- `(size_t)a + b`
abbrev pub add64 : ℕ → ℕ → ℕ
add64 a b = (a + b) % 2 ^ 64

abbrev pub sub64 : ℕ → ℕ → ℕ
sub64 a b = (2 ^ 64 + a - b) % 2 ^ 64

unfoldable pub insert_block : Block → List Block → List Block
insert_block block [] = block ∷ []
insert_block block (ptr ∷ rest) =
    let later = insert_block block rest in
    if leb block.addr ptr.addr then block ∷ ptr ∷ rest else ptr ∷ later

-- `ptr` with the size of the blocks up to `prev`; that is its own size where `prev` is `ptr`
abbrev pub merged : Block → Block → Block
merged ptr prev = record { addr = ptr.addr; size = add64 (sub64 prev.addr ptr.addr) prev.size }

-- The loops of `compact` between `ptr`, `prev` and the rest of the list at `scan`: the new list from
-- `ptr` on, and the number of blocks that `release_blocks` puts on the `fresh` list.
unfoldable pub compact_from : Block → Block → List Block → List Block × ℕ
compact_from ptr prev [] = (merged ptr prev ∷ [], 0)
compact_from ptr prev (scan ∷ rest) =
    let (joined, released) = compact_from ptr scan rest in
    let (later, released') = compact_from scan scan rest in
    if add64 prev.addr prev.size == scan.addr
    then (joined, released + 1)
    else (merged ptr prev ∷ later, released')

pub compact : List Block → List Block × ℕ
unfolding compact_from
compact [] = ([], 0)
compact (ptr ∷ rest) = compact_from ptr ptr rest

-- `insert_block(block); compact();`
pub give_back : Block → Heap → Heap
unfolding insert_block compact
give_back block h =
    let (blocks, released) = compact (insert_block block h.free) in
    record { free = blocks; used = h.used; fresh = h.fresh + released; top = h.top }

-- `heap = base` and the blank blocks behind it; `sizeof(Heap)` is 32, `sizeof(Block)` is 24
pub init : ℕ → ℕ → Heap
init base heap_blocks = record {
  free = [];
  used = [];
  fresh = heap_blocks;
  top = base + 32 + 24 * heap_blocks;
}

-- The loops of `free` and `alloc_block`: the first block that passes the test is taken out of the
-- list.
unfoldable pub take_first : (Block → Bool) → List Block → Option (Block × List Block)
take_first test [] = none
take_first test (ptr ∷ rest) =
    if test ptr
    then some (ptr, rest)
    else elim (take_first test rest) [ none ↦ none | some (b, others) ↦ some (b, ptr ∷ others) ]

pub free : Heap → ℕ → Bool × Heap
unfolding take_first give_back
free h p = elim (take_first (λ b. p == b.addr) h.used) [
  | none ↦ (false, h)
  | some (block, others) ↦ (
    true,
    give_back block (record { free = h.free; used = others; fresh = h.fresh; top = h.top }),
  )
]

abbrev pub is_top : Config → ℕ → ℕ → Block → Bool
is_top c top num ptr = leb top (add64 ptr.addr ptr.size) && leb (add64 ptr.addr num) c.limit

-- whether a free block serves
abbrev pub serves : Config → ℕ → ℕ → Block → Bool
serves c top num ptr = is_top c top num ptr || leb num ptr.size

abbrev pub block : ℕ → ℕ → Block
block a n = record { addr = a; size = n }

-- what `alloc_block` makes of the free block `ptr`, where `others` are the other free blocks
pub reuse : Config → Heap → ℕ → Block → List Block → Block × Heap
unfolding give_back
reuse c h num ptr others =
    let excess = sub64 ptr.size num in
    if is_top c h.top num ptr
    then (block ptr.addr num, taken num (add64 ptr.addr num) h.fresh)
    else if ltb 0 h.fresh && leb c.split_thresh excess
    then (
      block ptr.addr num,
      give_back (block (add64 ptr.addr num) excess) (taken num h.top (h.fresh - 1)),
    )
    else (ptr, taken ptr.size h.top h.fresh)
  where
    -- the heap with the block used at the given size, and a new top and number of blank blocks
    taken : ℕ → ℕ → ℕ → Heap
    taken n top fresh = record {
      free = others;
      used = block ptr.addr n ∷ h.used;
      fresh = fresh;
      top = top;
    }

-- what `alloc_block` makes of a blank block
pub extend : Config → Heap → ℕ → Option Block × Heap
extend c h num =
    if ltb 0 h.fresh && leb (add64 h.top num) c.limit
    then (
      some (block h.top num),
      record {
        free = h.free;
        used = block h.top num ∷ h.used;
        fresh = h.fresh - 1;
        top = add64 h.top num;
      },
    )
    else (none, h)

-- `alloc_block` after its search
pub serve : Config → Heap → ℕ → Option (Block × List Block) → Option Block × Heap
serve c h num none = extend c h num
serve c h num (some (ptr, others)) = let (b, h') = reuse c h num ptr others in (some b, h')

pub alloc_block : Config → Heap → ℕ → Option Block × Heap
unfolding take_first
alloc_block c h size =
    let num = align_up size c.alignment in serve c h num (take_first (serves c h.top num) h.free)

-- `block != NULL ? block->addr : NULL`
abbrev pub addr_of : Option Block → ℕ
addr_of none = null
addr_of (some b) = b.addr

pub alloc : Config → Heap → ℕ → ℕ × Heap
alloc c h num = let (b, h') = alloc_block c h num in (addr_of b, h')

-- `memset` takes the size as an `int`; a negative one clears nothing.
pub calloc : Config → Heap → Memory → ℕ → ℕ → ℕ × Heap × Memory
calloc c h m num size =
    let bytes = num * size % 2 ^ 64 in
    let (b, h') = alloc_block c h bytes in
    elim b [ none ↦ (null, h', m) | some b ↦ (b.addr, h', clear m b.addr (bytes % 2 ^ 32)) ]
  where
    clear : Memory → ℕ → ℕ → Memory
    clear m a n = if ltb n (2 ^ 31) then memset m a 0 n else m

pub heap_num_free : Heap → ℕ
heap_num_free h = length h.free

pub heap_num_used : Heap → ℕ
heap_num_used h = length h.used

pub heap_num_fresh : Heap → ℕ
heap_num_fresh h = h.fresh

pub heap_check : Config → Heap → Bool
heap_check c h = c.max_blocks == heap_num_free h + heap_num_used h + heap_num_fresh h

-- `KERNEL_HEAP_START_VADDR`, `KERNEL_HEAP_PAGES`, `KERNEL_HEAP_END_VADDR`
abbrev pub kernel_heap_start : ℕ
kernel_heap_start = 0x1c0ffee000

abbrev pub kernel_heap_pages : ℕ
kernel_heap_pages = 8192

abbrev pub kernel_heap_end : ℕ
kernel_heap_end = kernel_heap_start + kernel_heap_pages * 4096

-- what `heap_init` passes to `init`
abbrev pub kernel_config : Config
kernel_config = record {
  limit = kernel_heap_end;
  split_thresh = 16;
  alignment = 8;
  max_blocks = kernel_heap_pages / 4;
}

-- The pages of the heap and their mapping in the kernel's page table `table`, readable and writable;
-- failures of either are not looked at.
pub heap_init : Region → Memory → ℕ → Heap × Memory
heap_init r m table =
    let (start, m1) = page_znalloc r m kernel_heap_pages in
    let (mapped, m2) = mmu_map_range r m1 table kernel_heap_start kernel_heap_end start 0 6 in
    (init kernel_heap_start (kernel_heap_pages / 4), m2)

pub kmalloc : Config → Heap → ℕ → ℕ × Heap
kmalloc c h sz = alloc c h sz

pub kcalloc : Config → Heap → Memory → ℕ → ℕ → ℕ × Heap × Memory
kcalloc c h m n sz = calloc c h m n sz

pub kfree : Heap → ℕ → Heap
kfree h m = if m == null then h else (free h m).1
