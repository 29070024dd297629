-- ===== src/Page/Sample.antt =====
-- A heap of eight pages at 0x1000, the first of them for the bookkeeping, for the tests.
use cs.Base.{◌≡◌, refl, arith}
use cs.Memory.{Memory, store8, store64}
use cs.Util.Align.{align_up}
use cs.Util.Mem.{memset}
use cs.Util.Mem.Copy.{IsBytes}
use cs.Page.{Region, bk_test, bk_set, page_init, page_nalloc, page_znalloc, page_count_free}
use cs.Page.Init.{page_init-IsValid}
use cs.Page.Alloc.{IsValid}
use cs.Page.Free.{IsRegion}

abbrev pub heap : Region
heap = record { start = 0x1000; stop = 0x9000 }

-- every byte 0xa5 before the start
abbrev pub noise : Memory
noise x = 0xa5

pub noise-IsBytes : IsBytes noise
noise-IsBytes x = omega arith

unfoldable pub fresh : Memory
unfolding page_init bk_test bk_set memset store8 store64 align_up
fresh = page_init heap noise

pub heap-IsRegion : IsRegion heap
heap-IsRegion = omega arith

pub fresh-IsValid : IsValid heap fresh
unfolding fresh
fresh-IsValid = page_init-IsValid heap noise noise-IsBytes refl

pub fresh_counts :
    (page_count_free heap fresh ≡ 7) × (bk_test heap fresh 0 ≡ 3) × (bk_test heap fresh 7 ≡ 0)
unfolding page_count_free fresh
fresh_counts = (refl, refl, refl)

-- One page zeroed for a client.
pub rooted_facts :
    ((page_znalloc heap fresh 1).0 ≡ 0x2000)
    × (page_count_free heap (page_znalloc heap fresh 1).1 ≡ 6)
unfolding page_count_free fresh page_znalloc page_nalloc bk_test bk_set memset
rooted_facts = (refl, refl)
