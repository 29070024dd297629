-- ===== src/Lib.antt =====
-- cs562: a small operating system for riscv64, with a kernel (`src/`), the utilities that it shares
-- (`util/`) and a firmware (`sbi/`). This library models the kernel's memory management, its
-- round-robin scheduler, the reading side of its Minix 3 file system and the utilities below them:
-- memory and the disk as functions from addresses to bytes, the heap's blocks, the buckets of a map
-- and the cells of a vector as lists, and the linked list as a store of elements with pointers. Each
-- operation returns the new state.
--
-- How the parts interact: the page allocator keeps two bits for each page in the first pages of
-- the heap and hands out chunks of pages; the page tables take each new table from it as one
-- zeroed page; both use the memory routines. The theorems of the page tables rest on the theorems
-- of the allocator, not on its code. The copies from and to a user's memory translate each page's
-- address and check its permissions through the page tables. The scheduler keeps its processes on
-- a linked list and its theorems rest on those of the list: what list a store holds, and that
-- each operation on it ends with the list that it promises. The file system reads and writes the disk
-- through the block wrappers, and its theorems rest on what those do to the bytes of the disk: `lseek`
-- and `read` go from zone to zone by `get_next_zone`, whose theorem says which zone is next.
--
-- Files and sources:
--   Base, Base/..: numbers, Booleans, bits, lists; no code of the repository.
--   Memory, Memory/Words: bytes and little-endian 64-bit words at addresses; NULL is 0.
--   Util/Align: `ALIGN_UP_POT`, `ALIGN_DOWN_POT` of util/include/util.h.
--   Util/Mem, Util/Mem/..: `memset`, `memcpy`, `memmove`, `memcmp` of util/src/util.c.
--   Util/Str, Util/Str/..: the string functions of util/src/util.c. `atoi` has no result where one of its
--     `int`s overflows.
--   Util/Ring, Util/Ring/..: util/src/ring.c. Util/Ring/Queue is the bounded queue that a ring
--     promises, Util/Ring/Refine relates the two. `push_full` is the switch of `ring_push`.
--   Util/Vector, Util/Vector/..: util/src/vector.c, an array of `capacity` cells of which `size` are
--     in use. Insert, Search and Sort hold the operations of those names, Selection the other sort.
--   Util/Map, Util/Map/..: util/src/map.c over strings as lists of bytes and buckets as lists.
--   Util/LinkedList, Util/LinkedList/..: util/src/list.c over a store of elements. Chain says what list a
--     store holds, the other children follow the operations of their names.
--   Util/Path, Util/Path/..: util/src/path.c over paths as lists of bytes.
--   Page, Page/..: src/page.c. `page_init`, `page_nalloc`, `page_znalloc`, `page_free`,
--     `page_count_free` and `page_count_taken` keep their names; `search_from`, `take_chunk`,
--     `chunk_end` and `free_chunk` are loops within them. `Region` is the pair of linker symbols
--     of the heap. `page_alloc` and `page_zalloc` are calls with one page.
--   Mmu, Mmu/..: src/mmu.c. `walk` and `leaf_entry` are the two halves of `mmu_map`;
--     `translate_from` and `access_from` are `mmu_translate` and `mmu_access_ok` from a level on.
--     Mmu/Frame says what a page table relies on of the allocator, Mmu/Walk follows a walk.
--   Uaccess, Uaccess/..: src/uaccess.c, `copy_from` and `copy_to` over the page tables and `memcpy`.
--   Kmalloc, Kmalloc/..: src/kmalloc.c. The free and used blocks are lists of records, the blank ones
--     a number. `take_first` is the search of `free` and of `alloc_block`, whose three outcomes are
--     `reuse` (with and without a split) and `extend`. Kmalloc/Cover counts the blocks over an
--     address, Kmalloc/Tiles has the invariant.
--   Sched, Sched/..: src/sched.c as `sched_invoke` runs it, over the list of processes. `round_robin` is
--     taken apart into the position (`start_elem`), the process on the hart (`on_hart`,
--     `leave_hart`), the choice (`advance`, `next_from`) and the rest (`dispatch`).
--   Block, Block/..: src/block.c, the transfers of ranges of bytes. `Device` is the device behind the
--     virtio queue, with whether the heap has a `temp_buffer` of a length. `block_read_wrapper` and
--     `block_write_wrapper` have no result where that buffer is not there or the transfer is longer than
--     it (`overruns`), as one is whose first byte does not begin a sector. Block/Bytes says what a served
--     request does, Block/Ram is a device for the tests. The functions of Minix have no result either
--     where a transfer that they make has none.
--   Minix, Minix/..: src/minix3.c. Minix/Allocate has `find_next_inode` and `find_next_datazone`, Minix/Zone
--     `get_next_zone`, level by level (`in_direct`, `in_single`, `in_double`, `in_triple`), Minix/Zone/Seek
--     `lseek` and Minix/Zone/Read `read`, after their tests of the descriptor, which Minix/Files has.
--     Minix/Zone/Left says which zones of a file are left.
--
-- Bounds and fuel: addresses and words are below 2^64 and wrap where the code computes on 64
-- bits. A heap has fewer than 2^31 pages, so that page numbers fit the C `int` that holds them;
-- the code multiplies them by the page size in `int` too, which is exact, as here, below 2^19
-- pages (2 GiB). Loops over pages recurse on the number of pages that are left; the walk down a
-- page table recurses on the levels that are left, of which there are three; the number of rounds
-- of `mmu_map_range` is its number of bytes over the page size, which divides it. The searches by
-- halves take the size plus one as fuel, and each round makes the range shorter. The string
-- functions take fuel for the bytes of the string and the 0 that ends it; a string without that 0
-- has no result. `copy_from` and `copy_to` take fuel above the number of bytes, as each round
-- copies at least one. The loops over a list take fuel above its length, and so does
-- `round_robin`; `path_split` takes it above the number of names. `read` takes one round more than bytes
-- are asked for, as each round reads one at least; `lseek` has as many rounds as blocks to pass.
--
-- Locks: the lock of the scheduler is a flag of its state. The allocator takes its mutex at the
-- start of each call and releases it at the end of each path, so a call is one step and the mutex
-- itself is left out.
--
-- Not modelled: `mmu_free`; the other device drivers, the firmware and start-up, which are registers
-- and assembly; the formatted output, a copy of another library; the comparators of signed numbers and
-- strings; `strdup`; `map_clear` and `map_free`, which use freed elements; `path_split_free`, which
-- frees twice; the red-black tree and the completely fair scheduler on it; processes and the ELF
-- loader; the copy of a file's inode back to the disk; of the file system the allocation of
-- zones to a file, `write`, `open`, `close`, the cache of directories and the code of `get_next_zone` for
-- triply indirect zones, which it does not reach; of the block driver the virtio queue.
pub mod Base
pub mod Memory
pub mod Util
pub mod Page
pub mod Mmu
pub mod Uaccess
pub mod Kmalloc
pub mod Block
pub mod Minix
pub mod Sched
