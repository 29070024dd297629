-- ===== src/Mmu.antt =====
-- src/mmu.c: Sv39 page tables in physical memory. A table is the address of 512 little-endian
-- 64-bit entries, levels are 2 (1 GiB), 1 (2 MiB) and 0 (4 KiB). New tables come from the page
-- allocator of `Page`. A function that may write returns the memory beside its result.
pub mod Entry
pub mod Bound
pub mod Frame
pub mod Walk
pub mod Map
mod Tests
use cs.Base.{
  ℕ, zero, suc, ◌+◌, ◌-◌, ◌*◌, ◌/◌, ◌%◌, ◌^◌, Bool, true, false, ◌||◌, not, Option, none, some,
  bit_and, bit_or, ltb, leb, ◌==◌, if◌then◌else◌,
}
use cs.Memory.{Memory, null, load64, store64}
use cs.Util.Align.{align_up, align_down}
use cs.Page.{Region, page_size, page_znalloc, page_free}

-- `ADDR_0_BIT`, `ADDR_1_BIT`, `ADDR_2_BIT`
abbrev pub addr_bit : ℕ → ℕ
addr_bit zero = 12
addr_bit (suc zero) = 21
addr_bit (suc (suc _)) = 30

-- `PTE_PPN0_BIT`, `PTE_PPN1_BIT`, `PTE_PPN2_BIT`
abbrev pub ppn_bit : ℕ → ℕ
ppn_bit zero = 10
ppn_bit (suc zero) = 19
ppn_bit (suc (suc _)) = 28

-- the masks of `ppn[]`
abbrev pub ppn_mask : ℕ → ℕ
ppn_mask zero = 0x1FF
ppn_mask (suc zero) = 0x1FF
ppn_mask (suc (suc _)) = 0x3FFFFFF

-- `vpn[lvl]`
abbrev pub vpn : ℕ → ℕ → ℕ
vpn vaddr lvl = bit_and (vaddr / 2 ^ addr_bit lvl) 0x1FF

-- `ppn[lvl]` of a physical address
abbrev pub ppn : ℕ → ℕ → ℕ
ppn paddr lvl = bit_and (paddr / 2 ^ addr_bit lvl) (ppn_mask lvl)

-- `ppn[lvl]` of a page-table entry
abbrev pub pte_ppn : ℕ → ℕ → ℕ
pte_ppn pte lvl = bit_and (pte / 2 ^ ppn_bit lvl) (ppn_mask lvl)

-- `pte & PB_VALID`, `pte & 0xE`
abbrev pub is_valid : ℕ → Bool
is_valid pte = not (bit_and pte 1 == 0)

abbrev pub is_leaf : ℕ → Bool
is_leaf pte = not (bit_and pte 0xE == 0)

-- `&tab->entries[vpn[lvl]]`
abbrev pub slot : ℕ → ℕ → ℕ → ℕ
slot tab vaddr lvl = tab + 8 * vpn vaddr lvl

-- `(entry >> 10) << 12`, as `mmu_map` follows a branch
abbrev pub next_table : ℕ → ℕ
next_table entry = entry / 2 ^ 10 * 2 ^ 12 % 2 ^ 64

-- `(pte << 2) & ~0xFFFUL`, as the other functions do
abbrev pub branch_table : ℕ → ℕ
branch_table pte = bit_and (pte * 4 % 2 ^ 64) (2 ^ 64 - 2 ^ 12)

abbrev pub page_fault : ℕ
page_fault = 2 ^ 64 - 1

pub mmu_table_create : Region → Memory → ℕ × Memory
mmu_table_create r m = page_znalloc r m 1

-- The walk of `mmu_map`: `k` levels lie above `lvl`. `none` where no table could be allocated.
unfoldable pub walk : Region → Memory → ℕ → ℕ → ℕ → ℕ → Option ℕ × Memory
walk r m vaddr lvl zero tab = (some tab, m)
walk r m vaddr lvl (suc k) tab =
    let at = slot tab vaddr (lvl + suc k) in
    let entry = load64 m at in
    let (new_table, m') = mmu_table_create r m in
    let down = walk r m vaddr lvl k (next_table entry) in
    let grown = walk r (store64 m' at (bit_or (new_table / 4) 1)) vaddr lvl k new_table in
    if is_valid entry then down else if new_table == null then (none, m') else grown

-- the physical page numbers of a new leaf
abbrev pub leaf_ppns : ℕ → ℕ → ℕ
leaf_ppns paddr zero =
    bit_or (bit_or (ppn paddr 2 * 2 ^ 28) (ppn paddr 1 * 2 ^ 19)) (ppn paddr 0 * 2 ^ 10)
leaf_ppns paddr (suc zero) = bit_or (ppn paddr 2 * 2 ^ 28) (ppn paddr 1 * 2 ^ 19)
leaf_ppns paddr (suc (suc _)) = ppn paddr 2 * 2 ^ 28

pub leaf_entry : ℕ → ℕ → ℕ → ℕ
leaf_entry paddr lvl bits = bit_or (bit_or (leaf_ppns paddr lvl) bits) 1

pub mmu_map : Region → Memory → (tab vaddr paddr lvl bits : ℕ) → Bool × Memory
unfolding walk leaf_entry
mmu_map r m tab vaddr paddr lvl bits =
    if tab == null || ltb 2 lvl || bit_and bits 0xE == 0
    then (false, m)
    else let (found, m') = walk r m vaddr lvl (2 - lvl) tab in
      elim found [
        | none ↦ (false, m')
        | some t ↦ (true, store64 m' (slot t vaddr lvl) (leaf_entry paddr lvl bits))
      ]

-- The address that a leaf found at level `lvl` gives.
abbrev pub leaf_addr : ℕ → ℕ → ℕ → ℕ
leaf_addr pte vaddr zero =
    bit_or
      (bit_or (bit_or (pte_ppn pte 2 * 2 ^ 30) (pte_ppn pte 1 * 2 ^ 21)) (pte_ppn pte 0 * 2 ^ 12))
      (bit_and vaddr 0xFFF)
leaf_addr pte vaddr (suc zero) =
    bit_or (bit_or (pte_ppn pte 2 * 2 ^ 30) (pte_ppn pte 1 * 2 ^ 21)) (bit_and vaddr 0x1FFFFF)
leaf_addr pte vaddr (suc (suc _)) = bit_or (pte_ppn pte 2 * 2 ^ 30) (bit_and vaddr 0x3FFFFFFF)

-- `mmu_translate` from level `lvl` on; the source writes the three levels out.
unfoldable pub translate_from : Memory → ℕ → ℕ → ℕ → ℕ
translate_from m vaddr zero tab =
    let pte = load64 m (slot tab vaddr 0) in
    if not (is_valid pte)
    then page_fault
    else if is_leaf pte
    then leaf_addr pte vaddr 0
    else page_fault
translate_from m vaddr (suc lvl) tab =
    let pte = load64 m (slot tab vaddr (suc lvl)) in
    let deeper = translate_from m vaddr lvl (branch_table pte) in
    if not (is_valid pte)
    then page_fault
    else if is_leaf pte
    then leaf_addr pte vaddr (suc lvl)
    else deeper

pub mmu_translate : Memory → ℕ → ℕ → ℕ
unfolding translate_from
mmu_translate m tab vaddr = if tab == null then page_fault else translate_from m vaddr 2 tab

-- The loop of `mmu_access_ok` from level `lvl` down.
unfoldable pub access_from : Memory → ℕ → ℕ → ℕ → ℕ → Bool
access_from m vaddr perms zero tab =
    let entry = load64 m (slot tab vaddr 0) in
    if not (is_valid entry)
    then false
    else if is_leaf entry
    then bit_and entry perms == perms
    else false
access_from m vaddr perms (suc lvl) tab =
    let entry = load64 m (slot tab vaddr (suc lvl)) in
    let deeper = access_from m vaddr perms lvl (branch_table entry) in
    if not (is_valid entry)
    then false
    else if is_leaf entry
    then bit_and entry perms == perms
    else deeper

pub mmu_access_ok : Memory → ℕ → ℕ → ℕ → Bool
unfolding access_from
mmu_access_ok m tab vaddr perms = if tab == null then false else access_from m vaddr perms 2 tab

-- `PAGE_SIZE_AT_LVL(lvl)`
abbrev pub page_size_at_lvl : ℕ → ℕ
page_size_at_lvl lvl = 2 ^ (lvl * 9 + 12)

-- The loop of `mmu_map_range`, with `k` pages to go from offset `i`: the pages mapped and the
-- memory.
unfoldable pub map_pages : Region → (tab virt phys lvl bits : ℕ) → ℕ → ℕ → Memory → ℕ × Memory
map_pages r tab virt phys lvl bits zero i m = (0, m)
map_pages r tab virt phys lvl bits (suc k) i m =
    let (done, m') = mmu_map r m tab ((virt + i) % 2 ^ 64) ((phys + i) % 2 ^ 64) lvl bits in
    let (pages, m'') = map_pages r tab virt phys lvl bits k (i + page_size_at_lvl lvl) m' in
    if done then (pages + 1, m'') else (0, m')

-- The number of rounds is the number of bytes over the page size, which divides it.
pub mmu_map_range : Region → Memory → (tab start_virt end_virt start_phys lvl bits : ℕ) → ℕ × Memory
unfolding map_pages
mmu_map_range r m tab start_virt end_virt start_phys lvl bits =
    let start = align_down start_virt (page_size_at_lvl lvl) in
    let stop = align_up end_virt (page_size_at_lvl lvl) in
    let num_bytes = (2 ^ 64 + stop - start) % 2 ^ 64 in
    map_pages r tab start start_phys lvl bits (num_bytes / page_size_at_lvl lvl) 0 m
