-- ===== src/Uaccess.antt =====
-- src/uaccess.c: copying from and to the memory of a user, whose page table is at `table`. The
-- loops are on fuel: `none` where it runs out. They run on memory that they write themselves, which
-- may hold the tables. The result is the number of bytes copied and the memory.
pub mod Copy
mod Tests
use cs.Base.{
  ℕ, zero, suc, ◌+◌, ◌-◌, ◌%◌, ◌^◌, Bool, ◌||◌, not, Option, none, some, ltb, leb, ◌==◌,
  if◌then◌else◌,
}
use cs.Memory.{Memory}
use cs.Util.Align.{align_up}
use cs.Util.Mem.{memcpy}
use cs.Page.{page_size}
use cs.Mmu.{page_fault, mmu_translate, mmu_access_ok}

-- the two tests that end the loops
pub refused : Memory → ℕ → ℕ → ℕ → Bool
refused m table addr perms =
    not (mmu_access_ok m table addr perms) || mmu_translate m table addr == page_fault

-- `bytes_to_copy`: to the end of the page or of the request
pub bytes_to_copy : ℕ → ℕ → ℕ
bytes_to_copy phys_addr left =
    let room = align_up (phys_addr + 1) page_size - phys_addr in
    if ltb room left then room else left

unfoldable pub copy_from_loop :
    ℕ → Memory → (dst table from size bytes_copied : ℕ) → Option (ℕ × Memory)
copy_from_loop zero m dst table from size bytes_copied = none
copy_from_loop (suc fuel) m dst table from size bytes_copied =
    let addr = (from + bytes_copied) % 2 ^ 64 in
    let phys_addr = mmu_translate m table addr in
    let n = bytes_to_copy phys_addr (size - bytes_copied) in
    let rest =
      copy_from_loop fuel (memcpy m (dst + bytes_copied) phys_addr n) dst table from size
        (bytes_copied + n) in
    if leb size bytes_copied
    then some (bytes_copied, m)
    else if refused m table addr 0x12
    then some (bytes_copied, m)
    else rest

pub copy_from : ℕ → Memory → (dst table from size : ℕ) → Option (ℕ × Memory)
copy_from fuel m dst table from size = copy_from_loop fuel m dst table from size 0

unfoldable pub copy_to_loop :
    ℕ → Memory → (to table src size bytes_copied : ℕ) → Option (ℕ × Memory)
copy_to_loop zero m to table src size bytes_copied = none
copy_to_loop (suc fuel) m to table src size bytes_copied =
    let addr = (to + bytes_copied) % 2 ^ 64 in
    let to_paddr = mmu_translate m table addr in
    let n = bytes_to_copy to_paddr (size - bytes_copied) in
    let rest =
      copy_to_loop fuel (memcpy m to_paddr (src + bytes_copied) n) to table src size
        (bytes_copied + n) in
    if leb size bytes_copied
    then some (bytes_copied, m)
    else if refused m table addr 0x14
    then some (bytes_copied, m)
    else rest

pub copy_to : ℕ → Memory → (to table src size : ℕ) → Option (ℕ × Memory)
copy_to fuel m to table src size = copy_to_loop fuel m to table src size 0
