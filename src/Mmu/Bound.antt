-- ===== src/Mmu/Bound.antt =====
-- What `mmu_translate` can return.
use cs.Base.{ℕ, zero, suc, ◌^◌, ◌≤◌, ◌<◌, ◌≡◌, ◌⊎◌, arith}
use cs.Memory.{Memory, load64}
use cs.Mmu.{page_fault, slot, branch_table, translate_from, mmu_translate}
use cs.Mmu.Entry.{leaf_addr_bound}

translate_from_bound :
    (m : Memory) (vaddr lvl tab : ℕ)
    → lvl ≤ 2
    → (translate_from m vaddr lvl tab ≡ page_fault) ⊎ (translate_from m vaddr lvl tab < 2 ^ 56)
unfolding translate_from
translate_from_bound m vaddr zero tab h =
    ground (arith, leaf_addr_bound (load64 m (slot tab vaddr 0)) vaddr 0)
translate_from_bound m vaddr (suc lvl) tab h = ground (
  arith,
  leaf_addr_bound (load64 m (slot tab vaddr (suc lvl))) vaddr (suc lvl),
  translate_from_bound m vaddr lvl (branch_table (load64 m (slot tab vaddr (suc lvl)))),
)

pub mmu_translate_bound :
    (m : Memory) (tab vaddr : ℕ)
    → (mmu_translate m tab vaddr ≡ page_fault) ⊎ (mmu_translate m tab vaddr < 2 ^ 56)
unfolding mmu_translate
mmu_translate_bound m tab vaddr = ground (arith, translate_from_bound m vaddr 2 tab)
