-- ===== src/Mmu/Tests.antt =====
-- The page tables on the heap of `Page.Sample`: the root table in page 1.
use cs.Base.{ℕ, ◌≤◌, ◌<◌, ◌≡◌, inl, inr, refl, ◌∙◌, arith, false}
use mathlib.Core.Path.{subst}
use cs.Memory.{Memory, load64}
use cs.Memory.Words.{load64-congr, load64-zero}
use cs.Util.Align.{align_up}
use cs.Page.{bk_size, bk_test}
use cs.Page.Init.{bk_pages, page_init_statuses}
use cs.Page.Sample.{
  heap, noise, noise-IsBytes, fresh, heap-IsRegion, fresh-IsValid, fresh_counts, rooted_facts,
}
use cs.Mmu.{slot, is_valid, mmu_table_create, mmu_map}
use cs.Mmu.Frame.{Ready, NewFrame, create_cases}
use cs.Mmu.Walk.{absent}
use cs.Mmu.Map.{Mapped, mmu_map-Mapped}

heap_size : bk_size heap ≡ 4096
unfolding align_up
heap_size = refl

fresh_booked : (i : ℕ) → i < bk_pages heap → 2 ≤ bk_test heap fresh i
unfolding fresh
fresh_booked i h =
    ground (arith, page_init_statuses heap noise noise-IsBytes i (omega (arith, heap_size)))

fresh-Ready : Ready heap fresh
fresh-Ready = record {
  region = heap-IsRegion;
  valid = fresh-IsValid;
  covered = omega (arith, heap_size);
  room = omega (arith, heap_size);
  booked = fresh_booked;
}

root-NewFrame : NewFrame heap fresh (mmu_table_create heap fresh) 1
unfolding mmu_table_create
root-NewFrame = elim (create_cases heap fresh fresh-Ready) [
  | inl (none_left, full) ↦ absurd (omega (arith, fresh_counts.0))
  | inr (i, n) ↦
      let e : i ≡ 1 = omega (arith, n.address, rooted_facts.0) in
      subst (λ (j : ℕ). NewFrame heap fresh (mmu_table_create heap fresh) j) e n
]

rooted : Memory
unfolding mmu_table_create
rooted = (mmu_table_create heap fresh).1

root_empty : is_valid (load64 rooted (slot 0x2000 0x40201abc 2)) ≡ false
unfolding rooted
root_empty =
    let e =
      load64-congr rooted (λ x. 0) (slot 0x2000 0x40201abc 2)
        (λ x p q. root-NewFrame.zeroed x (ground arith))
      ∙ load64-zero (slot 0x2000 0x40201abc 2) in
    rw e refl

mmu_map-Mapped_example :
    Mapped heap 1 0x40201abc 0x80003000 0 6 (mmu_map heap rooted 0x2000 0x40201abc 0x80003000 0 6)
unfolding rooted
mmu_map-Mapped_example =
    mmu_map-Mapped heap rooted 0x40201abc 0x80003000 0 6 1 root-NewFrame.ready (omega arith)
      (omega arith) (omega arith) (absent root-NewFrame.frame refl root_empty)
      (omega (arith, rooted_facts.1))
