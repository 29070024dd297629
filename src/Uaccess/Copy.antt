-- ===== src/Uaccess/Copy.antt =====
-- copy_from and copy_to end, within the bytes asked for.
use cs.Base.{
  ℕ, zero, suc, ◌+◌, ◌-◌, ◌%◌, ◌^◌, ◌≤◌, ◌<◌, ◌≡◌, ◌⊎◌, inl, inr, refl, ◌∙◌, arith, Bool-cases,
  true, false, some, leb,
}
use cs.Memory.{Memory, in_range}
use cs.Util.Align.{align_up_page}
use cs.Util.Mem.{memcpy}
use cs.Util.Mem.Outside.{memcpy_outside}
use cs.Mmu.{mmu_translate}
use cs.Mmu.Bound.{mmu_translate_bound}
use cs.Uaccess.{refused, bytes_to_copy, copy_from_loop, copy_from, copy_to_loop, copy_to}

-- A round that is not refused copies something.
round_bound :
    (m : Memory) (table addr perms left : ℕ)
    → refused m table addr perms ≡ false
    → 0 < left
    → (0 < bytes_to_copy (mmu_translate m table addr) left)
      × (bytes_to_copy (mmu_translate m table addr) left ≤ left)
unfolding refused bytes_to_copy
round_bound m table addr perms left ok h =
    ground (arith, mmu_translate_bound m table addr, align_up_page (mmu_translate m table addr + 1))

module _ (dst table from size : ℕ) where
  copy_from_loop_lem :
      (fuel : ℕ) (m : Memory) (copied : ℕ)
      → copied ≤ size
      → size < copied + fuel
      → (n : ℕ) × (m' : Memory) × (copy_from_loop fuel m dst table from size copied ≡ some (n, m'))
        × (n ≤ size)
        × ((n ≡ size) ⊎ (refused m' table ((from + n) % 2 ^ 64) 0x12 ≡ true))
        × ((x : ℕ) → in_range dst size x ≡ false → m' x ≡ m x)
  unfolding copy_from_loop
  copy_from_loop_lem zero m copied h enough = absurd (omega arith)
  copy_from_loop_lem (suc fuel) m copied h enough = elim (Bool-cases (leb size copied)) [
    | inl all ↦ rw all (copied, m, refl, h, inl (ground arith), λ x o. refl)
    | inr more ↦ elim (Bool-cases (refused m table ((from + copied) % 2 ^ 64) 0x12)) [
      | inl stop ↦ rw (more, stop) (copied, m, refl, h, inr stop, λ x o. refl)
      | inr go ↦
          let phys = mmu_translate m table ((from + copied) % 2 ^ 64) in
          let k = bytes_to_copy phys (size - copied) in
          let b =
            round_bound m table ((from + copied) % 2 ^ 64) 0x12 (size - copied) go (ground arith) in
          let (n, m', done, low, why, same) =
            copy_from_loop_lem fuel (memcpy m (dst + copied) phys k) (copied + k) (omega arith)
              (omega arith) in
          rw (more, go)
            (
              n,
              m',
              done,
              low,
              why,
              λ x o. same x o ∙ memcpy_outside m (dst + copied) phys k x (ground arith),
            )
    ]
  ]

  -- With more fuel than bytes asked for, `copy_from` returns: it copies at most the bytes asked for,
  -- writes nothing outside the destination's range of that size, and where it copies fewer, the page
  -- table refuses the user the first byte that is missing.
  pub copy_from_lem :
      (fuel : ℕ) (m : Memory)
      → size < fuel
      → (n : ℕ) × (m' : Memory) × (copy_from fuel m dst table from size ≡ some (n, m'))
        × (n ≤ size)
        × ((n ≡ size) ⊎ (refused m' table ((from + n) % 2 ^ 64) 0x12 ≡ true))
        × ((x : ℕ) → in_range dst size x ≡ false → m' x ≡ m x)
  unfolding copy_from
  copy_from_lem fuel m h = copy_from_loop_lem fuel m 0 (omega arith) (omega arith)

module _ (to table src size : ℕ) where
  copy_to_loop_lem :
      (fuel : ℕ) (m : Memory) (copied : ℕ)
      → copied ≤ size
      → size < copied + fuel
      → (n : ℕ) × (m' : Memory) × (copy_to_loop fuel m to table src size copied ≡ some (n, m'))
        × (n ≤ size)
        × ((n ≡ size) ⊎ (refused m' table ((to + n) % 2 ^ 64) 0x14 ≡ true))
  unfolding copy_to_loop
  copy_to_loop_lem zero m copied h enough = absurd (omega arith)
  copy_to_loop_lem (suc fuel) m copied h enough = elim (Bool-cases (leb size copied)) [
    | inl all ↦ rw all (copied, m, refl, h, inl (ground arith))
    | inr more ↦ elim (Bool-cases (refused m table ((to + copied) % 2 ^ 64) 0x14)) [
      | inl stop ↦ rw (more, stop) (copied, m, refl, h, inr stop)
      | inr go ↦
          let phys = mmu_translate m table ((to + copied) % 2 ^ 64) in
          let k = bytes_to_copy phys (size - copied) in
          let b =
            round_bound m table ((to + copied) % 2 ^ 64) 0x14 (size - copied) go (ground arith) in
          rw (more, go)
            (copy_to_loop_lem fuel (memcpy m phys (src + copied) k) (copied + k) (omega arith)
              (omega arith))
    ]
  ]

  -- With more fuel than bytes asked for, `copy_to` returns: it copies at most the bytes asked for,
  -- and where it copies fewer, the page table refuses the user the first byte that is missing.
  pub copy_to_lem :
      (fuel : ℕ) (m : Memory)
      → size < fuel
      → (n : ℕ) × (m' : Memory) × (copy_to fuel m to table src size ≡ some (n, m'))
        × (n ≤ size)
        × ((n ≡ size) ⊎ (refused m' table ((to + n) % 2 ^ 64) 0x14 ≡ true))
  unfolding copy_to
  copy_to_lem fuel m h = copy_to_loop_lem fuel m 0 (omega arith) (omega arith)
