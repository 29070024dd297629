-- ===== src/Mmu/Entry.antt =====
-- Page-table entries: what the packing of `mmu_map` and the unpacking of the other functions do to
-- the fields of an entry.
use cs.Base.{
  ℕ, zero, suc, ◌+◌, ◌*◌, ◌/◌, ◌%◌, ◌^◌, ◌≤◌, ◌<◌, ◌≡◌, ◌≢◌, refl, ap, ◌∙◌, arith, true, not,
  bit_and, bit_or, ◌==◌,
}
use cs.Base.Bits.{bit_or_disjoint, bit_or-one, bit_and_mask, bit_and_fourteen, bit_and_page}
use cs.Mmu.{
  ppn, pte_ppn, vpn, is_valid, is_leaf, leaf_ppns, leaf_entry, leaf_addr, next_table, branch_table,
  addr_bit,
}

pub vpn-eq : (vaddr lvl : ℕ) → vpn vaddr lvl ≡ vaddr / 2 ^ addr_bit lvl % 512
vpn-eq vaddr lvl = bit_and_mask 9 (vaddr / 2 ^ addr_bit lvl)

pub is_valid-eq : (pte : ℕ) → is_valid pte ≡ not (pte % 2 == 0)
is_valid-eq pte = ap (λ (t : ℕ). not (t == 0)) (bit_and_mask 1 pte)

pub is_leaf-eq : (pte : ℕ) → is_leaf pte ≡ not (pte / 2 % 8 == 0)
is_leaf-eq pte = ground (arith, bit_and_fourteen pte)

-- Both ways of following a branch lead to the same table.
pub next_table-eq : (entry : ℕ) → next_table entry ≡ branch_table entry
next_table-eq entry = omega (arith, bit_and_page (entry * 4 % 2 ^ 64) (omega arith))

pub branch_table-eq : (pte : ℕ) → branch_table pte ≡ pte * 4 % 2 ^ 64 / 2 ^ 12 * 2 ^ 12
branch_table-eq pte = bit_and_page (pte * 4 % 2 ^ 64) (omega arith)

-- The entry of a new branch names its table.
pub branch_entry :
    (t : ℕ)
    → t < 2 ^ 64
    → t % 4096 ≡ 0
    → (bit_or (t / 4) 1 ≡ t / 4 + 1)
      × (next_table (bit_or (t / 4) 1) ≡ t)
      × (bit_or (t / 4) 1 < 2 ^ 64)
branch_entry t h a = (
  omega (arith, bit_or-one (t / 4)),
  omega (arith, bit_or-one (t / 4)),
  omega (arith, bit_or-one (t / 4)),
)

-- A field above a field: the masks and shifts of the source as arithmetic.
or_fields : (k q r m : ℕ) → m ≡ q * 2 ^ k → r < 2 ^ k → bit_or m r ≡ q * 2 ^ k + r
or_fields k q r m e h = rw e (bit_or_disjoint k q r h)

module _ (paddr : ℕ) where
  ppn2 : ppn paddr 2 ≡ paddr / 2 ^ 30 % 2 ^ 26
  ppn2 = bit_and_mask 26 (paddr / 2 ^ 30)

  ppn1 : ppn paddr 1 ≡ paddr / 2 ^ 21 % 2 ^ 9
  ppn1 = bit_and_mask 9 (paddr / 2 ^ 21)

  ppn0 : ppn paddr 0 ≡ paddr / 2 ^ 12 % 2 ^ 9
  ppn0 = bit_and_mask 9 (paddr / 2 ^ 12)

  ppns2 : leaf_ppns paddr 2 ≡ paddr / 2 ^ 30 % 2 ^ 26 * 2 ^ 28
  ppns2 = omega (arith, ppn2)

  ppns1 : leaf_ppns paddr 1 ≡ paddr / 2 ^ 21 % 2 ^ 35 * 2 ^ 19
  ppns1 =
      or_fields 28 (ppn paddr 2) (ppn paddr 1 * 2 ^ 19) (ppn paddr 2 * 2 ^ 28) refl
        (omega (arith, ppn1))
      ∙ omega (arith, ppn2, ppn1)

  ppns0 : leaf_ppns paddr 0 ≡ paddr / 2 ^ 12 % 2 ^ 44 * 2 ^ 10
  ppns0 =
      or_fields 19 (paddr / 2 ^ 21 % 2 ^ 35) (ppn paddr 0 * 2 ^ 10) (leaf_ppns paddr 1) ppns1
        (omega (arith, ppn0))
      ∙ omega (arith, ppn0)

-- A leaf holds the page number above ten bits for the permissions, the lowest of them set.
module _ (paddr bits : ℕ) (small : bits < 2 ^ 10) where
  with_bits :
      (n lvl : ℕ)
      → leaf_ppns paddr lvl ≡ n * 2 ^ 10
      → leaf_entry paddr lvl bits ≡ n * 2 ^ 10 + (bits / 2 * 2 + 1)
  unfolding leaf_entry
  with_bits n lvl e =
      let low = or_fields 10 n bits (leaf_ppns paddr lvl) e small in
      omega (arith, low, bit_or-one (bit_or (leaf_ppns paddr lvl) bits))

  pub leaf_entry_fields :
      (leaf_entry paddr 0 bits ≡ paddr / 2 ^ 12 % 2 ^ 44 * 2 ^ 10 + (bits / 2 * 2 + 1))
      × (leaf_entry paddr 1 bits ≡ paddr / 2 ^ 21 % 2 ^ 35 * 2 ^ 19 + (bits / 2 * 2 + 1))
      × (leaf_entry paddr 2 bits ≡ paddr / 2 ^ 30 % 2 ^ 26 * 2 ^ 28 + (bits / 2 * 2 + 1))
  leaf_entry_fields = (
    with_bits (paddr / 2 ^ 12 % 2 ^ 44) 0 (ppns0 paddr),
    with_bits (paddr / 2 ^ 21 % 2 ^ 35 * 2 ^ 9) 1 (ppns1 paddr ∙ omega arith) ∙ omega arith,
    with_bits (paddr / 2 ^ 30 % 2 ^ 26 * 2 ^ 18) 2 (ppns2 paddr ∙ omega arith) ∙ omega arith,
  )

module _ (pte vaddr : ℕ) where
  pte2 : pte_ppn pte 2 ≡ pte / 2 ^ 28 % 2 ^ 26
  pte2 = bit_and_mask 26 (pte / 2 ^ 28)

  pte1 : pte_ppn pte 1 ≡ pte / 2 ^ 19 % 2 ^ 9
  pte1 = bit_and_mask 9 (pte / 2 ^ 19)

  pte0 : pte_ppn pte 0 ≡ pte / 2 ^ 10 % 2 ^ 9
  pte0 = bit_and_mask 9 (pte / 2 ^ 10)

  addr2 : leaf_addr pte vaddr 2 ≡ pte / 2 ^ 28 % 2 ^ 26 * 2 ^ 30 + vaddr % 2 ^ 30
  addr2 =
      or_fields 30 (pte_ppn pte 2) (bit_and vaddr 0x3FFFFFFF) (pte_ppn pte 2 * 2 ^ 30) refl
        (omega (arith, bit_and_mask 30 vaddr))
      ∙ omega (arith, pte2, bit_and_mask 30 vaddr)

  high1 : bit_or (pte_ppn pte 2 * 2 ^ 30) (pte_ppn pte 1 * 2 ^ 21) ≡ pte / 2 ^ 19 % 2 ^ 35 * 2 ^ 21
  high1 =
      or_fields 30 (pte_ppn pte 2) (pte_ppn pte 1 * 2 ^ 21) (pte_ppn pte 2 * 2 ^ 30) refl
        (omega (arith, pte1))
      ∙ omega (arith, pte1, pte2)

  addr1 : leaf_addr pte vaddr 1 ≡ pte / 2 ^ 19 % 2 ^ 35 * 2 ^ 21 + vaddr % 2 ^ 21
  addr1 =
      or_fields 21 (pte / 2 ^ 19 % 2 ^ 35) (bit_and vaddr 0x1FFFFF) _ high1
        (omega (arith, bit_and_mask 21 vaddr))
      ∙ omega (arith, bit_and_mask 21 vaddr)

  high0 :
      bit_or (bit_or (pte_ppn pte 2 * 2 ^ 30) (pte_ppn pte 1 * 2 ^ 21)) (pte_ppn pte 0 * 2 ^ 12)
      ≡ pte / 2 ^ 10 % 2 ^ 44 * 2 ^ 12
  high0 =
      or_fields 21 (pte / 2 ^ 19 % 2 ^ 35) (pte_ppn pte 0 * 2 ^ 12) _ high1 (omega (arith, pte0))
      ∙ omega (arith, pte0)

  addr0 : leaf_addr pte vaddr 0 ≡ pte / 2 ^ 10 % 2 ^ 44 * 2 ^ 12 + vaddr % 2 ^ 12
  addr0 =
      or_fields 12 (pte / 2 ^ 10 % 2 ^ 44) (bit_and vaddr 0xFFF) _ high0
        (omega (arith, bit_and_mask 12 vaddr))
      ∙ omega (arith, bit_and_mask 12 vaddr)

-- the physical address that a mapping of `vaddr` to `paddr` at a level stands for
abbrev pub mapped_to : ℕ → ℕ → ℕ → ℕ
mapped_to paddr vaddr lvl =
    paddr % 2 ^ 56 / 2 ^ addr_bit lvl * 2 ^ addr_bit lvl + vaddr % 2 ^ addr_bit lvl

-- The entry of `mmu_map` at a level is a valid leaf, and read back at the same level it gives the
-- physical page with the offset of the virtual address.
pub leaf_addr-entry :
    (paddr vaddr bits lvl : ℕ)
    → lvl ≤ 2
    → bits < 2 ^ 10
    → bits / 2 % 8 ≢ 0
    → (is_valid (leaf_entry paddr lvl bits) ≡ true)
      × (is_leaf (leaf_entry paddr lvl bits) ≡ true)
      × (leaf_entry paddr lvl bits < 2 ^ 64)
      × (leaf_addr (leaf_entry paddr lvl bits) vaddr lvl ≡ mapped_to paddr vaddr lvl)
leaf_addr-entry paddr vaddr bits zero h small perms =
    let f = (leaf_entry_fields paddr bits small).0 in
    (
      ground (arith, f, is_valid-eq (leaf_entry paddr 0 bits)),
      ground (arith, f, is_leaf-eq (leaf_entry paddr 0 bits)),
      omega (arith, f),
      addr0 (leaf_entry paddr 0 bits) vaddr ∙ omega (arith, f),
    )
leaf_addr-entry paddr vaddr bits (suc zero) h small perms =
    let f = (leaf_entry_fields paddr bits small).1 in
    (
      ground (arith, f, is_valid-eq (leaf_entry paddr 1 bits)),
      ground (arith, f, is_leaf-eq (leaf_entry paddr 1 bits)),
      omega (arith, f),
      addr1 (leaf_entry paddr 1 bits) vaddr ∙ omega (arith, f),
    )
leaf_addr-entry paddr vaddr bits (suc (suc zero)) h small perms =
    let f = (leaf_entry_fields paddr bits small).2 in
    (
      ground (arith, f, is_valid-eq (leaf_entry paddr 2 bits)),
      ground (arith, f, is_leaf-eq (leaf_entry paddr 2 bits)),
      omega (arith, f),
      addr2 (leaf_entry paddr 2 bits) vaddr ∙ omega (arith, f),
    )
leaf_addr-entry paddr vaddr bits (suc (suc (suc lvl))) h small perms = absurd (omega arith)

-- A physical address has 56 bits.
pub leaf_addr_bound : (pte vaddr lvl : ℕ) → lvl ≤ 2 → leaf_addr pte vaddr lvl < 2 ^ 56
leaf_addr_bound pte vaddr zero h = omega (arith, addr0 pte vaddr)
leaf_addr_bound pte vaddr (suc zero) h = omega (arith, addr1 pte vaddr)
leaf_addr_bound pte vaddr (suc (suc zero)) h = omega (arith, addr2 pte vaddr)
leaf_addr_bound pte vaddr (suc (suc (suc lvl))) h = absurd (omega arith)
