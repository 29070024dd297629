-- ===== src/Mmu/Map.antt =====
-- `mmu_map` against `mmu_translate` and `mmu_access_ok`.
use cs.Base.{
  ℕ, zero, suc, ◌+◌, ◌-◌, ◌^◌, ◌≤◌, ◌<◌, ◌≡◌, ◌≢◌, inl, inr, refl, ap, sym, ◌∙◌, arith, Bool, true,
  false, ◌||◌, Option, ltb, ◌==◌, bit_and,
}
use cs.Base.Bits.{bit_and_fourteen}
use native.Mathlib.Nat.{zero-add}
use cs.Memory.{Memory, null, store64, load64}
use cs.Memory.Words.{store64_other, load64-store64_same}
use cs.Page.{Region, page_count_free}
use cs.Mmu.{
  slot, is_valid, is_leaf, branch_table, leaf_entry, leaf_addr, mmu_map, translate_from,
  mmu_translate, access_from, mmu_access_ok,
}
use cs.Mmu.Entry.{vpn-eq, leaf_addr-entry, mapped_to}
use cs.Util.Mem.Copy.{store64-IsBytes}
use cs.Mmu.Frame.{Ready, frame_addr, bk_whole, Ready-same}
use cs.Mmu.Walk.{Clean, Chain, Outside, Walked, walk_outcome}

-- no table yet
abbrev pub nowhere : ℕ → Bool
nowhere x = false

-- One branch, at a level that is the successor of another.
module _ (m : Memory) (vaddr l : ℕ) where
  module _ (tab : ℕ) where
    translate_step :
        is_valid (load64 m (slot tab vaddr (suc l))) ≡ true
        → is_leaf (load64 m (slot tab vaddr (suc l))) ≡ false
        → translate_from m vaddr (suc l) tab
          ≡ translate_from m vaddr l (branch_table (load64 m (slot tab vaddr (suc l))))
    unfolding translate_from
    translate_step v b = rw (v, b)

    access_step :
        (perms : ℕ)
        → is_valid (load64 m (slot tab vaddr (suc l))) ≡ true
        → is_leaf (load64 m (slot tab vaddr (suc l))) ≡ false
        → access_from m vaddr perms (suc l) tab
          ≡ access_from m vaddr perms l (branch_table (load64 m (slot tab vaddr (suc l))))
    unfolding access_from
    access_step perms v b = rw (v, b)

-- Translation and the permission check follow a chain of branches.
module _ (m : Memory) (vaddr lvl : ℕ) where
  translate-Chain :
      (k tab t : ℕ)
      → Chain m vaddr lvl k tab t
      → translate_from m vaddr (k + lvl) tab ≡ translate_from m vaddr lvl t
  translate-Chain zero tab t c = rw (zero-add, c)
  translate-Chain (suc k) tab t (valid, branch, rest) =
      let e : lvl + suc k ≡ suc (k + lvl) = omega arith in
      let down : suc k + lvl ≡ suc (k + lvl) = omega arith in
      rw down (
        translate_step m vaddr (k + lvl) tab (rw e at valid) (rw e at branch)
        ∙ translate-Chain k (branch_table (load64 m (slot tab vaddr (suc (k + lvl))))) t
            (rw e at rest))

  access-Chain :
      (perms k tab t : ℕ)
      → Chain m vaddr lvl k tab t
      → access_from m vaddr perms (k + lvl) tab ≡ access_from m vaddr perms lvl t
  access-Chain perms zero tab t c = rw (zero-add, c)
  access-Chain perms (suc k) tab t (valid, branch, rest) =
      let e : lvl + suc k ≡ suc (k + lvl) = omega arith in
      let down : suc k + lvl ≡ suc (k + lvl) = omega arith in
      rw down (
        access_step m vaddr (k + lvl) tab perms (rw e at valid) (rw e at branch)
        ∙ access-Chain perms k (branch_table (load64 m (slot tab vaddr (suc (k + lvl))))) t
            (rw e at rest))

-- At a leaf both read the entry.
translate_leaf :
    (m : Memory) (vaddr lvl t pte : ℕ)
    → load64 m (slot t vaddr lvl) ≡ pte
    → is_valid pte ≡ true
    → is_leaf pte ≡ true
    → translate_from m vaddr lvl t ≡ leaf_addr pte vaddr lvl
unfolding translate_from
translate_leaf m vaddr zero t pte e v l = rw (e, v, l)
translate_leaf m vaddr (suc lvl) t pte e v l =
    rw (e, v, l) (ap (λ (p : ℕ). leaf_addr p vaddr (suc lvl)) e)

access_leaf :
    (m : Memory) (vaddr perms lvl t pte : ℕ)
    → load64 m (slot t vaddr lvl) ≡ pte
    → is_valid pte ≡ true
    → is_leaf pte ≡ true
    → access_from m vaddr perms lvl t ≡ (bit_and pte perms == perms)
unfolding access_from
access_leaf m vaddr perms zero t pte e v l = rw (e, v, l)
access_leaf m vaddr perms (suc lvl) t pte e v l = rw (e, v, l)

-- What a successful `mmu_map` leaves behind.
pub record Mapped (r : Region) (i vaddr paddr lvl bits : ℕ) (out : Bool × Memory) : Type 0 where
  pub done : out.0 ≡ true
  pub translated : mmu_translate out.1 (frame_addr r i) vaddr ≡ mapped_to paddr vaddr lvl
  pub allowed :
      (perms : ℕ)
      → mmu_access_ok out.1 (frame_addr r i) vaddr perms
        ≡ (bit_and (leaf_entry paddr lvl bits) perms == perms)
  pub ready : Ready r out.1

module _ (r : Region) (m : Memory) (vaddr paddr lvl bits : ℕ) where
  -- The leaf written into the table at the end of the walk.
  module _ (i t : ℕ) {out : Option ℕ × Memory} (w : Walked r m vaddr lvl (2 - lvl) i nowhere out t)
      (low : lvl ≤ 2) (small : bits < 2 ^ 10) (perms : bit_and bits 0xE ≢ 0) where
    abbrev leaf : ℕ
    leaf = leaf_entry paddr lvl bits

    abbrev written : Memory
    written = store64 out.1 (slot (frame_addr r t) vaddr lvl) leaf

    leaf_fields :
        (is_valid leaf ≡ true)
        × (is_leaf leaf ≡ true)
        × (leaf < 2 ^ 64)
        × (leaf_addr leaf vaddr lvl ≡ mapped_to paddr vaddr lvl)
    leaf_fields =
        leaf_addr-entry paddr vaddr bits lvl low small (omega (arith, bit_and_fourteen bits))

    written-Outside : Outside r t out.1 written
    written-Outside x h =
        store64_other out.1 (slot (frame_addr r t) vaddr lvl) leaf x
          (ground (arith, vpn-eq vaddr lvl))

    leaf_read : load64 written (slot (frame_addr r t) vaddr lvl) ≡ leaf
    leaf_read = load64-store64_same out.1 (slot (frame_addr r t) vaddr lvl) leaf leaf_fields.2

    levels : 2 - lvl + lvl ≡ 2
    levels = omega arith

    found : (frame_addr r i == null) ≡ false
    found = ground (arith, w.ready.region.above)

    chain : Chain written vaddr lvl (2 - lvl) (frame_addr r i) (frame_addr r t)
    chain = w.chain written written-Outside

    written-Mapped : Mapped r i vaddr paddr lvl bits (true, written)
    unfolding mmu_translate mmu_access_ok
    written-Mapped = record {
      done = refl;
      translated = rw found (
          ap (λ (l : ℕ). translate_from written vaddr l (frame_addr r i)) (sym levels)
          ∙ translate-Chain written vaddr lvl (2 - lvl) (frame_addr r i) (frame_addr r t) chain
          ∙ translate_leaf written vaddr lvl (frame_addr r t) leaf leaf_read leaf_fields.0
              leaf_fields.1
          ∙ leaf_fields.3);
      allowed = λ p. rw found (
          ap (λ (l : ℕ). access_from written vaddr p l (frame_addr r i)) (sym levels)
          ∙ access-Chain written vaddr lvl p (2 - lvl) (frame_addr r i) (frame_addr r t) chain
          ∙ access_leaf written vaddr p lvl (frame_addr r t) leaf leaf_read leaf_fields.0
              leaf_fields.1);
      ready =
          Ready-same r out.1 w.ready written
            (store64-IsBytes out.1 (slot (frame_addr r t) vaddr lvl) leaf w.ready.valid.bytes)
            (λ x p q. written-Outside x (ground (arith, w.frame.behind, bk_whole r out.1 w.ready)));
    }

  -- Over a ready allocator with a free page for each missing level at most, from the table in page
  -- `i`, on a path of tables without leaves: `mmu_map` of a virtual address at a level from 0 to 2,
  -- with permission bits below bit 10 of which one of read, write and execute is set, succeeds. Then
  -- `mmu_translate` gives the physical page with the offset of the virtual address,
  -- `mmu_access_ok` grants exactly the permissions that the new entry holds, and the allocator is
  -- ready again.
  pub mmu_map-Mapped :
      (i : ℕ)
      → Ready r m
      → lvl ≤ 2
      → bits < 2 ^ 10
      → bit_and bits 0xE ≢ 0
      → Clean r m vaddr lvl (2 - lvl) i nowhere
      → 2 - lvl ≤ page_count_free r m
      → Mapped r i vaddr paddr lvl bits (mmu_map r m (frame_addr r i) vaddr paddr lvl bits)
  unfolding mmu_map
  mmu_map-Mapped i ok low small perms clean enough =
      elim (walk_outcome r vaddr lvl (2 - lvl) i m nowhere ok clean (λ j h. cc)) [
        | inl (out, few) ↦ absurd (omega arith)
        | inr (t, w) ↦
            let guards : (frame_addr r i == null || ltb 2 lvl || bit_and bits 0xE == 0) ≡ false =
              ground (arith, ok.region.above) in
            rw (guards, w.result) (written-Mapped i t w low small perms)
      ]
