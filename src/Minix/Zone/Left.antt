-- ===== src/Minix/Zone/Left.antt =====
-- The zones that are left of a file, and what finding the next of them means.
use cs.Base.{
  ◌⊎◌, ℕ, ◌+◌, ◌%◌, ◌^◌, ◌<◌, ◌≡◌, refl, ap, ◌∙◌, Bool, true, false, List, [], ◌∷◌, ◌++◌, Option,
  some, ltb, ◌==◌, if◌then◌else◌,
}
use cs.Base.Lists.{get_or, drop}
use cs.Minix.Zone.{Descriptor, minus_one, restore, zone_indir, zone_dindir, zone_of, direct_left}
use cs.Minix.Zone.Walk.{nonzero, double_zones}

-- The zones that are left: from pointer `k` of the singly indirect zone on, and of the doubly indirect ones
-- from pointer `k` of the `j`-th on. Where there is no singly indirect zone, the code does not look further.
unfoldable pub doubles : (ℕ → List ℕ) → Descriptor → ℕ → ℕ → List ℕ
doubles ptrs fd j k =
    if zone_of fd zone_dindir == 0
    then []
    else double_zones ptrs (drop j (ptrs (zone_of fd zone_dindir))) k

unfoldable pub singles : (ℕ → List ℕ) → Descriptor → ℕ → List ℕ
singles ptrs fd k =
    if zone_of fd zone_indir == 0
    then []
    else nonzero (drop k (ptrs (zone_of fd zone_indir))) ++ doubles ptrs fd 0 0

unfoldable pub remaining : (ℕ → List ℕ) → Descriptor → List ℕ
remaining ptrs fd =
    if ltb fd.index0 zone_indir
    then nonzero (direct_left fd) ++ singles ptrs fd 0
    else if fd.index0 == zone_indir
    then singles ptrs fd ((fd.index1 + 1) % 2 ^ 32)
    else if fd.index0 == zone_dindir
    then doubles ptrs fd fd.index1 ((fd.index2 + 1) % 2 ^ 32)
    else []

-- The zone that the indices stand for.
unfoldable pub zone_at : (ℕ → List ℕ) → Descriptor → ℕ
zone_at ptrs fd =
    if fd.index1 == minus_one
    then zone_of fd fd.index0
    else if fd.index2 == minus_one
    then get_or (ptrs (zone_of fd zone_indir)) fd.index1 0
    else get_or (ptrs (get_or (ptrs (zone_of fd zone_dindir)) fd.index1 0)) fd.index2 0

-- The indices of the levels that the walk has not reached are -1.
pub data IsPlaced (fd : Descriptor) : Type 0 where
  direct :
      fd.index0 < zone_indir
      → fd.index1 ≡ minus_one
      → fd.index2 ≡ minus_one
      → fd.index3 ≡ minus_one
      → IsPlaced fd
  single :
      fd.index0 ≡ zone_indir
      → fd.index1 < minus_one
      → fd.index2 ≡ minus_one
      → fd.index3 ≡ minus_one
      → IsPlaced fd
  double :
      fd.index0 ≡ zone_dindir
      → fd.index1 < minus_one
      → fd.index2 < minus_one
      → fd.index3 ≡ minus_one
      → IsPlaced fd

pub remaining_moved :
    (ptrs : ℕ → List ℕ) (fd : Descriptor) (byte pointer total : ℕ)
    → remaining ptrs
        (record fd { fp_byte_offset = byte; file_pointer = pointer; total_read = total })
      ≡ remaining ptrs fd
unfolding remaining singles doubles direct_left
remaining_moved ptrs fd byte pointer total = refl

pub remaining_arrived :
    (ptrs : ℕ → List ℕ) (fd : Descriptor) (block byte pointer : ℕ)
    → remaining ptrs
        (record fd { fp_block_offset = block; fp_byte_offset = byte; file_pointer = pointer })
      ≡ remaining ptrs fd
unfolding remaining singles doubles direct_left
remaining_arrived ptrs fd block byte pointer = refl

-- What finding the next zone does, where `left` are left: the descriptor `next` has it as its block, and its
-- indices stand for it; nothing but the indices and the block has changed.
pub record Next (ptrs : ℕ → List ℕ) (fd : Descriptor) (left : List ℕ) (next : Descriptor)
    (zs : List ℕ) : Type 0 where
  pub first : left ≡ next.fp_block_offset ∷ zs
  pub rest : remaining ptrs next ≡ zs
  pub placed : IsPlaced next
  pub at : zone_at ptrs next ≡ next.fp_block_offset
  pub kept : restore fd next ≡ fd

abbrev pub Stage : (ℕ → List ℕ) → Descriptor → Option (Bool × Descriptor) → List ℕ → Type 0
Stage ptrs fd r left =
    ((left ≡ []) × (fd' : Descriptor) × (r ≡ some (false, fd')) × (restore fd fd' ≡ fd))
    ⊎ ((next : Descriptor) × (zs : List ℕ) × (r ≡ some (true, next)) × Next ptrs fd left next zs)

pub restore_again : (a b c : Descriptor) → restore a b ≡ a → restore b c ≡ b → restore a c ≡ a
unfolding restore
restore_again a b c h k = ap (restore a) k ∙ h
