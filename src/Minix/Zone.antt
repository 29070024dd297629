-- ===== src/Minix/Zone.antt =====
-- get_next_zone: the zones of a file, one after the other, through the direct, the indirect and the doubly
-- indirect pointers of its inode. A descriptor has the fields of `fileDescriptorEntry` that the walk, `read`
-- and `lseek` use; `zones` and `size` are those of the inode that `file_inode` points to.
pub mod Walk
pub mod Left
pub mod Step
pub mod Seek
pub mod Read
use cs.Base.{
  ℕ, zero, suc, ◌+◌, ◌-◌, ◌*◌, ◌/◌, ◌%◌, ◌^◌, Bool, true, false, ◌&&◌, not, List, [], ◌∷◌, Option,
  none, some, ltb, ◌==◌, if◌then◌else◌, ◌>>=◌,
}
use cs.Base.Lists.{get_or, drop, take}
use cs.Block.{Device, Buffer, block_read_wrapper}
use cs.Minix.{Fs}

pub record Descriptor : Type 0 where
  pub zones : List ℕ
  pub size : ℕ
  pub index0 : ℕ
  pub index1 : ℕ
  pub index2 : ℕ
  pub index3 : ℕ
  pub fp_block_offset : ℕ
  pub fp_byte_offset : ℕ
  pub file_pointer : ℕ
  pub total_read : ℕ

-- `(uint32_t)-1`
abbrev pub minus_one : ℕ
minus_one = 2 ^ 32 - 1

-- `ZONE_INDIR`, `ZONE_DINDIR`, `ZONE_TINDIR`
abbrev pub zone_indir : ℕ
zone_indir = 7

abbrev pub zone_dindir : ℕ
zone_dindir = 8

abbrev pub zone_tindir : ℕ
zone_tindir = 9

abbrev pub zone_of : Descriptor → ℕ → ℕ
zone_of fd i = get_or fd.zones i 0

-- The `n` words of a block from the `i`-th on.
unfoldable pub words : ℕ → Buffer → ℕ → List ℕ
words zero buf i = []
words (suc n) buf i =
    (buf (4 * i) + buf (4 * i + 1) * 2 ^ 8 + buf (4 * i + 2) * 2 ^ 16 + buf (4 * i + 3) * 2 ^ 24)
    ∷ words n buf (i + 1)

-- The loop over the pointers from index `i` on: the first that is not 0, and its index.
unfoldable pub scan : ℕ → List ℕ → Option (ℕ × ℕ)
scan i [] = none
scan i (p ∷ ps) = let later = scan (i + 1) ps in if p == 0 then later else some (i, p)

-- A level that has found a zone returns, and one that has not goes on with the next.
abbrev pub or_else :
    Bool × Descriptor → (Descriptor → Option (Bool × Descriptor)) → Option (Bool × Descriptor)
or_else (true, fd) next = some (true, fd)
or_else (false, fd) next = next fd

-- The direct zones that are left. Each round that finds none leaves 0 in `fp_block_offset`.
unfoldable pub direct_left : Descriptor → List ℕ
direct_left fd = drop (fd.index0 + 1) (take zone_indir fd.zones)

pub next_direct : Descriptor → Option (ℕ × ℕ) → Bool × Descriptor
next_direct fd (some (i, z)) = (true, record fd { index0 = i; fp_block_offset = z })
next_direct fd none = (
  false,
  record fd {
    index0 = zone_indir;
    index1 = minus_one;
    fp_block_offset = if ltb (fd.index0 + 1) zone_indir then 0 else fd.fp_block_offset;
  },
)

pub next_single : Descriptor → Option (ℕ × ℕ) → Bool × Descriptor
next_single fd (some (j, z)) = (true, record fd { index1 = j; fp_block_offset = z })
next_single fd none = (false, record fd { index0 = zone_dindir; index1 = 0; index2 = minus_one })

-- `get_next_zone_wrapper` where it has found none
unfoldable pub restore : Descriptor → Descriptor → Descriptor
restore fd fd' = record fd' {
  index0 = fd.index0;
  index1 = fd.index1;
  index2 = fd.index2;
  index3 = fd.index3;
  fp_block_offset = fd.fp_block_offset;
}

pub next_double :
    Descriptor → Option (Bool × Descriptor) → Option (ℕ × ℕ) → Option (Bool × Descriptor)
next_double fd later (some (k, z)) = some (true, record fd { index2 = k; fp_block_offset = z })
next_double fd later none = later

pub in_direct : Descriptor → Bool × Descriptor
in_direct fd =
    if ltb fd.index0 zone_indir
    then next_direct fd (scan (fd.index0 + 1) (direct_left fd))
    else (false, fd)

-- The code stops at a triply indirect zone.
pub in_triple : Descriptor → Option (Bool × Descriptor)
in_triple fd =
    if fd.index0 == zone_tindir && not (zone_of fd zone_tindir == 0) then none else some (false, fd)

module _ {Disk : Type 0} (dev : Device Disk) (fs : Fs Disk) where
  -- A pointer zone as it is read. The code stops where the read fails.
  unfoldable pub read_pointers : ℕ → Option (List ℕ)
  unfolding words
  read_pointers zone = do
    got ← block_read_wrapper dev fs.disk (zone * fs.block_size % 2 ^ 32) fs.block_size
    buf ← got
    some (words (fs.block_size / 4) buf 0)

  -- The loops over the pointers of the doubly indirect zone from index `j` on.
  unfoldable pub double_from : ℕ → List ℕ → Descriptor → Option (Bool × Descriptor)
  unfolding scan next_double
  double_from j [] fd =
      some (false, record fd { index0 = zone_tindir; index1 = 0; index2 = 0; index3 = minus_one })
  double_from j (p ∷ ps) fd =
      let fd = record fd { index1 = j } in
      let skip = double_from (j + 1) ps fd in
      let later = double_from (j + 1) ps (record fd { index2 = minus_one }) in
      let first = (fd.index2 + 1) % 2 ^ 32 in
      if p == 0
      then skip
      else (do pointers ← read_pointers p; next_double fd later (scan first (drop first pointers)))

  pub in_single : Descriptor → Option (Bool × Descriptor)
  in_single fd =
      if fd.index0 == zone_indir && not (zone_of fd zone_indir == 0)
      then (do
        pointers ← read_pointers (zone_of fd zone_indir)
        let first = (fd.index1 + 1) % 2 ^ 32
        some (next_single fd (scan first (drop first pointers))))
      else some (false, fd)

  pub in_double : Descriptor → Option (Bool × Descriptor)
  unfolding double_from
  in_double fd =
      if fd.index0 == zone_dindir && not (zone_of fd zone_dindir == 0)
      then (do
        pointers ← read_pointers (zone_of fd zone_dindir)
        if ltb (fs.block_size / 4) fd.index1
            then some (false, fd)
            else double_from fd.index1 (drop fd.index1 pointers) fd)
      else some (false, fd)

  pub get_next_zone : Descriptor → Option (Bool × Descriptor)
  get_next_zone fd =
      or_else (in_direct fd) (λ fd.
        in_single fd >>= (λ r. or_else r (λ fd. in_double fd >>= (λ r. or_else r in_triple))))

  pub get_next_zone_wrapper : Descriptor → Option (Bool × Descriptor)
  get_next_zone_wrapper fd = do
    (found, fd') ← get_next_zone fd
    some (found, if found then fd' else restore fd fd')
