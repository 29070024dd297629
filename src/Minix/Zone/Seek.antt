-- ===== src/Minix/Zone/Seek.antt =====
-- lseek. An `off_t` is its 64 bits; the other integers are of the widths of the source.
pub mod Position
use cs.Base.{
  ℕ, zero, suc, ◌+◌, ◌-◌, ◌*◌, ◌/◌, ◌%◌, ◌^◌, Bool, true, false, ◌||◌, not, List, [], ◌∷◌, Option,
  none, some, ltb, leb, ◌==◌, if◌then◌else◌, ◌>>=◌,
}
use cs.Base.Lists.{get_or}
use cs.Block.{Device, Buffer, block_read_wrapper}
use cs.Minix.{Fs}
use cs.Minix.Zone.{
  Descriptor, minus_one, zone_indir, zone_dindir, zone_tindir, zone_of, words,
  get_next_zone_wrapper,
}

-- `BLOCK_SIZE`
abbrev pub block_bytes : ℕ
block_bytes = 1024

abbrev pub seek_set : ℕ
seek_set = 0

abbrev pub seek_cur : ℕ
seek_cur = 1

abbrev pub seek_end : ℕ
seek_end = 2

-- The zone that the indices stand for, as it is read again, or the value that is returned where a read fails.
pub data Reread : Type 0 where
  zone : ℕ → Reread
  overrun : Reread
  failed : ℕ → Reread

pub from_block : ℕ → Option (Option (List ℕ)) → ℕ → Reread
from_block code none i = overrun
from_block code (some none) i = failed code
from_block code (some (some pointer_buf)) i = zone (get_or pointer_buf i 0)

-- The division of a signed number by `BLOCK_SIZE`, towards 0.
pub ending_block : ℕ → ℕ
ending_block offset =
    if ltb offset (2 ^ 63)
    then offset / block_bytes
    else (2 ^ 64 - (2 ^ 64 - offset) / block_bytes) % 2 ^ 64

pub ending_byte : ℕ → ℕ
ending_byte offset =
    if ltb offset (2 ^ 63)
    then offset % block_bytes
    else (2 ^ 64 - (2 ^ 64 - offset) % block_bytes) % 2 ^ 64

unfoldable pub seek_offset : Descriptor → ℕ → ℕ → ℕ
seek_offset fd offset whence =
    if whence == seek_cur
    then (offset + fd.total_read) % 2 ^ 64
    else if whence == seek_end
    then (offset + fd.size) % 2 ^ 64
    else offset

-- The entry at the beginning of its file.
unfoldable pub seek_start : Descriptor → Descriptor
seek_start fd = record fd {
  fp_byte_offset = 0;
  fp_block_offset = zone_of fd 0;
  index0 = 0;
  index1 = minus_one;
  index2 = minus_one;
  index3 = minus_one;
  file_pointer = zone_of fd 0 * block_bytes;
  total_read = 0;
}

-- The entry after the loop, and what is returned.
pub seek_finish : ℕ → Bool × Descriptor × ℕ → ℕ × Descriptor
seek_finish byte (false, fd, code) = (code, fd)
seek_finish byte (true, fd, skipped) = (
  (skipped + byte) % 2 ^ 64,
  record fd {
    file_pointer = (fd.fp_block_offset * block_bytes + byte) % 2 ^ 64;
    fp_byte_offset = byte;
    total_read = (fd.total_read + byte + skipped) % 2 ^ 64;
  },
)

-- After the zone has been read again: the next round, or the value that is returned at once.
pub seek_on :
    Descriptor
    → Reread
    → (Descriptor → Option (Bool × Descriptor × ℕ))
    → Option (Bool × Descriptor × ℕ)
seek_on fd (failed code) next = some (false, fd, code)
seek_on fd overrun next = none
seek_on fd (zone z) next = next (record fd { fp_block_offset = z })

pub pointers_of : Option Buffer → Option (List ℕ)
unfolding words
pointers_of none = none
pointers_of (some buf) = some (words 256 buf 0)

module _ {Disk : Type 0} (dev : Device Disk) (fs : Fs Disk) where
  -- `pointer_buf`, whose index is below 256. The outer `none` is an overrun, the inner one a read that fails.
  pub block_pointers : ℕ → Option (Option (List ℕ))
  block_pointers spot = do
    got ← block_read_wrapper dev fs.disk (spot * block_bytes % 2 ^ 32) block_bytes
    some (pointers_of got)

  -- The pointers of the zone that pointer `i` of a pointer zone names.
  pub next_pointers : Option (Option (List ℕ)) → ℕ → Option (Option (List ℕ))
  next_pointers none i = none
  next_pointers (some none) i = some none
  next_pointers (some (some ps)) i = block_pointers (get_or ps i 0)

  -- the triply indirect level, from the pointers of the doubly indirect zone on
  pub reread_triple : Descriptor → Option (Option (List ℕ)) → Reread
  reread_triple fd none = overrun
  reread_triple fd (some none) = failed 20000
  reread_triple fd (some (some ps)) =
      from_block (2 ^ 64 - 20000) (block_pointers (get_or ps fd.index2 0)) fd.index3

  pub reread : Descriptor → Reread
  reread fd =
      if fd.index1 == minus_one
      then zone (zone_of fd fd.index0)
      else if fd.index2 == minus_one
      then from_block 20000 (block_pointers (zone_of fd zone_indir)) fd.index1
      else if fd.index3 == minus_one
      then from_block 20000 (next_pointers (block_pointers (zone_of fd zone_dindir)) fd.index1)
          fd.index2
      else reread_triple fd (next_pointers (block_pointers (zone_of fd zone_tindir)) fd.index1)

  -- A round where a zone was found, and where none was.
  pub seek_step :
      Bool × Descriptor
      → ℕ
      → (Descriptor → Option (Bool × Descriptor × ℕ))
      → Option (Bool × Descriptor × ℕ)
  seek_step (false, fd) skipped next = some (true, fd, skipped)
  seek_step (true, fd) skipped next = seek_on fd (reread fd) next

  -- The loop, with the rounds that are left.
  unfoldable pub seek_blocks : ℕ → Descriptor → ℕ → Option (Bool × Descriptor × ℕ)
  seek_blocks zero fd skipped = some (true, fd, skipped)
  seek_blocks (suc n) fd skipped = do
    r ← get_next_zone_wrapper dev fs fd
    seek_step r skipped (λ fd'. seek_blocks n fd' ((skipped + block_bytes) % 2 ^ 64))

  -- What `lseek` returns for an entry that is in use, and the entry.
  pub lseek : Descriptor → ℕ → ℕ → Option (ℕ × Descriptor)
  unfolding seek_blocks
  lseek fd offset whence =
      let known = leb whence seek_end in
      let to = seek_offset fd offset whence in
      let byte = if known then ending_byte to else 0 in
      let block = if known then ending_block to else 0 in
      seek_blocks block (if known then seek_start fd else fd) 0 >>= (λ r. some (seek_finish byte r))
