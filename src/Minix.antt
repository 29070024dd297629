-- ===== src/Minix.antt =====
-- src/minix3.c: the Minix 3 file system on a block device. `Fs` is the global `fs` with the disk behind it;
-- a bitmap is the buffer that `imap_allocd` or `zmap_allocd` points to. `none` is a loop that does not end
-- (the code stops in `while(1)` at many failures), a transfer that overruns its buffer, or the end of the fuel
-- of a loop.
pub mod Bitmap
pub mod Allocate
pub mod Zone
pub mod Files
mod Tests
use cs.Base.{
  ℕ, zero, suc, ◌+◌, ◌-◌, ◌*◌, ◌/◌, ◌%◌, ◌^◌, Bool, true, false, not, Option, none, some, bit_and,
  bit_or, ◌==◌, if◌then◌else◌, ◌>>=◌,
}
use cs.Block.{Device, Buffer, block_write_wrapper}

pub record Fs (Disk : Type 0) : Type 0 where
  pub disk : Disk
  pub imap_allocd : Buffer
  pub zmap_allocd : Buffer
  pub num_inodes : ℕ
  pub num_zones : ℕ
  pub imap_blocks : ℕ
  pub zmap_blocks : ℕ
  pub imap_blocks_start : ℕ
  pub zmap_blocks_start : ℕ
  pub inodes_start : ℕ
  pub block_size : ℕ
  pub new_zone_pointer_add : ℕ

-- `elem_num - 1` on 32 bits
abbrev pub bit_num : ℕ → ℕ
bit_num elem_num = (elem_num + 2 ^ 32 - 1) % 2 ^ 32

pub bitmap_taken : Buffer → ℕ → Bool
bitmap_taken bitmap elem_num =
    let n = bit_num elem_num in not (bit_and (bitmap (n / 8)) (2 ^ (n % 8)) == 0)

pub bitmap_set : Buffer → ℕ → Buffer
bitmap_set bitmap elem_num x =
    let n = bit_num elem_num in
    if x == n / 8 then bit_or (bitmap x) (2 ^ (n % 8)) % 256 else bitmap x

pub bitmap_clear : Buffer → ℕ → Buffer
bitmap_clear bitmap elem_num x =
    let n = bit_num elem_num in
    if x == n / 8 then bit_and (bitmap x) (0xff - 2 ^ (n % 8)) % 256 else bitmap x

-- The first element from `i` on, of `k`, that is not taken.
unfoldable pub first_free : ℕ → Buffer → ℕ → Option ℕ
first_free zero bitmap i = none
first_free (suc k) bitmap i =
    let later = first_free k bitmap (i + 1) in if bitmap_taken bitmap i then later else some i

module _ {Disk : Type 0} (dev : Device Disk) where
  -- The byte numbers and sizes are converted to `uint32_t`. Whether the write succeeds is not looked at.
  pub write_imap : Fs Disk → Option (Fs Disk)
  write_imap fs = do
    w ←
        block_write_wrapper dev fs.disk (fs.imap_blocks_start % 2 ^ 32)
          (fs.block_size * fs.imap_blocks % 2 ^ 32) fs.imap_allocd
    some (record fs { disk = w.1 })

  unfoldable pub write_zmap : Fs Disk → Option (Fs Disk)
  write_zmap fs = do
    w ←
        block_write_wrapper dev fs.disk (fs.zmap_blocks_start % 2 ^ 32)
          (fs.block_size * fs.zmap_blocks % 2 ^ 32) fs.zmap_allocd
    some (record fs { disk = w.1 })

  pub take_inode : Fs Disk → Option ℕ → Option (ℕ × Fs Disk)
  take_inode fs none = some (0, fs)
  take_inode fs (some i) = do
    fs' ← write_imap (record fs { imap_allocd = bitmap_set fs.imap_allocd i })
    some (i, fs')

  pub find_next_inode : Fs Disk → Option (ℕ × Fs Disk)
  unfolding first_free
  find_next_inode fs = take_inode fs (first_free (fs.num_inodes - 1) fs.imap_allocd 1)

  -- Zone `i` is element `i + 1`. Where no zone is free, and where zone 0 is, the code does not return.
  pub take_zone : Fs Disk → Option ℕ → Option (ℕ × Fs Disk)
  take_zone fs none = none
  take_zone fs (some e) = do
    fs' ← write_zmap (record fs { zmap_allocd = bitmap_set fs.zmap_allocd e })
    if e - 1 == 0 then none else some (e - 1, fs')

  pub find_next_datazone : Fs Disk → Option (ℕ × Fs Disk)
  unfolding first_free
  find_next_datazone fs = take_zone fs (first_free fs.num_zones fs.zmap_allocd 1)
