-- ===== src/Minix/Tests.antt =====
-- The theorems of the file system on a small file and on small bitmaps, on a disk in memory.
use cs.Base.{
  ℕ, ◌*◌, ◌/◌, ◌%◌, ◌^◌, ◌<◌, ◌≡◌, ◌≢◌, refl, arith, true, false, List, [], ◌∷◌, some, ◌==◌,
  if◌then◌else◌, ◌>>=◌,
}
use cs.Block.{Buffer, write_range, block_write_wrapper}
use cs.Block.Length.{overruns-aligned}
use cs.Block.Ram.{ram, bytes_at}
use cs.Minix.{Fs, bitmap_taken, bitmap_set, first_free, write_zmap, take_zone, find_next_datazone}
use cs.Minix.Allocate.{find_next_datazone_distinct}
use cs.Minix.Zone.{Descriptor, minus_one, words}

-- Zone 7 holds one pointer, to zone 8.
abbrev disk : Buffer
disk a = if a / 1024 == 7 then (if a == 7168 then 8 else 0) else a % 256

-- The inodes 1 and 2 are taken, and the zones 0 and 2.
abbrev imap : Buffer
imap x = 3

abbrev zmap : Buffer
zmap x = 5

abbrev fs : Fs Buffer
fs = record {
  disk = disk;
  imap_allocd = imap;
  zmap_allocd = zmap;
  num_inodes = 20;
  num_zones = 8;
  imap_blocks = 1;
  zmap_blocks = 1;
  imap_blocks_start = 2048;
  zmap_blocks_start = 3072;
  inodes_start = 4096;
  block_size = 1024;
  new_zone_pointer_add = 0;
}

abbrev fs1 : Fs Buffer
fs1 = record fs {
  disk = (write_range ram disk 3072 1024 (bitmap_set zmap 2)).1;
  zmap_allocd = bitmap_set zmap 2;
}

abbrev fs2 : Fs Buffer
fs2 = record fs1 {
  disk = (write_range ram fs1.disk 3072 1024 (bitmap_set (bitmap_set zmap 2) 4)).1;
  zmap_allocd = bitmap_set (bitmap_set zmap 2) 4;
}

first_zone : find_next_datazone ram fs ≡ some (1, fs1)
unfolding find_next_datazone take_zone write_zmap first_free bitmap_taken bitmap_set
    block_write_wrapper ◌>>=◌
first_zone = rw (overruns-aligned ram disk 3072 1024 refl (omega arith) (omega arith)) refl

second_zone : find_next_datazone ram fs1 ≡ some (3, fs2)
unfolding find_next_datazone take_zone write_zmap first_free bitmap_taken bitmap_set
    block_write_wrapper ◌>>=◌
second_zone = rw (overruns-aligned ram fs1.disk 3072 1024 refl (omega arith) (omega arith)) refl

zero_taken : bitmap_taken zmap 1 ≡ true
unfolding bitmap_taken
zero_taken = refl

find_next_datazone_distinct_example :
    (◌≢◌ {A = ℕ} 1 3) × (0 < 1) × (0 < 3) × (bitmap_taken zmap 4 ≡ false)
find_next_datazone_distinct_example =
    find_next_datazone_distinct ram fs fs1 fs2 1 3 (λ x. omega arith) (omega arith) zero_taken
      first_zone second_zone

-- A file with two direct zones and one behind zone 7.
abbrev file : Descriptor
file = record {
  zones = 5 ∷ 6 ∷ 0 ∷ 0 ∷ 0 ∷ 0 ∷ 0 ∷ 7 ∷ 0 ∷ 0 ∷ [];
  size = 2500;
  index0 = 0;
  index1 = minus_one;
  index2 = minus_one;
  index3 = minus_one;
  fp_block_offset = 5;
  fp_byte_offset = 0;
  file_pointer = 5120;
  total_read = 0;
}

abbrev pointers : ℕ → List ℕ
pointers z = words 256 (bytes_at disk (z * 1024 % 2 ^ 32)) 0

abbrev three : List ℕ
three = 5 ∷ 6 ∷ 8 ∷ []
