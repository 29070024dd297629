-- ===== src/Block/Tests.antt =====
-- Transfers on a disk in memory.
use cs.Base.{◌+◌, ◌%◌, ◌≤◌, ◌≡◌, refl, arith, true, some, ◌>>=◌}
use cs.Block.{
  Buffer, buffer_len, sectors_len, block_read, block_write, write_range, block_write_wrapper,
  write_back,
}
use cs.Block.Length.{buffer_overrun, overruns-aligned}
use cs.Block.Bytes.{block_write_wrapper-byte}
use cs.Block.Ram.{ram, ram-IsDevice}

abbrev disk : Buffer
disk a = a % 256

abbrev data_out : Buffer
data_out i = 7

abbrev disk_after : Buffer
disk_after a = (write_range ram disk 1024 100 data_out).1 a

written : block_write_wrapper ram disk 1024 100 data_out ≡ some (true, disk_after)
unfolding block_write_wrapper write_range write_back block_read block_write ◌>>=◌
written = rw (overruns-aligned ram disk 1024 100 refl (omega arith) refl) refl

buffer_overrun_example : buffer_len 100 + 512 ≤ sectors_len 600 (sectors_len 600 100)
buffer_overrun_example = buffer_overrun 600 100 (omega arith) (omega arith) (omega arith)

block_write_wrapper-byte_example : disk_after 1074 ≡ 7
block_write_wrapper-byte_example =
    block_write_wrapper-byte ram ram-IsDevice disk disk_after 1024 100 data_out (omega arith)
      written 1074
