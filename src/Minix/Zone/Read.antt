-- ===== src/Minix/Zone/Read.antt =====
-- read. `stack` is what `read_buf` holds before the first read; `none` is a failure where the code stops, or the
-- end of the fuel.
pub mod Content
pub mod Filled
pub mod Range
pub mod Offset
use cs.Base.{
  ℕ, zero, suc, ◌+◌, ◌-◌, ◌*◌, ◌/◌, ◌%◌, ◌^◌, Bool, true, false, Option, none, some, ltb, ◌==◌,
  if◌then◌else◌, ◌>>=◌,
}
use cs.Block.{Device, Buffer, overlay, block_read_wrapper}
use cs.Minix.{Fs}
use cs.Minix.Zone.{Descriptor, get_next_zone_wrapper}
use cs.Minix.Zone.Seek.{block_bytes, Reread, zone, failed, overrun, reread}

pub record Reading : Type 0 where
  pub entry : Descriptor
  pub buf : Buffer
  pub read_buf : Buffer
  pub read_bytes : ℕ

-- The count, cut to what is left of the file, on 64 bits.
pub cut_count : Descriptor → ℕ → ℕ
cut_count fd count =
    if ltb fd.size ((count + fd.total_read) % 2 ^ 64)
    then (fd.size + 2 ^ 64 - fd.total_read) % 2 ^ 64
    else count

pub max_read : Descriptor → ℕ
max_read fd = (2 ^ 64 + block_bytes - fd.fp_byte_offset) % 2 ^ 32

pub curr_read : ℕ → Reading → ℕ
curr_read count s =
    (if ltb (max_read s.entry) (count - s.read_bytes)
      then max_read s.entry
      else count - s.read_bytes)
    % 2 ^ 32

pub copy_out : Reading → ℕ → Buffer → Reading
copy_out s curr read_buf = record s {
  buf = overlay s.buf s.read_bytes curr read_buf;
  read_buf = read_buf;
  read_bytes = (s.read_bytes + curr) % 2 ^ 64;
}

pub go_to : Descriptor → Reread → Option Descriptor
go_to fd (failed code) = none
go_to fd overrun = none
go_to fd (zone z) =
    some (record fd {
      fp_block_offset = z;
      file_pointer = z * block_bytes % 2 ^ 64;
      fp_byte_offset = 0;
    })

pub move_on : Descriptor → ℕ → Descriptor
move_on fd curr = record fd {
  file_pointer = (fd.file_pointer + curr) % 2 ^ 64;
  fp_byte_offset = (fd.fp_byte_offset + curr) % 2 ^ 64;
}

abbrev pub read_start : Buffer → Descriptor → Buffer → Reading
read_start stack fd buf = record { entry = fd; buf = buf; read_buf = stack; read_bytes = 0 }

pub read_finish : Bool × Reading → ℕ × Buffer × Descriptor
read_finish (false, s) = (s.read_bytes, s.buf, s.entry)
read_finish (true, s) = (
  s.read_bytes,
  s.buf,
  record s.entry { total_read = (s.entry.total_read + s.read_bytes) % 2 ^ 64 },
)

module _ {Disk : Type 0} (dev : Device Disk) (fs : Fs Disk) where
  pub block_found : Bool × Descriptor → Option Descriptor
  block_found (false, fd) = none
  block_found (true, fd) = go_to fd (reread dev fs fd)

  -- The entry after a part of `curr` bytes: in the next zone where it has come to the end of one.
  pub next_place : Descriptor → ℕ → Option Descriptor
  next_place fd curr =
      if curr == max_read fd
      then get_next_zone_wrapper dev fs fd >>= block_found
      else some (move_on fd curr)

  -- A part after its read. Where that fails, what `read_buf` holds is copied all the same; where it overruns its
  -- buffer, there is no result.
  pub read_part :
      ℕ
      → Reading
      → Option (Option Buffer)
      → (Reading → Option (Bool × Reading))
      → Option (Bool × Reading)
  read_part count s none next = none
  read_part count s (some none) next =
      some (false, record s { buf = overlay s.buf s.read_bytes (curr_read count s) s.read_buf })
  read_part count s (some (some bytes)) next =
      let curr = curr_read count s in
      next_place s.entry curr
      >>= (λ fd. next (record (copy_out s curr (overlay s.read_buf 0 curr bytes)) { entry = fd }))

  pub read_round : ℕ → Reading → (Reading → Option (Bool × Reading)) → Option (Bool × Reading)
  read_round count s next =
      if ltb s.read_bytes count
      then read_part count s
          (block_read_wrapper dev fs.disk (s.entry.file_pointer % 2 ^ 32) (curr_read count s)) next
      else some (true, s)

  unfoldable pub read_loop : ℕ → ℕ → Reading → Option (Bool × Reading)
  read_loop zero count s = none
  read_loop (suc k) count s = read_round count s (λ s'. read_loop k count s')

  -- What is returned, the buffer and the entry.
  pub read : Buffer → Descriptor → Buffer → ℕ → Option (ℕ × Buffer × Descriptor)
  unfolding read_loop
  read stack fd buf count =
      let n = cut_count fd count in
      read_loop (n + 1) n (read_start stack fd buf) >>= (λ r. some (read_finish r))
