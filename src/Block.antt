-- ===== src/Block.antt =====
-- src/block.c: reads and writes of byte ranges of a disk, by requests for whole sectors. The device
-- behind the virtio queue is a parameter, `Device`: whether its driver is enabled, what its bytes are,
-- and how it serves a request, with `none` or false where the status is not VIRTIO_BLK_S_OK; and with it
-- whether the heap has a `temp_buffer` of a length. A buffer is a function from its offsets. A wrapper has
-- no result, an outer `none`, where the device would transfer more than `temp_buffer` holds.
pub mod Length
pub mod Bytes
pub mod Ram
mod Tests
use cs.Base.{
  ℕ, ◌+◌, ◌-◌, ◌/◌, ◌%◌, ◌^◌, Bool, true, false, ◌&&◌, not, leb, Option, none, some, if◌then◌else◌,
  ◌>>=◌,
}
use cs.Memory.{in_range}
use cs.Util.Align.{align_up}

abbrev pub Buffer : Type 0
Buffer = ℕ → ℕ

pub record Device (Disk : Type 0) : Type 0 where
  pub enabled : Disk → Bool
  pub byte : Disk → ℕ → ℕ
  -- whether `kzalloc` of a length returns a buffer
  pub allocates : Disk → ℕ → Bool
  -- sector, length in bytes
  pub read : Disk → ℕ → ℕ → Option Buffer
  pub write : Disk → ℕ → ℕ → Buffer → Bool × Disk

abbrev pub sector_size : ℕ
sector_size = 512

-- `ALIGN_UP_POT((byte_num % SECTOR_SIZE) + size, SECTOR_SIZE)` on 32 bits
pub sectors_len : ℕ → ℕ → ℕ
sectors_len byte_num size = align_up ((byte_num % sector_size + size) % 2 ^ 32) sector_size % 2 ^ 32

-- the size of `temp_buffer`
pub buffer_len : ℕ → ℕ
buffer_len size = align_up size sector_size

-- what is copied over the buffer from `offset` on
abbrev pub overlay : Buffer → ℕ → ℕ → Buffer → Buffer
overlay buf offset size bytes i = if in_range offset size i then bytes (i - offset) else buf i

-- the length of the transfer that a wrapper asks for
pub transfer_len : ℕ → ℕ → ℕ
transfer_len byte_num size = sectors_len byte_num (sectors_len byte_num size)

module _ {Disk : Type 0} (dev : Device Disk) where
  -- The request: the sector and the length of its bytes.
  unfoldable pub block_read : Disk → ℕ → ℕ → Option Buffer
  block_read d byte_num size =
      if dev.enabled d
      then dev.read d (byte_num / sector_size) (sectors_len byte_num size)
      else none

  pub block_write : Disk → ℕ → ℕ → Buffer → Bool × Disk
  block_write d byte_num size bytes =
      if dev.enabled d
      then dev.write d (byte_num / sector_size) (sectors_len byte_num size) bytes
      else (false, d)

  -- A transfer to a buffer that is not there or that is too short for it.
  unfoldable pub overruns : Disk → ℕ → ℕ → Bool
  overruns d byte_num size =
      dev.enabled d
      && not
          (dev.allocates d (buffer_len size) && leb (transfer_len byte_num size) (buffer_len size))

  -- `block_read_wrapper` with its buffer. The first `size` bytes are those that are copied to `buf_addr`.
  unfoldable pub read_range : Disk → ℕ → ℕ → Option Buffer
  read_range d byte_num size = do
    temp_buffer ← block_read d byte_num (sectors_len byte_num size)
    some (λ i. temp_buffer (byte_num % sector_size + i))

  unfoldable pub block_read_wrapper : Disk → ℕ → ℕ → Option (Option Buffer)
  block_read_wrapper d byte_num size =
      if overruns d byte_num size then none else some (read_range d byte_num size)

  -- `block_write_wrapper` after its read
  pub write_back : Disk → ℕ → ℕ → Buffer → Option Buffer → Bool × Disk
  write_back d byte_num size bytes none = (false, d)
  write_back d byte_num size bytes (some temp_buffer) =
      block_write d byte_num (sectors_len byte_num size)
        (overlay temp_buffer (byte_num % sector_size) size bytes)

  -- `block_write_wrapper` with its buffer
  pub write_range : Disk → ℕ → ℕ → Buffer → Bool × Disk
  write_range d byte_num size bytes =
      write_back d byte_num size bytes (block_read d byte_num (sectors_len byte_num size))

  unfoldable pub block_write_wrapper : Disk → ℕ → ℕ → Buffer → Option (Bool × Disk)
  block_write_wrapper d byte_num size bytes =
      if overruns d byte_num size then none else some (write_range d byte_num size bytes)
