-- ===== src/Block/Length.antt =====
-- The length of the buffers and of the transfers.
use cs.Base.{ℕ, ◌+◌, ◌*◌, ◌/◌, ◌%◌, ◌^◌, ◌≤◌, ◌<◌, ◌≡◌, arith, true, false, leb}
use cs.Util.Align.{align_up_sector}
use cs.Block.{Device, sectors_len, buffer_len, transfer_len, overruns}

pub sectors_len_lem :
    (byte_num size : ℕ)
    → size + 1024 < 2 ^ 32
    → sectors_len byte_num size ≡ (byte_num % 512 + size + 511) / 512 * 512
unfolding sectors_len
sectors_len_lem byte_num size h =
    let small : (byte_num % 512 + size) % 2 ^ 32 ≡ byte_num % 512 + size = omega arith in
    rw small (rw (align_up_sector (byte_num % 512 + size) (omega arith)) (omega arith))

-- A transfer of the wrappers has the length of its buffer where the first byte begins a sector.
pub buffer_fits :
    (byte_num size : ℕ)
    → size + 4096 < 2 ^ 32
    → byte_num % 512 ≡ 0
    → sectors_len byte_num (sectors_len byte_num size) ≡ buffer_len size
unfolding buffer_len
buffer_fits byte_num size h at =
    let inner = sectors_len_lem byte_num size (omega arith) in
    let outer = sectors_len_lem byte_num (sectors_len byte_num size) (omega (arith, inner)) in
    let whole = align_up_sector size (omega arith) in omega (arith, inner, outer, whole)

-- The requests of the wrappers round up twice: where the first byte does not begin a sector, a transfer of a
-- positive size below 2^32 - 4096 is longer than its buffer by a sector at least.
pub buffer_overrun :
    (byte_num size : ℕ)
    → 0 < size
    → size + 4096 < 2 ^ 32
    → 0 < byte_num % 512
    → buffer_len size + 512 ≤ sectors_len byte_num (sectors_len byte_num size)
unfolding buffer_len
buffer_overrun byte_num size pos h off =
    let inner = sectors_len_lem byte_num size (omega arith) in
    let outer = sectors_len_lem byte_num (sectors_len byte_num size) (omega (arith, inner)) in
    let whole = align_up_sector size (omega arith) in omega (arith, inner, outer, whole)

-- A transfer whose first byte begins a sector has room in its buffer.
pub overruns-aligned :
    {Disk : Type 0} (dev : Device Disk) (d : Disk) (byte_num size : ℕ)
    → dev.allocates d (buffer_len size) ≡ true
    → size + 4096 < 2 ^ 32
    → byte_num % 512 ≡ 0
    → overruns dev d byte_num size ≡ false
unfolding overruns transfer_len
overruns-aligned dev d byte_num size room h at =
    let fits : leb (sectors_len byte_num (sectors_len byte_num size)) (buffer_len size) ≡ true =
      ground (arith, buffer_fits byte_num size h at) in
    rw (room, fits) (ground arith)
