-- ===== src/Block/Ram.antt =====
-- A device that keeps its bytes in memory and serves every request: the device of the tests.
use cs.Base.{
  ℕ, ◌+◌, ◌-◌, ◌*◌, ◌/◌, ◌%◌, ◌^◌, ◌<◌, ◌≡◌, refl, sym, ap, Bool, true, some, if◌then◌else◌, ◌>>=◌,
}
use cs.Memory.{in_range}
use cs.Block.{Device, Buffer, block_read, read_range, block_read_wrapper}
use cs.Block.Length.{overruns-aligned}
use cs.Block.Bytes.{IsDevice, some_at}

abbrev pub ram : Device Buffer
ram = record {
  enabled = λ d. true;
  allocates = λ d len. true;
  byte = λ d a. d a;
  read = λ d sector len. some (λ i. d (sector * 512 + i));
  write = λ d sector len buf.
      (true, λ a. if in_range (sector * 512) len a then buf (a - sector * 512) else d a);
}

pub ram-IsDevice : IsDevice ram
ram-IsDevice = record {
  reads = λ d sector len buf h i low. sym (some_at (λ (j : ℕ). d (sector * 512 + j)) buf h i);
  writes = λ d d' sector len buf h a. sym (ap (λ (p : Bool × Buffer). p.1 a) h);
}

-- The bytes that a read of `size` bytes from `b` on gives.
abbrev pub bytes_at : Buffer → ℕ → Buffer
bytes_at d b i = d (b / 512 * 512 + (b % 512 + i))

pub ram_reads :
    (d : Buffer) (b size : ℕ)
    → size + 4096 < 2 ^ 32
    → b % 512 ≡ 0
    → block_read_wrapper ram d b size ≡ some (some (bytes_at d b))
unfolding block_read_wrapper read_range block_read ◌>>=◌
ram_reads d b size small at = rw (overruns-aligned ram d b size refl small at) refl
