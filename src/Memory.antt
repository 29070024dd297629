-- ===== src/Memory.antt =====
-- Byte-addressed memory, as the C code sees it through pointers: little-endian 64-bit words (the
-- target is riscv64) over a function from addresses to bytes. An address is a number, NULL is 0.
pub mod Words
use cs.Base.{ℕ, ◌+◌, ◌-◌, ◌*◌, ◌/◌, ◌%◌, ◌^◌, Bool, ◌&&◌, leb, ltb, ◌==◌, if◌then◌else◌}

abbrev pub Memory : Type 0
Memory = ℕ → ℕ

abbrev pub null : ℕ
null = 0

-- whether `x` lies in the `n` bytes from `a` on
abbrev pub in_range : ℕ → ℕ → ℕ → Bool
in_range a n x = leb a x && ltb x (a + n)

-- `*(uint8_t *)a = v`
unfoldable pub store8 : Memory → ℕ → ℕ → Memory
store8 m a v x = if x == a then v % 256 else m x

-- `*(uint64_t *)a`
unfoldable pub load64 : Memory → ℕ → ℕ
load64 m a =
    m a
    + m (a + 1) * 2 ^ 8
    + m (a + 2) * 2 ^ 16
    + m (a + 3) * 2 ^ 24
    + m (a + 4) * 2 ^ 32
    + m (a + 5) * 2 ^ 40
    + m (a + 6) * 2 ^ 48
    + m (a + 7) * 2 ^ 56

-- `*(uint64_t *)a = v`
unfoldable pub store64 : Memory → ℕ → ℕ → Memory
store64 m a v x = if in_range a 8 x then v / 256 ^ (x - a) % 256 else m x
