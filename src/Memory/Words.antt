-- ===== src/Memory/Words.antt =====
-- Laws of the word accesses of a byte memory.
use cs.Base.{ℕ, ◌+◌, ◌-◌, ◌/◌, ◌%◌, ◌^◌, ◌≤◌, ◌<◌, ◌≡◌, ◌⊎◌, ap, arith}
use native.Mathlib.Nat.{add-zero}
use cs.Memory.{Memory, load64, store64}

store64_byte : (m : Memory) (a v k : ℕ) → k < 8 → store64 m a v (a + k) ≡ v / 256 ^ k % 256
unfolding store64
store64_byte m a v k h =
    let e : a + k - a ≡ k = omega arith in ground (arith, ap (λ (t : ℕ). v / 256 ^ t % 256) e)

pub store64_other : (m : Memory) (a v x : ℕ) → (x < a) ⊎ (a + 8 ≤ x) → store64 m a v x ≡ m x
unfolding store64
store64_other m a v x h = ground arith

pub load64-store64_same : (m : Memory) (a v : ℕ) → v < 2 ^ 64 → load64 (store64 m a v) a ≡ v
unfolding load64
load64-store64_same m a v h = ground (
  arith,
  store64_byte m a v 0 (omega arith),
  ap (store64 m a v) (add-zero a),
  store64_byte m a v 1 (omega arith),
  store64_byte m a v 2 (omega arith),
  store64_byte m a v 3 (omega arith),
  store64_byte m a v 4 (omega arith),
  store64_byte m a v 5 (omega arith),
  store64_byte m a v 6 (omega arith),
  store64_byte m a v 7 (omega arith),
)

pub load64-store64_other :
    (m : Memory) (a v b : ℕ) → (b + 8 ≤ a) ⊎ (a + 8 ≤ b) → load64 (store64 m a v) b ≡ load64 m b
unfolding load64
load64-store64_other m a v b h = omega (
  arith,
  store64_other m a v b (omega arith),
  store64_other m a v (b + 1) (omega arith),
  store64_other m a v (b + 2) (omega arith),
  store64_other m a v (b + 3) (omega arith),
  store64_other m a v (b + 4) (omega arith),
  store64_other m a v (b + 5) (omega arith),
  store64_other m a v (b + 6) (omega arith),
  store64_other m a v (b + 7) (omega arith),
)

-- A word depends on its eight bytes only.
pub load64-congr :
    (m m' : Memory) (a : ℕ) → ((x : ℕ) → a ≤ x → x < a + 8 → m x ≡ m' x) → load64 m a ≡ load64 m' a
unfolding load64
load64-congr m m' a same = omega (
  arith,
  same a (omega arith) (omega arith),
  same (a + 1) (omega arith) (omega arith),
  same (a + 2) (omega arith) (omega arith),
  same (a + 3) (omega arith) (omega arith),
  same (a + 4) (omega arith) (omega arith),
  same (a + 5) (omega arith) (omega arith),
  same (a + 6) (omega arith) (omega arith),
  same (a + 7) (omega arith) (omega arith),
)

pub load64-zero : (a : ℕ) → load64 (λ x. 0) a ≡ 0
unfolding load64
load64-zero a = omega arith
