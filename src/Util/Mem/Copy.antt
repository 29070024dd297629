-- ===== src/Util/Mem/Copy.antt =====
-- memcpy, memmove and memcmp against a byte-by-byte description.
use cs.Base.{
  ℕ, zero, suc, ◌+◌, ◌-◌, ◌*◌, ◌/◌, ◌%◌, ◌^◌, ◌≤◌, ◌<◌, ◌≡◌, ◌⊎◌, ◌↔◌, arith, if◌then◌else◌,
}
use native.Mathlib.Nat.{add-zero}
use cs.Memory.{Memory, store8, load64, store64, in_range}
use cs.Util.Mem.{copy_words, copy_bytes, copy_back, memcpy, memmove, differ_from, memcmp}

-- Every cell holds a byte.
abbrev pub IsBytes : Memory → Type 0
IsBytes m = (x : ℕ) → m x < 256

-- The memory after `n` bytes from `src` are put at `dst`.
abbrev pub moved : Memory → (dst src n : ℕ) → Memory
moved m dst src n x = if in_range dst n x then m (src + (x - dst)) else m x

pub store8-IsBytes : (m : Memory) (a v : ℕ) → IsBytes m → IsBytes (store8 m a v)
unfolding store8
store8-IsBytes m a v b x = ground (arith, b x)

pub store64-IsBytes : (m : Memory) (a v : ℕ) → IsBytes m → IsBytes (store64 m a v)
unfolding store64
store64-IsBytes m a v b x = ground (arith, b x)

load64_byte : (m : Memory) (a k : ℕ) → IsBytes m → k < 8 → load64 m a / 256 ^ k % 256 ≡ m (a + k)
unfolding load64
load64_byte m a zero b h = rw add-zero (
    omega (arith, b a, b (a + 1), b (a + 2), b (a + 3), b (a + 4), b (a + 5), b (a + 6), b (a + 7)))
load64_byte m a (suc zero) b h =
    omega (arith, b a, b (a + 1), b (a + 2), b (a + 3), b (a + 4), b (a + 5), b (a + 6), b (a + 7))
load64_byte m a (suc (suc zero)) b h =
    omega (arith, b a, b (a + 1), b (a + 2), b (a + 3), b (a + 4), b (a + 5), b (a + 6), b (a + 7))
load64_byte m a (suc (suc (suc zero))) b h =
    omega (arith, b a, b (a + 1), b (a + 2), b (a + 3), b (a + 4), b (a + 5), b (a + 6), b (a + 7))
load64_byte m a (suc (suc (suc (suc zero)))) b h =
    omega (arith, b a, b (a + 1), b (a + 2), b (a + 3), b (a + 4), b (a + 5), b (a + 6), b (a + 7))
load64_byte m a (suc (suc (suc (suc (suc zero))))) b h =
    omega (arith, b a, b (a + 1), b (a + 2), b (a + 3), b (a + 4), b (a + 5), b (a + 6), b (a + 7))
load64_byte m a (suc (suc (suc (suc (suc (suc zero)))))) b h =
    omega (arith, b a, b (a + 1), b (a + 2), b (a + 3), b (a + 4), b (a + 5), b (a + 6), b (a + 7))
load64_byte m a (suc (suc (suc (suc (suc (suc (suc zero))))))) b h =
    omega (arith, b a, b (a + 1), b (a + 2), b (a + 3), b (a + 4), b (a + 5), b (a + 6), b (a + 7))
load64_byte m a (suc (suc (suc (suc (suc (suc (suc (suc k)))))))) b h = absurd (omega arith)

add-shift : (a k : ℕ) → a + 1 + k ≡ a + suc k
add-shift a k = omega arith

copy_bytes_at :
    (n : ℕ) (m : Memory) (dst src x : ℕ)
    → IsBytes m
    → (dst ≤ src) ⊎ (src + n ≤ dst)
    → copy_bytes n m dst src x ≡ moved m dst src n x
unfolding copy_bytes store8
copy_bytes_at zero m dst src x b h = ground arith
copy_bytes_at (suc n) m dst src x b h = ground (
  arith,
  copy_bytes_at n (store8 m dst (m src)) (dst + 1) (src + 1) x,
  b src,
  store8-IsBytes m dst (m src) b,
)

copy_back_at :
    (n : ℕ) (m : Memory) (dst src x : ℕ)
    → IsBytes m
    → src ≤ dst
    → copy_back n m dst src x ≡ moved m dst src n x
unfolding copy_back store8
copy_back_at zero m dst src x b h = ground arith
copy_back_at (suc n) m dst src x b h = ground (
  arith,
  copy_back_at n (store8 m (dst + n) (m (src + n))) dst src x,
  b (src + n),
  store8-IsBytes m (dst + n) (m (src + n)) b,
)

copy_words_at :
    (n : ℕ) (m : Memory) (dst src x : ℕ)
    → IsBytes m
    → (dst ≤ src) ⊎ (src + n * 8 ≤ dst)
    → copy_words n m dst src x ≡ moved m dst src (n * 8) x
unfolding copy_words store64
copy_words_at zero m dst src x b h = ground arith
copy_words_at (suc n) m dst src x b h = ground (
  arith,
  copy_words_at n (store64 m dst (load64 m src)) (dst + 8) (src + 8) x,
  load64_byte m src (x - dst) b,
  store64-IsBytes m dst (load64 m src) b,
)

copy_words-IsBytes :
    (n : ℕ) (m : Memory) (dst src : ℕ) → IsBytes m → IsBytes (copy_words n m dst src)
unfolding copy_words
copy_words-IsBytes zero m dst src b = b
copy_words-IsBytes (suc n) m dst src b =
    copy_words-IsBytes n (store64 m dst (load64 m src)) (dst + 8) (src + 8)
      (store64-IsBytes m dst (load64 m src) b)

-- Over a memory of bytes, and unless the destination begins inside the source behind its first
-- byte, `memcpy(dst, src, size)` leaves the `size` source bytes at the destination and every other
-- byte as it was.
pub memcpy_lem :
    (m : Memory) (dst src size x : ℕ)
    → IsBytes m
    → (dst ≤ src) ⊎ (src + size ≤ dst)
    → memcpy m dst src size x ≡ (if in_range dst size x then m (src + (x - dst)) else m x)
unfolding memcpy
memcpy_lem m dst src size x b h =
    let q = size / 8 * 8 in
    let m' = copy_words (size / 8) m dst src in
    ground (
      arith,
      copy_words_at (size / 8) m dst src x b,
      copy_words_at (size / 8) m dst src (src + q + (x - (dst + q))) b,
      copy_bytes_at (size % 8) m' (dst + q) (src + q) x (copy_words-IsBytes (size / 8) m dst src b),
    )

-- Over a memory of bytes `memmove(dst, src, n)` leaves the `n` source bytes, as they were before
-- the call, at the destination and every other byte as it was, however the two ranges overlap.
pub memmove_lem :
    (m : Memory) (dst src n x : ℕ)
    → IsBytes m
    → memmove m dst src n x ≡ (if in_range dst n x then m (src + (x - dst)) else m x)
unfolding memmove
memmove_lem m dst src n x b =
    ground (arith, copy_bytes_at n m dst src x b, copy_back_at n m dst src x b)

agree_of_eq :
    (n : ℕ) (m : Memory) (hay need k : ℕ)
    → (differ_from n m hay need).0 ≡ (differ_from n m hay need).1
    → k < suc n
    → m (hay + k) ≡ m (need + k)
unfolding differ_from
agree_of_eq n m hay need zero e h = rw (add-zero, add-zero) (first n e)
  where
    first : (n : ℕ) → (differ_from n m hay need).0 ≡ (differ_from n m hay need).1 → m hay ≡ m need
    first zero e = e
    first (suc n) e = ground arith
agree_of_eq zero m hay need (suc k) e h = absurd (omega arith)
agree_of_eq (suc n) m hay need (suc k) e h =
    rw (← add-shift hay k, ← add-shift need k)
      (agree_of_eq n m (hay + 1) (need + 1) k (ground arith) (omega arith))

eq_of_agree :
    (n : ℕ) (m : Memory) (hay need : ℕ)
    → ((k : ℕ) → k < suc n → m (hay + k) ≡ m (need + k))
    → (differ_from n m hay need).0 ≡ (differ_from n m hay need).1
unfolding differ_from
eq_of_agree zero m hay need same = rw (add-zero, add-zero) at (same 0 (omega arith))
eq_of_agree (suc n) m hay need same =
    let e : m hay ≡ m need = rw (add-zero, add-zero) at (same 0 (omega arith)) in
    ground (
      arith,
      eq_of_agree n m (hay + 1) (need + 1)
          (λ k h. rw (add-shift hay k, add-shift need k) (same (suc k) (omega arith))),
    )

-- For a positive size the value that `memcmp` returns is zero exactly when all `size` bytes agree.
pub memcmp_iff :
    (m : Memory) (hay need size : ℕ)
    → 0 < size
    → ((memcmp m hay need size).0 ≡ (memcmp m hay need size).1)
      ↔ ((k : ℕ) → k < size → m (hay + k) ≡ m (need + k))
unfolding memcmp
memcmp_iff m hay need zero h = elim h [ ]
memcmp_iff m hay need (suc n) h =
    let e : suc n - 1 ≡ n = omega arith in
    rw e ((λ z k. agree_of_eq n m hay need k z), eq_of_agree n m hay need)
