-- ===== src/Util/Mem/Set.antt =====
-- memset writes words and then bytes; the effect is that of writing every byte.
use cs.Base.{ℕ, zero, suc, ◌+◌, ◌-◌, ◌*◌, ◌/◌, ◌%◌, ◌^◌, ◌<◌, ◌≡◌, arith, if◌then◌else◌}
use cs.Memory.{Memory, store8, store64, in_range}
use cs.Util.Mem.{set_words, set_bytes, splat, memset}

splat_byte : (c k : ℕ) → c < 256 → k < 8 → splat c / 256 ^ k % 256 ≡ c
splat_byte c zero h p = omega arith
splat_byte c (suc zero) h p = omega arith
splat_byte c (suc (suc zero)) h p = omega arith
splat_byte c (suc (suc (suc zero))) h p = omega arith
splat_byte c (suc (suc (suc (suc zero)))) h p = omega arith
splat_byte c (suc (suc (suc (suc (suc zero))))) h p = omega arith
splat_byte c (suc (suc (suc (suc (suc (suc zero)))))) h p = omega arith
splat_byte c (suc (suc (suc (suc (suc (suc (suc zero))))))) h p = omega arith
splat_byte c (suc (suc (suc (suc (suc (suc (suc (suc k)))))))) h p = absurd (omega arith)

set_words_at :
    (n : ℕ) (m : Memory) (dst c x : ℕ)
    → c < 256
    → set_words n m dst (splat c) x ≡ (if in_range dst (n * 8) x then c else m x)
unfolding set_words store64
set_words_at zero m dst c x h = ground arith
set_words_at (suc n) m dst c x h =
    ground (arith, set_words_at n (store64 m dst (splat c)) (dst + 8) c x, splat_byte c (x - dst))

set_bytes_at :
    (n : ℕ) (m : Memory) (dst c x : ℕ)
    → c < 256
    → set_bytes n m dst c x ≡ (if in_range dst n x then c else m x)
unfolding set_bytes store8
set_bytes_at zero m dst c x h = ground arith
set_bytes_at (suc n) m dst c x h = ground (arith, set_bytes_at n (store8 m dst c) (dst + 1) c x)

-- After `memset(dst, c, size)` each byte of the `size` bytes from `dst` on is `c`, and every other
-- byte of memory is what it was.
pub memset_lem :
    (m : Memory) (dst c size x : ℕ)
    → c < 256
    → memset m dst c size x ≡ (if in_range dst size x then c else m x)
unfolding memset
memset_lem m dst c size x h = ground (
  arith,
  set_words_at (size / 8) m dst c x,
  set_bytes_at (size % 8) (set_words (size / 8) m dst (splat c)) (dst + size / 8 * 8) c x,
)
