-- ===== src/Util/Mem/Outside.antt =====
-- memcpy writes its destination only, however the ranges lie.
use cs.Base.{ℕ, zero, suc, ◌+◌, ◌*◌, ◌/◌, ◌%◌, ◌≡◌, false, refl, ◌∙◌, arith}
use cs.Memory.{Memory, store8, load64, store64, in_range}
use cs.Util.Mem.{copy_words, copy_bytes, memcpy}

copy_bytes_outside :
    (n : ℕ) (m : Memory) (dst src x : ℕ) → in_range dst n x ≡ false → copy_bytes n m dst src x ≡ m x
unfolding copy_bytes store8
copy_bytes_outside zero m dst src x h = refl
copy_bytes_outside (suc n) m dst src x h =
    ground (arith, copy_bytes_outside n (store8 m dst (m src)) (dst + 1) (src + 1) x)

copy_words_outside :
    (n : ℕ) (m : Memory) (dst src x : ℕ)
    → in_range dst (n * 8) x ≡ false
    → copy_words n m dst src x ≡ m x
unfolding copy_words store64
copy_words_outside zero m dst src x h = refl
copy_words_outside (suc n) m dst src x h =
    ground (arith, copy_words_outside n (store64 m dst (load64 m src)) (dst + 8) (src + 8) x)

pub memcpy_outside :
    (m : Memory) (dst src size x : ℕ) → in_range dst size x ≡ false → memcpy m dst src size x ≡ m x
unfolding memcpy
memcpy_outside m dst src size x h =
    copy_bytes_outside (size % 8) (copy_words (size / 8) m dst src) (dst + size / 8 * 8)
      (src + size / 8 * 8) x (ground arith)
    ∙ copy_words_outside (size / 8) m dst src x (ground arith)
