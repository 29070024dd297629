-- ===== src/Util/Mem.antt =====
-- util/src/util.c: memset, memcpy, memmove and memcmp. Sizes are the non-negative `int`s; a `char`
-- is a byte (unsigned on riscv64). The loops count the rounds that are left.
pub mod Set
pub mod Copy
pub mod Outside
mod Tests
use cs.Base.{ℕ, zero, suc, ◌+◌, ◌-◌, ◌*◌, ◌/◌, ◌%◌, ◌^◌, Bool, ◌&&◌, ltb, ◌==◌, if◌then◌else◌}
use cs.Memory.{Memory, store8, load64, store64}

-- `while (n--) *ldst++ = w`
unfoldable pub set_words : ℕ → Memory → ℕ → ℕ → Memory
set_words zero m dst w = m
set_words (suc n) m dst w = set_words n (store64 m dst w) (dst + 8) w

unfoldable pub set_bytes : ℕ → Memory → ℕ → ℕ → Memory
set_bytes zero m dst c = m
set_bytes (suc n) m dst c = set_bytes n (store8 m dst c) (dst + 1) c

-- the word of eight copies of a byte, `*(long *)l`
abbrev pub splat : ℕ → ℕ
splat c = c * 0x0101_0101_0101_0101

unfoldable pub memset : Memory → ℕ → ℕ → ℕ → Memory
unfolding set_words set_bytes
memset m dst c size =
    set_bytes (size % 8) (set_words (size / 8) m dst (splat c)) (dst + size / 8 * 8) c

unfoldable pub copy_words : ℕ → Memory → ℕ → ℕ → Memory
copy_words zero m dst src = m
copy_words (suc n) m dst src = copy_words n (store64 m dst (load64 m src)) (dst + 8) (src + 8)

-- `*dst++ = *src++`
unfoldable pub copy_bytes : ℕ → Memory → ℕ → ℕ → Memory
copy_bytes zero m dst src = m
copy_bytes (suc n) m dst src = copy_bytes n (store8 m dst (m src)) (dst + 1) (src + 1)

unfoldable pub memcpy : Memory → ℕ → ℕ → ℕ → Memory
unfolding copy_words copy_bytes
memcpy m dst src size =
    copy_bytes (size % 8) (copy_words (size / 8) m dst src) (dst + size / 8 * 8)
      (src + size / 8 * 8)

-- `*--dst = *--src`: with `n` bytes left the pointers stand `n` bytes past their starts.
unfoldable pub copy_back : ℕ → Memory → ℕ → ℕ → Memory
copy_back zero m dst src = m
copy_back (suc n) m dst src = copy_back n (store8 m (dst + n) (m (src + n))) dst src

unfoldable pub memmove : Memory → ℕ → ℕ → ℕ → Memory
unfolding copy_back copy_bytes
memmove m dst src n =
    if n == 0
    then m
    else if ltb src dst && ltb dst (src + n)
    then copy_back n m dst src
    else copy_bytes n m dst src

-- The bytes that the last comparison subtracts: `hay[i]` and `need[i]` at the first difference
-- before the last index, or at that index. The count is of rounds left before it.
unfoldable pub differ_from : ℕ → Memory → ℕ → ℕ → ℕ × ℕ
differ_from zero m hay need = (m hay, m need)
differ_from (suc n) m hay need =
    let rest = differ_from n m (hay + 1) (need + 1) in
    if m hay == m need then rest else (m hay, m need)

-- The value returned is the first number less the second.
unfoldable pub memcmp : Memory → ℕ → ℕ → ℕ → ℕ × ℕ
unfolding differ_from
memcmp m hay need size = differ_from (size - 1) m hay need
