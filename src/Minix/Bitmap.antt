-- ===== src/Minix/Bitmap.antt =====
-- The bits of a bitmap: what setting and clearing one does to every one.
use cs.Base.{
  ℕ, ◌-◌, ◌/◌, ◌%◌, ◌^◌, ◌<◌, ◌≡◌, refl, arith, true, false, bit_and, bit_or, ◌==◌, ==_iff,
  if◌then◌else◌, every, every-apply,
}
use cs.Block.{Buffer}
use cs.Util.Mem.Copy.{IsBytes}
use cs.Minix.{bit_num, bitmap_taken, bitmap_set, bitmap_clear}

abbrev bit : ℕ → ℕ → ℕ
bit b k = if bit_and b (2 ^ k) == 0 then 0 else 1

set_table :
    every 256 (λ b.
      every 8
        (λ k. every 8 (λ j. bit (bit_or b (2 ^ k) % 256) j == (if k == j then 1 else bit b j))))
    ≡ true
unfolding every
set_table = refl

clear_table :
    every 256 (λ b. every 8 (λ k.
      every 8 (λ j. bit (bit_and b (0xff - 2 ^ k) % 256) j == (if k == j then 0 else bit b j))))
    ≡ true
unfolding every
clear_table = refl

bit-set :
    (b k j : ℕ)
    → b < 256
    → k < 8
    → j < 8
    → bit (bit_or b (2 ^ k) % 256) j ≡ (if k == j then 1 else bit b j)
bit-set b k j hb hk hj =
    (==_iff _ _).0 (every-apply _ j hj (every-apply _ k hk (every-apply _ b hb set_table)))

bit-clear :
    (b k j : ℕ)
    → b < 256
    → k < 8
    → j < 8
    → bit (bit_and b (0xff - 2 ^ k) % 256) j ≡ (if k == j then 0 else bit b j)
bit-clear b k j hb hk hj =
    (==_iff _ _).0 (every-apply _ j hj (every-apply _ k hk (every-apply _ b hb clear_table)))

-- Setting an element's bit takes that element and changes no other.
pub bitmap_taken-set :
    (bitmap : Buffer) (e x : ℕ)
    → IsBytes bitmap
    → 0 < e
    → e < 2 ^ 32
    → 0 < x
    → x < 2 ^ 32
    → bitmap_taken (bitmap_set bitmap e) x ≡ (if x == e then true else bitmap_taken bitmap x)
unfolding bitmap_taken bitmap_set
bitmap_taken-set bitmap e x b he he' hx hx' =
    ground
      (arith, b (bit_num e / 8), bit-set (bitmap (bit_num e / 8)) (bit_num e % 8) (bit_num x % 8))

pub bitmap_taken-clear :
    (bitmap : Buffer) (e x : ℕ)
    → IsBytes bitmap
    → 0 < e
    → e < 2 ^ 32
    → 0 < x
    → x < 2 ^ 32
    → bitmap_taken (bitmap_clear bitmap e) x ≡ (if x == e then false else bitmap_taken bitmap x)
unfolding bitmap_taken bitmap_clear
bitmap_taken-clear bitmap e x b he he' hx hx' =
    ground
      (arith, b (bit_num e / 8), bit-clear (bitmap (bit_num e / 8)) (bit_num e % 8) (bit_num x % 8))

pub bitmap_set-IsBytes : (bitmap : Buffer) (e : ℕ) → IsBytes bitmap → IsBytes (bitmap_set bitmap e)
unfolding bitmap_set
bitmap_set-IsBytes bitmap e b x = ground (arith, b x)
