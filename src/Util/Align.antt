-- ===== src/Util/Align.antt =====
-- util/include/util.h: rounding to a multiple of a power of two, on 64-bit words.
use cs.Base.{
  ℕ, zero, suc, ◌+◌, ◌-◌, ◌*◌, ◌/◌, ◌%◌, ◌^◌, ◌≤◌, ◌<◌, ◌≡◌, ap, sym, ◌∙◌, arith, bit_and,
}
use cs.Base.Bits.{bit_and_shifted, bit_and_mask}
use mathlib.Core.Path.{ap₂}
use native.Mathlib.Nat.{
  mod-lt, mul-mod_left, div-add-mod', pow-suc, one-le-pow, mod-eq_of_lt, zero-add,
}

-- `ALIGN_UP_POT(x, y)`; `-(y)` is taken on 64 bits.
unfoldable pub align_up : ℕ → ℕ → ℕ
align_up x y = bit_and ((x + y - 1) % 2 ^ 64) (2 ^ 64 - y)

-- `ALIGN_DOWN_POT(x, y)`
unfoldable pub align_down : ℕ → ℕ → ℕ
align_down x y = bit_and x (2 ^ 64 - y)

pow_pos : (k : ℕ) → 0 < 2 ^ k
pow_pos k = omega (arith, one-le-pow k 2)

pow-add : (a b : ℕ) → 2 ^ (a + b) ≡ 2 ^ a * 2 ^ b
pow-add zero b = rw zero-add (omega arith)
pow-add (suc a) b =
    let e : suc a + b ≡ suc (a + b) = omega arith in
    rw e (omega (arith, pow-suc 2 (a + b), ap (λ (t : ℕ). t * 2 ^ b) (pow-suc 2 a), pow-add a b))

pow_le : (k : ℕ) → k ≤ 32 → 2 ^ k ≤ 2 ^ 32
pow_le k h =
    let e : 2 ^ k * 2 ^ (32 - k) ≡ 2 ^ 32 =
      sym (pow-add k (32 - k)) ∙ ap (λ (t : ℕ). 2 ^ t) {y = 32} (omega arith) in
    grind (arith, e, one-le-pow (32 - k) 2)

sub_one_mul : (p d : ℕ) → 0 < p → p * d - d ≡ (p - 1) * d
sub_one_mul zero d h = elim h [ ]
sub_one_mul (suc p) d h = let e : suc p - 1 ≡ p = omega arith in rw e (omega arith)

-- A quotient times the divisor, as the rounding that it is.
module _ (x d : ℕ) (pos : 0 < d) where
  split : x / d * d + x % d ≡ x
  split = div-add-mod' x d

  floor_facts : (x / d * d % d ≡ 0) × (x / d * d ≤ x) × (x < x / d * d + d)
  floor_facts = (mul-mod_left (x / d) d, omega (arith, split), omega (arith, split, mod-lt x pos))

bit_and_high : (k x : ℕ) → k ≤ 64 → x < 2 ^ 64 → bit_and x (2 ^ 64 - 2 ^ k) ≡ x / 2 ^ k * 2 ^ k
bit_and_high k x hk hx =
    let e : 2 ^ (64 - k) * 2 ^ k ≡ 2 ^ 64 =
      sym (pow-add (64 - k) k) ∙ ap (λ (t : ℕ). 2 ^ t) {y = 64} (omega arith) in
    let mask : 2 ^ 64 - 2 ^ k ≡ (2 ^ (64 - k) - 1) * 2 ^ k =
      ap (λ (t : ℕ). t - 2 ^ k) (sym e) ∙ sub_one_mul (2 ^ (64 - k)) (2 ^ k) (pow_pos (64 - k)) in
    let small : x / 2 ^ k < 2 ^ (64 - k) = grind (arith, e, one-le-pow k 2) in
    ap₂ bit_and (sym (split x (2 ^ k) (pow_pos k))) mask
    ∙ bit_and_shifted k (x / 2 ^ k) (x % 2 ^ k) (2 ^ (64 - k) - 1) (mod-lt x (pow_pos k))
    ∙ ap (λ (t : ℕ). t * 2 ^ k) (bit_and_mask (64 - k) (x / 2 ^ k) ∙ mod-eq_of_lt small)

-- For an alignment `2 ^ k` of at most 32 bits, `ALIGN_DOWN_POT` gives the greatest multiple of it
-- that is at most `x`.
pub align_down_lem :
    (k x : ℕ)
    → k ≤ 32
    → x < 2 ^ 64
    → (align_down x (2 ^ k) % 2 ^ k ≡ 0)
      × (align_down x (2 ^ k) ≤ x)
      × (x < align_down x (2 ^ k) + 2 ^ k)
unfolding align_down
align_down_lem k x hk hx =
    rw (bit_and_high k x (omega arith) hx) (floor_facts x (2 ^ k) (pow_pos k))

-- For an alignment `2 ^ k` of at most 32 bits and an `x` that does not wrap, `ALIGN_UP_POT` gives
-- the least multiple of it that is at least `x`.
pub align_up_lem :
    (k x : ℕ)
    → k ≤ 32
    → x + 2 ^ 32 < 2 ^ 64
    → (align_up x (2 ^ k) % 2 ^ k ≡ 0) × (x ≤ align_up x (2 ^ k)) × (align_up x (2 ^ k) < x + 2 ^ k)
unfolding align_up
align_up_lem k x hk hx =
    let whole : (x + 2 ^ k - 1) % 2 ^ 64 ≡ x + 2 ^ k - 1 =
      mod-eq_of_lt (omega (arith, pow_le k hk, one-le-pow k 2)) in
    let f = floor_facts (x + 2 ^ k - 1) (2 ^ k) (pow_pos k) in
    rw
      (
        whole,
        bit_and_high k (x + 2 ^ k - 1) (omega arith) (omega (arith, pow_le k hk, one-le-pow k 2)),
      )
      (f.0, omega (arith, f.2, one-le-pow k 2), omega (arith, f.1, one-le-pow k 2))

-- The two at page granularity.
pub align_up_page : (x : ℕ) → x + 4096 < 2 ^ 64 → align_up x 4096 ≡ (x + 4095) / 4096 * 4096
unfolding align_up
align_up_page x h =
    bit_and_high 12 ((x + 4096 - 1) % 2 ^ 64) (omega arith) (omega arith) ∙ omega arith

pub align_up_eight : (x : ℕ) → x < 2 ^ 64 → align_up x 8 ≡ (x + 7) % 2 ^ 64 / 8 * 8
unfolding align_up
align_up_eight x h = bit_and_high 3 ((x + 8 - 1) % 2 ^ 64) (omega arith) (omega arith) ∙ omega arith

pub align_down_page : (x : ℕ) → x < 2 ^ 64 → align_down x 4096 ≡ x / 4096 * 4096
unfolding align_down
align_down_page x h = bit_and_high 12 x (omega arith) h

pub align_up_sector : (x : ℕ) → x + 511 < 2 ^ 64 → align_up x 512 ≡ (x + 511) / 512 * 512
unfolding align_up
align_up_sector x h =
    bit_and_high 9 ((x + 512 - 1) % 2 ^ 64) (omega arith) (omega arith) ∙ omega arith
