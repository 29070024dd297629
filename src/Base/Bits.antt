-- ===== src/Base/Bits.antt =====
-- `bit_or` and `bit_and` at variables: the step on the lowest digit, and the laws that the source
-- relies on when it packs fields of disjoint bits into one word and takes them out by masks.
use Prim.Native.Nat.{
  ℕ, zero, suc, ◌+◌, ◌-◌, ◌*◌, ◌/◌, ◌%◌, ◌^◌, ◌≤◌, ◌<◌, min, max, bit_and, bit_or, digits, bitwise,
  bit_and-bitwise, bit_or-bitwise,
}
use mathlib.Core.Path.{◌≡◌, refl, ap, ◌∙◌}
use native.Mathlib.Nat.{zero-add, pow-suc, one-le-pow}
use native.Mathlib.Omega.{arith}

-- The native operations stand for `digits`, which counts down from its first operand; a greater
-- count gives the same result.
module _ (end : ℕ → ℕ) (op : ℕ → ℕ → ℕ) where
  one_more : (c x y : ℕ) → x ≤ c → digits end op (suc c) x y ≡ digits end op c x y
  one_more zero zero y h = refl
  one_more (suc c) zero y h = refl
  one_more zero (suc x) y h = absurd (omega arith)
  one_more (suc c) (suc x) y h = rw (one_more c (suc x / 2) (y / 2) (omega arith))

  any_more : (d c x y : ℕ) → x ≤ c → digits end op (d + c) x y ≡ digits end op c x y
  any_more zero c x y h = rw zero-add
  any_more (suc d) c x y h =
      let next : suc d + c ≡ suc (d + c) = omega arith in
      rw (next, one_more (d + c) x y (omega arith)) (any_more d c x y h)

  halve : (x y : ℕ) → digits end op x (suc x / 2) y ≡ bitwise end op (suc x / 2) y
  halve x y =
      let parts : x ≡ x - suc x / 2 + suc x / 2 = omega arith in
      ap (λ (c : ℕ). digits end op c (suc x / 2) y) parts
      ∙ any_more (x - suc x / 2) (suc x / 2) (suc x / 2) y (omega arith)

pub bit_or_step : (x y : ℕ) → bit_or x y ≡ bit_or (x / 2) (y / 2) * 2 + max (x % 2) (y % 2)
bit_or_step zero y = omega (arith, bit_or-bitwise 0 y, bit_or-bitwise 0 (y / 2))
bit_or_step (suc x) y = rw (bit_or-bitwise, bit_or-bitwise) (rw (halve (λ d. d) max x (y / 2)) refl)

pub bit_and_step : (x y : ℕ) → bit_and x y ≡ bit_and (x / 2) (y / 2) * 2 + min (x % 2) (y % 2)
bit_and_step zero y = omega (arith, bit_and-bitwise 0 y, bit_and-bitwise 0 (y / 2))
bit_and_step (suc x) y =
    rw (bit_and-bitwise, bit_and-bitwise) (rw (halve (λ d. 0) min x (y / 2)) refl)

-- Induction on a bound of the first operand.
or_zero_below : (n a : ℕ) → a ≤ n → bit_or a 0 ≡ a
or_zero_below n zero h = refl
or_zero_below zero (suc a) h = absurd (omega arith)
or_zero_below (suc n) (suc a) h =
    omega (arith, bit_or_step (suc a) 0, or_zero_below n (suc a / 2) (omega arith))

and_zero_below : (n a : ℕ) → a ≤ n → bit_and a 0 ≡ 0
and_zero_below n zero h = refl
and_zero_below zero (suc a) h = absurd (omega arith)
and_zero_below (suc n) (suc a) h =
    omega (arith, bit_and_step (suc a) 0, and_zero_below n (suc a / 2) (omega arith))

pub bit_or-zero : (a : ℕ) → bit_or a 0 ≡ a
bit_or-zero a = or_zero_below a a (omega arith)

pub bit_and-zero : (a : ℕ) → bit_and a 0 ≡ 0
bit_and-zero a = and_zero_below a a (omega arith)

double_mul_pow : (q k : ℕ) → q * 2 ^ suc k ≡ q * 2 ^ k * 2
double_mul_pow q k = omega (arith, ap (λ (t : ℕ). q * t) (pow-suc 2 k))

-- Fields of disjoint bits: the "or" is the sum.
pub bit_or_disjoint : (k q r : ℕ) → r < 2 ^ k → bit_or (q * 2 ^ k) r ≡ q * 2 ^ k + r
bit_or_disjoint zero q r h = ground (arith, bit_or-zero q)
bit_or_disjoint (suc k) q r h = ground (
  arith,
  bit_or_step (q * 2 ^ suc k) r,
  double_mul_pow q k,
  pow-suc 2 k,
  bit_or_disjoint k q (r / 2) (omega (arith, pow-suc 2 k)),
)

-- The lowest bit set.
pub bit_or-one : (a : ℕ) → bit_or a 1 ≡ a / 2 * 2 + 1
bit_or-one a = omega (arith, bit_or_step a 1, bit_or-zero (a / 2))

and_low_field : (w q r : ℕ) → r < 2 ^ w → bit_and (q * 2 ^ w + r) (2 ^ w - 1) ≡ r
and_low_field zero q r h = omega (arith, bit_and-zero (q * 1 + r))
and_low_field (suc w) q r h = ground (
  arith,
  bit_and_step (q * 2 ^ suc w + r) (2 ^ suc w - 1),
  double_mul_pow q w,
  pow-suc 2 w,
  one-le-pow w 2,
  and_low_field w q (r / 2) (omega (arith, pow-suc 2 w)),
)

-- A mask of `w` low ones is the remainder by `2 ^ w`.
pub bit_and_mask : (w a : ℕ) → bit_and a (2 ^ w - 1) ≡ a % 2 ^ w
bit_and_mask w a = ground (arith, one-le-pow w 2, and_low_field w (a / 2 ^ w) (a % 2 ^ w))

-- A mask whose `k` low digits are zero drops those of the other operand.
pub bit_and_shifted :
    (k q r m : ℕ) → r < 2 ^ k → bit_and (q * 2 ^ k + r) (m * 2 ^ k) ≡ bit_and q m * 2 ^ k
bit_and_shifted zero q r m h = ground arith
bit_and_shifted (suc k) q r m h = ground (
  arith,
  bit_and_step (q * 2 ^ suc k + r) (m * 2 ^ suc k),
  double_mul_pow q k,
  double_mul_pow m k,
  double_mul_pow (bit_and q m) k,
  pow-suc 2 k,
  bit_and_shifted k q (r / 2) m (omega (arith, pow-suc 2 k)),
)

-- Rounding a 64-bit address down to its page: `x & ~0xfff`.
pub bit_and_page : (x : ℕ) → x < 2 ^ 64 → bit_and x (2 ^ 64 - 2 ^ 12) ≡ x / 2 ^ 12 * 2 ^ 12
bit_and_page x h =
    ground (
      arith,
      bit_and_shifted 12 (x / 2 ^ 12) (x % 2 ^ 12) (2 ^ 52 - 1),
      bit_and_mask 52 (x / 2 ^ 12),
    )

-- The three permission bits of a page-table entry: `x & 0xe`.
pub bit_and_fourteen : (x : ℕ) → bit_and x 14 ≡ x / 2 % 8 * 2
bit_and_fourteen x = ground (arith, bit_and_shifted 1 (x / 2) (x % 2) 7, bit_and_mask 3 (x / 2))
