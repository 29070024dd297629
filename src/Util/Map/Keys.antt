-- ===== src/Util/Map/Keys.antt =====
-- Numbers as keys, and the list of the keys.
use cs.Base.{
  ℕ, zero, suc, ◌+◌, ◌-◌, ◌*◌, ◌/◌, ◌^◌, ◌<◌, ◌≡◌, ◌≢◌, refl, ap, ◌∙◌, arith, Bool-cases, inl, inr,
  true, false, List, [], ◌∷◌, some, ltb, ◌==◌, if◌then◌else◌,
}
use native.Mathlib.Nat.{pow-suc}
use cs.Base.Lists.{length, length-append}
use cs.Util.Map.{
  Key, Bucket, Map, digits, flip_onto, str_digits, map_int_to_str, keys_of, keys_of_all,
  map_get_keys, map_size,
}
use cs.Util.Map.Laws.{total, IsValid}

-- a decimal number, read from the left
abbrev pub decimal : ℕ → Key → ℕ
decimal acc [] = acc
decimal acc (d ∷ ds) = decimal (acc * 10 + (d - 48)) ds

units : Key → ℕ
units [] = 0
units (d ∷ ds) = (d - 48) + 10 * units ds

decimal-flip_onto : (ds acc : Key) → decimal 0 (flip_onto ds acc) ≡ decimal (units ds) acc
unfolding flip_onto units
decimal-flip_onto [] acc = refl
decimal-flip_onto (d ∷ ds) acc =
    decimal-flip_onto ds (d ∷ acc) ∙ ap (λ (a : ℕ). decimal a acc) (omega arith)

units-digits : (i n : ℕ) → n < 10 ^ i → units (digits i n) ≡ n
unfolding units digits
units-digits zero n h = omega arith
units-digits (suc i) n h =
    let e : 10 ^ suc i ≡ 10 * 10 ^ i = omega (arith, pow-suc 10 i) in
    let rest = units-digits i (n / 10) (omega (arith, e)) in ground (arith, rest)

pub decimal-str_digits : (n : ℕ) → n < 2 ^ 64 → decimal 0 (str_digits n) ≡ n
unfolding str_digits
decimal-str_digits n h = decimal-flip_onto (digits 62 n) [] ∙ units-digits 62 n (omega arith)

-- `map_int_to_str` of a `long` other than the least one gives the decimal digits of its magnitude,
-- behind a minus sign where it is negative.
pub map_int_to_str_lem :
    (n : ℕ)
    → n < 2 ^ 64
    → n ≢ 2 ^ 63
    → (ds : Key) × (map_int_to_str n ≡ some (if ltb n (2 ^ 63) then ds else 45 ∷ ds))
      × (decimal 0 ds ≡ (if ltb n (2 ^ 63) then n else 2 ^ 64 - n))
unfolding map_int_to_str
map_int_to_str_lem n fits ne = elim (Bool-cases (n == 0)) [
  | inl zero_n ↦
      let e : ltb n (2 ^ 63) ≡ true = ground arith in rw (zero_n, e) (48 ∷ [], refl, ground arith)
  | inr some_n ↦
      let other : (n == 2 ^ 63) ≡ false = ground arith in
      elim (Bool-cases (ltb n (2 ^ 63))) [
        | inl pos ↦ rw (some_n, other, pos) (str_digits n, refl, decimal-str_digits n fits)
        | inr neg ↦
            rw (some_n, other, neg)
              (str_digits (2 ^ 64 - n), refl, decimal-str_digits (2 ^ 64 - n) (ground arith))
      ]
]

length-keys_of : (b : Bucket) → length (keys_of b) ≡ length b
unfolding keys_of
length-keys_of [] = refl
length-keys_of (me ∷ rest) = ap suc (length-keys_of rest)

length-keys_of_all : (bs : List Bucket) → length (keys_of_all bs) ≡ total bs
unfolding keys_of_all
length-keys_of_all [] = refl
length-keys_of_all (b ∷ bs) =
    omega
      (arith, length-append (keys_of b) (keys_of_all bs), length-keys_of b, length-keys_of_all bs)

-- `map_get_keys` of a well-formed map lists as many keys as the map has elements.
pub length-map_get_keys : (map : Map) → IsValid map → length (map_get_keys map) ≡ map_size map
unfolding map_get_keys map_size
length-map_get_keys map ok = omega (arith, length-keys_of_all map.values, ok.sized)
