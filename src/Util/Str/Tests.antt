-- ===== src/Util/Str/Tests.antt =====
-- The strings "ab" at 1 and "abc" at 4.
use cs.Base.{ℕ, zero, suc, ◌+◌, ◌<◌, ◌≡◌, ◌≢◌, ◌↔◌, refl, ap, arith, [], ◌∷◌, ◌%◌, ◌-◌, ◌^◌, some}
use cs.Base.Lists.{get_or}
use cs.Memory.{Memory}
use cs.Util.Mem.Copy.{IsBytes}
use cs.Util.Str.{strncmp, atoi}
use cs.Util.Str.Atoi.{Holds, atoi-map_int_to_str}
use cs.Util.Map.{map_int_to_str, str_digits, flip_onto, digits}
use cs.Util.Str.Length.{IsString}
use cs.Util.Str.Compare.{strncmp_iff}

abbrev text : Memory
text x = get_or (0 ∷ 97 ∷ 98 ∷ 0 ∷ 97 ∷ 98 ∷ 99 ∷ 0 ∷ []) x 0 % 256

text-IsBytes : IsBytes text
text-IsBytes x = omega arith

ab-IsString : IsString text 1 2
ab-IsString = record { stop = refl; inner = inner }
  where
    inner : (i : ℕ) → i < 2 → text (1 + i) ≢ 0
    inner zero h e = omega arith
    inner (suc zero) h e = omega arith
    inner (suc (suc i)) h e = omega arith

abc-IsString : IsString text 4 3
abc-IsString = record { stop = refl; inner = inner }
  where
    inner : (i : ℕ) → i < 3 → text (4 + i) ≢ 0
    inner zero h e = omega arith
    inner (suc zero) h e = omega arith
    inner (suc (suc zero)) h e = omega arith
    inner (suc (suc (suc i))) h e = omega arith

strncmp_iff_example :
    ((strncmp text 1 4 2).0 ≡ (strncmp text 1 4 2).1)
    ↔ ((k : ℕ) → k < 2 → ((i : ℕ) → i < k → text (1 + i) ≢ 0) → text (1 + k) ≡ text (4 + k))
strncmp_iff_example = strncmp_iff text 1 4 2

-- "-42" at 0
abbrev minus : Memory
minus x = get_or (45 ∷ 52 ∷ 50 ∷ []) x 0

minus-Holds : Holds minus 0 (45 ∷ 52 ∷ 50 ∷ [])
minus-Holds = record {
  inner = λ i h. let here : 0 + i ≡ i = omega arith in ap minus here;
  stop = refl;
}

minus_string : map_int_to_str (2 ^ 64 - 42) ≡ some (45 ∷ 52 ∷ 50 ∷ [])
unfolding map_int_to_str str_digits flip_onto digits
minus_string = refl

atoi-map_int_to_str_example : atoi 4 minus 0 ≡ some (2 ^ 32 - 42)
atoi-map_int_to_str_example =
    atoi-map_int_to_str 4 minus 0 (2 ^ 64 - 42) (45 ∷ 52 ∷ 50 ∷ []) (omega arith) (omega arith)
      minus_string minus-Holds (omega arith)
