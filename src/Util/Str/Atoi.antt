-- ===== src/Util/Str/Atoi.antt =====
-- atoi on the decimal digits of a number, and after map_int_to_str.
use mathlib.Core.Path.{subst}
use cs.Base.{
  leb, ℕ, zero, suc, ◌+◌, ◌-◌, ◌*◌, ◌/◌, ◌%◌, ◌^◌, ◌<◌, ◌≤◌, ◌≡◌, refl, sym, ap, ◌∙◌, arith,
  Bool-cases, inl, inr, true, false, [], ◌∷◌, Option, none, some, ltb, ◌==◌, ◌>>=◌,
}
use native.Mathlib.Nat.{mul_comm, mul_assoc, mul-add, mul-le-mul_left, pow-suc}
use cs.Base.Lists.{length, get_or}
use cs.Memory.{Memory}
use cs.Util.Str.{digits_len, add_digits, atoi}
use cs.Util.Map.{Key, digits, flip_onto, str_digits, map_int_to_str}
use cs.Util.Map.Keys.{decimal, decimal-str_digits}

-- The bytes of `key` stand at `st`, with a byte after them that is 0.
pub record Holds (m : Memory) (st : ℕ) (key : Key) : Type 0 where
  pub inner : (i : ℕ) → i < length key → m (st + i) ≡ get_or key i 0
  pub stop : m (st + length key) ≡ 0

tail-Holds : (m : Memory) (st c : ℕ) (cs : Key) → Holds m st (c ∷ cs) → Holds m (st + 1) cs
tail-Holds m st c cs h = record {
  inner = λ i q.
      let next : st + 1 + i ≡ st + suc i = omega arith in
      rw next (h.inner (suc i) (omega (arith, q)));
  stop = let next : st + 1 + length cs ≡ st + length (c ∷ cs) = omega arith in rw next h.stop;
}

head-Holds : (m : Memory) (st c : ℕ) (cs : Key) → Holds m st (c ∷ cs) → m st ≡ c
head-Holds m st c cs h = let here : st + 0 ≡ st = omega arith in rw⁻¹ here (h.inner 0 (omega arith))

-- digits only
Digits : Key → Type 0
Digits key = (i : ℕ) → i < length key → (48 ≤ get_or key i 0) × (get_or key i 0 ≤ 57)

cons-Digits : (c : ℕ) (cs : Key) → 48 ≤ c → c ≤ 57 → Digits cs → Digits (c ∷ cs)
unfolding Digits
cons-Digits c cs low high h zero q = (low, high)
cons-Digits c cs low high h (suc i) q = h i (omega (arith, q))

empty_Digits : Digits []
unfolding Digits
empty_Digits i q = absurd (omega (arith, q))

Digits-digits : (i n : ℕ) → Digits (digits i n)
unfolding Digits digits
Digits-digits zero n = empty_Digits
Digits-digits (suc i) n = elim (Bool-cases (n == 0)) [
  | inl e ↦ rw e empty_Digits
  | inr e ↦ rw e (
      cons-Digits (n % 10 + 48) (digits i (n / 10)) (omega arith) (omega arith)
        (Digits-digits i (n / 10)))
]

Digits-flip_onto : (ds acc : Key) → Digits ds → Digits acc → Digits (flip_onto ds acc)
unfolding Digits flip_onto
Digits-flip_onto [] acc h k = k
Digits-flip_onto (d ∷ ds) acc h k =
    Digits-flip_onto ds (d ∷ acc) (λ i q. h (suc i) (omega (arith, q)))
      (cons-Digits d acc (h 0 (omega arith)).0 (h 0 (omega arith)).1 k)

digits_len_lem :
    (fuel k i : ℕ) (m : Memory) (st : ℕ) (key : Key)
    → Holds m st key
    → Digits key
    → i + k ≡ length key
    → k < fuel
    → digits_len fuel m st i ≡ some (length key)
unfolding digits_len Digits
digits_len_lem zero k i m st key h d e f = absurd (omega (arith, f))
digits_len_lem (suc fuel) zero i m st key h d e f =
    let here : i ≡ length key = omega (arith, e) in rw here (ground (arith, h.stop))
digits_len_lem (suc fuel) (suc k) i m st key h d e f =
    ground (arith, h.inner i, d i, digits_len_lem fuel k (i + 1) m st key h d)

-- the value of the `n` digits from `st` on, from the left
value : ℕ → Memory → ℕ → ℕ → ℕ
value acc m st zero = acc
value acc m st (suc n) = value (acc * 10 + (m st - 48)) m (st + 1) n

value-decimal :
    (acc : ℕ) (m : Memory) (st : ℕ) (key : Key)
    → Holds m st key
    → value acc m st (length key) ≡ decimal acc key
unfolding value
value-decimal acc m st [] h = refl
value-decimal acc m st (c ∷ cs) h =
    rw (value, head-Holds m st c cs h)
      (value-decimal (acc * 10 + (c - 48)) m (st + 1) cs (tail-Holds m st c cs h))

value-last :
    (acc : ℕ) (m : Memory) (st n : ℕ)
    → value acc m st (suc n) ≡ value acc m st n * 10 + (m (st + n) - 48)
unfolding value
value-last acc m st zero = let here : st + 0 ≡ st = omega arith in rw here refl
value-last acc m st (suc n) =
    let next : st + suc n ≡ st + 1 + n = omega arith in
    rw next (value-last (acc * 10 + (m st - 48)) m (st + 1) n)

-- `p` can be multiplied by 10 `i` times and stays up to 10^9.
Room : ℕ → ℕ → Type 0
Room zero p = Unit
Room (suc i) p = (p * 10 ≤ 10 ^ 9) × Room i (p * 10)

Room-less : (i p : ℕ) → Room (suc i) p → Room i p
unfolding Room
Room-less zero p h = tt
Room-less (suc i) p h = (h.0, Room-less i (p * 10) h.1)

nine_Room : Room 9 1
unfolding Room
nine_Room = (
  omega arith,
  (
    omega arith,
    (
      omega arith,
      (omega arith, (omega arith, (omega arith, (omega arith, (omega arith, (omega arith, tt)))))),
    ),
  ),
)

short_Room : (d i : ℕ) → i + d ≡ 9 → Room i 1
short_Room zero i h = let same : i ≡ 9 = omega (arith, h) in rw same nine_Room
short_Room (suc d) i h = Room-less i 1 (short_Room d (suc i) (omega (arith, h)))

add_digits_lem :
    (i : ℕ) (m : Memory) (st r p : ℕ)
    → Room i p
    → r < p
    → ((j : ℕ) → j < i → m (st + j) ≤ 57)
    → add_digits i m st r p ≡ some (r + p * value 0 m st i)
unfolding add_digits value Room
add_digits_lem zero m st r p room low small = let same : r ≡ r + p * 0 = omega arith in ap some same
add_digits_lem (suc i) m st r p room low small =
    let d = m (st + i) - 48 in
    let v = value 0 m st i in
    let digit : d ≤ 9 = omega (arith, small i (omega arith)) in
    let scaled : p * d ≤ p * 9 = mul-le-mul_left p digit in
    let next : r + p * d < p * 10 = omega (arith, low, scaled) in
    let no_sum : leb (2 ^ 31) (r + p * d) ≡ false = ground (arith, next, room.0) in
    let no_place : leb (2 ^ 31) (p * 10) ≡ false = ground (arith, room.0) in
    let step =
      add_digits_lem i m st (r + p * d) (p * 10) room.1 next (λ j q. small j (omega (arith, q))) in
    let tens : p * (v * 10) ≡ p * 10 * v =
      ap (λ (n : ℕ). p * n) (mul_comm v 10) ∙ sym (mul_assoc p 10 v) in
    let whole : p * value 0 m st (suc i) ≡ p * (v * 10) + p * d =
      ap (λ (n : ℕ). p * n) (value-last 0 m st i) ∙ mul-add p (v * 10) d in
    let total : r + p * d + p * 10 * v ≡ r + p * value 0 m st (suc i) =
      omega (arith, tens, whole) in
    rw (no_sum, no_place) (step ∙ ap some total)

Digits-value :
    (fuel : ℕ) (m : Memory) (st : ℕ) (key : Key)
    → Holds m st key
    → Digits key
    → length key ≤ 9
    → length key < fuel
    → (digits_len fuel m st 0 ≡ some (length key))
      × (add_digits (length key) m st 0 1 ≡ some (decimal 0 key))
unfolding Digits
Digits-value fuel m st key h d short f =
    let room = short_Room (9 - length key) (length key) (omega (arith, short)) in
    let same : 0 + 1 * value 0 m st (length key) ≡ decimal 0 key =
      omega (arith, value-decimal 0 m st key h) in
    (
      digits_len_lem fuel (length key) 0 m st key h d (omega arith) f,
      add_digits_lem (length key) m st 0 1 room (omega arith)
            (λ j q. omega (arith, h.inner j q, (d j q).1))
          ∙ ap some same,
    )

-- a number below 10^k has at most k digits
length-digits : (i k n : ℕ) → n < 10 ^ k → length (digits i n) ≤ k
unfolding digits
length-digits zero k n h = omega arith
length-digits (suc i) zero n h =
    let nothing : n == 0 ≡ true = ground (arith, h) in rw nothing (omega arith)
length-digits (suc i) (suc k) n h = elim (Bool-cases (n == 0)) [
  | inl e ↦ rw e (omega arith)
  | inr e ↦
      let power : 10 ^ suc k ≡ 10 * 10 ^ k = omega (arith, pow-suc 10 k) in
      let rest = length-digits i k (n / 10) (omega (arith, power, h)) in rw e (omega (arith, rest))
]

length-flip_onto : (ds acc : Key) → length (flip_onto ds acc) ≡ length ds + length acc
unfolding flip_onto
length-flip_onto [] acc = omega arith
length-flip_onto (d ∷ ds) acc = omega (arith, length-flip_onto ds (d ∷ acc))

short_string : (n : ℕ) → n < 10 ^ 9 → length (str_digits n) ≤ 9
unfolding str_digits
short_string n h = omega (arith, length-flip_onto (digits 62 n) [], length-digits 62 9 n h)

no_minus : (m : Memory) (st : ℕ) (key : Key) → Holds m st key → Digits key → m st == 45 ≡ false
unfolding Digits
no_minus m st [] h d =
    let here : st + 0 ≡ st = omega arith in
    let zero_byte : m st ≡ 0 = sym (ap m here) ∙ h.stop in ground (arith, zero_byte)
no_minus m st (c ∷ cs) h d = ground (arith, head-Holds m st c cs h, d 0 (omega arith))

atoi_positive :
    (fuel : ℕ) (m : Memory) (st : ℕ) (key : Key)
    → Holds m st key
    → Digits key
    → length key ≤ 9
    → length key < fuel
    → atoi fuel m st ≡ some (decimal 0 key)
unfolding atoi ◌>>=◌
atoi_positive fuel m st key h d short f =
    let v = Digits-value fuel m st key h d short f in rw (no_minus m st key h d, v.0, v.1) refl

atoi_negative :
    (fuel : ℕ) (m : Memory) (st : ℕ) (key : Key)
    → Holds m st (45 ∷ key)
    → Digits key
    → length key ≤ 9
    → length key < fuel
    → atoi fuel m st ≡ some ((2 ^ 32 - decimal 0 key) % 2 ^ 32)
unfolding atoi ◌>>=◌
atoi_negative fuel m st key h d short f =
    let minus : m st == 45 ≡ true = ground (arith, head-Holds m st 45 key h) in
    let v = Digits-value fuel m (st + 1) key (tail-Holds m st 45 key h) d short f in
    rw (minus, v.0, v.1) refl

of_some : Option Key → Key
of_some none = []
of_some (some key) = key

key_of : (a b : Key) → some a ≡ some b → a ≡ b
unfolding of_some
key_of a b h = ap of_some h

Digits-str_digits : (n : ℕ) → Digits (str_digits n)
unfolding str_digits
Digits-str_digits n = Digits-flip_onto (digits 62 n) [] (Digits-digits 62 n) empty_Digits

-- Where the string that `map_int_to_str` makes of a number of at most nine digits stands in memory, `atoi`
-- gives the 32-bit word of the number, with fuel above the length of the string.
pub atoi-map_int_to_str :
    (fuel : ℕ) (m : Memory) (st n : ℕ) (key : Key)
    → n < 2 ^ 64
    → (n + (10 ^ 9 - 1)) % 2 ^ 64 < 2 * 10 ^ 9 - 1
    → map_int_to_str n ≡ some key
    → Holds m st key
    → length key < fuel
    → atoi fuel m st ≡ some (n % 2 ^ 32)
unfolding map_int_to_str
atoi-map_int_to_str fuel m st n key fits small made h f = elim (Bool-cases (n == 0)) [
  | inl e ↦
      let shape : map_int_to_str n ≡ some (48 ∷ []) = rw e refl in
      let same : 48 ∷ [] ≡ key = key_of (48 ∷ []) key (sym shape ∙ made) in
      let nothing : n ≡ 0 = ground (arith, e) in
      let word : 0 ≡ n % 2 ^ 32 = omega (arith, nothing) in
      atoi_positive fuel m st (48 ∷ []) (subst (Holds m st) (sym same) h)
        (cons-Digits 48 [] (omega arith) (omega arith) empty_Digits) (omega arith)
        (omega (arith, f, ap length same))
      ∙ ap some word
  | inr e ↦
      let other : (n == 2 ^ 63) ≡ false = ground (arith, small) in
      elim (Bool-cases (ltb n (2 ^ 63))) [
        | inl pos ↦
            let shape : map_int_to_str n ≡ some (str_digits n) = rw (e, other, pos) refl in
            let same = key_of (str_digits n) key (sym shape ∙ made) in
            let word : n ≡ n % 2 ^ 32 = ground (arith, pos, small) in
            atoi_positive fuel m st (str_digits n) (subst (Holds m st) (sym same) h)
              (Digits-str_digits n) (short_string n (ground (arith, pos, small)))
              (omega (arith, f, ap length same))
            ∙ ap some (decimal-str_digits n fits ∙ word)
        | inr neg ↦
            let k = 2 ^ 64 - n in
            let shape : map_int_to_str n ≡ some (45 ∷ str_digits k) = rw (e, other, neg) refl in
            let same = key_of (45 ∷ str_digits k) key (sym shape ∙ made) in
            let magnitude : decimal 0 (str_digits k) ≡ k =
              decimal-str_digits k (ground (arith, neg)) in
            let word : (2 ^ 32 - decimal 0 (str_digits k)) % 2 ^ 32 ≡ n % 2 ^ 32 =
              ground (arith, neg, small, magnitude) in
            atoi_negative fuel m st (str_digits k) (subst (Holds m st) (sym same) h)
              (Digits-str_digits k) (short_string k (ground (arith, neg, small)))
              (omega (arith, f, ap length same))
            ∙ ap some word
      ]
]
