-- ===== src/Util/Str.antt =====
-- util/src/util.c: the string functions. A string is the address of its first byte; it ends before
-- the first 0 byte. The loops that run to that byte are on fuel: `none` where it runs out. An `int`
-- that is the difference of two bytes is the pair of the bytes. Lengths are below 2^31.
pub mod Length
pub mod Compare
pub mod Atoi
mod Tests
use cs.Base.{
  ℕ, zero, suc, ◌+◌, ◌-◌, ◌*◌, ◌/◌, ◌%◌, ◌^◌, Bool, true, false, ◌||◌, ◌&&◌, Option, none, some,
  not, ltb, leb, ◌==◌, if◌then◌else◌, ◌>>=◌,
}
use cs.Memory.{Memory, store8}

-- `while (s[len] && ++len)`
unfoldable pub len_from : ℕ → Memory → ℕ → ℕ → Option ℕ
len_from zero m s len = none
len_from (suc fuel) m s len =
    let rest = len_from fuel m s (len + 1) in if m (s + len) == 0 then some len else rest

pub strlen : ℕ → Memory → ℕ → Option ℕ
strlen fuel m s = len_from fuel m s 0

pub strcmp : ℕ → Memory → ℕ → ℕ → Option (ℕ × ℕ)
strcmp zero m l r = none
strcmp (suc fuel) m l r =
    let rest = strcmp fuel m (l + 1) (r + 1) in
    if m l == 0 then some (m l, m r) else if m l == m r then rest else some (m l, m r)

-- `c1 == '\0' || c1 != c2`
abbrev pub stops : Memory → ℕ → ℕ → Bool
stops m l r = m l == 0 || not (m l == m r)

-- the last loop of `strncmp`; `c` is the pair of `c1` and `c2`
unfoldable pub bytes_from : ℕ → Memory → ℕ → ℕ → ℕ × ℕ → ℕ × ℕ
bytes_from zero m l r c = c
bytes_from (suc n) m l r c =
    let rest = bytes_from n m (l + 1) (r + 1) (m l, m r) in if stops m l r then (m l, m r) else rest

-- the loop over four bytes a round, with `k` rounds left, and the last loop after it
unfoldable pub fours_from : ℕ → ℕ → Memory → ℕ → ℕ → ℕ × ℕ → ℕ × ℕ
unfolding bytes_from
fours_from zero n m l r c = bytes_from n m l r c
fours_from (suc k) n m l r c =
    let rest =
      fours_from k n m (l + 1 + 1 + 1 + 1) (r + 1 + 1 + 1 + 1)
        (m (l + 1 + 1 + 1), m (r + 1 + 1 + 1)) in
    if stops m l r
    then (m l, m r)
    else if stops m (l + 1) (r + 1)
    then (m (l + 1), m (r + 1))
    else if stops m (l + 1 + 1) (r + 1 + 1)
    then (m (l + 1 + 1), m (r + 1 + 1))
    else if stops m (l + 1 + 1 + 1) (r + 1 + 1 + 1)
    then (m (l + 1 + 1 + 1), m (r + 1 + 1 + 1))
    else rest

pub strncmp : Memory → ℕ → ℕ → ℕ → ℕ × ℕ
strncmp m l r n = fours_from (n / 4) (n % 4) m l r (0, 0)

-- The outer option is the fuel, the inner one `none` for -1.
unfoldable pub chr_from : ℕ → Memory → ℕ → ℕ → ℕ → Option (Option ℕ)
chr_from zero m r t i = none
chr_from (suc fuel) m r t i =
    let rest = chr_from fuel m r t (i + 1) in
    if m (r + i) == t then some (some i) else if m (r + i) == 0 then some none else rest

pub strfindchr : ℕ → Memory → ℕ → ℕ → Option (Option ℕ)
strfindchr fuel m r t = chr_from fuel m r t 0

-- The destination is returned as it was given, and left out.
unfoldable pub strcpy : ℕ → Memory → ℕ → ℕ → Option Memory
strcpy zero m dest s = none
strcpy (suc fuel) m dest s =
    let rest = strcpy fuel (store8 m dest (m s)) (dest + 1) (s + 1) in
    if m s == 0 then some (store8 m dest 0) else rest

unfoldable pub strncpy : Memory → ℕ → ℕ → ℕ → Memory
strncpy m dest s zero = store8 m dest 0
strncpy m dest s (suc n) =
    let rest = strncpy (store8 m dest (m s)) (dest + 1) (s + 1) n in
    if m s == 0 then store8 m dest 0 else rest

-- the loop of `strstartswith` and of `strendswith`, with `k` bytes left
unfoldable pub same_from : ℕ → Memory → ℕ → ℕ → Bool
same_from zero m src part = true
same_from (suc k) m src part =
    let rest = same_from k m (src + 1) (part + 1) in if m src == m part then rest else false

pub strstartswith : ℕ → Memory → ℕ → ℕ → Option Bool
strstartswith fuel m src start = do
  src_len ← strlen fuel m src
  start_len ← strlen fuel m start
  some (if ltb src_len start_len then false else same_from start_len m src start)

pub strendswith : ℕ → Memory → ℕ → ℕ → Option Bool
strendswith fuel m src end = do
  src_len ← strlen fuel m src
  end_len ← strlen fuel m end
  some (if ltb src_len end_len then false else same_from end_len m (src + (src_len - end_len)) end)

-- The loop of `atoi` that counts the digits.
unfoldable pub digits_len : ℕ → Memory → ℕ → ℕ → Option ℕ
digits_len zero m st l = none
digits_len (suc fuel) m st l =
    let rest = digits_len fuel m st (l + 1) in
    if leb 48 (m (st + l)) && leb (m (st + l)) 57 then rest else some l

-- The loop over the digits from the last one, with `i` of them left; `none` where an `int` overflows.
unfoldable pub add_digits : ℕ → Memory → ℕ → ℕ → ℕ → Option ℕ
add_digits zero m st r p = some r
add_digits (suc i) m st r p =
    let sum = r + p * (m (st + i) - 48) in
    let rest = add_digits i m st sum (p * 10) in
    if leb (2 ^ 31) sum || leb (2 ^ 31) (p * 10) then none else rest

-- The 32-bit word of the result.
pub atoi : ℕ → Memory → ℕ → Option ℕ
unfolding digits_len add_digits
atoi fuel m st =
    let n = m st == 45 in
    let st = if n then st + 1 else st in
    digits_len fuel m st 0
    >>= (λ l. add_digits l m st 0 1 >>= (λ r. some (if n then (2 ^ 32 - r) % 2 ^ 32 else r)))
