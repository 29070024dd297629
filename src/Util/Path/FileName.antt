-- ===== src/Util/Path/FileName.antt =====
-- path_file_name.
use native.Mathlib.Nat.{zero-add}
use cs.Base.{ℕ, zero, suc, ◌+◌, ◌≡◌, refl, sym, ap, ◌∙◌, arith, true, false, [], ◌∷◌, ◌++◌, ◌==◌}
use cs.Base.Lists.{length, get_or}
use cs.Util.Path.{Name, slash, from, file_name_from, path_file_name}
use cs.Util.Path.Split.{plain}

length-◌++◌ : (p q : Name) → length (p ++ q) ≡ length p + length q
unfolding length
length-◌++◌ [] q = sym (zero-add (length q))
length-◌++◌ (c ∷ p) q = omega (arith, length-◌++◌ p q)

get_or-◌++◌ : (p q : Name) (j : ℕ) → get_or (p ++ q) (length p + j) 0 ≡ get_or q j 0
unfolding length get_or
get_or-◌++◌ [] q j = ap (λ (t : ℕ). get_or q t 0) (zero-add j)
get_or-◌++◌ (c ∷ p) q j =
    let e : suc (length p) + j ≡ suc (length p + j) = omega arith in rw e (get_or-◌++◌ p q j)

from-◌++◌ : (p q : Name) (j : ℕ) → from (length p + j) (p ++ q) ≡ from j q
unfolding length from
from-◌++◌ [] q j = ap (λ (t : ℕ). from t q) (zero-add j)
from-◌++◌ (c ∷ p) q j =
    let e : suc (length p) + j ≡ suc (length p + j) = omega arith in rw e (from-◌++◌ p q j)

get_or-plain : (n : Name) (j : ℕ) → plain n ≡ true → get_or n j 0 == slash ≡ false
unfolding plain get_or
get_or-plain [] j i = ground arith
get_or-plain (c ∷ n) zero i = ground arith
get_or-plain (c ∷ n) (suc j) i = ground (arith, get_or-plain n j (ground arith))

tail : (n : Name) → from 1 (slash ∷ n) ≡ n
unfolding from
tail n = refl

file_name_of_tail :
    (p n : Name) (k : ℕ) → plain n ≡ true → file_name_from (p ++ slash ∷ n) (length p + suc k) ≡ n
unfolding file_name_from
file_name_of_tail p n zero i =
    let e : length p + 1 ≡ suc (length p + 0) = omega arith in
    let whole = p ++ slash ∷ n in
    let here : get_or whole (length p + 0) 0 == slash ≡ true =
      ground (arith, get_or-◌++◌ p (slash ∷ n) 0) in
    ap (file_name_from whole) e
    ∙ rw here (ap (λ (t : ℕ). from t whole) (omega arith) ∙ from-◌++◌ p (slash ∷ n) 1 ∙ tail n)
file_name_of_tail p n (suc k) i =
    let e : length p + suc (suc k) ≡ suc (length p + suc k) = omega arith in
    let whole = p ++ slash ∷ n in
    let past : get_or whole (length p + suc k) 0 == slash ≡ false =
      ap (λ (t : ℕ). t == slash) (get_or-◌++◌ p (slash ∷ n) (suc k)) ∙ get_or-plain n k i in
    ap (file_name_from whole) e ∙ rw past (file_name_of_tail p n k i)

file_name_of_plain : (n : Name) (k : ℕ) → plain n ≡ true → file_name_from n k ≡ n
unfolding file_name_from
file_name_of_plain n zero i = refl
file_name_of_plain n (suc k) i = rw (get_or-plain n k i) (file_name_of_plain n k i)

-- The file name of a path is what stands behind its last slash, and the whole of a path without one.
pub path_file_name_lem :
    (p n : Name) → plain n ≡ true → (path_file_name (p ++ slash ∷ n) ≡ n) × (path_file_name n ≡ n)
unfolding path_file_name
path_file_name_lem p n i = (
  ap (file_name_from (p ++ slash ∷ n)) (length-◌++◌ p (slash ∷ n))
      ∙ file_name_of_tail p n (length n) i,
  file_name_of_plain n (length n) i,
)
