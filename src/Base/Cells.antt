-- ===== src/Base/Cells.antt =====
-- Arrays of numbers as lists, read by index with 0 outside.
use Prim.Native.Nat.{ℕ, zero, suc, ◌<◌}
use mathlib.Core.Path.{◌≡◌, refl, ap}
use mathlib.Core.Logic.{◌≢◌}
use mathlib.Core.List.{List, [], ◌∷◌}
use native.Mathlib.Omega.{arith}
use cs.Base.Tests.{◌==◌, if◌then◌else◌}
use cs.Base.Lists.{length, get_or, set, replicate}

pub get_or-set_same : (xs : List ℕ) (i v : ℕ) → i < length xs → get_or (set xs i v) i 0 ≡ v
get_or-set_same [] i v h = elim h [ ]
get_or-set_same (x ∷ xs) zero v h = refl
get_or-set_same (x ∷ xs) (suc i) v h = get_or-set_same xs i v (omega arith)

pub get_or-set_other : (xs : List ℕ) (i j v : ℕ) → i ≢ j → get_or (set xs i v) j 0 ≡ get_or xs j 0
get_or-set_other [] i j v h = refl
get_or-set_other (x ∷ xs) zero zero v h = absurd (h refl)
get_or-set_other (x ∷ xs) zero (suc j) v h = refl
get_or-set_other (x ∷ xs) (suc i) zero v h = refl
get_or-set_other (x ∷ xs) (suc i) (suc j) v h = get_or-set_other xs i j v (λ e. h (ap suc e))

-- A write inside the array, read back at any index.
pub get_or-set :
    (xs : List ℕ) (i j v : ℕ)
    → i < length xs
    → get_or (set xs i v) j 0 ≡ (if j == i then v else get_or xs j 0)
get_or-set xs i j v h = ground (arith, get_or-set_same xs i v h, get_or-set_other xs i j v)

pub get_or-replicate : (n i : ℕ) → get_or {A = ℕ} (replicate n 0) i 0 ≡ 0
get_or-replicate zero i = refl
get_or-replicate (suc n) zero = refl
get_or-replicate (suc n) (suc i) = get_or-replicate n i

-- The same for an array of any type.
module _ {ℓ} {A : Type ℓ} (d : A) where
  pub get_or-set_at : (xs : List A) (i : ℕ) (v : A) → i < length xs → get_or (set xs i v) i d ≡ v
  get_or-set_at [] i v h = elim h [ ]
  get_or-set_at (x ∷ xs) zero v h = refl
  get_or-set_at (x ∷ xs) (suc i) v h = get_or-set_at xs i v (omega arith)

  pub get_or-set_away :
      (xs : List A) (i j : ℕ) (v : A) → i ≢ j → get_or (set xs i v) j d ≡ get_or xs j d
  get_or-set_away [] i j v h = refl
  get_or-set_away (x ∷ xs) zero zero v h = absurd (h refl)
  get_or-set_away (x ∷ xs) zero (suc j) v h = refl
  get_or-set_away (x ∷ xs) (suc i) zero v h = refl
  get_or-set_away (x ∷ xs) (suc i) (suc j) v h = get_or-set_away xs i j v (λ e. h (ap suc e))

  pub get_or-replicate_all : (n i : ℕ) → get_or (replicate n d) i d ≡ d
  get_or-replicate_all zero i = refl
  get_or-replicate_all (suc n) zero = refl
  get_or-replicate_all (suc n) (suc i) = get_or-replicate_all n i
