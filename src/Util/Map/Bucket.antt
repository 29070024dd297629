-- ===== src/Util/Map/Bucket.antt =====
-- The bucket of a map as an association list.
use cs.Base.{
  ℕ, ◌+◌, ◌≡◌, refl, ◌∙◌, arith, Bool, Bool-cases, inl, inr, ◌⊎◌, true, false, ◌||◌, [], ◌∷◌, ◌++◌,
  Option, none, some, ◌==◌, if◌then◌else◌,
}
use mathlib.Core.Path.{ap₂}
use cs.Base.Lists.{length}
use cs.Util.Map.{Key, key_eq, MapElem, elem, Bucket, find_elem, set_val, drop_elem}

pub key_eq_self : (k : Key) → key_eq k k ≡ true
unfolding key_eq
key_eq_self [] = refl
key_eq_self (x ∷ xs) = ground (arith, key_eq_self xs)

pub eq_of_key_eq : (k l : Key) → key_eq k l ≡ true → k ≡ l
unfolding key_eq
eq_of_key_eq [] [] h = refl
eq_of_key_eq [] (y ∷ ys) h = ground arith
eq_of_key_eq (x ∷ xs) [] h = ground arith
eq_of_key_eq (x ∷ xs) (y ∷ ys) h = elim (Bool-cases (x == y)) [
  | inl same ↦ ap₂ ◌∷◌ (ground arith) (eq_of_key_eq xs ys (ground arith))
  | inr differ ↦ absurd (ground arith)
]

pub key_eq_comm : (k l : Key) → key_eq k l ≡ key_eq l k
unfolding key_eq
key_eq_comm [] [] = refl
key_eq_comm [] (y ∷ ys) = refl
key_eq_comm (x ∷ xs) [] = refl
key_eq_comm (x ∷ xs) (y ∷ ys) = ground (arith, key_eq_comm xs ys)

-- the value of a key
abbrev pub lookup : Key → Bucket → Option ℕ
lookup k [] = none
lookup k (me ∷ rest) = if key_eq k me.key then some me.val else lookup k rest

abbrev pub has : Key → Bucket → Bool
has k [] = false
has k (me ∷ rest) = key_eq k me.key || has k rest

-- no key twice
abbrev pub Distinct : Bucket → Type 0
Distinct [] = Unit {0}
Distinct (me ∷ rest) = (has me.key rest ≡ false) × Distinct rest

-- A key that differs from one differs from its equals.
differs : (k l x : Key) → key_eq k l ≡ false → key_eq k x ≡ true → key_eq l x ≡ false
differs k l x ne hit = let e = eq_of_key_eq k x hit in rw (← e, key_eq_comm l k) ne

-- The value of the key that is set, and of another key.
pub lookup-set_val_same :
    (k : Key) (v : ℕ) (b : Bucket) → has k b ≡ true → lookup k (set_val k v b) ≡ some v
unfolding set_val
lookup-set_val_same k v [] h = ground arith
lookup-set_val_same k v (me ∷ rest) h = ground (arith, lookup-set_val_same k v rest)

pub lookup-set_val_other :
    (k l : Key) (v : ℕ) (b : Bucket) → key_eq k l ≡ false → lookup l (set_val k v b) ≡ lookup l b
unfolding set_val
lookup-set_val_other k l v [] ne = refl
lookup-set_val_other k l v (me ∷ rest) ne =
    ground (arith, differs k l me.key ne, lookup-set_val_other k l v rest ne)

pub lookup-append :
    (l : Key) (b : Bucket) (k : Key) (v : ℕ)
    → lookup l (b ++ (elem k v ∷ []))
      ≡ (if has l b then lookup l b else if key_eq l k then some v else none)
lookup-append l [] k v = refl
lookup-append l (me ∷ rest) k v = ground (arith, lookup-append l rest k v)

pub lookup-absent : (k : Key) (b : Bucket) → has k b ≡ false → lookup k b ≡ none
lookup-absent k [] h = refl
lookup-absent k (me ∷ rest) h = ground (arith, lookup-absent k rest)

pub has-set_val : (k l : Key) (v : ℕ) (b : Bucket) → has l (set_val k v b) ≡ has l b
unfolding set_val
has-set_val k l v [] = refl
has-set_val k l v (me ∷ rest) = ground (arith, has-set_val k l v rest)

pub has-append :
    (l : Key) (b : Bucket) (k : Key) (v : ℕ)
    → has l (b ++ (elem k v ∷ [])) ≡ (has l b || key_eq l k)
has-append l [] k v = ground arith
has-append l (me ∷ rest) k v = ground (arith, has-append l rest k v)

pub set_val-Distinct : (k : Key) (v : ℕ) (b : Bucket) → Distinct b → Distinct (set_val k v b)
unfolding set_val
set_val-Distinct k v [] d = tt
set_val-Distinct k v (me ∷ rest) d = elim (Bool-cases (key_eq k me.key)) [
  | inl hit ↦ rw hit d
  | inr miss ↦ rw miss (has-set_val k me.key v rest ∙ d.0, set_val-Distinct k v rest d.1)
]

pub append-Distinct :
    (b : Bucket) (k : Key) (v : ℕ) → Distinct b → has k b ≡ false → Distinct (b ++ (elem k v ∷ []))
append-Distinct [] k v d h = (refl, tt)
append-Distinct (me ∷ rest) k v d h = (
  has-append me.key rest k v ∙ ground (arith, d.0, key_eq_comm k me.key),
  append-Distinct rest k v d.1 (ground arith),
)

has-drop_elem : (k l : Key) (b : Bucket) → has l b ≡ false → has l (drop_elem k b) ≡ false
unfolding drop_elem
has-drop_elem k l [] h = refl
has-drop_elem k l (me ∷ rest) h = ground (arith, has-drop_elem k l rest)

pub drop_elem-Distinct : (k : Key) (b : Bucket) → Distinct b → Distinct (drop_elem k b)
unfolding drop_elem
drop_elem-Distinct k [] d = tt
drop_elem-Distinct k (me ∷ rest) d = elim (Bool-cases (key_eq k me.key)) [
  | inl hit ↦ rw hit d.1
  | inr miss ↦ rw miss (has-drop_elem k me.key rest d.0, drop_elem-Distinct k rest d.1)
]

-- The key that is dropped is gone, since it stood once; the others are kept.
pub lookup-drop_elem_same : (k : Key) (b : Bucket) → Distinct b → lookup k (drop_elem k b) ≡ none
unfolding drop_elem
lookup-drop_elem_same k [] d = refl
lookup-drop_elem_same k (me ∷ rest) d = elim (Bool-cases (key_eq k me.key)) [
  | inl hit ↦ let e = eq_of_key_eq k me.key hit in rw hit (lookup-absent k rest (rw (← e) at d.0))
  | inr miss ↦ ground (arith, lookup-drop_elem_same k rest d.1)
]

pub lookup-drop_elem_other :
    (k l : Key) (b : Bucket) → key_eq k l ≡ false → lookup l (drop_elem k b) ≡ lookup l b
unfolding drop_elem
lookup-drop_elem_other k l [] ne = refl
lookup-drop_elem_other k l (me ∷ rest) ne =
    ground (arith, differs k l me.key ne, lookup-drop_elem_other k l rest ne)

-- lengths
pub length-set_val : (k : Key) (v : ℕ) (b : Bucket) → length (set_val k v b) ≡ length b
unfolding set_val
length-set_val k v [] = refl
length-set_val k v (me ∷ rest) = ground (arith, length-set_val k v rest)

pub length-drop_elem :
    (k : Key) (b : Bucket) → has k b ≡ true → length (drop_elem k b) + 1 ≡ length b
unfolding drop_elem
length-drop_elem k [] h = ground arith
length-drop_elem k (me ∷ rest) h = ground (arith, length-drop_elem k rest)

-- `find_elem` against `has` and `lookup`
abbrev pub val_of : Option MapElem → Option ℕ
val_of none = none
val_of (some me) = some me.val

pub find_elem_lem : (k : Key) (b : Bucket) → val_of (find_elem k b) ≡ lookup k b
unfolding find_elem
find_elem_lem k [] = refl
find_elem_lem k (me ∷ rest) = ground (arith, find_elem_lem k rest)

pub find_elem-has :
    (k : Key) (b : Bucket)
    → ((find_elem k b ≡ none) × (has k b ≡ false))
      ⊎ ((me : MapElem) × (find_elem k b ≡ some me) × (has k b ≡ true))
unfolding find_elem
find_elem-has k [] = inl (refl, refl)
find_elem-has k (me ∷ rest) = elim (Bool-cases (key_eq k me.key)) [
  | inl hit ↦ rw hit (inr (me, refl, refl))
  | inr miss ↦ rw miss (find_elem-has k rest)
]
