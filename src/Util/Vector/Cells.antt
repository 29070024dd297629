-- ===== src/Util/Vector/Cells.antt =====
-- The cells of a vector after each loop of its operations.
use cs.Base.{
  ℕ, zero, suc, ◌+◌, ◌-◌, ◌≤◌, ◌<◌, ◌≡◌, refl, ◌∙◌, arith, false, ◌&&◌, List, ltb, leb, ◌==◌,
  if◌then◌else◌,
}
use cs.Base.Lists.{length, get_or, set, replicate, length-set, length-replicate}
use cs.Base.Cells.{get_or-set, get_or-replicate}
use cs.Util.Vector.{
  Vector, vector_get_unchecked, vector_set, copy_values, moved_to, shift_up, shift_down,
}

abbrev pub at : Vector → ℕ → ℕ
at v i = get_or v.values i 0

-- The array has `capacity` cells and the values fit it.
pub record IsValid (v : Vector) : Type 0 where
  pub whole : length v.values ≡ v.capacity
  pub fits : v.size ≤ v.capacity

-- A loop that keeps the size and the capacity.
pub record SameShape (v w : Vector) : Type 0 where
  pub valid : IsValid w
  pub size : w.size ≡ v.size
  pub capacity : w.capacity ≡ v.capacity

pub vector_get_unchecked_at : (v : Vector) (i : ℕ) → i < v.size → vector_get_unchecked v i ≡ at v i
unfolding vector_get_unchecked
vector_get_unchecked_at v i h = ground arith

pub vector_set_at :
    (v : Vector) (i x : ℕ)
    → IsValid v
    → i < v.size
    → SameShape v (vector_set v i x).1
      × ((j : ℕ) → at (vector_set v i x).1 j ≡ (if j == i then x else at v j))
unfolding vector_set
vector_set_at v i x ok h =
    let inside : leb v.size i ≡ false = ground arith in
    rw inside (
      record {
        valid = record { whole = length-set v.values i x ∙ ok.whole; fits = ok.fits };
        size = refl;
        capacity = refl;
      },
      λ j. get_or-set v.values i j x (omega (arith, ok.whole, ok.fits)),
    )

copy_values_at :
    (old : List ℕ) (k i : ℕ) (vals : List ℕ)
    → i + k ≤ length vals
    → (length (copy_values old k i vals) ≡ length vals)
      × ((j : ℕ)
          → get_or (copy_values old k i vals) j 0
            ≡ (if leb i j && ltb j (i + k) then get_or old j 0 else get_or vals j 0))
unfolding copy_values
copy_values_at old zero i vals h = (refl, λ j. ground arith)
copy_values_at old (suc k) i vals h =
    let v = set vals i (get_or old i 0) in
    let same = length-set vals i (get_or old i 0) in
    let rest = copy_values_at old k (i + 1) v (omega arith) in
    (
      rest.0 ∙ same,
      λ j. ground (arith, rest.1 j, get_or-set vals i j (get_or old i 0) (omega arith)),
    )

pub moved_to_at :
    (v : Vector) (n cap : ℕ)
    → n ≤ cap
    → IsValid (moved_to v n cap)
      × ((j : ℕ) → at (moved_to v n cap) j ≡ (if ltb j n then at v j else 0))
unfolding moved_to
moved_to_at v n cap h =
    let loop =
      copy_values_at v.values n 0 (replicate cap 0)
        (omega (arith, length-replicate {A = ℕ} cap 0)) in
    (
      record { whole = loop.0 ∙ length-replicate {A = ℕ} cap 0; fits = h },
      λ j. ground (arith, loop.1 j, get_or-replicate cap j),
    )

pub shift_up_at :
    (idx k : ℕ) (v : Vector)
    → IsValid v
    → idx + k < v.size
    → SameShape v (shift_up idx k v)
      × ((j : ℕ)
          → at (shift_up idx k v) j
            ≡ (if ltb idx j && leb j (idx + k) then at v (j - 1) else at v j))
unfolding shift_up
shift_up_at idx zero v ok h =
    (record { valid = ok; size = refl; capacity = refl }, λ j. ground arith)
shift_up_at idx (suc k) v ok h =
    let set_one = vector_set_at v (idx + suc k) (vector_get_unchecked v (idx + k)) ok h in
    let rest =
      shift_up_at idx k (vector_set v (idx + suc k) (vector_get_unchecked v (idx + k))).1
        set_one.0.valid (omega (arith, set_one.0.size)) in
    (
      record {
        valid = rest.0.valid;
        size = rest.0.size ∙ set_one.0.size;
        capacity = rest.0.capacity ∙ set_one.0.capacity;
      },
      λ j.
          ground
            (arith, rest.1 j, set_one.1 j, set_one.1 (j - 1), vector_get_unchecked_at v (idx + k)),
    )

pub shift_down_at :
    (k idx : ℕ) (vals : List ℕ)
    → idx + k ≤ length vals
    → (length (shift_down k idx vals) ≡ length vals)
      × ((j : ℕ)
          → get_or (shift_down k idx vals) j 0
            ≡ (if leb idx j && ltb j (idx + k) then get_or vals (j + 1) 0 else get_or vals j 0))
unfolding shift_down
shift_down_at zero idx vals h = (refl, λ j. ground arith)
shift_down_at (suc k) idx vals h =
    let v = get_or vals (idx + 1) 0 in
    let rest = shift_down_at k (idx + 1) (set vals idx v) (omega (arith, length-set vals idx v)) in
    (
      rest.0 ∙ length-set vals idx v,
      λ j. ground (
        arith,
        rest.1 j,
        get_or-set vals idx j v (omega arith),
        get_or-set vals idx (j + 1) v (omega arith),
      ),
    )
