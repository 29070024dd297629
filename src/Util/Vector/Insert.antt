-- ===== src/Util/Vector/Insert.antt =====
-- Growing, shrinking, inserting and removing, seen through `vector_get`.
use cs.Base.{
  ℕ, zero, suc, ◌+◌, ◌-◌, ◌%◌, ◌^◌, ◌≤◌, ◌<◌, ◌≡◌, refl, ap, ◌∙◌, arith, Bool-cases, inl, inr, true,
  false, ◌&&◌, none, some, ltb, leb, ◌==◌, if◌then◌else◌,
}
use cs.Util.Vector.{
  Vector, vector_get, vector_set, moved_to, vector_resize, vector_reserve, fill_from, shift_up,
  shift_down, vector_insert, vector_push, vector_remove, vector_resize_with_default, vector_size,
}
use cs.Util.Vector.Cells.{
  IsValid, SameShape, at, vector_set_at, moved_to_at, shift_up_at, shift_down_at,
}

-- The value a vector gives at `j`, from its cell.
vector_get_at :
    (v : Vector) (j : ℕ) → vector_get v j ≡ (if leb v.size j then none else some (at v j))
unfolding vector_get
vector_get_at v j = refl

-- A vector whose cells are known below its size.
record Cells (v : Vector) (size : ℕ) (f : ℕ → ℕ) : Type 0 where
  valid : IsValid v
  sized : v.size ≡ size
  cell : (j : ℕ) → j < size → at v j ≡ f j

resize-Cells :
    (v : Vector) (n : ℕ)
    → IsValid v
    → Cells (vector_resize v n) n (λ j. if ltb v.capacity n && leb v.size j then 0 else at v j)
unfolding vector_resize moved_to
resize-Cells v n ok = elim (Bool-cases (ltb v.capacity n)) [
  | inl grow ↦
      let m = moved_to_at v v.size n (ground (arith, ok.fits)) in
      rw grow (record {
        valid = record { whole = m.0.whole; fits = omega arith };
        sized = refl;
        cell = λ j h. ground (arith, m.1 j);
      })
  | inr keep ↦ rw keep (record {
    valid = record { whole = ok.whole; fits = ground arith };
    sized = refl;
    cell = λ j h. refl;
  })
]

-- `vector_resize` keeps the values below both sizes and the well-formedness of the array.
pub vector_resize-IsValid :
    (v : Vector) (n : ℕ)
    → IsValid v
    → IsValid (vector_resize v n)
      × (vector_size (vector_resize v n) ≡ n)
      × ((j : ℕ) → j < v.size → j < n → vector_get (vector_resize v n) j ≡ vector_get v j)
unfolding vector_size
vector_resize-IsValid v n ok =
    let c = resize-Cells v n ok in
    (
      c.valid,
      c.sized,
      λ j h h'.
          ground (arith, c.sized, c.cell j, vector_get_at (vector_resize v n) j, vector_get_at v j),
    )

-- On a well-formed vector that holds fewer than 2^32 - 1 values, inserting at an index up to the
-- size keeps the values before it, puts the value there and moves the others up by one; the vector
-- stays well formed.
pub vector_insert-get :
    (v : Vector) (idx x : ℕ)
    → IsValid v
    → idx ≤ v.size
    → v.size + 1 < 2 ^ 32
    → IsValid (vector_insert v idx x)
      × (vector_size (vector_insert v idx x) ≡ v.size + 1)
      × ((j : ℕ)
          → vector_get (vector_insert v idx x) j ≡ (
              if ltb j idx
              then vector_get v j
              else if j == idx
              then some x
              else vector_get v (j - 1)))
unfolding vector_insert vector_size
vector_insert-get v idx x ok low small =
    let n : (v.size + 1) % 2 ^ 32 ≡ v.size + 1 = omega arith in
    let c = resize-Cells v (v.size + 1) ok in
    let w = vector_resize v (v.size + 1) in
    let up = shift_up_at idx (w.size - 1 - idx) w c.valid (omega (arith, c.sized)) in
    let put =
      vector_set_at (shift_up idx (w.size - 1 - idx) w) idx x up.0.valid
        (omega (arith, up.0.size, c.sized)) in
    rw (vector_insert, n)
      (
        put.0.valid,
        put.0.size ∙ up.0.size ∙ c.sized,
        λ j. ground (
          arith,
          vector_get_at (vector_set (shift_up idx (w.size - 1 - idx) w) idx x).1 j,
          put.1 j,
          put.0.size,
          up.0.size,
          up.1 j,
          c.sized,
          c.cell j,
          c.cell (j - 1),
          vector_get_at v j,
          vector_get_at v (j - 1),
        ),
      )

-- On a well-formed vector, removing the index of a value returns true, keeps the values before it
-- and moves the others down by one; the vector stays well formed. At any other index the call
-- returns false and changes nothing.
pub vector_remove-get :
    (v : Vector) (idx : ℕ)
    → IsValid v
    → ((vector_remove v idx).0 ≡ ltb idx v.size)
      × IsValid (vector_remove v idx).1
      × ((j : ℕ)
          → vector_get (vector_remove v idx).1 j ≡ (
              if ltb j idx
              then vector_get v j
              else if ltb idx v.size
              then vector_get v (j + 1)
              else vector_get v j))
unfolding vector_remove
vector_remove-get v idx ok = elim (Bool-cases (leb v.size idx)) [
  | inl outside ↦
      let e : ltb idx v.size ≡ false = ground arith in rw (outside, e) (refl, ok, λ j. ground arith)
  | inr inside ↦
      let e : ltb idx v.size ≡ true = ground arith in
      let down =
        shift_down_at (v.size - 1 - idx) idx v.values (ground (arith, ok.whole, ok.fits)) in
      rw (inside, e)
        (
          refl,
          record { whole = down.0 ∙ ok.whole; fits = omega (arith, ok.fits) },
          λ j. ground (
            arith,
            down.1 j,
            vector_get_at v j,
            vector_get_at v (j + 1),
            vector_get_at
                (record {
                  size = v.size - 1;
                  capacity = v.capacity;
                  values = shift_down (v.size - 1 - idx) idx v.values;
                })
                j,
          ),
        )
]

-- On a well-formed vector that holds fewer than 2^32 - 1 values, inserting at an index up to the
-- size and removing that index leaves the same values.
pub vector_remove-insert :
    (v : Vector) (idx x j : ℕ)
    → IsValid v
    → idx ≤ v.size
    → v.size + 1 < 2 ^ 32
    → vector_get (vector_remove (vector_insert v idx x) idx).1 j ≡ vector_get v j
unfolding vector_size
vector_remove-insert v idx x j ok low small =
    let ins = vector_insert-get v idx x ok low small in
    let same : j + 1 - 1 ≡ j = omega arith in
    let rem = vector_remove-get (vector_insert v idx x) idx ins.0 in
    ground (arith, rem.2 j, ins.1, ins.2 j, ins.2 (j + 1), ap (vector_get v) same)

-- Pushing onto a well-formed vector that holds fewer than 2^32 - 1 values puts the value behind
-- the others.
pub vector_push-get :
    (v : Vector) (x : ℕ)
    → IsValid v
    → v.size + 1 < 2 ^ 32
    → IsValid (vector_push v x)
      × ((j : ℕ)
          → vector_get (vector_push v x) j ≡ (if j == v.size then some x else vector_get v j))
unfolding vector_push
vector_push-get v x ok small =
    let ins = vector_insert-get v v.size x ok (omega arith) small in
    (ins.0, λ j. ground (arith, ins.2 j, vector_get_at v j, vector_get_at v (j - 1)))

-- Reserving a positive capacity on a well-formed vector gives the array that capacity, and keeps
-- the values below it; reserving 0 changes nothing. The vector stays well formed.
pub vector_reserve-get :
    (v : Vector) (n : ℕ)
    → IsValid v
    → IsValid (vector_reserve v n)
      × ((vector_reserve v n).capacity ≡ (if ltb 0 n then n else v.capacity))
      × ((j : ℕ)
          → vector_get (vector_reserve v n) j
            ≡ (if ltb 0 n && leb n j then none else vector_get v j))
unfolding vector_reserve moved_to
vector_reserve-get v n ok = elim (Bool-cases (ltb v.capacity n)) [
  | inl grow ↦
      let m = moved_to_at v v.size n (ground (arith, ok.fits)) in
      rw grow (
        m.0,
        ground arith,
        λ j.
            ground
              (arith, m.1 j, ok.fits, vector_get_at v j, vector_get_at (moved_to v v.size n) j),
      )
  | inr no_grow ↦ elim (Bool-cases (ltb 0 n && ltb n v.capacity)) [
    | inl shrink ↦
        let k = if ltb n v.size then n else v.size in
        let m = moved_to_at v k n (ground arith) in
        rw (no_grow, shrink)
          (
            m.0,
            ground arith,
            λ j.
                ground (arith, m.1 j, ok.fits, vector_get_at v j, vector_get_at (moved_to v k n) j),
          )
    | inr keep ↦
        rw (no_grow, keep) (ok, ground arith, λ j. ground (arith, ok.fits, vector_get_at v j))
  ]
]

fill_from_at :
    (def k i : ℕ) (v : Vector)
    → IsValid v
    → i + k ≤ v.size
    → SameShape v (fill_from def k i v)
      × ((j : ℕ) → at (fill_from def k i v) j ≡ (if leb i j && ltb j (i + k) then def else at v j))
unfolding fill_from
fill_from_at def zero i v ok h =
    (record { valid = ok; size = refl; capacity = refl }, λ j. ground arith)
fill_from_at def (suc k) i v ok h =
    let put = vector_set_at v i def ok (omega arith) in
    let rest =
      fill_from_at def k (i + 1) (vector_set v i def).1 put.0.valid (omega (arith, put.0.size)) in
    (
      record {
        valid = rest.0.valid;
        size = rest.0.size ∙ put.0.size;
        capacity = rest.0.capacity ∙ put.0.capacity;
      },
      λ j. ground (arith, rest.1 j, put.1 j),
    )

-- Resizing a well-formed vector with a default keeps the values below both sizes and gives each
-- new index the default; the vector stays well formed.
pub vector_resize_with_default-get :
    (v : Vector) (n def : ℕ)
    → IsValid v
    → IsValid (vector_resize_with_default v n def)
      × ((j : ℕ)
          → vector_get (vector_resize_with_default v n def) j
            ≡ (if leb n j then none else if ltb j v.size then vector_get v j else some def))
unfolding vector_resize_with_default fill_from
vector_resize_with_default-get v n def ok = elim (Bool-cases (leb v.size n)) [
  | inl more ↦
      let c = resize-Cells v n ok in
      let f =
        fill_from_at def (n - v.size) v.size (vector_resize v n) c.valid
          (ground (arith, c.sized)) in
      (
        f.0.valid,
        λ j. ground (
          arith,
          f.1 j,
          f.0.size,
          c.sized,
          c.cell j,
          vector_get_at v j,
          vector_get_at (fill_from def (n - v.size) v.size (vector_resize v n)) j,
        ),
      )
  | inr fewer ↦
      let c = resize-Cells v n ok in
      let z : n - v.size ≡ 0 = ground arith in
      rw (vector_resize_with_default, z)
        (
          c.valid,
          λ j.
              ground
                (arith, c.sized, c.cell j, vector_get_at v j, vector_get_at (vector_resize v n) j),
        )
]
