-- ===== src/Util/Vector/Sort.antt =====
-- `vector_insertion_sort` with a total and transitive comparator: the values come out in order, and
-- each as often as before.
use cs.Base.{
  ℕ, zero, suc, ◌+◌, ◌-◌, ◌≤◌, ◌<◌, ◌≡◌, ◌≢◌, refl, sym, ap, ◌∙◌, arith, Bool, Bool-cases, inl, inr,
  true, false, leb, ◌==◌, if◌then◌else◌,
}
use cs.Util.Vector.{
  Vector, vector_get_unchecked, vector_set, swap_down, sink, sort_from, vector_insertion_sort,
}
use cs.Util.Vector.Cells.{IsValid, SameShape, at, vector_get_unchecked_at, vector_set_at}

-- how often a value stands among the first `n` cells
abbrev pub count : Vector → ℕ → ℕ → ℕ
count v x zero = 0
count v x (suc n) = count v x n + (if at v n == x then 1 else 0)

pub count-congr :
    (v w : Vector) (x n : ℕ) → ((j : ℕ) → j < n → at w j ≡ at v j) → count w x n ≡ count v x n
count-congr v w x zero same = refl
count-congr v w x (suc n) same =
    rw (count-congr v w x n (λ j h. same j (omega arith)), same n (omega arith)) refl

swap_down_at :
    (v : Vector) (j : ℕ)
    → IsValid v
    → j + 1 < v.size
    → SameShape v (swap_down v j)
      × ((k : ℕ)
          → at (swap_down v j) k
            ≡ (if k == j then at v (j + 1) else if k == j + 1 then at v j else at v k))
unfolding swap_down
swap_down_at v j ok h =
    let left = vector_get_unchecked_at v j (omega arith) in
    let right = vector_get_unchecked_at v (j + 1) h in
    let one = vector_set_at v (j + 1) (vector_get_unchecked v j) ok h in
    let w = (vector_set v (j + 1) (vector_get_unchecked v j)).1 in
    let two =
      vector_set_at w j (vector_get_unchecked v (j + 1)) one.0.valid (omega (arith, one.0.size)) in
    (
      record {
        valid = two.0.valid;
        size = two.0.size ∙ one.0.size;
        capacity = two.0.capacity ∙ one.0.capacity;
      },
      λ k. ground (arith, two.1 k, one.1 k, left, right),
    )

count-swap :
    (v : Vector) (x j n : ℕ)
    → IsValid v
    → j + 1 < v.size
    → j + 1 < n
    → count (swap_down v j) x n ≡ count v x n
count-swap v x j zero ok h p = absurd (omega arith)
count-swap v x j (suc zero) ok h p = absurd (omega arith)
count-swap v x j (suc (suc n)) ok h p = elim (Bool-cases (j == n)) [
  | inl last ↦ ground (
    arith,
    (swap_down_at v j ok h).1 n,
    (swap_down_at v j ok h).1 (suc n),
    count-congr v (swap_down v j) x n (λ k q. ground (arith, (swap_down_at v j ok h).1 k)),
  )
  | inr before ↦
      ground
        (arith, (swap_down_at v j ok h).1 (suc n), count-swap v x j (suc n) ok h (ground arith))
]

module _ (comp : ℕ → ℕ → Bool) where
  -- the first `n` cells in order, where the cell `j` may be out of order with those before it
  abbrev SortedBut : Vector → ℕ → ℕ → Type 0
  SortedBut v n j = (a b : ℕ) → a < b → b < n → b ≢ j → comp (at v a) (at v b) ≡ true

  abbrev pub Sorted : Vector → ℕ → Type 0
  Sorted v n = (a b : ℕ) → a < b → b < n → comp (at v a) (at v b) ≡ true

module _ (comp : ℕ → ℕ → Bool) (total : (a b : ℕ) → comp a b ≡ false → comp b a ≡ true)
    (trans : (a b c : ℕ) → comp a b ≡ true → comp b c ≡ true → comp a c ≡ true) where
  swap-SortedBut :
      (v : Vector) (j n : ℕ)
      → IsValid v
      → j + 1 < v.size
      → SortedBut comp v n (j + 1)
      → comp (at v j) (at v (j + 1)) ≡ false
      → SortedBut comp (swap_down v j) n j
  swap-SortedBut v j n ok h sorted out a b p q ne = ground (
    arith,
    (swap_down_at v j ok h).1 a,
    (swap_down_at v j ok h).1 b,
    sorted a j,
    sorted a b,
    sorted j b,
    sorted (j + 1) b,
    total (at v j) (at v (j + 1)),
  )

  sink-Sorted :
      (j n : ℕ) (v : Vector)
      → IsValid v
      → j < n
      → n ≤ v.size
      → SortedBut comp v n j
      → SameShape v (sink comp j v)
        × Sorted comp (sink comp j v) n
        × ((x : ℕ) → count (sink comp j v) x v.size ≡ count v x v.size)
  unfolding sink
  sink-Sorted zero n v ok low fits sorted = (
    record { valid = ok; size = refl; capacity = refl },
    λ a b p q. sorted a b p q (λ e. omega arith),
    λ x. refl,
  )
  sink-Sorted (suc j) n v ok low fits sorted = elim (Bool-cases (comp (at v j) (at v (j + 1)))) [
    | inl done ↦
        rw (left, right, done)
          (record { valid = ok; size = refl; capacity = refl }, settled done, λ x. refl)
    | inr out ↦
        let s = swap_down_at v j ok room in
        let rest =
          sink-Sorted j n (swap_down v j) s.0.valid (omega arith) (omega (arith, s.0.size))
            (swap-SortedBut v j n ok room (again j) out) in
        rw (left, right, out)
          (
            record {
              valid = rest.0.valid;
              size = rest.0.size ∙ s.0.size;
              capacity = rest.0.capacity ∙ s.0.capacity;
            },
            rest.1,
            λ x.
                ap (count (sink comp j (swap_down v j)) x) (sym s.0.size)
                ∙ rest.2 x
                ∙ ap (count (swap_down v j) x) s.0.size
                ∙ count-swap v x j v.size ok room room,
          )
  ]
    where
      room : j + 1 < v.size
      room = omega arith

      left : vector_get_unchecked v j ≡ at v j
      left = vector_get_unchecked_at v j (omega arith)

      right : vector_get_unchecked v (j + 1) ≡ at v (j + 1)
      right = vector_get_unchecked_at v (j + 1) room

      again : (j' : ℕ) → SortedBut comp v n (j + 1)
      again j' a b p q ne = sorted a b p q (λ e. ne (omega arith))

      settled : comp (at v j) (at v (j + 1)) ≡ true → Sorted comp v n
      settled done a b p q = elim (Bool-cases (b == j + 1)) [
        | inl here ↦
            let e : b ≡ j + 1 = ground arith in
            rw e (elim (Bool-cases (a == j)) [
              | inl next ↦ let e' : a ≡ j = ground arith in rw e' done
              | inr far ↦
                  trans (at v a) (at v j) (at v (j + 1))
                    (sorted a j (ground arith) (omega arith) (λ z. omega arith)) done
            ])
        | inr away ↦ sorted a b p q (λ z. ground arith)
      ]

  sort_from-Sorted :
      (k i : ℕ) (v : Vector)
      → IsValid v
      → 0 < i
      → i + k ≤ v.size
      → Sorted comp v i
      → SameShape v (sort_from comp k i v)
        × Sorted comp (sort_from comp k i v) (i + k)
        × ((x : ℕ) → count (sort_from comp k i v) x v.size ≡ count v x v.size)
  unfolding sort_from
  sort_from-Sorted zero i v ok pos fits sorted = (
    record { valid = ok; size = refl; capacity = refl },
    λ a b p q. sorted a b p (omega arith),
    λ x. refl,
  )
  sort_from-Sorted (suc k) i v ok pos fits sorted =
      let one =
        sink-Sorted i (i + 1) v ok (omega arith) (omega arith)
          (λ a b p q ne. sorted a b p (omega arith)) in
      let rest =
        sort_from-Sorted k (i + 1) (sink comp i v) one.0.valid (omega arith)
          (omega (arith, one.0.size)) one.1 in
      (
        record {
          valid = rest.0.valid;
          size = rest.0.size ∙ one.0.size;
          capacity = rest.0.capacity ∙ one.0.capacity;
        },
        λ a b p q. rest.1 a b p (omega arith),
        λ x.
            ap (count (sort_from comp k (i + 1) (sink comp i v)) x) (sym one.0.size)
            ∙ rest.2 x
            ∙ ap (count (sink comp i v) x) one.0.size
            ∙ one.2 x,
      )

  -- With a comparator that is total and transitive, `vector_insertion_sort` of a well-formed vector
  -- leaves a well-formed vector of the same size in which every two values stand in the order of
  -- the comparator, and each value as often as before.
  pub vector_insertion_sort-Sorted :
      (v : Vector)
      → IsValid v
      → SameShape v (vector_insertion_sort v comp)
        × Sorted comp (vector_insertion_sort v comp) v.size
        × ((x : ℕ) → count (vector_insertion_sort v comp) x v.size ≡ count v x v.size)
  unfolding vector_insertion_sort sort_from
  vector_insertion_sort-Sorted v ok = elim (Bool-cases (leb v.size 1)) [
    | inl short ↦
        let none_left : v.size - 1 ≡ 0 = ground arith in
        rw (vector_insertion_sort, none_left)
          (
            record { valid = ok; size = refl; capacity = refl },
            λ a b p q. absurd (ground arith),
            λ x. refl,
          )
    | inr long ↦
        let all =
          sort_from-Sorted (v.size - 1) 1 v ok (omega arith) (ground arith)
            (λ a b p q. absurd (omega arith)) in
        (all.0, λ a b p q. all.1 a b p (ground arith), all.2)
  ]
