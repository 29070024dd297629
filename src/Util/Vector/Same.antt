-- ===== src/Util/Vector/Same.antt =====
-- The two sorts of a vector give the same values.
use cs.Base.{
  ℕ, zero, suc, ◌<◌, ◌≡◌, sym, ap, ◌∙◌, arith, Bool, Bool-cases, inl, inr, true, false, ◌==◌,
}
use cs.Util.Vector.{Vector, vector_insertion_sort, vector_selection_sort}
use cs.Util.Vector.Cells.{IsValid, at}
use cs.Util.Vector.Sort.{count, Sorted, vector_insertion_sort-Sorted}
use cs.Util.Vector.Selection.{vector_selection_sort-Sorted}

occurs : (v : Vector) (x n : ℕ) → 0 < count v x n → (k : ℕ) × (k < n) × (at v k ≡ x)
occurs v x zero h = absurd (omega (arith, h))
occurs v x (suc n) h = elim (Bool-cases (at v n == x)) [
  | inl e ↦ (n, omega arith, ground (arith, e))
  | inr e ↦ let k = occurs v x n (ground (arith, e, h)) in (k.0, omega (arith, k.1), k.2)
]

module _ (comp : ℕ → ℕ → Bool) (total : (a b : ℕ) → comp a b ≡ false → comp b a ≡ true)
    (trans : (a b c : ℕ) → comp a b ≡ true → comp b c ≡ true → comp a c ≡ true)
    (antisym : (a b : ℕ) → comp a b ≡ true → comp b a ≡ true → a ≡ b) where
  -- A value that occurs among the first `n` values in order is not after the last of them.
  before_last :
      (v : Vector) (x n : ℕ)
      → Sorted comp v (suc n)
      → 0 < count v x (suc n)
      → comp x (at v n) ≡ true
  before_last v x n sorted h =
      let k = occurs v x (suc n) h in
      let same : comp x (at v n) ≡ comp (at v k.0) (at v n) =
        ap (λ (y : ℕ). comp y (at v n)) (sym k.2) in
      same ∙ elim (Bool-cases (k.0 == n)) [
        | inl e ↦
            let here : k.0 ≡ n = ground (arith, e) in
            rw here (elim (Bool-cases (comp (at v n) (at v n))) [
              | inl r ↦ r
              | inr r ↦ total (at v n) (at v n) r
            ])
        | inr e ↦ sorted k.0 n (ground (arith, e, k.1)) (omega arith)
      ]

  last_counts : (v : Vector) (n : ℕ) → 0 < count v (at v n) (suc n)
  last_counts v n = ground arith

  same_values :
      (n : ℕ) (v w : Vector)
      → Sorted comp v n
      → Sorted comp w n
      → ((x : ℕ) → count v x n ≡ count w x n)
      → (k : ℕ) → k < n
      → at v k ≡ at w k
  same_values zero v w sv sw same k h = absurd (omega (arith, h))
  same_values (suc n) v w sv sw same k h =
      let last : at v n ≡ at w n =
        antisym (at v n) (at w n)
          (before_last w (at v n) n sw (omega (arith, same (at v n), last_counts v n)))
          (before_last v (at w n) n sv (omega (arith, same (at w n), last_counts w n))) in
      elim (Bool-cases (k == n)) [
        | inl e ↦ let here : k ≡ n = ground (arith, e) in rw here last
        | inr e ↦
            same_values n v w (λ a b p q. sv a b p (omega (arith, q)))
              (λ a b p q. sw a b p (omega (arith, q))) (λ x. ground (arith, same x, last)) k
              (ground (arith, e, h))
      ]

  -- With a comparator that is total, transitive and antisymmetric, `vector_selection_sort` and
  -- `vector_insertion_sort` of a well-formed vector leave the same values in the same order.
  pub vector_selection_sort-vector_insertion_sort :
      (v : Vector)
      → IsValid v
      → (k : ℕ) → k < v.size
      → at (vector_selection_sort v comp) k ≡ at (vector_insertion_sort v comp) k
  vector_selection_sort-vector_insertion_sort v ok k h =
      let one = vector_selection_sort-Sorted comp total trans v ok in
      let two = vector_insertion_sort-Sorted comp total trans v ok in
      same_values v.size (vector_selection_sort v comp) (vector_insertion_sort v comp) one.1 two.1
        (λ x. one.2 x ∙ sym (two.2 x)) k h
