-- ===== src/Util/Vector/Selection.antt =====
-- `vector_selection_sort` with a total and transitive comparator.
use cs.Base.{
  ℕ, zero, suc, ◌+◌, ◌-◌, ◌≤◌, ◌<◌, ◌≡◌, ◌≢◌, refl, sym, ap, ◌∙◌, arith, Bool, Bool-cases, inl, inr,
  true, false, ◌==◌, if◌then◌else◌,
}
use cs.Util.Vector.{
  Vector, vector_get_unchecked, vector_set, min_from, exchange, select_from, vector_selection_sort,
}
use cs.Util.Vector.Cells.{IsValid, SameShape, at, vector_get_unchecked_at, vector_set_at}
use cs.Util.Vector.Sort.{count, count-congr, Sorted}

-- What changing one cell does to the number of times a value stands there.
count-change :
    (v w : Vector) (x i n : ℕ)
    → i < n
    → ((j : ℕ) → j ≢ i → at w j ≡ at v j)
    → count w x n + (if at v i == x then 1 else 0) ≡ count v x n + (if at w i == x then 1 else 0)
count-change v w x i zero h same = absurd (omega (arith, h))
count-change v w x i (suc n) h same = elim (Bool-cases (i == n)) [
  | inl e ↦
      let here : i ≡ n = ground (arith, e) in
      let before = count-congr v w x n (λ j q. same j (λ z. omega (arith, q, z, here))) in
      rw (here, before) (omega arith)
  | inr e ↦
      let rest = count-change v w x i n (ground (arith, e, h)) same in
      let last : at w n ≡ at v n = same n (λ z. ground (arith, e, z)) in
      rw last (omega (arith, rest))
]

exchange_at :
    (v : Vector) (i m : ℕ)
    → IsValid v
    → i < v.size
    → m < v.size
    → SameShape v (exchange v i m)
      × ((k : ℕ)
          → at (exchange v i m) k ≡ (if k == m then at v i else if k == i then at v m else at v k))
      × ((x : ℕ) → count (exchange v i m) x v.size ≡ count v x v.size)
unfolding exchange
exchange_at v i m ok hi hm =
    let one = vector_set_at v i (vector_get_unchecked v m) ok hi in
    let u = (vector_set v i (vector_get_unchecked v m)).1 in
    let two =
      vector_set_at u m (vector_get_unchecked v i) one.0.valid (omega (arith, one.0.size, hm)) in
    let w = (vector_set u m (vector_get_unchecked v i)).1 in
    let left = vector_get_unchecked_at v i hi in
    let right = vector_get_unchecked_at v m hm in
    (
      record {
        valid = two.0.valid;
        size = two.0.size ∙ one.0.size;
        capacity = two.0.capacity ∙ one.0.capacity;
      },
      λ k. ground (arith, two.1 k, one.1 k, left, right),
      λ x. ground (
        arith,
        count-change v u x i v.size hi (λ j ne. ground (arith, one.1 j, ne)),
        count-change u w x m v.size hm (λ j ne. ground (arith, two.1 j, ne)),
        one.1 i,
        one.1 m,
        two.1 m,
        left,
        right,
      ),
    )

module _ (comp : ℕ → ℕ → Bool) where
  -- The first `i` values are in order, before all that come after them.
  abbrev pub Selected : Vector → ℕ → Type 0
  Selected v i = (a b : ℕ) → a < b → a < i → b < v.size → comp (at v a) (at v b) ≡ true

  abbrev pub Least : Vector → ℕ → ℕ → ℕ → Type 0
  Least v i j m = (x : ℕ) → i ≤ x → x < j → comp (at v m) (at v x) ≡ true

module _ (comp : ℕ → ℕ → Bool) (total : (a b : ℕ) → comp a b ≡ false → comp b a ≡ true)
    (trans : (a b c : ℕ) → comp a b ≡ true → comp b c ≡ true → comp a c ≡ true) where
  reflexive : (a : ℕ) → comp a a ≡ true
  reflexive a = elim (Bool-cases (comp a a)) [ inl e ↦ e | inr e ↦ total a a e ]

  Least-next :
      (v : Vector) (i j m : ℕ)
      → i ≤ m
      → m < j
      → Least comp v i j m
      → (r : ℕ) × (r ≡ (if comp (at v m) (at v j) then m else j))
        × (i ≤ r)
        × (r < j + 1)
        × Least comp v i (j + 1) r
  Least-next v i j m low below least = elim (Bool-cases (comp (at v m) (at v j))) [
    | inl e ↦ (
      m,
      rw e refl,
      low,
      omega (arith, below),
      λ x p q. elim (Bool-cases (x == j)) [
        | inl s ↦ let here : x ≡ j = ground (arith, s) in rw here e
        | inr s ↦ least x p (ground (arith, s, q))
      ],
    )
    | inr e ↦ (
      j,
      rw e refl,
      omega (arith, low, below),
      omega arith,
      λ x p q. elim (Bool-cases (x == j)) [
        | inl s ↦ let here : x ≡ j = ground (arith, s) in rw here (reflexive (at v j))
        | inr s ↦
            trans (at v j) (at v m) (at v x) (total (at v m) (at v j) e)
              (least x p (ground (arith, s, q)))
      ],
    )
  ]

  min_from-Least :
      (k j m : ℕ) (v : Vector) (i : ℕ)
      → j + k ≤ v.size
      → i ≤ m
      → m < j
      → Least comp v i j m
      → (i ≤ min_from comp v k j m)
        × (min_from comp v k j m < j + k)
        × Least comp v i (j + k) (min_from comp v k j m)
  unfolding min_from
  min_from-Least zero j m v i fits low below least =
      (low, omega (arith, below), λ x p q. least x p (omega (arith, q)))
  min_from-Least (suc k) j m v i fits low below least =
      let left = vector_get_unchecked_at v m (omega (arith, below, fits)) in
      let right = vector_get_unchecked_at v j (omega (arith, fits)) in
      let n = Least-next v i j m low below least in
      let rest = min_from-Least k (j + 1) n.0 v i (omega (arith, fits)) n.2 n.3 n.4 in
      rw (left, right)
        (rw⁻¹ n.1 (rest.0, omega (arith, rest.1), λ x p q. rest.2 x p (omega (arith, q))))

  exchange-Selected :
      (v : Vector) (i m : ℕ)
      → IsValid v
      → i ≤ m
      → m < v.size
      → Least comp v i v.size m
      → Selected comp v i
      → Selected comp (exchange v i m) (i + 1)
  exchange-Selected v i m ok low fits least done a b p q r =
      let w = exchange_at v i m ok (omega (arith, low, fits)) fits in
      let inside : b < v.size = omega (arith, r, w.0.size) in
      ground (
        arith,
        w.1 a,
        w.1 b,
        low,
        fits,
        inside,
        p,
        q,
        done a i,
        done a m,
        done a b,
        least i,
        least b,
      )

  select_from-Selected :
      (k i : ℕ) (v : Vector)
      → IsValid v
      → i + k ≡ v.size
      → Selected comp v i
      → SameShape v (select_from comp k i v)
        × Selected comp (select_from comp k i v) (i + k)
        × ((x : ℕ) → count (select_from comp k i v) x v.size ≡ count v x v.size)
  unfolding select_from
  select_from-Selected zero i v ok whole done =
      let same : i + 0 ≡ i = omega arith in
      (record { valid = ok; size = refl; capacity = refl }, rw same done, λ x. refl)
  select_from-Selected (suc k) i v ok whole done =
      let m = min_from comp v (v.size - (i + 1)) (i + 1) i in
      let found =
        min_from-Least (v.size - (i + 1)) (i + 1) i v i (omega (arith, whole)) (omega arith)
          (omega arith)
          (λ x p q. let here : x ≡ i = omega (arith, p, q) in rw here (reflexive (at v i))) in
      let end : i + 1 + (v.size - (i + 1)) ≡ v.size = omega (arith, whole) in
      let fits : m < v.size = omega (arith, found.1, end) in
      let one = exchange_at v i m ok (omega (arith, whole)) fits in
      let next =
        exchange-Selected v i m ok found.0 fits (λ x p q. found.2 x p (omega (arith, q, end)))
          done in
      let rest =
        select_from-Selected k (i + 1) (exchange v i m) one.0.valid
          (omega (arith, whole, one.0.size)) next in
      let sum : i + suc k ≡ i + 1 + k = omega arith in
      (
        record {
          valid = rest.0.valid;
          size = rest.0.size ∙ one.0.size;
          capacity = rest.0.capacity ∙ one.0.capacity;
        },
        rw sum rest.1,
        λ x.
            ap (count (select_from comp k (i + 1) (exchange v i m)) x) (sym one.0.size)
            ∙ rest.2 x
            ∙ ap (count (exchange v i m) x) one.0.size
            ∙ one.2 x,
      )

  -- With a comparator that is total and transitive, `vector_selection_sort` of a well-formed vector
  -- leaves a well-formed vector of the same size in which every two values stand in the order of
  -- the comparator, and each value as often as before.
  pub vector_selection_sort-Sorted :
      (v : Vector)
      → IsValid v
      → SameShape v (vector_selection_sort v comp)
        × Sorted comp (vector_selection_sort v comp) v.size
        × ((x : ℕ) → count (vector_selection_sort v comp) x v.size ≡ count v x v.size)
  unfolding vector_selection_sort
  vector_selection_sort-Sorted v ok =
      let all =
        select_from-Selected v.size 0 v ok (omega arith) (λ a b p q r. absurd (omega arith)) in
      (all.0, λ a b p q. all.1 a b p (omega (arith, p, q)) (omega (arith, q, all.0.size)), all.2)
