-- ===== src/Minix/Zone/Walk.antt =====
-- The zones that are left of a file, in order, and that get_next_zone takes the first of them.
use cs.Base.{
  ◌⊎◌, inl, inr, ℕ, zero, suc, ◌+◌, ◌-◌, ◌/◌, ◌%◌, ◌^◌, ◌<◌, ◌≤◌, ◌≡◌, refl, sym, ap, ◌∙◌, arith,
  Bool, Bool-cases, true, false, List, [], ◌∷◌, ◌++◌, Option, none, some, ◌==◌, if◌then◌else◌,
  ◌>>=◌,
}
use cs.Base.Lists.{length, get_or, drop, take, length-drop}
use cs.Block.{Device, Buffer}
use cs.Minix.{Fs}
use cs.Minix.Zone.{
  Descriptor, minus_one, zone_tindir, words, scan, next_double, read_pointers, double_from,
}

unfoldable pub nonzero : List ℕ → List ℕ
nonzero [] = []
nonzero (p ∷ ps) = let rest = nonzero ps in if p == 0 then rest else p ∷ rest

drop-nil : (n : ℕ) → drop {A = ℕ} n [] ≡ []
drop-nil zero = refl
drop-nil (suc n) = refl

pub drop_all : (n : ℕ) (xs : List ℕ) → length xs ≤ n → drop n xs ≡ []
drop_all zero [] h = refl
drop_all zero (x ∷ xs) h = absurd (omega (arith, h))
drop_all (suc n) [] h = refl
drop_all (suc n) (x ∷ xs) h = drop_all n xs (omega (arith, h))

pub drop-drop : (a b : ℕ) (xs : List ℕ) → drop a (drop b xs) ≡ drop (b + a) xs
drop-drop a zero xs = ap (λ (n : ℕ). drop n xs) (omega arith)
drop-drop a (suc b) [] = drop-nil a ∙ sym (drop-nil (suc b + a))
drop-drop a (suc b) (x ∷ xs) =
    let e : suc b + a ≡ suc (b + a) = omega arith in
    drop-drop a b xs ∙ sym (ap (λ (n : ℕ). drop n (x ∷ xs)) e)

get_or-drop : (i j : ℕ) (xs : List ℕ) → i ≤ j → get_or (drop i xs) (j - i) 0 ≡ get_or xs j 0
get_or-drop zero j xs h = let same : j - 0 ≡ j = omega arith in rw same refl
get_or-drop (suc i) j [] h = refl
get_or-drop (suc i) zero (x ∷ xs) h = absurd (omega arith)
get_or-drop (suc i) (suc j) (x ∷ xs) h =
    let same : suc j - suc i ≡ j - i = omega arith in rw same (get_or-drop i j xs (omega arith))

pub get_or-take : (n j : ℕ) (xs : List ℕ) → j < n → get_or (take n xs) j 0 ≡ get_or xs j 0
get_or-take zero j xs h = absurd (omega arith)
get_or-take (suc n) j [] h = refl
get_or-take (suc n) zero (x ∷ xs) h = refl
get_or-take (suc n) (suc j) (x ∷ xs) h = get_or-take n j xs (omega arith)

-- A pointer that the rest of an array from index `j` on begins with.
pub drop-cons :
    (j : ℕ) (xs : List ℕ) (p : ℕ) (ps : List ℕ)
    → drop j xs ≡ p ∷ ps
    → (get_or xs j 0 ≡ p) × (j < length xs)
drop-cons zero [] p ps h = absurd (ground (arith, h))
drop-cons zero (x ∷ xs) p ps h = (ap (λ (l : List ℕ). get_or l 0 0) h, omega arith)
drop-cons (suc j) [] p ps h = absurd (ground (arith, h))
drop-cons (suc j) (x ∷ xs) p ps h = let r = drop-cons j xs p ps h in (r.0, omega (arith, r.1))

-- What `scan` finds in the pointers `ps` from index `i` on.
record Found (i : ℕ) (ps : List ℕ) (j z : ℕ) : Type 0 where
  at : scan i ps ≡ some (j, z)
  rest : nonzero ps ≡ z ∷ nonzero (drop (j + 1 - i) ps)
  value : get_or ps (j - i) 0 ≡ z
  from : i ≤ j
  below : j < i + length ps

scan-cases :
    (i : ℕ) (ps : List ℕ)
    → ((scan i ps ≡ none) × (nonzero ps ≡ [])) ⊎ ((j : ℕ) × (z : ℕ) × Found i ps j z)
unfolding scan nonzero length
scan-cases i [] = inl (refl, refl)
scan-cases i (p ∷ ps) = elim (Bool-cases (p == 0)) [
  | inl e ↦ elim (scan-cases (i + 1) ps) [
    | inl n ↦ inl (rw e n.0, rw e n.1)
    | inr f ↦
        let g = f.2 in
        let shift : f.0 + 1 - i ≡ suc (f.0 + 1 - (i + 1)) = omega (arith, g.from) in
        let back : f.0 - i ≡ suc (f.0 - (i + 1)) = omega (arith, g.from) in
        inr (
          f.0,
          f.1,
          record {
            at = rw e g.at;
            rest = rw (e, shift) g.rest;
            value = rw back g.value;
            from = omega (arith, g.from);
            below = omega (arith, g.below);
          },
        )
  ]
  | inr e ↦
      let one : i + 1 - i ≡ 1 = omega arith in
      let here : i - i ≡ 0 = omega arith in
      inr (
        i,
        p,
        record {
          at = rw e refl;
          rest = rw (e, one) refl;
          value = rw here refl;
          from = omega arith;
          below = omega arith;
        },
      )
]

-- The same in an array of pointers.
pub record Scanned (i : ℕ) (ps : List ℕ) (j z : ℕ) : Type 0 where
  pub at : scan i (drop i ps) ≡ some (j, z)
  pub rest : nonzero (drop i ps) ≡ z ∷ nonzero (drop (j + 1) ps)
  pub value : get_or ps j 0 ≡ z
  pub below : j < length ps

pub scan_array :
    (i : ℕ) (ps : List ℕ)
    → ((scan i (drop i ps) ≡ none) × (nonzero (drop i ps) ≡ []))
      ⊎ ((j : ℕ) × (z : ℕ) × Scanned i ps j z)
scan_array i ps = elim (scan-cases i (drop i ps)) [
  | inl n ↦ inl n
  | inr f ↦
      let g = f.2 in
      let whole : i + (f.0 + 1 - i) ≡ f.0 + 1 = omega (arith, g.from) in
      inr (
        f.0,
        f.1,
        record {
          at = g.at;
          rest =
              g.rest
              ∙ ap (λ (t : List ℕ). f.1 ∷ nonzero t)
                  (drop-drop (f.0 + 1 - i) i ps ∙ ap (λ (n : ℕ). drop n ps) whole);
          value = sym (get_or-drop i f.0 ps g.from) ∙ g.value;
          below = omega (arith, g.from, g.below, length-drop i ps);
        },
      )
]

-- The zones behind doubly indirect pointers, the first of them from index `k` on.
unfoldable pub double_zones : (ℕ → List ℕ) → List ℕ → ℕ → List ℕ
double_zones ptrs [] k = []
double_zones ptrs (p ∷ ps) k =
    let skip = double_zones ptrs ps k in
    let later = double_zones ptrs ps 0 in
    if p == 0 then skip else nonzero (drop k (ptrs p)) ++ later

-- What the loops over the doubly indirect pointers `table` find where zones `left` are left.
pub record Deeper (ptrs : ℕ → List ℕ) (table : List ℕ) (fd : Descriptor)
    (r : Option (Bool × Descriptor)) (left : List ℕ) : Type 0 where
  pub j : ℕ
  pub k : ℕ
  pub z : ℕ
  pub zs : List ℕ
  pub first : left ≡ z ∷ zs
  pub result : r ≡ some (true, record fd { index1 = j; index2 = k; fp_block_offset = z })
  pub rest : double_zones ptrs (drop j table) ((k + 1) % 2 ^ 32) ≡ zs
  pub in_table : j < length table
  pub value : get_or (ptrs (get_or table j 0)) k 0 ≡ z
  pub below : k < 2 ^ 32 - 1

abbrev pub Doubles :
    (ℕ → List ℕ) → List ℕ → Descriptor → Option (Bool × Descriptor) → List ℕ → Type 0
Doubles ptrs table fd r left =
    ((left ≡ [])
      × (r
          ≡ some (
            false,
            record fd { index0 = zone_tindir; index1 = 0; index2 = 0; index3 = minus_one },
          )))
    ⊎ Deeper ptrs table fd r left

pub length-words : (n : ℕ) (buf : Buffer) (i : ℕ) → length (words n buf i) ≡ n
unfolding words
length-words zero buf i = refl
length-words (suc n) buf i = omega (arith, length-words n buf (i + 1))

-- Every pointer zone can be read: its words are `ptrs`.
pub record Pointers {Disk : Type 0} (dev : Device Disk) (fs : Fs Disk) (ptrs : ℕ → List ℕ)
    : Type 0 where
  pub reads : (z : ℕ) → read_pointers dev fs z ≡ some (ptrs z)
  pub whole : (z : ℕ) → length (ptrs z) ≡ fs.block_size / 4
  pub short : (z : ℕ) → length (ptrs z) < 2 ^ 32

module _ {Disk : Type 0} (dev : Device Disk) (fs : Fs Disk) (ptrs : ℕ → List ℕ)
    (ok : Pointers dev fs ptrs) where
  pub double_from-Doubles :
      (table : List ℕ) (j : ℕ) (ps : List ℕ) (fd : Descriptor)
      → drop j table ≡ ps
      → Doubles ptrs table fd
          (double_from dev fs j ps fd)
          (double_zones ptrs ps ((fd.index2 + 1) % 2 ^ 32))
  unfolding double_from double_zones next_double ◌>>=◌
  double_from-Doubles table j [] fd h = inl (refl, refl)
  double_from-Doubles table j (p ∷ ps) fd h =
      let step : drop (j + 1) table ≡ ps = sym (drop-drop 1 j table) ∙ ap (drop 1) h in
      elim (Bool-cases (p == 0)) [
        | inl e ↦ elim (double_from-Doubles table (j + 1) ps (record fd { index1 = j }) step) [
          | inl n ↦ inl (rw e n.0, rw e n.1)
          | inr f ↦ inr (record {
            j = f.j;
            k = f.k;
            z = f.z;
            zs = f.zs;
            first = rw e f.first;
            result = rw e f.result;
            rest = f.rest;
            in_table = f.in_table;
            value = f.value;
            below = f.below;
          })
        ]
        | inr e ↦ elim (scan_array ((fd.index2 + 1) % 2 ^ 32) (ptrs p)) [
          | inl none_here ↦
              elim (double_from-Doubles table (j + 1) ps
                (record fd { index1 = j; index2 = minus_one }) step) [
                  | inl n ↦ inl (rw (e, none_here.1) n.0, rw (e, ok.reads p, none_here.0) n.1)
                  | inr f ↦ inr (record {
                    j = f.j;
                    k = f.k;
                    z = f.z;
                    zs = f.zs;
                    first = rw (e, none_here.1) f.first;
                    result = rw (e, ok.reads p, none_here.0) f.result;
                    rest = f.rest;
                    in_table = f.in_table;
                    value = f.value;
                    below = f.below;
                  })
                ]
          | inr f ↦
              let g = f.2 in
              let at : (f.0 + 1) % 2 ^ 32 ≡ f.0 + 1 = omega (arith, g.below, ok.short p) in
              let here = drop-cons j table p ps h in
              inr (record {
                j = j;
                k = f.0;
                z = f.1;
                zs = nonzero (drop (f.0 + 1) (ptrs p)) ++ double_zones ptrs ps 0;
                first = rw (e, g.rest) refl;
                result = rw (e, ok.reads p, g.at) refl;
                rest = rw (h, at, e) refl;
                in_table = here.1;
                value = rw here.0 g.value;
                below = omega (arith, g.below, ok.short p);
              })
        ]
      ]
