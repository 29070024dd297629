-- ===== src/Util/Str/Compare.antt =====
-- strncmp against the comparison byte by byte.
use cs.Base.{
  ℕ, zero, suc, ◌+◌, ◌-◌, ◌*◌, ◌/◌, ◌%◌, ◌≤◌, ◌<◌, ◌≡◌, ◌≢◌, ◌↔◌, refl, arith, Bool, Bool-cases,
  inl, inr, ◌⊎◌, true, false, ltb, some, ◌==◌, if◌then◌else◌,
}
use native.Mathlib.Nat.{add-zero}
use cs.Memory.{Memory}
use cs.Util.Str.{stops, bytes_from, fours_from, strncmp, same_from, strstartswith, strendswith}
use cs.Util.Str.Length.{IsString, strlen_lem}

fours_from_lem :
    (k n total : ℕ) (m : Memory) (l r : ℕ) (c : ℕ × ℕ)
    → total ≡ k * 4 + n
    → fours_from k n m l r c ≡ bytes_from total m l r c
unfolding fours_from bytes_from
fours_from_lem zero n total m l r c e = let e' : total ≡ n = omega arith in rw e' refl
fours_from_lem (suc k) n total m l r c e =
    let e' : total ≡ suc (suc (suc (suc (k * 4 + n)))) = omega arith in
    rw
      (
        e',
        fours_from_lem k n (k * 4 + n) m (l + 1 + 1 + 1 + 1) (r + 1 + 1 + 1 + 1)
            (m (l + 1 + 1 + 1), m (r + 1 + 1 + 1)) refl,
      )
      refl

-- The loop of `strncmp` over four bytes a round gives the same as its loop byte by byte over all
-- `n` bytes.
pub strncmp_lem : (m : Memory) (l r n : ℕ) → strncmp m l r n ≡ bytes_from n m l r (0, 0)
unfolding strncmp
strncmp_lem m l r n = fours_from_lem (n / 4) (n % 4) n m l r (0, 0) (omega arith)

-- The bytes agree up to the end of the left string, and not past `n` bytes.
abbrev pub Agree : Memory → ℕ → ℕ → ℕ → Type 0
Agree m l r n = (k : ℕ) → k < n → ((i : ℕ) → i < k → m (l + i) ≢ 0) → m (l + k) ≡ m (r + k)

add-shift : (a k : ℕ) → a + 1 + k ≡ a + suc k
add-shift a k = omega arith

same_from_iff :
    (k : ℕ) (m : Memory) (src part : ℕ)
    → (same_from k m src part ≡ true) ↔ ((i : ℕ) → i < k → m (src + i) ≡ m (part + i))
unfolding same_from
same_from_iff zero m src part = (λ z i h. absurd (omega arith), λ z. refl)
same_from_iff (suc k) m src part =
    let rest = same_from_iff k m (src + 1) (part + 1) in
    elim (Bool-cases (m src == m part)) [
      | inr differ ↦ rw differ (
        λ z. absurd (ground arith),
        λ same. absurd (ground (arith, rw (add-zero src, add-zero part) at (same 0 (omega arith)))),
      )
      | inl first ↦ rw first (
        λ z. cons (ground arith) (rest.0 z),
        λ same. rest.1 (λ i h. rw (add-shift src i, add-shift part i) (same (suc i) (omega arith))),
      )
    ]
  where
    cons :
        m src ≡ m part
        → ((i : ℕ) → i < k → m (src + 1 + i) ≡ m (part + 1 + i))
        → (i : ℕ) → i < suc k
        → m (src + i) ≡ m (part + i)
    cons e rest zero h = rw (add-zero src, add-zero part) e
    cons e rest (suc i) h = rw (← add-shift src i, ← add-shift part i) (rest i (omega arith))

module _ (fuel : ℕ) (m : Memory) (src part a b : ℕ) (s : IsString m src a) (p : IsString m part b)
    (more : a < fuel) (more' : b < fuel) where
  affix :
      (at : ℕ)
      → ((if ltb a b then false else same_from b m at part) ≡ true)
        ↔ ((b ≤ a) × ((i : ℕ) → i < b → m (at + i) ≡ m (part + i)))
  affix at = elim (Bool-cases (ltb a b)) [
    | inl short ↦ rw short (λ z. absurd (ground arith), λ z. absurd (ground (arith, z.0)))
    | inr long ↦ rw long (
      λ z. (ground arith, (same_from_iff b m at part).0 z),
      λ z. (same_from_iff b m at part).1 z.1,
    )
  ]

  -- On strings of lengths `a` and `b`, with fuel for both, `strstartswith` returns, and it returns
  -- true exactly when the second is not longer and its bytes are the first of the first.
  pub strstartswith_iff :
      (t : Bool) × (strstartswith fuel m src part ≡ some t)
      × ((t ≡ true) ↔ ((b ≤ a) × ((i : ℕ) → i < b → m (src + i) ≡ m (part + i))))
  unfolding strstartswith
  strstartswith_iff =
      rw (strlen_lem fuel m src a s more, strlen_lem fuel m part b p more') (_, refl, affix src)

  -- On strings of lengths `a` and `b`, with fuel for both, `strendswith` returns, and it returns
  -- true exactly when the second is not longer and its bytes are the last of the first.
  pub strendswith_iff :
      (t : Bool) × (strendswith fuel m src part ≡ some t)
      × ((t ≡ true) ↔ ((b ≤ a) × ((i : ℕ) → i < b → m (src + (a - b) + i) ≡ m (part + i))))
  unfolding strendswith
  strendswith_iff =
      rw (strlen_lem fuel m src a s more, strlen_lem fuel m part b p more')
        (_, refl, affix (src + (a - b)))

Agree-tail : (m : Memory) (l r n : ℕ) → m l ≢ 0 → Agree m l r (suc n) → Agree m (l + 1) (r + 1) n
Agree-tail m l r n ne agree k h inner =
    rw (add-shift l k, add-shift r k) (agree (suc k) (omega arith) before)
  where
    before : (i : ℕ) → i < suc k → m (l + i) ≢ 0
    before zero p = rw (add-zero l) ne
    before (suc i) p = rw (← add-shift l i) (inner i (omega arith))

Agree-cons :
    (m : Memory) (l r n : ℕ)
    → m l ≡ m r
    → (m l ≡ 0) ⊎ Agree m (l + 1) (r + 1) n
    → Agree m l r (suc n)
Agree-cons m l r n e rest zero h inner = rw (add-zero l, add-zero r) e
Agree-cons m l r n e (inl z) (suc k) h inner = absurd (inner 0 (omega arith) (rw (add-zero l) z))
Agree-cons m l r n e (inr rest) (suc k) h inner =
    rw (← add-shift l k, ← add-shift r k)
      (rest k (omega arith) (λ i p. rw (add-shift l i) (inner (suc i) (omega arith))))

bytes_from_iff :
    (n : ℕ) (m : Memory) (l r : ℕ) (c : ℕ × ℕ)
    → c.0 ≡ c.1
    → ((bytes_from n m l r c).0 ≡ (bytes_from n m l r c).1) ↔ Agree m l r n
unfolding bytes_from
bytes_from_iff zero m l r c e = (λ z k h. absurd (omega arith), λ z. e)
bytes_from_iff (suc n) m l r c e = elim (Bool-cases (m l == m r)) [
  | inr differ ↦
      let stop : stops m l r ≡ true = ground arith in
      rw stop (
        λ z. absurd (ground arith),
        λ agree.
            rw (add-zero l, add-zero r) at (agree 0 (omega arith) (λ i h. absurd (omega arith))),
      )
  | inl same ↦ elim (Bool-cases (m l == 0)) [
    | inl ends ↦
        let stop : stops m l r ≡ true = ground arith in
        rw stop (λ z. Agree-cons m l r n (ground arith) (inl (ground arith)), λ agree. ground arith)
    | inr on ↦
        let go : stops m l r ≡ false = ground arith in
        let rest = bytes_from_iff n m (l + 1) (r + 1) (m l, m r) (ground arith) in
        rw go (
          λ z. Agree-cons m l r n (ground arith) (inr (rest.0 z)),
          λ agree. rest.1 (Agree-tail m l r n (ground arith) agree),
        )
  ]
]

-- The value that `strncmp` returns is zero exactly when the first `n` bytes agree, up to the end of
-- the left string.
pub strncmp_iff :
    (m : Memory) (l r n : ℕ)
    → ((strncmp m l r n).0 ≡ (strncmp m l r n).1)
      ↔ ((k : ℕ) → k < n → ((i : ℕ) → i < k → m (l + i) ≢ 0) → m (l + k) ≡ m (r + k))
strncmp_iff m l r n = rw (strncmp_lem m l r n) (bytes_from_iff n m l r (0, 0) refl)
