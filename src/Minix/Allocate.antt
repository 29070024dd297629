-- ===== src/Minix/Allocate.antt =====
-- find_next_inode and find_next_datazone.
use mathlib.Core.Path.{subst}
use cs.Base.{
  ◌≢◌, ◌⊎◌, inl, inr, ℕ, zero, suc, ◌+◌, ◌-◌, ◌^◌, ◌<◌, ◌≤◌, ◌≡◌, refl, ◌∙◌, arith, Bool,
  Bool-cases, if◌then◌else◌, ◌>>=◌, true, false, ◌||◌, Option, none, some, ◌==◌,
}
use cs.Block.{Device, Buffer}
use cs.Util.Mem.Copy.{IsBytes}
use cs.Minix.{Fs, bitmap_taken, bitmap_set, first_free, take_zone, find_next_datazone, write_zmap}
use cs.Minix.Bitmap.{bitmap_taken-set, bitmap_set-IsBytes}

-- The first free element of those from `i` to `i + k - 1`.
pub record FirstFree (bitmap : Buffer) (i k e : ℕ) : Type 0 where
  pub from : i ≤ e
  pub below : e < i + k
  pub free : bitmap_taken bitmap e ≡ false
  pub first : (x : ℕ) → i ≤ x → x < e → bitmap_taken bitmap x ≡ true

abbrev pub AllTaken : Buffer → ℕ → ℕ → Type 0
AllTaken bitmap i k = (x : ℕ) → i ≤ x → x < i + k → bitmap_taken bitmap x ≡ true

pub first_free-cases :
    (k : ℕ) (bitmap : Buffer) (i : ℕ)
    → ((first_free k bitmap i ≡ none) × AllTaken bitmap i k)
      ⊎ ((e : ℕ) × (first_free k bitmap i ≡ some e) × FirstFree bitmap i k e)
unfolding first_free
first_free-cases zero bitmap i = inl (refl, λ x a b. absurd (omega arith))
first_free-cases (suc k) bitmap i = elim (Bool-cases (bitmap_taken bitmap i)) [
  | inl t ↦ elim (first_free-cases k bitmap (i + 1)) [
    | inl n ↦ inl (
      rw t n.0,
      λ x a b. elim (Bool-cases (x == i)) [
        | inl same ↦ let here : x ≡ i = ground arith in rw here t
        | inr other ↦ n.1 x (ground arith) (omega arith)
      ],
    )
    | inr f ↦ inr (
      f.0,
      rw t f.1,
      record {
        from = omega (arith, f.2.from);
        below = omega (arith, f.2.below);
        free = f.2.free;
        first = λ x a b. elim (Bool-cases (x == i)) [
          | inl same ↦ let here : x ≡ i = ground arith in rw here t
          | inr other ↦ f.2.first x (ground arith) b
        ];
      },
    )
  ]
  | inr t ↦ inr (
    i,
    rw t refl,
    record {
      from = omega arith;
      below = omega arith;
      free = t;
      first = λ x a b. absurd (omega arith);
    },
  )
]

-- The bitmap with one element more.
abbrev pub Takes : Buffer → Buffer → ℕ → Type 0
Takes old new e = (x : ℕ) → 0 < x → x < 2 ^ 32 → bitmap_taken new x ≡ (x == e || bitmap_taken old x)

Takes-set :
    (bitmap : Buffer) (e : ℕ)
    → IsBytes bitmap
    → 0 < e
    → e < 2 ^ 32
    → Takes bitmap (bitmap_set bitmap e) e
Takes-set bitmap e b pos fits x h k = ground (arith, bitmap_taken-set bitmap e x b pos fits h k)

module _ {Disk : Type 0} (dev : Device Disk) where
  -- What `find_next_datazone` returns where it does: a zone that was free, the first such, and not zone 0.
  pub record DataZone (fs : Fs Disk) (z : ℕ) (fs' : Fs Disk) : Type 0 where
    pub zone : FirstFree fs.zmap_allocd 1 fs.num_zones (z + 1)
    pub positive : 0 < z
    pub takes : Takes fs.zmap_allocd fs'.zmap_allocd (z + 1)
    pub bytes : IsBytes fs'.zmap_allocd
    pub kept : fs'.num_zones ≡ fs.num_zones

  Outcome : Fs Disk → Option (ℕ × Fs Disk) → Type 0
  Outcome fs none = ℕ
  Outcome fs (some r) = DataZone fs r.0 r.1

  write-Outcome :
      (fs : Fs Disk) (e : ℕ) (o : Option (Bool × Disk))
      → IsBytes fs.zmap_allocd
      → fs.num_zones + 1 < 2 ^ 32
      → bitmap_taken fs.zmap_allocd 1 ≡ true
      → FirstFree fs.zmap_allocd 1 fs.num_zones e
      → Outcome fs (
          (o >>= (λ w. some (record fs { zmap_allocd = bitmap_set fs.zmap_allocd e; disk = w.1 })))
          >>= (λ fs'. if e - 1 == 0 then none else some (e - 1, fs')))
  unfolding Outcome ◌>>=◌
  write-Outcome fs e none b fits zero_taken f = 0
  write-Outcome fs e (some w) b fits zero_taken f =
      let not_one : e ≢ 1 = λ i. ground (arith, f.free, zero_taken, i) in
      let back : e - 1 + 1 ≡ e = omega (arith, f.from) in
      let positive : 0 < e - 1 = omega (arith, f.from, not_one) in
      let off : e - 1 == 0 ≡ false = ground (arith, positive) in
      rw off (record {
        zone = rw back f;
        positive = positive;
        takes =
            rw back (Takes-set fs.zmap_allocd e b (omega (arith, f.from)) (omega (arith, f.below)));
        bytes = bitmap_set-IsBytes fs.zmap_allocd e b;
        kept = refl;
      })

  find_next_datazone-Outcome :
      (fs : Fs Disk)
      → IsBytes fs.zmap_allocd
      → fs.num_zones + 1 < 2 ^ 32
      → bitmap_taken fs.zmap_allocd 1 ≡ true
      → Outcome fs (find_next_datazone dev fs)
  unfolding Outcome find_next_datazone take_zone write_zmap
  find_next_datazone-Outcome fs b fits zero_taken =
      elim (first_free-cases fs.num_zones fs.zmap_allocd 1) [
        | inl n ↦ rw n.0 0
        | inr f ↦ rw f.1 (write-Outcome fs f.0 _ b fits zero_taken f.2)
      ]

  -- A call that returns has found a free zone.
  pub find_next_datazone-inv :
      (fs : Fs Disk) (z : ℕ) (fs' : Fs Disk)
      → IsBytes fs.zmap_allocd
      → fs.num_zones + 1 < 2 ^ 32
      → bitmap_taken fs.zmap_allocd 1 ≡ true
      → find_next_datazone dev fs ≡ some (z, fs')
      → DataZone fs z fs'
  unfolding Outcome
  find_next_datazone-inv fs z fs' b fits zero_taken run =
      subst (Outcome fs) run (find_next_datazone-Outcome fs b fits zero_taken)

  -- Two calls of `find_next_datazone` in a row that both return give different zones, neither of them 0, over a
  -- bitmap of fewer than 2^32 - 1 zones whose zone 0 is taken.
  pub find_next_datazone_distinct :
      (fs fs1 fs2 : Fs Disk) (z1 z2 : ℕ)
      → IsBytes fs.zmap_allocd
      → fs.num_zones + 1 < 2 ^ 32
      → bitmap_taken fs.zmap_allocd 1 ≡ true
      → find_next_datazone dev fs ≡ some (z1, fs1)
      → find_next_datazone dev fs1 ≡ some (z2, fs2)
      → (z1 ≢ z2) × (0 < z1) × (0 < z2) × (bitmap_taken fs.zmap_allocd (z2 + 1) ≡ false)
  find_next_datazone_distinct fs fs1 fs2 z1 z2 b fits zero_taken run1 run2 =
      let one = find_next_datazone-inv fs z1 fs1 b fits zero_taken run1 in
      let zero1 : bitmap_taken fs1.zmap_allocd 1 ≡ true =
        one.takes 1 (omega arith) (omega arith) ∙ ground (arith, zero_taken) in
      let two = find_next_datazone-inv fs1 z2 fs2 one.bytes (omega (arith, one.kept)) zero1 run2 in
      let low : z2 + 1 < 2 ^ 32 = omega (arith, two.zone.below, one.kept) in
      let was : bitmap_taken fs1.zmap_allocd (z2 + 1)
          ≡ (z2 + 1 == z1 + 1 || bitmap_taken fs.zmap_allocd (z2 + 1)) =
        one.takes (z2 + 1) (omega arith) low in
      (
        λ i. ground (arith, two.zone.free, was, i),
        one.positive,
        two.positive,
        ground (arith, two.zone.free, was),
      )
