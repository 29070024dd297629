-- ===== src/Kmalloc/Cover.antt =====
-- How often an address is covered by the blocks of a list, through each operation on the lists.
use cs.Base.{
  ℕ, suc, ◌+◌, ◌^◌, ◌≤◌, ◌<◌, ◌≡◌, refl, ap, ◌∙◌, arith, Bool, Bool-cases, inl, inr, true, false,
  ◌&&◌, ◌||◌, List, [], ◌∷◌, ◌++◌, Option, none, some, ltb, leb, ◌==◌, if◌then◌else◌,
}
use cs.Base.Lists.{length}
use cs.Kmalloc.{Block, add64, insert_block, compact_from, compact, take_first}

-- 1 where the address lies between the bounds, else 0
abbrev pub between : ℕ → ℕ → ℕ → ℕ
between a e x = if leb a x && ltb x e then 1 else 0

abbrev pub covers : List Block → ℕ → ℕ
covers [] x = 0
covers (b ∷ bs) x = between b.addr (b.addr + b.size) x + covers bs x

-- A block that is not empty and ends below 2^64.
abbrev pub FitsOne : Block → Type 0
FitsOne b = (0 < b.size) × (b.addr + b.size < 2 ^ 64)

abbrev pub Fits : List Block → Type 0
Fits [] = Unit {0}
Fits (b ∷ bs) = FitsOne b × Fits bs

-- The blocks `bs` are `b` and the blocks `others`, in which `b` is left out of its place.
pub record Split (bs : List Block) (b : Block) (others : List Block) : Type 0 where
  pub before : List Block
  pub after : List Block
  pub whole : bs ≡ before ++ b ∷ after
  pub rest : others ≡ before ++ after
  pub cover : (x : ℕ) → covers bs x ≡ between b.addr (b.addr + b.size) x + covers others x
  pub count : length bs ≡ suc (length others)
  pub fits : Fits bs → FitsOne b × Fits others

Split-cons :
    (p b : Block) (bs others : List Block) → Split bs b others → Split (p ∷ bs) b (p ∷ others)
Split-cons p b bs others s = record {
  before = p ∷ s.before;
  after = s.after;
  whole = ap (λ (l : List Block). p ∷ l) s.whole;
  rest = ap (λ (l : List Block). p ∷ l) s.rest;
  cover = λ x. omega (arith, s.cover x);
  count = ap suc s.count;
  fits = λ f. let g = s.fits f.1 in (g.0, (f.0, g.1));
}

insert_block_split :
    (b : Block) (bs : List Block)
    → ((x : ℕ) → covers (insert_block b bs) x ≡ between b.addr (b.addr + b.size) x + covers bs x)
      × (length (insert_block b bs) ≡ suc (length bs))
      × (FitsOne b → Fits bs → Fits (insert_block b bs))
unfolding insert_block
insert_block_split b [] = (λ x. refl, refl, λ f g. (f, g))
insert_block_split b (p ∷ rest) =
    let later = insert_block_split b rest in
    elim (Bool-cases (leb b.addr p.addr)) [
      | inl here ↦ rw here (λ x. refl, refl, λ f g. (f, g))
      | inr past ↦
          rw past (λ x. omega (arith, later.0 x), ap suc later.1, λ f g. (g.0, later.2 f g.1))
    ]

-- The list from `ptr` on after the loops of `compact`, where the blocks from `ptr` to `prev` are
-- adjacent.
pub record Compacted (ptr prev : Block) (rest : List Block) (out : List Block × ℕ) : Type 0 where
  pub cover : (x : ℕ) → covers out.0 x ≡ between ptr.addr (prev.addr + prev.size) x + covers rest x
  pub count : length out.0 + out.1 ≡ suc (length rest)
  pub fits : Fits out.0

compact_from_lem :
    (ptr prev : Block) (rest : List Block)
    → ptr.addr ≤ prev.addr
    → FitsOne prev
    → Fits rest
    → Compacted ptr prev rest (compact_from ptr prev rest)
unfolding compact_from
compact_from_lem ptr prev [] low f g = record {
  cover = λ x. ground arith;
  count = refl;
  fits = ((omega arith, omega arith), tt);
}
compact_from_lem ptr prev (scan ∷ rest) low f g =
    let next = compact_from_lem scan scan rest (omega arith) g.0 g.1 in
    elim (Bool-cases (add64 prev.addr prev.size == scan.addr)) [
      | inl adjacent ↦
          let join = compact_from_lem ptr scan rest (ground arith) g.0 g.1 in
          rw adjacent (record {
            cover = λ x. ground (arith, join.cover x);
            count = omega (arith, join.count);
            fits = join.fits;
          })
      | inr apart ↦ rw apart (record {
        cover = λ x. ground (arith, next.cover x);
        count = omega (arith, next.count);
        fits = ((omega arith, omega arith), next.fits);
      })
    ]

compact_lem :
    (bs : List Block)
    → Fits bs
    → ((x : ℕ) → covers (compact bs).0 x ≡ covers bs x)
      × (length (compact bs).0 + (compact bs).1 ≡ length bs)
      × Fits (compact bs).0
unfolding compact
compact_lem [] f = (λ x. refl, refl, tt)
compact_lem (p ∷ rest) f =
    let c = compact_from_lem p p rest (omega arith) f.0 f.1 in (c.cover, c.count, c.fits)

abbrev pub any : (Block → Bool) → List Block → Bool
any test [] = false
any test (b ∷ bs) = test b || any test bs

-- What `take_first` finds: no block that passes, or one that does, split from the others.
abbrev pub Found : (Block → Bool) → List Block → Option (Block × List Block) → Type 0
Found test bs none = any test bs ≡ false
Found test bs (some (b, others)) = (test b ≡ true) × Split bs b others

Found-cons :
    (test : Block → Bool) (p : Block) (rest : List Block) (o : Option (Block × List Block))
    → test p ≡ false
    → Found test rest o
    → Found test (p ∷ rest) (elim o [ none ↦ none | some (b, others) ↦ some (b, p ∷ others) ])
Found-cons test p rest none fails f = rw fails f
Found-cons test p rest (some (b, others)) fails f = (f.0, Split-cons p b rest others f.1)

pub take_first-Found : (test : Block → Bool) (bs : List Block) → Found test bs (take_first test bs)
unfolding take_first
take_first-Found test [] = refl
take_first-Found test (p ∷ rest) = elim (Bool-cases (test p)) [
  | inl passes ↦ rw passes (
    passes,
    record {
      before = [];
      after = rest;
      whole = refl;
      rest = refl;
      cover = λ x. refl;
      count = refl;
      fits = λ f. f;
    },
  )
  | inr fails ↦
      rw fails (Found-cons test p rest (take_first test rest) fails (take_first-Found test rest))
]

-- The free list after a block is given back.
pub compact_insert_lem :
    (b : Block) (bs : List Block)
    → FitsOne b
    → Fits bs
    → ((x : ℕ)
        → covers (compact (insert_block b bs)).0 x
          ≡ between b.addr (b.addr + b.size) x + covers bs x)
      × (length (compact (insert_block b bs)).0 + (compact (insert_block b bs)).1 ≡ suc (length bs))
      × Fits (compact (insert_block b bs)).0
compact_insert_lem b bs f g =
    let ins = insert_block_split b bs in
    let all = compact_lem (insert_block b bs) (ins.2 f g) in
    (λ x. all.0 x ∙ ins.0 x, all.1 ∙ ins.1, all.2)
