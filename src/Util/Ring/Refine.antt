-- ===== src/Util/Ring/Refine.antt =====
-- A well-formed ring is a queue.
use cs.Base.{
  ℕ, zero, suc, ◌+◌, ◌-◌, ◌%◌, ◌≤◌, ◌<◌, ◌≡◌, ◌≢◌, refl, sym, ap, ◌∙◌, arith, Bool-cases, inl, inr,
  true, false, List, [], ◌∷◌, ◌++◌, some, ltb, leb, ◌==◌,
}
use native.Mathlib.Nat.{mod-add-mod, mod-eq_of_lt, mod-lt, mod-eq-sub-mod, mod-mod, add-zero}
use cs.Base.Cells.{get_or-set_same, get_or-set_other}
use cs.Base.Lists.{length, get_or, set, drop, length-set, length-replicate}
use cs.Util.Ring.{
  Ring, ring_new_with_policy, ring_peek, ring_push, ring_pop, ring_size, store_last, drop_oldest,
  push_full,
}
use cs.Util.Ring.Queue.{RingPolicy, overwrite, discard, error, Queue, overflow}
use cs.Util.Ring.Queue

pub record IsValid (rb : Ring) : Type 0 where
  pub inside : rb.at < rb.capacity
  pub bounded : rb.size ≤ rb.capacity
  pub whole : length rb.buffer ≡ rb.capacity

-- the `n` bytes at the places `i`, `i + 1`, … taken round at `cap`
abbrev pub cells : List ℕ → ℕ → ℕ → ℕ → Queue
cells buf cap i zero = []
cells buf cap i (suc n) = get_or buf (i % cap) 0 ∷ cells buf cap (i + 1) n

abbrev pub contents : Ring → Queue
contents rb = cells rb.buffer rb.capacity rb.at rb.size

length-cells : (buf : List ℕ) (cap i n : ℕ) → length (cells buf cap i n) ≡ n
length-cells buf cap i zero = refl
length-cells buf cap i (suc n) = ap suc (length-cells buf cap (i + 1) n)

cells-congr :
    (buf : List ℕ) (cap i j n : ℕ) → i % cap ≡ j % cap → cells buf cap i n ≡ cells buf cap j n
cells-congr buf cap i j zero e = refl
cells-congr buf cap i j (suc n) e =
    rw
      (
        e,
        cells-congr buf cap (i + 1) (j + 1) n
            (sym (mod-add-mod i cap 1) ∙ ap (λ (k : ℕ). (k + 1) % cap) e ∙ mod-add-mod j cap 1),
      )
      refl

-- Fewer than `cap` steps do not come round.
step_apart : (cap a k : ℕ) → a < cap → 0 < k → k < cap → (a + k) % cap ≢ a
step_apart cap a k low p h e = elim (Bool-cases (ltb (a + k) cap)) [
  | inl below ↦ absurd (ground (arith, mod-eq_of_lt {n = a + k} {m = cap}))
  | inr above ↦ absurd (
      ground
        (arith, mod-eq-sub-mod {n = a + k} {m = cap}, mod-eq_of_lt {n = a + k - cap} {m = cap}))
]

no_return : (cap i k : ℕ) → 0 < k → k < cap → (i + k) % cap ≢ i % cap
no_return cap i k p h e =
    step_apart cap (i % cap) k (mod-lt i (omega arith)) p h (mod-add-mod i cap k ∙ e)

-- A byte stored behind the last one.
cells_extend :
    (buf : List ℕ) (cap i n x p : ℕ)
    → length buf ≡ cap
    → n < cap
    → p ≡ (i + n) % cap
    → cells (set buf p x) cap i (suc n) ≡ cells buf cap i n ++ (x ∷ [])
cells_extend buf cap i zero x p w h e =
    let here : p ≡ i % cap = e ∙ ap (λ (k : ℕ). k % cap) (add-zero i) in
    rw (here, get_or-set_same buf (i % cap) x (rw w (mod-lt i (omega arith)))) refl
cells_extend buf cap i (suc n) x p w h e =
    rw (get_or-set_other buf p (i % cap) x (rw e (no_return cap i (suc n) (omega arith) h))) (
      ap (λ (q : Queue). get_or buf (i % cap) 0 ∷ q)
        (cells_extend buf cap (i + 1) n x p w (omega arith)
          (e ∙ ap (λ (k : ℕ). k % cap) (omega arith))))

module _ (rb : Ring) (ok : IsValid rb) where
  -- the oldest byte and the rest
  contents_split :
      (k : ℕ)
      → rb.size ≡ suc k
      → contents rb
        ≡ get_or rb.buffer rb.at 0 ∷ cells rb.buffer rb.capacity ((rb.at + 1) % rb.capacity) k
  contents_split k e =
      rw
        (
          e,
          mod-eq_of_lt ok.inside,
          cells-congr rb.buffer rb.capacity ((rb.at + 1) % rb.capacity) (rb.at + 1) k
              (mod-mod (rb.at + 1) rb.capacity),
        )
        refl

  size_contents : length (contents rb) ≡ rb.size
  size_contents = length-cells rb.buffer rb.capacity rb.at rb.size

-- A well-formed ring of the given capacity and policy that holds the given bytes.
pub record Holds (cap : ℕ) (policy : RingPolicy) (q : Queue) (rb : Ring) : Type 0 where
  pub valid : IsValid rb
  pub capacity : rb.capacity ≡ cap
  pub policed : rb.policy ≡ policy
  pub holds : contents rb ≡ q

store_last-Holds :
    (rb : Ring) (x cap : ℕ) (policy : RingPolicy) (q : Queue)
    → Holds cap policy q rb
    → rb.size < rb.capacity
    → (r : Ring) × (store_last rb x ≡ some (true, r)) × Holds cap policy (q ++ (x ∷ [])) r
unfolding store_last
store_last-Holds rb x cap policy q h room =
    let made : (rb.capacity == 0) ≡ false = ground arith in
    rw made (
      _,
      refl,
      record {
        valid = record {
          inside = h.valid.inside;
          bounded = omega arith;
          whole = length-set rb.buffer ((rb.at + rb.size) % rb.capacity) x ∙ h.valid.whole;
        };
        capacity = h.capacity;
        policed = h.policed;
        holds = rw next (
            cells_extend rb.buffer rb.capacity rb.at rb.size x ((rb.at + rb.size) % rb.capacity)
              h.valid.whole room refl
            ∙ ap (λ (c : Queue). c ++ (x ∷ [])) h.holds);
      },
    )
  where
    next : rb.size + 1 ≡ suc rb.size
    next = omega arith

module _ (rb : Ring) {cap : ℕ} {policy : RingPolicy} {q : Queue} (h : Holds cap policy q rb) where
  rest_holds :
      (k : ℕ)
      → rb.size ≡ suc k
      → (q ≡ get_or rb.buffer rb.at 0 ∷ drop 1 q)
        × (cells rb.buffer rb.capacity ((rb.at + 1) % rb.capacity) k ≡ drop 1 q)
  rest_holds k e =
      let split = sym h.holds ∙ contents_split rb h.valid k e in
      let rest = ap (drop 1) split in
      (split ∙ ap (λ (c : Queue). get_or rb.buffer rb.at 0 ∷ c) (sym rest), sym rest)

  size_holds : rb.size ≡ length q
  size_holds = sym (size_contents rb h.valid) ∙ ap length h.holds

  drop_oldest-Holds : rb.size ≡ rb.capacity → Holds cap policy (drop 1 q) (drop_oldest rb)
  unfolding drop_oldest
  drop_oldest-Holds full = record {
    valid = record {
      inside = mod-lt (rb.at + 1) (omega (arith, h.valid.inside));
      bounded = omega arith;
      whole = h.valid.whole;
    };
    capacity = h.capacity;
    policed = h.policed;
    holds = (rest_holds (rb.capacity - 1) (omega (arith, h.valid.inside))).1;
  }

  oldest_room : (drop_oldest rb).size < (drop_oldest rb).capacity
  unfolding drop_oldest
  oldest_room = omega (arith, h.valid.inside)

push_full_overwrite :
    (rb : Ring) (x : ℕ)
    → rb.policy ≡ overwrite
    → (rb.capacity == 0) ≡ false
    → push_full rb x ≡ store_last (drop_oldest rb) x
unfolding push_full
push_full_overwrite rb x p made = rw (p, made) refl

push_full_kept :
    (rb : Ring) (x : ℕ)
    → ((rb.policy ≡ discard) → push_full rb x ≡ some (true, rb))
      × ((rb.policy ≡ error) → push_full rb x ≡ some (false, rb))
unfolding push_full
push_full_kept rb x = (λ p. rw p refl, λ p. rw p refl)

push_full-Holds :
    (rb : Ring) (x cap : ℕ) (policy : RingPolicy) (q : Queue)
    → Holds cap policy q rb
    → rb.size ≡ rb.capacity
    → (r : Ring) × (push_full rb x ≡ some ((overflow policy q x).0, r))
      × Holds cap policy (overflow policy q x).1 r
push_full-Holds rb x cap overwrite q h full =
    let made : (rb.capacity == 0) ≡ false = ground (arith, h.valid.inside) in
    rw (push_full_overwrite rb x h.policed made) (
      store_last-Holds (drop_oldest rb) x cap overwrite (drop 1 q) (drop_oldest-Holds rb h full)
        (oldest_room rb h))
push_full-Holds rb x cap discard q h full = (rb, (push_full_kept rb x).0 h.policed, h)
push_full-Holds rb x cap error q h full = (rb, (push_full_kept rb x).1 h.policed, h)

module _ (rb : Ring) {cap : ℕ} {policy : RingPolicy} {q : Queue} (h : Holds cap policy q rb) where
  -- On a well-formed ring of capacity `cap` that holds the queue `q`, `ring_push` returns what a
  -- bounded queue with the ring's policy for a byte too many returns, and leaves a well-formed
  -- ring of the same capacity and policy that holds the queue's new contents.
  pub ring_push-Holds :
      (x : ℕ)
      → (r : Ring) × (ring_push rb x ≡ some ((Queue.push cap policy q x).0, r))
        × Holds cap policy (Queue.push cap policy q x).1 r
  unfolding ring_push
  ring_push-Holds x = elim (Bool-cases (ltb rb.size rb.capacity)) [
    | inl low ↦
        let room : leb rb.capacity rb.size ≡ false = ground arith in
        let room' : ltb (length q) cap ≡ true = ground (arith, size_holds rb h, h.capacity) in
        rw (room, room') (store_last-Holds rb x cap policy q h (ground arith))
    | inr high ↦
        let full : leb rb.capacity rb.size ≡ true = ground arith in
        let full' : ltb (length q) cap ≡ false = ground (arith, size_holds rb h, h.capacity) in
        rw (full, full') (push_full-Holds rb x cap policy q h (ground (arith, h.valid.bounded)))
  ]

  -- On a well-formed ring that holds the queue `q`, `ring_pop` returns the first byte of the queue,
  -- or 0 where it is empty, and leaves a well-formed ring that holds the rest.
  pub ring_pop-Holds :
      ((ring_pop rb).0 ≡ (Queue.pop q).0) × Holds cap policy (Queue.pop q).1 (ring_pop rb).1
  unfolding ring_pop
  ring_pop-Holds = elim (Bool-cases (rb.size == 0)) [
    | inl empty ↦ rw empty (none_held q h (size_holds rb h) (ground arith))
    | inr some_left ↦
        let k : rb.size ≡ suc (rb.size - 1) = ground arith in
        rw some_left (
          sym (ap (λ (c : Queue). get_or c 0 0) (rest_holds rb h (rb.size - 1) k).0),
          record {
            valid = record {
              inside = mod-lt (rb.at + 1) (omega (arith, h.valid.inside));
              bounded = omega (arith, h.valid.bounded);
              whole = h.valid.whole;
            };
            capacity = h.capacity;
            policed = h.policed;
            holds = (rest_holds rb h (rb.size - 1) k).1;
          },
        )
  ]
    where
      none_held :
          (q : Queue)
          → Holds cap policy q rb
          → rb.size ≡ length q
          → rb.size ≡ 0
          → (0 ≡ get_or q 0 0) × Holds cap policy (drop 1 q) rb
      none_held [] h e z = (refl, h)
      none_held (y ∷ q) h e z = absurd (omega arith)

  -- On a well-formed ring that holds the queue `q`, `ring_peek` returns the first byte of the
  -- queue, or 0 where it is empty, and `ring_size` the number of its bytes.
  pub ring_peek-Holds : (ring_peek rb ≡ Queue.peek q) × (ring_size rb ≡ length q)
  unfolding ring_peek ring_size
  ring_peek-Holds = elim (Bool-cases (ltb 0 rb.size)) [
    | inl held ↦
        let k : rb.size ≡ suc (rb.size - 1) = ground arith in
        rw held (
          sym (ap (λ (c : Queue). get_or c 0 0) (rest_holds rb h (rb.size - 1) k).0),
          size_holds rb h,
        )
    | inr empty ↦ rw empty (none_held q (size_holds rb h) (ground arith), size_holds rb h)
  ]
    where
      none_held : (q : Queue) → rb.size ≡ length q → rb.size ≡ 0 → 0 ≡ get_or q 0 0
      none_held [] e z = refl
      none_held (y ∷ q) e z = absurd (omega arith)

-- A new ring of positive capacity is well formed and holds the empty queue.
pub ring_new-Holds :
    (cap : ℕ) (policy : RingPolicy)
    → 0 < cap
    → Holds cap policy [] (ring_new_with_policy cap policy)
unfolding ring_new_with_policy
ring_new-Holds cap policy h = record {
  valid = record { inside = h; bounded = omega arith; whole = length-replicate cap 0 };
  capacity = refl;
  policed = refl;
  holds = refl;
}
