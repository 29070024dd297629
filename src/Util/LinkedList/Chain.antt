-- ===== src/Util/LinkedList/Chain.antt =====
-- What a list stands for: the addresses and values of its elements in ascending order.
use cs.Base.{
  ℕ, ◌≡◌, ◌≢◌, refl, sym, arith, Bool, Bool-cases, inl, inr, true, false, ◌||◌, List, [], ◌∷◌, some,
  ◌==◌, if◌then◌else◌,
}
use cs.Memory.{null}
use cs.Util.LinkedList.{ListElem, elem, Store, update, set_prev, set_next, set_value}

abbrev pub Cells : Type 0
Cells = List (ℕ × ℕ)

abbrev pub occurs : ℕ → Cells → Bool
occurs a [] = false
occurs a (c ∷ cs) = a == c.0 || occurs a cs

-- From `p`, which is reached from `from`, the `prev` pointers lead through distinct elements to `stop`,
-- which is reached from `last`; each `next` pointer leads back.
pub data Chain (s : Store) (stop last : ℕ) : ℕ → ℕ → Cells → Type 0 where
  done : Chain s stop last last stop []
  step :
      {from p q v : ℕ} {cs : Cells}
      → s p ≡ some (elem v from q)
      → occurs p cs ≡ false
      → Chain s stop last p q cs
      → Chain s stop last from p ((p, v) ∷ cs)

pub record IsList (s : Store) (lst : ℕ) (cs : Cells) : Type 0 where
  pub first : ℕ
  pub last : ℕ
  pub head_value : ℕ
  pub head : s lst ≡ some (elem head_value last first)
  pub chain : Chain s lst last lst first cs
  pub apart : occurs lst cs ≡ false
  pub no_null : occurs null cs ≡ false
  pub not_null : lst ≢ null

abbrev pub HasNext : Store → ℕ → ℕ → Type 0
HasNext s a next = (v : ℕ) × (prev : ℕ) × (s a ≡ some (elem v next prev))

abbrev pub HasPrev : Store → ℕ → ℕ → Type 0
HasPrev s a prev = (v : ℕ) × (next : ℕ) × (s a ≡ some (elem v next prev))

-- An element, and its neighbours' pointers back to it.
pub record Linked (s : Store) (a : ℕ) : Type 0 where
  pub value : ℕ
  pub next : ℕ
  pub prev : ℕ
  pub here : s a ≡ some (elem value next prev)
  pub before : HasNext s prev a
  pub after : HasPrev s next a
  pub next_apart : next ≢ a
  pub prev_apart : prev ≢ a

module _ {s : Store} {stop last : ℕ} where
  -- The `next` pointer of the first element leads back.
  pub entry :
      {from p : ℕ} {cs : Cells}
      → Chain s stop last from p cs
      → HasNext s stop last
      → HasNext s p from
  entry done h = h
  entry (step {q} {v} e out c) h = (v, q, e)

  -- The `prev` pointer of the last element leads to the stop.
  pub exit :
      {from p : ℕ} {cs : Cells}
      → Chain s stop last from p cs
      → HasPrev s from p
      → HasPrev s last stop
  exit done h = h
  exit (step {from} {v} e out c) h = exit c (v, from, e)

  -- A chain does not start at an address outside of it.
  start_apart :
      {from p : ℕ} {cs : Cells} (a : ℕ)
      → Chain s stop last from p cs
      → occurs a cs ≡ false
      → a ≢ stop
      → p ≢ a
  start_apart a done out ne i = ne (sym i)
  start_apart a (step {p} e o c) out ne i = ground (arith)

  -- Every element of a chain is linked with its neighbours.
  pub linked :
      {from p : ℕ} {cs : Cells} (a : ℕ)
      → Chain s stop last from p cs
      → HasPrev s from p
      → HasNext s stop last
      → occurs from cs ≡ false
      → occurs stop cs ≡ false
      → occurs a cs ≡ true
      → Linked s a
  linked a done pr nx fout sout i = ground (arith)
  linked a (step {from} {p} {q} {v} {cs} e out c) pr nx fout sout i = elim (Bool-cases (a == p)) [
    | inl same ↦
        let here : a ≡ p = ground arith in
        rw here record {
          value = v;
          next = from;
          prev = q;
          here = e;
          before = entry c nx;
          after = pr;
          next_apart = λ j. ground arith;
          prev_apart = start_apart p c out (λ j. ground arith);
        }
    | inr other ↦ linked a c (v, from, e) nx out (ground arith) (ground arith)
  ]

-- The neighbour that takes the place of `e`.
abbrev pub past : ℕ → ℕ → ℕ → ℕ
past e other x = if x == e then other else x

pub past_away : (e other x : ℕ) → x ≢ e → past e other x ≡ x
past_away e other x ne = ground arith

pub past_at : (e other x : ℕ) → x ≡ e → past e other x ≡ other
past_at e other x i = ground arith

-- Nothing changes when the place of `x` is taken by `x` itself.
pub past_back : (e x y z : ℕ) → z ≡ e → y ≡ x → past e x y ≡ past e x z
past_back e x y z i j = ground arith

pub eq_iff : (a b c d : ℕ) → (a ≡ b → c ≡ d) → (c ≡ d → a ≡ b) → a == b ≡ c == d
eq_iff a b c d f g = elim (Bool-cases (a == b)) [
  | inl i ↦ ground (arith, f (ground arith))
  | inr i ↦ ground (arith, λ (j : c ≡ d). g j)
]

pub links_of :
    (s : Store) {x v n p : ℕ}
    → s x ≡ some (elem v n p)
    → HasNext s p x
    → HasPrev s n x
    → (w a b : ℕ) → s x ≡ some (elem w a b)
    → HasNext s b x × HasPrev s a x
links_of s {n} {p} at back forth w a b h =
    let same_next : a ≡ n = ground (arith, h, at) in
    let same_prev : b ≡ p = ground (arith, h, at) in rw (same_next, same_prev) (back, forth)

pub set_prev_run :
    (s : Store) (p q : ℕ) {n : ListElem}
    → s p ≡ some n
    → set_prev s p q ≡ some (update s p (some (elem n.value n.next q)))
unfolding set_prev
set_prev_run s p q h = rw h refl

pub set_next_run :
    (s : Store) (p q : ℕ) {n : ListElem}
    → s p ≡ some n
    → set_next s p q ≡ some (update s p (some (elem n.value q n.prev)))
unfolding set_next
set_next_run s p q h = rw h refl

pub set_value_run :
    (s : Store) (p q : ℕ) {n : ListElem}
    → s p ≡ some n
    → set_value s p q ≡ some (update s p (some (elem q n.next n.prev)))
unfolding set_value
set_value_run s p q h = rw h refl
