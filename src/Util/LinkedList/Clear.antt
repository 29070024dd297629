-- ===== src/Util/LinkedList/Clear.antt =====
-- list_clear, list_pop and list_pop_back on a list.
use cs.Base.{
  ℕ, zero, suc, ◌<◌, ◌≡◌, ◌≢◌, refl, sym, ◌∙◌, arith, Bool-cases, inl, inr, true, false, [], ◌∷◌,
  ◌++◌, none, some, ◌==◌,
}
use cs.Base.Lists.{length}
use cs.Util.LinkedList.{Store, clear_from, list_clear, list_pop, list_pop_back}
use cs.Util.LinkedList.Chain.{Cells, occurs, Chain, Chain.done, Chain.step, IsList, past_at}
use cs.Util.LinkedList.Remove.{drop, removal, node}
use cs.Util.LinkedList.Add.{occurs-◌++◌}

length-drop : (e : ℕ) (cs : Cells) → occurs e cs ≡ true → suc (length (drop e cs)) ≡ length cs
unfolding drop length
length-drop e [] i = ground arith
length-drop e (c ∷ cs) i = ground (arith, λ (j : occurs e cs ≡ true). length-drop e cs j)

-- An address that a removal took out is the removed one.
occurs_dropped : (a e : ℕ) (cs : Cells) → occurs a cs ≡ true → a ≢ e → occurs a (drop e cs) ≡ true
unfolding drop
occurs_dropped a e [] i ne = ground arith
occurs_dropped a e (c ∷ cs) i ne =
    ground (arith, λ (j : occurs a cs ≡ true). occurs_dropped a e cs j ne)

-- The element before the head, where there is one.
last_occurs :
    {s : Store} {stop last from p : ℕ} {c : ℕ × ℕ} {cs : Cells}
    → Chain s stop last from p (c ∷ cs)
    → occurs last (c ∷ cs) ≡ true
last_occurs (step e out done) = ground arith
last_occurs (step e out (step e' out' c)) = ground (arith, last_occurs (step e' out' c))

no_cell : {s : Store} {stop last from p : ℕ} → Chain s stop last from p [] → last ≡ from
no_cell done = refl

first_cell :
    {s : Store} {stop last from p e v : ℕ} {cs : Cells}
    → Chain s stop last from p ((e, v) ∷ cs)
    → (p ≡ e) × (occurs e cs ≡ false)
first_cell (step h o c) = (refl, o)

drop_first : (e v : ℕ) (cs : Cells) → drop e ((e, v) ∷ cs) ≡ cs
unfolding drop
drop_first e v cs = ground arith

pub relist : {s : Store} {lst : ℕ} {cs ds : Cells} → cs ≡ ds → IsList s lst cs → IsList s lst ds
relist i l = rw (sym i) l

-- The end of a chain that ends in a given element.
last_cell :
    {s : Store} {stop last from p : ℕ} (e v : ℕ) (cs : Cells)
    → Chain s stop last from p (cs ++ (e, v) ∷ [])
    → (last ≡ e) × (occurs e (cs ++ (e, v) ∷ []) ≡ true) × (drop e (cs ++ (e, v) ∷ []) ≡ cs)
unfolding drop
last_cell e v [] (step h o done) = (refl, ground arith, ground arith)
last_cell e v ((a, w) ∷ cs) (step h o c) =
    let rest = last_cell e v cs c in
    let apart : e ≢ a = λ j. ground (arith, rest.1, o) in
    (rest.0, ground (arith, rest.1), ground (arith, rest.2))

-- The result of `clear_from`: the list is empty, and what was free or on it is free.
abbrev Cleared : Store → ℕ → Cells → Store → Type 0
Cleared s lst cs s' =
    IsList s' lst []
    × ((a : ℕ) → occurs a cs ≡ true → s' a ≡ none)
    × ((a : ℕ) → s a ≡ none → s' a ≡ none)

clear_run :
    (fuel : ℕ) (s : Store) (lst : ℕ) (cs : Cells) (l : IsList s lst cs)
    → length cs < fuel
    → (s' : Store) × (clear_from fuel s lst l.last ≡ some s') × Cleared s lst cs s'
unfolding clear_from length
clear_run zero s lst cs l enough = ground arith
clear_run (suc fuel) s lst [] l enough =
    (s, rw (no_cell l.chain) (ground arith), (l, (λ a i. ground arith), λ a h. h))
clear_run (suc fuel) s lst (c ∷ cs) l enough =
    let e = l.last in
    let i : occurs e (c ∷ cs) ≡ true = last_occurs l.chain in
    let n = node s lst (c ∷ cs) l e i in
    let r = removal s lst e (c ∷ cs) l n i in
    let shorter : length (drop e (c ∷ cs)) < fuel = ground (arith, length-drop e (c ∷ cs) i) in
    let rest = clear_run fuel r.after lst (drop e (c ∷ cs)) r.list shorter in
    let next : r.list.last ≡ n.next = r.last_past ∙ past_at e n.next e refl in
    let off : l.last == lst ≡ false = ground (arith, l.apart, i) in
    (
      rest.0,
      rw (off, n.here) (rw r.run (rw (sym next) rest.1)),
      (
        rest.2.0,
        (λ a o. elim (Bool-cases (a == e)) [
          | inl same ↦ let here : a ≡ e = ground arith in rw here (rest.2.2 e r.freed)
          | inr other ↦ rest.2.1 a (occurs_dropped a e (c ∷ cs) o (λ j. ground arith))
        ]),
        λ a h. rest.2.2 a (r.kept_free a h),
      ),
    )

-- With enough fuel, `list_clear` ends with an empty list, and each element that was on it is free.
pub list_clear-IsList :
    (fuel : ℕ) (s : Store) (lst : ℕ) (cs : Cells)
    → IsList s lst cs
    → length cs < fuel
    → (s' : Store) × (list_clear fuel s lst ≡ some s')
      × IsList s' lst []
      × ((a : ℕ) → occurs a cs ≡ true → s' a ≡ none)
unfolding list_clear
list_clear-IsList fuel s lst cs l enough =
    let r = clear_run fuel s lst cs l enough in (r.0, rw (l.head) r.1, r.2.0, r.2.1)

-- On a list that is not empty, `list_pop` returns the oldest element and leaves the others. The element
-- that it returns is free.
pub list_pop-IsList :
    (s : Store) (lst e v : ℕ) (cs : Cells)
    → IsList s lst ((e, v) ∷ cs)
    → (s' : Store) × (list_pop s lst ≡ some (e, s')) × IsList s' lst cs × (s' e ≡ none)
unfolding list_pop
list_pop-IsList s lst e v cs l =
    let first = (first_cell l.chain).0 in
    let i : occurs e ((e, v) ∷ cs) ≡ true = ground arith in
    let r = removal s lst e ((e, v) ∷ cs) l (node s lst ((e, v) ∷ cs) l e i) i in
    let apart : lst ≢ e = λ j. ground (arith, l.apart) in
    (
      r.after,
      rw (l.head) (rw first (ground (arith, apart, r.run))),
      relist (drop_first e v cs) r.list,
      r.freed,
    )

-- `list_pop_back` does so with the youngest element.
pub list_pop_back-IsList :
    (s : Store) (lst e v : ℕ) (cs : Cells)
    → IsList s lst (cs ++ (e, v) ∷ [])
    → (s' : Store) × (list_pop_back s lst ≡ some (e, s')) × IsList s' lst cs × (s' e ≡ none)
unfolding list_pop_back
list_pop_back-IsList s lst e v cs l =
    let ends = last_cell e v cs l.chain in
    let whole = cs ++ (e, v) ∷ [] in
    let r = removal s lst e whole l (node s lst whole l e ends.1) ends.1 in
    let apart : lst ≢ e = λ j. ground (arith, l.apart, ends.1) in
    (
      r.after,
      rw (l.head) (rw (ends.0) (ground (arith, apart, r.run))),
      relist ends.2 r.list,
      r.freed,
    )
