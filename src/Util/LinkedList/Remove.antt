-- ===== src/Util/LinkedList/Remove.antt =====
-- list_remove_elem: the chain after an element's neighbours are linked with each other.
use cs.Base.{
  ℕ, ◌≡◌, ◌≢◌, refl, sym, ap, ◌∙◌, arith, Bool-cases, inl, inr, true, false, [], ◌∷◌, none, some,
  ◌==◌, if◌then◌else◌,
}
use cs.Memory.{null}
use cs.Util.LinkedList.{ListElem, elem, Store, update, list_remove_elem}
use cs.Util.LinkedList.Chain.{
  Cells, occurs, Chain, Chain.done, Chain.step, IsList, Linked, HasNext, HasPrev, linked, entry,
  exit, past, past_away, past_at, past_back, eq_iff, links_of, set_prev_run, set_next_run,
}

unfoldable pub drop : ℕ → Cells → Cells
drop a [] = []
drop a (c ∷ cs) = let rest = drop a cs in if a == c.0 then cs else c ∷ rest

retag :
    {s : Store} {stop last f g p r : ℕ} {cs : Cells}
    → g ≡ f
    → r ≡ p
    → Chain s stop last f p cs
    → Chain s stop last g r cs
retag i j c = rw (i, j) c

occurs-drop : (a e : ℕ) (cs : Cells) → occurs a cs ≡ false → occurs a (drop e cs) ≡ false
unfolding drop
occurs-drop a e [] out = refl
occurs-drop a e (c ∷ cs) out = ground (arith, occurs-drop a e cs (ground arith))

pub drop_away : (e : ℕ) (cs : Cells) → occurs e cs ≡ false → drop e cs ≡ cs
unfolding drop
drop_away e [] out = refl
drop_away e (c ∷ cs) out = ground (arith, drop_away e cs (ground arith))

-- The store after `list_remove_elem`: what each element it still has is changed to.
abbrev Bypassed : Store → Store → ℕ → ℕ → ℕ → ℕ → Type 0
Bypassed s s' e from q x =
    (w n p : ℕ) → s x ≡ some (elem w n p) → s' x ≡ some (elem w (past e from n) (past e q p))

module _ {s s' : Store} {stop last e v from q : ℕ} (at_e : s e ≡ some (elem v from q)) where
  unlink :
      {fr p : ℕ} {cs : Cells}
      → Chain s stop last fr p cs
      → stop ≢ e
      → q ≢ e
      → from ≢ e
      → ((x : ℕ) → occurs x cs ≡ true → x ≢ e → Bypassed s s' e from q x)
      → Chain s' stop (past e from last) (past e from fr) (past e q p) (drop e cs)
  unfolding drop
  unlink done ne qe fe moved = rw (past_away e q stop ne) done
  unlink (step {from = fr} {p} {q = q1} {v = w} {cs} h out c) ne qe fe moved =
      elim (Bool-cases (e == p)) [
        | inl same ↦
            let pe : p ≡ e = ground arith in
            let same_next : fr ≡ from = ground (arith, h, at_e) in
            let same_prev : q1 ≡ q = ground (arith, h, at_e) in
            rw same (
              retag (past_back e from fr p pe (ground arith))
                (past_at e q p pe ∙ sym (past_away e q q qe) ∙ ap (past e q) (sym same_prev))
                (rw (sym (drop_away e cs (ground arith)))
                  (unlink c ne qe fe (λ x i. moved x (ground arith)))))
        | inr other ↦
            let pe : p ≢ e = ground arith in
            rw (other, past_away e q p pe)
              (step (moved p (ground arith) pe w fr q1 h) (occurs-drop p e cs out) (
                retag (sym (past_away e from p pe)) refl
                  (unlink c ne qe fe (λ x i. moved x (ground arith)))))
      ]

module _ (s : Store) (e : ℕ) (l : Linked s e) where
  -- The store after the first assignment.
  abbrev after_next : Store
  after_next = update s l.next (some (elem l.after.0 l.after.1 l.prev))

  abbrev prev_node : ListElem
  prev_node =
      if l.prev == l.next then elem l.after.0 l.after.1 l.prev else elem l.before.0 e l.before.1

  at_prev : after_next l.prev ≡ some prev_node
  at_prev = elim (Bool-cases (l.prev == l.next)) [
    | inl same ↦ rw same refl
    | inr other ↦ rw other l.before.2
  ]

  abbrev removed : Store
  removed =
      update (update after_next l.prev (some (elem prev_node.value l.next prev_node.prev))) e none

  here_next : after_next e ≡ some (elem l.value l.next l.prev)
  here_next = ground (arith, l.here, l.next_apart)

  remove_run : list_remove_elem s e ≡ some removed
  unfolding list_remove_elem
  remove_run =
      rw (l.here, set_prev_run s l.next l.prev l.after.2)
        (rw here_next (rw (set_next_run after_next l.prev l.next at_prev) refl))

  removed_none : removed e ≡ none
  removed_none = ground arith

  removed_bypassed :
      (x w n p : ℕ)
      → x ≢ e
      → s x ≡ some (elem w n p)
      → removed x
        ≡ some (elem w (if x == l.prev then l.next else n) (if x == l.next then l.prev else p))
  removed_bypassed x w n p ne h = ground (arith, l.before.2, l.after.2)

  removed_gone : (x : ℕ) → s x ≡ none → removed x ≡ none
  removed_gone x h = ground (arith, h, l.before.2, l.after.2)

  -- Where the links are mutual, the two assignments replace each pointer to the element.
  moved :
      (x : ℕ)
      → x ≢ e
      → ((w n p : ℕ) → s x ≡ some (elem w n p) → HasNext s p x × HasPrev s n x)
      → Bypassed s removed e l.next l.prev x
  moved x ne links w n p h =
      let back = (links w n p h).0 in
      let forth = (links w n p h).1 in
      let prev_iff : x == l.prev ≡ n == e =
        eq_iff x l.prev n e (λ j. ground (arith, h, l.before.2))
          (λ j. ground (arith, forth.2, l.here)) in
      let next_iff : x == l.next ≡ p == e =
        eq_iff x l.next p e (λ j. ground (arith, h, l.after.2))
          (λ j. ground (arith, back.2, l.here)) in
      removed_bypassed x w n p ne h ∙ rw (prev_iff, next_iff) refl

module _ (s : Store) (lst : ℕ) (cs : Cells) (l : IsList s lst cs) where
  pub to_first : HasPrev s lst l.first
  to_first = (l.head_value, l.last, l.head)

  pub to_last : HasNext s lst l.last
  to_last = (l.head_value, l.first, l.head)

  pub node : (a : ℕ) → occurs a cs ≡ true → Linked s a
  node a i = linked a l.chain to_first to_last l.apart l.apart i

-- Removing an element `e` of a list: the list of the others, with its ends, the store that keeps what
-- was free.
pub record Removal (s : Store) (lst e : ℕ) (cs : Cells) (l : IsList s lst cs) (n : Linked s e)
    : Type 0 where
  pub after : Store
  pub run : list_remove_elem s e ≡ some after
  pub freed : after e ≡ none
  pub kept_free : (x : ℕ) → s x ≡ none → after x ≡ none
  pub list : IsList after lst (drop e cs)
  pub first_past : list.first ≡ past e n.prev l.first
  pub last_past : list.last ≡ past e n.next l.last

pub removal :
    (s : Store) (lst e : ℕ) (cs : Cells) (l : IsList s lst cs) (n : Linked s e)
    → occurs e cs ≡ true
    → Removal s lst e cs l n
removal s lst e cs l n i =
    let apart : lst ≢ e = λ j. ground arith in
    let head : Bypassed s (removed s e n) e n.next n.prev lst = moved s e n lst apart (
      links_of s l.head (entry l.chain (to_last s lst cs l))
        (exit l.chain (to_first s lst cs l))) in
    let chain =
      unlink {s' = removed s e n} n.here l.chain apart n.prev_apart n.next_apart (λ x o ne.
        let m = node s lst cs l x o in moved s e n x ne (links_of s m.here m.before m.after)) in
    let list : IsList (removed s e n) lst (drop e cs) = record {
      first = past e n.prev l.first;
      last = past e n.next l.last;
      head_value = l.head_value;
      head = head l.head_value l.last l.first l.head;
      chain = retag (sym (past_away e n.next lst apart)) refl chain;
      apart = occurs-drop lst e cs l.apart;
      no_null = occurs-drop null e cs l.no_null;
      not_null = l.not_null;
    } in
    record {
      after = removed s e n;
      run = remove_run s e n;
      freed = removed_none s e n;
      kept_free = removed_gone s e n;
      list = list;
      first_past = refl;
      last_past = refl;
    }

-- `list_remove_elem` of an element of a list frees it and leaves the list of the others in their order.
pub list_remove_elem-IsList :
    (s : Store) (lst e : ℕ) (cs : Cells)
    → IsList s lst cs
    → occurs e cs ≡ true
    → (s' : Store) × (list_remove_elem s e ≡ some s') × IsList s' lst (drop e cs) × (s' e ≡ none)
list_remove_elem-IsList s lst e cs l i =
    let r = removal s lst e cs l (node s lst cs l e i) i in (r.after, r.run, r.list, r.freed)
