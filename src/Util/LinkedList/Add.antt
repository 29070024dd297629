-- ===== src/Util/LinkedList/Add.antt =====
-- list_new and list_add.
use cs.Base.{ℕ, ◌≡◌, ◌≢◌, refl, sym, arith, true, false, [], ◌∷◌, ◌++◌, some, ◌==◌, if◌then◌else◌}
use cs.Memory.{null}
use cs.Util.LinkedList.{
  ListElem, elem, Store, update, list_add, list_new, list_init, set_prev, set_next,
}
use cs.Util.LinkedList.Chain.{
  Cells, occurs, Chain, Chain.done, Chain.step, IsList, HasNext, HasPrev, linked, entry, exit, past,
  past_away, past_at, eq_iff, set_prev_run, set_next_run, set_value_run,
}

pub occurs-◌++◌ :
    (a b v : ℕ) (cs : Cells) → a ≢ b → occurs a cs ≡ false → occurs a (cs ++ (b, v) ∷ []) ≡ false
occurs-◌++◌ a b v [] ne out = ground (arith)
occurs-◌++◌ a b v (c ∷ cs) ne out = ground (arith, occurs-◌++◌ a b v cs ne (ground arith))

-- A chain is continued by one element behind its last one.
append :
    {s s' : Store} {stop last from p l v : ℕ} {cs : Cells}
    → Chain s stop last from p cs
    → s' l ≡ some (elem v last stop)
    → occurs l cs ≡ false
    → occurs stop cs ≡ false
    → ((x w n q : ℕ)
        → occurs x cs ≡ true
        → s x ≡ some (elem w n q)
        → s' x ≡ some (elem w n (past stop l q)))
    → Chain s' stop l from (past stop l p) (cs ++ (l, v) ∷ [])
append {stop} {l} done at out sout moved = rw (past_at stop l stop refl) (step at refl done)
append {stop} {l} {v} (step {from} {p} {q} {v = w} {cs} h o c) at out sout moved =
    rw (past_away stop l p (λ j. ground arith)) (
      step (moved p w from q (ground arith) h) (occurs-◌++◌ p l v cs (λ j. ground arith) o)
        (append c at (ground arith) (ground arith) (λ x w n q i. moved x w n q (ground arith))))

end_apart :
    {s : Store} {stop last from p : ℕ} {cs : Cells} (x : ℕ)
    → Chain s stop last from p cs
    → from ≢ x
    → occurs x cs ≡ false
    → last ≢ x
end_apart x done ne out = ne
end_apart x (step h o c) ne out = end_apart x c (λ j. ground arith) (ground arith)

module _ (s : Store) (lst l value : ℕ) (cs : Cells) (ok : IsList s lst cs)
    (fresh : occurs l cs ≡ false) (apart : l ≢ lst) where
  to_first : HasPrev s lst ok.first
  to_first = (ok.head_value, ok.last, ok.head)

  to_last : HasNext s lst ok.last
  to_last = (ok.head_value, ok.first, ok.head)

  -- The stores after the assignments of `list_add`, in their order.
  abbrev with_prev : Store
  with_prev =
      update (update (update s l (some (elem 0 0 0))) l (some (elem 0 ok.last 0))) l
        (some (elem 0 ok.last lst))

  abbrev last_node : HasPrev s ok.last lst
  last_node = exit ok.chain to_first

  last_apart : ok.last ≢ l
  last_apart = end_apart l ok.chain (λ j. apart (sym j)) fresh

  abbrev with_last : Store
  with_last = update with_prev ok.last (some (elem last_node.0 last_node.1 l))

  abbrev head_node : ListElem
  head_node =
      if lst == ok.last then elem last_node.0 last_node.1 l else elem ok.head_value ok.last ok.first

  abbrev with_head : Store
  with_head = update with_last lst (some (elem head_node.value l head_node.prev))

  abbrev added : Store
  added = update with_head l (some (elem value ok.last lst))

  at_last : with_prev ok.last ≡ some (elem last_node.0 last_node.1 lst)
  at_last = ground (arith, last_node.2, last_apart)

  at_head : with_last lst ≡ some head_node
  at_head = ground (arith, ok.head, apart)

  new_node : with_prev l ≡ some (elem 0 ok.last lst)
  new_node = ground arith

  new_node_kept : (n : ListElem) → update with_prev ok.last (some n) l ≡ some (elem 0 ok.last lst)
  new_node_kept n = ground (arith, last_apart)

  new_node_last : with_head l ≡ some (elem 0 ok.last lst)
  new_node_last = ground (arith, last_apart, apart)

  head_before : update s l (some (elem 0 0 0)) lst ≡ some (elem ok.head_value ok.last ok.first)
  head_before = ground (arith, ok.head, apart)

  new_prev :
      set_prev (update (update s l (some (elem 0 0 0))) l (some (elem 0 ok.last 0))) l lst
      ≡ some with_prev
  new_prev = set_prev_run _ l lst {n = elem 0 ok.last 0} (ground arith)

  new_next :
      set_next (update s l (some (elem 0 0 0))) l ok.last
      ≡ some (update (update s l (some (elem 0 0 0))) l (some (elem 0 ok.last 0)))
  new_next = set_next_run _ l ok.last {n = elem 0 0 0} (ground arith)

  add_run : list_add s lst l value ≡ some added
  unfolding list_add
  add_run = rw head_before (
      rw new_next (
        rw new_prev (
          rw new_node (
            rw (set_prev_run with_prev ok.last l at_last) (
              rw (new_node_kept (elem last_node.0 last_node.1 l)) (
                rw (set_next_run with_last lst l at_head)
                  (set_value_run with_head l value new_node_last)))))))

  added_new : added l ≡ some (elem value ok.last lst)
  added_new = ground arith

  added_head : added lst ≡ some (elem ok.head_value l (past lst l ok.first))
  added_head = ground (arith, ok.head, apart, last_node.2, (entry ok.chain to_last).2)

  added_kept :
      (x w n q : ℕ)
      → occurs x cs ≡ true
      → s x ≡ some (elem w n q)
      → added x ≡ some (elem w n (past lst l q))
  added_kept x w n q i h =
      let m = linked x ok.chain to_first to_last ok.apart ok.apart i in
      let same_prev : q ≡ m.prev = ground (arith, h, m.here) in
      let last_iff : x == ok.last ≡ q == lst =
        eq_iff x ok.last q lst (λ j. ground (arith, h, last_node.2))
          (λ j. ground (arith, m.before.2, ok.head)) in
      let here : x ≢ l = λ j. ground arith in
      let off : x ≢ lst = λ j. ground (arith, ok.apart) in ground (arith, h, last_node.2)

-- On a list, `list_add` with the address of an element that is not NULL and not on it returns, with
-- the new element behind the others.
pub list_add-IsList :
    (s : Store) (lst l value : ℕ) (cs : Cells)
    → IsList s lst cs
    → occurs l cs ≡ false
    → l ≢ lst
    → l ≢ null
    → (s' : Store) × (list_add s lst l value ≡ some s') × IsList s' lst (cs ++ (l, value) ∷ [])
list_add-IsList s lst l value cs ok fresh apart full = (
  added s lst l value cs ok fresh apart,
  add_run s lst l value cs ok fresh apart,
  record {
    first = past lst l ok.first;
    last = l;
    head_value = ok.head_value;
    head = added_head s lst l value cs ok fresh apart;
    chain =
        append ok.chain (added_new s lst l value cs ok fresh apart) fresh ok.apart
          (added_kept s lst l value cs ok fresh apart);
    apart = occurs-◌++◌ lst l value cs (λ j. apart (sym j)) ok.apart;
    no_null = occurs-◌++◌ null l value cs (λ j. full (sym j)) ok.no_null;
    not_null = ok.not_null;
  },
)

-- A new list is empty.
pub list_new-IsList :
    (s : Store) (lst : ℕ) (old : ListElem)
    → lst ≢ null
    → (s' : Store) × (list_new s lst old ≡ some s') × IsList s' lst []
unfolding list_new list_init
list_new-IsList s lst old ne = (
  update (update (update s lst (some old)) lst (some (elem old.value lst old.prev))) lst
      (some (elem old.value lst lst)),
  rw (set_next_run (update s lst (some old)) lst lst {n = old} (ground arith))
      (set_prev_run _ lst lst {n = elem old.value lst old.prev} (ground arith)),
  record {
    first = lst;
    last = lst;
    head_value = old.value;
    head = ground arith;
    chain = done;
    apart = refl;
    no_null = refl;
    not_null = ne;
  },
)
