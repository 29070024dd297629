-- ===== src/Util/LinkedList/Free.antt =====
-- list_free on a list.
use cs.Base.{
  ℕ, zero, suc, ◌<◌, ◌≡◌, refl, ap, ◌∙◌, arith, true, false, ◌||◌, [], ◌∷◌, none, some, ◌==◌,
  if◌then◌else◌,
}
use cs.Base.Lists.{length}
use cs.Memory.{null}
use cs.Util.LinkedList.{elem, Store, update, free_from, list_free}
use cs.Util.LinkedList.Chain.{Cells, occurs, Chain, Chain.done, Chain.step, IsList}

-- A chain is the same where no element of it is changed.
frame :
    {s s' : Store} {stop last from p : ℕ} {cs : Cells}
    → Chain s stop last from p cs
    → ((a : ℕ) → occurs a cs ≡ true → s' a ≡ s a)
    → Chain s' stop last from p cs
frame done same = done
frame (step {from} {p} e out c) same =
    step (same p (ground arith) ∙ e) out (frame c (λ a i. same a (ground arith)))

-- A chain as its last element and the chain up to it.
record SplitLast (s : Store) (stop last from p : ℕ) (cs : Cells) : Type 0 where
  init : Cells
  value : ℕ
  next : ℕ
  at_last : s last ≡ some (elem value next stop)
  chain : Chain s last next from p init
  shorter : suc (length init) ≡ length cs
  members : (a : ℕ) → occurs a cs ≡ (a == last || occurs a init)
  apart : occurs last init ≡ false

split_last :
    {s : Store} {stop last from p : ℕ} {c : ℕ × ℕ} {cs : Cells}
    → Chain s stop last from p (c ∷ cs)
    → SplitLast s stop last from p (c ∷ cs)
unfolding length
split_last (step {from} {p} {v} h o done) = record {
  init = [];
  value = v;
  next = from;
  at_last = h;
  chain = done;
  shorter = refl;
  members = λ a. refl;
  apart = refl;
}
split_last {last} (step {from} {p} {v} h o (step h' o' c)) =
    let rest = split_last (step h' o' c) in
    record {
      init = (p, v) ∷ rest.init;
      value = rest.value;
      next = rest.next;
      at_last = rest.at_last;
      chain = step h (ground (arith, rest.members p)) rest.chain;
      shorter = ap suc rest.shorter;
      members = λ a. ground (arith, rest.members a);
      apart = ground (arith, rest.members p, rest.apart);
    }

-- Which elements are free after `list_free`: those of the list, and its head.
abbrev pub freed : Store → ℕ → Cells → Store
freed s lst cs a = if a == lst || occurs a cs then none else s a

free_run :
    (fuel : ℕ) {s : Store} {lst stop last p : ℕ} (cs : Cells)
    → Chain s stop last lst p cs
    → occurs lst cs ≡ false
    → length cs < fuel
    → (s' : Store) × (free_from fuel s lst last ≡ some s') × ((a : ℕ) → s' a ≡ freed s lst cs a)
unfolding free_from length
free_run zero cs c out enough = ground arith
free_run (suc fuel) {s} {lst} [] done out enough =
    (update s lst none, ground arith, λ a. ground arith)
free_run (suc fuel) {s} {lst} {last} (c ∷ cs) ch out enough =
    let e = split_last ch in
    let rest =
      free_run fuel {s = update s last none} e.init (frame e.chain (λ a i. ground (arith, e.apart)))
        (ground (arith, e.members lst)) (ground (arith, e.shorter)) in
    let off : last == lst ≡ false = ground (arith, e.members lst) in
    (rest.0, rw (off, e.at_last) rest.1, λ a. ground (arith, rest.2 a, e.members a))

-- With enough fuel, `list_free` ends, frees the elements of the list and its head, and changes nothing
-- else.
pub list_free-freed :
    (fuel : ℕ) (s : Store) (lst : ℕ) (cs : Cells)
    → IsList s lst cs
    → length cs < fuel
    → (s' : Store) × (list_free fuel s lst ≡ some s') × ((a : ℕ) → s' a ≡ freed s lst cs a)
unfolding list_free
list_free-freed fuel s lst cs l enough =
    let r = free_run fuel cs l.chain l.apart enough in
    let live : lst == null ≡ false = ground (arith, l.not_null) in
    (r.0, rw live (rw (l.head) r.1), r.2)
