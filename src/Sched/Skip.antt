-- ===== src/Sched/Skip.antt =====
-- round_robin: which process is next where the position is not near the head.
use cs.Base.{
  ℕ, zero, suc, ◌<◌, ◌^◌, ◌≡◌, ◌≢◌, refl, ap, ◌∙◌, arith, true, false, [], ◌∷◌, ◌++◌, some, ◌==◌,
}
use cs.Base.Lists.{length}
use cs.Memory.{null}
use cs.Util.LinkedList.{Store, elem, list_elem_valid, list_elem_next, list_elem_value}
use cs.Util.LinkedList.Chain.{Cells, occurs, Chain, Chain.step, IsList}
use cs.Util.LinkedList.Search.{has_value, list_size-length}
use cs.Sched.{Process, Sched, Dispatch, awaken, is_running, next_from, advance, round_robin}
use cs.Sched.Wake.{Live}
use cs.Sched.Ready.{chosen, ready, dispatch_run}

-- Three elements that follow each other.
record Three (elems : Store) (a va b vb c vc : ℕ) : Type 0 where
  next : ℕ
  prev : ℕ
  prev' : ℕ
  prev'' : ℕ
  at_first : elems a ≡ some (elem va next prev)
  at_second : elems b ≡ some (elem vb a prev')
  at_third : elems c ≡ some (elem vc b prev'')
  apart : b ≢ c

three :
    {elems : Store} {stop last from p : ℕ} (xs : Cells) (a va b vb c vc : ℕ) (zs : Cells)
    → Chain elems stop last from p (xs ++ (a, va) ∷ (b, vb) ∷ (c, vc) ∷ zs)
    → Three elems a va b vb c vc
three [] a va b vb c vc zs (step h o (step h' o' (step h'' o'' r))) = record {
  next = _;
  prev = _;
  prev' = _;
  prev'' = _;
  at_first = h;
  at_second = h';
  at_third = h'';
  apart = λ i. ground arith;
}
three ((x, w) ∷ xs) a va b vb c vc zs (step h o r) = three xs a va b vb c vc zs r

occurs-second :
    (xs : Cells) (a va b vb : ℕ) (zs : Cells) → occurs b (xs ++ (a, va) ∷ (b, vb) ∷ zs) ≡ true
occurs-second [] a va b vb zs = ground arith
occurs-second (x ∷ xs) a va b vb zs = ground (arith, occurs-second xs a va b vb zs)

occurs-third :
    (xs : Cells) (a va b vb c vc : ℕ) (zs : Cells)
    → occurs c (xs ++ (a, va) ∷ (b, vb) ∷ (c, vc) ∷ zs) ≡ true
occurs-third [] a va b vb c vc zs = ground arith
occurs-third (x ∷ xs) a va b vb c vc zs = ground (arith, occurs-third xs a va b vb c vc zs)

has_value-split : (xs : Cells) (e v : ℕ) (zs : Cells) → has_value v (xs ++ (e, v) ∷ zs) ≡ true
unfolding has_value
has_value-split [] e v zs = ground arith
has_value-split (x ∷ xs) e v zs = ground (arith, has_value-split xs e v zs)

length-occurs : (a : ℕ) (cs : Cells) → occurs a cs ≡ true → length cs == 0 ≡ false
unfolding length
length-occurs a [] i = ground arith
length-occurs a (c ∷ cs) i = ground arith

advance_skips :
    (fuel : ℕ) (s : Sched) (e v e' v' e'' v'' : ℕ) (cs : Cells) (p : ℕ) (q : Process)
    → IsList s.elems s.processes cs
    → Three s.elems e v e' v' e'' v''
    → occurs e' cs ≡ true
    → length cs < fuel
    → length cs < 2 ^ 64
    → s.current ≡ e''
    → s.procs v ≡ some q
    → is_running q.state ≡ true
    → advance fuel s p ≡ some (chosen s v, record s { current = e })
unfolding advance next_from list_elem_next list_elem_value list_elem_valid
advance_skips zero s e v e' v' e'' v'' cs p q l t i enough fits at h run = ground (arith, enough)
advance_skips (suc fuel) s e v e' v' e'' v'' cs p q l t i enough fits at h run =
    let other : e' == e'' ≡ false = ground (arith, t.apart) in
    let valid : list_elem_valid s.processes e' ≡ true = ground (arith, l.apart, l.no_null) in
    rw at (
      rw (t.at_third) (
        rw (list_size-length (suc fuel) s.elems s.processes cs l enough fits) (
          rw (length-occurs e' cs i)
            (rw (other, valid) (rw (t.at_second) (rw (t.at_first) (rw h (rw run refl))))))))

-- On a list of processes that all exist, as the idle one does, with the lock free: where the position is an
-- element with two older ones before it, of which the farther has a process that is running once the
-- sleeping ones are woken, `round_robin` with enough fuel runs that process, moves the position to it and
-- releases the lock. The process between is passed over, whatever its state is.
pub round_robin-skips :
    (fuel : ℕ) (s : Sched) (now sepc hart e v e' v' e'' v'' : ℕ) (xs ys : Cells) (q : Process)
    → (l : IsList s.elems s.processes (xs ++ (e, v) ∷ (e', v') ∷ (e'', v'') ∷ ys))
    → Live s.procs (xs ++ (e, v) ∷ (e', v') ∷ (e'', v'') ∷ ys)
    → (idle : Process) × (s.procs s.idle ≡ some idle)
    → length (xs ++ (e, v) ∷ (e', v') ∷ (e'', v'') ∷ ys) < fuel
    → length (xs ++ (e, v) ∷ (e', v') ∷ (e'', v'') ∷ ys) < 2 ^ 64
    → s.locked ≡ false
    → s.current ≡ e''
    → s.procs v ≡ some q
    → v ≢ null
    → is_running (awaken now q).state ≡ true
    → (d : Dispatch) × (s' : Sched) × (round_robin fuel s now sepc hart ≡ some (d, s'))
      × (d.proc ≡ v)
      × (s'.current ≡ e)
      × (s'.locked ≡ false)
round_robin-skips fuel s now sepc hart e v e' v' e'' v'' xs ys q l live idle enough fits unlocked at
      h full run =
    let cs = xs ++ (e, v) ∷ (e', v') ∷ (e'', v'') ∷ ys in
    let i : occurs e' cs ≡ true = occurs-second xs e v e' v' ((e'', v'') ∷ ys) in
    let there : s.current ≢ null =
      λ j. ground (arith, l.no_null, at, occurs-third xs e v e' v' e'' v'' ys) in
    let r = ready fuel s now sepc hart cs l live idle enough unlocked there in
    let s2 = record s { procs = r.procs; locked = true } in
    let q' = r.kept v q h in
    let running : is_running q'.0.state ≡ true =
      ap is_running (q'.2 (has_value-split xs e v _)) ∙ run in
    let step =
      advance_skips fuel s2 e v e' v' e'' v'' cs r.proc q'.0 l
        (three xs e v e' v' e'' v'' ys l.chain) i enough fits at q'.1 running in
    let named : v == null ≡ false = ground (arith, full) in
    let d = dispatch_run (record s2 { current = e }) v hart (q'.0, q'.1) in
    (d.0, d.1, r.run ∙ rw step (rw named d.2), d.3, d.4, d.5)
