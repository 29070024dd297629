-- ===== src/Sched/Rotate.antt =====
-- round_robin: how `curr_list_elem` moves.
use cs.Base.{
  ℕ, zero, suc, ◌<◌, ◌^◌, ◌≡◌, ◌≢◌, inl, inr, refl, ap, ◌∙◌, arith, Bool-cases, true, false, ◌∷◌,
  some, ◌==◌, if◌then◌else◌,
}
use cs.Base.Lists.{length}
use cs.Memory.{null}
use cs.Util.LinkedList.{Store, elem, list_elem_valid, list_elem_next, list_elem_value}
use cs.Util.LinkedList.Chain.{Cells, Chain, Chain.step, IsList}
use cs.Util.LinkedList.Search.{has_value, list_size-length}
use cs.Sched.{Process, Sched, Dispatch, awaken, is_running, next_from, advance, round_robin}
use cs.Sched.Wake.{Live, list_elem_start_ascending-first}
use cs.Sched.Ready.{chosen, ready, dispatch_run, chosen-LiveAt}

-- The oldest element: the head stands before it.
oldest :
    {elems : Store} {lst e v : ℕ} {cs : Cells}
    → (l : IsList elems lst ((e, v) ∷ cs))
    → (q : ℕ) × (elems e ≡ some (elem v lst q)) × (l.first ≡ e)
oldest l = go l.chain
  where
    go :
        {elems : Store} {stop last from p e v : ℕ} {cs : Cells}
        → Chain elems stop last from p ((e, v) ∷ cs)
        → (q : ℕ) × (elems e ≡ some (elem v from q)) × (p ≡ e)
    go (step {q} h o c) = (q, h, refl)

-- The position after the oldest element is the oldest element.
next_from_oldest :
    (fuel : ℕ) (s : Sched) (e v : ℕ) (cs : Cells) (p : ℕ) (q : Process)
    → IsList s.elems s.processes ((e, v) ∷ cs)
    → length ((e, v) ∷ cs) < fuel
    → s.procs v ≡ some q
    → next_from fuel s e s.processes p ≡ some (if is_running q.state then v else p, e)
unfolding next_from list_elem_valid list_elem_value length
next_from_oldest zero s e v cs p q l enough h = ground arith
next_from_oldest (suc zero) s e v cs p q l enough h = ground (arith, enough)
next_from_oldest (suc (suc fuel)) s e v cs p q l enough h =
    let o = oldest l in
    let apart : s.processes == e ≡ false = ground (arith, l.apart) in
    let stop : list_elem_valid s.processes s.processes ≡ false = ground arith in
    let same : e == e ≡ true = ground arith in
    rw (apart, stop, list_elem_start_ascending-first s.elems s.processes ((e, v) ∷ cs) l)
      (rw (o.2) (rw (o.1) (rw h (ground (arith, same)))))

module _ (fuel : ℕ) (s : Sched) (e v : ℕ) (cs : Cells)
    (l : IsList s.elems s.processes ((e, v) ∷ cs)) (enough : length ((e, v) ∷ cs) < fuel)
    (fits : length ((e, v) ∷ cs) < 2 ^ 64) where
  pub advance_oldest :
      (p : ℕ) (q : Process)
      → s.procs v ≡ some q
      → s.current ≡ e
      → advance fuel s p
        ≡ some (chosen s (if is_running q.state then v else p), record s { current = e })
  unfolding advance list_elem_next length
  advance_oldest p q h at =
      let o = oldest l in
      rw at (
        rw o.1 (
          rw (list_size-length fuel s.elems s.processes ((e, v) ∷ cs) l enough fits) (
            rw (next_from_oldest fuel (record s { current = e }) e v cs p q l enough h)
              (ground arith))))

pub has_value_first : (e v : ℕ) (cs : Cells) → has_value v ((e, v) ∷ cs) ≡ true
unfolding has_value
has_value_first e v cs = ground arith

-- On a list of processes that all exist, as the idle one does, with the lock free: where the position is the
-- oldest element, `round_robin` with enough fuel ends, releases the lock and leaves the position where it
-- is; it runs the oldest process if that one is running after sleeping processes are woken.
pub round_robin-oldest :
    (fuel : ℕ) (s : Sched) (now sepc hart e v : ℕ) (cs : Cells) (q : Process)
    → IsList s.elems s.processes ((e, v) ∷ cs)
    → Live s.procs ((e, v) ∷ cs)
    → (idle : Process) × (s.procs s.idle ≡ some idle)
    → length ((e, v) ∷ cs) < fuel
    → length ((e, v) ∷ cs) < 2 ^ 64
    → s.locked ≡ false
    → s.current ≡ e
    → s.procs v ≡ some q
    → v ≢ null
    → (d : Dispatch) × (s' : Sched) × (round_robin fuel s now sepc hart ≡ some (d, s'))
      × (s'.current ≡ e)
      × (s'.locked ≡ false)
      × (is_running (awaken now q).state ≡ true → d.proc ≡ v)
round_robin-oldest fuel s now sepc hart e v cs q l live idle enough fits unlocked at h full =
    let there : s.current ≢ null = λ i. ground (arith, l.no_null, at) in
    let r = ready fuel s now sepc hart ((e, v) ∷ cs) l live idle enough unlocked there in
    let s2 = record s { procs = r.procs; locked = true } in
    let q' = r.kept v q h in
    let step = advance_oldest fuel s2 e v cs l enough fits r.proc q'.0 q'.1 at in
    let a = chosen s (if is_running q'.0.state then v else r.proc) in
    let d =
      dispatch_run (record s2 { current = e }) a hart
        (chosen-LiveAt s r.procs (if is_running q'.0.state then v else r.proc)
          (let i = r.kept s.idle idle.0 idle.1 in (i.0, i.1))
          (elim (Bool-cases (is_running q'.0.state)) [
            | inl i ↦ rw i (inr (q'.0, q'.1))
            | inr i ↦ rw i r.live
          ])) in
    (
      d.0,
      d.1,
      r.run ∙ rw step d.2,
      d.4,
      d.5,
      λ i.
          let running : is_running q'.0.state ≡ true =
            ap is_running (q'.2 (has_value_first e v cs)) ∙ i in
          let named : v == null ≡ false = ground (arith, full) in d.3 ∙ rw (running, named) refl,
    )
