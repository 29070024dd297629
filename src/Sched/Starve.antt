-- ===== src/Sched/Starve.antt =====
-- round_robin, called again and again: which processes run.
use cs.Base.{
  ℕ, ◌+◌, ◌*◌, ◌%◌, ◌<◌, ◌^◌, ◌≡◌, ◌≢◌, inl, inr, refl, ap, ◌∙◌, arith, Bool-cases, true, false,
  ◌&&◌, leb, List, [], ◌∷◌, Option, some, ◌==◌, ◌>>=◌,
}
use cs.Base.Lists.{length, replicate}
use cs.Memory.{null}
use cs.Util.LinkedList.Chain.{Cells, IsList}
use cs.Sched.{
  Process, ps_running, Sched, Dispatch, put, awaken, is_running, is_sleeping, context_switch_timer,
  dispatch, mutex_unlock, round_robin,
}
use cs.Sched.Wake.{Live}
use cs.Sched.Ready.{LiveAt, ready, put_kept}
use cs.Sched.Rotate.{advance_oldest, has_value_first}

-- The time, the program counter and the hart of a call.
abbrev pub Turn : Type 0
Turn = ℕ × ℕ × ℕ

-- `round_robin` on each turn after the other: the processes that it runs.
unfoldable pub turns : ℕ → Sched → List Turn → Option (List ℕ × Sched)
turns fuel s [] = some ([], s)
turns fuel s (t ∷ ts) = do
  (d, s) ← round_robin fuel s t.0 t.1 t.2
  (ps, s) ← turns fuel s ts
  some (d.proc ∷ ps, s)

-- The position is the oldest element `e`, whose process `v` is running; every process of the list and the idle
-- process are there, and the lock is free.
pub record AtOldest (s : Sched) (e v : ℕ) (cs : Cells) : Type 0 where
  pub list : IsList s.elems s.processes ((e, v) ∷ cs)
  pub live : Live s.procs ((e, v) ∷ cs)
  pub idle : LiveAt s.procs s.idle
  pub unlocked : s.locked ≡ false
  pub at : s.current ≡ e
  pub running : (q : Process) × (s.procs v ≡ some q) × (q.state ≡ ps_running)

abbrev dispatched : Sched → ℕ → ℕ → Process → Sched
dispatched s a hart p = record s {
  procs = put s.procs a (record p {
    hart = hart;
    trap_stack = s.trap_stack_vaddr;
    vruntime = (p.vruntime + 1) % 2 ^ 64;
  });
  locked = false;
}

dispatch-dispatched :
    (s : Sched) (a hart : ℕ) (p : Process)
    → s.procs a ≡ some p
    → dispatch s a hart
      ≡ some (
        record { proc = a; hart = hart; timer = context_switch_timer * p.quantum % 2 ^ 64 },
        dispatched s a hart p,
      )
unfolding dispatch mutex_unlock
dispatch-dispatched s a hart p h = rw h refl

awaken_running : (now : ℕ) (q : Process) → q.state ≡ ps_running → (awaken now q).state ≡ ps_running
unfolding awaken
awaken_running now q i = elim (Bool-cases (is_sleeping q.state && leb q.sleep_until now)) [
  | inl j ↦ rw j refl
  | inr j ↦ rw j i
]

module _ (fuel e v : ℕ) (cs : Cells) (enough : length ((e, v) ∷ cs) < fuel)
    (fits : length ((e, v) ∷ cs) < 2 ^ 64) (full : v ≢ null) where
  -- One call runs the oldest process and ends in a state of the same kind.
  one_turn :
      (s : Sched) (t : Turn)
      → AtOldest s e v cs
      → (d : Dispatch) × (s' : Sched) × (round_robin fuel s t.0 t.1 t.2 ≡ some (d, s'))
        × (d.proc ≡ v)
        × AtOldest s' e v cs
  one_turn s t o =
      let there : s.current ≢ null = λ i. ground (arith, o.list.no_null, o.at) in
      let r = ready fuel s t.0 t.1 t.2 ((e, v) ∷ cs) o.list o.live o.idle enough o.unlocked there in
      let s2 = record s { procs = r.procs; locked = true } in
      let q = r.kept v o.running.0 o.running.1 in
      let state : q.0.state ≡ ps_running =
        q.2 (has_value_first e v cs) ∙ awaken_running t.0 o.running.0 o.running.2 in
      let step = advance_oldest fuel s2 e v cs o.list enough fits r.proc q.0 q.1 o.at in
      let named : v == null ≡ false = ground (arith, full) in
      let s3 = record s2 { current = e } in
      let run : round_robin fuel s t.0 t.1 t.2 ≡ dispatch s3 v t.2 =
        r.run ∙ rw step (rw (ap is_running state) (rw named refl)) in
      let kept =
        put_kept r.procs v q.0
          (record q.0 {
            hart = t.2;
            trap_stack = s.trap_stack_vaddr;
            vruntime = (q.0.vruntime + 1) % 2 ^ 64;
          })
          q.1 refl in
      let alive : (a : ℕ) → LiveAt s.procs a → LiveAt (dispatched s3 v t.2 q.0).procs a =
        λ a l. let x = r.kept a l.0 l.1 in let y = kept a x.0 x.1 in (y.0, y.1) in
      let z = kept v q.0 q.1 in
      (
        record { proc = v; hart = t.2; timer = context_switch_timer * q.0.quantum % 2 ^ 64 },
        dispatched s3 v t.2 q.0,
        run ∙ dispatch-dispatched s3 v t.2 q.0 q.1,
        refl,
        record {
          list = o.list;
          live = λ a i. alive a (o.live a i);
          idle = alive s.idle o.idle;
          unlocked = refl;
          at = refl;
          running = (z.0, z.1, z.2 ∙ state);
        },
      )

  all_turns :
      (ts : List Turn) (s : Sched)
      → AtOldest s e v cs
      → (s' : Sched) × (turns fuel s ts ≡ some (replicate (length ts) v, s')) × AtOldest s' e v cs
  unfolding turns replicate length
  all_turns [] s o = (s, refl, o)
  all_turns (t ∷ ts) s o =
      let d = one_turn s t o in
      let rest = all_turns ts d.1 d.4 in (rest.0, rw d.2 (rw rest.1 (rw d.3 refl)), rest.2)

-- On a list of processes that all exist, as the idle one does, with the lock free: where the position is the
-- oldest element and its process is running, `round_robin` with enough fuel runs that process at each of
-- any number of calls in a row, on whatever harts, and no other process ever.
pub round_robin-starves :
    (fuel : ℕ) (s : Sched) (e v : ℕ) (cs : Cells) (ts : List Turn)
    → AtOldest s e v cs
    → length ((e, v) ∷ cs) < fuel
    → length ((e, v) ∷ cs) < 2 ^ 64
    → v ≢ null
    → (s' : Sched) × (turns fuel s ts ≡ some (replicate (length ts) v, s')) × AtOldest s' e v cs
round_robin-starves fuel s e v cs ts o enough fits full =
    all_turns fuel e v cs enough fits full ts s o
