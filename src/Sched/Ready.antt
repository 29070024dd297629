-- ===== src/Sched/Ready.antt =====
-- round_robin up to the choice of the next process, and from that choice on.
use cs.Base.{
  ℕ, ◌+◌, ◌<◌, ◌*◌, ◌%◌, ◌^◌, ◌≡◌, ◌≢◌, ◌⊎◌, inl, inr, refl, sym, ap, ◌∙◌, arith, Bool-cases, true,
  false, [], ◌∷◌, Option, none, some, ◌==◌, if◌then◌else◌, ◌>>=◌,
}
use cs.Base.Lists.{length}
use cs.Memory.{null}
use cs.Util.LinkedList.Chain.{Cells, IsList}
use cs.Util.LinkedList.Search.{has_value}
use cs.Sched.{
  Process, ProcessState, Procs, Sched, Dispatch, put, awaken, on_hart, leave_hart, advance,
  dispatch, start_elem, round_robin, mutex_spinlock, mutex_unlock, no_hart, context_switch_timer,
}
use cs.Sched.Wake.{
  Live, woken, awaken-state_after, proc_on, get_proc_on_hart-proc_on, awaken_sleeping_procs-woken,
}

abbrev pub LiveAt : Procs → ℕ → Type 0
LiveAt ps a = (p : Process) × (ps a ≡ some p)

proc_on-LiveAt :
    (hart : ℕ) (ps : Procs) (cs : Cells)
    → (proc_on hart ps cs ≡ null) ⊎ LiveAt ps (proc_on hart ps cs)
unfolding proc_on
proc_on-LiveAt hart ps [] = inl refl
proc_on-LiveAt hart ps ((e, v) ∷ cs) = go (ps v) refl (proc_on-LiveAt hart ps cs)
  where
    go :
        (o : Option Process)
        → ps v ≡ o
        → (proc_on hart ps cs ≡ null) ⊎ LiveAt ps (proc_on hart ps cs)
        → (proc_on hart ps ((e, v) ∷ cs) ≡ null) ⊎ LiveAt ps (proc_on hart ps ((e, v) ∷ cs))
    go none i rest = rw (proc_on, i) rest
    go (some p) i rest = elim (Bool-cases (p.hart == hart)) [
      | inl h ↦ rw (proc_on, i, h) (inr (p, i))
      | inr h ↦ rw (proc_on, i, h) rest
    ]

-- What `round_robin` runs where its search finds a process to run, and where it finds none.
abbrev pub chosen : Sched → ℕ → ℕ
chosen s p = if p == null then s.idle else p

-- What a process keeps from the start of a run to the choice: its state, but for being woken.
abbrev pub Kept : ℕ → Cells → Procs → Procs → Type 0
Kept now cs ps ps' =
    (a : ℕ) (q : Process)
    → ps a ≡ some q
    → (q' : Process) × (ps' a ≡ some q') × (has_value a cs ≡ true → q'.state ≡ (awaken now q).state)

-- The parts of `round_robin` before the choice: they end with the same list and position, where the
-- processes are woken, and the one that was on the hart has left it.
pub record Ready (fuel : ℕ) (s : Sched) (now sepc hart : ℕ) (cs : Cells) : Type 0 where
  pub proc : ℕ
  pub procs : Procs
  pub live : (proc ≡ null) ⊎ LiveAt procs proc
  pub kept : Kept now cs s.procs procs
  pub kept_none : (a : ℕ) → s.procs a ≡ none → procs a ≡ none
  pub run : round_robin fuel s now sepc hart ≡ (
      advance fuel (record s { procs = procs; locked = true }) proc
      >>= (λ r. dispatch r.1 r.0 hart))

Kept-woken :
    (now : ℕ) (cs : Cells) (ps ps' : Procs)
    → ((a : ℕ) → ps' a ≡ woken now cs ps a)
    → Kept now cs ps ps'
Kept-woken now cs ps ps' f a q h = elim (Bool-cases (has_value a cs)) [
  | inl i ↦ (awaken now q, f a ∙ rw (i, h) (ap some (sym (awaken-state_after now q))), λ j. refl)
  | inr i ↦ (q, f a ∙ rw i h, λ j. ground (arith, i, j))
]

state_or : ProcessState → Option Process → ProcessState
state_or d none = d
state_or d (some p) = p.state

pub put_kept :
    (ps : Procs) (p : ℕ) (q q' : Process)
    → ps p ≡ some q
    → q'.state ≡ q.state
    → (a : ℕ) (r : Process) → ps a ≡ some r
    → (r' : Process) × (put ps p q' a ≡ some r') × (r'.state ≡ r.state)
unfolding state_or
put_kept ps p q q' h st a r k = elim (Bool-cases (a == p)) [
  | inl i ↦
      let here : a ≡ p = ground arith in
      let same : some q ≡ some r = sym h ∙ ap ps (sym here) ∙ k in
      (q', rw i refl, st ∙ ap (state_or q.state) same)
  | inr i ↦ (r, rw i k, refl)
]

leave_hart_run :
    (s : Sched) (p sepc : ℕ)
    → (p ≡ null) ⊎ LiveAt s.procs p
    → (ps : Procs) × (leave_hart s p sepc ≡ some (record s { procs = ps }))
      × ((a : ℕ) (q : Process)
          → s.procs a ≡ some q
          → (q' : Process) × (ps a ≡ some q') × (q'.state ≡ q.state))
      × ((a : ℕ) → s.procs a ≡ none → ps a ≡ none)
unfolding leave_hart
leave_hart_run s p sepc live = elim (Bool-cases (p == null)) [
  | inl i ↦ (s.procs, rw i refl, (λ a q h. (q, h, refl)), λ a h. h)
  | inr i ↦ elim live [
    | inl j ↦ ground (arith, i, j)
    | inr l ↦
        let q' = record l.0 { sepc = sepc; hart = no_hart } in
        (
          put s.procs p q',
          rw i (rw l.1 refl),
          put_kept s.procs p l.0 q' l.1 refl,
          λ a h. elim (Bool-cases (a == p)) [
            | inl k ↦
                let here : a ≡ p = ground arith in
                let clash : some l.0 ≡ none = sym l.1 ∙ ap s.procs (sym here) ∙ h in
                ground (arith, clash)
            | inr k ↦ rw k h
          ],
        )
  ]
]

on_hart_run :
    (fuel : ℕ) (s : Sched) (hart : ℕ) (cs : Cells)
    → IsList s.elems s.processes cs
    → Live s.procs cs
    → LiveAt s.procs s.idle
    → length cs < fuel
    → (p : ℕ) × (on_hart fuel s hart ≡ some p) × ((p ≡ null) ⊎ LiveAt s.procs p)
unfolding on_hart
on_hart_run fuel s hart cs l live idle enough =
    let found = get_proc_on_hart-proc_on fuel s hart cs l live enough in
    elim (Bool-cases (proc_on hart s.procs cs == null)) [
      | inl i ↦ elim (Bool-cases (idle.0.hart == hart)) [
        | inl j ↦ (s.idle, rw found (rw (i, idle.1) (rw j refl)), inr idle)
        | inr j ↦ (null, rw found (rw (i, idle.1) (rw j refl)), inl refl)
      ]
      | inr i ↦ (proc_on hart s.procs cs, rw found (rw i refl), proc_on-LiveAt hart s.procs cs)
    ]

pub ready :
    (fuel : ℕ) (s : Sched) (now sepc hart : ℕ) (cs : Cells)
    → IsList s.elems s.processes cs
    → Live s.procs cs
    → LiveAt s.procs s.idle
    → length cs < fuel
    → s.locked ≡ false
    → s.current ≢ null
    → Ready fuel s now sepc hart cs
unfolding round_robin mutex_spinlock start_elem
ready fuel s now sepc hart cs l live idle enough unlocked at =
    let s1 = record s { locked = true } in
    let w = awaken_sleeping_procs-woken fuel s1 now cs l live enough in
    let s2 = record s1 { procs = w.0 } in
    let kept2 : Kept now cs s.procs w.0 = Kept-woken now cs s.procs w.0 w.2 in
    let live2 : Live w.0 cs = λ v i. let p = live v i in let p' = kept2 v p.0 p.1 in (p'.0, p'.1) in
    let idle2 : LiveAt w.0 s.idle = let p' = kept2 s.idle idle.0 idle.1 in (p'.0, p'.1) in
    let h = on_hart_run fuel s2 hart cs l live2 idle2 enough in
    let t = leave_hart_run s2 h.0 sepc h.2 in
    let going : s.current == null ≡ false = ground (arith, at) in
    record {
      proc = h.0;
      procs = t.0;
      live = elim h.2 [ inl i ↦ inl i | inr p ↦ let x = t.2 h.0 p.0 p.1 in inr (x.0, x.1) ];
      kept =
          λ a q k. let p = kept2 a q k in let p' = t.2 a p.0 p.1 in (p'.0, p'.1, λ i. p'.2 ∙ p.2 i);
      kept_none = λ a k. t.3 a (w.2 a ∙ ground (arith, k));
      run = rw unlocked (rw w.1 (rw going (rw h.1 (rw t.1 refl))));
    }

-- `dispatch` runs a process that is there.
pub dispatch_run :
    (s : Sched) (a hart : ℕ)
    → LiveAt s.procs a
    → (d : Dispatch) × (s' : Sched) × (dispatch s a hart ≡ some (d, s'))
      × (d.proc ≡ a)
      × (s'.current ≡ s.current)
      × (s'.locked ≡ false)
unfolding dispatch mutex_unlock
dispatch_run s a hart l = (
  record { proc = a; hart = hart; timer = context_switch_timer * l.0.quantum % 2 ^ 64 },
  mutex_unlock (record s {
    procs = put s.procs a (record l.0 {
      hart = hart;
      trap_stack = s.trap_stack_vaddr;
      vruntime = (l.0.vruntime + 1) % 2 ^ 64;
    });
  }),
  rw l.1 refl,
  refl,
  refl,
  refl,
)

pub chosen-LiveAt :
    (s : Sched) (ps : Procs) (p : ℕ)
    → LiveAt ps s.idle
    → (p ≡ null) ⊎ LiveAt ps p
    → LiveAt ps (chosen s p)
chosen-LiveAt s ps p idle (inl i) = rw i idle
chosen-LiveAt s ps p idle (inr q) = elim (Bool-cases (p == null)) [
  | inl i ↦ rw i idle
  | inr i ↦ rw i q
]
