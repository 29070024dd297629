-- ===== src/Sched/Wake.antt =====
-- The loops over the list of processes: get_proc_on_hart and awaken_sleeping_procs.
use cs.Base.{
  ℕ, zero, suc, ◌<◌, ◌≡◌, inl, inr, refl, sym, ap, ◌∙◌, arith, Bool-cases, true, false, ◌&&◌, [],
  ◌∷◌, Option, none, some, ltb, leb, ◌==◌, if◌then◌else◌,
}
use cs.Base.Lists.{length}
use cs.Memory.{null}
use cs.Util.LinkedList.{Store, list_elem_valid, list_elem_start_ascending}
use cs.Util.LinkedList.Chain.{Cells, occurs, Chain, Chain.done, Chain.step, IsList}
use cs.Util.LinkedList.Search.{has_value}
use cs.Sched.{
  Process, ProcessState, ps_dead, ps_waiting, ps_sleeping, ps_running, Procs, Sched, put, awaken,
  awaken_from, awaken_sleeping_procs, proc_from, get_proc_on_hart, is_sleeping,
}

-- A process is there for each value of the list.
abbrev pub Live : Procs → Cells → Type 0
Live ps cs = (v : ℕ) → has_value v cs ≡ true → (p : Process) × (ps v ≡ some p)

-- The state of a process after the waking: a sleeping one runs if the time it sleeps until is not later.
abbrev pub state_after : ℕ → ℕ → ProcessState → ProcessState
state_after now until ps_dead = ps_dead
state_after now until ps_waiting = ps_waiting
state_after now until ps_sleeping = if ltb now until then ps_sleeping else ps_running
state_after now until ps_running = ps_running

state_after_lem :
    (now : ℕ) (p : Process) (st : ProcessState)
    → (if is_sleeping st && leb p.sleep_until now
        then record p { state = ps_running }
        else record p { state = st })
      ≡ record p { state = state_after now p.sleep_until st }
state_after_lem now p ps_dead = refl
state_after_lem now p ps_waiting = refl
state_after_lem now p ps_sleeping = elim (Bool-cases (ltb now p.sleep_until)) [
  | inl e ↦ let late : leb p.sleep_until now ≡ false = ground (arith, e) in rw (e, late) refl
  | inr e ↦ let due : leb p.sleep_until now ≡ true = ground (arith, e) in rw (e, due) refl
]
state_after_lem now p ps_running = refl

pub awaken-state_after :
    (now : ℕ) (p : Process)
    → awaken now p ≡ record p { state = state_after now p.sleep_until p.state }
unfolding awaken
awaken-state_after now p = state_after_lem now p p.state

abbrev pub wake : ℕ → Option Process → Option Process
wake now none = none
wake now (some p) = some (record p { state = state_after now p.sleep_until p.state })

-- The processes after those of the list that are due have been woken.
abbrev pub woken : ℕ → Cells → Procs → Procs
woken now cs ps a = if has_value a cs then wake now (ps a) else ps a

awaken-awaken : (now : ℕ) (p : Process) → awaken now (awaken now p) ≡ awaken now p
unfolding awaken
awaken-awaken now p = elim (Bool-cases (is_sleeping p.state && leb p.sleep_until now)) [
  | inl h ↦ rw h refl
  | inr h ↦ rw (h, h) refl
]

pub Live-put : {ps : Procs} (cs : Cells) (a : ℕ) (p : Process) → Live ps cs → Live (put ps a p) cs
Live-put {ps} cs a p live v i = elim (Bool-cases (v == a)) [
  | inl same ↦ (p, rw same refl)
  | inr other ↦ let q = live v i in (q.0, rw other q.1)
]

woken-step :
    (now : ℕ) (p v : ℕ) (cs : Cells) (ps : Procs) (q : Process) (a : ℕ)
    → ps v ≡ some q
    → woken now cs (put ps v (awaken now q)) a ≡ woken now ((p, v) ∷ cs) ps a
unfolding has_value
woken-step now p v cs ps q a h =
    let twice : wake now (some (awaken now q)) ≡ some (awaken now q) =
      ap some (sym (awaken-state_after now (awaken now q)) ∙ awaken-awaken now q) in
    let once : wake now (some q) ≡ some (awaken now q) = ap some (sym (awaken-state_after now q)) in
    elim (Bool-cases (a == v)) [
      | inl same ↦ let here : a ≡ v = ground arith in rw (here, h) (ground (arith, twice, once))
      | inr other ↦ ground (arith)
    ]

awaken_from-woken :
    (fuel : ℕ) {elems : Store} {lst last from e : ℕ} {cs : Cells} (now : ℕ) (ps : Procs)
    → Chain elems lst last from e cs
    → occurs null cs ≡ false
    → occurs lst cs ≡ false
    → Live ps cs
    → length cs < fuel
    → (ps' : Procs) × (awaken_from fuel elems lst now ps e ≡ some ps')
      × ((a : ℕ) → ps' a ≡ woken now cs ps a)
unfolding awaken_from has_value length
awaken_from-woken zero now ps c nn out live enough = ground arith
awaken_from-woken (suc fuel) now ps done nn out live enough = (ps, ground arith, λ a. refl)
awaken_from-woken (suc fuel) {lst} now ps (step {p} {v} {cs} h o c) nn out live enough =
    let q = live v (ground arith) in
    let rest =
      awaken_from-woken fuel now (put ps v (awaken now q.0)) c (ground arith) (ground arith)
        (Live-put cs v (awaken now q.0) (λ a i. live a (ground arith))) (ground arith) in
    let valid : list_elem_valid lst p ≡ true = ground arith in
    (rest.0, rw (valid, h, q.1) rest.1, λ a. rest.2 a ∙ woken-step now p v cs ps q.0 a q.1)

-- The value of the first element whose process is on the hart, or NULL.
unfoldable pub proc_on : ℕ → Procs → Cells → ℕ
proc_on hart ps [] = null
proc_on hart ps (c ∷ cs) =
    let rest = proc_on hart ps cs in
    elim (ps c.1) [ none ↦ rest | some p ↦ if p.hart == hart then c.1 else rest ]

pub list_elem_start_ascending-first :
    (elems : Store) (lst : ℕ) (cs : Cells) (l : IsList elems lst cs)
    → list_elem_start_ascending elems lst ≡ some l.first
unfolding list_elem_start_ascending
list_elem_start_ascending-first elems lst cs l = rw (l.head) refl

proc_from-proc_on :
    (fuel : ℕ) (s : Sched) {last from e : ℕ} {cs : Cells} (hart : ℕ)
    → Chain s.elems s.processes last from e cs
    → occurs null cs ≡ false
    → occurs s.processes cs ≡ false
    → Live s.procs cs
    → length cs < fuel
    → proc_from fuel s e hart ≡ some (proc_on hart s.procs cs)
unfolding proc_from proc_on has_value length
proc_from-proc_on zero s hart c nn out live enough = ground arith
proc_from-proc_on (suc fuel) s hart done nn out live enough = ground arith
proc_from-proc_on (suc fuel) s hart (step {p} {v} {cs} h o c) nn out live enough =
    let q = live v (ground arith) in
    let rest =
      proc_from-proc_on fuel s hart c (ground arith) (ground arith) (λ a i. live a (ground arith))
        (ground arith) in
    let valid : list_elem_valid s.processes p ≡ true = ground arith in
    rw (valid, h, q.1) (ground (arith, rest))

-- `get_proc_on_hart` returns the first process that is on the hart.
pub get_proc_on_hart-proc_on :
    (fuel : ℕ) (s : Sched) (hart : ℕ) (cs : Cells)
    → IsList s.elems s.processes cs
    → Live s.procs cs
    → length cs < fuel
    → get_proc_on_hart fuel s hart ≡ some (proc_on hart s.procs cs)
unfolding get_proc_on_hart
get_proc_on_hart-proc_on fuel s hart cs l live enough =
    rw (list_elem_start_ascending-first s.elems s.processes cs l)
      (proc_from-proc_on fuel s hart l.chain l.no_null l.apart live enough)

-- On a list of processes that all exist, `awaken_sleeping_procs` with enough fuel ends. Of the processes of
-- the list, a sleeping one whose time is not after the present runs, and keeps its other fields; every other
-- process, the other states and the rest of the scheduler stay as they were.
pub awaken_sleeping_procs-woken :
    (fuel : ℕ) (s : Sched) (now : ℕ) (cs : Cells)
    → IsList s.elems s.processes cs
    → Live s.procs cs
    → length cs < fuel
    → (ps : Procs) × (awaken_sleeping_procs fuel s now ≡ some (record s { procs = ps }))
      × ((a : ℕ) → ps a ≡ woken now cs s.procs a)
unfolding awaken_sleeping_procs
awaken_sleeping_procs-woken fuel s now cs l live enough =
    let r = awaken_from-woken fuel now s.procs l.chain l.no_null l.apart live enough in
    (r.0, rw (list_elem_start_ascending-first s.elems s.processes cs l) (rw r.1 refl), r.2)
