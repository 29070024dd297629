-- ===== src/Sched/Tests.antt =====
-- The scheduler's theorems on three processes, and how it runs on them.
use cs.Base.{
  ℕ, ◌≡◌, refl, arith, Bool-cases, inl, inr, false, [], ◌∷◌, none, some, ◌==◌, if◌then◌else◌,
}
use cs.Util.LinkedList.{elem, Store}
use cs.Util.LinkedList.Chain.{Cells, Chain.done, Chain.step, IsList}
use cs.Util.LinkedList.Search.{has_value}
use cs.Sched.{
  Process, ProcessState, ps_running, ps_sleeping, Procs, Sched, Dispatch, no_hart, awaken,
  round_robin, awaken_sleeping_procs, sleep_until,
}
use cs.Sched.Wake.{Live, woken, awaken_sleeping_procs-woken}
use cs.Sched.Starve.{AtOldest, turns, round_robin-starves}
use cs.Sched.Skip.{round_robin-skips}
use cs.Sched.Members.{sleep_until-refused}

-- The head at 10, and three elements from the oldest on.
abbrev three_elems : Store
three_elems x =
    if x == 10
    then some (elem 7 40 20)
    else if x == 20
    then some (elem 100 10 30)
    else if x == 30
    then some (elem 200 20 40)
    else if x == 40
    then some (elem 300 30 10)
    else none

abbrev three_cells : Cells
three_cells = (20, 100) ∷ (30, 200) ∷ (40, 300) ∷ []

abbrev process : ProcessState → ℕ → Process
process state hart = record {
  state = state;
  hart = hart;
  sleep_until = 5;
  sepc = 0;
  trap_stack = 0;
  vruntime = 0;
  quantum = 1;
}

-- The second process sleeps, the third is on hart 0; 900 is the idle process.
abbrev three_procs : Procs
three_procs a =
    if a == 100
    then some (process ps_running no_hart)
    else if a == 200
    then some (process ps_sleeping no_hart)
    else if a == 300
    then some (process ps_running 0)
    else if a == 900
    then some (process ps_running no_hart)
    else none

abbrev sched_at : ℕ → Sched
sched_at current = record {
  elems = three_elems;
  procs = three_procs;
  processes = 10;
  current = current;
  idle = 900;
  global_proc = 300;
  locked = false;
  trap_stack_vaddr = 4096;
}

three-IsList : IsList three_elems 10 three_cells
three-IsList = record {
  first = 20;
  last = 40;
  head_value = 7;
  head = refl;
  chain = step refl refl (step refl refl (step refl refl done));
  apart = refl;
  no_null = refl;
  not_null = λ i. ground arith;
}

three-Live : Live three_procs three_cells
unfolding has_value
three-Live v i = elim (Bool-cases (v == 100)) [
  | inl a ↦ (process ps_running no_hart, rw a refl)
  | inr a ↦ elim (Bool-cases (v == 200)) [
    | inl b ↦ (process ps_sleeping no_hart, rw (a, b) refl)
    | inr b ↦ elim (Bool-cases (v == 300)) [
      | inl c ↦ (process ps_running 0, rw (a, b, c) refl)
      | inr c ↦ ground (arith, a, b, c, i)
    ]
  ]
]

awaken_sleeping_procs-woken_example :
    (ps : Procs) × (awaken_sleeping_procs 4 (sched_at 40) 9
      ≡ some (record (sched_at 40) { procs = ps }))
    × ((a : ℕ) → ps a ≡ woken 9 three_cells three_procs a)
awaken_sleeping_procs-woken_example =
    awaken_sleeping_procs-woken 4 (sched_at 40) 9 three_cells three-IsList three-Live (omega arith)

oldest : AtOldest (sched_at 20) 20 100 ((30, 200) ∷ (40, 300) ∷ [])
oldest = record {
  list = three-IsList;
  live = three-Live;
  idle = (process ps_running no_hart, refl);
  unlocked = refl;
  at = refl;
  running = (process ps_running no_hart, refl, refl);
}

round_robin-starves_example :
    (s' : Sched) × (turns 4 (sched_at 20) ((9, 0, 0) ∷ (10, 0, 1) ∷ []) ≡ some (100 ∷ 100 ∷ [], s'))
    × AtOldest s' 20 100 ((30, 200) ∷ (40, 300) ∷ [])
round_robin-starves_example =
    round_robin-starves 4 (sched_at 20) 20 100 ((30, 200) ∷ (40, 300) ∷ [])
      ((9, 0, 0) ∷ (10, 0, 1) ∷ []) oldest (omega arith) (omega arith) (λ i. ground arith)

round_robin-skips_example :
    (d : Dispatch) × (s' : Sched) × (round_robin 4 (sched_at 40) 9 0 0 ≡ some (d, s'))
    × (d.proc ≡ 100)
    × (s'.current ≡ 20)
    × (s'.locked ≡ false)
unfolding awaken
round_robin-skips_example =
    round_robin-skips 4 (sched_at 40) 9 0 0 20 100 30 200 40 300 [] [] (process ps_running no_hart)
      three-IsList three-Live (process ps_running no_hart, refl) (omega arith) (omega arith) refl
      refl refl (λ i. ground arith) refl

sleep_until-refused_example :
    (s' : Sched) × (sleep_until (sched_at 40) 300 5 9 ≡ some (false, s'))
    × (s'.procs ≡ three_procs)
    × ((fuel later sepc hart : ℕ) → round_robin fuel s' later sepc hart ≡ none)
sleep_until-refused_example =
    sleep_until-refused (sched_at 40) 300 5 9 (process ps_running 0) refl refl (λ i. ground arith)
