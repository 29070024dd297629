-- ===== src/Sched.antt =====
-- src/sched.c: the round-robin scheduler over the list of processes, as `sched_invoke` runs it. `none`
-- is a fault, a lock that is never released, or the end of the fuel of a loop. The time, the program
-- counter that `CSR_READ` gives and the addresses of new list elements are arguments. A run of
-- `round_robin` ends at the call of `process_run`, whose arguments and those of the timer are its
-- result; the trap stack is mapped into the process's page table by `mmu_map`, which is in `Mmu`.
pub mod Wake
pub mod Ready
pub mod Rotate
pub mod Skip
pub mod Starve
pub mod Members
mod Tests
use cs.Base.{
  ℕ, zero, suc, ◌+◌, ◌-◌, ◌*◌, ◌/◌, ◌%◌, ◌^◌, Bool, true, false, ◌&&◌, Option, none, some, leb,
  ◌==◌, if◌then◌else◌, ◌>>=◌,
}
use cs.Memory.{null}
use cs.Util.LinkedList.{
  ListElem, Store, list_add, list_remove, list_size, list_elem_valid, list_elem_next,
  list_elem_value, list_elem_start_ascending, list_elem_start_descending,
}

pub data ProcessState : Type 0 where
  ps_dead : ProcessState
  ps_waiting : ProcessState
  ps_sleeping : ProcessState
  ps_running : ProcessState

abbrev pub is_running : ProcessState → Bool
is_running ps_dead = false
is_running ps_waiting = false
is_running ps_sleeping = false
is_running ps_running = true

abbrev pub is_sleeping : ProcessState → Bool
is_sleeping ps_dead = false
is_sleeping ps_waiting = false
is_sleeping ps_sleeping = true
is_sleeping ps_running = false

-- The fields of a process that the scheduler reads or writes.
pub record Process : Type 0 where
  pub state : ProcessState
  pub hart : ℕ
  pub sleep_until : ℕ
  pub sepc : ℕ
  pub trap_stack : ℕ
  pub vruntime : ℕ
  pub quantum : ℕ

abbrev pub Procs : Type 0
Procs = ℕ → Option Process

abbrev pub put : Procs → ℕ → Process → Procs
put ps a p x = if x == a then some p else ps x

-- `g_processes`, `curr_list_elem`, `idle_process`, `global_proc` and `tree_lock`, with the list elements
-- and the processes in memory.
pub record Sched : Type 0 where
  pub elems : Store
  pub procs : Procs
  pub processes : ℕ
  pub current : ℕ
  pub idle : ℕ
  pub global_proc : ℕ
  pub locked : Bool
  pub trap_stack_vaddr : ℕ

-- `HART_NONE`, `NO_HART`, `-1U`
abbrev pub no_hart : ℕ
no_hart = 2 ^ 32 - 1

-- `CONTEXT_SWITCH_TIMER`
abbrev pub context_switch_timer : ℕ
context_switch_timer = 10000000 / 200

-- The spinning on a lock that is taken does not end, as nothing else runs in the model.
pub mutex_spinlock : Sched → Option Sched
mutex_spinlock s = if s.locked then none else some (record s { locked = true })

abbrev pub mutex_unlock : Sched → Sched
mutex_unlock s = record s { locked = false }

pub sched_add : Sched → ℕ → ℕ → Option Sched
sched_add s l p = do
  elems ← list_add s.elems s.processes l p
  some (record s { elems = elems; global_proc = p })

pub sched_remove : ℕ → Sched → ℕ → Option Sched
sched_remove fuel s p = do
  s ← mutex_spinlock s
  (found, elems) ← list_remove fuel s.elems s.processes p
  some (mutex_unlock (record s { elems = elems }))

-- The loop of `get_proc_on_hart`.
unfoldable pub proc_from : ℕ → Sched → ℕ → ℕ → Option ℕ
unfolding list_elem_valid
proc_from zero s e hart = none
proc_from (suc fuel) s e hart =
    if list_elem_valid s.processes e
    then (do
      n ← s.elems e
      p ← s.procs n.value
      if p.hart == hart then some n.value else proc_from fuel s n.prev hart)
    else some null

pub get_proc_on_hart : ℕ → Sched → ℕ → Option ℕ
get_proc_on_hart fuel s hart = do
  e ← list_elem_start_ascending s.elems s.processes
  proc_from fuel s e hart

pub sleep_until : Sched → ℕ → ℕ → ℕ → Option (Bool × Sched)
sleep_until s a time now = do
  s ← mutex_spinlock s
  p ← s.procs a
  if p.hart == no_hart
      then (let p = record p { sleep_until = (now + time) % 2 ^ 64; state = ps_sleeping } in
          some (true, mutex_unlock (record s { procs = put s.procs a p })))
      else some (false, s)

-- One process in the loop of `awaken_sleeping_procs`.
pub awaken : ℕ → Process → Process
awaken now p =
    if is_sleeping p.state && leb p.sleep_until now then record p { state = ps_running } else p

-- The loop of `awaken_sleeping_procs`.
unfoldable pub awaken_from : ℕ → Store → ℕ → ℕ → Procs → ℕ → Option Procs
unfolding list_elem_valid
awaken_from zero elems lst now ps e = none
awaken_from (suc fuel) elems lst now ps e =
    if list_elem_valid lst e
    then (do
      n ← elems e
      p ← ps n.value
      awaken_from fuel elems lst now (put ps n.value (awaken now p)) n.prev)
    else some ps

pub awaken_sleeping_procs : ℕ → Sched → ℕ → Option Sched
awaken_sleeping_procs fuel s now = do
  e ← list_elem_start_ascending s.elems s.processes
  ps ← awaken_from fuel s.elems s.processes now s.procs e
  some (record s { procs = ps })

-- The `while` loop of `round_robin`: the process `p` to run and `curr_list_elem`.
unfoldable pub next_from : ℕ → Sched → ℕ → ℕ → ℕ → Option (ℕ × ℕ)
unfolding list_elem_valid
next_from zero s prev e p = none
next_from (suc fuel) s prev e p = if e == prev then some (p, e) else (do
  e ←
      (if list_elem_valid s.processes e
        then list_elem_next s.elems e
        else list_elem_start_ascending s.elems s.processes)
  a ← list_elem_value s.elems e
  q ← s.procs a
  if is_running q.state then some (a, e) else next_from fuel s prev e p)

-- The process on the hart, or the idle process where that is the one on it, or NULL.
pub on_hart : ℕ → Sched → ℕ → Option ℕ
on_hart fuel s hart = do
  p ← get_proc_on_hart fuel s hart
  if p == null
      then (do idle ← s.procs s.idle; some (if idle.hart == hart then s.idle else null))
      else some p

-- `p->frame.sepc = sepc; p->hart = -1U` unless `p` is NULL
pub leave_hart : Sched → ℕ → ℕ → Option Sched
leave_hart s a sepc = if a == null then some s else (do
  p ← s.procs a
  some (record s { procs = put s.procs a (record p { sepc = sepc; hart = no_hart }) }))

-- The choice of the next process.
pub advance : ℕ → Sched → ℕ → Option (ℕ × Sched)
advance fuel s p = do
  e ← list_elem_next s.elems s.current
  size ← list_size fuel s.elems s.processes
  (p, e) ← (if size == 0 then some (p, e) else next_from fuel s s.current e p)
  some (if p == null then s.idle else p, record s { current = e })

-- What `sbi_add_timer` and `process_run` are called with.
pub record Dispatch : Type 0 where
  pub proc : ℕ
  pub hart : ℕ
  pub timer : ℕ

-- From `p->hart = hart` on.
pub dispatch : Sched → ℕ → ℕ → Option (Dispatch × Sched)
dispatch s a hart = do
  p ← s.procs a
  some (
    record { proc = a; hart = hart; timer = context_switch_timer * p.quantum % 2 ^ 64 },
    mutex_unlock (record s {
      procs = put s.procs a (record p {
        hart = hart;
        trap_stack = s.trap_stack_vaddr;
        vruntime = (p.vruntime + 1) % 2 ^ 64;
      });
    }),
  )

-- `curr_list_elem` at the start of a run
pub start_elem : Sched → Option Sched
start_elem s =
    if s.current == null
    then (do e ← list_elem_start_descending s.elems s.processes; some (record s { current = e }))
    else some s

pub round_robin : ℕ → Sched → ℕ → ℕ → ℕ → Option (Dispatch × Sched)
round_robin fuel s now sepc hart = do
  s ← mutex_spinlock s
  s ← awaken_sleeping_procs fuel s now
  s ← start_elem s
  p ← on_hart fuel s hart
  s ← leave_hart s p sepc
  (p, s) ← advance fuel s p
  dispatch s p hart

pub sched_invoke : ℕ → Sched → ℕ → ℕ → ℕ → Option (Dispatch × Sched)
sched_invoke = round_robin
