-- ===== src/Sched/Members.antt =====
-- sched_add, sched_remove and sleep_until.
use cs.Base.{ℕ, ◌<◌, ◌≡◌, ◌≢◌, refl, arith, true, false, [], ◌∷◌, ◌++◌, none, some, ◌==◌}
use cs.Base.Lists.{length}
use cs.Memory.{null}
use cs.Util.LinkedList.Chain.{Cells, occurs, IsList}
use cs.Util.LinkedList.Search.{has_value}
use cs.Sched.{Process, Sched, round_robin, mutex_spinlock, mutex_unlock, no_hart, sleep_until}
use cs.Util.LinkedList.Search.{remove_value, list_remove-IsList}
use cs.Util.LinkedList.Add.{list_add-IsList}
use cs.Util.LinkedList.Clear.{relist}
use cs.Sched.{sched_add, sched_remove}

-- With the lock free, `sleep_until` of a process on a hart returns false, changes no process and keeps the
-- lock, so that no run of `round_robin` after it returns.
pub sleep_until-refused :
    (s : Sched) (a time now : ℕ) (p : Process)
    → s.locked ≡ false
    → s.procs a ≡ some p
    → p.hart ≢ no_hart
    → (s' : Sched) × (sleep_until s a time now ≡ some (false, s'))
      × (s'.procs ≡ s.procs)
      × ((fuel later sepc hart : ℕ) → round_robin fuel s' later sepc hart ≡ none)
unfolding sleep_until round_robin mutex_spinlock
sleep_until-refused s a time now p unlocked h ne =
    let on : p.hart == no_hart ≡ false = ground (arith, ne) in
    (
      record s { locked = true },
      rw unlocked (rw h (rw on refl)),
      refl,
      λ fuel later sepc hart. refl,
    )

remove_value-◌++◌ :
    (p l : ℕ) (cs : Cells)
    → has_value p cs ≡ false
    → (has_value p (cs ++ (l, p) ∷ []) ≡ true) × (remove_value p (cs ++ (l, p) ∷ []) ≡ cs)
unfolding has_value remove_value
remove_value-◌++◌ p l [] out = (ground arith, ground arith)
remove_value-◌++◌ p l (c ∷ cs) out =
    let rest = remove_value-◌++◌ p l cs (ground arith) in
    (ground (arith, rest.0), ground (arith, rest.1))

-- On a list of processes with the lock free, `sched_add` of a process that is not on it returns, with an
-- element that is not on the list either; `sched_remove` of the process after that, with enough fuel,
-- leaves the list as it was and the lock free.
pub sched_remove-add :
    (fuel : ℕ) (s : Sched) (l p : ℕ) (cs : Cells)
    → IsList s.elems s.processes cs
    → s.locked ≡ false
    → has_value p cs ≡ false
    → occurs l cs ≡ false
    → l ≢ s.processes
    → l ≢ null
    → length (cs ++ (l, p) ∷ []) < fuel
    → (s1 : Sched) × (s2 : Sched) × (sched_add s l p ≡ some s1)
      × IsList s1.elems s1.processes (cs ++ (l, p) ∷ [])
      × (sched_remove fuel s1 p ≡ some s2)
      × IsList s2.elems s2.processes cs
      × (s2.locked ≡ false)
unfolding sched_add sched_remove mutex_spinlock mutex_unlock
sched_remove-add fuel s l p cs ok unlocked new fresh apart full enough =
    let a = list_add-IsList s.elems s.processes l p cs ok fresh apart full in
    let s1 = record s { elems = a.0; global_proc = p } in
    let b = list_remove-IsList fuel a.0 s.processes p (cs ++ (l, p) ∷ []) a.2 enough in
    let eqs = remove_value-◌++◌ p l cs new in
    (
      s1,
      record s1 { elems = b.0; locked = false },
      rw a.1 refl,
      a.2,
      rw unlocked (rw b.1 refl),
      relist eqs.1 b.2,
      refl,
    )
