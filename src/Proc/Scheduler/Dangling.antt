-- ===== src/Proc/Scheduler/Dangling.antt =====
-- The pointer to the current process and the growth of the list.
use lamb_os.Base.{
  ◌+◌, ◌-◌, ◌%◌, ◌^◌, ◌<◌, ◌≡◌, true, false, ◌++◌, [], ◌∷◌, ◌==◌, none, some, arith, ne→==,
}
use lamb_os.Base.Outcome.{done, fault}
use lamb_os.Util.ArrayList.Inv.{contents}
use lamb_os.Util.ArrayList.Ends.{enqueue_appends}
use lamb_os.Proc.Scheduler.{State, Process, Pointer, Scheduler, access, enqueue_embryo}
use lamb_os.Proc.Scheduler.Choice.{IsCurrent}

abbrev embryo_of : Process → Process
embryo_of p = record p { state = State.embryo; proc_state = none }

-- `enqueueEmbryo` on a list whose block is full succeeds and appends the process as an embryo, and
-- after it no access by the pointer to the current process is one to the list: it leads into the
-- block that was given back.
pub enqueue_embryo_dangles :
    (fresh : Process) (s : Scheduler) (p : Process) (a : Pointer)
    → IsCurrent s
    → s.active_process ≡ some a
    → s.dormant_processes.size ≡ s.dormant_processes.array.capacity
    → s.dormant_processes.array.capacity < 2 ^ 30
    → (new : Pointer) × (s' : Scheduler) × (enqueue_embryo fresh s p ≡ done (new, s'))
      × (contents s'.dormant_processes ≡ contents s.dormant_processes ++ (embryo_of p ∷ []))
      × (s'.active_process ≡ some a)
      × (access s' a ≡ fault)
unfolding enqueue_embryo access
enqueue_embryo_dangles fresh s p a v e full small =
    let (eb, inside) = v.points a e in
    let (l', r, valid, added) =
      enqueue_appends fresh s.dormant_processes (embryo_of p) v.list (omega (arith, full)) small in
    let test : (s.dormant_processes.size == s.dormant_processes.array.capacity) ≡ true =
      ground arith in
    let gone : (a.block == s.block + 1) ≡ false = ne→== a.block (s.block + 1) (omega arith) in
    (
      record { block = s.block + 1; index = (l'.size + 2 ^ 32 - 1) % 2 ^ 32 },
      record s { dormant_processes = l'; block = s.block + 1 },
      rw (test, r),
      added,
      e,
      rw (gone),
    )
