-- ===== src/Proc/Scheduler/Tests.antt =====
-- Two processes: number 0 is current and a zombie, number 1 is runnable.
use lamb_os.Base.{ℕ, ◌<◌, ◌≡◌, refl, true, false, [], ◌∷◌, ◌++◌, none, some, arith, ap, sym, subst}
use lamb_os.Base.Outcome.{done, fault}
use lamb_os.Util.ArrayList.{ArrayList}
use lamb_os.Util.ArrayList.Inv.{contents}
use lamb_os.Proc.Scheduler.{
  State, Process, Pointer, Scheduler, is_runnable, access, enqueue_embryo,
  promote_next_process_to_current,
}
use lamb_os.Proc.Scheduler.Choice.{IsCurrent, process_at, here, stepped_down, promote_lem}
use lamb_os.Proc.Scheduler.Dangling.{enqueue_embryo_dangles}

abbrev process : State → Process
process st = record { address_space = true; kern_stack = true; state = st; proc_state = some 7 }

abbrev two : ArrayList Process
two = record {
  array = record { capacity = 2; cells = process State.zombie ∷ process State.runnable ∷ [] };
  size = 2;
}

abbrev sched : Scheduler
sched = record {
  active_process = some (record { block = 5; index = 0 });
  dormant_processes = two;
  block = 5;
}

some_injective : {a b : Pointer} → some a ≡ some b → a ≡ b
some_injective e = cc

sched-IsCurrent : IsCurrent sched
sched-IsCurrent = record {
  list = record { storage = refl; room = omega arith; fits = omega arith };
  points = λ a e.
      let same = some_injective e in
      (
        ap (λ (p : Pointer). p.block) (sym same),
        subst (λ (p : Pointer). p.index < 2) same (omega arith),
      );
}

promote_lem_example :
    (i : ℕ) × (s' : Scheduler) × (promote_next_process_to_current sched
      ≡ done (some (here sched i), s'))
    × (is_runnable (process_at (process State.unused) sched i) ≡ true)
    × ((k : ℕ) → k < i → is_runnable (process_at (process State.unused) sched k) ≡ false)
    × (s'.active_process ≡ some (here sched i))
    × ((k : ℕ)
        → process_at (process State.unused) s' k
          ≡ stepped_down
              (process State.unused)
              sched.active_process
              i
              k
              (process_at (process State.unused) sched k))
promote_lem_example = promote_lem (process State.unused) sched 1 sched-IsCurrent (omega arith) refl

enqueue_embryo_dangles_example :
    (new : Pointer) × (s' : Scheduler) × (enqueue_embryo
        (process State.unused)
        sched
        (process State.sleeping)
      ≡ done (new, s'))
    × (contents s'.dormant_processes
        ≡ contents two ++ (record (process State.embryo) { proc_state = none } ∷ []))
    × (s'.active_process ≡ some (record { block = 5; index = 0 }))
    × (access s' (record { block = 5; index = 0 }) ≡ fault)
enqueue_embryo_dangles_example =
    enqueue_embryo_dangles (process State.unused) sched (process State.sleeping)
      (record { block = 5; index = 0 }) sched-IsCurrent refl refl (omega arith)
