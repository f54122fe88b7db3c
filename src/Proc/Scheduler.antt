-- ===== src/Proc/Scheduler.antt =====
-- kernel/include/proc/Scheduler.hpp and kernel/src/proc/Scheduler.cpp, over ArrayList. A pointer to
-- a process is the block of memory that the list had when it was made, and the place in it; the
-- blocks are counted. A process of which only the first part is read has the other fields left out.
pub mod Choice
pub mod Dangling
mod Tests
use lamb_os.Base.{
  ℕ, zero, suc, ◌+◌, ◌-◌, ◌%◌, ◌^◌, Bool, true, false, not, ◌&&◌, ◌||◌, List, ◌==◌, if◌then◌else◌,
  Option, none, some,
}
use lamb_os.Base.Outcome.{Outcome, done, fault, ◌>>=◌, load, store}
use lamb_os.Util.ArrayList.{ArrayList, enqueue, with_cells}

pub data State : Type 0 where
  unused embryo sleeping runnable running zombie : State

-- The two pointers that are only tested for null are Booleans; `proc_state` is the address of the
-- state of the processor.
pub record Process : Type 0 where
  pub address_space : Bool
  pub kern_stack : Bool
  pub state : State
  pub proc_state : Option ℕ

pub record Pointer : Type 0 where
  pub block : ℕ
  pub index : ℕ

pub record Scheduler : Type 0 where
  pub active_process : Option Pointer
  pub dormant_processes : ArrayList Process
  -- The block that the list has now.
  pub block : ℕ

abbrev pub is_runnable : Process → Bool
is_runnable p = elim p.state [ State.runnable ↦ true | _ ↦ false ]

abbrev pub is_running : Process → Bool
is_running p = elim p.state [ State.running ↦ true | _ ↦ false ]

abbrev pub is_embryo : Process → Bool
is_embryo p = elim p.state [ State.embryo ↦ true | _ ↦ false ]

-- A process by its pointer; a block that the list has given back is not there any more.
pub access : Scheduler → Pointer → Outcome Process
access s a = if a.block == s.block then load s.dormant_processes.array.cells a.index else fault

pub assign : Scheduler → Pointer → Process → Outcome Scheduler
assign s a p =
    if a.block == s.block
    then (do
      cells' ← store s.dormant_processes.array.cells a.index p
      done (record s {
        dormant_processes = with_cells s.dormant_processes cells' s.dormant_processes.size;
      }))
    else fault

-- `fresh` is the process in a cell of a new block.
pub enqueue_embryo : Process → Scheduler → Process → Outcome (Pointer × Scheduler)
enqueue_embryo fresh s process = do
  let embryo = record process { state = State.embryo; proc_state = none }
  let full = s.dormant_processes.size == s.dormant_processes.array.capacity
  let block' = (if full then s.block + 1 else s.block)
  list' ← enqueue fresh s.dormant_processes embryo
  done (
    record { block = block'; index = (list'.size + 2 ^ 32 - 1) % 2 ^ 32 },
    record s { dormant_processes = list'; block = block' },
  )

pub make_runnable : Scheduler → Pointer → Option ℕ → Outcome (Bool × Scheduler)
make_runnable s process none = do p ← access s process; done (false, s)
make_runnable s process (some cpu_state) = do
  p ← access s process
  (if not (is_embryo p) || (not p.address_space || not p.kern_stack) then done (false, s) else (do
    s' ← assign s process (record p { state = State.runnable; proc_state = some cpu_state })
    done (true, s')))

-- `std::ranges::find_if` for a runnable process, with `n` elements to go.
pub find_runnable : List Process → ℕ → ℕ → Outcome (Option ℕ)
find_runnable cells zero i = done none
find_runnable cells (suc n) i = do
  p ← load cells i
  (let later = find_runnable cells n (i + 1) in if is_runnable p then done (some i) else later)

pub has_runnable_process : Scheduler → Outcome Bool
has_runnable_process s = do
  found ← find_runnable s.dormant_processes.array.cells s.dormant_processes.size 0
  done (elim found as (λ _. Bool) [ some i ↦ true | none ↦ false ])

pub set_current_process : Scheduler → Option Pointer → Scheduler
set_current_process s process = record s { active_process = process }

-- `currentProcess` where no process of the list is runnable.
pub fall_back : Scheduler → Option Pointer → Outcome (Option Pointer)
fall_back s none = done none
fall_back s (some a) = do
  p ← access s a
  done (if is_running p || is_runnable p then some a else none)

pub next_process : Scheduler → Outcome (Option Pointer)
next_process s = do
  found ← find_runnable s.dormant_processes.array.cells s.dormant_processes.size 0
  elim found [
    | some i ↦ done (some (record { block = s.block; index = i }))
    | none ↦ fall_back s s.active_process
  ]

pub same_pointer : Option Pointer → Option Pointer → Bool
same_pointer none none = true
same_pointer (some a) (some b) = a.block == b.block && a.index == b.index
same_pointer none (some b) = false
same_pointer (some a) none = false

-- The process that was active is made runnable.
pub step_down : Scheduler → Option Pointer → Outcome Scheduler
step_down s none = done s
step_down s (some a) = do p ← access s a; assign s a (record p { state = State.runnable })

pub promote_next_process_to_current : Scheduler → Outcome (Option Pointer × Scheduler)
promote_next_process_to_current s = do
  next ← next_process s
  (if same_pointer next s.active_process
      then done (s.active_process, s)
      else (do s' ← step_down s s.active_process; done (next, record s' { active_process = next })))
