-- ===== src/Proc/Scheduler/Choice.antt =====
-- Which process becomes the current one.
use lamb_os.Base.{
  ℕ, zero, suc, ◌+◌, ◌≤◌, ◌<◌, ◌≡◌, ◌≢◌, ◌⊎◌, inl, inr, refl, sym, ap, ap₂, ◌∙◌, true, false, not,
  ◌&&◌, List, ◌==◌, if◌then◌else◌, Option, none, some, arith, length, set, get_or, get_or-set,
  Bool-cases, ne→==, false≢true,
}
use native.Mathlib.Decide.{ℕ_discrete}
use lamb_os.Base.Outcome.{done, load_in, store_in}
use lamb_os.Util.ArrayList.{ArrayList, with_cells}
use lamb_os.Util.ArrayList.Inv
use lamb_os.Proc.Scheduler.{
  State, Process, Pointer, Scheduler, is_runnable, access, assign, find_runnable, next_process,
  same_pointer, step_down, promote_next_process_to_current,
}

-- The list is valid, and the pointer to the current process leads into its block.
pub record IsCurrent (s : Scheduler) : Type 0 where
  pub list : Inv.IsValid s.dormant_processes
  pub points :
      (a : Pointer)
      → s.active_process ≡ some a
      → (a.block ≡ s.block) × (a.index < s.dormant_processes.size)

-- A process of the list by its place, where `d` stands for one beyond the block.
abbrev pub process_at : Process → Scheduler → ℕ → Process
process_at d s i = get_or s.dormant_processes.array.cells i d

abbrev pub here : Scheduler → ℕ → Pointer
here s i = record { block = s.block; index = i }

abbrev pointer : ℕ → ℕ → Pointer
pointer b i = record { block = b; index = i }

module _ (d : Process) where
  find_runnable_returns :
      (cells : List Process) (n i : ℕ)
      → i + n ≤ length cells
      → ((find_runnable cells n i ≡ done none)
          × ((j : ℕ) → i ≤ j → j < i + n → is_runnable (get_or cells j d) ≡ false))
        ⊎ ((k : ℕ) × (find_runnable cells n i ≡ done (some k))
            × (i ≤ k)
            × (k < i + n)
            × (is_runnable (get_or cells k d) ≡ true)
            × ((j : ℕ) → i ≤ j → j < k → is_runnable (get_or cells j d) ≡ false))
  unfolding find_runnable
  find_runnable_returns cells zero i h = inl (refl, λ j lo hi. absurd (omega arith))
  find_runnable_returns cells (suc n) i h = elim (Bool-cases (is_runnable (get_or cells i d))) [
    | inl ready ↦ inr (
      i,
      rw (load_in cells i d (omega arith), ready),
      omega arith,
      omega arith,
      ready,
      λ j lo hi. absurd (omega arith),
    )
    | inr idle ↦
        let at_or_later =
          λ (j : ℕ) (lo : i ≤ j) (later : i + 1 ≤ j → is_runnable (get_or cells j d) ≡ false).
            elim (ℕ_discrete i j) as (λ _. is_runnable (get_or cells j d) ≡ false) [
              | yes e ↦ ap (λ k. is_runnable (get_or cells k d)) (sym e) ∙ idle
              | no ne ↦ later (omega arith)
            ] in
        elim (find_runnable_returns cells n (i + 1) (omega arith)) [
          | inl (e, all_idle) ↦ inl (
            rw (load_in cells i d (omega arith), idle) e,
            λ j lo hi. at_or_later j lo (λ lo'. all_idle j lo' (omega arith)),
          )
          | inr (k, e, lo, hi, ready, first) ↦ inr (
            k,
            rw (load_in cells i d (omega arith), idle) e,
            omega arith,
            omega arith,
            ready,
            λ j lo' hi'. at_or_later j lo' (λ lo''. first j lo'' hi'),
          )
        ]
  ]

  -- The process that was current and has to make room for number `i` is made runnable.
  abbrev pub stepped_down : Option Pointer → ℕ → ℕ → Process → Process
  stepped_down none i j p = p
  stepped_down (some a) i j p =
      if a.index == j && not (a.index == i) then record p { state = State.runnable } else p

  step_down_returns :
      (s : Scheduler) (a : Pointer)
      → a.block ≡ s.block
      → a.index < length s.dormant_processes.array.cells
      → (s' : Scheduler) × (step_down s (some a) ≡ done s')
        × (s'.block ≡ s.block)
        × ((j : ℕ)
            → process_at d s' j ≡ (
                if a.index == j
                then record (process_at d s a.index) { state = State.runnable }
                else process_at d s j))
  unfolding step_down access assign
  step_down_returns s a e h =
      let cells = s.dormant_processes.array.cells in
      let p = record (process_at d s a.index) { state = State.runnable } in
      let current : (a.block == s.block) ≡ true = ground arith in
      (
        record s {
          dormant_processes =
              with_cells s.dormant_processes (set cells a.index p) s.dormant_processes.size;
        },
        rw (current, load_in cells a.index d h, store_in cells a.index p h),
        refl,
        λ j. get_or-set cells a.index j p d h,
      )

  step_down-none : (s : Scheduler) → step_down s none ≡ done s
  unfolding step_down
  step_down-none s = refl

  stepped :
      (s : Scheduler) (a : Pointer) (i k : ℕ)
      → i ≢ a.index
      → (if a.index == k
          then record (process_at d s a.index) { state = State.runnable }
          else process_at d s k)
        ≡ stepped_down (some a) i k (process_at d s k)
  stepped s a i k ne = elim (ℕ_discrete a.index k) [
    | yes e ↦
        let there : (a.index == k) ≡ true = ground arith in
        rw (there, ne→== a.index i (λ e. ne (sym e)))
          (ap (λ j. record (process_at d s j) { state = State.runnable }) e)
    | no other ↦ rw (ne→== a.index k other)
  ]

  -- What `promoteNextProcessToCurrent` does once the choice is made, for each current process.
  promoted :
      (l : ArrayList Process) (b i : ℕ) (active : Option Pointer)
      → let s : Scheduler = record { active_process = active; dormant_processes = l; block = b } in
        ((a : Pointer) → active ≡ some a → (a.block ≡ b) × (a.index < length l.array.cells))
        → next_process s ≡ done (some (here s i))
        → (s' : Scheduler) × (promote_next_process_to_current s ≡ done (some (here s i), s'))
          × (s'.active_process ≡ some (here s i))
          × ((k : ℕ) → process_at d s' k ≡ stepped_down active i k (process_at d s k))
  unfolding promote_next_process_to_current same_pointer
  promoted l b i none points e =
      let s : Scheduler = record { active_process = none; dormant_processes = l; block = b } in
      (record s { active_process = some (here s i) }, rw (e, step_down-none s), refl, λ k. refl)
  promoted l b i (some a) points e =
      let s : Scheduler = record { active_process = some a; dormant_processes = l; block = b } in
      let (eb, inside) = points a refl in
      let same_block : (b == a.block) ≡ true = ground arith in
      elim (ℕ_discrete i a.index) [
        | yes same ↦
            let test : (i == a.index) ≡ true = ground arith in
            let is_it : some a ≡ some (here s i) = ap some (ap₂ pointer eb (sym same)) in
            (s, rw (e, same_block, test) (ap (λ q. done (q, s)) is_it), is_it, λ k. ground arith)
        | no ne ↦
            let (s₁, r, kept, cells) = step_down_returns s a eb inside in
            (
              record s₁ { active_process = some (here s i) },
              rw (e, same_block, ne→== i a.index ne, r),
              refl,
              λ k. cells k ∙ stepped s a i k ne,
            )
      ]

  -- The current process is the first one of the list that is runnable, if there is one. The one
  -- that was current before is made runnable if it is another, whatever its state was; no other
  -- process changes.
  pub promote_lem :
      (s : Scheduler) (j : ℕ)
      → IsCurrent s
      → j < s.dormant_processes.size
      → is_runnable (process_at d s j) ≡ true
      → (i : ℕ) × (s' : Scheduler) × (promote_next_process_to_current s
          ≡ done (some (here s i), s'))
        × (is_runnable (process_at d s i) ≡ true)
        × ((k : ℕ) → k < i → is_runnable (process_at d s k) ≡ false)
        × (s'.active_process ≡ some (here s i))
        × ((k : ℕ) → process_at d s' k ≡ stepped_down s.active_process i k (process_at d s k))
  unfolding next_process
  promote_lem s j v lt ready =
      let cells = s.dormant_processes.array.cells in
      elim (find_runnable_returns cells s.dormant_processes.size 0
        (omega (arith, v.list.storage, v.list.room))) [
          | inl (e, idle) ↦ absurd (false≢true (sym (idle j (omega arith) (omega arith)) ∙ ready))
          | inr (i, e, lo, hi, is_ready, first) ↦
              let (s', r, active, changes) =
                promoted s.dormant_processes s.block i s.active_process
                  (λ a h.
                    let (eb, inside) = v.points a h in
                    (eb, omega (arith, v.list.storage, v.list.room)))
                  (rw (e)) in
              (i, s', r, is_ready, λ k hk. first k (omega arith) hk, active, changes)
        ]
