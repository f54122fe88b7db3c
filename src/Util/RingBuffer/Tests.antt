-- ===== src/Util/RingBuffer/Tests.antt =====
-- Runs of the ring buffer, and its theorems at concrete buffers.
use lamb_os.Base.{ℕ, ◌≡◌, refl, List, [], ◌∷◌, arith, false}
use lamb_os.Base.Outcome.{done, load, store}
use lamb_os.Util.RingBuffer.{RingBuffer, Op, put, take, init, enqueue, pop, clear, is_empty, run}
use lamb_os.Util.RingBuffer.Lossy
use lamb_os.Util.RingBuffer.Inv.{IsValid}
use lamb_os.Util.RingBuffer.Refine.{contents, pop_refines, run_refines, clear_keeps_size}

-- 7 and 8 in a buffer of capacity 3, which is then full; the write goes round.
abbrev full : RingBuffer ℕ
full = record { capacity = 3; front = 1; back = 0; size = 2; buffer = 5 ∷ 7 ∷ 8 ∷ [] }

full-IsValid : IsValid full
full-IsValid = record {
  pos = omega arith;
  fits = omega arith;
  storage = refl;
  front_in = omega arith;
  room = omega arith;
  back_at = refl;
}

abbrev script : List (Op ℕ)
script = put 9 ∷ take ∷ take ∷ take ∷ []

run-full : (Lossy.run 0 3 (contents 0 full) script).0 ≡ 8 ∷ 9 ∷ 0 ∷ []
unfolding Lossy.run
run-full = refl

run-init : (r : RingBuffer ℕ) × (run 0 (init 0 3) script ≡ done (9 ∷ 0 ∷ 0 ∷ [], r))
unfolding run init enqueue pop load store is_empty
run-init = (record { capacity = 3; front = 1; back = 1; size = 0; buffer = 9 ∷ 0 ∷ 0 ∷ [] }, refl)

pop_refines_example :
    (x : ℕ) × (r' : RingBuffer ℕ) × (pop 0 full ≡ done (x, r'))
    × IsValid r'
    × (r'.capacity ≡ 3)
    × ((x, contents 0 r') ≡ Lossy.pop 0 (7 ∷ 8 ∷ []))
pop_refines_example = pop_refines 0 full full-IsValid

run_refines_example :
    (r' : RingBuffer ℕ) × (run 0 full script ≡ done ((Lossy.run 0 3 (7 ∷ 8 ∷ []) script).0, r'))
    × IsValid r'
    × (contents 0 r' ≡ (Lossy.run 0 3 (7 ∷ 8 ∷ []) script).1)
run_refines_example = run_refines 0 script full full-IsValid

clear_keeps_size_example :
    (is_empty (clear full) ≡ false) × ((clear full).size ≡ 2) × ¬ IsValid (clear full)
clear_keeps_size_example = clear_keeps_size full full-IsValid (omega arith)
