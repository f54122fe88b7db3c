-- ===== src/Util/RingBuffer/Lossy.antt =====
-- The specification of a ring buffer: a queue that may hold fewer than `limit` elements, and drops
-- its oldest one rather than reach the limit.
use lamb_os.Base.{ℕ, ◌+◌, List, [], ◌∷◌, ◌++◌, length, tail, if◌then◌else◌, ◌==◌}
use lamb_os.Util.RingBuffer.{Op, put, take}

module _ {ℓ} {A : Type ℓ} where
  abbrev pub push : ℕ → List A → A → List A
  push limit q x = if length q + 1 == limit then tail (q ++ (x ∷ [])) else q ++ (x ∷ [])

  abbrev pub pop : A → List A → A × List A
  pop default [] = (default, [])
  pop default (x ∷ q) = (x, q)

  unfoldable pub run : A → ℕ → List A → List (Op A) → List A × List A
  run default limit q [] = ([], q)
  run default limit q (put x ∷ ops) = run default limit (push limit q x) ops
  run default limit q (take ∷ ops) =
      let (x, q') = pop default q in let (out, q'') = run default limit q' ops in (x ∷ out, q'')
