-- ===== src/Mem/Frames/Alloc.antt =====
-- What `alloc`, `free` and `requestFrame` promise their callers.
use lamb_os.Base.{
  ℕ, zero, suc, ◌+◌, ◌-◌, ◌≤◌, ◌<◌, ◌≡◌, ◌≢◌, ◌⊎◌, refl, sym, subst, ◌∙◌, true, false, arith,
  Bool-cases, inl, inr, Option, none, some, ◌==◌, ne→==, false≢true,
}
use native.Mathlib.Decide.{dec_le}
use lamb_os.Base.Outcome.{Outcome, done, panic, fault}
use lamb_os.Mem.Frames.{Frames, frame_to_index, inc32, scan, alloc}
use lamb_os.Mem.Frames.Bitmaps.{free_at, all_free, single}
use lamb_os.Mem.Frames.Inv.{IsValid, Allocated, find_faults, find_none, find_some}

panic≢done : {x : ℕ × Frames} → panic ≢ done x
panic≢done e = cc

fault≢done : {x : ℕ × Frames} → fault ≢ done x
fault≢done e = cc

module _ (pages : ℕ) (a : Frames) (v : IsValid pages a) (n : ℕ) (some_frames : n ≢ 0) where
  -- How a scan of `rounds` frames from `i` ends.
  data Scanned (rounds i : ℕ) (r : Outcome (Option ℕ × Frames)) : Type 0 where
    overrun : r ≡ fault → n ≢ 1 → Scanned rounds i r
    nothing :
        r ≡ done (none, a)
        → ((j : ℕ) → i ≤ j → j < i + rounds → all_free a.bitmap n j ≡ false)
        → (rounds ≡ 0) ⊎ (i + rounds + n ≤ pages + 1)
        → Scanned rounds i r
    found :
        (f : ℕ) (a' : Frames)
        → r ≡ done (some f, a')
        → Allocated pages a n f a'
        → (j : ℕ) → i ≤ j
        → j + n ≤ pages
        → all_free a.bitmap n j ≡ true
        → Scanned rounds i r

  later :
      (rounds i : ℕ) (r r' : Outcome (Option ℕ × Frames))
      → r' ≡ r
      → i + n ≤ pages
      → all_free a.bitmap n i ≡ false
      → Scanned rounds (i + 1) r
      → Scanned (suc rounds) i r'
  later rounds i r r' e h busy (overrun q many) = overrun (e ∙ q) many
  later rounds i r r' e h busy (nothing q none_free stop) = nothing (e ∙ q) all stop'
    where
      all : (j : ℕ) → i ≤ j → j < i + suc rounds → all_free a.bitmap n j ≡ false
      all j lo hi = elim (Bool-cases (i == j)) [
        | inl same ↦ ground arith
        | inr other ↦ none_free j (ground arith) (omega arith)
      ]

      stop' : (suc rounds ≡ 0) ⊎ (i + suc rounds + n ≤ pages + 1)
      stop' = omega arith
  later rounds i r r' e h busy (found f a' q al j lo hi fr) =
      found f a' (e ∙ q) al j (omega arith) hi fr

  scan_cases : (rounds i : ℕ) → i + rounds ≤ pages → Scanned rounds i (scan a n rounds i)
  unfolding scan
  scan_cases zero i h = nothing refl (λ j lo hi. absurd (omega arith)) (inl refl)
  scan_cases (suc rounds) i h = elim (dec_le (i + n) pages) [
    | no over ↦
        overrun (rw (find_faults pages a v n some_frames i (omega arith) (omega arith)))
          (omega arith)
    | yes fits ↦ elim (Bool-cases (all_free a.bitmap n i)) [
      | inl e ↦
          let (f, a', returns, al) = find_some pages a v n some_frames i fits e in
          found f a' (rw returns) al i (omega arith) fits e
      | inr e ↦
          let next : inc32 i ≡ i + 1 = omega (arith, v.small) in
          later rounds i (scan a n rounds (i + 1)) _
            (rw (find_none pages a v n some_frames i fits e, next)) fits e
            (scan_cases rounds (i + 1) (omega arith))
    ]
  ]

  start : ℕ
  start = frame_to_index a.last_alloc_frame

  -- How an allocation ends: it takes a free run, or panics where none was found, or overruns.
  data Ends (r : Outcome (ℕ × Frames)) : Type 0 where
    takes : (f : ℕ) (a' : Frames) → r ≡ done (f, a') → Allocated pages a n f a' → Ends r
    panics : r ≡ panic → ((j : ℕ) → j < pages → all_free a.bitmap n j ≡ false) → n ≡ 1 → Ends r
    overruns : r ≡ fault → n ≢ 1 → Ends r

  second-Ends :
      scan a n (pages - start) start ≡ done (none, a)
      → ((j : ℕ) → start ≤ j → j < start + (pages - start) → all_free a.bitmap n j ≡ false)
      → (pages - start ≡ 0) ⊎ (start + (pages - start) + n ≤ pages + 1)
      → Scanned start 0 (scan a n start 0)
      → Ends (alloc pages a n)
  unfolding alloc start
  second-Ends q busy stop (overrun q' many) = overruns (rw (ne→== n 0 some_frames, q, q')) many
  second-Ends q busy stop (found f a' q' al j lo hi fr) =
      takes f a' (rw (ne→== n 0 some_frames, q, q')) al
  second-Ends q busy stop (nothing q' busy' stop') =
      panics (rw (ne→== n 0 some_frames, q, q')) all (omega (arith, v.last_in))
    where
      all : (j : ℕ) → j < pages → all_free a.bitmap n j ≡ false
      all j h = elim (dec_le start j) [
        | yes lo ↦ busy j lo (omega arith)
        | no hi ↦ busy' j (omega arith) (omega arith)
      ]

  first-Ends :
      Scanned (pages - start) start (scan a n (pages - start) start) → Ends (alloc pages a n)
  unfolding alloc start
  first-Ends (overrun q many) = overruns (rw (ne→== n 0 some_frames, q)) many
  first-Ends (found f a' q al j lo hi fr) = takes f a' (rw (ne→== n 0 some_frames, q)) al
  first-Ends (nothing q busy stop) =
      second-Ends q busy stop (scan_cases start 0 (omega (arith, v.last_in)))

  alloc-Ends : Ends (alloc pages a n)
  unfolding start
  alloc-Ends = first-Ends (scan_cases (pages - start) start (omega (arith, v.last_in)))

  alloc-Allocated :
      {r : Outcome (ℕ × Frames)} (f : ℕ) (a' : Frames)
      → Ends r
      → r ≡ done (f, a')
      → Allocated pages a n f a'
  alloc-Allocated f a' (takes g b q al) e =
      let same : ◌≡◌ {A = ℕ × Frames} (g, b) (f, a') = cc in
      subst (λ t. Allocated pages a n t.0 t.1) same al
  alloc-Allocated f a' (panics q busy one) e = absurd (panic≢done (sym q ∙ e))
  alloc-Allocated f a' (overruns q many) e = absurd (fault≢done (sym q ∙ e))

  overruns_of_no_run :
      n ≢ 1
      → ((j : ℕ)
          → frame_to_index a.last_alloc_frame ≤ j
          → j + n ≤ pages
          → all_free a.bitmap n j ≡ false)
      → alloc pages a n ≡ fault
  unfolding alloc
  overruns_of_no_run many none_free = over (
      scan_cases (pages - frame_to_index a.last_alloc_frame) (frame_to_index a.last_alloc_frame)
        (omega (arith, v.last_in)))
    where
      over :
          Scanned (pages - frame_to_index a.last_alloc_frame) (frame_to_index a.last_alloc_frame) (
            scan a n
              (pages - frame_to_index a.last_alloc_frame)
              (frame_to_index a.last_alloc_frame))
          → alloc pages a n ≡ fault
      over (overrun q _) = rw (ne→== n 0 some_frames, q)
      over (found f a' q al j lo hi fr) = absurd (false≢true (sym (none_free j lo hi) ∙ fr))
      over (nothing q busy stop) = absurd (omega (arith, v.last_in))

-- A successful allocation of one or more frames returns the address of a run of frames inside
-- memory, all of which were usable and not in use; it marks exactly those as used, changes no
-- other frame and no `usable` bit, and keeps the allocator valid.
pub alloc_sound :
    (pages : ℕ) (a : Frames) (n f : ℕ) (a' : Frames)
    → IsValid pages a
    → n ≢ 0
    → alloc pages a n ≡ done (f, a')
    → Allocated pages a n f a'
alloc_sound pages a n f a' v ne e =
    alloc-Allocated pages a v n ne f a' (alloc-Ends pages a v n ne) e

-- An allocation of one frame never reads past the bitmap: it succeeds, or panics where every frame
-- is unusable or in use.
pub alloc_one :
    (pages : ℕ) (a : Frames)
    → IsValid pages a
    → ((f : ℕ) × (a' : Frames) × (alloc pages a 1 ≡ done (f, a')) × Allocated pages a 1 f a')
      ⊎ ((alloc pages a 1 ≡ panic) × ((j : ℕ) → j < pages → free_at a.bitmap j ≡ false))
alloc_one pages a v = one (alloc-Ends pages a v 1 (omega arith))
  where
    one :
        Ends pages a v 1 (omega arith) (alloc pages a 1)
        → ((f : ℕ) × (a' : Frames) × (alloc pages a 1 ≡ done (f, a')) × Allocated pages a 1 f a')
          ⊎ ((alloc pages a 1 ≡ panic) × ((j : ℕ) → j < pages → free_at a.bitmap j ≡ false))
    one (takes f a' q al) = inl (f, a', q, al)
    one (panics q busy e) = inr (q, λ j h. single a.bitmap j (busy j h))
    one (overruns q many) = absurd (many refl)

-- An allocation of two or more frames reads past the end of the bitmap whenever no free run
-- starts between the last allocated frame and the end, even if there is one before.
pub alloc_overruns :
    (pages : ℕ) (a : Frames) (n : ℕ)
    → IsValid pages a
    → 1 < n
    → ((j : ℕ)
        → frame_to_index a.last_alloc_frame ≤ j
        → j + n ≤ pages
        → all_free a.bitmap n j ≡ false)
    → alloc pages a n ≡ fault
alloc_overruns pages a n v many none_free =
    overruns_of_no_run pages a v n (omega arith) (omega arith) none_free
