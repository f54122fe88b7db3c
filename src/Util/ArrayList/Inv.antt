-- ===== src/Util/ArrayList/Inv.antt =====
-- The representation invariant of an array list, its contents, and how to recognise them.
use lamb_os.Base.{
  ℕ, zero, suc, ◌+◌, ◌-◌, ◌*◌, ◌%◌, ◌^◌, ◌≤◌, ◌<◌, ◌≡◌, refl, sym, ap, ◌∙◌, true, List, [], ◌∷◌,
  ◌++◌, ◌==◌, ltb, if◌then◌else◌, arith, length, get_or, take, drop, length-take, get_or-take,
  get_or_ext, ne→==,
}
use native.Mathlib.Decide.{ℕ_discrete}
use lamb_os.Base.Outcome.{done}
use lamb_os.Util.DynamicArray.{resize}
use lamb_os.Util.DynamicArray.Loops.{resize_cells_returns}
use lamb_os.Util.ArrayList.{ArrayList, grow}

-- Doubling the capacity does not wrap.
pub record IsValid {ℓ} {A : Type ℓ} (l : ArrayList A) : Type 0 where
  pub storage : length l.array.cells ≡ l.array.capacity
  pub room : l.size ≤ l.array.capacity
  pub fits : l.array.capacity < 2 ^ 31

module _ {ℓ} {A : Type ℓ} where
  abbrev pub contents : ArrayList A → List A
  contents l = take l.size l.array.cells

  pub length-contents : (l : ArrayList A) → IsValid l → length (contents l) ≡ l.size
  length-contents l v = omega (arith, length-take l.size l.array.cells, v.storage, v.room)

module _ {ℓ} {A : Type ℓ} (d : A) where
  -- A list is known by its length and its elements.
  pub take_eq :
      (n : ℕ) (cells spec : List A)
      → n ≤ length cells
      → length spec ≡ n
      → ((k : ℕ) → k < n → get_or cells k d ≡ get_or spec k d)
      → take n cells ≡ spec
  take_eq n cells spec h e same =
      let width : length (take n cells) ≡ n = omega (arith, length-take n cells) in
      get_or_ext d (take n cells) spec (width ∙ sym e)
        λ k lt. get_or-take n cells k d (omega arith) ∙ same k (omega arith)

  pub get_or_spliced :
      (i : ℕ) (c : List A) (x : A) (k : ℕ)
      → i ≤ length c
      → get_or (take i c ++ (x ∷ drop i c)) k d
        ≡ (if ltb k i then get_or c k d else if k == i then x else get_or c (k - 1) d)
  get_or_spliced zero c x zero h = refl
  get_or_spliced zero c x (suc k) h =
      ground (arith, ap (λ j. get_or c j d) {x = k} {y = suc k - 1} (omega arith))
  get_or_spliced (suc i) [] x k h = absurd (omega arith)
  get_or_spliced (suc i) (y ∷ c) x zero h = ground arith
  get_or_spliced (suc i) (y ∷ c) x (suc zero) h =
      ground (arith, get_or_spliced i c x 0 (omega arith))
  get_or_spliced (suc i) (y ∷ c) x (suc (suc k)) h =
      ground (arith, get_or_spliced i c x (suc k) (omega arith))

  pub get_or_removed :
      (i : ℕ) (c : List A) (k : ℕ)
      → i < length c
      → get_or (take i c ++ drop (suc i) c) k d
        ≡ (if ltb k i then get_or c k d else get_or c (suc k) d)
  get_or_removed i [] k h = absurd (omega arith)
  get_or_removed zero (y ∷ c) k h = ground arith
  get_or_removed (suc i) (y ∷ c) zero h = ground arith
  get_or_removed (suc i) (y ∷ c) (suc k) h = ground (arith, get_or_removed i c k (omega arith))

  -- What `grow` leaves: room for one more element, and the old elements.
  pub record IsGrown (l l' : ArrayList A) : Type ℓ where
    pub storage : length l'.array.cells ≡ l'.array.capacity
    pub size : l'.size ≡ l.size
    pub room : l.size < l'.array.capacity
    pub bound : l'.array.capacity ≤ l.array.capacity * 2
    pub kept : (k : ℕ) → k < l.size → get_or l'.array.cells k d ≡ get_or l.array.cells k d

  resize_doubles :
      (l : ArrayList A)
      → IsValid l
      → 0 < l.array.capacity
      → (cells : List A) × (resize d l.array 0 0
          ≡ done (record { capacity = l.array.capacity * 2; cells = cells }))
        × (length cells ≡ l.array.capacity * 2)
        × ((k : ℕ) → k < l.array.capacity → get_or cells k d ≡ get_or l.array.cells k d)
  unfolding resize
  resize_doubles l v pos =
      let (cells, e, len, kept) =
        resize_cells_returns d l.array.cells l.array.capacity (l.array.capacity * 2) 0 v.storage
          (omega arith) in
      let twice : l.array.capacity * 2 % 2 ^ 32 ≡ l.array.capacity * 2 = omega (arith, v.fits) in
      (
        cells,
        rw (twice, e),
        len,
        λ k lt. ap (λ j. get_or cells j d) {x = k} {y = 0 + k} (omega arith) ∙ kept k lt,
      )

  pub grow_returns :
      (l : ArrayList A)
      → IsValid l
      → 0 < l.array.capacity
      → (l' : ArrayList A) × (grow d l ≡ done l') × IsGrown l l'
  unfolding grow
  grow_returns l v pos = elim (ℕ_discrete l.size l.array.capacity) [
    | no ne ↦ (
      l,
      rw (ne→== l.size l.array.capacity ne),
      record {
        storage = v.storage;
        size = refl;
        room = omega (arith, v.room);
        bound = omega arith;
        kept = λ k lt. refl;
      },
    )
    | yes e ↦
        let (cells, returns, len, kept) = resize_doubles l v pos in
        let full : (l.size == l.array.capacity) ≡ true = ground arith in
        (
          record l { array = record { capacity = l.array.capacity * 2; cells = cells } },
          rw (full, returns),
          record {
            storage = len;
            size = refl;
            room = omega arith;
            bound = omega arith;
            kept = λ k lt. kept k (omega arith);
          },
        )
  ]
