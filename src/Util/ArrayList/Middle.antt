-- ===== src/Util/ArrayList/Middle.antt =====
-- Insertion and removal in the middle of an array list.
use lamb_os.Base.{
  ℕ, zero, suc, ◌+◌, ◌-◌, ◌%◌, ◌^◌, ◌≤◌, ◌<◌, ◌≡◌, refl, sym, ap, ◌∙◌, true, false, ◌&&◌, List, ◌∷◌,
  ◌++◌, ◌==◌, ltb, leb, if◌then◌else◌, arith, length, set, get_or, take, drop, length-append,
  length-set, length-take, length-drop, get_or-take, get_or-set, le→ltb, ne→==,
}
use native.Mathlib.Decide.{ℕ_discrete, dec_lt}
use lamb_os.Base.Outcome.{done, load_in, store_in}
use lamb_os.Util.DynamicArray.Loops.{move_left_returns}
use lamb_os.Util.ArrayList.{ArrayList, make_room, remove_at, insert, with_cells}
use lamb_os.Util.ArrayList.Inv.{
  IsValid, contents, length-contents, take_eq, get_or_spliced, get_or_removed, grow_returns,
}

module _ {A : Type 0} (d : A) where
  -- Each of the `n` cells up to `i` takes the value of the cell before it; no other cell changes.
  make_room_returns :
      (n i : ℕ) (b : List A)
      → n ≤ i
      → i < length b
      → (b' : List A) × (make_room n i b ≡ done b')
        × (length b' ≡ length b)
        × ((k : ℕ)
            → get_or b' k d
              ≡ (if ltb (i - n) k && leb k i then get_or b (k - 1) d else get_or b k d))
  unfolding make_room
  make_room_returns zero i b h lt = (b, refl, refl, λ k. ground arith)
  make_room_returns (suc n) i b h lt =
      let (b₂, e, len, cells) =
        make_room_returns n (i - 1) (set b i (get_or b (i - 1) d)) (omega arith)
          (omega (arith, length-set b i (get_or b (i - 1) d))) in
      (
        b₂,
        rw (load_in b (i - 1) d (omega arith), store_in b i (get_or b (i - 1) d) lt) e,
        len ∙ length-set b i (get_or b (i - 1) d),
        λ k. moved k (cells k),
      )
    where
      at_step :
          (k : ℕ)
          → get_or (set b i (get_or b (i - 1) d)) k d
            ≡ (if i == k then get_or b (i - 1) d else get_or b k d)
      at_step k = get_or-set b i k (get_or b (i - 1) d) d lt

      moved :
          (k : ℕ) {v : A}
          → v ≡ (
              if ltb (i - 1 - n) k && leb k (i - 1)
              then get_or (set b i (get_or b (i - 1) d)) (k - 1) d
              else get_or (set b i (get_or b (i - 1) d)) k d)
          → v ≡ (if ltb (i - suc n) k && leb k i then get_or b (k - 1) d else get_or b k d)
      moved k e = elim (ℕ_discrete i k) [
        | yes here ↦
            ground (arith, at_step k, ap (λ j. get_or b j d) {x = i - 1} {y = k - 1} (omega arith))
        | no _ ↦ ground (arith, at_step k, at_step (k - 1))
      ]

  -- Removal by index: below the size it returns `true` and a valid list without that element; at
  -- or above the size it returns `false` and changes nothing.
  pub remove_at_lem :
      (l : ArrayList A) (index : ℕ)
      → IsValid l
      → (l' : ArrayList A) × (remove_at l index ≡ done (ltb index l.size, l'))
        × IsValid l'
        × (contents l' ≡ (
            if ltb index l.size
            then take index (contents l) ++ drop (suc index) (contents l)
            else contents l))
  unfolding remove_at
  remove_at_lem l index v = elim (dec_lt index l.size) [
    | no out ↦
        let test : leb l.size index ≡ true = ground arith in
        let test' : ltb index l.size ≡ false = le→ltb index l.size (omega arith) in
        (l, rw (test, test'), v, rw test')
    | yes lt ↦
        let (cells, returns, len, moved) =
          move_left_returns d (l.size - 1 - index) (index + 1) 1 l.array.cells (omega arith)
            (omega arith) (omega (arith, v.storage, v.room)) in
        let width = length-contents l v in
        let test : leb l.size index ≡ false = ground arith in
        let test' : ltb index l.size ≡ true = ground arith in
        (
          with_cells l cells (l.size - 1),
          rw (test, test', returns),
          record { storage = len ∙ v.storage; room = omega (arith, v.room); fits = v.fits },
          rw test' (
              take_eq d (l.size - 1) cells
                (take index (contents l) ++ drop (suc index) (contents l))
                (omega (arith, len, v.storage, v.room))
                (omega (
                  arith,
                  length-append (take index (contents l)) (drop (suc index) (contents l)),
                  length-take index (contents l),
                  length-drop (suc index) (contents l),
                ))
                λ k hk. ground (
                  arith,
                  moved k,
                  get_or_removed d index (contents l) k (omega arith),
                  get_or-take l.size l.array.cells k d (omega arith),
                  get_or-take l.size l.array.cells (suc k) d (omega arith),
                  ap (λ j. get_or l.array.cells j d) {x = suc k} {y = k + 1} (omega arith),
                )),
        )
  ]

  -- The cells that `insert` leaves: `g` moved up from `index` on, and `x` stored there.
  inserted :
      (b g c : List A) (x : A) (n index : ℕ)
      → index < n
      → n ≤ length c
      → index < length b
      → ((k : ℕ)
          → get_or b k d
            ≡ (if ltb (n - (n - index)) k && leb k n then get_or g (k - 1) d else get_or g k d))
      → ((k : ℕ) → k < n → get_or g k d ≡ get_or c k d)
      → (k : ℕ) → k ≤ n
      → get_or (set b index x) k d ≡ get_or (take index c ++ (x ∷ drop index c)) k d
  inserted b g c x n index lt room inside moved kept k hk =
      let lhs = get_or-set b index k x d inside in
      let rhs = get_or_spliced d index c x k (omega arith) in
      elim (ℕ_discrete index k) [
        | yes here ↦ ground (arith, lhs, rhs)
        | no other ↦ elim (dec_lt k index) [
          | yes below ↦ ground (arith, lhs, rhs, moved k, kept k (omega arith))
          | no above ↦ ground (arith, lhs, rhs, moved k, kept (k - 1) (omega arith))
        ]
      ]

  -- Insertion before an element that is not the first, in a valid list whose block can double
  -- twice without a wrap, returns `true` and a valid list with the element there and all others
  -- in their order.
  pub insert_between :
      (l : ArrayList A) (x : A) (index : ℕ)
      → IsValid l
      → 0 < index
      → index < l.size
      → l.array.capacity < 2 ^ 30
      → (l' : ArrayList A) × (insert d l x index ≡ done (true, l'))
        × IsValid l'
        × (contents l' ≡ take index (contents l) ++ (x ∷ drop index (contents l)))
  unfolding insert
  insert_between l x index v pos lt small =
      let (g, grows, is) = grow_returns d l v (omega (arith, v.room)) in
      let (b, makes, len, moved) =
        make_room_returns (g.size - index) g.size g.array.cells (omega arith)
          (omega (arith, is.storage, is.size, is.room)) in
      let cells = set b index x in
      let width = length-contents l v in
      let inside : index < length b = omega (arith, len, is.storage, is.size, is.room) in
      let spec = take index (contents l) ++ (x ∷ drop index (contents l)) in
      let bump : (g.size + 1) % 2 ^ 32 ≡ g.size + 1 = omega (arith, is.room, is.size, is.bound) in
      (
        with_cells g cells (g.size + 1),
        rw (
          ne→== index l.size (omega arith),
          ne→== index 0 (omega arith),
          le→ltb l.size index (omega arith),
          grows,
          makes,
          store_in b index x inside,
          bump,
        ),
        record {
          storage = length-set b index x ∙ len ∙ is.storage;
          room = omega (arith, is.size, is.room);
          fits = omega (arith, is.bound);
        },
        take_eq d (g.size + 1) cells spec
            (omega (arith, length-set b index x, len, is.storage, is.size, is.room))
            (omega (
              arith,
              is.size,
              length-append (take index (contents l)) (x ∷ drop index (contents l)),
              length-take index (contents l),
              length-drop index (contents l),
            ))
            λ k hk.
              inserted b g.array.cells (contents l) x g.size index (omega (arith, is.size))
                (omega (arith, is.size)) inside moved
                (λ j hj.
                  is.kept j (omega (arith, is.size))
                  ∙ sym (get_or-take l.size l.array.cells j d (omega (arith, is.size))))
                k (omega arith),
      )
