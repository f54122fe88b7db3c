-- ===== src/Util/ArrayList/Ends.antt =====
-- The two ends of an array list: enqueue, pop, popBack and push.
use lamb_os.Base.{
  ℕ, zero, suc, ◌+◌, ◌-◌, ◌%◌, ◌^◌, ◌<◌, ◌≡◌, ◌≢◌, refl, sym, ap, ◌∙◌, ◌&&◌, List, [], ◌∷◌, ◌++◌,
  ltb, leb, if◌then◌else◌, arith, length, set, get_or, take, length-append, length-set, length-take,
  get_or-take, get_or-append_left, get_or-append_right, le→ltb, ne→==, get_or-set_self,
  get_or-set_ne,
}
use native.Mathlib.Decide.{dec_lt}
use lamb_os.Base.Outcome.{done, fault, load_in, store_in}
use lamb_os.Util.DynamicArray.{shift}
use lamb_os.Util.DynamicArray.Loops.{move_left_returns, move_right_overruns}
use lamb_os.Util.ArrayList.{ArrayList, enqueue, pop, pop_back, push, shift_or_resize, with_cells}
use lamb_os.Util.ArrayList.Inv.{IsValid, contents, length-contents, take_eq, grow_returns}

module _ {ℓ} {A : Type ℓ} (d : A) where
  -- `enqueue` on a valid list with a block returns a valid list whose contents are the old ones
  -- and the element behind them, as long as doubling the block does not wrap again.
  pub enqueue_appends :
      (l : ArrayList A) (x : A)
      → IsValid l
      → 0 < l.array.capacity
      → l.array.capacity < 2 ^ 30
      → (l' : ArrayList A) × (enqueue d l x ≡ done l')
        × IsValid l'
        × (contents l' ≡ contents l ++ (x ∷ []))
  unfolding enqueue
  enqueue_appends l x v pos small =
      let (g, returns, is) = grow_returns d l v pos in
      let cells = set g.array.cells g.size x in
      let bump : (g.size + 1) % 2 ^ 32 ≡ g.size + 1 = omega (arith, is.room, is.size, is.bound) in
      let width = length-contents l v in
      (
        with_cells g cells (g.size + 1),
        rw (
          returns,
          store_in g.array.cells g.size x (omega (arith, is.storage, is.size, is.room)),
          bump,
        ),
        record {
          storage = length-set g.array.cells g.size x ∙ is.storage;
          room = omega (arith, is.size, is.room);
          fits = omega (arith, is.bound);
        },
        take_eq d (g.size + 1) cells (contents l ++ (x ∷ []))
            (omega (arith, length-set g.array.cells g.size x, is.storage, is.size, is.room))
            (omega (arith, length-append (contents l) (x ∷ []), is.size))
            λ k lt. elim (dec_lt k l.size) [
              | yes old ↦
                  get_or-set_ne g.array.cells g.size k x d (omega (arith, is.size))
                  ∙ is.kept k old
                  ∙ sym (get_or-take l.size l.array.cells k d old)
                  ∙ sym (get_or-append_left (contents l) (x ∷ []) k d (omega arith))
              | no last ↦
                  ap (λ j. get_or cells j d) {x = k} {y = g.size} (omega (arith, is.size))
                  ∙ get_or-set_self g.array.cells g.size x d
                      (omega (arith, is.storage, is.size, is.room))
                  ∙ sym (
                      ap (λ j. get_or (x ∷ []) j d) {x = k - length (contents l)} {y = 0}
                        (omega (arith, is.size)))
                  ∙ sym (get_or-append_right (contents l) (x ∷ []) k d (omega arith))
            ],
      )

  -- `pop` on a valid list that is not empty returns its first element and a valid list of the rest.
  pub pop_takes_first :
      (l : ArrayList A)
      → IsValid l
      → l.size ≢ 0
      → (x : A) × (l' : ArrayList A) × (pop l ≡ done (x, l'))
        × IsValid l'
        × (contents l ≡ x ∷ contents l')
  unfolding pop shift
  pop_takes_first l v ne =
      let (cells, returns, len, moved) =
        move_left_returns d (l.array.capacity - 1) 1 1 l.array.cells (omega arith) (omega arith)
          (omega (arith, v.storage, v.room)) in
      let less : (l.size + 2 ^ 32 - 1) % 2 ^ 32 ≡ l.size - 1 = omega (arith, v.room, v.fits) in
      let l' : ArrayList A = with_cells l cells (l.size - 1) in
      (
        get_or l.array.cells 0 d,
        l',
        rw (load_in l.array.cells 0 d (omega (arith, v.storage, v.room)), returns, less),
        record { storage = len ∙ v.storage; room = omega (arith, v.room); fits = v.fits },
        take_eq d l.size l.array.cells (get_or l.array.cells 0 d ∷ contents l')
            (omega (arith, v.storage, v.room))
            (omega (arith, length-take (l.size - 1) cells, len, v.storage, v.room))
            (shifted l v cells moved),
      )
    where
      shifted :
          (l : ArrayList A)
          → IsValid l
          → (cells : List A)
          → ((k : ℕ)
              → get_or cells k d ≡ (
                  if leb 0 k && ltb k (0 + (l.array.capacity - 1))
                  then get_or l.array.cells (k + 1) d
                  else get_or l.array.cells k d))
          → (k : ℕ) → k < l.size
          → get_or l.array.cells k d
            ≡ get_or (get_or l.array.cells 0 d ∷ take (l.size - 1) cells) k d
      shifted l v cells moved zero lt = refl
      shifted l v cells moved (suc k) lt =
          ap (λ j. get_or l.array.cells j d) {x = suc k} {y = k + 1} (omega arith)
          ∙ sym (in_reach (moved k))
          ∙ sym (get_or-take (l.size - 1) cells k d (omega arith))
        where
          in_reach :
              get_or cells k d ≡ (
                if leb 0 k && ltb k (0 + (l.array.capacity - 1))
                then get_or l.array.cells (k + 1) d
                else get_or l.array.cells k d)
              → get_or cells k d ≡ get_or l.array.cells (k + 1) d
          in_reach e = ground (arith, v.room)

  -- `popBack` on a valid list that is not empty returns its last element and a valid list of the
  -- others.
  pub pop_back_takes_last :
      (l : ArrayList A)
      → IsValid l
      → l.size ≢ 0
      → (x : A) × (l' : ArrayList A) × (pop_back l ≡ done (x, l'))
        × IsValid l'
        × (contents l ≡ contents l' ++ (x ∷ []))
  unfolding pop_back
  pop_back_takes_last l v ne =
      let less : (l.size + 2 ^ 32 - 1) % 2 ^ 32 ≡ l.size - 1 = omega (arith, v.room, v.fits) in
      let x = get_or l.array.cells (l.size - 1) d in
      let l' : ArrayList A = record l { size = l.size - 1 } in
      let v' : IsValid l' = record {
        storage = v.storage;
        room = omega (arith, v.room);
        fits = v.fits;
      } in
      let width = length-contents l' v' in
      (
        x,
        l',
        rw (less, load_in l.array.cells (l.size - 1) d (omega (arith, v.storage, v.room))),
        v',
        take_eq d l.size l.array.cells (contents l' ++ (x ∷ [])) (omega (arith, v.storage, v.room))
            (omega (arith, length-append (contents l') (x ∷ [])))
            λ k lt. elim (dec_lt k (l.size - 1)) [
              | yes old ↦
                  sym (get_or-take (l.size - 1) l.array.cells k d old)
                  ∙ sym (get_or-append_left (contents l') (x ∷ []) k d (omega arith))
              | no last ↦
                  ap (λ j. get_or l.array.cells j d) {x = k} {y = l.size - 1} (omega arith)
                  ∙ sym (
                      ap (λ j. get_or (x ∷ []) j d) {x = k - length (contents l')} {y = 0}
                        (omega arith))
                  ∙ sym (get_or-append_right (contents l') (x ∷ []) k d (omega arith))
            ],
      )

  -- `push` on a valid list that holds something and is not full moves every cell of the block one
  -- place to the right, the last one too, and so writes behind the block.
  pub push_overruns :
      (l : ArrayList A) (x : A)
      → IsValid l
      → 0 < l.size
      → l.size < l.array.capacity
      → push d l x ≡ fault
  unfolding push shift_or_resize shift
  push_overruns l x v some room =
      let fits : (1 + l.size) % 2 ^ 32 ≡ 1 + l.size = omega (arith, v.fits) in
      rw (
        ne→== l.size 0 (omega arith),
        fits,
        le→ltb l.array.capacity (1 + l.size) (omega arith),
        move_right_overruns d l.array.capacity 1 l.array.cells v.storage (omega arith)
            (omega arith),
      )
