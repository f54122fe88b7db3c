-- ===== src/Util/HashMap/Lookup.antt =====
-- The operations of the map, seen by what it finds.
use lamb_os.Base.{
  ℕ, zero, suc, ◌%◌, ◌<◌, ◌≡◌, ◌≢◌, inl, inr, refl, ap, ◌∙◌, Bool, true, false, List, [], Option,
  none, some, ◌==◌, if◌then◌else◌, arith, length, set, get_or, get_or-set, length-set,
  length-replicate, replicate, Option-cases, ne→==,
}
use native.Mathlib.Decide.{ℕ_discrete}
use lamb_os.Base.Outcome.{done, load_in, store_in}
use lamb_os.Util.HashMap.{
  HashMap, init, with_cells, should_resize, find_in, insert_in, hash, insert, contains, at,
  found_or_new, found_value,
}
use lamb_os.Util.HashMap.Chains.{
  IsEquality, is_some, distinct, Updates, insert_in-Updates, contains_in_returns,
}

abbrev pub or_else {ℓ} : {V : Type ℓ} → Option V → V → V
or_else none d = d
or_else (some v) d = v

get_or-replicate {ℓ} : {A : Type ℓ} (n i : ℕ) → get_or (replicate {A = List A} n []) i [] ≡ []
get_or-replicate zero i = refl
get_or-replicate (suc n) zero = refl
get_or-replicate (suc n) (suc i) = get_or-replicate n i

module _ {K V : Type 0} (equal : K → K → Bool) (hasher : K → ℕ) where
  abbrev pub chain_of : HashMap K V → K → List (K × V)
  chain_of m k = get_or m.values.cells (hasher k % m.values.capacity) []

  -- What the map holds at a key.
  unfoldable pub find : HashMap K V → K → Option V
  find m k = find_in equal (chain_of m k) k

  -- There is a bucket, the count is 0 as the constructor leaves it, and no bucket has a key twice.
  pub record IsValid (m : HashMap K V) : Type 0 where
    pub pos : 0 < m.values.capacity
    pub storage : length m.values.cells ≡ m.values.capacity
    pub uncounted : m.size ≡ 0
    pub keys_distinct : (i : ℕ) → distinct equal (get_or m.values.cells i []) ≡ true

module _ {K V : Type 0} {equal : K → K → Bool} (l : IsEquality equal) (hasher : K → ℕ) where
  hash_in :
      (m : HashMap K V) (k : K)
      → IsValid equal hasher m
      → hasher k % m.values.capacity < length m.values.cells
  hash_in m k v = omega (arith, v.pos, v.storage)

  hash_returns :
      (m : HashMap K V) (k : K)
      → IsValid equal hasher m
      → hash hasher m k ≡ done (hasher k % m.values.capacity)
  unfolding hash
  hash_returns m k v = rw (ne→== m.values.capacity 0 (omega (arith, v.pos)))

  never_resizes : (m : HashMap K V) → IsValid equal hasher m → should_resize m ≡ false
  unfolding should_resize
  never_resizes m v = ground (arith, v.uncounted)

  replaced : HashMap K V → K → List (K × V) → HashMap K V
  replaced m k chain' = with_cells m (set m.values.cells (hasher k % m.values.capacity) chain')

  -- The chain of a key after the one of `k` is replaced.
  replaced_chain :
      (m : HashMap K V) (k : K) (chain' : List (K × V)) (i : ℕ)
      → IsValid equal hasher m
      → get_or (set m.values.cells (hasher k % m.values.capacity) chain') i []
        ≡ (if hasher k % m.values.capacity == i then chain' else get_or m.values.cells i [])
  replaced_chain m k chain' i v =
      get_or-set m.values.cells (hasher k % m.values.capacity) i chain' [] (hash_in m k v)

  replaced_at :
      (m : HashMap K V) (k k' : K) (chain' : List (K × V)) (o : Option V)
      → IsValid equal hasher m
      → Updates l (chain_of equal hasher m k) k o chain'
      → k' ≢ k
      → find_in equal
          (if hasher k % m.values.capacity == hasher k' % m.values.capacity
            then chain'
            else chain_of equal hasher m k')
          k'
        ≡ find_in equal (chain_of equal hasher m k') k'
  replaced_at m k k' chain' o v u ne =
      elim (ℕ_discrete (hasher k % m.values.capacity) (hasher k' % m.values.capacity)) [
        | yes e ↦
            let same : (hasher k % m.values.capacity == hasher k' % m.values.capacity) ≡ true =
              ground arith in
            rw (same) (u.others k' ne ∙ ap (λ i. find_in equal (get_or m.values.cells i []) k') e)
        | no off ↦ rw (ne→== (hasher k % m.values.capacity) (hasher k' % m.values.capacity) off)
      ]

  replaced_distinct :
      (m : HashMap K V) (k : K) (chain' : List (K × V)) (o : Option V) (i : ℕ)
      → IsValid equal hasher m
      → Updates l (chain_of equal hasher m k) k o chain'
      → distinct equal
          (if hasher k % m.values.capacity == i then chain' else get_or m.values.cells i [])
        ≡ true
  replaced_distinct m k chain' o i v u = elim (ℕ_discrete (hasher k % m.values.capacity) i) [
    | yes e ↦
        let same : (hasher k % m.values.capacity == i) ≡ true = ground arith in
        rw (same) (u.still_distinct (v.keys_distinct (hasher k % m.values.capacity)))
    | no off ↦ rw (ne→== (hasher k % m.values.capacity) i off) (v.keys_distinct i)
  ]

  -- The map after its bucket for a key is replaced.
  pub record Changes (m : HashMap K V) (k : K) (o : Option V) (m' : HashMap K V) : Type 0 where
    pub valid : IsValid equal hasher m'
    pub at_key : find equal hasher m' k ≡ o
    pub others : (k' : K) → k' ≢ k → find equal hasher m' k' ≡ find equal hasher m k'

  replaced-Changes :
      (m : HashMap K V) (k : K) (chain' : List (K × V)) (o : Option V)
      → IsValid equal hasher m
      → Updates l (chain_of equal hasher m k) k o chain'
      → Changes m k o (replaced m k chain')
  unfolding replaced find
  replaced-Changes m k chain' o v u =
      let h = hasher k % m.values.capacity in
      let same : (h == h) ≡ true = ground arith in
      record {
        valid = record {
          pos = v.pos;
          storage = length-set m.values.cells h chain' ∙ v.storage;
          uncounted = v.uncounted;
          keys_distinct = λ i.
              ap (distinct equal) (replaced_chain m k chain' i v)
              ∙ replaced_distinct m k chain' o i v u;
        };
        at_key = ap (λ c. find_in equal c k) (replaced_chain m k chain' h v) ∙ rw (same) u.at_key;
        others = λ k' ne.
            ap (λ c. find_in equal c k')
              (replaced_chain m k chain' (hasher k' % m.values.capacity) v)
            ∙ replaced_at m k k' chain' o v u ne;
      }

  pub insert_lem :
      (m : HashMap K V) (k : K) (x : V)
      → IsValid equal hasher m
      → (m' : HashMap K V) × (insert equal hasher m k x ≡ done (true, m')) × Changes m k (some x) m'
  unfolding insert replaced
  insert_lem m k x v =
      let chain = chain_of equal hasher m k in
      let chain' = insert_in equal chain k x in
      (
        replaced m k chain',
        rw (
          never_resizes m v,
          hash_returns m k v,
          load_in m.values.cells (hasher k % m.values.capacity) [] (hash_in m k v),
          store_in m.values.cells (hasher k % m.values.capacity) chain' (hash_in m k v),
        ),
        replaced-Changes m k chain' (some x) v (insert_in-Updates l chain k x),
      )

  pub contains_lem :
      (m : HashMap K V) (k : K)
      → IsValid equal hasher m
      → contains equal hasher m k ≡ done (is_some (find equal hasher m k))
  unfolding contains find
  contains_lem m k v = rw (
    hash_returns m k v,
    load_in m.values.cells (hasher k % m.values.capacity) [] (hash_in m k v),
    contains_in_returns l (chain_of equal hasher m k) k,
  )

  -- `operator[]` where the key is there.
  at_found :
      (fresh : V) (m : HashMap K V) (k : K) (x : V)
      → IsValid equal hasher m
      → find equal hasher m k ≡ some x
      → at equal hasher fresh m k ≡ done (x, m)
  unfolding at find found_or_new
  at_found fresh m k x v e =
      let there : find_in equal (get_or m.values.cells (hasher k % m.values.capacity) []) k
          ≡ some x =
        e in
      rw
        (
          hash_returns m k v,
          load_in m.values.cells (hasher k % m.values.capacity) [] (hash_in m k v),
        )
        (rw (there))

  -- And where it is not: the fresh value is inserted.
  at_missing :
      (fresh : V) (m : HashMap K V) (k : K)
      → IsValid equal hasher m
      → find equal hasher m k ≡ none
      → (m' : HashMap K V) × (at equal hasher fresh m k ≡ done (fresh, m'))
        × Changes m k (some fresh) m'
  unfolding at find found_or_new found_value insert replaced
  at_missing fresh m k v e =
      let chain = chain_of equal hasher m k in
      let h = hasher k % m.values.capacity in
      let absent : find_in equal (get_or m.values.cells (hasher k % m.values.capacity) []) k
          ≡ none =
        e in
      let chain' = insert_in equal chain k fresh in
      let m' = replaced m k chain' in
      let changes =
        replaced-Changes m k chain' (some fresh) v (insert_in-Updates l chain k fresh) in
      let there : find_in equal (get_or (set m.values.cells h chain') h []) k ≡ some fresh =
        changes.at_key in
      (
        m',
        rw (hash_returns m k v, load_in m.values.cells h [] (hash_in m k v))
            (rw (absent) (
              rw
                (
                  never_resizes m v,
                  hash_returns m k v,
                  load_in m.values.cells h [] (hash_in m k v),
                  store_in m.values.cells h chain' (hash_in m k v),
                  load_in (set m.values.cells h chain') h [] (hash_in m' k changes.valid),
                )
                (rw (there)))),
        changes,
      )

  pub at_lem :
      (fresh : V) (m : HashMap K V) (k : K)
      → IsValid equal hasher m
      → (m' : HashMap K V) × (at equal hasher fresh m k
          ≡ done (or_else (find equal hasher m k) fresh, m'))
        × Changes m k (some (or_else (find equal hasher m k) fresh)) m'
  at_lem fresh m k v = elim (Option-cases (find equal hasher m k)) [
    | inl absent ↦
        let (m', e, c) = at_missing fresh m k v absent in (m', rw (absent) e, rw (absent) c)
    | inr (x, there) ↦ (
      m,
      rw (there) (at_found fresh m k x v there),
      rw (there) (record { valid = v; at_key = there; others = λ k' ne. refl }),
    )
  ]

  pub init-IsValid : (c : ℕ) → 0 < c → IsValid {V = V} equal hasher (init c)
  unfolding init
  init-IsValid c h = record {
    pos = h;
    storage = length-replicate c [];
    uncounted = refl;
    keys_distinct = λ i. rw (get_or-replicate c i);
  }

  pub find-init : (c : ℕ) (k : K) → find {V = V} equal hasher (init c) k ≡ none
  unfolding find init find_in
  find-init c k = ap (λ chain. find_in {V = V} equal chain k) (get_or-replicate c (hasher k % c))
