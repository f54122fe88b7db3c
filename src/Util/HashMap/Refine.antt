-- ===== src/Util/HashMap/Refine.antt =====
-- The map over any sequence of calls, against a partial function from keys to values.
use lamb_os.Base.{
  ℕ, ◌≡◌, refl, sym, ap, ◌∙◌, Bool, true, List, [], ◌∷◌, Option, some, if◌then◌else◌, Bool-cases,
  inl, inr, false≢true, arith,
}
use lamb_os.Base.Outcome.{Outcome, done, ◌>>=◌}
use lamb_os.Util.HashMap.{HashMap, is_empty, insert, contains, at}
use lamb_os.Util.HashMap.Chains.{IsEquality, is_some}
use lamb_os.Util.HashMap.Lookup.{IsValid, Changes, find, or_else, insert_lem, contains_lem, at_lem}

-- A call, and its answer.
pub data Op (K V : Type 0) : Type 0 where
  insert_at : K → V → Op K V
  ask : K → Op K V
  read_at : K → Op K V

pub data Answer (V : Type 0) : Type 0 where
  truth : Bool → Answer V
  value : V → Answer V

-- What a partial function answers.
abbrev pub updated : {K V : Type 0} → (K → K → Bool) → (K → Option V) → K → Option V → K → Option V
updated equal f k o j = if equal k j then o else f j

module _ {K V : Type 0} (equal : K → K → Bool) (fresh : V) where
  unfoldable pub answers : (K → Option V) → List (Op K V) → List (Answer V) × (K → Option V)
  answers f [] = ([], f)
  answers f (insert_at k x ∷ ops) =
      let rest = answers (updated equal f k (some x)) ops in (truth true ∷ rest.0, rest.1)
  answers f (ask k ∷ ops) = let rest = answers f ops in (truth (is_some (f k)) ∷ rest.0, rest.1)
  answers f (read_at k ∷ ops) =
      let x = or_else (f k) fresh in
      let rest = answers (updated equal f k (some x)) ops in (value x ∷ rest.0, rest.1)

module _ {K V : Type 0} (equal : K → K → Bool) (hasher : K → ℕ) (fresh : V) where
  -- The calls of a client in order, with their answers.
  pub run : HashMap K V → List (Op K V) → Outcome (List (Answer V) × HashMap K V)
  run m [] = done ([], m)
  run m (insert_at k x ∷ ops) = do
    (b, m') ← insert equal hasher m k x
    (out, m'') ← run m' ops
    done (truth b ∷ out, m'')
  run m (ask k ∷ ops) = do
    b ← contains equal hasher m k
    (out, m'') ← run m ops
    done (truth b ∷ out, m'')
  run m (read_at k ∷ ops) = do
    (x, m') ← at equal hasher fresh m k
    (out, m'') ← run m' ops
    done (value x ∷ out, m'')

module _ {K V : Type 0} {equal : K → K → Bool} (l : IsEquality equal) (hasher : K → ℕ) where
  Changes-updated :
      (m m' : HashMap K V) (k : K) (o : Option V) (f : K → Option V)
      → Changes l hasher m k o m'
      → ((j : K) → find equal hasher m j ≡ f j)
      → (j : K) → find equal hasher m' j ≡ updated equal f k o j
  Changes-updated m m' k o f c h j = elim (Bool-cases (equal k j)) [
    | inl same ↦ rw (same) (ap (find equal hasher m') (sym (l.sound k j same)) ∙ c.at_key)
    | inr off ↦
        rw (off) (c.others j (λ e. false≢true (sym off ∙ ap (equal k) e ∙ l.reflexive k)) ∙ h j)
  ]

  -- No client that inserts, asks for keys and reads at keys can tell a valid map from the partial
  -- function of what it finds: over any sequence of these calls it faults nowhere, gives that
  -- function's answers, and ends valid with what it holds then. The comparison of keys is equality.
  pub map_run_refines :
      (fresh : V) (ops : List (Op K V)) (m : HashMap K V) (f : K → Option V)
      → IsValid equal hasher m
      → ((j : K) → find equal hasher m j ≡ f j)
      → (m' : HashMap K V) × (run equal hasher fresh m ops
          ≡ done ((answers equal fresh f ops).0, m'))
        × IsValid equal hasher m'
        × ((j : K) → find equal hasher m' j ≡ (answers equal fresh f ops).1 j)
  unfolding run answers
  map_run_refines fresh [] m f v h = (m, refl, v, h)
  map_run_refines fresh (insert_at k x ∷ ops) m f v h =
      let (m₁, e, c) = insert_lem l hasher m k x v in
      let (m₂, r, v₂, h₂) =
        map_run_refines fresh ops m₁ (updated equal f k (some x)) c.valid
          (Changes-updated m m₁ k (some x) f c h) in
      (m₂, rw (e, r), v₂, h₂)
  map_run_refines fresh (ask k ∷ ops) m f v h =
      let (m₂, r, v₂, h₂) = map_run_refines fresh ops m f v h in
      (m₂, rw (contains_lem l hasher m k v, r, h k), v₂, h₂)
  map_run_refines fresh (read_at k ∷ ops) m f v h =
      let (m₁, e, c) = at_lem l hasher fresh m k v in
      let x = or_else (f k) fresh in
      let x_is : or_else (find equal hasher m k) fresh ≡ x = ap (λ o. or_else o fresh) (h k) in
      let (m₂, r, v₂, h₂) =
        map_run_refines fresh ops m₁ (updated equal f k (some x)) c.valid
          (Changes-updated m m₁ k (some x) f (rw (← x_is) c) h) in
      (m₂, rw (e, r, x_is), v₂, h₂)

  -- An insertion into a valid map leaves the count at 0: the map finds the value and says that it is
  -- empty.
  pub insert_uncounted :
      (m : HashMap K V) (k : K) (x : V)
      → IsValid equal hasher m
      → (m' : HashMap K V) × (insert equal hasher m k x ≡ done (true, m'))
        × (contains equal hasher m' k ≡ done true)
        × (is_empty m' ≡ true)
  unfolding is_empty
  insert_uncounted m k x v =
      let (m', e, c) = insert_lem l hasher m k x v in
      (m', e, contains_lem l hasher m' k c.valid ∙ rw (c.at_key), ground (arith, c.valid.uncounted))
