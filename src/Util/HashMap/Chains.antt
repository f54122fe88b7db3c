-- ===== src/Util/HashMap/Chains.antt =====
-- The loops over one bucket.
use lamb_os.Base.{
  ◌≡◌, ◌≢◌, ◌⊎◌, inl, inr, refl, sym, ap, ◌∙◌, Bool, true, false, not, ◌&&◌, List, [], ◌∷◌, ◌++◌,
  Option, none, some, if◌then◌else◌, false≢true, Bool-cases,
}
use lamb_os.Util.HashMap.{assign_in, insert_in, contains_in, find_in}

-- What the map relies on: the comparison of keys is equality.
pub record IsEquality {K : Type 0} (equal : K → K → Bool) : Type 0 where
  pub sound : (a b : K) → equal a b ≡ true → a ≡ b
  pub reflexive : (a : K) → equal a a ≡ true

abbrev pub is_some {ℓ} : {V : Type ℓ} → Option V → Bool
is_some none = false
is_some (some v) = true

pub different :
    {K : Type 0} {equal : K → K → Bool} → IsEquality equal → (a b : K) → b ≢ a → equal a b ≡ false
different l a b ne = elim (Bool-cases _) [ inl e ↦ absurd (ne (sym (l.sound a b e))) | inr e ↦ e ]

both_true : (a b : Bool) → (a && b) ≡ true → (a ≡ true) × (b ≡ true)
both_true true b h = (refl, h)
both_true false b h = absurd (false≢true h)

not_some {ℓ} : {V : Type ℓ} (o : Option V) → not (is_some o) ≡ true → o ≡ none
not_some none h = refl
not_some (some v) h = absurd (false≢true h)

some_ne_none {ℓ} : {V : Type ℓ} {v : V} → some v ≢ none
some_ne_none e = cc

module _ {K V : Type 0} (equal : K → K → Bool) where
  -- No key twice.
  abbrev pub distinct : List (K × V) → Bool
  distinct [] = true
  distinct ((k, v) ∷ chain) = not (is_some (find_in equal chain k)) && distinct chain

module _ {K V : Type 0} {equal : K → K → Bool} (l : IsEquality equal) where
  -- What a bucket that changed at a key shows.
  pub record Updates (chain : List (K × V)) (k : K) (o : Option V) (chain' : List (K × V))
      : Type 0 where
    pub at_key : find_in equal chain' k ≡ o
    pub others : (k' : K) → k' ≢ k → find_in equal chain' k' ≡ find_in equal chain k'
    pub still_distinct : distinct equal chain ≡ true → distinct equal chain' ≡ true

  find_next :
      (chain : List (K × V)) (k k' : K) (v : V)
      → find_in equal ((k', v) ∷ chain) k ≡ (if equal k' k then some v else find_in equal chain k)
  unfolding find_in
  find_next chain k k' v = refl

  find_head : (chain : List (K × V)) (k : K) (v : V) → find_in equal ((k, v) ∷ chain) k ≡ some v
  find_head chain k v = find_next chain k k v ∙ rw (l.reflexive k)

  -- The head of a bucket stays and the rest changes at a key that is not the head's.
  keeps_head :
      (chain chain' : List (K × V)) (k k' : K) (v' : V) (o : Option V)
      → equal k' k ≡ false
      → Updates chain k o chain'
      → Updates ((k', v') ∷ chain) k o ((k', v') ∷ chain')
  keeps_head chain chain' k k' v' o e u = record {
    at_key = find_next chain' k k' v' ∙ rw (e) u.at_key;
    others = λ j ne. find_next chain' j k' v' ∙ rw (u.others j ne) (sym (find_next chain j k' v'));
    still_distinct = λ d.
        let old : find_in equal chain' k' ≡ find_in equal chain k' =
          u.others k' (λ q. false≢true (sym e ∙ ap (equal k') (sym q) ∙ l.reflexive k')) in
        let (new_head, rest) =
          both_true (not (is_some (find_in equal chain k'))) (distinct equal chain) d in
        rw (old, new_head, u.still_distinct rest);
  }

  -- A key that is nowhere else has its value replaced at the head.
  head_changes :
      (chain : List (K × V)) (k k' : K) (v v' : V)
      → equal k' k ≡ true
      → Updates ((k', v') ∷ chain) k (some v) ((k', v) ∷ chain)
  head_changes chain k k' v v' e = record {
    at_key = find_next chain k k' v ∙ rw (e);
    others = λ j ne.
        let off : equal k' j ≡ false = different l k' j (λ q. ne (q ∙ l.sound k' k e)) in
        find_next chain j k' v ∙ rw (off) (sym (find_next chain j k' v' ∙ rw (off)));
    still_distinct = λ d. d;
  }

  -- The last pair is new.
  appends :
      (chain : List (K × V)) (k : K) (v : V)
      → find_in equal chain k ≡ none
      → Updates chain k (some v) (chain ++ ((k, v) ∷ []))
  unfolding find_in
  appends [] k v e = record {
    at_key = find_head [] k v;
    others = λ j ne. find_next [] j k v ∙ rw (different l k j ne);
    still_distinct = λ d. refl;
  }
  appends ((k', v') ∷ chain) k v e = elim (Bool-cases (equal k' k)) [
    | inl same ↦
        let there : find_in equal ((k', v') ∷ chain) k ≡ some v' =
          find_next chain k k' v' ∙ rw (same) in
        absurd (some_ne_none (sym there ∙ e))
    | inr off ↦
        keeps_head chain (chain ++ ((k, v) ∷ [])) k k' v' (some v) off
          (appends chain k v (sym (find_next chain k k' v' ∙ rw (off)) ∙ e))
  ]

  -- The loop of `insert`.
  assign_in_returns :
      (chain : List (K × V)) (k : K) (v : V)
      → ((find_in equal chain k ≡ none) × (assign_in equal chain k v ≡ none))
        ⊎ ((chain' : List (K × V)) × (assign_in equal chain k v ≡ some chain')
            × Updates chain k (some v) chain')
  unfolding find_in assign_in
  assign_in_returns [] k v = inl (refl, refl)
  assign_in_returns ((k', v') ∷ chain) k v = elim (Bool-cases (equal k' k)) [
    | inl same ↦ inr ((k', v) ∷ chain, rw (same), head_changes chain k k' v v' same)
    | inr off ↦ elim (assign_in_returns chain k v) [
      | inl (missing, e) ↦ inl (rw (off) missing, rw (off, e))
      | inr (chain', e, u) ↦
          inr ((k', v') ∷ chain', rw (off, e), keeps_head chain chain' k k' v' (some v) off u)
    ]
  ]

  pub insert_in-Updates :
      (chain : List (K × V)) (k : K) (v : V) → Updates chain k (some v) (insert_in equal chain k v)
  unfolding insert_in
  insert_in-Updates chain k v = elim (assign_in_returns chain k v) [
    | inl (missing, e) ↦ rw (insert_in, e) (appends chain k v missing)
    | inr (chain', e, u) ↦ rw (insert_in, e) u
  ]

  pub contains_in_returns :
      (chain : List (K × V)) (k : K) → contains_in equal chain k ≡ is_some (find_in equal chain k)
  unfolding contains_in find_in
  contains_in_returns [] k = refl
  contains_in_returns ((k', v') ∷ chain) k = elim (Bool-cases (equal k' k)) [
    | inl same ↦ rw (same)
    | inr off ↦ rw (off) (contains_in_returns chain k)
  ]
