-- ===== src/Util/HashMap/Tests.antt =====
-- A map of numbers with two buckets, in which 1 and 3 collide.
use lamb_os.Base.{
  ℕ, ◌≡◌, refl, Bool, true, false, List, [], ◌∷◌, Option, none, arith, ◌==◌, ==→eq, ==_self,
}
use lamb_os.Base.Outcome.{done}
use lamb_os.Util.HashMap.{HashMap, init, insert, contains, is_empty}
use lamb_os.Util.HashMap.Chains.{IsEquality}
use lamb_os.Util.HashMap.Lookup.{IsValid, find, init-IsValid, find-init}
use lamb_os.Util.HashMap.Refine.{
  Op, insert_at, ask, read_at, truth, value, answers, run, map_run_refines, insert_uncounted,
}

abbrev same : ℕ → ℕ → Bool
same a b = a == b

same-IsEquality : IsEquality same
same-IsEquality = record { sound = ==→eq; reflexive = ==_self }

abbrev number : ℕ → ℕ
number k = k

abbrev two_buckets : HashMap ℕ ℕ
two_buckets = init 2

abbrev nothing : ℕ → Option ℕ
nothing k = none

abbrev calls : List (Op ℕ ℕ)
calls = insert_at 1 10 ∷ insert_at 3 30 ∷ insert_at 1 20 ∷ ask 7 ∷ read_at 3 ∷ read_at 5 ∷ []

two_buckets-IsValid : IsValid same number two_buckets
two_buckets-IsValid = init-IsValid same-IsEquality number 2 (omega arith)

starts_empty : (j : ℕ) → find same number two_buckets j ≡ none
starts_empty j = find-init same-IsEquality number 2 j

the_answers :
    (answers same 0 nothing calls).0
    ≡ truth true ∷ truth true ∷ truth true ∷ truth false ∷ value 30 ∷ value 0 ∷ []
unfolding answers
the_answers = refl

map_run_refines_example :
    (m' : HashMap ℕ ℕ) × (run same number 0 two_buckets calls
      ≡ done ((answers same 0 nothing calls).0, m'))
    × IsValid same number m'
    × ((j : ℕ) → find same number m' j ≡ (answers same 0 nothing calls).1 j)
map_run_refines_example =
    map_run_refines same-IsEquality number 0 calls two_buckets nothing two_buckets-IsValid
      starts_empty

insert_uncounted_example :
    (m' : HashMap ℕ ℕ) × (insert same number two_buckets 1 10 ≡ done (true, m'))
    × (contains same number m' 1 ≡ done true)
    × (is_empty m' ≡ true)
insert_uncounted_example =
    insert_uncounted same-IsEquality number two_buckets 1 10 two_buckets-IsValid
