-- ===== src/Util/ArrayList/Tests.antt =====
-- The array list on concrete inputs.
use lamb_os.Base.{ℕ, ◌≡◌, refl, true, [], ◌∷◌, ◌++◌, ◌==◌, arith, take, drop}
use lamb_os.Base.Outcome.{done, fault, load}
use lamb_os.Util.ArrayList.{ArrayList, push, insert, remove_at, remove, find_index, peek_back}
use lamb_os.Util.ArrayList.Inv.{IsValid, contents}
use lamb_os.Util.ArrayList.Ends.{push_overruns}
use lamb_os.Util.ArrayList.Middle.{insert_between, remove_at_lem}

abbrev three : ArrayList ℕ
three = record { array = record { capacity = 4; cells = 5 ∷ 6 ∷ 7 ∷ 0 ∷ [] }; size = 3 }

abbrev full : ArrayList ℕ
full = record { array = record { capacity = 3; cells = 5 ∷ 6 ∷ 7 ∷ [] }; size = 3 }

three-IsValid : IsValid three
three-IsValid = record { storage = refl; room = omega arith; fits = omega arith }

full-IsValid : IsValid full
full-IsValid = record { storage = refl; room = omega arith; fits = omega arith }

peek_back-three : peek_back three ≡ done 7
unfolding peek_back load
peek_back-three = refl

remove-three : remove (λ x. x == 6) three ≡ remove_at three 1
unfolding remove remove_at find_index load
remove-three = refl

push_overruns_example : push 0 three 9 ≡ fault
push_overruns_example = push_overruns 0 three 9 three-IsValid (omega arith) (omega arith)

remove_at_lem_example :
    (l' : ArrayList ℕ) × (remove_at three 1 ≡ done (true, l'))
    × IsValid l'
    × (contents l' ≡ take 1 (contents three) ++ drop 2 (contents three))
remove_at_lem_example = remove_at_lem 0 three 1 three-IsValid

insert_between_example :
    (l' : ArrayList ℕ) × (insert 0 full 9 1 ≡ done (true, l'))
    × IsValid l'
    × (contents l' ≡ take 1 (contents full) ++ (9 ∷ drop 1 (contents full)))
insert_between_example =
    insert_between 0 full 9 1 full-IsValid (omega arith) (omega arith) (omega arith)
