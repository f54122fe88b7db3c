-- ===== src/Text/StringStorage/Tests.antt =====
-- The text "a" in a block of three.
use lamb_os.Base.{◌+◌, ◌<◌, ◌≡◌, ◌⊎◌, refl, true, [], ◌∷◌, ◌++◌, arith}
use lamb_os.Base.Outcome.{done, fault}
use lamb_os.Text.StringStorage.{StringStorage, insert}
use lamb_os.Text.StringStorage.Growth.{IsValid, contents, insert_appends}

abbrev short : StringStorage
short = record { array = record { capacity = 3; cells = b'a' ∷ 0 ∷ 7 ∷ [] }; size = 1 }

short-IsValid : IsValid short
short-IsValid = record { storage = refl; room = omega arith; ends = refl }

insert_appends_example :
    ((1 + 1 < 3)
      × ((s' : StringStorage) × (insert 7 short b'b' ≡ done (true, s'))
          × IsValid s'
          × (contents s' ≡ contents short ++ (b'b' ∷ []))))
    ⊎ ((1 + 1 ≡ 3) × (insert 7 short b'b' ≡ fault))
insert_appends_example = insert_appends 7 b'b' short short-IsValid
