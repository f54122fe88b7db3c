-- ===== src/Util/BitSet/Tests.antt =====
-- Runs of the bit set, and its law of writes at a concrete set.
use lamb_os.Base.{◌≡◌, refl, [], ◌∷◌, true, false}
use lamb_os.Base.Outcome.{done}
use lamb_os.Util.BitSet.{BitSet, init, set, test, unset}

abbrev two_words : BitSet
two_words = record { bits = 5 ∷ 1 ∷ [] }

set_33 : set two_words 33 ≡ done (false, record { bits = 5 ∷ 3 ∷ [] })
unfolding set test
set_33 = refl

unset_2 : unset two_words 2 ≡ done (true, record { bits = 1 ∷ 1 ∷ [] })
unfolding unset test
unset_2 = refl

init_40 : init 40 true ≡ record { bits = 0xFFFFFFFF ∷ 0xFFFFFFFF ∷ [] }
unfolding init
init_40 = refl
