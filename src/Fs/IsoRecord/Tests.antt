-- ===== src/Fs/IsoRecord/Tests.antt =====
-- A record with a Rock Ridge name, and an area that never ends.
use lamb_os.Base.{ℕ, zero, suc, List, [], ◌∷◌, ◌++◌, some, none, ◌≡◌, refl, arith, length}
use lamb_os.Base.Outcome.{done}
use lamb_os.Fs.IsoRecord.{make_entry, find_rock_ridge_name_entry}
use lamb_os.Fs.IsoRecord.Names.{name_of, other}
use lamb_os.Fs.IsoRecord.Records.{
  DirectoryRecord, IsRecord, record_bytes, described, make_entry_lem,
}

abbrev readme : DirectoryRecord
readme = record {
  extent_lba = 70000;
  extent_length = 300;
  flags = 0;
  name = b'R' ∷ b'M' ∷ [];
  area = other b'T' b'F' 1 (3 ∷ 4 ∷ []) ∷ name_of 1 0 (b'r' ∷ b'e' ∷ b'a' ∷ b'd' ∷ []) ∷ [];
  unread = λ k. k;
}

readme-IsRecord : IsRecord readme
unfolding lamb_os.Fs.IsoRecord.signature_type
readme-IsRecord = record { lba_fits = omega arith; length_fits = omega arith; plain = refl }

make_entry_lem_example :
    make_entry 3 (9 ∷ 9 ∷ (record_bytes readme ++ (1 ∷ []))) 2 ≡ done (some (described readme))
make_entry_lem_example =
    make_entry_lem readme (9 ∷ 9 ∷ (record_bytes readme ++ (1 ∷ []))) (1 ∷ []) 2 3 readme-IsRecord
      refl (omega arith)

-- An entry of length 0 that is no name: the loop stays where it is, however many rounds it gets.
stays : (rounds : ℕ) → find_rock_ridge_name_entry rounds (b'P' ∷ b'X' ∷ 0 ∷ []) 0 3 ≡ done none
unfolding find_rock_ridge_name_entry lamb_os.Base.Outcome.load lamb_os.Fs.IsoRecord.decode_signature
    lamb_os.Fs.IsoRecord.signature_type
stays zero = refl
stays (suc rounds) = stays rounds
