-- ===== src/Fs/IsoFileStream/Tests.antt =====
-- A stream over a file of four bytes in a larger buffer.
use lamb_os.Base.{◌-◌, ◌<◌, ◌≤◌, [], ◌∷◌, ◌≡◌, ◌⊎◌, arith}
use lamb_os.Base.Outcome.{done}
use lamb_os.Io.InputStream.{skip}
use lamb_os.Fs.IsoFileStream.{IsoFileStream, open_stream, mark, reset}
use lamb_os.Fs.IsoFileStream.Reading.{Holds, iso_input, open_stream-Holds, mark-reset}

abbrev four : IsoFileStream
four = open_stream 4 (1 ∷ 2 ∷ 3 ∷ 4 ∷ 0 ∷ 0 ∷ [])

mark-reset_example :
    (s' : IsoFileStream) × (skip iso_input 2 0 (mark four 3) ≡ done (2, s'))
    × (((2 < 3) × (reset s' ≡ mark four (3 - 2)) × Holds (reset s') (1 ∷ 2 ∷ 3 ∷ 4 ∷ []))
        ⊎ ((3 ≤ 2) × (reset s' ≡ s')))
mark-reset_example =
    mark-reset four (1 ∷ 2 ∷ 3 ∷ 4 ∷ []) 3 2 (open_stream-Holds (1 ∷ 2 ∷ 3 ∷ 4 ∷ []) (0 ∷ 0 ∷ []))
      (omega arith)
