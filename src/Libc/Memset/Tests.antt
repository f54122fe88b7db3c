-- ===== src/Libc/Memset/Tests.antt =====
-- Nine bytes are set from an address one behind a multiple of four.
use lamb_os.Base.{ℕ, ◌+◌, ◌%◌, ◌≤◌, ◌<◌, ◌≡◌, ◌⊎◌, arith}
use lamb_os.Libc.Memset.{memset}
use lamb_os.Libc.Memset.Filling.{filled, memset_lem}

abbrev zeros : ℕ → ℕ
zeros a = 0

memset_lem_example :
    ((5 % 4 ≤ 9) × ((a : ℕ) → memset zeros 5 7 9 a ≡ filled zeros 5 9 7 a))
    ⊎ ((9 < 5 % 4) × (memset zeros 5 7 9 (5 + 9) ≡ 7))
memset_lem_example = memset_lem zeros 5 7 9 (omega arith) (omega arith)
