-- ===== src/Cpu/RealTimeClock/Tests.antt =====
-- Two decimal digits in a register.
use lamb_os.Base.{ℕ, ◌+◌, ◌*◌, ◌<◌, ◌≡◌, bit_and, ◌==◌, true, arith}
use lamb_os.Base.Masks.{bit_and_nibble}
use lamb_os.Cpu.RealTimeClock.{convert_bcd_if_needed}

-- In decimal mode, a register with the digits `t` and `u` is read as `t * 10 + u`.
two_digits :
    (registers : ℕ → ℕ) (t u : ℕ)
    → (bit_and (registers 0x0B) 0x04 == 0) ≡ true
    → t < 10
    → u < 10
    → convert_bcd_if_needed registers (t * 16 + u) ≡ t * 10 + u
unfolding convert_bcd_if_needed
two_digits registers t u mode ht hu = rw (mode) (omega (arith, bit_and_nibble (t * 16 + u)))
