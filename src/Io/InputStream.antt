-- ===== src/Io/InputStream.antt =====
-- libsys/include/io/InputStream.hpp: an abstract stream, which a client takes as a parameter, and
-- the two operations that the class builds from the virtual `read()`.
pub mod Reads
use lamb_os.Base.{ℕ, zero, suc, ◌+◌, Bool, true, false, List, [], ◌∷◌, Option, none, some, ◌≡◌}
use lamb_os.Base.Outcome.{Outcome, done, ◌>>=◌, store}

-- `Holds s bytes`: the stream has `bytes` still to deliver, in this order.
pub record InputStream (S : Type 0) : Type 1 where
  pub read : S → Outcome (Option ℕ × S)
  pub Holds : S → List ℕ → Type 0
  pub read_end : (s : S) → Holds s [] → (s' : S) × (read s ≡ done (none, s')) × Holds s' []
  pub read_next :
      (s : S) (b : ℕ) (bytes : List ℕ)
      → Holds s (b ∷ bytes)
      → (s' : S) × (read s ≡ done (some b, s')) × Holds s' bytes

-- What `read(bytes, bytesToRead)` leaves behind.
pub record Filled (S : Type 0) : Type 0 where
  pub bytes_read : ℕ
  pub bytes : List ℕ
  pub stream : S

-- The branch on `byte == kEndOfStream`.
abbrev pub byte_or_end {ℓ} :
    {S : Type 0} {B : Type ℓ} → (Option ℕ × S) → (S → Outcome B) → (ℕ → S → Outcome B) → Outcome B
byte_or_end (none, s) at_end next = at_end s
byte_or_end (some b, s) at_end next = next b s

module _ {S : Type 0} (input : InputStream S) where
  -- The loops with `n` rounds to go; `p` is where `bytes` points in the block it points into.
  unfoldable pub read_bytes : ℕ → List ℕ → ℕ → ℕ → S → Outcome (Filled S)
  read_bytes zero block p count s = done (record { bytes_read = count; bytes = block; stream = s })
  read_bytes (suc n) block p count s = input.read s >>= λ x.
      byte_or_end x (λ s'. done (record { bytes_read = count; bytes = block; stream = s' }))
        (λ b s'. store block p b >>= λ block'. read_bytes n block' (p + 1) (count + 1) s')

  unfoldable pub skip : ℕ → ℕ → S → Outcome (ℕ × S)
  skip zero count s = done (count, s)
  skip (suc n) count s =
      input.read s >>= λ x. byte_or_end x (λ s'. done (count, s')) (λ b s'. skip n (count + 1) s')
