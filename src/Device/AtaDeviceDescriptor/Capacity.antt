-- ===== src/Device/AtaDeviceDescriptor/Capacity.antt =====
-- The capacity that an ATAPI device reports.
use lamb_os.Base.{
  ℕ, ◌+◌, ◌*◌, ◌/◌, ◌%◌, ◌^◌, ◌<◌, ◌≡◌, ap, ◌∙◌, refl, bit_and, bit_or, true, [], ◌∷◌, arith,
}
use lamb_os.Base.Bits.{bit_or_fields, bit_and_shifted, halves}
use lamb_os.Base.Masks.{bit_and_byte}
use lamb_os.Base.Outcome.{done, load}
use lamb_os.Device.AtaDeviceDescriptor.{
  AtaDeviceDescriptor, endian_swap, read_atapi_capacity, read32,
}

-- `&` with the mask of the byte number `k / 8`.
byte_at : (k x : ℕ) → bit_and x (255 * 2 ^ k) ≡ halves k x % 256 * 2 ^ k
byte_at k x = bit_and_shifted k x 255 ∙ ap (λ t. t * 2 ^ k) (bit_and_byte (halves k x))

-- Four bytes, each in its place, put together.
join_bytes :
    (a b c d : ℕ)
    → b < 2 ^ 8
    → c < 2 ^ 8
    → d < 2 ^ 8
    → bit_or (bit_or (bit_or (a * 2 ^ 24) (b * 2 ^ 16)) (c * 2 ^ 8)) d
      ≡ a * 2 ^ 24 + (b * 2 ^ 16 + (c * 2 ^ 8 + d))
join_bytes a b c d hb hc hd =
    let two : bit_or (a * 2 ^ 24) (b * 2 ^ 16) ≡ (a * 2 ^ 8 + b) * 2 ^ 16 =
      bit_or_fields 24 a (b * 2 ^ 16) (omega (arith, hb)) ∙ omega arith in
    let three : bit_or ((a * 2 ^ 8 + b) * 2 ^ 16) (c * 2 ^ 8)
        ≡ ((a * 2 ^ 8 + b) * 2 ^ 8 + c) * 2 ^ 8 =
      bit_or_fields 16 (a * 2 ^ 8 + b) (c * 2 ^ 8) (omega (arith, hc)) ∙ omega arith in
    ap (λ t. bit_or (bit_or t (c * 2 ^ 8)) d) two
    ∙ ap (λ t. bit_or t d) three
    ∙ bit_or_fields 8 ((a * 2 ^ 8 + b) * 2 ^ 8 + c) d hd
    ∙ omega arith

endian_swap_lem :
    (x a b c d : ℕ)
    → x ≡ a + b * 2 ^ 8 + (c + d * 2 ^ 8) * 2 ^ 16
    → a < 2 ^ 8
    → b < 2 ^ 8
    → c < 2 ^ 8
    → d < 2 ^ 8
    → endian_swap x ≡ a * 2 ^ 24 + (b * 2 ^ 16 + (c * 2 ^ 8 + d))
unfolding endian_swap
endian_swap_lem x a b c d e ha hb hc hd =
    let p0 : bit_and x 0xFF * 2 ^ 24 % 2 ^ 32 ≡ a * 2 ^ 24 = omega (arith, bit_and_byte x) in
    let p1 : bit_and x 0xFF00 * 2 ^ 8 % 2 ^ 32 ≡ b * 2 ^ 16 = omega (arith, byte_at 8 x) in
    let p2 : bit_and x 0xFF0000 / 2 ^ 8 ≡ c * 2 ^ 8 = omega (arith, byte_at 16 x) in
    let p3 : bit_and x 0xFF000000 / 2 ^ 24 ≡ d = omega (arith, byte_at 24 x) in
    rw (p0, p1, p2, p3) (join_bytes a b c d hb hc hd)

-- On a little-endian machine, the capacity that a device sends as eight bytes is read as two numbers
-- of four bytes, the highest first: the last address and the size of a sector.
pub read_atapi_capacity_lem :
    (dev : AtaDeviceDescriptor) (a b c d a' b' c' d' : ℕ)
    → dev.little_endian ≡ true
    → (a < 2 ^ 8) × (b < 2 ^ 8) × (c < 2 ^ 8) × (d < 2 ^ 8)
    → (a' < 2 ^ 8) × (b' < 2 ^ 8) × (c' < 2 ^ 8) × (d' < 2 ^ 8)
    → (dev' : AtaDeviceDescriptor) × (read_atapi_capacity dev
          ((a + b * 2 ^ 8) ∷ (c + d * 2 ^ 8) ∷ (a' + b' * 2 ^ 8) ∷ (c' + d' * 2 ^ 8) ∷ [])
        ≡ done dev')
      × (dev'.atapi_end_lba ≡ a * 2 ^ 24 + (b * 2 ^ 16 + (c * 2 ^ 8 + d)))
      × (dev'.sector_size ≡ a' * 2 ^ 24 + (b' * 2 ^ 16 + (c' * 2 ^ 8 + d')))
unfolding read_atapi_capacity read32 load
read_atapi_capacity_lem dev a b c d a' b' c' d' e (ha, hb, hc, hd) (ha', hb', hc', hd') = (
  record dev {
    atapi_end_lba = endian_swap (a + b * 2 ^ 8 + (c + d * 2 ^ 8) * 2 ^ 16);
    sector_size = endian_swap (a' + b' * 2 ^ 8 + (c' + d' * 2 ^ 8) * 2 ^ 16);
  },
  rw (e),
  endian_swap_lem (a + b * 2 ^ 8 + (c + d * 2 ^ 8) * 2 ^ 16) a b c d refl ha hb hc hd,
  endian_swap_lem (a' + b' * 2 ^ 8 + (c' + d' * 2 ^ 8) * 2 ^ 16) a' b' c' d' refl ha' hb' hc' hd',
)
