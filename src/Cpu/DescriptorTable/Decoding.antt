-- ===== src/Cpu/DescriptorTable/Decoding.antt =====
-- How the processor reads an entry.
use lamb_os.Base.{
  ℕ, ◌+◌, ◌*◌, ◌/◌, ◌%◌, ◌^◌, ◌<◌, ◌≡◌, ap, refl, ◌∙◌, bit_and, bit_or, List, length, set, ltb,
  if◌then◌else◌, arith, Bool-cases, inl, inr, ltb→le, true, false,
}
use lamb_os.Base.Bits.{bit_or_fields}
use lamb_os.Base.Masks.{bit_and_byte, bit_and_nibble}
use lamb_os.Base.Outcome.{done, store_in}
use lamb_os.Cpu.DescriptorTable.{GdtEntry, Descriptor, encoded, encode_entry}

abbrev pub base_of : Descriptor → ℕ
base_of d = d.byte2 + (d.byte3 * 2 ^ 8 + (d.byte4 * 2 ^ 16 + d.byte7 * 2 ^ 24))

-- The last offset in the segment. The highest bit of byte 6 makes the limit count pages.
abbrev pub limit_of : Descriptor → ℕ
limit_of d =
    let field = d.byte0 + (d.byte1 * 2 ^ 8 + d.byte6 % 16 * 2 ^ 16) in
    if ltb d.byte6 128 then field else field * 4096 + 4095

high_byte :
    (g limit : ℕ) → bit_or (g * 2 ^ 4) (bit_and (limit / 2 ^ 16) 0xF) ≡ g * 16 + limit / 2 ^ 16 % 16
high_byte g limit =
    bit_or_fields 4 g (bit_and (limit / 2 ^ 16) 0xF)
      (omega (arith, bit_and_nibble (limit / 2 ^ 16)))
    ∙ omega (arith, bit_and_nibble (limit / 2 ^ 16))

-- The limit in 20 bits, with the four bits above it.
limit_bytes :
    (g limit : ℕ)
    → limit < 2 ^ 20
    → bit_and limit 0xFF
        + (bit_and (limit / 2 ^ 8) 0xFF * 2 ^ 8
            + bit_or (g * 2 ^ 4) (bit_and (limit / 2 ^ 16) 0xF) % 16 * 2 ^ 16)
      ≡ limit
limit_bytes g limit h =
    omega (arith, bit_and_byte limit, bit_and_byte (limit / 2 ^ 8), high_byte g limit)

limit_small :
    (source : GdtEntry) → ltb 65536 source.limit ≡ false → limit_of (encoded source) ≡ source.limit
unfolding encoded
limit_small source small =
    let few = ltb→le 65536 source.limit small in
    let low : ltb (bit_or (4 * 2 ^ 4) (bit_and (source.limit / 2 ^ 16) 0xF)) 128 ≡ true =
      ground (arith, high_byte 4 source.limit) in
    rw (small, low) (limit_bytes 4 source.limit (omega (arith, few)))

limit_big :
    (source : GdtEntry)
    → source.limit < 2 ^ 32
    → ltb 65536 source.limit ≡ true
    → limit_of (encoded source) ≡ source.limit / 4096 * 4096 + 4095
unfolding encoded
limit_big source h big =
    let limit = source.limit / 4096 in
    let high : ltb (bit_or (12 * 2 ^ 4) (bit_and (limit / 2 ^ 16) 0xF)) 128 ≡ false =
      ground (arith, high_byte 12 limit) in
    rw (big, high) (ap (λ t. t * 4096 + 4095) (limit_bytes 12 limit (omega (arith, h))))

-- `encodeEntry` within the table replaces one entry, which the processor reads as the base and type
-- of the source, and as its limit, if that is at most 65536, or its limit rounded up to a page.
pub encode_entry_lem :
    (gdt : List Descriptor) (i : ℕ) (source : GdtEntry)
    → i < length gdt
    → source.base < 2 ^ 32
    → source.limit < 2 ^ 32
    → (d : Descriptor) × (encode_entry gdt i source ≡ done (set gdt i d))
      × (base_of d ≡ source.base)
      × (d.byte5 ≡ source.type)
      × (limit_of d
          ≡ (if ltb 65536 source.limit then source.limit / 4096 * 4096 + 4095 else source.limit))
unfolding encode_entry encoded
encode_entry_lem gdt i source h hb hl = (
  encoded source,
  store_in gdt i (encoded source) h,
  omega (
    arith,
    bit_and_byte source.base,
    bit_and_byte (source.base / 2 ^ 8),
    bit_and_byte (source.base / 2 ^ 16),
    bit_and_byte (source.base / 2 ^ 24),
  ),
  refl,
  elim (Bool-cases (ltb 65536 source.limit)) [
    | inl big ↦ limit_big source hl big ∙ rw (big)
    | inr small ↦ limit_small source small ∙ rw (small)
  ],
)
