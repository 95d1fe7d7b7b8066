-- ===== src/Persistence/Crc32.antt =====
-- persistence/crc32.cpp. A `uint32_t` stays below 2^32 here: shifts go right, and `^` is with such.
use neural_kv.Prelude.{
  ℕ, zero, suc, ◌-◌, ◌/◌, ◌≡◌, refl, bit_and, bit_xor, List, [], ◌∷◌, foldl, not, ◌==◌,
  if◌then◌else◌,
}

-- One round of the loop over the bits.
unfoldable pub crc_bit : ℕ → ℕ
crc_bit crc = if not (bit_and crc 1 == 0) then bit_xor (crc / 2) 0xEDB88320 else crc / 2

unfoldable pub crc_bits : ℕ → ℕ → ℕ
unfolding crc_bit
crc_bits zero crc = crc
crc_bits (suc n) crc = crc_bits n (crc_bit crc)

unfoldable pub crc_byte : ℕ → ℕ → ℕ
unfolding crc_bits
crc_byte crc b = crc_bits 8 (bit_xor crc b)

-- `~crc` of a 32-bit word
unfoldable pub crc32 : List ℕ → ℕ
unfolding crc_byte
crc32 bytes = 0xFFFFFFFF - foldl crc_byte 0xFFFFFFFF bytes

-- The check value of CRC-32 (IEEE 802.3): the bytes of "123456789".
crc32_check : crc32 (b'1' ∷ b'2' ∷ b'3' ∷ b'4' ∷ b'5' ∷ b'6' ∷ b'7' ∷ b'8' ∷ b'9' ∷ []) ≡ 0xCBF43926
unfolding crc32
crc32_check = refl
