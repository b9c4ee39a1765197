-- ===== src/Python/Crc.antt =====
-- `zlib.crc32`: the reflected CRC-32 with polynomial 0xEDB88320, a bit at a time.
use pedge.Prelude.{ℕ, zero, suc, ◌/◌, ◌%◌, ◌≡◌, refl, [], ◌∷◌, bit_xor, ◌==◌, if◌then◌else◌}
use pedge.Python.Bytes.{Bytes}

unfoldable pub shift_bit : ℕ → ℕ
shift_bit c = if c % 2 == 1 then bit_xor (c / 2) 0xEDB88320 else c / 2

unfoldable pub shift_bits : ℕ → ℕ → ℕ
unfolding shift_bit
shift_bits zero c = c
shift_bits (suc n) c = shift_bits n (shift_bit c)

unfoldable pub update_crc : ℕ → Bytes → ℕ
unfolding shift_bits
update_crc c [] = c
update_crc c (b ∷ bs) = update_crc (shift_bits 8 (bit_xor c b)) bs

-- `zlib.crc32(data, value)`.
unfoldable pub crc32 : Bytes → ℕ → ℕ
unfolding update_crc
crc32 bytes value = bit_xor (update_crc (bit_xor value 0xFFFFFFFF) bytes) 0xFFFFFFFF

-- The published check value of CRC-32: that of the digits 1 to 9.
crc32_check :
    crc32 (0x31 ∷ 0x32 ∷ 0x33 ∷ 0x34 ∷ 0x35 ∷ 0x36 ∷ 0x37 ∷ 0x38 ∷ 0x39 ∷ []) 0 ≡ 0xCBF43926
unfolding crc32
crc32_check = refl
