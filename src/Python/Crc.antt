-- ===== src/Python/Crc.antt =====
-- zlib.crc32: the reflected CRC-32 with polynomial 0xEDB88320, one bit at a time.
use Prim.Native.Nat.{bit_xor}
use ecu_telemetry.Prelude.{ℕ, zero, suc, ◌/◌, ◌%◌, ◌≡◌, refl, List, [], ◌∷◌, ◌==◌, if◌then◌else◌}

shift_bit : ℕ → ℕ
shift_bit c = if c % 2 == 0 then c / 2 else bit_xor (c / 2) 0xEDB88320

shift_bits : ℕ → ℕ → ℕ
unfolding shift_bit
shift_bits zero c = c
shift_bits (suc n) c = shift_bits n (shift_bit c)

crc_loop : ℕ → List ℕ → ℕ
unfolding shift_bits
crc_loop c [] = c
crc_loop c (b ∷ bs) = crc_loop (shift_bits 8 (bit_xor c b)) bs

unfoldable pub crc32 : List ℕ → ℕ
unfolding crc_loop
crc32 bs = bit_xor (crc_loop 0xFFFFFFFF bs) 0xFFFFFFFF

-- The check value of the standard: crc32(b"123456789").
crc32_check : crc32 (49 ∷ 50 ∷ 51 ∷ 52 ∷ 53 ∷ 54 ∷ 55 ∷ 56 ∷ 57 ∷ []) ≡ 0xCBF43926
unfolding crc32
crc32_check = refl
