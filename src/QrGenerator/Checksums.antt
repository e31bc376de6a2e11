-- ===== src/QrGenerator/Checksums.antt =====
-- src/utils/qr_generator.cc: the two checksums of a PNG file as their standards define them.
pub mod Xor
pub mod Crc
pub mod Adler
use Prim.Native.Nat.{bit_xor}
use bit_link.Prelude.{
  ℕ, zero, suc, ◌+◌, ◌*◌, ◌/◌, ◌%◌, ◌≡◌, refl, [], ◌∷◌, ◌==◌, if◌then◌else◌, length,
}
use bit_link.Str.{Bytes, codes}

-- ISO 3309: the register after one bit, with the polynomial's lowest power in the highest bit.
unfoldable pub crc_bit : ℕ → ℕ → ℕ
crc_bit c bit = if (c + bit) % 2 == 1 then bit_xor 3988292384 (c / 2) else c / 2

-- The lowest bit of a byte comes first.
unfoldable pub crc_bits : ℕ → ℕ → ℕ → ℕ
crc_bits zero c byte = c
crc_bits (suc k) c byte = crc_bits k (crc_bit c (byte % 2)) (byte / 2)

unfoldable pub crc_register : ℕ → Bytes → ℕ
crc_register c [] = c
crc_register c (byte ∷ bytes) = crc_register (crc_bits 8 c byte) bytes

-- The register starts with ones, and what it ends with is inverted.
unfoldable pub crc_of : Bytes → ℕ
crc_of bytes = bit_xor (crc_register 4294967295 bytes) 4294967295

-- RFC 1950: the sum of the bytes, and the sum of all the sums so far, in which the first byte
-- counts as often as there are bytes.
unfoldable pub sum : Bytes → ℕ
sum [] = 0
sum (byte ∷ bytes) = byte + sum bytes

unfoldable pub weighted : Bytes → ℕ
weighted [] = 0
weighted (byte ∷ bytes) = (length bytes + 1) * byte + weighted bytes

unfoldable pub adler_of : Bytes → ℕ
adler_of bytes = (length bytes + weighted bytes) % 65521 * 65536 + (1 + sum bytes) % 65521

checksum_tests : (crc_of (codes "IEND") ≡ 2923585666) × (adler_of (codes "Wikipedia") ≡ 300286872)
unfolding crc_of crc_register crc_bits crc_bit adler_of weighted sum
checksum_tests = (refl, refl)
