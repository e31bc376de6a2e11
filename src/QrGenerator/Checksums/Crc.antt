-- ===== src/QrGenerator/Checksums/Crc.antt =====
-- src/utils/qr_generator.cc: `crc32` with its table is the checksum that goes bit by bit.
use Prim.Native.Nat.{bit_xor}
use bit_link.Prelude.{
  ℕ, zero, suc, ◌+◌, ◌*◌, ◌/◌, ◌%◌, ◌<◌, ◌≡◌, refl, sym, ap, ◌∙◌, [], ◌∷◌, arith, ◌==◌,
  if◌then◌else◌,
}
use bit_link.Str.{Bytes}
use bit_link.QrGenerator.Png.{crc_rounds, crc32_from, crc32}
use bit_link.QrGenerator.Checksums.{crc_bit, crc_bits, crc_register, crc_of}
use bit_link.QrGenerator.Checksums.Xor.{
  zero-bit_xor, bit_xor_step, bit_xor_half, bit_xor_assoc, bit_xor_cancel,
}

-- k digits fewer, and k zeros more.
unfoldable drop_digits : ℕ → ℕ → ℕ
drop_digits zero d = d
drop_digits (suc k) d = drop_digits k (d / 2)

unfoldable add_zeros : ℕ → ℕ → ℕ
add_zeros zero d = d
add_zeros (suc k) d = 2 * add_zeros k d

-- One round of the table's loop.
abbrev next : ℕ → ℕ
next c = if c % 2 == 1 then bit_xor 3988292384 (c / 2) else c / 2

next-bit_xor : (c d : ℕ) → next (bit_xor c d) ≡ bit_xor (crc_bit c d) (d / 2)
unfolding crc_bit
next-bit_xor c d =
    ground (arith, bit_xor_step c d, bit_xor_half c d, bit_xor_assoc 3988292384 (c / 2) (d / 2))

crc_bit_parity : (c d : ℕ) → crc_bit c (d % 2) ≡ crc_bit c d
unfolding crc_bit
crc_bit_parity c d = let same : (c + d % 2) % 2 ≡ (c + d) % 2 = omega arith in rw same refl

-- The rounds on a register into which bits were put at once are the steps bit by bit.
crc_rounds-bit_xor :
    (k c d : ℕ) → crc_rounds k (bit_xor c d) ≡ bit_xor (crc_bits k c d) (drop_digits k d)
unfolding crc_rounds crc_bits drop_digits
crc_rounds-bit_xor zero c d = refl
crc_rounds-bit_xor (suc k) c d =
    ap (crc_rounds k) (next-bit_xor c d ∙ ap (λ x. bit_xor x (d / 2)) (sym (crc_bit_parity c d)))
    ∙ crc_rounds-bit_xor k (crc_bit c (d % 2)) (d / 2)

next-even : (y w : ℕ) → next (bit_xor y (2 * w)) ≡ bit_xor (next y) w
next-even y w =
    let half : 2 * w / 2 ≡ w = omega arith in
    ground (
      arith,
      bit_xor_step y (2 * w),
      bit_xor_half y (2 * w),
      ap (bit_xor (y / 2)) half,
      bit_xor_assoc 3988292384 (y / 2) w,
    )

-- Digits that no round reaches only move down.
crc_rounds-add_zeros :
    (k y z : ℕ) → crc_rounds k (bit_xor y (add_zeros k z)) ≡ bit_xor (crc_rounds k y) z
unfolding crc_rounds add_zeros
crc_rounds-add_zeros zero y z = refl
crc_rounds-add_zeros (suc k) y z =
    ap (crc_rounds k) (next-even y (add_zeros k z)) ∙ crc_rounds-add_zeros k (next y) z

bit_xor-add_zeros : (k y z : ℕ) → y < add_zeros k 1 → bit_xor y (add_zeros k z) ≡ y + add_zeros k z
unfolding add_zeros
bit_xor-add_zeros zero zero z h = omega (arith, zero-bit_xor z)
bit_xor-add_zeros zero (suc y) z h = absurd (omega arith)
bit_xor-add_zeros (suc k) y z h =
    let half : 2 * add_zeros k z / 2 ≡ add_zeros k z = omega arith in
    omega (
      arith,
      bit_xor_step y (2 * add_zeros k z),
      ap (bit_xor (y / 2)) half,
      bit_xor-add_zeros k (y / 2) z (omega arith),
    )

-- Eight rounds are one look into the table.
crc_rounds_table : (x : ℕ) → crc_rounds 8 x ≡ bit_xor (crc_rounds 8 (x % 256)) (x / 256)
crc_rounds_table x =
    let zeros : add_zeros 8 (x / 256) ≡ 256 * (x / 256) = unfold add_zeros in omega arith in
    let low : x % 256 < add_zeros 8 1 = unfold add_zeros in omega arith in
    let whole : bit_xor (x % 256) (add_zeros 8 (x / 256)) ≡ x =
      omega (arith, bit_xor-add_zeros 8 (x % 256) (x / 256) low) in
    ap (crc_rounds 8) (sym whole) ∙ crc_rounds-add_zeros 8 (x % 256) (x / 256)

drop_digits-bit_xor :
    (k c d : ℕ) → drop_digits k (bit_xor c d) ≡ bit_xor (drop_digits k c) (drop_digits k d)
unfolding drop_digits
drop_digits-bit_xor zero c d = refl
drop_digits-bit_xor (suc k) c d =
    ap (drop_digits k) (bit_xor_half c d) ∙ drop_digits-bit_xor k (c / 2) (d / 2)

drop_digits_eight : (d : ℕ) → drop_digits 8 d ≡ d / 256
unfolding drop_digits
drop_digits_eight d = omega arith

bit_xor_high : (c d : ℕ) → bit_xor c d / 256 ≡ bit_xor (c / 256) (d / 256)
bit_xor_high c d =
    sym (drop_digits_eight (bit_xor c d))
    ∙ drop_digits-bit_xor 8 c d
    ∙ ap (λ x. bit_xor x (drop_digits 8 d)) (drop_digits_eight c)
    ∙ ap (bit_xor (c / 256)) (drop_digits_eight d)

-- A byte through the table is its bits one by one.
crc_byte :
    (c byte : ℕ) → bit_xor (crc_rounds 8 (bit_xor c byte % 256)) (c / 256) ≡ crc_bits 8 c byte
crc_byte c byte =
    let entry = crc_rounds 8 (bit_xor c byte % 256) in
    bit_xor_cancel (bit_xor entry (c / 256)) (crc_bits 8 c byte) (byte / 256) (
      bit_xor_assoc entry (c / 256) (byte / 256)
      ∙ ap (bit_xor entry) (sym (bit_xor_high c byte))
      ∙ sym (crc_rounds_table (bit_xor c byte))
      ∙ crc_rounds-bit_xor 8 c byte
      ∙ ap (bit_xor (crc_bits 8 c byte)) (drop_digits_eight byte))

crc32_from-crc_register : (c : ℕ) (bytes : Bytes) → crc32_from c bytes ≡ crc_register c bytes
unfolding crc32_from crc_register
crc32_from-crc_register c [] = refl
crc32_from-crc_register c (byte ∷ bytes) =
    ap (λ x. crc32_from x bytes) (crc_byte c byte)
    ∙ crc32_from-crc_register (crc_bits 8 c byte) bytes

pub crc32-crc_of : (bytes : Bytes) → crc32 bytes ≡ crc_of bytes
unfolding crc32 crc_of
crc32-crc_of bytes = ap (λ x. bit_xor x 4294967295) (crc32_from-crc_register 4294967295 bytes)
