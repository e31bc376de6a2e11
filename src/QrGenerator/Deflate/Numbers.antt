-- ===== src/QrGenerator/Deflate/Numbers.antt =====
-- src/utils/qr_generator.cc: reading back what `write_uint32_be` writes.
use bit_link.Prelude.{
  ℕ, ◌+◌, ◌*◌, ◌/◌, ◌%◌, ◌^◌, ◌≡◌, ap, ◌∷◌, ◌++◌, Option, none, some, Bool, true, false, ◌==◌,
  arith,
}
use bit_link.Str.{Bytes}
use bit_link.QrGenerator.Deflate.{write_uint32_be}

-- A number of four bytes, the highest first, and what is behind it.
unfoldable pub read_uint32 : Bytes → Option (ℕ × Bytes)
read_uint32 (a ∷ b ∷ c ∷ d ∷ s) = some (a * 2 ^ 24 + b * 2 ^ 16 + c * 2 ^ 8 + d, s)
read_uint32 _ = none

pub read_uint32-write_uint32_be :
    (n : ℕ) (s : Bytes) → read_uint32 (write_uint32_be n ++ s) ≡ some (n % 2 ^ 32, s)
unfolding read_uint32 write_uint32_be
read_uint32-write_uint32_be n s =
    let same : n / 2 ^ 24 % 256 * 2 ^ 24
          + n / 2 ^ 16 % 256 * 2 ^ 16
          + n / 2 ^ 8 % 256 * 2 ^ 8
          + n % 256
        ≡ n % 2 ^ 32 =
      omega arith in
    ap (λ k. some (k, s)) same

-- Whether a text begins with a checksum, as a number of four bytes.
unfoldable pub begins_with_sum : ℕ → Bytes → Bool
begins_with_sum value s = elim (read_uint32 s) [ none ↦ false | some (n, _) ↦ n == value % 2 ^ 32 ]

pub begins_with_sum-write_uint32_be :
    (n value : ℕ) (s : Bytes) → n ≡ value → begins_with_sum value (write_uint32_be n ++ s) ≡ true
unfolding begins_with_sum
begins_with_sum-write_uint32_be n value s e =
    let same : (n % 2 ^ 32 == value % 2 ^ 32) ≡ true = ground (arith, e) in
    rw (read_uint32-write_uint32_be n s, begins_with_sum) same
