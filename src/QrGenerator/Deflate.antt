-- ===== src/QrGenerator/Deflate.antt =====
-- src/utils/qr_generator.cc: `write_uint32_be`, `adler32` and `simple_deflate`.
pub mod Numbers
pub mod RoundTrip
use bit_link.Prelude.{
  ℕ, zero, suc, ◌+◌, ◌-◌, ◌*◌, ◌/◌, ◌%◌, ◌^◌, ◌<◌, ◌≤◌, ◌≡◌, ◌≢◌, refl, ap, ◌∙◌, [], ◌∷◌, ◌++◌,
  Option, none, some, true, false, ◌&&◌, leb, ◌==◌, min, if◌then◌else◌, length, length-append, take,
  drop, take-append, drop-append, append_assoc, ◌⊎◌, take_all, length-take, take-append-drop, arith,
  inl, inr, Bool-cases,
}
use bit_link.Str.{Bytes, is_empty, str_eq}
use bit_link.Str.Search.{str_eq_refl}

unfoldable pub write_uint32_be : ℕ → Bytes
write_uint32_be n = n / 2 ^ 24 % 256 ∷ n / 2 ^ 16 % 256 ∷ n / 2 ^ 8 % 256 ∷ n % 256 ∷ []

-- The loop of `adler32`. Both sums stay below 2 ^ 16, so that the `or` of the two is a sum.
unfoldable pub adler32_from : ℕ → ℕ → Bytes → ℕ
adler32_from a b [] = b * 2 ^ 16 + a
adler32_from a b (byte ∷ bytes) =
    let a' = (a + byte) % 65521 in adler32_from a' ((b + a') % 65521) bytes

unfoldable pub adler32 : Bytes → ℕ
adler32 bytes = adler32_from 1 0 bytes

-- The loop over the blocks. Each takes a byte at least, so the length is enough fuel.
unfoldable pub deflate_blocks : ℕ → Bytes → Bytes
deflate_blocks zero bytes = []
deflate_blocks (suc fuel) bytes =
    let block_size = min 65535 (length bytes) in
    let is_last = leb (length bytes) block_size in
    let nlen = 2 ^ 16 - 1 - block_size % 2 ^ 16 in
    let rest = deflate_blocks fuel (drop block_size bytes) in
    if is_empty bytes
    then []
    else (if is_last then 1 else 0)
      ∷ block_size % 256
      ∷ block_size / 2 ^ 8 % 256
      ∷ nlen % 256
      ∷ nlen / 2 ^ 8 % 256
      ∷ (take block_size bytes ++ rest)

unfoldable pub simple_deflate : Bytes → Bytes
simple_deflate bytes =
    120 ∷ 1 ∷ (deflate_blocks (length bytes) bytes ++ write_uint32_be (adler32 bytes))
