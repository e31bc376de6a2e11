-- ===== src/QrGenerator/Checksums/Adler.antt =====
-- src/utils/qr_generator.cc: the running sums of `adler32` are the sums of the standard.
use bit_link.Prelude.{ℕ, suc, ◌+◌, ◌*◌, ◌/◌, ◌%◌, ◌^◌, ◌<◌, ◌≡◌, ap, ◌∙◌, [], ◌∷◌, arith, length}
use bit_link.Str.{Bytes}
use bit_link.QrGenerator.Deflate.{adler32_from, adler32}
use bit_link.QrGenerator.Checksums.{sum, weighted, adler_of}

-- The loop from any sums on: the first counts once for every byte in the second.
adler32_from_lem :
    (a b : ℕ) (s : Bytes)
    → a < 65521
    → b < 65521
    → adler32_from a b s ≡ (b + length s * a + weighted s) % 65521 * 65536 + (a + sum s) % 65521
unfolding adler32_from weighted sum
adler32_from_lem a b [] h k = omega arith
adler32_from_lem a b (byte ∷ s) h k =
    let n = length s in
    let q = (a + byte) / 65521 in
    let a' = (a + byte) % 65521 in
    let whole : a + byte ≡ a' + 65521 * q = omega arith in
    let rest : adler32_from a' ((b + a') % 65521) s
        ≡ ((b + a') % 65521 + n * a' + weighted s) % 65521 * 65536 + (a' + sum s) % 65521 =
      adler32_from_lem a' ((b + a') % 65521) s (omega arith) (omega arith) in
    let times : n * (a + byte) ≡ n * a' + 65521 * (n * q) = ap (λ x. n * x) whole ∙ omega arith in
    let apart : n * (a + byte) ≡ n * a + n * byte = omega arith in
    let once : (n + 1) * byte ≡ n * byte + byte = omega arith in
    let more : suc n * a ≡ n * a + a = omega arith in omega arith

pub adler32-adler_of : (bytes : Bytes) → adler32 bytes ≡ adler_of bytes
unfolding adler32 adler_of
adler32-adler_of bytes =
    let once : length bytes * 1 ≡ length bytes = omega arith in
    omega (arith, adler32_from_lem 1 0 bytes (omega arith) (omega arith))

pub adler_of_small : (bytes : Bytes) → adler_of bytes < 2 ^ 32
unfolding adler_of
adler_of_small bytes = omega arith
