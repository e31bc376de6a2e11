-- ===== src/QrGenerator/Png.antt =====
-- src/utils/qr_generator.cc: `crc32`, `write_png_chunk` and `create_simple_png`. The table of the
-- checksum is the function that fills it.
pub mod Rows
pub mod RoundTrip
use Prim.Native.Nat.{bit_xor}
use bit_link.Prelude.{
  ℕ, zero, suc, ◌+◌, ◌-◌, ◌*◌, ◌/◌, ◌%◌, ◌≡◌, refl, [], ◌∷◌, ◌++◌, Option, none, some, Bool, true,
  false, ◌==◌, if◌then◌else◌, length, get_elem?,
}
use bit_link.Str.{Bytes, codes}
use bit_link.QrGenerator.Deflate.{write_uint32_be, simple_deflate}

-- The inner loop of `make_crc_table`.
unfoldable pub crc_rounds : ℕ → ℕ → ℕ
crc_rounds zero c = c
crc_rounds (suc k) c = crc_rounds k (if c % 2 == 1 then bit_xor 3988292384 (c / 2) else c / 2)

-- crc32_table[n]
abbrev pub crc32_table : ℕ → ℕ
crc32_table n = crc_rounds 8 n

unfoldable pub crc32_from : ℕ → Bytes → ℕ
crc32_from c [] = c
crc32_from c (byte ∷ bytes) =
    crc32_from (bit_xor (crc32_table (bit_xor c byte % 256)) (c / 256)) bytes

unfoldable pub crc32 : Bytes → ℕ
crc32 bytes = bit_xor (crc32_from 4294967295 bytes) 4294967295

crc32_test : crc32 (codes "IEND") ≡ 2923585666
unfolding crc32 crc32_from crc_rounds
crc32_test = refl

unfoldable pub write_png_chunk : Bytes → Bytes → Bytes
write_png_chunk type bytes =
    write_uint32_be (length bytes) ++ ((type ++ bytes) ++ write_uint32_be (crc32 (type ++ bytes)))

abbrev pub signature : Bytes
signature = 137 ∷ 80 ∷ 78 ∷ 71 ∷ 13 ∷ 10 ∷ 26 ∷ 10 ∷ []

-- Width, height, bit depth, color type, compression, filter and interlace method.
abbrev pub ihdr_data : ℕ → Bytes
ihdr_data size = write_uint32_be size ++ (write_uint32_be size ++ (8 ∷ 0 ∷ 0 ∷ 0 ∷ 0 ∷ []))

abbrev pub pixel : Bytes → ℕ → ℕ
pixel bitmap i = elim (get_elem? bitmap i) [ none ↦ 0 | some c ↦ c ]

-- The next `n` pixels from `i` on.
unfoldable pub pixels : Bytes → ℕ → ℕ → Bytes
pixels bitmap zero i = []
pixels bitmap (suc n) i = pixel bitmap i ∷ pixels bitmap n (i + 1)

-- The next `n` rows from `y` on, each behind its filter type.
unfoldable pub raw_rows : Bytes → ℕ → ℕ → ℕ → Bytes
raw_rows bitmap size zero y = []
raw_rows bitmap size (suc n) y =
    (0 ∷ pixels bitmap size (y * size)) ++ raw_rows bitmap size n (y + 1)

unfoldable pub create_simple_png : Bytes → ℕ → Bytes
create_simple_png bitmap size =
    signature
    ++ (write_png_chunk (codes "IHDR") (ihdr_data size)
        ++ (write_png_chunk (codes "IDAT") (simple_deflate (raw_rows bitmap size size 0))
            ++ write_png_chunk (codes "IEND") []))
