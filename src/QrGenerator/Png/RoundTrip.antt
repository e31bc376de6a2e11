-- ===== src/QrGenerator/Png/RoundTrip.antt =====
-- src/utils/qr_generator.cc: a reader of PNG files gives back what `create_simple_png` writes.
use bit_link.Prelude.{
  ℕ, suc, ◌+◌, ◌*◌, ◌%◌, ◌^◌, ◌<◌, ◌≤◌, ◌≡◌, refl, sym, ap, ◌∙◌, [], ◌∷◌, ◌++◌, Option, none, some,
  true, ◌&&◌, leb, if◌then◌else◌, length, length-append, take, drop, take-append, drop-append,
  append_assoc, append-nil, arith,
}
use bit_link.Str.{Bytes, codes, is_empty, str_eq}
use bit_link.Str.Search.{str_eq_refl}
use bit_link.QrGenerator.Deflate.{write_uint32_be, simple_deflate}
use bit_link.QrGenerator.Deflate.RoundTrip.{inflate, inflate-simple_deflate, length-simple_deflate}
use bit_link.QrGenerator.Deflate.Numbers.{
  read_uint32, read_uint32-write_uint32_be, begins_with_sum, begins_with_sum-write_uint32_be,
}
use bit_link.QrGenerator.Checksums.{crc_of}
use bit_link.QrGenerator.Checksums.Crc.{crc32-crc_of}
use bit_link.QrGenerator.Png.{
  crc32, write_png_chunk, signature, ihdr_data, raw_rows, create_simple_png,
}
use bit_link.QrGenerator.Png.Rows.{
  unfilter, length-raw_rows, unfilter-raw_rows, raw_rows-ne, le_mul,
}

-- The content and the checksum behind the type of a chunk, if they are there and right.
unfoldable pub checked : Bytes → Bytes → Bytes → Option (Bytes × Bytes)
checked type bytes tail =
    if begins_with_sum (crc_of (type ++ bytes)) tail then some (bytes, drop 4 tail) else none

-- The content of the chunk of this type that the text begins with, and what is behind it.
unfoldable pub read_chunk : Bytes → Bytes → Option (Bytes × Bytes)
read_chunk type s = elim (read_uint32 s) [
  | none ↦ none
  | some (n, rest) ↦
      if str_eq (take 4 rest) type && leb (n + 4) (length rest)
      then checked type (take n (drop 4 rest)) (drop n (drop 4 rest))
      else none
]

read_uint32-write :
    (n : ℕ) (s : Bytes) → n < 2 ^ 32 → read_uint32 (write_uint32_be n ++ s) ≡ some (n, s)
read_uint32-write n s h =
    let same : n % 2 ^ 32 ≡ n = omega arith in
    read_uint32-write_uint32_be n s ∙ ap (λ k. some (k, s)) same

checked-write :
    (type bytes rest : Bytes)
    → checked type bytes (write_uint32_be (crc32 (type ++ bytes)) ++ rest) ≡ some (bytes, rest)
unfolding checked write_uint32_be
checked-write type bytes rest =
    let sum = crc32 (type ++ bytes) in
    rw
      (begins_with_sum-write_uint32_be sum (crc_of (type ++ bytes)) rest
        (crc32-crc_of (type ++ bytes)))
      refl

read_chunk-write_png_chunk :
    (a b c d : ℕ) (bytes rest : Bytes)
    → length bytes < 2 ^ 32
    → read_chunk (a ∷ b ∷ c ∷ d ∷ []) (write_png_chunk (a ∷ b ∷ c ∷ d ∷ []) bytes ++ rest)
      ≡ some (bytes, rest)
unfolding read_chunk write_png_chunk
read_chunk-write_png_chunk a b c d bytes rest small =
    let type : Bytes = a ∷ b ∷ c ∷ d ∷ [] in
    let crc = write_uint32_be (crc32 (type ++ bytes)) in
    let tail = crc ++ rest in
    let whole : write_png_chunk type bytes ++ rest
        ≡ write_uint32_be (length bytes) ++ (type ++ (bytes ++ tail)) =
      append_assoc (write_uint32_be (length bytes)) ((type ++ bytes) ++ crc) rest
      ∙ ap (λ s. write_uint32_be (length bytes) ++ s)
          (append_assoc (type ++ bytes) crc rest ∙ append_assoc type bytes tail) in
    let fits : leb (length bytes + 4) (suc (suc (suc (suc (length (bytes ++ tail)))))) ≡ true =
      ground (arith, length-append bytes tail) in
    ap (read_chunk type) whole
    ∙ rw (read_uint32-write (length bytes) (type ++ (bytes ++ tail)) small, read_chunk)
        (rw (str_eq_refl type, fits, take-append bytes tail, drop-append bytes tail)
          (checked-write type bytes rest))

-- The reader of the images that `create_simple_png` writes: gray, eight bits, not interlaced, with
-- one IDAT chunk. The result is the width, the height and the pixels.
unfoldable pub read_data : ℕ → ℕ → Bytes → Option (ℕ × ℕ × Bytes)
read_data width height compressed = elim (inflate compressed) [
  | none ↦ none
  | some raw ↦ elim (unfilter width height raw) [
    | none ↦ none
    | some out ↦ some (width, height, out)
  ]
]

unfoldable pub read_chunks : ℕ → ℕ → Bytes → Option (ℕ × ℕ × Bytes)
read_chunks width height s = elim (read_chunk (codes "IDAT") s) [
  | none ↦ none
  | some (compressed, rest) ↦ elim (read_chunk (codes "IEND") rest) [
    | none ↦ none
    | some (content, behind) ↦
        if is_empty content && is_empty behind then read_data width height compressed else none
  ]
]

unfoldable pub read_size : Bytes → Option (ℕ × ℕ)
read_size ihdr = elim (read_uint32 ihdr) [
  | none ↦ none
  | some (width, s) ↦ elim (read_uint32 s) [
    | none ↦ none
    | some (height, kind) ↦
        if str_eq kind (8 ∷ 0 ∷ 0 ∷ 0 ∷ 0 ∷ []) then some (width, height) else none
  ]
]

unfoldable pub read_png : Bytes → Option (ℕ × ℕ × Bytes)
read_png s =
    if str_eq (take 8 s) (137 ∷ 80 ∷ 78 ∷ 71 ∷ 13 ∷ 10 ∷ 26 ∷ 10 ∷ [])
    then elim (read_chunk (codes "IHDR") (drop 8 s)) [
      | none ↦ none
      | some (ihdr, rest) ↦ elim (read_size ihdr) [
        | none ↦ none
        | some (width, height) ↦ read_chunks width height rest
      ]
    ]
    else none

module _ (bitmap : Bytes) (size : ℕ) (some_size : 0 < size) (whole : length bitmap ≡ size * size)
    (small : size * (size + 1) ≤ 700000000) where
  abbrev raw : Bytes
  raw = raw_rows bitmap size size 0

  compressed_small : length (simple_deflate raw) < 2 ^ 32
  compressed_small =
      let long = length-raw_rows bitmap size size 0 in
      let bound = length-simple_deflate raw in omega arith

  read_data-raw : read_data size size (simple_deflate raw) ≡ some (size, size, bitmap)
  unfolding read_data
  read_data-raw =
      let start : 0 * size ≡ 0 = omega arith in
      let rows : unfilter size size raw ≡ some bitmap =
        unfilter-raw_rows bitmap size size 0 (omega arith) ∙ ap (λ i. some (drop i bitmap)) start in
      rw (inflate-simple_deflate raw (raw_rows-ne bitmap size size 0 some_size), rows, read_data)
        refl

  read_chunks-raw :
      read_chunks size size
        (write_png_chunk (codes "IDAT") (simple_deflate raw) ++ write_png_chunk (codes "IEND") [])
      ≡ some (size, size, bitmap)
  unfolding read_chunks
  read_chunks-raw =
      let last : read_chunk (codes "IEND") (write_png_chunk (codes "IEND") []) ≡ some ([], []) =
        ap (read_chunk (codes "IEND")) (sym (append-nil (write_png_chunk (codes "IEND") [])))
        ∙ read_chunk-write_png_chunk b'I' b'E' b'N' b'D' [] [] (omega arith) in
      rw
        (
          read_chunk-write_png_chunk b'I' b'D' b'A' b'T' (simple_deflate raw)
              (write_png_chunk (codes "IEND") []) compressed_small,
          last,
          read_chunks,
        )
        read_data-raw

  read_size-ihdr_data : read_size (ihdr_data size) ≡ some (size, size)
  unfolding read_size
  read_size-ihdr_data =
      let bound : size < 2 ^ 32 = (let least = le_mul size size in omega arith) in
      rw
        (
          read_uint32-write size (write_uint32_be size ++ (8 ∷ 0 ∷ 0 ∷ 0 ∷ 0 ∷ [])) bound,
          read_uint32-write size (8 ∷ 0 ∷ 0 ∷ 0 ∷ 0 ∷ []) bound,
          read_size,
        )
        (unfold str_eq in refl)

  -- A reader of PNG files that checks the signature, the checksum of every chunk by ISO 3309 bit
  -- by bit and the checksum of the data by RFC 1950 gives back the width, the height and every
  -- pixel of a square bitmap that is not empty, as long as its rows with their filter types take
  -- at most 700,000,000 bytes.
  pub read_png-create_simple_png :
      read_png (create_simple_png bitmap size) ≡ some (size, size, bitmap)
  unfolding read_png create_simple_png write_uint32_be
  read_png-create_simple_png =
      let rest =
        write_png_chunk (codes "IDAT") (simple_deflate raw) ++ write_png_chunk (codes "IEND") [] in
      rw
        (
          str_eq_refl signature,
          read_chunk-write_png_chunk b'I' b'H' b'D' b'R' (ihdr_data size) rest (omega arith),
          read_size-ihdr_data,
          read_png,
        )
        read_chunks-raw
