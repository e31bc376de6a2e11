-- ===== src/QrGenerator/Deflate/RoundTrip.antt =====
-- src/utils/qr_generator.cc: a reader of stored blocks gives back what `simple_deflate` writes.
use bit_link.Prelude.{
  ℕ, zero, suc, ◌+◌, ◌-◌, ◌*◌, ◌/◌, ◌%◌, ◌^◌, ◌<◌, ◌≤◌, ◌≡◌, ◌≢◌, refl, sym, ap, append-nil, ◌∙◌,
  [], ◌∷◌, ◌++◌, Option, none, some, true, false, ◌&&◌, leb, ◌==◌, min, if◌then◌else◌, length,
  length-append, take, drop, take-append, drop-append, append_assoc, ◌⊎◌, take_all, length-take,
  take-append-drop, arith, inl, inr, Bool-cases,
}
use bit_link.Str.{Bytes, is_empty}
use bit_link.QrGenerator.Deflate.{write_uint32_be, adler32, deflate_blocks, simple_deflate}
use bit_link.QrGenerator.Deflate.Numbers.{begins_with_sum, begins_with_sum-write_uint32_be}
use bit_link.QrGenerator.Checksums.{adler_of}
use bit_link.QrGenerator.Checksums.Adler.{adler32-adler_of}

unfoldable pub in_front : Bytes → Option (Bytes × Bytes) → Option (Bytes × Bytes)
in_front block none = none
in_front block (some (out, left)) = some (block ++ out, left)

-- A stored block of RFC 1951 with these lengths in its header, and what the blocks behind it give.
unfoldable pub stored_block : ℕ → ℕ → ℕ → Bytes → Option (Bytes × Bytes) → Option (Bytes × Bytes)
stored_block final len nlen s more =
    if leb final 1 && (nlen == 65535 - len && leb len (length s))
    then if final == 1 then some (take len s, drop len s) else in_front (take len s) more
    else none

-- What the blocks hold, and what is behind the last.
unfoldable pub inflate_blocks : ℕ → Bytes → Option (Bytes × Bytes)
inflate_blocks (suc fuel) (final ∷ l ∷ l' ∷ n ∷ n' ∷ s) =
    let more = inflate_blocks fuel (drop (l + 256 * l') s) in
    stored_block final (l + 256 * l') (n + 256 * n') s more
inflate_blocks _ _ = none

-- RFC 1950: the blocks between the two bytes in front and the checksum of what they hold.
unfoldable pub inflate : Bytes → Option Bytes
inflate (cmf ∷ flg ∷ s) =
    if cmf == 120 && flg == 1
    then elim (inflate_blocks (length s) s) [
      | none ↦ none
      | some (out, left) ↦
          if begins_with_sum (adler_of out) left && length left == 4 then some out else none
    ]
    else none
inflate _ = none

read_stored :
    (final : ℕ) (block s : Bytes) (more : Option (Bytes × Bytes))
    → final ≤ 1
    → stored_block final (length block) (65535 - length block) (block ++ s) more
      ≡ (if final == 1 then some (block, s) else in_front block more)
unfolding stored_block
read_stored final block s more small =
    rw (take-append block s, drop-append block s)
      (let size = length-append block s in
        let fits : leb final 1
              && ((65535 - length block == 65535 - length block)
                  && leb (length block) (length (block ++ s)))
            ≡ true =
          ground arith in
        rw fits refl)

-- A block whose header says how long it is.
read_block :
    (fuel final : ℕ) (block s : Bytes)
    → final ≤ 1
    → length block ≤ 65535
    → inflate_blocks (suc fuel) (
        final
        ∷ length block % 256
        ∷ length block / 2 ^ 8 % 256
        ∷ (2 ^ 16 - 1 - length block % 2 ^ 16) % 256
        ∷ (2 ^ 16 - 1 - length block % 2 ^ 16) / 2 ^ 8 % 256
        ∷ (block ++ s))
      ≡ (if final == 1 then some (block, s) else in_front block (inflate_blocks fuel s))
unfolding inflate_blocks
read_block fuel final block s small short =
    let k = length block in
    let len : k % 256 + 256 * (k / 2 ^ 8 % 256) ≡ k = omega arith in
    let nlen : (2 ^ 16 - 1 - k % 2 ^ 16) % 256 + 256 * ((2 ^ 16 - 1 - k % 2 ^ 16) / 2 ^ 8 % 256)
        ≡ 65535 - k =
      omega arith in
    rw (len, nlen)
      (rw (drop-append block s) (read_stored final block s (inflate_blocks fuel s) small))

length-drop : (n : ℕ) (bytes : Bytes) → length (drop n bytes) ≡ length bytes - n
length-drop zero bytes = omega arith
length-drop (suc n) [] = omega arith
length-drop (suc n) (c ∷ bytes) = omega (arith, length-drop n bytes)

not_nil : (bytes : Bytes) → bytes ≢ [] → is_empty bytes ≡ false
not_nil [] ne = absurd (ne refl)
not_nil (c ∷ bytes) ne = refl

pub drop-length : (bytes : Bytes) → drop (length bytes) bytes ≡ []
drop-length [] = refl
drop-length (c ∷ bytes) = drop-length bytes

drop-ne : (n : ℕ) (bytes : Bytes) → n < length bytes → drop n bytes ≢ []
drop-ne zero [] h e = absurd (omega arith)
drop-ne zero (c ∷ bytes) h e = cc
drop-ne (suc n) [] h e = absurd (omega arith)
drop-ne (suc n) (c ∷ bytes) h e = drop-ne n bytes (omega arith) e

deflate_blocks-nil : (fuel : ℕ) → deflate_blocks fuel [] ≡ []
unfolding deflate_blocks
deflate_blocks-nil zero = refl
deflate_blocks-nil (suc fuel) = refl

-- A block in front of the others.
abbrev written_block : ℕ → Bytes → Bytes → Bytes
written_block final block s =
    final
    ∷ length block % 256
    ∷ length block / 2 ^ 8 % 256
    ∷ (2 ^ 16 - 1 - length block % 2 ^ 16) % 256
    ∷ (2 ^ 16 - 1 - length block % 2 ^ 16) / 2 ^ 8 % 256
    ∷ (block ++ s)

written_block-append :
    (final : ℕ) (block s tail : Bytes)
    → written_block final block s ++ tail ≡ written_block final block (s ++ tail)
written_block-append final block s tail =
    ap
      (λ r.
        final
        ∷ length block % 256
        ∷ length block / 2 ^ 8 % 256
        ∷ (2 ^ 16 - 1 - length block % 2 ^ 16) % 256
        ∷ (2 ^ 16 - 1 - length block % 2 ^ 16) / 2 ^ 8 % 256
        ∷ r)
      (append_assoc block s tail)

deflate_step :
    (fuel final : ℕ) (bytes block : Bytes)
    → bytes ≢ []
    → min 65535 (length bytes) ≡ length block
    → take (length block) bytes ≡ block
    → (if leb (length bytes) (length block) then 1 else 0) ≡ final
    → deflate_blocks (suc fuel) bytes
      ≡ written_block final block (deflate_blocks fuel (drop (length block) bytes))
unfolding deflate_blocks
deflate_step fuel final bytes block ne size same e = rw (not_nil bytes ne, size, same, e) refl

-- The last block, or a full one in front of the others.
first_block :
    (fuel : ℕ) (bytes : Bytes)
    → bytes ≢ []
    → (deflate_blocks (suc fuel) bytes ≡ written_block 1 bytes []) × (length bytes ≤ 65535)
      ⊎ (deflate_blocks (suc fuel) bytes
          ≡ written_block 0 (take 65535 bytes) (deflate_blocks fuel (drop 65535 bytes)))
        × (65535 < length bytes)
first_block fuel bytes ne = elim (Bool-cases (leb (length bytes) 65535)) [
  | inl last ↦
      let final : leb (length bytes) (length bytes) ≡ true = ground arith in
      let step =
        deflate_step fuel 1 bytes bytes ne (ground arith)
          (take_all (length bytes) bytes (omega arith)) (rw final refl) in
      let none_left : deflate_blocks fuel (drop (length bytes) bytes) ≡ [] =
        ap (deflate_blocks fuel) (drop-length bytes) ∙ deflate_blocks-nil fuel in
      inl (step ∙ ap (written_block 1 bytes) none_left, ground arith)
  | inr more ↦
      let block = take 65535 bytes in
      let long : 65535 < length bytes = ground arith in
      let size : length block ≡ 65535 = omega (arith, length-take 65535 bytes) in
      let small : min 65535 (length bytes) ≡ length block = omega arith in
      let final : leb (length bytes) (length block) ≡ false = ground arith in
      let step =
        deflate_step fuel 0 bytes block ne small (ap (λ n. take n bytes) size) (rw final refl) in
      let same : drop (length block) bytes ≡ drop 65535 bytes = ap (λ n. drop n bytes) size in
      inr (step ∙ ap (λ r. written_block 0 block (deflate_blocks fuel r)) same, long)
]

-- A block is five bytes longer than what it holds, and none is empty.
length-deflate_blocks :
    (fuel : ℕ) (bytes : Bytes)
    → length bytes ≤ fuel
    → (length bytes ≤ length (deflate_blocks fuel bytes))
      × (length (deflate_blocks fuel bytes) ≤ 6 * length bytes)
length-deflate_blocks fuel [] h =
    let e = ap length (deflate_blocks-nil fuel) in (omega arith, omega arith)
length-deflate_blocks zero (c ∷ bytes) h = absurd (omega arith)
length-deflate_blocks (suc fuel) (c ∷ bytes) h = elim (first_block fuel (c ∷ bytes) (λ e. cc)) [
  | inl (e, short) ↦
      let size = ap length e in
      let added = length-append (c ∷ bytes) [] in (omega arith, omega arith)
  | inr (e, long) ↦
      let block = take 65535 (c ∷ bytes) in
      let left = drop 65535 (c ∷ bytes) in
      let behind : length left ≡ length (c ∷ bytes) - 65535 = length-drop 65535 (c ∷ bytes) in
      let in_block : length block ≡ 65535 = omega (arith, length-take 65535 (c ∷ bytes)) in
      let (low, high) = length-deflate_blocks fuel left (omega arith) in
      let size = ap length e in
      let added = length-append block (deflate_blocks fuel left) in (omega arith, omega arith)
]

-- The blocks give back what went into them and leave what is behind them.
inflate_blocks-deflate_blocks :
    (more fuel : ℕ) (bytes tail : Bytes)
    → bytes ≢ []
    → length bytes ≤ fuel
    → fuel ≤ more
    → inflate_blocks more (deflate_blocks fuel bytes ++ tail) ≡ some (bytes, tail)
unfolding in_front
inflate_blocks-deflate_blocks more zero [] tail ne h k = absurd (ne refl)
inflate_blocks-deflate_blocks more zero (c ∷ bytes) tail ne h k = absurd (omega arith)
inflate_blocks-deflate_blocks zero (suc fuel) bytes tail ne h k = absurd (omega arith)
inflate_blocks-deflate_blocks (suc more) (suc fuel) bytes tail ne h k =
    elim (first_block fuel bytes ne) [
      | inl (e, short) ↦
          ap (λ s. inflate_blocks (suc more) (s ++ tail)) e
          ∙ ap (λ s. inflate_blocks (suc more) s) (written_block-append 1 bytes [] tail)
          ∙ read_block more 1 bytes tail (omega arith) short
      | inr (e, long) ↦
          let block = take 65535 bytes in
          let left = drop 65535 bytes in
          let rest = deflate_blocks fuel left in
          let in_block : length block ≤ 65535 = omega (arith, length-take 65535 bytes) in
          let fewer : length left ≤ fuel = omega (arith, length-drop 65535 bytes) in
          ap (λ s. inflate_blocks (suc more) (s ++ tail)) e
          ∙ ap (λ s. inflate_blocks (suc more) s) (written_block-append 0 block rest tail)
          ∙ read_block more 0 block (rest ++ tail) (omega arith) in_block
          ∙ ap (in_front block) (
              inflate_blocks-deflate_blocks more fuel left tail (drop-ne 65535 bytes long) fewer
                (omega arith))
          ∙ ap (λ s. some (s, tail)) (take-append-drop 65535 bytes)
    ]

-- A reader of stored zlib streams gives back what was compressed, for every sequence that is not
-- empty, of whatever length: the blocks, their lengths and complements and the checksum are right.
pub inflate-simple_deflate :
    (bytes : Bytes) → bytes ≢ [] → inflate (simple_deflate bytes) ≡ some bytes
unfolding inflate simple_deflate write_uint32_be
inflate-simple_deflate bytes ne =
    let checksum = write_uint32_be (adler32 bytes) in
    let right : begins_with_sum (adler_of bytes) checksum ≡ true =
      ap (begins_with_sum (adler_of bytes)) (sym (append-nil checksum))
      ∙ begins_with_sum-write_uint32_be (adler32 bytes) (adler_of bytes) []
          (adler32-adler_of bytes) in
    let (low, high) = length-deflate_blocks (length bytes) bytes (omega arith) in
    let added = length-append (deflate_blocks (length bytes) bytes) checksum in
    rw
      (
        inflate_blocks-deflate_blocks (length (deflate_blocks (length bytes) bytes ++ checksum))
            (length bytes) bytes checksum ne (omega arith) (omega arith),
        right,
      )
      refl

pub length-simple_deflate : (bytes : Bytes) → length (simple_deflate bytes) ≤ 6 * length bytes + 6
unfolding simple_deflate write_uint32_be
length-simple_deflate bytes =
    let (low, high) = length-deflate_blocks (length bytes) bytes (omega arith) in
    let added =
      length-append (deflate_blocks (length bytes) bytes) (write_uint32_be (adler32 bytes)) in
    omega arith
