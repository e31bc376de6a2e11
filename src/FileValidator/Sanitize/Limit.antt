-- ===== src/FileValidator/Sanitize/Limit.antt =====
-- src/utils/file_validator.cc, `sanitize_filename`: where its limit fails.
use bit_link.Prelude.{
  suc, ◌+◌, ◌-◌, ◌*◌, ◌<◌, ◌≤◌, ◌≡◌, refl, ◌∷◌, ◌++◌, true, ltb, length, length-append,
  append_assoc, arith,
}
use bit_link.Prelude.{◌^◌}
use bit_link.Str.{Bytes, Lacks}
use bit_link.Prelude.{take_all, drop-append}
use bit_link.Str.Search.{find_last_char-append}
use bit_link.FileValidator.Sanitize.{name_length, limit_length}

-- Where more than 235 bytes stand in front of the last dot and more than 254 behind it, and the
-- sizes do not exceed 64 bits, the name is not cut: all of it is kept, and the dot with what
-- follows is appended again.
pub limit_length_long :
    (name ext : Bytes)
    → Lacks b'.' ext
    → 235 < length name
    → 254 < length ext
    → length name + 2 * length ext ≤ 2 ^ 64
    → limit_length (name ++ b'.' ∷ ext) ≡ name ++ (b'.' ∷ ext ++ b'.' ∷ ext)
unfolding limit_length
limit_length_long name ext lacks long tail small =
    let s = name ++ b'.' ∷ ext in
    let total : length s ≡ length name + suc (length ext) = length-append name (b'.' ∷ ext) in
    let over : ltb 255 (length s) ≡ true = ground (arith, total) in
    let dot = find_last_char-append b'.' name ext lacks in
    let behind : ltb 235 (length name) ≡ true = ground arith in
    let rest : length s - length name ≡ suc (length ext) = omega (arith, total) in
    let wraps : name_length (suc (length ext)) ≡ 2 ^ 64 + 255 - suc (length ext) =
      wrapped ext tail in
    let whole = take_all (name_length (suc (length ext))) s (omega (arith, wraps, total)) in
    rw (over, dot, behind, rest, whole, drop-append name (b'.' ∷ ext), append_assoc) refl
  where
    wrapped :
        (ext : Bytes)
        → 254 < length ext
        → name_length (suc (length ext)) ≡ 2 ^ 64 + 255 - suc (length ext)
    wrapped ext h = ground arith
