-- ===== src/FileValidator/Sanitize.antt =====
-- src/utils/file_validator.cc: `sanitize_filename`. A byte of 128 or more is a negative char there.
pub mod Laws
pub mod Limit
use bit_link.Prelude.{
  ℕ, zero, suc, ◌+◌, ◌-◌, ◌*◌, ◌/◌, ◌%◌, ◌<◌, ◌≤◌, ◌≡◌, ◌≢◌, ◌↔◌, ◌⊎◌, inl, inr, refl, sym, ap, ◌∙◌,
  subst, List, [], ◌∷◌, ◌++◌, Option, none, some, Bool, true, false, not, ◌&&◌, ◌||◌, ltb, leb,
  ◌==◌, ==_iff, if◌then◌else◌, length, take, drop, get_elem?, All, All-append, length-append,
  append_assoc, append-nil, arith, Bool-cases, Option-cases, if_both, option_both,
}
use bit_link.Prelude.{map, ◌^◌}
use bit_link.Str.{
  Bytes, codes, is_empty, one_of, is_space, is_lower, find_last_char, is_member, str_eq, all_bytes,
}

-- The class of the first regular expression.
abbrev pub is_dangerous : ℕ → Bool
is_dangerous c = one_of (codes "<>:\"/\\|?*") c

abbrev pub is_control : ℕ → Bool
is_control c = leb c 31 || c == 127

unfoldable pub replace_dangerous : Bytes → Bytes
replace_dangerous = map (λ c. if is_dangerous c then b'_' else c)

unfoldable pub remove_control : Bytes → Bytes
remove_control [] = []
remove_control (c ∷ s) = let rest = remove_control s in if is_control c then rest else c ∷ rest

-- What is left without the bytes at the front that pass the test.
unfoldable pub trim_front : (ℕ → Bool) → Bytes → Bytes
trim_front test [] = []
trim_front test (c ∷ s) = let rest = trim_front test s in if test c then rest else c ∷ s

unfoldable pub trim_end : (ℕ → Bool) → Bytes → Bytes
trim_end test [] = []
trim_end test (c ∷ s) =
    let rest = trim_end test s in if is_empty rest && test c then [] else c ∷ rest

-- The name's share of 255 bytes, a difference of `size_t`.
abbrev pub name_length : ℕ → ℕ
name_length ext = if leb ext 255 then 255 - ext else 2 ^ 64 + 255 - ext

-- The extension is kept if its dot stands behind the byte 235.
unfoldable pub limit_length : Bytes → Bytes
limit_length s =
    if ltb 255 (length s)
    then elim (find_last_char b'.' s) [
      | none ↦ take 255 s
      | some ext_pos ↦
          if ltb 235 ext_pos
          then take (name_length (length s - ext_pos)) s ++ drop ext_pos s
          else take 255 s
    ]
    else s

abbrev pub reserved_names : List Bytes
reserved_names =
    codes "CON"
    ∷ codes "PRN"
    ∷ codes "AUX"
    ∷ codes "NUL"
    ∷ codes "COM1"
    ∷ codes "COM2"
    ∷ codes "COM3"
    ∷ codes "COM4"
    ∷ codes "COM5"
    ∷ codes "COM6"
    ∷ codes "COM7"
    ∷ codes "COM8"
    ∷ codes "COM9"
    ∷ codes "LPT1"
    ∷ codes "LPT2"
    ∷ codes "LPT3"
    ∷ codes "LPT4"
    ∷ codes "LPT5"
    ∷ codes "LPT6"
    ∷ codes "LPT7"
    ∷ codes "LPT8"
    ∷ codes "LPT9"
    ∷ []

-- toupper of the "C" locale
abbrev pub to_upper : ℕ → ℕ
to_upper c = if is_lower c then c - 32 else c

abbrev pub name_without_ext : Bytes → Bytes
name_without_ext s = elim (find_last_char b'.' s) [ none ↦ s | some dot_pos ↦ take dot_pos s ]

unfoldable pub guard_reserved : Bytes → Bytes
guard_reserved s =
    if is_member (map to_upper (name_without_ext s)) reserved_names then b'_' ∷ s else s

-- The two checks at the end.
unfoldable pub ensure_valid : Bytes → Bytes
ensure_valid s =
    if is_empty s || str_eq s (codes ".") || str_eq s (codes "..")
    then codes "unnamed_file"
    else if all_bytes (λ c. c == b'_' || is_space c) s
    then codes "unnamed_file"
    else s

unfoldable pub sanitize_filename : Bytes → Bytes
unfolding replace_dangerous remove_control trim_front trim_end limit_length guard_reserved
    ensure_valid
sanitize_filename filename =
    if is_empty filename
    then codes "unnamed_file"
    else ensure_valid (
        guard_reserved (
          limit_length (
            trim_front (one_of (codes ". ")) (
              trim_end is_space
                (trim_front is_space (remove_control (replace_dangerous filename)))))))
