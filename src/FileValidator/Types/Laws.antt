-- ===== src/FileValidator/Types/Laws.antt =====
-- src/utils/file_validator.cc: every type that is found is an allowed one.
use bit_link.Prelude.{
  ◌≡◌, refl, List, [], ◌∷◌, Bool, true, not, ◌&&◌, ◌||◌, if◌then◌else◌, take, arith, if_both,
}
use bit_link.Str.{Bytes, codes, str_eq, is_empty, is_member}
use bit_link.FileValidator.Types.{
  allowed_mime_types, extension_to_mime, lookup, get_mime_type_from_extension, get_file_extension,
  is_text, detect_mime_from_magic, has_magic_number, detect_mime_type, check_magic_numbers,
}

-- No type, or an allowed one.
pub record IsAllowed (mime : Bytes) : Type 0 where
  pub allowed : (is_empty mime || is_member mime allowed_mime_types) ≡ true

abbrev all_allowed : List (Bytes × Bytes) → Bool
all_allowed [] = true
all_allowed ((k, v) ∷ entries) =
    (is_empty v || is_member v allowed_mime_types) && all_allowed entries

lookup-IsAllowed :
    (key : Bytes) (entries : List (Bytes × Bytes))
    → all_allowed entries ≡ true
    → IsAllowed (lookup key entries)
unfolding lookup
lookup-IsAllowed key [] h = record { allowed = refl }
lookup-IsAllowed key ((k, v) ∷ entries) h =
    if_both IsAllowed (str_eq key k) (record { allowed = ground arith })
      (lookup-IsAllowed key entries (ground arith))

table_allowed : all_allowed extension_to_mime ≡ true
unfolding is_member str_eq
table_allowed = refl

known :
    (mime : Bytes) → (is_empty mime || is_member mime allowed_mime_types) ≡ true → IsAllowed mime
known mime e = record { allowed = e }

chain-IsAllowed :
    (b c d e f g h i j k : Bool)
    → IsAllowed (
        if b
        then []
        else if c
        then codes "image/jpeg"
        else if d
        then codes "image/png"
        else if e
        then codes "image/gif"
        else if f
        then codes "application/pdf"
        else if g
        then codes "application/zip"
        else if h
        then codes "audio/mpeg"
        else if i
        then codes "image/bmp"
        else if j
        then codes "text/plain"
        else if k
        then codes "text/plain"
        else [])
unfolding is_member str_eq
chain-IsAllowed b c d e f g h i j k = if_both IsAllowed b (known ([]) refl) (
    if_both IsAllowed c (known (codes "image/jpeg") refl) (
      if_both IsAllowed d (known (codes "image/png") refl) (
        if_both IsAllowed e (known (codes "image/gif") refl) (
          if_both IsAllowed f (known (codes "application/pdf") refl) (
            if_both IsAllowed g (known (codes "application/zip") refl) (
              if_both IsAllowed h (known (codes "audio/mpeg") refl) (
                if_both IsAllowed i (known (codes "image/bmp") refl) (
                  if_both IsAllowed j (known (codes "text/plain") refl)
                    (if_both IsAllowed k (known (codes "text/plain") refl) (known [] refl))))))))))

detect_mime_from_magic-IsAllowed :
    (file_data : Bytes) → IsAllowed (detect_mime_from_magic file_data)
unfolding detect_mime_from_magic
detect_mime_from_magic-IsAllowed file_data = chain-IsAllowed _ _ _ _ _ _ _ _ _ _

pub detect_mime_type-IsAllowed :
    (file_data filename : Bytes) → IsAllowed (detect_mime_type file_data filename)
unfolding detect_mime_type get_mime_type_from_extension
detect_mime_type-IsAllowed file_data filename =
    if_both IsAllowed (is_empty file_data) (record { allowed = refl })
      (if_both IsAllowed (not (is_empty (detect_mime_from_magic file_data)))
        (detect_mime_from_magic-IsAllowed file_data)
        (lookup-IsAllowed (get_file_extension filename) extension_to_mime table_allowed))

-- Only a file without content is turned away.
-- Only a file without content is turned away.
pub check_magic_numbers_lem :
    (file_data : Bytes) → check_magic_numbers file_data ≡ not (is_empty file_data)
unfolding check_magic_numbers
check_magic_numbers_lem [] = refl
check_magic_numbers_lem (c ∷ file_data) =
    if_both (λ b. b ≡ true) (has_magic_number (c ∷ file_data)) refl
      (if_both (λ b. b ≡ true) (is_text (take 512 (c ∷ file_data))) refl refl)
