-- ===== src/FileValidator/Validate/Laws.antt =====
-- src/utils/file_validator.cc: when a file is accepted.
use bit_link.Prelude.{
  ◌≡◌, inl, inr, refl, [], ◌∷◌, ◌++◌, true, false, not, ◌&&◌, if◌then◌else◌, arith, Bool-cases,
}
use bit_link.Str.{Bytes, codes, is_empty, is_member, str_eq}
use bit_link.FileValidator.Types.{allowed_extensions, get_file_extension}
use bit_link.FileValidator.Types.Laws.{
  IsAllowed, detect_mime_type-IsAllowed, check_magic_numbers_lem,
}
use bit_link.FileValidator.Validate.{validate_file_type, check_content, invalid}

check_content-valid :
    (mime file_data : Bytes)
    → IsAllowed mime
    → is_empty file_data ≡ false
    → (check_content mime file_data).is_valid ≡ true
unfolding check_content
check_content-valid mime file_data h e =
    ground (arith, h.allowed, check_magic_numbers_lem file_data)

extension_step :
    (extension mime file_data : Bytes)
    → IsAllowed mime
    → is_empty file_data ≡ false
    → (if is_empty extension
        then invalid (codes "File must have a valid extension") []
        else if not (is_member extension allowed_extensions)
        then invalid (codes "File type '" ++ (extension ++ codes "' is not allowed")) []
        else check_content mime file_data).is_valid
      ≡ (is_member extension allowed_extensions && true)
unfolding is_member str_eq
extension_step [] mime file_data h e = refl
extension_step (c ∷ extension) mime file_data h e =
    elim (Bool-cases (is_member (c ∷ extension) allowed_extensions)) [
      | inl f ↦ rw f (check_content-valid mime file_data h e)
      | inr f ↦ rw f refl
    ]

-- A file is accepted exactly where its name has an allowed extension and it has content: neither
-- its detected type nor its first bytes ever turn it away.
pub is_valid-validate_file_type :
    (filename file_data : Bytes)
    → (validate_file_type filename file_data).is_valid
      ≡ (is_member (get_file_extension filename) allowed_extensions && not (is_empty file_data))
unfolding validate_file_type get_file_extension is_member str_eq bit_link.Str.find_last_where
is_valid-validate_file_type [] file_data = refl
is_valid-validate_file_type (c ∷ filename) [] = ground arith
is_valid-validate_file_type (c ∷ filename) (b ∷ file_data) =
    extension_step (get_file_extension (c ∷ filename)) _ (b ∷ file_data)
      (detect_mime_type-IsAllowed (b ∷ file_data) (c ∷ filename)) refl
