-- ===== src/FileValidator/Validate.antt =====
-- src/utils/file_validator.cc: `validate_file_type`.
pub mod Laws
use bit_link.Prelude.{
  ℕ, zero, suc, ◌+◌, ◌-◌, ◌*◌, ◌/◌, ◌%◌, ◌<◌, ◌≤◌, ◌≡◌, ◌≢◌, ◌↔◌, ◌⊎◌, inl, inr, refl, sym, ap, ◌∙◌,
  subst, List, [], ◌∷◌, ◌++◌, Option, none, some, Bool, true, false, not, ◌&&◌, ◌||◌, ltb, leb,
  ◌==◌, ==_iff, if◌then◌else◌, length, take, drop, get_elem?, All, All-append, length-append,
  append_assoc, append-nil, arith, Bool-cases, Option-cases, if_both, option_both,
}
use bit_link.Str.{Bytes, codes, is_empty, is_member}
use bit_link.FileValidator.Types.{
  allowed_extensions, allowed_mime_types, get_file_extension, detect_mime_type, check_magic_numbers,
}

pub record ValidationResult : Type 0 where
  pub is_valid : Bool
  pub error_message : Bytes
  pub detected_mime_type : Bytes

abbrev pub invalid : Bytes → Bytes → ValidationResult
invalid message mime = record {
  is_valid = false;
  error_message = message;
  detected_mime_type = mime;
}

-- The tests behind the extension's.
unfoldable pub check_content : Bytes → Bytes → ValidationResult
unfolding detect_mime_type check_magic_numbers
check_content detected_mime file_data =
    if not (is_empty detected_mime) && not (is_member detected_mime allowed_mime_types)
    then invalid (codes "Detected MIME type '" ++ (detected_mime ++ codes "' is not allowed"))
        detected_mime
    else if not (check_magic_numbers file_data)
    then invalid (codes "File content does not match expected format") detected_mime
    else record { is_valid = true; error_message = []; detected_mime_type = detected_mime }

unfoldable pub validate_file_type : Bytes → Bytes → ValidationResult
unfolding check_content get_file_extension
validate_file_type filename file_data =
    let extension = get_file_extension filename in
    if is_empty filename
    then invalid (codes "Filename cannot be empty") []
    else if is_empty file_data
    then invalid (codes "File data cannot be empty") []
    else if is_empty extension
    then invalid (codes "File must have a valid extension") []
    else if not (is_member extension allowed_extensions)
    then invalid (codes "File type '" ++ (extension ++ codes "' is not allowed")) []
    else check_content (detect_mime_type file_data filename) file_data

-- The limit that the services leave to the default.
unfoldable pub is_within_size_limit : ℕ → Bool
is_within_size_limit file_size = leb file_size (25 * 1024 * 1024)
