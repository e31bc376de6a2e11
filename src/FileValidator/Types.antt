-- ===== src/FileValidator/Types.antt =====
-- src/utils/file_validator.cc: what is allowed, and how the type of a file is found.
pub mod Laws
use bit_link.Prelude.{
  ℕ, zero, suc, ◌+◌, ◌-◌, ◌*◌, ◌/◌, ◌%◌, ◌<◌, ◌≤◌, ◌≡◌, ◌≢◌, ◌↔◌, ◌⊎◌, inl, inr, refl, sym, ap, ◌∙◌,
  subst, List, [], ◌∷◌, ◌++◌, Option, none, some, Bool, true, false, not, ◌&&◌, ◌||◌, ltb, leb,
  ◌==◌, ==_iff, if◌then◌else◌, length, take, drop, get_elem?, All, All-append, length-append,
  append_assoc, append-nil, arith, Bool-cases, Option-cases, if_both, option_both,
}
use bit_link.Str.{Bytes, codes, str_eq, is_empty, starts_with, find_last_char, is_member, lower}
use bit_link.StrMap.{StrMap, get}

abbrev pub allowed_extensions : List Bytes
allowed_extensions =
    codes "jpg"
    ∷ codes "jpeg"
    ∷ codes "png"
    ∷ codes "gif"
    ∷ codes "bmp"
    ∷ codes "webp"
    ∷ codes "svg"
    ∷ codes "ico"
    ∷ codes "pdf"
    ∷ codes "doc"
    ∷ codes "docx"
    ∷ codes "xls"
    ∷ codes "xlsx"
    ∷ codes "ppt"
    ∷ codes "pptx"
    ∷ codes "txt"
    ∷ codes "rtf"
    ∷ codes "odt"
    ∷ codes "ods"
    ∷ codes "odp"
    ∷ codes "zip"
    ∷ codes "rar"
    ∷ codes "7z"
    ∷ codes "tar"
    ∷ codes "gz"
    ∷ codes "bz2"
    ∷ codes "mp3"
    ∷ codes "wav"
    ∷ codes "ogg"
    ∷ codes "flac"
    ∷ codes "aac"
    ∷ codes "m4a"
    ∷ codes "mp4"
    ∷ codes "avi"
    ∷ codes "mkv"
    ∷ codes "mov"
    ∷ codes "wmv"
    ∷ codes "flv"
    ∷ codes "webm"
    ∷ codes "json"
    ∷ codes "xml"
    ∷ codes "csv"
    ∷ codes "html"
    ∷ codes "css"
    ∷ codes "js"
    ∷ codes "py"
    ∷ codes "cpp"
    ∷ codes "h"
    ∷ codes "java"
    ∷ codes "c"
    ∷ []

abbrev pub allowed_mime_types : List Bytes
allowed_mime_types =
    codes "image/jpeg"
    ∷ codes "image/png"
    ∷ codes "image/gif"
    ∷ codes "image/bmp"
    ∷ codes "image/webp"
    ∷ codes "image/svg+xml"
    ∷ codes "image/x-icon"
    ∷ codes "application/pdf"
    ∷ codes "application/msword"
    ∷ codes "application/vnd.openxmlformats-officedocument.wordprocessingml.document"
    ∷ codes "application/vnd.ms-excel"
    ∷ codes "application/vnd.openxmlformats-officedocument.spreadsheetml.sheet"
    ∷ codes "application/vnd.ms-powerpoint"
    ∷ codes "application/vnd.openxmlformats-officedocument.presentationml.presentation"
    ∷ codes "text/plain"
    ∷ codes "application/rtf"
    ∷ codes "application/vnd.oasis.opendocument.text"
    ∷ codes "application/vnd.oasis.opendocument.spreadsheet"
    ∷ codes "application/vnd.oasis.opendocument.presentation"
    ∷ codes "application/zip"
    ∷ codes "application/x-rar-compressed"
    ∷ codes "application/x-7z-compressed"
    ∷ codes "application/x-tar"
    ∷ codes "application/gzip"
    ∷ codes "application/x-bzip2"
    ∷ codes "audio/mpeg"
    ∷ codes "audio/wav"
    ∷ codes "audio/ogg"
    ∷ codes "audio/flac"
    ∷ codes "audio/aac"
    ∷ codes "audio/mp4"
    ∷ codes "video/mp4"
    ∷ codes "video/x-msvideo"
    ∷ codes "video/x-matroska"
    ∷ codes "video/quicktime"
    ∷ codes "video/x-ms-wmv"
    ∷ codes "video/x-flv"
    ∷ codes "video/webm"
    ∷ codes "application/json"
    ∷ codes "application/xml"
    ∷ codes "text/xml"
    ∷ codes "text/csv"
    ∷ codes "text/html"
    ∷ codes "text/css"
    ∷ codes "application/javascript"
    ∷ codes "text/x-python"
    ∷ codes "text/x-c++src"
    ∷ codes "text/x-csrc"
    ∷ codes "text/x-java-source"
    ∷ []

abbrev pub extension_to_mime : List (Bytes × Bytes)
extension_to_mime =
    (codes "jpg", codes "image/jpeg")
    ∷ (codes "jpeg", codes "image/jpeg")
    ∷ (codes "png", codes "image/png")
    ∷ (codes "gif", codes "image/gif")
    ∷ (codes "bmp", codes "image/bmp")
    ∷ (codes "webp", codes "image/webp")
    ∷ (codes "svg", codes "image/svg+xml")
    ∷ (codes "ico", codes "image/x-icon")
    ∷ (codes "pdf", codes "application/pdf")
    ∷ (codes "doc", codes "application/msword")
    ∷ (
      codes "docx",
      codes "application/vnd.openxmlformats-officedocument.wordprocessingml.document",
    )
    ∷ (codes "xls", codes "application/vnd.ms-excel")
    ∷ (codes "xlsx", codes "application/vnd.openxmlformats-officedocument.spreadsheetml.sheet")
    ∷ (codes "ppt", codes "application/vnd.ms-powerpoint")
    ∷ (
      codes "pptx",
      codes "application/vnd.openxmlformats-officedocument.presentationml.presentation",
    )
    ∷ (codes "txt", codes "text/plain")
    ∷ (codes "rtf", codes "application/rtf")
    ∷ (codes "zip", codes "application/zip")
    ∷ (codes "rar", codes "application/x-rar-compressed")
    ∷ (codes "7z", codes "application/x-7z-compressed")
    ∷ (codes "tar", codes "application/x-tar")
    ∷ (codes "gz", codes "application/gzip")
    ∷ (codes "bz2", codes "application/x-bzip2")
    ∷ (codes "mp3", codes "audio/mpeg")
    ∷ (codes "wav", codes "audio/wav")
    ∷ (codes "ogg", codes "audio/ogg")
    ∷ (codes "flac", codes "audio/flac")
    ∷ (codes "aac", codes "audio/aac")
    ∷ (codes "m4a", codes "audio/mp4")
    ∷ (codes "mp4", codes "video/mp4")
    ∷ (codes "avi", codes "video/x-msvideo")
    ∷ (codes "mkv", codes "video/x-matroska")
    ∷ (codes "mov", codes "video/quicktime")
    ∷ (codes "wmv", codes "video/x-ms-wmv")
    ∷ (codes "flv", codes "video/x-flv")
    ∷ (codes "webm", codes "video/webm")
    ∷ (codes "json", codes "application/json")
    ∷ (codes "xml", codes "application/xml")
    ∷ (codes "csv", codes "text/csv")
    ∷ (codes "html", codes "text/html")
    ∷ (codes "css", codes "text/css")
    ∷ (codes "js", codes "application/javascript")
    ∷ (codes "py", codes "text/x-python")
    ∷ (codes "cpp", codes "text/x-c++src")
    ∷ (codes "h", codes "text/x-csrc")
    ∷ (codes "java", codes "text/x-java-source")
    ∷ (codes "c", codes "text/x-csrc")
    ∷ []

unfoldable pub matches_magic_pattern : Bytes → ℕ → Bytes → Bool
unfolding starts_with
matches_magic_pattern file_data offset pattern =
    if ltb (length file_data) (offset + length pattern)
    then false
    else starts_with pattern (drop offset file_data)

-- transform(..., ::tolower) behind the last dot; a dot at the end has no extension.
unfoldable pub get_file_extension : Bytes → Bytes
get_file_extension filename = elim (find_last_char b'.' filename) [
  | none ↦ []
  | some dot_pos ↦
      if dot_pos == length filename - 1 then [] else lower (drop (dot_pos + 1) filename)
]

-- map.find: the source's table has each key once.
unfoldable pub lookup : Bytes → List (Bytes × Bytes) → Bytes
lookup key [] = []
lookup key ((k, v) ∷ entries) = let later = lookup key entries in if str_eq key k then v else later

unfoldable pub get_mime_type_from_extension : Bytes → Bytes
unfolding lookup
get_mime_type_from_extension extension = lookup extension extension_to_mime

-- Printable ASCII, tab, newline or carriage return.
abbrev pub is_plain : ℕ → Bool
is_plain byte = (leb 32 byte && leb byte 126) || byte == 9 || byte == 10 || byte == 13

-- Is each of the bytes plain, or with its high bit set?
unfoldable pub is_likely_text : Bytes → Bool
is_likely_text [] = true
is_likely_text (byte ∷ file_data) =
    let more = is_likely_text file_data in
    if not (is_plain byte) && ltb byte 128 then false else more

unfoldable pub detect_mime_from_magic : Bytes → Bytes
unfolding matches_magic_pattern is_likely_text
detect_mime_from_magic file_data =
    if is_empty file_data
    then []
    else if matches_magic_pattern file_data 0 (255 ∷ 216 ∷ 255 ∷ [])
    then codes "image/jpeg"
    else if matches_magic_pattern file_data 0 (137 ∷ 80 ∷ 78 ∷ 71 ∷ 13 ∷ 10 ∷ 26 ∷ 10 ∷ [])
    then codes "image/png"
    else if matches_magic_pattern file_data 0 (codes "GIF8")
    then codes "image/gif"
    else if matches_magic_pattern file_data 0 (codes "%PDF")
    then codes "application/pdf"
    else if matches_magic_pattern file_data 0 (80 ∷ 75 ∷ 3 ∷ 4 ∷ [])
    then codes "application/zip"
    else if matches_magic_pattern file_data 0 (255 ∷ 251 ∷ [])
        || matches_magic_pattern file_data 0 (codes "ID3")
    then codes "audio/mpeg"
    else if matches_magic_pattern file_data 0 (codes "BM")
    then codes "image/bmp"
    else if matches_magic_pattern file_data 0 (239 ∷ 187 ∷ 191 ∷ [])
    then codes "text/plain"
    else if is_likely_text (take 512 file_data)
    then codes "text/plain"
    else []

unfoldable pub detect_mime_type : Bytes → Bytes → Bytes
unfolding detect_mime_from_magic get_file_extension get_mime_type_from_extension
detect_mime_type file_data filename =
    if is_empty file_data
    then []
    else (let mime_from_magic = detect_mime_from_magic file_data in
        if not (is_empty mime_from_magic)
        then mime_from_magic
        else get_mime_type_from_extension (get_file_extension filename))

-- file_data[i] == byte, behind a test of the size
abbrev pub byte_is : Bytes → ℕ → ℕ → Bool
byte_is file_data i byte = elim (get_elem? file_data i) [ none ↦ false | some b ↦ b == byte ]

-- The loop over the first bytes: those that are no text are below 32.
unfoldable pub is_text : Bytes → Bool
is_text [] = true
is_text (byte ∷ file_data) =
    let more = is_text file_data in
    if not (is_plain byte) && ltb byte 128 && ltb byte 32 then false else more

-- One of the numbers that the formats begin with, in the order of the source's tests.
unfoldable pub has_magic_number : Bytes → Bool
unfolding matches_magic_pattern
has_magic_number file_data =
    matches_magic_pattern file_data 0 (255 ∷ 216 ∷ 255 ∷ [])
    || matches_magic_pattern file_data 0 (137 ∷ 80 ∷ 78 ∷ 71 ∷ 13 ∷ 10 ∷ 26 ∷ 10 ∷ [])
    || (matches_magic_pattern file_data 0 (codes "GIF8")
        && ltb 5 (length file_data)
        && (byte_is file_data 4 b'7' || byte_is file_data 4 b'9')
        && byte_is file_data 5 b'a')
    || matches_magic_pattern file_data 0 (codes "%PDF")
    || matches_magic_pattern file_data 0 (80 ∷ 75 ∷ 3 ∷ 4 ∷ [])
    || matches_magic_pattern file_data 0 (80 ∷ 75 ∷ 5 ∷ 6 ∷ [])
    || matches_magic_pattern file_data 0 (80 ∷ 75 ∷ 7 ∷ 8 ∷ [])
    || matches_magic_pattern file_data 0 (255 ∷ 251 ∷ [])
    || matches_magic_pattern file_data 0 (codes "ID3")
    || (ltb 8 (length file_data) && matches_magic_pattern file_data 4 (codes "ftyp"))
    || matches_magic_pattern file_data 0 (82 ∷ 97 ∷ 114 ∷ 33 ∷ 26 ∷ 7 ∷ 0 ∷ [])
    || matches_magic_pattern file_data 0 (55 ∷ 122 ∷ 188 ∷ 175 ∷ 39 ∷ 28 ∷ [])
    || matches_magic_pattern file_data 0 (codes "BM")
    || matches_magic_pattern file_data 0 (239 ∷ 187 ∷ 191 ∷ [])

-- The last test lets every format pass.
unfoldable pub check_magic_numbers : Bytes → Bool
unfolding has_magic_number is_text
check_magic_numbers file_data =
    if is_empty file_data
    then false
    else if has_magic_number file_data
    then true
    else if is_text (take 512 file_data)
    then true
    else true
