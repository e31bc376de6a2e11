-- ===== src/Handlers/MimeTypes.antt =====
-- src/mime_types.cc: `MimeTypes`.
use bit_link.Prelude.{◌+◌, ◌≡◌, refl, [], ◌∷◌, none, some, drop}
use bit_link.Str.{Bytes, codes, lower, find_last_char, to_lower, find_last_where, str_eq}
use bit_link.StrMap.{StrMap, get}

abbrev pub mime_map : StrMap Bytes
mime_map =
    (codes "html", codes "text/html")
    ∷ (codes "htm", codes "text/html")
    ∷ (codes "css", codes "text/css")
    ∷ (codes "js", codes "application/javascript")
    ∷ (codes "json", codes "application/json")
    ∷ (codes "txt", codes "text/plain")
    ∷ (codes "md", codes "text/markdown")
    ∷ (codes "png", codes "image/png")
    ∷ (codes "jpg", codes "image/jpeg")
    ∷ (codes "jpeg", codes "image/jpeg")
    ∷ (codes "gif", codes "image/gif")
    ∷ (codes "svg", codes "image/svg+xml")
    ∷ (codes "ico", codes "image/x-icon")
    ∷ (codes "pdf", codes "application/pdf")
    ∷ (codes "zip", codes "application/zip")
    ∷ (codes "tar", codes "application/x-tar")
    ∷ (codes "gz", codes "application/gzip")
    ∷ (codes "mp3", codes "audio/mpeg")
    ∷ (codes "mp4", codes "video/mp4")
    ∷ []

unfoldable pub get_mime_type : Bytes → Bytes
get_mime_type extension = elim (get (lower extension) mime_map) [
  | none ↦ codes "application/octet-stream"
  | some kind ↦ kind
]

-- The type of a file by what stands behind the last dot of its path, as the handlers ask for it.
unfoldable pub get_mime_type_of : Bytes → Bytes
get_mime_type_of file_path = elim (find_last_char b'.' file_path) [
  | none ↦ codes "application/octet-stream"
  | some dot_pos ↦ get_mime_type (drop (dot_pos + 1) file_path)
]

mime_tests :
    (get_mime_type_of (codes "/a/b.HTML") ≡ codes "text/html")
    × (get_mime_type_of (codes "/a/b") ≡ codes "application/octet-stream")
unfolding get_mime_type_of get_mime_type get lower to_lower find_last_where str_eq
mime_tests = (refl, refl)
