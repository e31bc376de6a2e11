-- ===== src/HttpParser/Form/RoundTrip.antt =====
-- src/utils/http_parser.cc: `parse_form_data` against a form that `url_encode` writes.
use bit_link.Prelude.{[], ◌∷◌, ◌++◌, List, All}
use bit_link.Str.{Bytes, IsByte}
use bit_link.StrMap.{StrMap}
use bit_link.HttpParser.Codec.{url_encode}
use bit_link.HttpParser.Form.{put_field}

-- A field as a client writes it: both texts encoded, with '=' between them.
abbrev pub write_pair : Bytes × Bytes → Bytes
write_pair (k, v) = url_encode k ++ b'=' ∷ url_encode v

-- The body of a form: the fields with '&' between them.
abbrev pub write_form : List (Bytes × Bytes) → Bytes
write_form [] = []
write_form (p ∷ []) = write_pair p
write_form (p ∷ q ∷ ps) = write_pair p ++ b'&' ∷ write_form (q ∷ ps)

abbrev pub AreBytes : Bytes × Bytes → Type 0
AreBytes (k, v) = All IsByte k × All IsByte v

-- The fields as the server is to store them: later ones replace earlier ones, and those without
-- a name are dropped.
abbrev pub store_fields : StrMap Bytes → List (Bytes × Bytes) → StrMap Bytes
store_fields m [] = m
store_fields m ((k, v) ∷ ps) = store_fields (put_field k v m) ps
