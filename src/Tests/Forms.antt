-- ===== src/Tests/Forms.antt =====
-- Bodies, headers and JSON texts at concrete inputs.
use bit_link.Prelude.{length, false, ◌≡◌, refl, [], ◌∷◌, ◌++◌, List, some, arith}
use bit_link.Str.{Bytes, codes, find, find_where, str_eq, ends_in}
use bit_link.StrMap.{put}
use bit_link.HttpParser.Codec.{url_decode, url_encode}
use bit_link.HttpParser.Codec.RoundTrip.{url_decode-url_encode}
use bit_link.HttpParser.Header.{parse_content_disposition, param_value, value_at}
use bit_link.HttpParser.Header.Laws.{swapped_header, parse_content_disposition-swapped_header}
use bit_link.HttpParser.Multipart.{
  Form, skip_crlf, find_headers_end, find_next_boundary, strip_newline, line_at, disposition_of,
  content_type_of, store_part, read_part, read_parts, parse_multipart_form,
}
use bit_link.HttpParser.Multipart.Fuel.{parse_multipart_form_total}
use bit_link.HttpParser.Multipart.Bounds.{IsWithinLimits, parse_multipart_form-IsWithinLimits}
use bit_link.JsonBuilder.{build}
use bit_link.JsonBuilder.Objects.{strings, read_object, read_object-build}
use bit_link.JsonBuilder.Escape.{escape_json_string}
use bit_link.JsonBuilder.Escape.RoundTrip.{plain, read_string, read_string-escape_json_string}

url_decode-url_encode_example : url_decode (url_encode (codes "a b&c")) ≡ codes "a b&c"
url_decode-url_encode_example = url_decode-url_encode (codes "a b&c") (omega arith)

abbrev two_fields : List (Bytes × Bytes)
two_fields = (codes "url", codes "x.org/?a=1&b") ∷ (codes "qr", codes "on") ∷ []

swapped_header_example :
    (parse_content_disposition (swapped_header (codes "f") (codes "a.txt"))).0
    ≡ record { name = codes "a.txt"; filename = codes "a.txt" }
swapped_header_example =
    parse_content_disposition-swapped_header (codes "f") (codes "a.txt") (omega arith)

-- A body with one field, whose lines end in a line feed.
abbrev small_body : Bytes
small_body = codes "--B\nContent-Disposition: form-data; name=\"f\"\n\nhi\n--B--\n"

abbrev small_form : Form
small_form = record { fields = (codes "f", codes "hi") ∷ []; files = [] }

small_run : parse_multipart_form small_body (codes "B") ≡ some small_form
unfolding parse_multipart_form read_parts read_part store_part content_type_of disposition_of
    line_at strip_newline find_next_boundary find_headers_end skip_crlf find str_eq
    parse_content_disposition find_where param_value value_at ends_in put
small_run = refl

parse_multipart_form_total_example :
    (form : Form) × (parse_multipart_form small_body (codes "B") ≡ some form)
parse_multipart_form_total_example = parse_multipart_form_total small_body (codes "B")

parse_multipart_form-IsWithinLimits_example : IsWithinLimits small_form
parse_multipart_form-IsWithinLimits_example =
    parse_multipart_form-IsWithinLimits small_body (codes "B") small_form small_run

read_string-escape_json_string_example :
    read_string plain (escape_json_string (codes "a\"b\\") ++ b'"' ∷ codes ",1")
    ≡ some (codes "a\"b\\", codes ",1")
read_string-escape_json_string_example =
    read_string-escape_json_string (codes "a\"b\\") (codes ",1")

abbrev two_strings : List (Bytes × Bytes)
two_strings = (codes "code", codes "a\"b") ∷ (codes "url", codes "https://x.org/") ∷ []

read_object-build_example :
    read_object (length two_strings) (build false (strings two_strings)) ≡ some (two_strings, [])
read_object-build_example = read_object-build two_strings
