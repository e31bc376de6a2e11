-- ===== src/HttpParser/Multipart.antt =====
-- src/utils/http_parser.cc: `parse_multipart_form`. The loop moves `pos` forward through the body,
-- so the length of the body is enough fuel; `none` would mean that the fuel ran out.
pub mod Bounds
pub mod Fuel
use bit_link.Prelude.{
  ℕ, zero, suc, ◌+◌, ◌-◌, ◌*◌, ◌≡◌, refl, [], ◌∷◌, ◌++◌, Option, none, some, Bool, true, false, not,
  ◌&&◌, ◌||◌, if◌then◌else◌, ◌==◌, ltb, leb, length, take, drop,
}
use bit_link.Str.{
  Bytes, codes, is_empty, find, find_char, find_from, substr, str_eq, ends_in, pop_back, char_is,
}
use bit_link.StrMap.{StrMap, put}
use bit_link.HttpParser.Header.{trim, parse_content_disposition, Disposition}

pub record MultipartFile : Type 0 where
  pub filename : Bytes
  pub content_type : Bytes
  pub contents : Bytes

-- The result and the output map `files`.
pub record Form : Type 0 where
  pub fields : StrMap Bytes
  pub files : StrMap MultipartFile

abbrev pub empty_form : Form
empty_form = record { fields = []; files = [] }

-- 1 MB and 25 MB
abbrev pub max_field_size : ℕ
max_field_size = 1024 * 1024

abbrev pub max_file_size : ℕ
max_file_size = 25 * 1024 * 1024

-- Skip CRLF after boundary.
unfoldable pub skip_crlf : Bytes → ℕ → ℕ
skip_crlf body pos =
    let pos' = if char_is 13 body pos then pos + 1 else pos in
    if char_is 10 body pos' then pos' + 1 else pos'

-- The position behind the empty line that ends the headers.
unfoldable pub find_headers_end : Bytes → ℕ → Option ℕ
find_headers_end body pos = elim (find_from (find (codes "\r\n\r\n")) body pos) [
  | some i ↦ some (i + 4)
  | none ↦ elim (find_from (find (codes "\n\n")) body pos) [ none ↦ none | some i ↦ some (i + 2) ]
]

unfoldable pub find_next_boundary : Bytes → Bytes → Bytes → ℕ → Option ℕ
find_next_boundary start_boundary end_boundary body pos =
    elim (find_from (find start_boundary) body pos) [
      | some i ↦ some i
      | none ↦ find_from (find end_boundary) body pos
    ]

-- Remove the line end before the boundary.
unfoldable pub strip_newline : Bytes → Bytes
strip_newline content =
    if leb 2 (length content) && str_eq (drop (length content - 2) content) (codes "\r\n")
    then take (length content - 2) content
    else if not (is_empty content) && ends_in 10 content
    then take (length content - 1) content
    else content

-- The text from a position to the next line end, or to the end where there is none.
unfoldable pub line_at : Bytes → ℕ → Bytes
line_at s pos = elim (find_from (find_char 10) s pos) [
  | none ↦ drop pos s
  | some e ↦ substr s pos (e - pos)
]

unfoldable pub disposition_of : Bytes → Disposition
disposition_of headers = elim (find (codes "Content-Disposition:") headers) [
  | none ↦ record { name = []; filename = [] }
  | some cd_pos ↦ (parse_content_disposition (line_at headers cd_pos)).0
]

unfoldable pub content_type_of : Bytes → Bytes
content_type_of headers = elim (find (codes "Content-Type:") headers) [
  | none ↦ []
  | some ct_pos ↦ trim (drop 13 (line_at headers ct_pos))
]

-- What one part adds: a file, a field, or nothing where it has no name or is too large.
unfoldable pub store_part : Bytes → Bytes → Form → Form
store_part headers content form =
    let d = disposition_of headers in
    if is_empty d.name
    then form
    else if not (is_empty d.filename)
    then if leb (length content) max_file_size
      then record form {
        files =
            put d.name
              (record {
                filename = d.filename;
                content_type = content_type_of headers;
                contents = content;
              })
              form.files;
      }
      else form
    else if leb (length content) max_field_size
    then record form { fields = put d.name content form.fields }
    else form

-- The part between two positions, `pos` in front of its headers.
unfoldable pub read_part : Bytes → ℕ → ℕ → ℕ → Form → Form
read_part body pos headers_end next_boundary form =
    store_part (substr body pos (headers_end - pos - 2))
      (strip_newline (substr body headers_end (next_boundary - headers_end))) form

-- The loop over the parts.
unfoldable pub read_parts : ℕ → Bytes → Bytes → Bytes → ℕ → Form → Option Form
read_parts zero start_boundary end_boundary body pos form = none
read_parts (suc fuel) start_boundary end_boundary body pos form =
    if ltb pos (length body)
    then elim (find_headers_end body (skip_crlf body pos)) [
      | none ↦ some form
      | some headers_end ↦ elim (find_next_boundary start_boundary end_boundary body headers_end) [
        | none ↦ some form
        | some next_boundary ↦
            (let form' = read_part body (skip_crlf body pos) headers_end next_boundary form in
              let rest =
                read_parts fuel start_boundary end_boundary body
                  (next_boundary + length start_boundary) form' in
              if str_eq (substr body next_boundary (length end_boundary)) end_boundary
              then some form'
              else rest)
      ]
    ]
    else some form

unfoldable pub parse_multipart_form : Bytes → Bytes → Option Form
parse_multipart_form body boundary =
    if is_empty body || is_empty boundary
    then some empty_form
    else (let start_boundary = codes "--" ++ boundary in
        elim (find start_boundary body) [
          | none ↦ some empty_form
          | some pos ↦
              read_parts (suc (length body)) start_boundary (start_boundary ++ codes "--") body
                (pos + length start_boundary) empty_form
        ])
