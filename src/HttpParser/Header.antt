-- ===== src/HttpParser/Header.antt =====
-- src/utils/http_parser.cc: `trim`, `extract_boundary`, `parse_content_disposition` and
-- `extract_quoted_value`, which read the headers of a multipart body.
pub mod Laws
use bit_link.Prelude.{
  ℕ, suc, ◌+◌, ◌-◌, ◌≡◌, refl, [], ◌∷◌, ◌++◌, Option, none, some, Bool, true, false, not, ◌&&◌,
  if◌then◌else◌, ◌==◌, ltb, leb, get_elem?, length, take, drop,
}
use bit_link.Str.{
  Bytes, codes, is_empty, find, find_char, find_where, find_last_where, find_from, substr, one_of,
  ends_in, starts_with, char_is, or_end,
}

abbrev blank : ℕ → Bool
blank = one_of (codes " \t\r\n")

unfoldable pub trim : Bytes → Bytes
trim s = elim (find_where (λ c. not (blank c)) s) [
  | none ↦ []
  | some first ↦ elim (find_last_where (λ c. not (blank c)) s) [
    | none ↦ []
    | some last ↦ substr s first (last - first + 1)
  ]
]

-- The value at a position behind `key=`: it may be quoted, or ends at ';'. A quote that is not
-- closed gives nothing.
unfoldable pub value_at : Bytes → ℕ → Bytes
value_at header pos =
    if char_is b'"' header pos
    then elim (find_from (find_char b'"') header (pos + 1)) [
      | none ↦ []
      | some end_pos ↦ substr header (pos + 1) (end_pos - (pos + 1))
    ]
    else (let end_pos = or_end header (find_from (find_char b';') header pos) in
        trim (substr header pos (end_pos - pos)))

-- The value of the first place where `key`, which ends in '=', stands.
unfoldable pub param_value : Bytes → Bytes → Bytes
param_value key header = elim (find key header) [
  | none ↦ []
  | some at ↦
      (let pos = at + length key in if ltb pos (length header) then value_at header pos else [])
]

unfoldable pub extract_boundary : Bytes → Bytes
extract_boundary content_type =
    if is_empty content_type then [] else param_value (codes "boundary=") content_type

-- The two output parameters.
pub record Disposition : Type 0 where
  pub name : Bytes
  pub filename : Bytes

-- The result says whether there is a name.
unfoldable pub parse_content_disposition : Bytes → Disposition × Bool
parse_content_disposition header =
    if is_empty header
    then (record { name = []; filename = [] }, false)
    else (let name = param_value (codes "name=") header in
        (
          record { name = name; filename = param_value (codes "filename=") header },
          not (is_empty name),
        ))

unfoldable pub extract_quoted_value : Bytes → Bytes
extract_quoted_value value =
    let trimmed = trim value in
    if leb 2 (length trimmed) && (char_is b'"' trimmed 0 && ends_in b'"' trimmed)
    then substr trimmed 1 (length trimmed - 2)
    else trimmed

header_tests :
    (trim (codes "  a b\r\n") ≡ codes "a b")
    × (extract_boundary (codes "multipart/form-data; boundary=\"x y\"; z") ≡ codes "x y")
    × (extract_boundary (codes "multipart/form-data; boundary= xy ;z") ≡ codes "xy")
    × (extract_quoted_value (codes " \"q\" ") ≡ codes "q")
unfolding trim extract_boundary param_value value_at extract_quoted_value find find_where
    find_last_where ends_in
header_tests = (refl, refl, refl, refl)
