-- ===== src/Http/Request.antt =====
-- src/request.cc, include/request.h: `Request`.
pub mod Words
pub mod Body
pub mod RoundTrip
use bit_link.Prelude.{
  ℕ, zero, suc, ◌+◌, ◌-◌, ◌*◌, ◌/◌, ◌%◌, ◌<◌, ◌≤◌, ◌≡◌, ◌≢◌, ◌↔◌, ◌⊎◌, inl, inr, refl, sym, ap, ◌∙◌,
  subst, List, [], ◌∷◌, ◌++◌, Option, none, some, Bool, true, false, not, ◌&&◌, ◌||◌, ltb, leb,
  ◌==◌, ==_iff, if◌then◌else◌, length, take, drop, get_elem?, All, All-append, length-append,
  append_assoc, append-nil, arith, Bool-cases, Option-cases, if_both, option_both,
}
use bit_link.Str.{
  Bytes, codes, is_empty, ends_in, pop_back, getlines, find, find_char, find_where, or_end,
  is_space, str_eq, lower, starts_with,
}
use bit_link.Str.Number.{skip_spaces}
use bit_link.StrMap.{StrMap, get, put}

pub record Request : Type 0 where
  pub raw_request : Bytes
  pub method : Bytes
  pub uri : Bytes
  pub version : Bytes
  pub headers : StrMap Bytes
  pub body : Bytes

-- Without the carriage return at the end.
unfoldable pub strip_cr : Bytes → Bytes
strip_cr line = if ends_in 13 line then pop_back line else line

-- stream >> word: the word, and what is behind it.
unfoldable pub next_word : Bytes → Bytes × Bytes
next_word line =
    let rest = skip_spaces line in
    let n = or_end rest (find_where is_space rest) in (take n rest, drop n rest)

unfoldable pub add_header : Bytes → StrMap Bytes → StrMap Bytes
add_header line headers = elim (find_char b':' line) [
  | none ↦ headers
  | some colon_pos ↦ put (take colon_pos line) (skip_spaces (drop (colon_pos + 1) line)) headers
]

-- The headers up to an empty line, and the lines behind it.
unfoldable pub read_headers : StrMap Bytes → List Bytes → StrMap Bytes × List Bytes
read_headers headers [] = (headers, [])
read_headers headers (line ∷ lines) =
    let more = read_headers (add_header (strip_cr line) headers) lines in
    if is_empty line || is_empty (strip_cr line) then (headers, lines) else more

-- Each line with its newline.
unfoldable pub join_lines : List Bytes → Bytes
join_lines [] = []
join_lines (line ∷ lines) = line ++ (codes "\n" ++ join_lines lines)

unfoldable pub read_body : List Bytes → Bytes
read_body lines = let body = join_lines lines in if ends_in 10 body then pop_back body else body

unfoldable pub parse_lines : Bytes → List Bytes → Request
parse_lines raw [] = record {
  raw_request = raw;
  method = [];
  uri = [];
  version = [];
  headers = [];
  body = [];
}
parse_lines raw (line ∷ lines) =
    let (method, behind_method) = next_word (strip_cr line) in
    let (uri, behind_uri) = next_word behind_method in
    let (headers, rest) = read_headers [] lines in
    record {
      raw_request = raw;
      method = method;
      uri = uri;
      version = (next_word behind_uri).0;
      headers = headers;
      body = read_body rest;
    }

unfoldable pub parse_request : Bytes → Request
parse_request raw = parse_lines raw (getlines 10 raw)

-- The first header, in the order of the map, whose name is the same but for its case.
unfoldable pub find_header : Bytes → StrMap Bytes → Bytes
find_header lower_name [] = []
find_header lower_name ((header, v) ∷ headers) =
    let later = find_header lower_name headers in
    if str_eq (lower header) lower_name then v else later

unfoldable pub get_header : Bytes → Request → Bytes
get_header name r = elim (get name r.headers) [
  | some v ↦ v
  | none ↦ find_header (lower name) r.headers
]

-- Without a slash at the front.
abbrev pub relative : Bytes → Bytes
relative api_path = if starts_with (codes "/") api_path then drop 1 api_path else api_path

unfoldable pub get_file_path : Bytes → Request → Bytes
get_file_path api_path r = elim (find (relative api_path) r.uri) [
  | none ↦ []
  | some pos ↦ drop (pos + length (relative api_path)) r.uri
]
