-- ===== src/Http/Session.antt =====
-- src/session.cc, include/session.h: `session`. The calls of sockets are the actions that a
-- handler of events asks for.
pub mod Pieces
pub mod Length
use bit_link.Prelude.{
  ℕ, zero, suc, ◌+◌, ◌-◌, ◌*◌, ◌/◌, ◌%◌, ◌<◌, ◌≤◌, ◌≡◌, ◌≢◌, ◌↔◌, ◌⊎◌, inl, inr, refl, sym, ap, ◌∙◌,
  subst, List, [], ◌∷◌, ◌++◌, Option, none, some, Bool, true, false, not, ◌&&◌, ◌||◌, ltb, leb,
  ◌==◌, ==_iff, if◌then◌else◌, length, take, drop, get_elem?, All, All-append, length-append,
  append_assoc, append-nil, arith, Bool-cases, Option-cases, if_both, option_both,
}
use bit_link.Prelude.{◌^◌}
use bit_link.Str.{
  Bytes, codes, is_empty, contains, find, find_char, find_from, find_where, find_last_where,
  starts_with, or_end, substr, one_of,
}
use bit_link.Str.Number.{stoul}
use bit_link.StrMap.{StrMap}
use bit_link.Dispatch.Registry.{Factory}
use bit_link.Dispatch.Dispatcher.{Registration, create_handler_for_request}
use bit_link.Http.Request.{Request, parse_request}
use bit_link.Http.Response.{
  Response, StatusCode, bad_request, not_found, new_response, set_status, set_header, set_body,
}
use bit_link.Http.Response

unfoldable pub is_valid_http_request : Bytes → Bool
is_valid_http_request request_data =
    if is_empty request_data
    then false
    else if not (contains (codes "HTTP/") request_data)
    then false
    else if not (contains (codes "\r\n") request_data) && not (contains (codes "\n") request_data)
    then false
    else starts_with (codes "GET ") request_data
      || starts_with (codes "POST ") request_data
      || starts_with (codes "PUT ") request_data
      || starts_with (codes "DELETE ") request_data

-- The position of the empty line behind the headers.
unfoldable pub find_header_end : Bytes → Option ℕ
find_header_end request_data = elim (find (codes "\r\n\r\n") request_data) [
  | some i ↦ some i
  | none ↦ find (codes "\n\n") request_data
]

unfoldable pub has_bad_first_line : Bytes → Bool
has_bad_first_line request_data =
    let first_line = take (or_end request_data (find_char 10 request_data)) request_data in
    contains (codes "HTTP/") request_data
    && not (is_valid_http_request (first_line ++ codes " HTTP/1.1\r\n\r\n"))

abbrev pub is_blank : ℕ → Bool
is_blank c = one_of (codes " \t\r") c

-- erase up to the first byte that is not blank, and behind the last one
unfoldable pub trim_blanks : Bytes → Bytes
trim_blanks s =
    let front = drop (or_end s (find_where (λ c. not (is_blank c)) s)) s in
    elim (find_last_where (λ c. not (is_blank c)) front) [ none ↦ [] | some i ↦ take (i + 1) front ]

-- The number in the header at this place; `none` is an exception of stoul.
unfoldable pub length_at : Bytes → ℕ → Option ℕ
length_at headers cl_pos =
    let cl_start = or_end headers (find_from (find_char b':') headers cl_pos) + 1 in
    elim (find_from (find_char 10) headers cl_start) [
      | none ↦ some 0
      | some cl_end ↦ stoul (trim_blanks (substr headers cl_start (cl_end - cl_start)))
    ]

unfoldable pub content_length : Bytes → Option ℕ
content_length headers = elim (find (codes "Content-Length:") headers) [
  | some cl_pos ↦ length_at headers cl_pos
  | none ↦ elim (find (codes "content-length:") headers) [
    | some cl_pos ↦ length_at headers cl_pos
    | none ↦ some 0
  ]
]

abbrev pub separator_length : Bytes → ℕ
separator_length request_data = if contains (codes "\r\n\r\n") request_data then 4 else 2

-- A sum of `size_t`.
unfoldable pub expected_total_size : ℕ → ℕ → Bytes → ℕ
expected_total_size header_end content_length request_data =
    (header_end + separator_length request_data + content_length) % 2 ^ 64

-- What is asked of the socket, or the end of the session.
pub data Action : Type 0 where
  reads : Action
  writes : Bytes → Action
  deletes : Action
  throws : Action

-- A text to go on reading at, a complete request, or an exception.
pub data Progress : Type 0 where
  incomplete : Progress
  complete : Bytes → Progress
  failed : Progress

-- With the headers complete.
unfoldable pub check_size : ℕ → Bytes → Progress
check_size header_end request_data = elim (content_length (take header_end request_data)) [
  | none ↦ failed
  | some n ↦
      let expected = expected_total_size header_end n request_data in
      if leb expected (length request_data)
      then complete (take expected request_data)
      else incomplete
]

abbrev pub bad_request_body : Bytes
bad_request_body = codes "{\"error\": \"Bad Request\", \"message\": \"Malformed HTTP request\"}"

abbrev pub not_found_body : Bytes
not_found_body =
    codes
      "<html><body><h1>404 Not Found</h1><p>The requested file could not be found.</p></body></html>"

unfoldable pub bad_request_response : Response
bad_request_response = set_body bad_request_body (
    set_header (codes "Content-Type") (codes "application/json")
      (set_status bad_request new_response))

unfoldable pub no_handler_response : Response
no_handler_response = set_header (codes "Connection") (codes "close") (
    set_body not_found_body
      (set_header (codes "Content-Type") (codes "text/html") (set_status not_found new_response)))

module _ (registrations : StrMap Registration)
    (registry : StrMap (Factory (Request → Response))) where
  unfoldable pub respond : Bytes → Response
  respond request_data =
      let request = parse_request request_data in
      elim (create_handler_for_request request.uri registrations registry) [
        | none ↦ no_handler_response
        | some handle_request ↦ handle_request request
      ]

  unfoldable pub process : Bytes → Progress → Bytes × Action
  process request_data incomplete = (request_data, reads)
  process request_data failed = (request_data, throws)
  process request_data (complete request) = (request, writes (Response.to_string (respond request)))

  -- With all the data that has arrived.
  unfoldable pub handle_data : Bytes → Bytes × Action
  handle_data request_data = elim (find_header_end request_data) [
    | none ↦ (request_data, reads)
    | some header_end ↦
        if has_bad_first_line request_data
        then (request_data, writes (Response.to_string bad_request_response))
        else process request_data (check_size header_end request_data)
  ]

  -- `none` is an error of the socket. The state is `request_data`.
  unfoldable pub handle_read : Option Bytes → Bytes → Bytes × Action
  handle_read none request_data = (request_data, deletes)
  handle_read (some new_data) request_data = handle_data (request_data ++ new_data)

  unfoldable pub handle_write : Bool → Bytes → Bytes × Action
  handle_write true request_data = (request_data, deletes)
  handle_write false request_data = ([], reads)
