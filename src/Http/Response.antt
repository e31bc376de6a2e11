-- ===== src/Http/Response.antt =====
-- src/response.cc, include/response.h: `Response`.
use bit_link.Prelude.{[], ◌∷◌, ◌++◌, none, some, length}
use bit_link.Str.{Bytes, codes}
use bit_link.Str.Number.{pos}
use bit_link.Str.Number
use bit_link.StrMap.{StrMap, get, put}

-- `okay` is OK.
pub data StatusCode : Type 0 where
  okay created no_content found bad_request unauthorized forbidden not_found method_not_allowed
        internal_server_error not_implemented service_unavailable :
      StatusCode

pub record Response : Type 0 where
  pub status : StatusCode
  pub headers : StrMap Bytes
  pub body : Bytes

abbrev pub status_to_string : StatusCode → Bytes
status_to_string okay = codes "200 OK"
status_to_string created = codes "201 Created"
status_to_string no_content = codes "204 No Content"
status_to_string found = codes "302 Found"
status_to_string bad_request = codes "400 Bad Request"
status_to_string unauthorized = codes "401 Unauthorized"
status_to_string forbidden = codes "403 Forbidden"
status_to_string not_found = codes "404 Not Found"
status_to_string method_not_allowed = codes "405 Method Not Allowed"
status_to_string internal_server_error = codes "500 Internal Server Error"
status_to_string not_implemented = codes "501 Not Implemented"
status_to_string service_unavailable = codes "503 Service Unavailable"

-- The constructor.
abbrev pub new_response : Response
new_response = record { status = okay; headers = []; body = [] }

unfoldable pub set_status : StatusCode → Response → Response
set_status status r = record r { status = status }

unfoldable pub set_header : Bytes → Bytes → Response → Response
set_header name v r = record r { headers = put name v r.headers }

unfoldable pub set_body : Bytes → Response → Response
unfolding set_header
set_body body r =
    set_header (codes "Content-Length") (Number.to_string (pos (length body)))
      (record r { body = body })

unfoldable pub show_headers : StrMap Bytes → Bytes
show_headers [] = []
show_headers ((name, v) ∷ headers) =
    name ++ (codes ": " ++ (v ++ (codes "\r\n" ++ show_headers headers)))

-- The headers with the length of the body, if it is not among them.
unfoldable pub with_length : Response → StrMap Bytes
with_length r = elim (get (codes "Content-Length") r.headers) [
  | some v ↦ r.headers
  | none ↦ put (codes "Content-Length") (Number.to_string (pos (length r.body))) r.headers
]

unfoldable pub to_string : Response → Bytes
unfolding show_headers with_length
to_string r =
    codes "HTTP/1.1 "
    ++ (status_to_string r.status
        ++ (codes "\r\n" ++ (show_headers (with_length r) ++ (codes "\r\n" ++ r.body))))
