-- ===== src/Tests/Requests.antt =====
-- Requests at concrete inputs.
use bit_link.Prelude.{◌≡◌, refl, List, [], ◌∷◌, ◌++◌, some, length, arith}
use bit_link.Str.{Bytes, codes, find, starts_with}
use bit_link.StrMap.{StrMap}
use bit_link.Dispatch.Registry.{Factory}
use bit_link.Http.Request.{Request, parse_request}
use bit_link.Http.Request.Body.{without_newline}
use bit_link.Http.Request.RoundTrip.{write_request, put_all, parse_request-write_request}
use bit_link.Http.Response.{Response}
use bit_link.Http.Session.{check_size, complete}
use bit_link.Http.Session.Pieces.{IsWhole, read_all-IsWhole}
use bit_link.Http.Session.Length.{check_size_last}

abbrev host : List (Bytes × Bytes)
host = (codes "Host", codes "b.li") ∷ (codes "Accept", []) ∷ []

parse_request-write_request_example :
    let raw =
      write_request (codes "POST") (codes "/shorten") (codes "HTTP/1.1") host (codes "url=x") in
    parse_request raw ≡ record {
      raw_request = raw;
      method = codes "POST";
      uri = codes "/shorten";
      version = codes "HTTP/1.1";
      headers = put_all [] host;
      body = without_newline (codes "url=x");
    }
parse_request-write_request_example =
    parse_request-write_request (codes "POST") (codes "/shorten") (codes "HTTP/1.1") host
      (codes "url=x") (ground arith) (ground arith) (ground arith) (refl, refl)
      (
        (ground arith, ground arith, ground arith, refl),
        ((ground arith, ground arith, ground arith, tt), tt),
      )

abbrev no_factories : StrMap (Factory (Request → Response))
no_factories = []

read_all-IsWhole_example :
    IsWhole [] no_factories [] (codes "GET / HT" ∷ codes "TP/1.1\r\n" ∷ codes "\r\n" ∷ [])
read_all-IsWhole_example =
    read_all-IsWhole [] no_factories [] (codes "GET / HT") (codes "TP/1.1\r\n" ∷ codes "\r\n" ∷ [])

found_run :
    find
      (codes "Content-Length:")
      (codes "POST / HTTP/1.1\r\n" ++ (codes "Content-Length:" ++ codes " 5"))
    ≡ some (length (codes "POST / HTTP/1.1\r\n"))
unfolding find starts_with
found_run = refl

check_size_last_example :
    let headers = codes "POST / HTTP/1.1\r\n" ++ (codes "Content-Length:" ++ codes " 5") in
    check_size (length headers) (headers ++ (codes "\r\n\r\n" ++ codes "url=x"))
    ≡ complete (headers ++ codes "\r\n\r\n")
check_size_last_example =
    check_size_last (codes "POST / HTTP/1.1\r\n") (codes " 5") (codes "url=x") found_run
      (ground arith) (omega arith)
