-- ===== src/Handlers/Simple.antt =====
-- src/handlers/echo_handler.cc, src/handlers/health_handler.cc, include/handlers/not_found_handler.h
-- and include/handlers/sleep_handler.h: the handlers without state. The pause of three seconds is
-- not modelled.
use bit_link.Prelude.{[], ◌∷◌, List, not, if◌then◌else◌}
use bit_link.Str.{Bytes, codes, str_eq}
use bit_link.SlugGenerator.{Result, returns, invalid_argument}
use bit_link.Http.Request.{Request}
use bit_link.Http.Response.{
  StatusCode, okay, bad_request, not_found, Response, new_response, set_status, set_header,
  set_body,
}

pub data SimpleHandler : Type 0 where
  echo health missing sleep : SimpleHandler

unfoldable pub create_echo : List Bytes → Result SimpleHandler
create_echo [] = returns echo
create_echo (arg ∷ args) = invalid_argument (codes "EchoHandler expects no arguments.")

unfoldable pub create_health : List Bytes → Result SimpleHandler
create_health [] = returns health
create_health (arg ∷ args) = invalid_argument (codes "HealthHandler takes no arguments")

unfoldable pub create_not_found : List Bytes → Result SimpleHandler
create_not_found [] = returns missing
create_not_found (arg ∷ args) = invalid_argument (codes "NotFoundHandler expects no arguments.")

unfoldable pub create_sleep : List Bytes → Result SimpleHandler
create_sleep args = returns sleep

abbrev typed : StatusCode → Bytes → Bytes → Response
typed status kind body =
    set_body body (set_header (codes "Content-Type") kind (set_status status new_response))

unfoldable pub echo_request : Request → Response
echo_request req = typed okay (codes "text/plain") req.body

unfoldable pub health_request : Request → Response
health_request req =
    if not (str_eq req.method (codes "GET"))
    then typed bad_request (codes "application/json")
        (codes "{\"error\": \"Method not allowed\", \"allowed_methods\": [\"GET\"]}")
    else typed okay (codes "application/json") (
        codes
          "{\n  \"status\": \"healthy\",\n  \"server\": \"i-am-steve\",\n  \"version\": \"1.0.0\"\n}")

unfoldable pub not_found_request : Request → Response
not_found_request req = set_header (codes "Connection") (codes "close") (
    typed not_found (codes "text/html") (
      codes
        "<html><body><h1>404 Not Found</h1><p>The requested file could not be found.</p></body></html>"))

unfoldable pub sleep_request : Request → Response
sleep_request req = typed okay (codes "text/plain") (codes "Slept for 3 seconds\n")
