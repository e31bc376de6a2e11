-- ===== src/Handlers/UrlShortener/Answers.antt =====
-- src/handlers/url_shortener_handler.cc: the answers, and what is read of a request.
use bit_link.Prelude.{
  [], ◌++◌, Option, none, some, false, not, ◌||◌, leb, ◌==◌, if◌then◌else◌, length, take, drop,
}
use bit_link.Str.{Bytes, codes, is_empty, str_eq, find_char, find_last_char}
use bit_link.Str.Number.{pos, to_string}
use bit_link.StrMap.{get}
use bit_link.JsonBuilder.{add_bool, add_string, build}
use bit_link.HttpParser.Header.{extract_boundary}
use bit_link.HttpParser.Multipart.{MultipartFile, parse_multipart_form}
use bit_link.FileValidator.Scan.{file_name}
use bit_link.Http.Request.{Request, get_header}
use bit_link.Http.Response.{
  StatusCode, okay, found, Response, new_response, set_status, set_header, set_body,
}

unfoldable pub create_json_response : Bytes → StatusCode → Response
create_json_response json status = set_body json (
    set_header (codes "Access-Control-Allow-Origin") (codes "*") (
      set_header (codes "Content-Type") (codes "application/json")
        (set_status status new_response)))

unfoldable pub create_error_response : Bytes → StatusCode → Response
create_error_response message status =
    create_json_response
      (build false
        (add_string (codes "error_message") message (add_bool (codes "success") false [])))
      status

unfoldable pub create_redirect_response : Bytes → Response
create_redirect_response url = set_body [] (
    set_header (codes "Cache-Control") (codes "no-cache")
      (set_header (codes "Location") url (set_status found new_response)))

-- path.extension(): from the last dot of the name on, unless the name begins with it.
abbrev pub path_extension : Bytes → Bytes
path_extension path =
    let name = file_name path in
    if str_eq name (codes "..")
    then []
    else elim (find_last_char b'.' name) [ none ↦ [] | some i ↦ if i == 0 then [] else drop i name ]

unfoldable pub content_type_of_extension : Bytes → Bytes
content_type_of_extension extension =
    if str_eq extension (codes ".txt")
    then codes "text/plain"
    else if str_eq extension (codes ".html")
    then codes "text/html"
    else if str_eq extension (codes ".css")
    then codes "text/css"
    else if str_eq extension (codes ".js")
    then codes "application/javascript"
    else if str_eq extension (codes ".json")
    then codes "application/json"
    else if str_eq extension (codes ".png")
    then codes "image/png"
    else if str_eq extension (codes ".jpg") || str_eq extension (codes ".jpeg")
    then codes "image/jpeg"
    else if str_eq extension (codes ".pdf")
    then codes "application/pdf"
    else codes "application/octet-stream"

-- The answer with a file's content.
unfoldable pub file_response : Bytes → Bytes → Response
file_response file_path content = set_body content (
    set_header (codes "Content-Disposition")
      (codes "attachment; filename=\"" ++ (file_name file_path ++ codes "\""))
      (set_header (codes "Content-Length") (to_string (pos (length content))) (
        set_header (codes "Content-Type") (content_type_of_extension (path_extension file_path))
          (set_status okay new_response))))

unfoldable pub extract_code_from_path : Bytes → Bytes → Bytes
extract_code_from_path path prefix =
    if leb (length path) (length prefix) then [] else drop (length prefix) path

unfoldable pub get_client_ip : Request → Bytes
get_client_ip req =
    let forwarded = get_header (codes "X-Forwarded-For") req in
    let real_ip = get_header (codes "X-Real-IP") req in
    if not (is_empty forwarded)
    then elim (find_char b',' forwarded) [ none ↦ forwarded | some comma ↦ take comma forwarded ]
    else if not (is_empty real_ip)
    then real_ip
    else codes "127.0.0.1"

unfoldable pub get_user_agent : Request → Bytes
get_user_agent req = get_header (codes "User-Agent") req

unfoldable pub get_referrer : Request → Bytes
get_referrer req = get_header (codes "Referer") req

-- The file of the form, in the field "file". Reading the form always ends.
unfoldable pub extract_uploaded_file : Request → Option MultipartFile
extract_uploaded_file req =
    let boundary = extract_boundary (get_header (codes "Content-Type") req) in
    if is_empty boundary then none else elim (parse_multipart_form req.body boundary) [
      | none ↦ none
      | some form ↦ get (codes "file") form.files
    ]
