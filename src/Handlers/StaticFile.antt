-- ===== src/Handlers/StaticFile.antt =====
-- src/handlers/static_file_handler.cc: `StaticFileHandler`. std::filesystem and the reading of a
-- file are parameters.
pub mod Laws
use bit_link.Prelude.{
  ◌+◌, ◌≡◌, List, [], ◌∷◌, ◌++◌, Option, none, some, Bool, true, false, not, ◌&&◌, ◌||◌, ltb, ◌==◌,
  if◌then◌else◌, length, drop,
}
use bit_link.Str.{Bytes, codes, is_empty, str_eq, starts_with, ends_in, pop_back}
use bit_link.Str.Number.{pos, to_string}
use bit_link.SlugGenerator.{Result, returns, invalid_argument}
use bit_link.Http.Request.{Request}
use bit_link.Http.Response.{
  StatusCode, okay, forbidden, not_found, internal_server_error, Response, new_response, set_status,
  set_header, set_body,
}
use bit_link.Handlers.MimeTypes.{get_mime_type_of}

-- root / relative, weakly_canonical, and the content of a file that can be opened.
pub record Tree : Type 0 where
  pub join : Bytes → Bytes → Bytes
  pub weakly_canonical : Bytes → Bytes
  pub open_file : Bytes → Option Bytes

pub record StaticFileHandler : Type 0 where
  pub serving_path : Bytes
  pub root_directory : Bytes

-- The constructor.
unfoldable pub new_static_file_handler : Bytes → Bytes → Result StaticFileHandler
new_static_file_handler serving_path root_directory =
    if not (starts_with (codes "/") serving_path)
    then invalid_argument
        (codes "StaticFileHandler serving_path must start with '/'. Path: " ++ serving_path)
    else returns (record {
      serving_path =
          if ltb 1 (length serving_path) && ends_in b'/' serving_path
          then pop_back serving_path
          else serving_path;
      root_directory = root_directory;
    })

-- The factory.
unfoldable pub create : List Bytes → Result StaticFileHandler
create (serving_path ∷ root_directory ∷ []) =
    if is_empty serving_path
    then invalid_argument (codes "StaticFileHandler serving_path cannot be empty")
    else if is_empty root_directory
    then invalid_argument (codes "StaticFileHandler root_directory cannot be empty")
    else new_static_file_handler serving_path root_directory
create args = invalid_argument (
    codes "StaticFileHandler factory requires 2 arguments: serving_path and root_directory. Got "
    ++ to_string (pos (length args)))

unfoldable pub page : StatusCode → Bytes → Response
page status body =
    set_body body
      (set_header (codes "Content-Type") (codes "text/html") (set_status status new_response))

abbrev pub missing_page : Response
missing_page = page not_found (
    codes
      "<html><body><h1>404 Not Found</h1><p>The requested file could not be found.</p></body></html>")

abbrev pub method_page : Response
method_page = page not_found (codes "<html><body><h1>405 Method Not Allowed</h1></body></html>")

abbrev pub mismatch_page : Response
mismatch_page =
    page internal_server_error
      (codes "<html><body><h1>500 Internal Server Error</h1><p>URI mismatch.</p></body></html>")

abbrev pub forbidden_page : Response
forbidden_page = page forbidden (
    codes
      "<html><body><h1>403 Forbidden</h1><p>Requested resource is outside the allowed directory.</p></body></html>")

abbrev pub with_index : Bytes → Bytes
with_index path = if is_empty path || ends_in b'/' path then path ++ codes "index.html" else path

-- The path below the root, for a request below the serving path.
unfoldable pub relative_path : StaticFileHandler → Bytes → Bytes
relative_path h request_uri = with_index (
    if length request_uri == length h.serving_path
      || (str_eq h.serving_path (codes "/") && length request_uri == 1)
    then codes "index.html"
    else if str_eq h.serving_path (codes "/")
    then drop 1 request_uri
    else drop (length h.serving_path + 1) request_uri)

module _ (fs : Tree) (h : StaticFileHandler) where
  unfoldable pub file_answer : Bytes → Response
  file_answer full_file_path = elim (fs.open_file full_file_path) [
    | none ↦ missing_page
    | some content ↦ set_body content (
        set_header (codes "Content-Type") (get_mime_type_of full_file_path)
          (set_status okay new_response))
  ]

  unfoldable pub handle_request : Request → Response
  handle_request req =
      let full_file_path = fs.join h.root_directory (relative_path h req.uri) in
      if not (str_eq req.method (codes "GET"))
      then method_page
      else if not (starts_with h.serving_path req.uri)
      then mismatch_page
      else if not
          (starts_with (fs.weakly_canonical h.root_directory) (fs.weakly_canonical full_file_path))
      then forbidden_page
      else file_answer full_file_path
