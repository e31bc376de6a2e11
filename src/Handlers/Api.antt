-- ===== src/Handlers/Api.antt =====
-- src/handlers/api_handler.cc: `ApiHandler`, with the operations on files behind their interface.
pub mod Search
pub mod Laws
use bit_link.Prelude.{
  ℕ, zero, suc, ◌+◌, ◌≡◌, refl, List, [], ◌∷◌, ◌++◌, Option, none, some, Bool, true, false, not,
  ◌&&◌, ◌||◌, ltb, leb, if◌then◌else◌, length, drop, take, ◌==◌,
}
use bit_link.Str.{Bytes, codes, is_empty, str_eq, starts_with, ends_in, pop_back, find_last_char}
use bit_link.Str.Number.{pos, to_string}
use bit_link.SlugGenerator.{Result, returns, invalid_argument}
use bit_link.Http.Request.{Request}
use bit_link.Http.Response.{
  StatusCode, okay, created, forbidden, not_found, internal_server_error, Response, new_response,
  set_status, set_header, set_body,
}
use bit_link.Handlers.FileSystem.{FileSystem}

pub record ApiHandler : Type 0 where
  pub serving_path : Bytes
  pub root_directory : Bytes

abbrev pub begins_with_slash : Bytes → Bool
begins_with_slash [] = false
begins_with_slash (c ∷ s) = c == b'/'

-- Without the slash at the end, unless it is all there is.
abbrev pub without_last_slash : Bytes → Bytes
without_last_slash path = if ltb 1 (length path) && ends_in b'/' path then pop_back path else path

-- The constructor.
unfoldable pub new_api_handler : Bytes → Bytes → Result ApiHandler
new_api_handler serving_path root_directory =
    if is_empty serving_path || not (begins_with_slash serving_path)
    then invalid_argument
        (codes "ApiHandler serving_path must start with '/'. Path: " ++ serving_path)
    else returns
        (record { serving_path = without_last_slash serving_path; root_directory = root_directory })

-- The factory, where the handler's file system is a `RealFileSystem`.
unfoldable pub create : List Bytes → Result ApiHandler
create (serving_path ∷ root_directory ∷ []) =
    if is_empty serving_path
    then invalid_argument (codes "ApiHandler serving_path cannot be empty")
    else if is_empty root_directory
    then invalid_argument (codes "ApiHandler root_directory cannot be empty")
    else new_api_handler serving_path root_directory
create args = invalid_argument (
    codes "ApiHandler factory requires 2 arguments: serving_path and root_directory. Got "
    ++ to_string (pos (length args)))

unfoldable pub answer : StatusCode → Bytes → Bytes → Response
answer status kind body =
    set_body body (set_header (codes "Content-Type") kind (set_status status new_response))

abbrev pub html : StatusCode → Bytes → Response
html status body = answer status (codes "text/html") body

abbrev pub forbidden_page : Response
forbidden_page = html forbidden (
    codes
      "<html><body><h1>403 Forbidden</h1><p>You may only access subdirectories of the /api directory.</p><p>For example: /api/Shoes</p></body></html>")

abbrev pub missing_page : Response
missing_page = html not_found (
    codes
      "<html><body><h1>404 Not Found</h1><p>The requested file could not be found.</p></body></html>")

abbrev pub server_error_page : Bytes → Response
server_error_page message = html internal_server_error (
    codes "<html><body><h1>500 Internal Server Error</h1><p>"
    ++ (message ++ codes "</p></body></html>"))

abbrev pub done_page : Bytes → Response
done_page message =
    html okay (codes "<html><body><h1>200 OK</h1><p>" ++ (message ++ codes "</p></body></html>"))

abbrev pub id_path : Bytes → ℕ → Bytes
id_path base_file_path id = base_file_path ++ (codes "/" ++ to_string (pos id))

module _ (fs : FileSystem) (h : ApiHandler) where
  open fs use {State}

  abbrev pub base_path : Bytes → Bytes
  base_path request_uri = h.root_directory ++ (codes "/" ++ drop 5 request_uri)

  -- The search for an id that is free; `none` where the fuel has run out.
  unfoldable pub free_id : ℕ → Bytes → ℕ → State → Option ℕ
  free_id zero base_file_path id s = none
  free_id (suc fuel) base_file_path id s =
      let later = free_id fuel base_file_path (id + 1) s in
      if fs.exists (id_path base_file_path id) s then later else some id

  unfoldable pub handle_post : ℕ → Bytes → Bytes → State → Option (State × Response)
  handle_post fuel base_file_path body s = elim (free_id fuel base_file_path 1 s) [
    | none ↦ none
    | some id ↦ some (
      fs.overwrite_file (id_path base_file_path id) body s,
      html created (codes "{\"id\": " ++ (to_string (pos id) ++ codes "}")),
    )
  ]

  unfoldable pub handle_put : Bytes → Bytes → State → State × Response
  handle_put base_file_path body s =
      if not (fs.exists base_file_path s)
      then (s, missing_page)
      else (fs.overwrite_file base_file_path body s, done_page (codes "File updated successfully."))

  unfoldable pub handle_get : Bytes → State → Response
  handle_get base_file_path s =
      if not (fs.exists base_file_path s)
      then missing_page
      else if fs.is_directory base_file_path s
      then answer okay (codes "application/json") (fs.get_json_list_of_dir base_file_path s)
      else if fs.is_regular_file base_file_path s
      then elim (fs.read_file base_file_path s) [
        | none ↦ server_error_page (codes "Error reading file.")
        | some content ↦ answer okay (codes "application/json") content
      ]
      else server_error_page (codes "Unsupported file type.")

  unfoldable pub handle_delete : Bytes → State → State × Response
  handle_delete base_file_path s =
      let (s', removed) = fs.remove base_file_path s in
      if not (fs.exists base_file_path s)
      then (s, missing_page)
      else if not (fs.is_regular_file base_file_path s)
      then (s, server_error_page (codes "File is not a regular file and cannot be deleted."))
      else if not removed
      then (s', server_error_page (codes "Error deleting file."))
      else (s', done_page (codes "File deleted successfully."))

  unfoldable pub unfinished_page : Response
  unfinished_page = html okay (
      codes "<html><body><h1>ApiHandler is not yet fully implemented</h1><p>Serving path is: "
      ++ (h.serving_path
          ++ (codes "Root directory is: " ++ (h.root_directory ++ codes "</p></body></html>"))))

  -- `none` where the search for an id has run out of fuel.
  unfoldable pub handle_request : ℕ → Request → State → Option (State × Response)
  handle_request fuel req s =
      let base_file_path = base_path req.uri in
      if leb (length req.uri) 5 || not (str_eq (take 5 req.uri) (codes "/api/"))
      then some (s, forbidden_page)
      else if str_eq req.method (codes "POST")
      then handle_post fuel base_file_path req.body s
      else if str_eq req.method (codes "PUT")
      then some (handle_put base_file_path req.body s)
      else if str_eq req.method (codes "GET")
      then some (s, handle_get base_file_path s)
      else if str_eq req.method (codes "DELETE")
      then some (handle_delete base_file_path s)
      else some (s, unfinished_page)
