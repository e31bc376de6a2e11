-- ===== src/Handlers/UrlShortener.antt =====
-- src/handlers/url_shortener_handler.cc: `URLShortenerHandler`. The two services have connections of
-- their own to one database file, whose state they share here. An exception that a handler catches
-- is `none` or `invalid_argument` of the service.
pub mod Text
pub mod MainPage
pub mod StatsPage
pub mod Answers
pub mod Routes
pub mod PageForm
pub mod Shorten
pub mod Upload
pub mod Headers
pub mod Safety
use bit_link.Prelude.{
  ℕ, zero, suc, ◌+◌, ◌-◌, ◌*◌, ◌/◌, ◌%◌, ◌<◌, ◌≤◌, ◌≡◌, ◌≢◌, ◌↔◌, ◌⊎◌, inl, inr, refl, sym, ap, ◌∙◌,
  subst, List, [], ◌∷◌, ◌++◌, Option, none, some, Bool, true, false, not, ◌&&◌, ◌||◌, ltb, leb,
  ◌==◌, ==_iff, if◌then◌else◌, length, take, drop, get_elem?, All, All-append, length-append,
  append_assoc, append-nil, arith, Bool-cases, Option-cases, if_both, option_both,
}
use bit_link.Str.{Bytes, codes, is_empty, str_eq, contains, starts_with, ends_in, pop_back}
use bit_link.Str.Number.{ℤ, pos}
use bit_link.StrMap.{StrMap, get}
use bit_link.Models.{ClickStats}
use bit_link.Database.{Database}
use bit_link.SlugGenerator.{Generator, Result, returns, invalid_argument}
use bit_link.JsonBuilder.{
  Builder, add_bool, add_string, add_int, add_string_array, add_int_array, build,
}
use bit_link.HttpParser.Form.{parse_form_data}
use bit_link.HttpParser.Multipart.{MultipartFile}
use bit_link.Service.Privacy.{clean_base}
use bit_link.Service.Url.{ShortenResult, shorten_url, resolve_code, record_access, get_statistics}
use bit_link.Service.FileUpload.{
  Reading, loaded, closed, broken, Disk, UploadResult, ensure_upload_directory_exists, upload_file,
  get_file_path, record_file_access,
}
use bit_link.Http.Request.{Request, get_header}
use bit_link.Http.Response.{
  StatusCode, okay, bad_request, not_found, method_not_allowed, internal_server_error, Response,
  new_response, set_status, set_header, set_body,
}
use bit_link.Handlers.UrlShortener.MainPage.{main_page}
use bit_link.Handlers.UrlShortener.StatsPage.{stats_page}
use bit_link.Handlers.UrlShortener.Answers.{
  create_json_response, create_error_response, create_redirect_response, file_response,
  extract_code_from_path, get_client_ip, get_user_agent, get_referrer, extract_uploaded_file,
}

pub record Settings : Type 0 where
  pub serving_path : Bytes
  pub upload_dir : Bytes
  pub db_path : Bytes
  pub base_url : Bytes

-- The factory; `none` is a null pointer.
unfoldable pub create : List Bytes → Option Settings
create (serving_path ∷ upload_dir ∷ db_path ∷ base_url ∷ args) = some (record {
  serving_path = serving_path;
  upload_dir = upload_dir;
  db_path = db_path;
  base_url = base_url;
})
create args = none

unfoldable pub handle_main_page : Response
handle_main_page =
    set_body main_page
      (set_header (codes "Content-Type") (codes "text/html") (set_status okay new_response))

abbrev pub internal_error : Response
internal_error = create_error_response (codes "Internal server error") internal_server_error

-- What an exception while a file is served is answered by.
abbrev pub serving_error : Response
serving_error = create_error_response (codes "File serving error") internal_server_error

unfoldable pub read_answer : Bytes → Reading → Response
read_answer file_path (loaded content) = file_response file_path content
read_answer file_path closed =
    create_error_response (codes "Cannot read file") internal_server_error
read_answer file_path broken = serving_error

unfoldable pub shorten_answer : ShortenResult → Response
shorten_answer result =
    if not result.success
    then create_error_response result.error_message bad_request
    else create_json_response
        (build false (
          add_string (codes "qr_code") result.qr_code_data_url (
            add_string (codes "short_url") result.short_url
              (add_string (codes "code") result.code (add_bool (codes "success") true [])))))
        okay

unfoldable pub upload_answer : UploadResult → Response
upload_answer result =
    if not result.success
    then create_error_response result.error_message bad_request
    else create_json_response
        (build false (
          add_string (codes "qr_code") result.qr_code_data_url (
            add_string (codes "filename") result.original_filename (
              add_string (codes "short_url") result.short_url
                (add_string (codes "code") result.code (add_bool (codes "success") true []))))))
        okay

abbrev pub days_of : StrMap ℕ → List Bytes
days_of [] = []
days_of ((day, clicks) ∷ daily) = day ∷ days_of daily

abbrev pub counts_of : StrMap ℕ → List ℤ
counts_of [] = []
counts_of ((day, clicks) ∷ daily) = pos clicks ∷ counts_of daily

unfoldable pub stats_json : Bytes → ClickStats → Bytes
stats_json code stats = build false (
    add_int_array (codes "click_counts") (counts_of stats.daily_clicks) (
      add_string_array (codes "dates") (days_of stats.daily_clicks) (
        add_int (codes "total_clicks") (pos stats.total_clicks)
          (add_string (codes "code") code (add_bool (codes "success") true [])))))

unfoldable pub wants_json : Request → Bool
wants_json req =
    contains (codes "?raw=1") req.uri
    || contains (codes "application/json") (get_header (codes "Accept") req)

unfoldable pub stats_answer : Bytes → Request → ClickStats → Response
stats_answer code req stats =
    if wants_json req
    then create_json_response (stats_json code stats) okay
    else set_body (stats_page code stats)
        (set_header (codes "Content-Type") (codes "text/html") (set_status okay new_response))

module _ (db : Database) (disk : Disk) (r : Generator) (qr png : Bytes → Option Bytes)
    (h : Settings) where
  -- What the handler has and what it reaches: are the services there?
  pub record App : Type 0 where
    pub initialized : Bool
    pub links : db.State
    pub files : disk.State
    pub draws : r.State

  unfoldable pub initialize_services : App → App × Bool
  initialize_services a =
      let (first, url_db) = db.initialize h.db_path a.links in
      let (tables, created) = db.create_tables first in
      let (second, file_db) = db.initialize h.db_path tables in
      let (directories, _) = ensure_upload_directory_exists db disk h.upload_dir a.files in
      if a.initialized
      then (a, true)
      else if not url_db
      then (record a { links = first }, false)
      else if not created
      then (record a { links = tables }, false)
      else if not file_db
      then (record a { links = second }, false)
      else (record a { initialized = true; links = second; files = directories }, true)

  unfoldable pub shorten_form_url : Option Bytes → App → App × Response
  shorten_form_url none a = (a, create_error_response (codes "URL parameter required") bad_request)
  shorten_form_url (some url) a =
      if is_empty url
      then (a, create_error_response (codes "URL parameter required") bad_request)
      else elim (shorten_url db r qr h.base_url url a.links a.draws) [
        | invalid_argument message ↦ (a, internal_error)
        | returns ((links, result), draws) ↦
            (record a { links = links; draws = draws }, shorten_answer result)
      ]

  unfoldable pub handle_shorten_url : Request → App → App × Response
  handle_shorten_url req a =
      if not (str_eq req.method (codes "POST"))
      then (a, create_error_response (codes "Method not allowed") method_not_allowed)
      else shorten_form_url (get (codes "url") (parse_form_data req.body)) a

  unfoldable pub upload_form_file : Option MultipartFile → App → App × Response
  upload_form_file none a = (a, create_error_response (codes "No file uploaded") bad_request)
  upload_form_file (some file) a =
      elim (upload_file db disk h.upload_dir r qr h.base_url file.filename file.contents a.links
        a.files a.draws) [
          | invalid_argument message ↦ (a, internal_error)
          | returns (((links, files), result), draws) ↦
              (record a { links = links; files = files; draws = draws }, upload_answer result)
        ]

  unfoldable pub handle_upload_file : Request → App → App × Response
  handle_upload_file req a =
      if not (str_eq req.method (codes "POST"))
      then (a, create_error_response (codes "Method not allowed") method_not_allowed)
      else upload_form_file (extract_uploaded_file req) a

  unfoldable pub create_file_response : Bytes → disk.State → Response
  create_file_response file_path d = elim (disk.exists file_path d) [
    | none ↦ serving_error
    | some false ↦ create_error_response (codes "File not found") not_found
    | some true ↦ read_answer file_path (disk.read file_path d)
  ]

  -- A code of a URL: the access is recorded first.
  unfoldable pub redirect_to : Bytes → Bytes → Request → App → App × Response
  redirect_to code url req a =
      elim (record_access db r qr h.base_url code (get_client_ip req) (get_user_agent req)
        (get_referrer req) a.links) [
          | none ↦ (a, internal_error)
          | some (links, recorded) ↦ (record a { links = links }, create_redirect_response url)
        ]

  unfoldable pub redirect_file : Bytes → Request → App → App × Response
  redirect_file code req a = elim (get_file_path db disk h.upload_dir code a.links) [
    | none ↦ (a, create_error_response (codes "Code not found") not_found)
    | some file_path ↦
        let (links, recorded) =
          record_file_access db disk h.upload_dir code (get_client_ip req) (get_user_agent req)
            (get_referrer req) a.links in
        (record a { links = links }, create_file_response file_path a.files)
  ]

  unfoldable pub redirect_code : Bytes → Request → App → App × Response
  redirect_code code req a =
      if is_empty code
      then (a, create_error_response (codes "Invalid code") bad_request)
      else elim (resolve_code db r qr h.base_url code a.links) [
        | some url ↦ redirect_to code url req a
        | none ↦ redirect_file code req a
      ]

  unfoldable pub handle_redirect : Request → App → App × Response
  handle_redirect req a = redirect_code (extract_code_from_path req.uri (codes "/r/")) req a

  unfoldable pub handle_stats : Request → App → App × Response
  handle_stats req a =
      let code = extract_code_from_path req.uri (codes "/stats/") in
      if is_empty code
      then (a, create_error_response (codes "Invalid code") bad_request)
      else (a, stats_answer code req (get_statistics db r qr h.base_url code a.links))

  unfoldable pub handle_qr_code : Request → Response
  handle_qr_code req =
      let code = extract_code_from_path req.uri (codes "/qr/") in
      if is_empty code
      then create_error_response (codes "Invalid code") bad_request
      else elim (png (clean_base h.base_url ++ (codes "/r/" ++ code))) [
        | none ↦ create_error_response (codes "QR code generation failed") internal_server_error
        | some qr_png ↦ set_body qr_png (
            set_header (codes "Cache-Control") (codes "public, max-age=3600") (
              set_header (codes "Content-Type") (codes "image/png") (set_status okay new_response)))
      ]

  -- The route of a path and a method, with the services there.
  unfoldable pub route : Request → App → App × Response
  route req a =
      let path = req.uri in
      let posted = str_eq req.method (codes "POST") in
      let refused : App × Response =
        (a, create_error_response (codes "Method not allowed") method_not_allowed) in
      if str_eq path (codes "/") || str_eq path h.serving_path
      then (a, handle_main_page)
      else if str_eq path (codes "/shorten")
      then (if posted then handle_shorten_url req a else refused)
      else if str_eq path (codes "/upload")
      then (if posted then handle_upload_file req a else refused)
      else if starts_with (codes "/r/") path || starts_with (codes "/f/") path
      then handle_redirect req a
      else if starts_with (codes "/stats/") path
      then handle_stats req a
      else if starts_with (codes "/qr/") path
      then (a, handle_qr_code req)
      else (a, create_error_response (codes "Not Found") not_found)

  unfoldable pub handle_request : Request → App → App × Response
  handle_request req a =
      let (a', ready) = initialize_services a in
      if ready
      then route req a'
      else (a', create_error_response (codes "Service initialization failed") internal_server_error)
