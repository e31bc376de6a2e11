-- ===== src/Tests/Services.antt =====
-- The handler of short URLs and of uploads, on the engine and the disk in memory.
use bit_link.Prelude.{◌≡◌, ◌≢◌, refl, [], ◌∷◌, Option, none, some, true, false, arith}
use bit_link.Str.{
  Bytes, codes, starts_with, str_eq, find, find_where, find_last_where, ends_in, lower, str_lt,
  to_lower,
}
use bit_link.StrMap.{get, put}
use bit_link.HttpParser.Header.{
  extract_boundary, param_value, value_at, trim, parse_content_disposition,
}
use bit_link.HttpParser.Multipart.{
  MultipartFile, parse_multipart_form, read_parts, find_headers_end, skip_crlf, find_next_boundary,
  read_part, store_part, content_type_of, disposition_of, line_at, strip_newline,
}
use bit_link.Service.Url.{ShortenResult}
use bit_link.Service.FileUpload.{UploadResult}
use bit_link.Database.Sqlite.Interface
use bit_link.Database.Sqlite.Tables.{find_link}
use bit_link.Http.Request.{Request, get_header, find_header}
use bit_link.Handlers.UrlShortener.{Settings, App, shorten_answer, upload_answer, handle_request}
use bit_link.Handlers.UrlShortener.Answers.{extract_uploaded_file}
use bit_link.Handlers.UrlShortener.PageForm.{url_form}
use bit_link.Handlers.UrlShortener.Shorten.{Follows, handle_request-Follows}
use bit_link.Handlers.UrlShortener.Upload.{Downloads, handle_request-Downloads}
use bit_link.Handlers.UrlShortener.Headers.{Unbroken}
use bit_link.Handlers.UrlShortener.Safety.{IsSafeOutcome, handle_request-IsSafe}
use bit_link.Tests.Links.{Memory, memory_engine, memory_engine-Answers, memory_db, no_links}
use bit_link.Tests.Codes.{counter, stored, links, no_qr, base}
use bit_link.Tests.Uploads.{memory_disk, memory_disk-IsDisk, up}

abbrev settings : Settings
settings = record {
  serving_path = codes "/";
  upload_dir = up;
  db_path = codes "db";
  base_url = base;
}

abbrev Service : Type 0
Service = App memory_db memory_disk counter no_qr no_qr settings

abbrev running : Service
running = record { initialized = true; links = no_links; files = []; draws = 0 }

abbrev request : Bytes → Bytes → Bytes → Request
request method uri body = record {
  raw_request = [];
  method = method;
  uri = uri;
  version = codes "HTTP/1.1";
  headers = [];
  body = body;
}

abbrev post_url : Request
post_url = request (codes "POST") (codes "/shorten") (url_form (codes "x.org"))

abbrev follow : Request
follow = request (codes "GET") [] []

exists_always : (code : Bytes) (s : Memory) → memory_db.code_exists code s ≢ none
exists_always code s e = cc

apart : starts_with (codes "/r/") (codes "/") ≡ false
unfolding starts_with
apart = refl

apart_file : starts_with (codes "/f/") (codes "/") ≡ false
unfolding starts_with
apart_file = refl

handle_request-Follows_example :
    (a' : Service) × (result : ShortenResult) × (handle_request memory_db memory_disk counter no_qr
        no_qr settings post_url running
      ≡ (a', shorten_answer result))
    × Follows memory_db memory_disk counter no_qr no_qr settings stored
        (Interface.Answers memory_engine)
        links
        (codes "x.org")
        follow
        running
        a'
        result
handle_request-Follows_example =
    handle_request-Follows memory_db memory_disk counter no_qr no_qr settings stored
      (Interface.Answers memory_engine) links (codes "x.org") post_url follow running refl (λ e. cc)
      apart memory_engine-Answers exists_always (omega arith) refl refl refl refl

abbrev upload_body : Bytes
upload_body =
    codes
      "--B\r\nContent-Disposition: form-data; name=\"file\"; filename=\"a.txt\"\r\n\r\nhi\r\n--B--\r\n"

abbrev post_file : Request
post_file = record (request (codes "POST") (codes "/upload") upload_body) {
  headers = (codes "Content-Type", codes "multipart/form-data; boundary=B") ∷ [];
}

abbrev sent_file : MultipartFile
sent_file = record { filename = codes "a.txt"; content_type = []; contents = codes "hi" }

extract_run : extract_uploaded_file post_file ≡ some sent_file
unfolding extract_uploaded_file extract_boundary get_header get str_eq param_value find value_at
    trim find_where find_last_where parse_multipart_form read_parts find_headers_end skip_crlf
    find_next_boundary read_part store_part find_header parse_content_disposition content_type_of
    disposition_of line_at strip_newline ends_in lower starts_with str_lt to_lower put
extract_run = refl

handle_request-Downloads_example :
    (a' : Service) × (result : UploadResult) × (handle_request memory_db memory_disk counter no_qr
        no_qr settings post_file running
      ≡ (a', upload_answer result))
    × Downloads memory_db memory_disk counter no_qr no_qr settings stored
        (Interface.Answers memory_engine)
        links
        get
        memory_disk-IsDisk
        (omega arith)
        sent_file
        follow
        running
        a'
        result
handle_request-Downloads_example =
    handle_request-Downloads memory_db memory_disk counter no_qr no_qr settings stored
      (Interface.Answers memory_engine) links get memory_disk-IsDisk (omega arith) sent_file
      post_file follow running refl (λ e. cc) apart_file memory_engine-Answers refl refl extract_run

no_links-IsSafe : (j d k : Bytes) → stored j no_links ≡ some (d, k) → Unbroken d
unfolding find_link
no_links-IsSafe j d k e = absurd (none_there e)
  where
    none_there : {q : Bytes × Bytes} → ◌≡◌ {A = Option (Bytes × Bytes)} none (some q) → ⊥
    none_there e = cc

handle_request-IsSafe_example :
    IsSafeOutcome memory_db memory_disk counter no_qr no_qr settings stored
      (Interface.Answers memory_engine)
      links
      get
      memory_disk-IsDisk
      (omega arith)
      (omega arith)
      (handle_request memory_db memory_disk counter no_qr no_qr settings post_url running)
handle_request-IsSafe_example =
    handle_request-IsSafe memory_db memory_disk counter no_qr no_qr settings stored
      (Interface.Answers memory_engine) links get memory_disk-IsDisk (omega arith) (omega arith)
      running no_links-IsSafe post_url refl
