-- ===== src/Handlers/UrlShortener/Safety.antt =====
-- src/handlers/url_shortener_handler.cc: no request breaks the lines of an answer's headers.
use bit_link.Prelude.{
  ◌≡◌, ◌≢◌, ◌⊎◌, inl, inr, refl, sym, ap, ◌∙◌, subst, Option, none, some, Bool, true, false, not,
  ◌||◌, arith, if◌then◌else◌, Bool-cases, Option-cases, if_both, option_both,
}
use bit_link.Prelude.{All-take}
use bit_link.Str.{Bytes, Lacks, codes, is_empty, starts_with, str_eq}
use bit_link.Str.Search.{str_eq_iff}
use bit_link.SlugGenerator.{Generator}
use bit_link.Database.{Database, IsLinkTable}
use bit_link.UrlValidator.Validate.Laws.{validate_and_normalize-IsAccepted}
use bit_link.FileValidator.Sanitize.{sanitize_filename}
use bit_link.FileValidator.Sanitize.Laws.{sanitize_filename-IsName}
use bit_link.HttpParser.Multipart.{MultipartFile}
use bit_link.Service.Url.{ShortenResult, resolve_code, record_access, get_statistics}
use bit_link.Service.Url.Shorten.{Shortened, shorten_url-Shortened}
use bit_link.Service.Url.Lifecycle.{record_access-stored}
use bit_link.Service.FileUpload.{
  Reading, loaded, closed, broken, Disk, UploadResult, subdirectory, path_in, get_file_metadata,
  get_file_path, record_file_access,
}
use bit_link.Service.FileUpload.Upload.{IsDisk, Uploaded, upload_file-Uploaded}
use bit_link.Http.Request.{Request}
use bit_link.Http.Response.{Response, StatusCode, method_not_allowed}
use bit_link.Handlers.UrlShortener.Answers.{
  create_error_response, extract_code_from_path, get_client_ip, get_user_agent, get_referrer,
}
use bit_link.Handlers.UrlShortener.{
  Settings, App, handle_main_page, shorten_answer, upload_answer, stats_answer, shorten_form_url,
  handle_shorten_url, upload_form_file, handle_upload_file, create_file_response, read_answer,
  redirect_to, redirect_file, redirect_code, handle_redirect, handle_stats, handle_qr_code, route,
  handle_request, wants_json,
}
use bit_link.Handlers.UrlShortener.Routes.{handle_request_ready}
use bit_link.Handlers.UrlShortener.Headers.{
  Unbroken, HasWholeLines, url-Unbroken, alnum-Unbroken, safe-Unbroken, append-Unbroken,
  json-HasWholeLines, error-HasWholeLines, redirect-HasWholeLines, file-HasWholeLines,
  page-HasWholeLines, image-HasWholeLines,
}

handle_main_page-HasWholeLines : HasWholeLines handle_main_page
unfolding handle_main_page
handle_main_page-HasWholeLines = page-HasWholeLines (codes "text/html") _ _ (omega arith)

shorten_answer-HasWholeLines : (result : ShortenResult) → HasWholeLines (shorten_answer result)
unfolding shorten_answer
shorten_answer-HasWholeLines result =
    if_both HasWholeLines (not result.success) (error-HasWholeLines _ _) (json-HasWholeLines _ _)

upload_answer-HasWholeLines : (result : UploadResult) → HasWholeLines (upload_answer result)
unfolding upload_answer
upload_answer-HasWholeLines result =
    if_both HasWholeLines (not result.success) (error-HasWholeLines _ _) (json-HasWholeLines _ _)

read_answer-HasWholeLines :
    (path : Bytes) (q : Reading) → Unbroken path → HasWholeLines (read_answer path q)
unfolding read_answer
read_answer-HasWholeLines path (loaded x) whole = file-HasWholeLines path x whole
read_answer-HasWholeLines path closed whole = error-HasWholeLines _ _
read_answer-HasWholeLines path broken whole = error-HasWholeLines _ _

module _ (db : Database) (disk : Disk) (r : Generator) (qr png : Bytes → Option Bytes)
    (h : Settings) (stored : Bytes → db.State → Option (Bytes × Bytes))
    (Answers : Bytes → db.State → Type 0) (t : IsLinkTable db stored Answers)
    (content : Bytes → disk.State → Option Bytes) (k : IsDisk disk content)
    (plain_dir : Lacks 0 h.upload_dir) (whole_dir : Unbroken h.upload_dir) where
  -- Every destination that the database holds stands on one line.
  abbrev pub IsSafe : db.State → Type 0
  IsSafe s = (j d k : Bytes) → stored j s ≡ some (d, k) → Unbroken d

  -- The state and the answer that a handler leaves behind.
  pub record IsSafeOutcome (outcome : App db disk r qr png h × Response) : Type 0 where
    pub links : IsSafe outcome.0.links
    pub reply : HasWholeLines outcome.1

  same_links : (s s' : db.State) → ((j : Bytes) → stored j s' ≡ stored j s) → IsSafe s → IsSafe s'
  same_links s s' same safe j d k e = safe j d k (sym (same j) ∙ e)

  -- One more destination.
  new_link :
      (c x kind : Bytes) (s s' : db.State)
      → stored c s' ≡ some (x, kind)
      → ((j : Bytes) → j ≢ c → stored j s' ≡ stored j s)
      → Unbroken x
      → IsSafe s
      → IsSafe s'
  new_link c x kind s s' new others whole safe j d k e = elim (Bool-cases (str_eq j c)) [
    | inl same ↦
        let f : ◌≡◌ {A = Option (Bytes × Bytes)} (some (x, kind)) (some (d, k)) =
          sym new ∙ ap (λ i. stored i s') (sym ((str_eq_iff j c).0 same)) ∙ e in
        subst Unbroken (destination f) whole
    | inr apart ↦
        let ne : j ≢ c = λ f. cc_apart apart ((str_eq_iff j c).1 f) in
        safe j d k (sym (others j ne) ∙ e)
  ]
    where
      destination :
          {x d kind k : Bytes}
          → ◌≡◌ {A = Option (Bytes × Bytes)} (some (x, kind)) (some (d, k))
          → x ≡ d
      destination f = cc

      cc_apart : {b : Bool} → b ≡ false → b ≡ true → ⊥
      cc_apart f g = cc

  shorten-IsSafe :
      (url : Bytes) (s s' : db.State) (result : ShortenResult)
      → Shortened db r qr h.base_url stored Answers t url s (s', result)
      → IsSafe s
      → IsSafe s'
  shorten-IsSafe url s s' result (inr (_, same)) safe = same_links s s' same safe
  shorten-IsSafe url s s' result (inl (_, valid, _, _, _, new, others)) safe =
      new_link result.code _ (codes "url") s s' new others
        (url-Unbroken _ (validate_and_normalize-IsAccepted url valid).plain) safe

  path-Unbroken :
      (dir code name : Bytes)
      → Unbroken dir
      → Unbroken code
      → Unbroken name
      → Unbroken (path_in db disk h.upload_dir dir code name)
  path-Unbroken dir code name p q w = append-Unbroken dir _ p (
      append-Unbroken (codes "/") _ (omega arith)
        (append-Unbroken code _ q (append-Unbroken (codes "_") _ (omega arith) w)))

  dir-Unbroken :
      (dir code : Bytes)
      → Unbroken code
      → (dir ≡ h.upload_dir) ⊎ (dir ≡ subdirectory db disk h.upload_dir code)
      → Unbroken dir
  dir-Unbroken dir code p (inl e) = subst Unbroken (sym e) whole_dir
  dir-Unbroken dir code p (inr e) = subst Unbroken (sym e) (
      append-Unbroken h.upload_dir _ whole_dir (
        append-Unbroken (codes "/") _ (omega arith) (All-take (λ c. (c ≢ 10) × (c ≢ 13)) 2 code p)))

  upload-IsSafe :
      (filename x : Bytes) (s s' : db.State) (d : disk.State) (result : UploadResult)
      → Uploaded db disk h.upload_dir r qr h.base_url stored Answers t content k plain_dir filename
          x s
          ((s', d), result)
      → IsSafe s
      → IsSafe s'
  upload-IsSafe filename x s s' d result (inr (_, same)) safe = same_links s s' same safe
  upload-IsSafe filename x s s' d result (inl up) safe =
      let (dir, place, e) = up.place in
      let code_whole = alnum-Unbroken result.code up.alnum in
      new_link result.code result.file_path (codes "file") s s' up.new up.others
        (subst Unbroken (sym e) (
          path-Unbroken dir result.code (sanitize_filename filename)
            (dir-Unbroken dir result.code code_whole place) code_whole
            (safe-Unbroken _ (sanitize_filename-IsName filename).safe)))
        safe

  -- What a query for a URL or for a file gives is a destination in the database.
  resolved-Unbroken :
      (code url : Bytes) (s : db.State)
      → IsSafe s
      → resolve_code db r qr h.base_url code s ≡ some url
      → Unbroken url
  unfolding resolve_code
  resolved-Unbroken code url s safe e = elim (Option-cases (db.get_link code s)) [
    | inl f ↦ absurd (nothing f)
    | inr (l, f) ↦
        let (j, held) = t.get_link_held code s l f in
        let same : l.destination ≡ url = ground arith in
        subst Unbroken same (safe j l.destination l.kind held)
  ]
    where
      nothing : db.get_link code s ≡ none → ⊥
      nothing f = ground arith

  file_path-Unbroken :
      (code path : Bytes) (s : db.State)
      → IsSafe s
      → get_file_path db disk h.upload_dir code s ≡ some path
      → Unbroken path
  unfolding get_file_path
  file_path-Unbroken code path s safe e = elim (Option-cases (db.get_link code s)) [
    | inl f ↦ absurd (nothing f)
    | inr (l, f) ↦
        let (j, held) = t.get_link_held code s l f in
        let same : l.destination ≡ path = ground arith in
        subst Unbroken same (safe j l.destination l.kind held)
  ]
    where
      nothing : db.get_link code s ≡ none → ⊥
      nothing f = ground arith

  record_file_access-stored :
      (code ip agent referrer j : Bytes) (s : db.State)
      → stored j (record_file_access db disk h.upload_dir code ip agent referrer s).0 ≡ stored j s
  unfolding record_file_access
  record_file_access-stored code ip agent referrer j s =
      elim (Option-cases (get_file_metadata db disk h.upload_dir code s)) [
        | inl e ↦ rw (e, record_file_access) refl
        | inr (l, e) ↦ rw (e, record_file_access) (t.record_click_links _ j s)
      ]

  module _ (a : App db disk r qr png h) (safe : IsSafe a.links) where
    answer-IsSafe : (reply : Response) → HasWholeLines reply → IsSafeOutcome (a, reply)
    answer-IsSafe reply whole = record { links = safe; reply = whole }

    error-IsSafe :
        (message : Bytes) (status : StatusCode)
        → IsSafeOutcome (a, create_error_response message status)
    error-IsSafe message status = answer-IsSafe _ (error-HasWholeLines message status)

    shorten_form_url-IsSafe :
        (field : Option Bytes) → IsSafeOutcome (shorten_form_url db disk r qr png h field a)
    unfolding shorten_form_url
    shorten_form_url-IsSafe none = error-IsSafe _ _
    shorten_form_url-IsSafe (some url) =
        let ((links, result), g, e, done) =
          shorten_url-Shortened db r qr h.base_url stored Answers t url a.links a.draws in
        if_both IsSafeOutcome (is_empty url) (error-IsSafe _ _) (
          rw (e, shorten_form_url)
            (record {
              links = shorten-IsSafe url a.links links result done safe;
              reply = shorten_answer-HasWholeLines result;
            }))

    upload_form_file-IsSafe :
        (sent : Option MultipartFile) → IsSafeOutcome (upload_form_file db disk r qr png h sent a)
    unfolding upload_form_file
    upload_form_file-IsSafe none = error-IsSafe _ _
    upload_form_file-IsSafe (some file) =
        let (((links, files), result), g, e, done) =
          upload_file-Uploaded db disk h.upload_dir r qr h.base_url stored Answers t content k
            plain_dir file.filename file.contents a.links a.files a.draws in
        rw (e, upload_form_file)
          (record {
            links = upload-IsSafe file.filename file.contents a.links links files result done safe;
            reply = upload_answer-HasWholeLines result;
          })

    redirect_to-IsSafe :
        (code url : Bytes) (req : Request)
        → Unbroken url
        → IsSafeOutcome (redirect_to db disk r qr png h code url req a)
    unfolding redirect_to
    redirect_to-IsSafe code url req whole =
        let (ip, agent, referrer) : Bytes × Bytes × Bytes =
          (get_client_ip req, get_user_agent req, get_referrer req) in
        elim (Option-cases (record_access db r qr h.base_url code ip agent referrer a.links)) [
          | inl e ↦ rw (e, redirect_to) (error-IsSafe _ _)
          | inr ((links, ok), e) ↦
              rw (e, redirect_to)
                (record {
                  links =
                      same_links a.links links
                        (λ j.
                          record_access-stored db r qr h.base_url stored Answers t code ip agent
                            referrer j a.links links ok e)
                        safe;
                  reply = redirect-HasWholeLines url whole;
                })
        ]

    create_file_response-HasWholeLines :
        (path : Bytes)
        → Unbroken path
        → HasWholeLines (create_file_response db disk r qr png h path a.files)
    unfolding create_file_response
    create_file_response-HasWholeLines path whole = elim (Option-cases (disk.exists path a.files)) [
      | inl e ↦ rw (e, create_file_response) (error-HasWholeLines _ _)
      | inr (false, e) ↦ rw (e, create_file_response) (error-HasWholeLines _ _)
      | inr (true, e) ↦
          rw (e, create_file_response)
            (read_answer-HasWholeLines path (disk.read path a.files) whole)
    ]

    redirect_file-IsSafe :
        (code : Bytes) (req : Request) → IsSafeOutcome (redirect_file db disk r qr png h code req a)
    unfolding redirect_file
    redirect_file-IsSafe code req =
        elim (Option-cases (get_file_path db disk h.upload_dir code a.links)) [
          | inl e ↦ rw (e, redirect_file) (error-IsSafe _ _)
          | inr (path, e) ↦
              rw (e, redirect_file)
                (record {
                  links =
                      same_links a.links _ (λ j. record_file_access-stored code _ _ _ j a.links)
                        safe;
                  reply =
                      create_file_response-HasWholeLines path
                        (file_path-Unbroken code path a.links safe e);
                })
        ]

    redirect_code-IsSafe :
        (code : Bytes) (req : Request) → IsSafeOutcome (redirect_code db disk r qr png h code req a)
    unfolding redirect_code
    redirect_code-IsSafe code req =
        if_both IsSafeOutcome (is_empty code) (error-IsSafe _ _)
          (elim (Option-cases (resolve_code db r qr h.base_url code a.links)) [
            | inl e ↦ rw (e, redirect_code) (redirect_file-IsSafe code req)
            | inr (url, e) ↦
                rw (e, redirect_code)
                  (redirect_to-IsSafe code url req (resolved-Unbroken code url a.links safe e))
          ])

    stats_answer-HasWholeLines :
        (code : Bytes) (req : Request)
        → HasWholeLines (stats_answer code req (get_statistics db r qr h.base_url code a.links))
    unfolding stats_answer
    stats_answer-HasWholeLines code req =
        if_both HasWholeLines (wants_json req) (json-HasWholeLines _ _)
          (page-HasWholeLines (codes "text/html") _ _ (omega arith))

    handle_stats-IsSafe : (req : Request) → IsSafeOutcome (handle_stats db disk r qr png h req a)
    unfolding handle_stats
    handle_stats-IsSafe req =
        let code = extract_code_from_path req.uri (codes "/stats/") in
        if_both IsSafeOutcome (is_empty code) (error-IsSafe _ _)
          (answer-IsSafe _ (stats_answer-HasWholeLines code req))

    handle_qr_code-HasWholeLines :
        (req : Request) → HasWholeLines (handle_qr_code db disk r qr png h req)
    unfolding handle_qr_code
    handle_qr_code-HasWholeLines req =
        let code = extract_code_from_path req.uri (codes "/qr/") in
        if_both HasWholeLines (is_empty code) (error-HasWholeLines _ _) (
          option_both HasWholeLines (png _) (error-HasWholeLines _ _) (λ image.
            image-HasWholeLines (codes "image/png") (codes "public, max-age=3600") image _
              (omega arith) (omega arith)))

    posted-IsSafe :
        (req : Request) (outcome : App db disk r qr png h × Response)
        → IsSafeOutcome outcome
        → IsSafeOutcome (
            if str_eq req.method (codes "POST")
            then outcome
            else (a, create_error_response (codes "Method not allowed") method_not_allowed))
    posted-IsSafe req outcome done =
        if_both IsSafeOutcome (str_eq req.method (codes "POST")) done (error-IsSafe _ _)

    route-IsSafe : (req : Request) → IsSafeOutcome (route db disk r qr png h req a)
    unfolding route handle_shorten_url handle_upload_file handle_redirect
    route-IsSafe req =
        let post = str_eq req.method (codes "POST") in
        if_both IsSafeOutcome (str_eq req.uri (codes "/") || str_eq req.uri h.serving_path)
          (answer-IsSafe _ handle_main_page-HasWholeLines)
          (if_both IsSafeOutcome (str_eq req.uri (codes "/shorten"))
            (posted-IsSafe req _
              (if_both IsSafeOutcome (not post) (error-IsSafe _ _) (shorten_form_url-IsSafe _)))
            (if_both IsSafeOutcome (str_eq req.uri (codes "/upload"))
              (posted-IsSafe req _
                (if_both IsSafeOutcome (not post) (error-IsSafe _ _) (upload_form_file-IsSafe _)))
              (if_both IsSafeOutcome
                (starts_with (codes "/r/") req.uri || starts_with (codes "/f/") req.uri)
                (redirect_code-IsSafe _ req)
                (if_both IsSafeOutcome (starts_with (codes "/stats/") req.uri)
                  (handle_stats-IsSafe req)
                  (if_both IsSafeOutcome (starts_with (codes "/qr/") req.uri)
                    (answer-IsSafe _ (handle_qr_code-HasWholeLines req)) (error-IsSafe _ _))))))

    -- Where the services are there, every destination in the database stands on one line, and so
    -- does the directory for uploads, which has no NUL, no request changes that, and no header of
    -- an answer holds a line feed or a carriage return.
    pub handle_request-IsSafe :
        (req : Request)
        → a.initialized ≡ true
        → IsSafeOutcome (handle_request db disk r qr png h req a)
    handle_request-IsSafe req ready =
        subst IsSafeOutcome (sym (handle_request_ready db disk r qr png h req a ready))
          (route-IsSafe req)
