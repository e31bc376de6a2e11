-- ===== src/Handlers/UrlShortener/Upload.antt =====
-- src/handlers/url_shortener_handler.cc: POST /upload and the requests for the short URL.
use bit_link.Prelude.{
  ◌≡◌, ◌≢◌, ◌⊎◌, inl, inr, refl, sym, ap, ◌∙◌, subst, [], ◌∷◌, ◌++◌, Option, none, some, true,
  false, arith, length, Option-cases,
}
use bit_link.Str.{Bytes, Lacks, codes, is_empty, starts_with, str_eq}
use bit_link.SlugGenerator.{Generator, returns}
use bit_link.Database.{Database, IsLinkTable}
use bit_link.HttpParser.Multipart.{MultipartFile}
use bit_link.Service.FileUpload.{
  Reading, loaded, closed, broken, Disk, UploadResult, uploaded, upload_file, get_file_path,
}
use bit_link.Service.FileUpload.Upload.{IsDisk, Uploaded, file_path-Lacks, upload_file-Uploaded}
use bit_link.Service.FileUpload.Delete.{get_file_path-upload_file}
use bit_link.Service.Url.{resolve_code}
use bit_link.Service.Url.Shorten.{alnum-Lacks, url_of, resolve_code-stored}
use bit_link.Http.Request.{Request}
use bit_link.Http.Response.{Response, not_found, internal_server_error}
use bit_link.Handlers.UrlShortener.Answers.{
  create_error_response, file_response, extract_uploaded_file,
}
use bit_link.Handlers.UrlShortener.{
  Settings, serving_error, read_answer, App, upload_answer, upload_form_file, handle_upload_file,
  create_file_response, redirect_file, redirect_code, handle_request,
}
use bit_link.Handlers.UrlShortener.Routes.{handle_request-upload, handle_request-file_code}

module _ (db : Database) (disk : Disk) (r : Generator) (qr png : Bytes → Option Bytes)
    (h : Settings) (stored : Bytes → db.State → Option (Bytes × Bytes))
    (Answers : Bytes → db.State → Type 0) (t : IsLinkTable db stored Answers)
    (content : Bytes → disk.State → Option Bytes) (k : IsDisk disk content)
    (plain_dir : Lacks 0 h.upload_dir) where
  -- The outcome of asking for a file: its content, or what the disk said instead.
  abbrev pub Serves : Bytes → Bytes → disk.State → Response → Type 0
  Serves path x d reply =
      (disk.exists path d ≡ some false)
        × (reply ≡ create_error_response (codes "File not found") not_found)
      ⊎ (disk.read path d ≡ closed)
        × (reply ≡ create_error_response (codes "Cannot read file") internal_server_error)
      ⊎ ((disk.exists path d ≡ none) ⊎ (disk.read path d ≡ broken)) × (reply ≡ serving_error)
      ⊎ (disk.exists path d ≡ some true)
        × (disk.read path d ≡ loaded x)
        × (reply ≡ file_response path x)

  read_answer-Serves :
      (path x : Bytes) (d : disk.State) (q : Reading)
      → Lacks 0 path
      → content path d ≡ some x
      → disk.exists path d ≡ some true
      → disk.read path d ≡ q
      → Serves path x d (read_answer path q)
  unfolding read_answer
  read_answer-Serves path x d (loaded y) text held there e =
      let same : ◌≡◌ {A = Option Bytes} (some y) (some x) =
        sym (k.readable path y d text e) ∙ held in
      let sent : y ≡ x = ground arith in
      inr (inr (inr (there, e ∙ ap loaded sent, ap (file_response path) sent)))
  read_answer-Serves path x d closed text held there e = inr (inl (e, refl))
  read_answer-Serves path x d broken text held there e = inr (inr (inl (inr e, refl)))

  create_file_response-Serves :
      (path x : Bytes) (d : disk.State)
      → Lacks 0 path
      → content path d ≡ some x
      → Serves path x d (create_file_response db disk r qr png h path d)
  unfolding create_file_response
  create_file_response-Serves path x d text held = elim (Option-cases (disk.exists path d)) [
    | inl e ↦ inr (inr (inl (inl e, rw (e, create_file_response) refl)))
    | inr (false, e) ↦ inl (e, rw (e, create_file_response) refl)
    | inr (true, e) ↦
        subst (Serves path x d) (sym (rw (e, create_file_response) refl))
          (read_answer-Serves path x d (disk.read path d) text held e refl)
  ]

  handle_upload_file-returns :
      (file : MultipartFile) (req : Request) (a : App db disk r qr png h) (links : db.State)
      (files : disk.State) (g : r.State) (result : UploadResult)
      → req.method ≡ codes "POST"
      → extract_uploaded_file req ≡ some file
      → upload_file db disk h.upload_dir r qr h.base_url file.filename file.contents a.links a.files
          a.draws
        ≡ returns (((links, files), result), g)
      → handle_upload_file db disk r qr png h req a
        ≡ (record a { links = links; files = files; draws = g }, upload_answer result)
  unfolding handle_upload_file upload_form_file
  handle_upload_file-returns file req a links files g result post sent e =
      rw (sent, post, upload_form_file, e) (unfold str_eq in refl)

  redirect_code-file :
      (code path : Bytes) (req : Request) (a : App db disk r qr png h)
      → is_empty code ≡ false
      → resolve_code db r qr h.base_url code a.links ≡ none
      → get_file_path db disk h.upload_dir code a.links ≡ some path
      → (redirect_code db disk r qr png h code req a).1
        ≡ create_file_response db disk r qr png h path a.files
  unfolding redirect_code redirect_file
  redirect_code-file code path req a filled no_url found =
      rw (filled, no_url, found, redirect_file) refl

  -- The service after the upload, and its answer to a later request for the short URL.
  abbrev pub Downloads :
      MultipartFile
      → Request
      → App db disk r qr png h
      → App db disk r qr png h
      → UploadResult
      → Type 0
  Downloads file follow a a' result =
      (result
          ≡ uploaded db disk h.upload_dir r qr h.base_url result.code result.file_path
              file.filename)
        × Serves result.file_path file.contents a'.files
            (handle_request db disk r qr png h (record follow { uri = codes "/f/" ++ result.code })
              a').1
      ⊎ (result.success ≡ false) × ((j : Bytes) → stored j a'.links ≡ stored j a.links)

  filled_code : (code : Bytes) → length code ≡ 8 → is_empty code ≡ false
  filled_code [] e = absurd (omega arith)
  filled_code (c ∷ code) e = refl

  download_step :
      (file : MultipartFile) (follow : Request) (a : App db disk r qr png h) (links : db.State)
      (files : disk.State) (g : r.State) (result : UploadResult)
      → a.initialized ≡ true
      → starts_with (codes "/f/") h.serving_path ≡ false
      → ((code : Bytes) (s : db.State) → Answers code s)
      → upload_file db disk h.upload_dir r qr h.base_url file.filename file.contents a.links a.files
          a.draws
        ≡ returns (((links, files), result), g)
      → Uploaded db disk h.upload_dir r qr h.base_url stored Answers t content k plain_dir
          file.filename file.contents a.links
          ((links, files), result)
      → Downloads file follow a (record a { links = links; files = files; draws = g }) result
  download_step file follow a links files g result ready apart answers e (inr failed) = inr failed
  download_step file follow a links files g result ready apart answers e (inl up) =
      let a' : App db disk r qr png h = record a { links = links; files = files; draws = g } in
      let req : Request = record follow { uri = codes "/f/" ++ result.code } in
      let text = alnum-Lacks result.code up.alnum in
      let won = ap (λ (x : UploadResult). x.success) up.answer in
      let no_url : resolve_code db r qr h.base_url result.code links ≡ none =
        resolve_code-stored db r qr h.base_url stored Answers t result.code links text
          (answers result.code links)
        ∙ ap url_of up.new
        ∙ unfold str_eq in refl in
      let (found, held) =
        get_file_path-upload_file db disk h.upload_dir stored Answers t content k r qr h.base_url
          plain_dir file.filename file.contents a.links links a.files files a.draws g result e won
          (answers result.code links) in
      let reply =
        ap (λ (p : App db disk r qr png h × Response). p.1)
          (handle_request-file_code db disk r qr png h req result.code a' ready refl apart)
        ∙ redirect_code-file result.code result.file_path req a' (filled_code result.code up.long)
            no_url found in
      inl (
        up.answer,
        subst (Serves result.file_path file.contents files) (sym reply) (
            create_file_response-Serves result.file_path file.contents files
              (file_path-Lacks db disk h.upload_dir r qr h.base_url stored Answers t content k
                plain_dir file.filename file.contents a.links links files result up)
              held),
      )

  -- Where the services are there, the serving path is neither "/upload" nor begins with "/f/", the
  -- directory for uploads has no NUL in its name, and every query is answered, a POST of a form
  -- with a file is answered by the outcome of uploading it. Either that failed and every code
  -- keeps what it had, or any request for /f/ and the new code is then answered in one of four
  -- ways: by the content that was sent where the disk says that a file is there and reads it, by
  -- 404 where it says that none is there, by the error "Cannot read file" where the file cannot be
  -- opened, and by the error "File serving error" where the disk throws an exception.
  pub handle_request-Downloads :
      (file : MultipartFile) (post follow : Request) (a : App db disk r qr png h)
      → a.initialized ≡ true
      → h.serving_path ≢ codes "/upload"
      → starts_with (codes "/f/") h.serving_path ≡ false
      → ((code : Bytes) (s : db.State) → Answers code s)
      → post.method ≡ codes "POST"
      → post.uri ≡ codes "/upload"
      → extract_uploaded_file post ≡ some file
      → (a' : App db disk r qr png h) × (result : UploadResult) × (handle_request db disk r qr png h
            post a
          ≡ (a', upload_answer result))
        × Downloads file follow a a' result
  handle_request-Downloads file post follow a ready apart apart_f answers is_post here sent =
      let (((links, files), result), g, e, done) =
        upload_file-Uploaded db disk h.upload_dir r qr h.base_url stored Answers t content k
          plain_dir file.filename file.contents a.links a.files a.draws in
      (
        record a { links = links; files = files; draws = g },
        result,
        handle_request-upload db disk r qr png h post a ready is_post here apart
            ∙ handle_upload_file-returns file post a links files g result is_post sent e,
        download_step file follow a links files g result ready apart_f answers e done,
      )
