-- ===== src/Handlers/UrlShortener/Routes.antt =====
-- src/handlers/url_shortener_handler.cc: which operation a request reaches.
use bit_link.Prelude.{◌≡◌, ◌≢◌, refl, sym, ◌∙◌, subst, [], ◌∷◌, ◌++◌, Option, true, false, arith}
use bit_link.Str.{Bytes, codes, str_eq, starts_with}
use bit_link.Str.Search.{str_eq-ne, starts_with-append}
use bit_link.SlugGenerator.{Generator}
use bit_link.Database.{Database}
use bit_link.Service.FileUpload.{Disk}
use bit_link.Http.Request.{Request}
use bit_link.Handlers.UrlShortener.Answers.{extract_code_from_path}
use bit_link.Handlers.UrlShortener.{
  Settings, App, initialize_services, handle_shorten_url, handle_upload_file, redirect_code,
  handle_redirect, route, handle_request,
}

code_behind : (code : Bytes) → extract_code_from_path (codes "/r/" ++ code) (codes "/r/") ≡ code
unfolding extract_code_from_path
code_behind [] = refl
code_behind (c ∷ code) = ground arith

file_code_behind :
    (code : Bytes) → extract_code_from_path (codes "/f/" ++ code) (codes "/r/") ≡ code
unfolding extract_code_from_path
file_code_behind [] = refl
file_code_behind (c ∷ code) = ground arith

starts-apart : (p s t : Bytes) → starts_with p t ≡ false → (p ++ s) ≢ t
starts-apart p s t apart e =
    let bad : starts_with p (p ++ s) ≡ false = subst (λ q. starts_with p q ≡ false) (sym e) apart in
    ground (arith, starts_with-append p s)

module _ (db : Database) (disk : Disk) (r : Generator) (qr png : Bytes → Option Bytes)
    (h : Settings) where
  pub handle_request_ready :
      (req : Request) (a : App db disk r qr png h)
      → a.initialized ≡ true
      → handle_request db disk r qr png h req a ≡ route db disk r qr png h req a
  unfolding handle_request initialize_services
  handle_request_ready req a ready = rw ready refl

  pub handle_request-shorten :
      (req : Request) (a : App db disk r qr png h)
      → a.initialized ≡ true
      → req.method ≡ codes "POST"
      → req.uri ≡ codes "/shorten"
      → h.serving_path ≢ codes "/shorten"
      → handle_request db disk r qr png h req a ≡ handle_shorten_url db disk r qr png h req a
  unfolding route
  handle_request-shorten req a ready post here apart =
      handle_request_ready req a ready
      ∙ rw (here, post, str_eq-ne (codes "/shorten") h.serving_path (λ e. apart (sym e)))
          (unfold str_eq in refl)

  pub handle_request-upload :
      (req : Request) (a : App db disk r qr png h)
      → a.initialized ≡ true
      → req.method ≡ codes "POST"
      → req.uri ≡ codes "/upload"
      → h.serving_path ≢ codes "/upload"
      → handle_request db disk r qr png h req a ≡ handle_upload_file db disk r qr png h req a
  unfolding route
  handle_request-upload req a ready post here apart =
      handle_request_ready req a ready
      ∙ rw (here, post, str_eq-ne (codes "/upload") h.serving_path (λ e. apart (sym e)))
          (unfold str_eq in refl)

  module _ (req : Request) (code : Bytes) (a : App db disk r qr png h)
      (ready : a.initialized ≡ true) where
    -- The short URL of a URL, and that of a file.
    pub handle_request-code :
        req.uri ≡ codes "/r/" ++ code
        → starts_with (codes "/r/") h.serving_path ≡ false
        → handle_request db disk r qr png h req a ≡ redirect_code db disk r qr png h code req a
    unfolding route handle_redirect
    handle_request-code here apart =
        handle_request_ready req a ready
        ∙ rw
            (
              here,
              str_eq-ne (codes "/r/" ++ code) h.serving_path
                  (starts-apart (codes "/r/") code h.serving_path apart),
              code_behind code,
            )
            (unfold str_eq starts_with in refl)

    pub handle_request-file_code :
        req.uri ≡ codes "/f/" ++ code
        → starts_with (codes "/f/") h.serving_path ≡ false
        → handle_request db disk r qr png h req a ≡ redirect_code db disk r qr png h code req a
    unfolding route handle_redirect
    handle_request-file_code here apart =
        handle_request_ready req a ready
        ∙ rw
            (
              here,
              str_eq-ne (codes "/f/" ++ code) h.serving_path
                  (starts-apart (codes "/f/") code h.serving_path apart),
              file_code_behind code,
            )
            (unfold str_eq starts_with in refl)
