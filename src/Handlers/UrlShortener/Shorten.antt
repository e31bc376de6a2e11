-- ===== src/Handlers/UrlShortener/Shorten.antt =====
-- src/handlers/url_shortener_handler.cc: POST /shorten and the requests for the short URL.
use bit_link.Prelude.{
  ◌≡◌, ◌≢◌, ◌⊎◌, inl, inr, refl, ap, ◌∙◌, [], ◌∷◌, ◌++◌, Option, none, some, true, false, All,
  arith, length, Option-cases,
}
use bit_link.Str.{Bytes, IsByte, codes, is_empty, starts_with, str_eq}
use bit_link.SlugGenerator.{Generator, returns}
use bit_link.Database.{Database, IsLinkTable}
use bit_link.UrlValidator.Validate.{validate_and_normalize}
use bit_link.Service.FileUpload.{Disk}
use bit_link.Service.Url.{ShortenResult, created, shorten_url, resolve_code, record_access}
use bit_link.Service.Url.Shorten.{Shortened, shorten_url-Shortened, resolve_code-shorten_url}
use bit_link.Http.Request.{Request}
use bit_link.Http.Response.{Response}
use bit_link.Handlers.UrlShortener.Answers.{
  create_redirect_response, get_client_ip, get_user_agent, get_referrer,
}
use bit_link.Handlers.UrlShortener.{
  Settings, App, shorten_answer, shorten_form_url, handle_shorten_url, redirect_to, redirect_code,
  handle_request,
}
use bit_link.Handlers.UrlShortener.PageForm.{url_form, url_of_form}
use bit_link.Handlers.UrlShortener.Routes.{handle_request-shorten, handle_request-code}

module _ (db : Database) (disk : Disk) (r : Generator) (qr png : Bytes → Option Bytes)
    (h : Settings) (stored : Bytes → db.State → Option (Bytes × Bytes))
    (Answers : Bytes → db.State → Type 0) (t : IsLinkTable db stored Answers) where
  abbrev Links : Type 0
  Links = db.State

  handle_shorten_url-returns :
      (url : Bytes) (req : Request) (a : App db disk r qr png h) (links : Links) (g : r.State)
      (result : ShortenResult)
      → req.method ≡ codes "POST"
      → req.body ≡ url_form url
      → All IsByte url
      → is_empty url ≡ false
      → shorten_url db r qr h.base_url url a.links a.draws ≡ returns ((links, result), g)
      → handle_shorten_url db disk r qr png h req a
        ≡ (record a { links = links; draws = g }, shorten_answer result)
  unfolding handle_shorten_url shorten_form_url
  handle_shorten_url-returns url req a links g result post form bytes some_url e =
      rw (post, form, url_of_form url bytes, some_url, e) (unfold str_eq in refl)

  record_access_answered :
      (code ip agent referrer : Bytes) (s : Links)
      → db.code_exists code s ≢ none
      → record_access db r qr h.base_url code ip agent referrer s ≢ none
  unfolding record_access
  record_access_answered code ip agent referrer s answered =
      elim (Option-cases (db.code_exists code s)) [
        | inl e ↦ absurd (answered e)
        | inr (true, e) ↦ rw (e, record_access) (λ c. cc)
        | inr (false, e) ↦ rw (e, record_access) (λ c. cc)
      ]

  redirect_to_answered :
      (code url : Bytes) (req : Request) (a : App db disk r qr png h)
      → db.code_exists code a.links ≢ none
      → (redirect_to db disk r qr png h code url req a).1 ≡ create_redirect_response url
  unfolding redirect_to
  redirect_to_answered code url req a answered =
      let (ip, agent, referrer) : Bytes × Bytes × Bytes =
        (get_client_ip req, get_user_agent req, get_referrer req) in
      elim (Option-cases (record_access db r qr h.base_url code ip agent referrer a.links)) [
        | inl e ↦ absurd (record_access_answered code ip agent referrer a.links answered e)
        | inr ((links, ok), e) ↦ rw (e, redirect_to) refl
      ]

  redirect_code-url :
      (code url : Bytes) (req : Request) (a : App db disk r qr png h)
      → is_empty code ≡ false
      → resolve_code db r qr h.base_url code a.links ≡ some url
      → db.code_exists code a.links ≢ none
      → (redirect_code db disk r qr png h code req a).1 ≡ create_redirect_response url
  unfolding redirect_code
  redirect_code-url code url req a filled resolved answered =
      rw (filled, resolved) (redirect_to_answered code url req a answered)

  -- The service after the request for a new short URL, its answer and a later request's.
  abbrev pub Follows :
      Bytes → Request → App db disk r qr png h → App db disk r qr png h → ShortenResult → Type 0
  Follows url follow a a' result =
      (result ≡ created db r qr h.base_url result.code)
        × ((validate_and_normalize url).is_valid ≡ true)
        × ((handle_request db disk r qr png h (record follow { uri = codes "/r/" ++ result.code })
              a').1
            ≡ create_redirect_response (validate_and_normalize url).normalized_url)
      ⊎ (result.success ≡ false) × ((j : Bytes) → stored j a'.links ≡ stored j a.links)

  filled_code : (code : Bytes) → length code ≡ 8 → is_empty code ≡ false
  filled_code [] e = absurd (omega arith)
  filled_code (c ∷ code) e = refl

  follow_step :
      (url : Bytes) (follow : Request) (a : App db disk r qr png h) (links : Links) (g : r.State)
      (result : ShortenResult)
      → a.initialized ≡ true
      → starts_with (codes "/r/") h.serving_path ≡ false
      → ((code : Bytes) (s : Links) → Answers code s)
      → ((code : Bytes) (s : Links) → db.code_exists code s ≢ none)
      → shorten_url db r qr h.base_url url a.links a.draws ≡ returns ((links, result), g)
      → Shortened db r qr h.base_url stored Answers t url a.links (links, result)
      → Follows url follow a (record a { links = links; draws = g }) result
  follow_step url follow a links g result ready apart answers exists e (inr failed) = inr failed
  follow_step url follow a links g result ready apart answers exists e
        (inl (made, valid, long, _, _, new, _)) =
      let a' : App db disk r qr png h = record a { links = links; draws = g } in
      let req : Request = record follow { uri = codes "/r/" ++ result.code } in
      let resolved =
        resolve_code-shorten_url db r qr h.base_url stored Answers t url a.links links a.draws g
          result e (ap (λ (x : ShortenResult). x.success) made) (answers result.code links) in
      inl (
        made,
        valid,
        ap (λ (p : App db disk r qr png h × Response). p.1)
              (handle_request-code db disk r qr png h req result.code a' ready refl apart)
            ∙ redirect_code-url result.code _ req a' (filled_code result.code long) resolved
                (exists result.code links),
      )

  -- Where the services are there and the serving path is neither "/shorten" nor begins with "/r/",
  -- and every query of the database is answered, a POST of what the page's script sends for a text
  -- of bytes that is not empty, its encodeURIComponent behind url=, is answered by the outcome of
  -- shortening it. Either that failed and every code keeps what it had, or the text was an
  -- accepted URL and any request for /r/ and the new code is then answered by the redirect to the
  -- URL's normal form.
  pub handle_request-Follows :
      (url : Bytes) (post follow : Request) (a : App db disk r qr png h)
      → a.initialized ≡ true
      → h.serving_path ≢ codes "/shorten"
      → starts_with (codes "/r/") h.serving_path ≡ false
      → ((code : Bytes) (s : Links) → Answers code s)
      → ((code : Bytes) (s : Links) → db.code_exists code s ≢ none)
      → All IsByte url
      → is_empty url ≡ false
      → post.method ≡ codes "POST"
      → post.uri ≡ codes "/shorten"
      → post.body ≡ url_form url
      → (a' : App db disk r qr png h) × (result : ShortenResult) × (handle_request db disk r qr png
            h post a
          ≡ (a', shorten_answer result))
        × Follows url follow a a' result
  handle_request-Follows url post follow a ready apart apart_r answers exists bytes some_url is_post
        here form =
      let ((links, result), g, e, done) =
        shorten_url-Shortened db r qr h.base_url stored Answers t url a.links a.draws in
      (
        record a { links = links; draws = g },
        result,
        handle_request-shorten db disk r qr png h post a ready is_post here apart
            ∙ handle_shorten_url-returns url post a links g result is_post form bytes some_url e,
        follow_step url follow a links g result ready apart_r answers exists e done,
      )
