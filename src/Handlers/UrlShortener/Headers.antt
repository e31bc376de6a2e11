-- ===== src/Handlers/UrlShortener/Headers.antt =====
-- src/handlers/url_shortener_handler.cc: what the headers of the answers may hold.
use bit_link.Prelude.{
  ℕ, zero, suc, ◌+◌, ◌/◌, ◌≢◌, subst, [], ◌∷◌, ◌++◌, Bool, ltb, All, All-append, All-drop, arith,
  if_both, option_both, if◌then◌else◌, length,
}
use bit_link.Str.{Bytes, codes, find_last_char}
use bit_link.Str.Number.{pos, show_from, show_ℕ}
use bit_link.Str.Number
use bit_link.StrMap.Sorted.{AllEntries, AllEntries-put}
use bit_link.FileValidator.Scan.{file_name}
use bit_link.FileValidator.Sanitize.Laws.{IsSafe}
use bit_link.SlugGenerator.Codes.{IsAlnum}
use bit_link.UrlValidator.Parts.{is_valid_url_char}
use bit_link.UrlValidator.Validate.Chars.{IsUrlChar}
use bit_link.UrlValidator.Validate.Laws.{IsPlain}
use bit_link.Http.Response.{StatusCode, Response, new_response, set_status, set_header, set_body}
use bit_link.Handlers.UrlShortener.Answers.{
  create_json_response, create_error_response, create_redirect_response, path_extension,
  content_type_of_extension, file_response,
}

-- Neither a line feed nor a carriage return.
abbrev pub Unbroken : Bytes → Type 0
Unbroken = All (λ c. (c ≢ 10) × (c ≢ 13))

abbrev pub HasWholeLines : Response → Type 0
HasWholeLines r = AllEntries (λ name. Unbroken) r.headers

pub url-Unbroken : (s : Bytes) → All (λ c. IsUrlChar c × IsPlain c) s → Unbroken s
unfolding is_valid_url_char
url-Unbroken [] h = tt
url-Unbroken (c ∷ s) ((p, _), h) = (
  (λ e. not_ten (subst IsUrlChar e p), λ e. not_thirteen (subst IsUrlChar e p)),
  url-Unbroken s h,
)
  where
    not_ten : IsUrlChar 10 → ⊥
    not_ten e = cc

    not_thirteen : IsUrlChar 13 → ⊥
    not_thirteen e = cc

pub alnum-Unbroken : (s : Bytes) → All IsAlnum s → Unbroken s
alnum-Unbroken [] h = tt
alnum-Unbroken (c ∷ s) (p, h) = (ground arith, alnum-Unbroken s h)

pub safe-Unbroken : (s : Bytes) → All IsSafe s → Unbroken s
safe-Unbroken [] h = tt
safe-Unbroken (c ∷ s) (p, h) = (ground arith, safe-Unbroken s h)

pub append-Unbroken : (s t : Bytes) → Unbroken s → Unbroken t → Unbroken (s ++ t)
append-Unbroken = All-append (λ c. (c ≢ 10) × (c ≢ 13))

show_from-Unbroken : (fuel n : ℕ) (out : Bytes) → Unbroken out → Unbroken (show_from fuel n out)
unfolding show_from
show_from-Unbroken zero n out h = h
show_from-Unbroken (suc fuel) n out h =
    if_both Unbroken (ltb n 10) ((omega arith, omega arith), h)
      (show_from-Unbroken fuel (n / 10) _ ((omega arith, omega arith), h))

to_string-Unbroken : (n : ℕ) → Unbroken (Number.to_string (pos n))
unfolding Number.to_string show_ℕ
to_string-Unbroken n = show_from-Unbroken (suc n) n [] tt

set_header-HasWholeLines :
    (name v : Bytes) (r : Response)
    → Unbroken v
    → HasWholeLines r
    → HasWholeLines (set_header name v r)
unfolding set_header
set_header-HasWholeLines name v r p h = AllEntries-put (λ name. Unbroken) name v r.headers p h

pub set_body-HasWholeLines :
    (body : Bytes) (r : Response) → HasWholeLines r → HasWholeLines (set_body body r)
unfolding set_body
set_body-HasWholeLines body r h =
    set_header-HasWholeLines (codes "Content-Length") _ (record r { body = body })
      (to_string-Unbroken (length body)) h

set_status-HasWholeLines : (status : StatusCode) → HasWholeLines (set_status status new_response)
unfolding set_status
set_status-HasWholeLines status = tt

pub json-HasWholeLines :
    (json : Bytes) (status : StatusCode) → HasWholeLines (create_json_response json status)
unfolding create_json_response
json-HasWholeLines json status = set_body-HasWholeLines json _ (
    set_header-HasWholeLines _ (codes "*") _ (omega arith) (
      set_header-HasWholeLines _ (codes "application/json") _ (omega arith)
        (set_status-HasWholeLines status)))

pub error-HasWholeLines :
    (message : Bytes) (status : StatusCode) → HasWholeLines (create_error_response message status)
unfolding create_error_response
error-HasWholeLines message status = json-HasWholeLines _ status

pub redirect-HasWholeLines :
    (url : Bytes) → Unbroken url → HasWholeLines (create_redirect_response url)
unfolding create_redirect_response
redirect-HasWholeLines url h = set_body-HasWholeLines [] _ (
    set_header-HasWholeLines _ (codes "no-cache") _ (omega arith)
      (set_header-HasWholeLines _ url _ h (set_status-HasWholeLines _)))

-- The same, for a text that is chosen.
record IsUnbroken (s : Bytes) : Type 0 where
  whole : Unbroken s

octet_stream-IsUnbroken : IsUnbroken (codes "application/octet-stream")
octet_stream-IsUnbroken = record { whole = omega arith }

choose-IsUnbroken :
    (b : Bool) (s t : Bytes) → Unbroken s → IsUnbroken t → IsUnbroken (if b then s else t)
choose-IsUnbroken b s t p q = if_both IsUnbroken b (record { whole = p }) q

content_type-IsUnbroken : (extension : Bytes) → IsUnbroken (content_type_of_extension extension)
unfolding content_type_of_extension
content_type-IsUnbroken extension = choose-IsUnbroken _ (codes "text/plain") _ (omega arith) (
    choose-IsUnbroken _ (codes "text/html") _ (omega arith) (
      choose-IsUnbroken _ (codes "text/css") _ (omega arith) (
        choose-IsUnbroken _ (codes "application/javascript") _ (omega arith) (
          choose-IsUnbroken _ (codes "application/json") _ (omega arith) (
            choose-IsUnbroken _ (codes "image/png") _ (omega arith) (
              choose-IsUnbroken _ (codes "image/jpeg") _ (omega arith) (
                choose-IsUnbroken _ (codes "application/pdf") _ (omega arith)
                  octet_stream-IsUnbroken)))))))

file_name-Unbroken : (path : Bytes) → Unbroken path → Unbroken (file_name path)
file_name-Unbroken path h =
    option_both Unbroken (find_last_char b'/' path) h
      (λ i. All-drop (λ c. (c ≢ 10) × (c ≢ 13)) (i + 1) path h)

pub file-HasWholeLines :
    (path content : Bytes) → Unbroken path → HasWholeLines (file_response path content)
unfolding file_response
file-HasWholeLines path content h = set_body-HasWholeLines content _ (
    set_header-HasWholeLines _ _ _
      (append-Unbroken (codes "attachment; filename=\"") _ (omega arith)
        (append-Unbroken (file_name path) _ (file_name-Unbroken path h) (omega arith)))
      (set_header-HasWholeLines _ _ _ (to_string-Unbroken (length content)) (
        set_header-HasWholeLines _ _ _ (content_type-IsUnbroken (path_extension path)).whole
          (set_status-HasWholeLines _))))

-- A page or an image.
pub page-HasWholeLines :
    (kind body : Bytes) (status : StatusCode)
    → Unbroken kind
    → HasWholeLines
        (set_body body (set_header (codes "Content-Type") kind (set_status status new_response)))
page-HasWholeLines kind body status h =
    set_body-HasWholeLines body _
      (set_header-HasWholeLines _ kind _ h (set_status-HasWholeLines status))

pub image-HasWholeLines :
    (kind age body : Bytes) (status : StatusCode)
    → Unbroken kind
    → Unbroken age
    → HasWholeLines (
        set_body body (
          set_header
            (codes "Cache-Control")
            age
            (set_header (codes "Content-Type") kind (set_status status new_response))))
image-HasWholeLines kind age body status h k = set_body-HasWholeLines body _ (
    set_header-HasWholeLines _ age _ k
      (set_header-HasWholeLines _ kind _ h (set_status-HasWholeLines status)))
