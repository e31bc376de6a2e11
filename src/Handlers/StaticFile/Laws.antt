-- ===== src/Handlers/StaticFile/Laws.antt =====
-- src/handlers/static_file_handler.cc: when a file is served.
use bit_link.Prelude.{◌≡◌, inl, inr, refl, sym, ap, ◌∙◌, some, true, Bool-cases, Option-cases}
use bit_link.Str.{Bytes, codes, str_eq, starts_with}
use bit_link.Str.Search.{str_eq_iff}
use bit_link.Http.Request.{Request}
use bit_link.Http.Response.{
  StatusCode, okay, forbidden, not_found, internal_server_error, Response, set_status, set_header,
  set_body,
}
use bit_link.Handlers.StaticFile.{
  Tree, StaticFileHandler, page, missing_page, method_page, mismatch_page, forbidden_page,
  relative_path, file_answer, handle_request,
}

module _ (fs : Tree) (h : StaticFileHandler) where
  -- The request was a GET below the serving path, the canonical path begins with that of the root,
  -- and the answer is what is in the file.
  pub record IsServed (req : Request) : Type 0 where
    pub get : req.method ≡ codes "GET"
    pub below : starts_with h.serving_path req.uri ≡ true
    pub inside :
        starts_with
          (fs.weakly_canonical h.root_directory)
          (fs.weakly_canonical (fs.join h.root_directory (relative_path h req.uri)))
        ≡ true
    pub content : Bytes
    pub file : fs.open_file (fs.join h.root_directory (relative_path h req.uri)) ≡ some content
    pub body : (handle_request fs h req).body ≡ content

  page-okay :
      (status : StatusCode) (body : Bytes) (r : Response)
      → r ≡ page status body
      → r.status ≡ okay
      → status ≡ okay
  unfolding page set_body set_header set_status
  page-okay status body r same e = ap (λ (x : Response). x.status) (sym same) ∙ e

  file_answer-okay :
      (path : Bytes)
      → (file_answer fs h path).status ≡ okay
      → (content : Bytes) × (fs.open_file path ≡ some content)
        × ((file_answer fs h path).body ≡ content)
  unfolding file_answer set_body
  file_answer-okay path e = elim (Option-cases (fs.open_file path)) [
    | inl f ↦
        let same : file_answer fs h path ≡ missing_page = rw (f, file_answer) refl in
        let bad = page-okay not_found _ (file_answer fs h path) same e in cc
    | inr (content, f) ↦ (content, f, rw (f, file_answer) refl)
  ]

  -- An answer 200 of the handler for static files is to a GET whose URI begins with the serving
  -- path, and its body is the content of the file at the path below the root, whose canonical path
  -- begins with the text of the root's.
  pub handle_request-IsServed :
      (req : Request) → (handle_request fs h req).status ≡ okay → IsServed req
  unfolding handle_request
  handle_request-IsServed req e = elim (Bool-cases (str_eq req.method (codes "GET"))) [
    | inr f ↦
        let same : handle_request fs h req ≡ method_page = rw (f, handle_request) refl in
        let bad = page-okay not_found _ (handle_request fs h req) same e in cc
    | inl get ↦ elim (Bool-cases (starts_with h.serving_path req.uri)) [
      | inr f ↦
          let same : handle_request fs h req ≡ mismatch_page = rw (get, f, handle_request) refl in
          let bad = page-okay internal_server_error _ (handle_request fs h req) same e in cc
      | inl below ↦
          elim (Bool-cases (
            starts_with (fs.weakly_canonical h.root_directory)
              (fs.weakly_canonical (fs.join h.root_directory (relative_path h req.uri))))) [
                | inr f ↦
                    let same : handle_request fs h req ≡ forbidden_page =
                      rw (get, below, f, handle_request) refl in
                    let bad = page-okay forbidden _ (handle_request fs h req) same e in cc
                | inl inside ↦
                    let path = fs.join h.root_directory (relative_path h req.uri) in
                    let same : handle_request fs h req ≡ file_answer fs h path =
                      rw (get, below, inside, handle_request) refl in
                    let (content, file, body) =
                      file_answer-okay path (ap (λ (r : Response). r.status) (sym same) ∙ e) in
                    record {
                      get = (str_eq_iff req.method (codes "GET")).0 get;
                      below = below;
                      inside = inside;
                      content = content;
                      file = file;
                      body = ap (λ (r : Response). r.body) same ∙ body;
                    }
              ]
    ]
  ]
