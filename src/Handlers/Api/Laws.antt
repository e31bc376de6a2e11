-- ===== src/Handlers/Api/Laws.antt =====
-- src/handlers/api_handler.cc: what the entities behind the API do.
use bit_link.Prelude.{
  ℕ, ◌+◌, ◌<◌, ◌≤◌, ◌≡◌, ◌≢◌, ◌⊎◌, inl, inr, refl, sym, ap, ◌∙◌, subst, [], ◌∷◌, ◌++◌, Option, some,
  Bool, true, false, arith, length, leb, Bool-cases, append_assoc,
}
use bit_link.Str.{Bytes, codes, str_eq}
use bit_link.Str.Number.{pos, to_string}
use bit_link.Http.Request.{Request}
use bit_link.Http.Response.{Response, okay, created}
use bit_link.Handlers.FileSystem.{FileSystem, Holds, IsFileSystem}
use bit_link.Handlers.Api.Search.{id_path-ne, free_id_total}
use bit_link.Handlers.Api.{
  ApiHandler, answer, html, done_page, missing_page, server_error_page, id_path, base_path,
  handle_post, handle_put, handle_get, handle_delete, handle_request,
}

module _ (fs : FileSystem) (h : ApiHandler) where
  open fs use {State}

  module _ (size : State → ℕ) (law : IsFileSystem fs size) where
    held_file :
        (path contents : Bytes) (s : State)
        → Holds fs path contents s
        → handle_get fs h path s ≡ answer okay (codes "application/json") contents
    unfolding handle_get
    held_file path contents s p = rw (p.there, p.no_directory, p.regular, p.read) refl

    missing_file :
        (path : Bytes) (s : State)
        → fs.exists path s ≡ false
        → handle_get fs h path s ≡ missing_page
    unfolding handle_get
    missing_file path s gone = rw gone refl

    module _ (rel : Bytes) (some_rel : rel ≢ []) where
      abbrev uri : Bytes
      uri = codes "/api/" ++ rel

      abbrev base : Bytes
      base = h.root_directory ++ (codes "/" ++ rel)

      long_uri : leb (length uri) 5 ≡ false
      long_uri = elim (Bool-cases (leb (length uri) 5)) [
        | inl e ↦ absurd (some_rel (is_nil rel (ground arith)))
        | inr e ↦ e
      ]
        where
          is_nil : (r : Bytes) → leb (length (codes "/api/" ++ r)) 5 ≡ true → r ≡ []
          is_nil [] e = refl
          is_nil (c ∷ r) e = absurd (ground arith)

      -- What each method does to a path behind /api/.
      module _ (fuel : ℕ) (req : Request) (s : State) (here : req.uri ≡ uri) where
        request-post :
            req.method ≡ codes "POST"
            → handle_request fs h fuel req s ≡ handle_post fs h fuel base req.body s
        unfolding handle_request
        request-post m = rw (here, m, long_uri) (unfold str_eq in refl)

        request-put :
            req.method ≡ codes "PUT"
            → handle_request fs h fuel req s ≡ some (handle_put fs h base req.body s)
        unfolding handle_request
        request-put m = rw (here, m, long_uri) (unfold str_eq in refl)

        request-get :
            req.method ≡ codes "GET"
            → handle_request fs h fuel req s ≡ some (s, handle_get fs h base s)
        unfolding handle_request
        request-get m = rw (here, m, long_uri) (unfold str_eq in refl)

        request-delete :
            req.method ≡ codes "DELETE"
            → handle_request fs h fuel req s ≡ some (handle_delete fs h base s)
        unfolding handle_request
        request-delete m = rw (here, m, long_uri) (unfold str_eq in refl)

    append-ne_right : (s t : Bytes) → t ≢ [] → s ++ t ≢ []
    append-ne_right [] t ne e = ne e
    append-ne_right (c ∷ s) t ne e = cc

    append-ne : (s t : Bytes) → s ≢ [] → s ++ t ≢ []
    append-ne [] t ne e = ne refl
    append-ne (c ∷ s) t ne e = cc

    -- The files that can be read and are not at the path.
    abbrev pub Untouched : Bytes → State → State → Type 0
    Untouched path s s' =
        (other old : Bytes)
        → other ≢ path
        → fs.read_file other s ≡ some old
        → fs.read_file other s' ≡ some old

    -- A request for the same uri, or for one behind it.
    abbrev pub get_of : Request → Bytes → Request
    get_of req uri = record req { method = codes "GET"; uri = uri }

    request-held :
        (fuel : ℕ) (rel contents : Bytes) (req : Request) (s : State)
        → rel ≢ []
        → req.uri ≡ codes "/api/" ++ rel
        → req.method ≡ codes "GET"
        → Holds fs (h.root_directory ++ (codes "/" ++ rel)) contents s
        → handle_request fs h fuel req s ≡ some (s, answer okay (codes "application/json") contents)
    request-held fuel rel contents req s some_rel here get held =
        request-get rel some_rel fuel req s here get
        ∙ ap (λ (x : Response). some (s, x))
            (held_file (h.root_directory ++ (codes "/" ++ rel)) contents s held)

    no_directory :
        (path : Bytes) (s : State) → fs.exists path s ≡ false → fs.is_directory path s ≡ false
    no_directory path s free = elim (Bool-cases (fs.is_directory path s)) [
      | inl e ↦ let there = law.directory_exists path s e in absurd (ground arith)
      | inr e ↦ e
    ]

    -- On a file system that keeps the laws, with more fuel than there are paths, a POST for a path
    -- behind /api/ is answered by an id from 1 to one more than the paths: the first that is free.
    -- A GET for the path with that id is then answered by the body that was sent, and no other
    -- file that could be read has changed.
    pub handle_request-Created :
        (fuel : ℕ) (rel : Bytes) (req : Request) (s : State)
        → size s < fuel
        → rel ≢ []
        → req.uri ≡ codes "/api/" ++ rel
        → req.method ≡ codes "POST"
        → (id : ℕ) × (s' : State) × (handle_request fs h fuel req s
            ≡ some (s', html created (codes "{\"id\": " ++ (to_string (pos id) ++ codes "}"))))
          × (1 ≤ id)
          × (id ≤ size s + 1)
          × (fs.exists (id_path (base_path fs h req.uri) id) s ≡ false)
          × ((i : ℕ) → 1 ≤ i → i < id → fs.exists (id_path (base_path fs h req.uri) i) s ≡ true)
          × (handle_request fs h fuel (get_of req (id_path req.uri id)) s'
              ≡ some (s', answer okay (codes "application/json") req.body))
          × Untouched (id_path (base_path fs h req.uri) id) s s'
    unfolding handle_post
    handle_request-Created fuel rel req s enough some_rel here post =
        let path = h.root_directory ++ (codes "/" ++ rel) in
        let (id, found, above, few, free, taken) = free_id_total fs h size law fuel path s enough in
        let s' : State = fs.overwrite_file (id_path path id) req.body s in
        let held =
          law.written (id_path path id) req.body s (id_path-ne path id)
            (no_directory (id_path path id) s free) in
        let same : (i : ℕ) → id_path path i ≡ id_path (base_path fs h req.uri) i =
          λ i. rw here refl in
        let behind = codes "/" ++ to_string (pos id) in
        let uri : id_path req.uri id ≡ codes "/api/" ++ (rel ++ behind) = rw here refl in
        let at : path ++ behind ≡ h.root_directory ++ (codes "/" ++ (rel ++ behind)) =
          append_assoc h.root_directory (codes "/" ++ rel) behind in
        let get =
          request-held fuel (rel ++ behind) req.body (get_of req (id_path req.uri id)) s'
            (append-ne rel behind some_rel) uri refl
            (subst (λ p. Holds fs p req.body s') at held) in
        (
          id,
          s',
          request-post rel some_rel fuel req s here post ∙ rw (found, handle_post) refl,
          above,
          few,
          rw here free,
          rw here taken,
          get,
          λ other old ne e.
              law.others_written (id_path path id) req.body other old s (λ f. ne (f ∙ same id)) e,
        )

    -- On a file system that keeps the laws, a PUT for a path behind /api/ that is no directory is
    -- answered by 404 and changes nothing where the path is not there; otherwise it succeeds, a
    -- GET for the path is then answered by the body that was sent, and no other file that could be
    -- read has changed.
    pub handle_request-Updated :
        (fuel : ℕ) (rel : Bytes) (req : Request) (s : State)
        → rel ≢ []
        → req.uri ≡ codes "/api/" ++ rel
        → req.method ≡ codes "PUT"
        → fs.is_directory (base_path fs h req.uri) s ≡ false
        → (fs.exists (base_path fs h req.uri) s ≡ false)
            × (handle_request fs h fuel req s ≡ some (s, missing_page))
          ⊎ ((s' : State) × (handle_request fs h fuel req s
                ≡ some (s', done_page (codes "File updated successfully.")))
              × (handle_request fs h fuel (get_of req req.uri) s'
                  ≡ some (s', answer okay (codes "application/json") req.body))
              × Untouched (base_path fs h req.uri) s s')
    unfolding handle_put
    handle_request-Updated fuel rel req s some_rel here put no_dir =
        let path = h.root_directory ++ (codes "/" ++ rel) in
        let same : base_path fs h req.uri ≡ path = rw here refl in
        let done = request-put rel some_rel fuel req s here put in
        elim (Bool-cases (fs.exists path s)) [
          | inr gone ↦ inl (rw same gone, done ∙ rw (gone, handle_put) refl)
          | inl there ↦
              let s' : State = fs.overwrite_file path req.body s in
              let held =
                law.written path req.body s
                  (append-ne_right h.root_directory (codes "/" ++ rel) (λ e. cc))
                  (rw⁻¹ same no_dir) in
              inr (
                s',
                done ∙ rw (there, handle_put) refl,
                request-held fuel rel req.body (get_of req req.uri) s' some_rel here refl held,
                λ other old ne e.
                    law.others_written path req.body other old s (λ f. ne (f ∙ sym same)) e,
              )
        ]

    -- On a file system that keeps the laws, a DELETE for a path behind /api/ has four answers:
    -- success, after which a GET for the path is answered by 404 and every other file reads as
    -- before; 404 where the path is not there; a refusal; and an error where the file system did
    -- not remove it. After the second and the third nothing has changed.
    pub handle_request-Removed :
        (fuel : ℕ) (rel : Bytes) (req : Request) (s s' : State) (reply : Response)
        → rel ≢ []
        → req.uri ≡ codes "/api/" ++ rel
        → req.method ≡ codes "DELETE"
        → handle_request fs h fuel req s ≡ some (s', reply)
        → (reply ≡ done_page (codes "File deleted successfully."))
            × (fs.is_regular_file (base_path fs h req.uri) s ≡ true)
            × (handle_request fs h fuel (get_of req req.uri) s' ≡ some (s', missing_page))
            × Untouched (base_path fs h req.uri) s s'
          ⊎ (reply ≡ missing_page) × (fs.exists (base_path fs h req.uri) s ≡ false) × (s' ≡ s)
          ⊎ (reply ≡ server_error_page (codes "File is not a regular file and cannot be deleted."))
            × (s' ≡ s)
          ⊎ (reply ≡ server_error_page (codes "Error deleting file."))
            × (fs.remove (base_path fs h req.uri) s ≡ (s', false))
    unfolding handle_delete
    handle_request-Removed fuel rel req s s' reply some_rel here delete e =
        let path = h.root_directory ++ (codes "/" ++ rel) in
        let same : base_path fs h req.uri ≡ path = rw here refl in
        let outcome : handle_delete fs h path s ≡ (s', reply) =
          some-eq (sym (request-delete rel some_rel fuel req s here delete) ∙ e) in
        let is : (x : State) (y : Response)
            → handle_delete fs h path s ≡ (x, y)
            → (s' ≡ x) × (reply ≡ y) =
          λ x y f. (
            ap (λ (q : State × Response). q.0) (sym outcome ∙ f),
            ap (λ (q : State × Response). q.1) (sym outcome ∙ f),
          ) in
        elim (Bool-cases (fs.exists path s)) [
          | inr gone ↦
              let (u, v) = is s missing_page (rw (gone, handle_delete) refl) in
              inr (inl (v, rw same gone, u))
          | inl there ↦ elim (Bool-cases (fs.is_regular_file path s)) [
            | inr special ↦
                let (u, v) = is s _ (rw (there, special, handle_delete) refl) in
                inr (inr (inl (v, u)))
            | inl regular ↦ elim (Bool-cases (fs.remove path s).1) [
              | inr failed ↦
                  let (u, v) =
                    is (fs.remove path s).0 _ (rw (there, regular, failed, handle_delete) refl) in
                  inr (inr (inr (v, rw same (pair (fs.remove path s) s' false u failed))))
              | inl removed ↦
                  let (u, v) =
                    is (fs.remove path s).0 _ (rw (there, regular, removed, handle_delete) refl) in
                  let f = pair (fs.remove path s) s' true u removed in
                  let gone = law.removed path s s' f in
                  inl (
                    v,
                    rw same regular,
                    request-get rel some_rel fuel (get_of req req.uri) s' here refl
                        ∙ ap (λ (x : Response). some (s', x)) (missing_file path s' gone),
                    λ other old ne g.
                        law.others_removed path other s s' true (λ k. ne (k ∙ sym same)) f ∙ g,
                  )
            ]
          ]
        ]
      where
        some-eq : {A : Type 0} {x y : A} → ◌≡◌ {A = Option A} (some x) (some y) → x ≡ y
        some-eq e = cc

        pair : (q : State × Bool) (x : State) (b : Bool) → x ≡ q.0 → q.1 ≡ b → q ≡ (x, b)
        pair (y, c) x b e f = rw (e, f) refl
