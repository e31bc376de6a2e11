-- ===== src/Service/FileUpload/Delete.antt =====
-- src/services/file_upload_service.cc: `get_file_path` and `delete_file` behind `upload_file`.
use bit_link.Prelude.{
  ◌≡◌, inl, inr, refl, ap, ◌∙◌, subst, Option, none, some, Bool, true, false, if◌then◌else◌, arith,
  Option-cases,
}
use bit_link.Str.{Bytes, codes, str_eq, Lacks}
use bit_link.Str.Search.{str_eq_iff}
use bit_link.Database.{Database, IsLinkTable}
use bit_link.SlugGenerator.{Generator, returns}
use bit_link.Service.Url.Shorten.{alnum-Lacks}
use bit_link.Service.FileUpload.{Disk, UploadResult, get_file_path, upload_file, delete_file}
use bit_link.Service.FileUpload.Upload.{IsDisk, Uploaded, upload_file-Uploaded}

-- The path among what a code may hold.
abbrev pub path_of : Option (Bytes × Bytes) → Option Bytes
path_of none = none
path_of (some (destination, kind)) = if str_eq kind (codes "file") then some destination else none

module _ (db : Database) (disk : Disk) (upload_dir : Bytes)
    (stored : Bytes → db.State → Option (Bytes × Bytes)) (Answers : Bytes → db.State → Type 0)
    (t : IsLinkTable db stored Answers) (content : Bytes → disk.State → Option Bytes)
    (k : IsDisk disk content) where
  get_file_path-stored :
      (code : Bytes) (s : db.State)
      → Lacks 0 code
      → Answers code s
      → get_file_path db disk upload_dir code s ≡ path_of (stored code s)
  unfolding get_file_path
  get_file_path-stored code s text answers = elim (Option-cases (db.get_link code s)) [
    | inl e ↦ rw (t.get_link_missing code s text answers e) (rw (e, get_file_path))
    | inr (l, e) ↦ rw (t.get_link_stored code s l text e) (rw (e, get_file_path))
  ]

  -- For a directory whose name has no NUL, the code of an upload that succeeded gives the path
  -- that was returned, as long as the query is answered, and the file there holds what was sent.
  pub get_file_path-upload_file :
      (r : Generator) (qr : Bytes → Option Bytes) (base_url : Bytes)
      (plain_dir : Lacks 0 upload_dir) (filename file_data : Bytes) (s s' : db.State)
      (d d' : disk.State) (g g' : r.State) (result : UploadResult)
      → upload_file db disk upload_dir r qr base_url filename file_data s d g
        ≡ returns (((s', d'), result), g')
      → result.success ≡ true
      → Answers result.code s'
      → (get_file_path db disk upload_dir result.code s' ≡ some result.file_path)
        × (content result.file_path d' ≡ some file_data)
  get_file_path-upload_file r qr base_url plain_dir filename file_data s s' d d' g g' result e won
        answers =
      let (outcome, g'', e', done) =
        upload_file-Uploaded db disk upload_dir r qr base_url stored Answers t content k plain_dir
          filename file_data s d g in
      let same : outcome ≡ ((s', d'), result) = ground arith in
      elim (subst
        (Uploaded db disk upload_dir r qr base_url stored Answers t content k plain_dir filename
          file_data s)
        same done) [
          | inr (lost, _) ↦ cc
          | inl up ↦ (
            get_file_path-stored result.code s' (alnum-Lacks result.code up.alnum) answers
                ∙ ap path_of up.new
                ∙ unfold str_eq in refl,
            up.file,
          )
        ]

  stored-get_file_path :
      (code path : Bytes) (s : db.State)
      → Lacks 0 code
      → get_file_path db disk upload_dir code s ≡ some path
      → stored code s ≡ some (path, codes "file")
  unfolding get_file_path
  stored-get_file_path code path s text e = elim (Option-cases (db.get_link code s)) [
    | inl f ↦ absurd (no_path f)
    | inr (l, f) ↦
        let found = t.get_link_stored code s l text f in
        ground (arith, found, str_eq_iff l.kind (codes "file"))
  ]
    where
      no_path : db.get_link code s ≡ none → ⊥
      no_path f = ground arith

  delete_step :
      (code path : Bytes) (s s' : db.State) (d d' : disk.State) (q : db.State × Bool)
      (p : disk.State × Bool)
      → Lacks 0 code
      → db.delete_link code s ≡ q
      → disk.remove path d ≡ p
      → ◌≡◌ {A = (db.State × disk.State) × Bool}
          (if q.1 then ((q.0, p.0), p.1) else ((q.0, d), false))
          ((s', d'), true)
      → (stored code s' ≡ none) × (Lacks 0 path → content path d' ≡ none)
  delete_step code path s s' d d' (s1, false) p text e f same = cc
  delete_step code path s s' d d' (s1, true) (d1, false) text e f same = cc
  delete_step code path s s' d d' (s1, true) (d1, true) text e f same =
      let gone = ap (λ x. x.0) same in
      (
        subst (λ x. stored code x ≡ none) (ap (λ x. x.0) gone)
            (t.delete_link_gone code s s1 text e).1,
        λ plain.
            subst (λ x. content path x ≡ none) (ap (λ x. x.1) gone) (k.removed path d d1 plain f),
      )

  -- For a code without NUL, and where the path that is recorded for it has none either, a deletion
  -- that reports success was of a code that stood for a file, and then the code stands for nothing
  -- and the file at its path is gone.
  pub delete_file-Deleted :
      (code : Bytes) (s s' : db.State) (d d' : disk.State)
      → Lacks 0 code
      → ((path : Bytes) → stored code s ≡ some (path, codes "file") → Lacks 0 path)
      → delete_file db disk upload_dir code s d ≡ ((s', d'), true)
      → (path : Bytes) × (stored code s ≡ some (path, codes "file"))
        × (stored code s' ≡ none)
        × (content path d' ≡ none)
  unfolding delete_file
  delete_file-Deleted code s s' d d' text plain e =
      elim (Option-cases (get_file_path db disk upload_dir code s)) [
        | inl none_there ↦ absurd (no_file none_there)
        | inr (path, found) ↦
            let recorded = stored-get_file_path code path s text found in
            let (gone, removed) =
              delete_step code path s s' d d' (db.delete_link code s) (disk.remove path d) text refl
                refl (ground (arith, found)) in
            (path, recorded, gone, removed (plain path recorded))
      ]
    where
      no_file : get_file_path db disk upload_dir code s ≡ none → ⊥
      no_file f = ground arith
