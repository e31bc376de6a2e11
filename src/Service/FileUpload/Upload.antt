-- ===== src/Service/FileUpload/Upload.antt =====
-- src/services/file_upload_service.cc: `upload_file`.
use bit_link.Prelude.{
  ◌≤◌, ◌≡◌, ◌≢◌, ◌⊎◌, inl, inr, refl, sym, subst, [], ◌∷◌, Option, none, some, Bool, true, false,
  leb, if◌then◌else◌, length, All, All-append, arith, Bool-cases,
}
use bit_link.Prelude.{All-take}
use bit_link.Str.{Bytes, codes, is_empty, str_eq, Lacks}
use bit_link.Database.{Database, IsLinkTable}
use bit_link.SlugGenerator.{Generator, returns}
use bit_link.SlugGenerator.Codes.{IsAlnum}
use bit_link.SlugGenerator.Unique.{IsChosen, generate_unique_code-IsChosen}
use bit_link.FileValidator.Validate.{validate_file_type, is_within_size_limit}
use bit_link.FileValidator.Sanitize.{sanitize_filename}
use bit_link.FileValidator.Sanitize.Laws.{IsSafe, sanitize_filename-IsName}
use bit_link.Service.Url.Shorten.{alnum-Lacks}
use bit_link.Service.FileUpload.{
  Disk, loaded, UploadResult, upload_failure, subdirectory, path_in, generate_file_path, uploaded,
  insert_file, write_and_insert, store_file, upload_file,
}

-- What the service relies on, of the disk and of `content`, the bytes of the file at a path.
pub record IsDisk (disk : Disk) (content : Bytes → disk.State → Option Bytes) : Type 0 where
  pub written :
      (path x : Bytes) (d d' : disk.State)
      → Lacks 0 path
      → disk.write path x d ≡ (d', true)
      → content path d' ≡ some x
  pub readable :
      (path x : Bytes) (d : disk.State)
      → Lacks 0 path
      → disk.read path d ≡ loaded x
      → content path d ≡ some x
  pub removed :
      (path : Bytes) (d d' : disk.State)
      → Lacks 0 path
      → disk.remove path d ≡ (d', true)
      → content path d' ≡ none

safe-Lacks : (s : Bytes) → All IsSafe s → Lacks 0 s
safe-Lacks [] h = tt
safe-Lacks (c ∷ s) (p, h) = (ground arith, safe-Lacks s h)

-- The path among what a code may hold.
abbrev pub path_of : Option (Bytes × Bytes) → Option Bytes
path_of none = none
path_of (some (destination, kind)) = if str_eq kind (codes "file") then some destination else none

module _ (db : Database) (disk : Disk) (upload_dir : Bytes) (r : Generator)
    (qr : Bytes → Option Bytes) (base_url : Bytes)
    (stored : Bytes → db.State → Option (Bytes × Bytes)) (Answers : Bytes → db.State → Type 0)
    (t : IsLinkTable db stored Answers) (content : Bytes → disk.State → Option Bytes)
    (k : IsDisk disk content) (plain_dir : Lacks 0 upload_dir) where
  path_in-Lacks :
      (dir code name : Bytes)
      → Lacks 0 dir
      → All IsAlnum code
      → All IsSafe name
      → Lacks 0 (path_in db disk upload_dir dir code name)
  path_in-Lacks dir code name h alnum safe =
      let append = All-append (λ d. d ≢ 0) in
      append dir _ h (
        append (codes "/") _ (ground arith) (
          append code _ (alnum-Lacks code alnum)
            (append (codes "_") _ (ground arith) (safe-Lacks name safe))))

  -- What a successful upload leaves behind: the record of the file under a new code of 8 letters
  -- and digits, every other code as it was, and the content at the path of the record, below the
  -- directory for uploads.
  pub record IsUpload (filename file_data : Bytes) (s s' : db.State) (d' : disk.State)
      (result : UploadResult) : Type 0 where
    pub valid : (validate_file_type filename file_data).is_valid ≡ true
    pub in_limit : length file_data ≤ 26214400
    pub answer :
        result ≡ uploaded db disk upload_dir r qr base_url result.code result.file_path filename
    pub long : length result.code ≡ 8
    pub alnum : All IsAlnum result.code
    pub free : stored result.code s ≡ none
    pub new : stored result.code s' ≡ some (result.file_path, codes "file")
    pub others : (j : Bytes) → j ≢ result.code → stored j s' ≡ stored j s
    pub file : content result.file_path d' ≡ some file_data
    pub place :
        (dir : Bytes) × ((dir ≡ upload_dir) ⊎ (dir ≡ subdirectory db disk upload_dir result.code))
        × (result.file_path
            ≡ path_in db disk upload_dir dir result.code (sanitize_filename filename))

  abbrev pub Uploaded : Bytes → Bytes → db.State → (db.State × disk.State) × UploadResult → Type 0
  Uploaded filename file_data s ((s', d'), result) =
      IsUpload filename file_data s s' d' result
      ⊎ (result.success ≡ false) × ((j : Bytes) → stored j s' ≡ stored j s)

  module _ (filename file_data : Bytes)
      (valid : (validate_file_type filename file_data).is_valid ≡ true)
      (in_limit : length file_data ≤ 26214400) (code dir : Bytes) (long : length code ≡ 8)
      (alnum : All IsAlnum code)
      (place : (dir ≡ upload_dir) ⊎ (dir ≡ subdirectory db disk upload_dir code)) where
    abbrev path : Bytes
    path = path_in db disk upload_dir dir code (sanitize_filename filename)

    dir-Lacks : (dir ≡ upload_dir) ⊎ (dir ≡ subdirectory db disk upload_dir code) → Lacks 0 dir
    dir-Lacks (inl e) = subst (Lacks 0) (sym e) plain_dir
    dir-Lacks (inr e) = subst (Lacks 0) (sym e) (
        All-append (λ c. c ≢ 0) upload_dir _ plain_dir
          (All-append (λ c. c ≢ 0) (codes "/") _ (ground arith)
            (All-take (λ c. c ≢ 0) 2 code (alnum-Lacks code alnum))))

    path-Lacks : Lacks 0 path
    path-Lacks =
        path_in-Lacks dir code (sanitize_filename filename) (dir-Lacks place) alnum
          (sanitize_filename-IsName filename).safe

    insert_step :
        (s : db.State) (d : disk.State) (q : db.State × Bool)
        → content path d ≡ some file_data
        → db.insert_link code path (codes "file") s ≡ q
        → Uploaded filename file_data s (
            if q.1
            then ((q.0, d), uploaded db disk upload_dir r qr base_url code path filename)
            else (
              (q.0, (disk.remove path d).0),
              upload_failure (codes "Failed to store file record in database"),
            ))
    insert_step s d (s', true) file e =
        let text = alnum-Lacks code alnum in
        let (free, new) =
          t.insert_link_new code path (codes "file") s s' text path-Lacks (ground arith) e in
        inl (record {
          valid = valid;
          in_limit = in_limit;
          answer = refl;
          long = long;
          alnum = alnum;
          free = free;
          new = new;
          others = λ j ne. t.insert_link_others code path (codes "file") j s s' text ne e;
          file = file;
          place = (dir, place, refl);
        })
    insert_step s d (s', false) file e =
        inr (refl, λ j. t.insert_link_failed code path (codes "file") j s s' e)

    write_step :
        (s : db.State) (d : disk.State) (q : disk.State × Bool)
        → disk.write path file_data d ≡ q
        → Uploaded filename file_data s (
            if q.1
            then insert_file db disk upload_dir r qr base_url code path filename s q.0
            else ((s, q.0), upload_failure (codes "Failed to write file to disk")))
    unfolding insert_file
    write_step s d (d', true) e =
        insert_step s d' (db.insert_link code path (codes "file") s)
          (k.written path file_data d d' path-Lacks e) refl
    write_step s d (d', false) e = inr (refl, λ j. refl)

    write_and_insert-Uploaded :
        (s : db.State) (d : disk.State)
        → Uploaded filename file_data s
            (write_and_insert db disk upload_dir r qr base_url code path filename file_data s d)
    unfolding write_and_insert
    write_and_insert-Uploaded s d = write_step s d (disk.write path file_data d) refl

  named : (filename : Bytes) → is_empty (sanitize_filename filename) ≡ false
  named filename = ground (arith, (sanitize_filename-IsName filename).not_dots)

  not_empty : (code : Bytes) → length code ≡ 8 → is_empty code ≡ false
  not_empty [] h = absurd (omega arith)
  not_empty (c ∷ s) h = refl

  at_path :
      (filename file_data code : Bytes) (s : db.State) (q : disk.State × Bool)
      → (validate_file_type filename file_data).is_valid ≡ true
      → length file_data ≤ 26214400
      → length code ≡ 8
      → All IsAlnum code
      → Uploaded filename file_data s (
          write_and_insert db disk upload_dir r qr base_url code
            (path_in db disk upload_dir
              (if q.1 then subdirectory db disk upload_dir code else upload_dir)
              code
              (sanitize_filename filename))
            filename
            file_data
            s
            q.0)
  at_path filename file_data code s (d, true) valid limit long alnum =
      write_and_insert-Uploaded filename file_data valid limit code
        (subdirectory db disk upload_dir code) long alnum (inr refl) s d
  at_path filename file_data code s (d, false) valid limit long alnum =
      write_and_insert-Uploaded filename file_data valid limit code upload_dir long alnum (inl refl)
        s d

  store_file-Uploaded :
      (filename file_data code : Bytes) (s : db.State) (d : disk.State) (g : r.State)
      → (validate_file_type filename file_data).is_valid ≡ true
      → length file_data ≤ 26214400
      → IsChosen r db 100 8 s g code
      → Uploaded filename file_data s (
          store_file db disk upload_dir r qr base_url code filename
            (sanitize_filename filename)
            file_data
            s
            d)
  unfolding store_file generate_file_path
  store_file-Uploaded filename file_data code s d g valid limit (inl (_, long, alnum)) =
      rw (not_empty code long) (
        at_path filename file_data code s
          (disk.create_directories (subdirectory db disk upload_dir code) d) valid limit long alnum)
  store_file-Uploaded filename file_data code s d g valid limit (inr (none_free, _)) =
      rw none_free (inr (refl, λ j. refl))

  -- The path of an upload holds no NUL.
  pub file_path-Lacks :
      (filename file_data : Bytes) (s s' : db.State) (d' : disk.State) (result : UploadResult)
      → IsUpload filename file_data s s' d' result
      → Lacks 0 result.file_path
  file_path-Lacks filename file_data s s' d' result up =
      let (dir, place, e) = up.place in
      subst (Lacks 0) (sym e) (
        path_in-Lacks dir result.code (sanitize_filename filename)
          (dir-Lacks filename file_data up.valid up.in_limit result.code dir up.long up.alnum place
            place)
          up.alnum (sanitize_filename-IsName filename).safe)

  -- For a directory whose name has no NUL, uploading never throws. It succeeds only for a valid
  -- file of at most 25 MB, and then stores its path of kind "file" under a code of 8 letters and
  -- digits that was free, leaves every other code alone, and the file at that path, which lies in
  -- the directory for uploads or in one of its subdirectories and ends in the code and the
  -- sanitized name, holds what was sent; where it fails, every code keeps what it had.
  pub upload_file-Uploaded :
      (filename file_data : Bytes) (s : db.State) (d : disk.State) (g : r.State)
      → (outcome : (db.State × disk.State) × UploadResult) × (g' : r.State) × (upload_file db disk
            upload_dir r qr base_url filename file_data s d g
          ≡ returns (outcome, g'))
        × Uploaded filename file_data s outcome
  unfolding upload_file is_within_size_limit
  upload_file-Uploaded filename file_data s d g =
      elim (Bool-cases (validate_file_type filename file_data).is_valid) [
        | inr bad ↦ (
          ((s, d), upload_failure (validate_file_type filename file_data).error_message),
          g,
          rw (bad, upload_file) refl,
          inr (refl, λ j. refl),
        )
        | inl valid ↦ elim (Bool-cases (leb (length file_data) 26214400)) [
          | inr large ↦ (
            ((s, d), upload_failure (codes "File size exceeds maximum limit (25MB)")),
            g,
            rw (valid, large, upload_file) refl,
            inr (refl, λ j. refl),
          )
          | inl small ↦
              let (code, g', made, chosen) =
                generate_unique_code-IsChosen r db 8 100 s g (omega arith) (omega arith) in
              (
                store_file db disk upload_dir r qr base_url code filename
                    (sanitize_filename filename) file_data s d,
                g',
                rw (valid, small, named filename, made, upload_file) refl,
                store_file-Uploaded filename file_data code s d g valid (ground arith) chosen,
              )
        ]
      ]
