-- ===== src/Service/FileUpload.antt =====
-- src/services/file_upload_service.cc. The database is behind its interface; the files on the disk
-- and the QR encoder are parameters. Addresses are truncated as in Service/Privacy: the source has
-- a copy of that function.
pub mod Upload
pub mod Delete
use bit_link.Prelude.{
  ℕ, zero, suc, ◌+◌, ◌-◌, ◌*◌, ◌/◌, ◌%◌, ◌<◌, ◌≤◌, ◌≡◌, ◌≢◌, ◌↔◌, ◌⊎◌, inl, inr, refl, sym, ap, ◌∙◌,
  subst, List, [], ◌∷◌, ◌++◌, Option, none, some, Bool, true, false, not, ◌&&◌, ◌||◌, ltb, leb,
  ◌==◌, ==_iff, if◌then◌else◌, length, take, drop, get_elem?, All, All-append, length-append,
  append_assoc, append-nil, arith, Bool-cases, Option-cases, if_both, option_both,
}
use bit_link.Str.{Bytes, codes, is_empty, str_eq}
use bit_link.Models.{LinkData, ClickRecord}
use bit_link.Database.{Database}
use bit_link.SlugGenerator.{Generator, Result, returns, invalid_argument, generate_unique_code}
use bit_link.FileValidator.Validate.{validate_file_type, is_within_size_limit}
use bit_link.FileValidator.Sanitize.{sanitize_filename}
use bit_link.Service.Privacy.{truncate_ip_for_privacy, clean_base}

-- What comes of a file that is to be read: its content, no open file, or an exception.
pub data Reading : Type 0 where
  loaded : Bytes → Reading
  closed broken : Reading

-- The calls of std::filesystem and of streams. `false` is a failure or, but for `exists`, an
-- exception; of `exists` an exception is `none`.
pub record Disk : Type 1 where
  pub State : Type 0
  pub create_directories : Bytes → State → State × Bool
  pub write : Bytes → Bytes → State → State × Bool
  pub remove : Bytes → State → State × Bool
  pub exists : Bytes → State → Option Bool
  pub read : Bytes → State → Reading

pub record UploadResult : Type 0 where
  pub success : Bool
  pub code : Bytes
  pub short_url : Bytes
  pub qr_code_data_url : Bytes
  pub file_path : Bytes
  pub original_filename : Bytes
  pub error_message : Bytes

abbrev pub upload_failure : Bytes → UploadResult
upload_failure message = record {
  success = false;
  code = [];
  short_url = [];
  qr_code_data_url = [];
  file_path = [];
  original_filename = [];
  error_message = message;
}

unfoldable pub build_file_url : Bytes → Bytes → Bytes
build_file_url base_url code = clean_base base_url ++ (codes "/f/" ++ code)

module _ (db : Database) (disk : Disk) (upload_dir : Bytes) where
  -- The constructor's step, whose result is not looked at.
  unfoldable pub ensure_upload_directory_exists : disk.State → disk.State × Bool
  ensure_upload_directory_exists = disk.create_directories upload_dir

  abbrev pub subdirectory : Bytes → Bytes
  subdirectory code = upload_dir ++ (codes "/" ++ take 2 code)

  abbrev pub path_in : Bytes → Bytes → Bytes → Bytes
  path_in full_dir code filename = full_dir ++ (codes "/" ++ (code ++ (codes "_" ++ filename)))

  unfoldable pub generate_file_path : Bytes → Bytes → disk.State → disk.State × Bytes
  generate_file_path code filename d =
      let (d', made) = disk.create_directories (subdirectory code) d in
      (d', path_in (if made then subdirectory code else upload_dir) code filename)

  unfoldable pub get_file_metadata : Bytes → db.State → Option LinkData
  get_file_metadata code s = elim (db.get_link code s) [
    | none ↦ none
    | some link_data ↦ if str_eq link_data.kind (codes "file") then some link_data else none
  ]

  unfoldable pub get_file_path : Bytes → db.State → Option Bytes
  get_file_path code s = elim (db.get_link code s) [
    | none ↦ none
    | some link_data ↦
        if str_eq link_data.kind (codes "file") then some link_data.destination else none
  ]

  -- The file goes only where its record went.
  unfoldable pub delete_file : Bytes → db.State → disk.State → (db.State × disk.State) × Bool
  delete_file code s d = elim (get_file_path code s) [
    | none ↦ ((s, d), false)
    | some file_path ↦
        let (s', deleted) = db.delete_link code s in
        let (d', removed) = disk.remove file_path d in
        if deleted then ((s', d'), removed) else ((s', d), false)
  ]

  unfoldable pub record_file_access : Bytes → Bytes → Bytes → Bytes → db.State → db.State × Bool
  record_file_access code ip_address user_agent referrer s = elim (get_file_metadata code s) [
    | none ↦ (s, false)
    | some link_data ↦
        db.record_click
          (record {
            code = code;
            ip_truncated = truncate_ip_for_privacy ip_address;
            user_agent = user_agent;
            referrer = referrer;
            timestamp = db.now s;
          })
          s
  ]

  module _ (r : Generator) (qr : Bytes → Option Bytes) (base_url : Bytes) where
    abbrev pub uploaded : Bytes → Bytes → Bytes → UploadResult
    uploaded code file_path filename = record {
      success = true;
      code = code;
      short_url = build_file_url base_url code;
      qr_code_data_url = elim (qr (build_file_url base_url code)) [
        | none ↦ []
        | some data_url ↦ data_url
      ];
      file_path = file_path;
      original_filename = filename;
      error_message = [];
    }

    -- The record of a file that is written, or the file is removed again.
    unfoldable pub insert_file :
        Bytes → Bytes → Bytes → db.State → disk.State → (db.State × disk.State) × UploadResult
    insert_file code file_path filename s d =
        let (s', stored) = db.insert_link code file_path (codes "file") s in
        if stored then ((s', d), uploaded code file_path filename) else (
          (s', (disk.remove file_path d).0),
          upload_failure (codes "Failed to store file record in database"),
        )

    unfoldable pub write_and_insert :
        Bytes
        → Bytes
        → Bytes
        → Bytes
        → db.State
        → disk.State
        → (db.State × disk.State) × UploadResult
    write_and_insert code file_path filename file_data s d =
        let (d', written) = disk.write file_path file_data d in
        if written
        then insert_file code file_path filename s d'
        else ((s, d'), upload_failure (codes "Failed to write file to disk"))

    -- The steps behind a generated code.
    unfoldable pub store_file :
        Bytes
        → Bytes
        → Bytes
        → Bytes
        → db.State
        → disk.State
        → (db.State × disk.State) × UploadResult
    store_file code filename sanitized_filename file_data s d =
        if is_empty code
        then ((s, d), upload_failure (codes "Failed to generate unique code"))
        else (let (d', file_path) = generate_file_path code sanitized_filename d in
            write_and_insert code file_path filename file_data s d')

    unfoldable pub upload_file :
        Bytes
        → Bytes
        → db.State
        → disk.State
        → r.State
        → Result (((db.State × disk.State) × UploadResult) × r.State)
    upload_file filename file_data s d g =
        let validation_result = validate_file_type filename file_data in
        let sanitized_filename = sanitize_filename filename in
        if not validation_result.is_valid
        then returns (((s, d), upload_failure validation_result.error_message), g)
        else if not (is_within_size_limit (length file_data))
        then returns (((s, d), upload_failure (codes "File size exceeds maximum limit (25MB)")), g)
        else if is_empty sanitized_filename
        then returns (((s, d), upload_failure (codes "Invalid filename")), g)
        else elim (generate_unique_code r db 8 100 s g) [
          | invalid_argument message ↦ invalid_argument message
          | returns (code, g') ↦
              returns (store_file code filename sanitized_filename file_data s d, g')
        ]
