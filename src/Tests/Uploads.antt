-- ===== src/Tests/Uploads.antt =====
-- Uploads to a disk in memory, and names of files.
use bit_link.Prelude.{
  ℕ, zero, suc, ◌≡◌, refl, ap, ◌∙◌, subst, [], ◌∷◌, ◌++◌, Option, none, some, Bool, true, false,
  ◌&&◌, arith,
}
use bit_link.Str.{Bytes, codes, Lacks, str_eq, ends_in, find_last_where, is_member, lower}
use bit_link.StrMap.{StrMap, get, put, remove, get-put_self, get-remove}
use bit_link.Str.Search.{str_eq_refl}
use bit_link.Models.{LinkData}
use bit_link.Database.Sqlite
use bit_link.Database.Sqlite.{c_str}
use bit_link.Database.Sqlite.Interface
use bit_link.Database.Sqlite.Tables.{find_link, remove_links, remove_clicks}
use bit_link.SlugGenerator.{returns}
use bit_link.FileValidator.Types.{allowed_extensions, get_file_extension}
use bit_link.FileValidator.Validate.{validate_file_type}
use bit_link.FileValidator.Validate.Laws.{is_valid-validate_file_type}
use bit_link.FileValidator.Sanitize.{sanitize_filename, limit_length}
use bit_link.FileValidator.Sanitize.Laws.{IsName, sanitize_filename-IsName}
use bit_link.FileValidator.Sanitize.Limit.{limit_length_long}
use bit_link.Service.FileUpload.{
  Reading, loaded, closed, Disk, UploadResult, upload_file, get_file_path, delete_file, store_file,
  write_and_insert, insert_file, generate_file_path, build_file_url,
}
use bit_link.Service.FileUpload.Upload.{IsDisk, Uploaded, upload_file-Uploaded}
use bit_link.Service.FileUpload.Delete.{get_file_path-upload_file, delete_file-Deleted}
use bit_link.Service.Privacy.{clean_base}
use bit_link.Tests.Links.{Memory, memory_engine, memory_engine-Answers, memory_db, no_links}
use bit_link.Tests.Codes.{counter, stored, links, no_qr, base, generate_run}

abbrev is_there : Bytes → StrMap Bytes → Bool
is_there path files = elim (get path files) [ none ↦ false | some x ↦ true ]

abbrev read_file : Option Bytes → Reading
read_file none = closed
read_file (some x) = loaded x

read_file-contents : (o : Option Bytes) (x : Bytes) → read_file o ≡ loaded x → o ≡ some x
read_file-contents none x e = cc
read_file-contents (some y) x e = cc

abbrev pub memory_disk : Disk
memory_disk = record {
  State = StrMap Bytes;
  create_directories = λ path files. (files, true);
  write = λ path x files. (put path x files, true);
  exists = λ path files. some (is_there path files);
  read = λ path files. read_file (get path files);
  remove = λ path files. (remove path files, is_there path files);
}

pub memory_disk-IsDisk : IsDisk memory_disk get
memory_disk-IsDisk = record {
  written = λ path x d d' text e.
      subst (λ m. get path m ≡ some x) (ap (λ (q : StrMap Bytes × Bool). q.0) e)
        (get-put_self path x d);
  readable = λ path x d text e. read_file-contents (get path d) x e;
  removed = λ path d d' text e.
      subst (λ m. get path m ≡ none) (ap (λ (q : StrMap Bytes × Bool). q.0) e)
        (ground (arith, get-remove path path d, str_eq_refl path));
}

abbrev pub up : Bytes
up = codes "up"

abbrev name : Bytes
name = codes "../a.txt"

abbrev greeting : Bytes
greeting = codes "hi"

abbrev file_answer : UploadResult
file_answer = record {
  success = true;
  code = codes "abcdefgh";
  short_url = codes "http://b.li/f/abcdefgh";
  qr_code_data_url = [];
  file_path = codes "up/ab/abcdefgh__a.txt";
  original_filename = name;
  error_message = [];
}

abbrev file_link : LinkData
file_link = record {
  code = codes "abcdefgh";
  destination = codes "up/ab/abcdefgh__a.txt";
  kind = codes "file";
  created = 1700000000;
}

abbrev file_stored : Memory
file_stored = (record { links = file_link ∷ []; clicks = [] }, 1)

abbrev disk_after : StrMap Bytes
disk_after = (codes "up/ab/abcdefgh__a.txt", greeting) ∷ []

valid_run : (validate_file_type name greeting).is_valid ≡ true
unfolding validate_file_type find_last_where lower is_member str_eq
valid_run = refl

sanitize_run : sanitize_filename name ≡ codes "_a.txt"
unfolding sanitize_filename is_member str_eq find_last_where
sanitize_run = refl

store_run :
    store_file memory_db memory_disk up counter no_qr base
      (codes "abcdefgh")
      name
      (codes "_a.txt")
      greeting
      no_links
      []
    ≡ ((file_stored, disk_after), file_answer)
unfolding store_file write_and_insert insert_file Sqlite.insert_link find_link c_str put
    build_file_url generate_file_path clean_base ends_in
store_run = refl

upload_run :
    upload_file memory_db memory_disk up counter no_qr base name greeting no_links [] 0
    ≡ returns (((file_stored, disk_after), file_answer), 8)
unfolding upload_file bit_link.FileValidator.Validate.is_within_size_limit
upload_run =
    rw (valid_run, sanitize_run, generate_run)
      (ap (λ q. returns (q, 8))
        (ap
            (λ n.
              store_file memory_db memory_disk up counter no_qr base (codes "abcdefgh") name n
                greeting no_links [])
            sanitize_run
          ∙ store_run))

is_valid-validate_file_type_example :
    (validate_file_type name greeting).is_valid
    ≡ (is_member (get_file_extension name) allowed_extensions && true)
is_valid-validate_file_type_example = is_valid-validate_file_type name greeting

sanitize_filename-IsName_example : IsName (sanitize_filename (codes "../CON?"))
sanitize_filename-IsName_example = sanitize_filename-IsName (codes "../CON?")

upload_file-Uploaded_example :
    (outcome : (Memory × StrMap Bytes) × UploadResult) × (g' : ℕ) × (upload_file memory_db
        memory_disk up counter no_qr base name greeting no_links [] 0
      ≡ returns (outcome, g'))
    × Uploaded memory_db memory_disk up counter no_qr base stored
        (Interface.Answers memory_engine)
        links
        get
        memory_disk-IsDisk
        (omega arith)
        name
        greeting
        no_links
        outcome
upload_file-Uploaded_example =
    upload_file-Uploaded memory_db memory_disk up counter no_qr base stored
      (Interface.Answers memory_engine) links get memory_disk-IsDisk (omega arith) name greeting
      no_links [] 0

get_file_path-upload_file_example :
    (get_file_path memory_db memory_disk up file_answer.code file_stored
      ≡ some file_answer.file_path)
    × (get file_answer.file_path disk_after ≡ some greeting)
get_file_path-upload_file_example =
    get_file_path-upload_file memory_db memory_disk up stored (Interface.Answers memory_engine)
      links get memory_disk-IsDisk counter no_qr base (omega arith) name greeting no_links
      file_stored [] disk_after 0 8 file_answer upload_run refl
      (memory_engine-Answers file_answer.code file_stored)

delete_run :
    delete_file memory_db memory_disk up (codes "abcdefgh") file_stored disk_after
    ≡ (((no_links.0, 1), []), true)
unfolding delete_file get_file_path Sqlite.get_link find_link str_eq c_str Sqlite.delete_link
    remove_links remove_clicks remove get
delete_run = refl

abbrev destination_of : Option (Bytes × Bytes) → Bytes
destination_of none = []
destination_of (some (destination, kind)) = destination

plain_paths :
    (path : Bytes)
    → stored (codes "abcdefgh") file_stored ≡ some (path, codes "file")
    → Lacks 0 path
unfolding find_link str_eq
plain_paths path e = subst (λ o. Lacks 0 (destination_of o)) e (omega arith)

delete_file-Deleted_example :
    (path : Bytes) × (stored (codes "abcdefgh") file_stored ≡ some (path, codes "file"))
    × (stored (codes "abcdefgh") (no_links.0, 1) ≡ none)
    × (get {V = Bytes} path [] ≡ none)
delete_file-Deleted_example =
    delete_file-Deleted memory_db memory_disk up stored (Interface.Answers memory_engine) links get
      memory_disk-IsDisk (codes "abcdefgh") file_stored (no_links.0, 1) disk_after [] (omega arith)
      plain_paths delete_run

abbrev fill : ℕ → Bytes
fill zero = []
fill (suc n) = b'a' ∷ fill n

limit_length_long_example :
    limit_length (fill 236 ++ b'.' ∷ fill 255) ≡ fill 236 ++ (b'.' ∷ fill 255 ++ b'.' ∷ fill 255)
limit_length_long_example =
    limit_length_long (fill 236) (fill 255) (omega arith) (omega arith) (omega arith) (omega arith)
