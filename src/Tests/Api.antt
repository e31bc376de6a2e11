-- ===== src/Tests/Api.antt =====
-- The handlers of the API and of static files, on files in memory.
use bit_link.Prelude.{
  ℕ, ◌+◌, ◌<◌, ◌≤◌, ◌≡◌, ◌⊎◌, refl, [], ◌∷◌, ◌++◌, none, some, true, false, arith, if◌then◌else◌,
}
use bit_link.Str.{Bytes, codes, starts_with, str_eq, ends_in}
use bit_link.Str.Number.{pos, to_string}
use bit_link.StrMap.{get, remove}
use bit_link.FakeFileSystem.{Files, no_files, overwrite_file}
use bit_link.FakeFileSystem
use bit_link.FakeFileSystem.Interface.{fake_file_system, entries, fake_file_system-IsFileSystem}
use bit_link.Http.Request.{Request}
use bit_link.Http.Response.{Response, okay, created, set_body, set_status}
use bit_link.Handlers.Api.{
  ApiHandler, answer, html, done_page, missing_page, server_error_page, id_path, handle_request,
  handle_delete,
}
use bit_link.Handlers.Api.Laws.{
  Untouched, get_of, handle_request-Created, handle_request-Updated, handle_request-Removed,
}
use bit_link.Handlers.StaticFile
use bit_link.Handlers.StaticFile.{Tree, StaticFileHandler}
use bit_link.Handlers.StaticFile.Laws.{IsServed, handle_request-IsServed}

abbrev api : ApiHandler
api = record { serving_path = codes "/api"; root_directory = codes "root" }

abbrev request : Bytes → Request
request method = record {
  raw_request = [];
  method = method;
  uri = codes "/api/shoes";
  version = codes "HTTP/1.1";
  headers = [];
  body = codes "{}";
}

-- A file at the path, and one behind it.
abbrev shoes : Files
shoes = record {
  fake_files = (codes "root/shoes", codes "x") ∷ (codes "root/shoes/1", codes "y") ∷ [];
  regular = (codes "root/shoes", true) ∷ (codes "root/shoes/1", true) ∷ [];
  directories = (codes "root", true) ∷ [];
}

handle_request-Created_example :
    (id : ℕ) × (s' : Files) × (handle_request fake_file_system api 4 (request (codes "POST")) shoes
      ≡ some (s', html created (codes "{\"id\": " ++ (to_string (pos id) ++ codes "}"))))
    × (1 ≤ id)
    × (id ≤ entries shoes + 1)
    × (FakeFileSystem.exists (id_path (codes "root/shoes") id) shoes ≡ false)
    × ((i : ℕ)
        → 1 ≤ i
        → i < id
        → FakeFileSystem.exists (id_path (codes "root/shoes") i) shoes ≡ true)
    × (handle_request fake_file_system api 4
          (get_of fake_file_system api entries fake_file_system-IsFileSystem
            (request (codes "POST"))
            (id_path (codes "/api/shoes") id))
          s'
        ≡ some (s', answer okay (codes "application/json") (codes "{}")))
    × Untouched fake_file_system api entries fake_file_system-IsFileSystem
        (id_path (codes "root/shoes") id)
        shoes
        s'
handle_request-Created_example =
    handle_request-Created fake_file_system api entries fake_file_system-IsFileSystem 4
      (codes "shoes") (request (codes "POST")) shoes (omega arith) (λ e. cc) refl refl

no_directory : FakeFileSystem.is_directory (codes "root/shoes") shoes ≡ false
unfolding FakeFileSystem.is_directory get str_eq
no_directory = refl

handle_request-Updated_example :
    (FakeFileSystem.exists (codes "root/shoes") shoes ≡ false)
      × (handle_request fake_file_system api 0 (request (codes "PUT")) shoes
          ≡ some (shoes, missing_page))
    ⊎ ((s' : Files) × (handle_request fake_file_system api 0 (request (codes "PUT")) shoes
          ≡ some (s', done_page (codes "File updated successfully.")))
        × (handle_request fake_file_system api 0
              (get_of fake_file_system api entries fake_file_system-IsFileSystem
                (request (codes "PUT"))
                (codes "/api/shoes"))
              s'
            ≡ some (s', answer okay (codes "application/json") (codes "{}")))
        × Untouched fake_file_system api entries fake_file_system-IsFileSystem
            (codes "root/shoes")
            shoes
            s')
handle_request-Updated_example =
    handle_request-Updated fake_file_system api entries fake_file_system-IsFileSystem 0
      (codes "shoes") (request (codes "PUT")) shoes (λ e. cc) refl refl no_directory

abbrev socks : Files
socks = record {
  fake_files = (codes "root/shoes/1", codes "y") ∷ [];
  regular = (codes "root/shoes/1", true) ∷ [];
  directories = (codes "root", true) ∷ [];
}

abbrev deleted : Response
deleted = done_page (codes "File deleted successfully.")

delete_run :
    handle_request fake_file_system api 0 (request (codes "DELETE")) shoes ≡ some (socks, deleted)
unfolding handle_request str_eq handle_delete FakeFileSystem.exists get
    FakeFileSystem.is_regular_file FakeFileSystem.remove_file remove
delete_run = refl

handle_request-Removed_example :
    (deleted ≡ done_page (codes "File deleted successfully."))
      × (FakeFileSystem.is_regular_file (codes "root/shoes") shoes ≡ true)
      × (handle_request fake_file_system api 0
            (get_of fake_file_system api entries fake_file_system-IsFileSystem
              (request (codes "DELETE"))
              (codes "/api/shoes"))
            socks
          ≡ some (socks, missing_page))
      × Untouched fake_file_system api entries fake_file_system-IsFileSystem
          (codes "root/shoes")
          shoes
          socks
    ⊎ (deleted ≡ missing_page)
      × (FakeFileSystem.exists (codes "root/shoes") shoes ≡ false)
      × (socks ≡ shoes)
    ⊎ (deleted ≡ server_error_page (codes "File is not a regular file and cannot be deleted."))
      × (socks ≡ shoes)
    ⊎ (deleted ≡ server_error_page (codes "Error deleting file."))
      × (FakeFileSystem.remove_file (codes "root/shoes") shoes ≡ (socks, false))
handle_request-Removed_example =
    handle_request-Removed fake_file_system api entries fake_file_system-IsFileSystem 0
      (codes "shoes") (request (codes "DELETE")) shoes socks deleted (λ e. cc) refl refl delete_run

-- A tree with one file, whose paths are canonical.
abbrev tree : Tree
tree = record {
  join = λ root path. root ++ (codes "/" ++ path);
  weakly_canonical = λ path. path;
  open_file = λ path. if str_eq path (codes "files/a.txt") then some (codes "hi") else none;
}

abbrev static : StaticFileHandler
static = record { serving_path = codes "/static"; root_directory = codes "files" }

abbrev get_a : Request
get_a = record (request (codes "GET")) { uri = codes "/static/a.txt" }

served_run : (StaticFile.handle_request tree static get_a).status ≡ okay
unfolding StaticFile.handle_request str_eq starts_with StaticFile.file_answer
    StaticFile.relative_path ends_in set_body set_status
served_run = refl

handle_request-IsServed_example : IsServed tree static get_a
handle_request-IsServed_example = handle_request-IsServed tree static get_a served_run
