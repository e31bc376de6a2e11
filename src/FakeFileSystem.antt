-- ===== src/FakeFileSystem.antt =====
-- src/fake_file_system.cc, include/fake_file_system.h: files in memory, with the interface of
-- include/file_system.h. What is written to an output argument is returned.
pub mod Laws
pub mod Interface
use bit_link.Prelude.{
  ◌≡◌, refl, [], ◌∷◌, ◌++◌, Option, none, some, Bool, true, false, ◌||◌, if◌then◌else◌, take,
}
use bit_link.Str.{Bytes, codes, find_last_char, find_last_where, pop_back, str_eq, str_lt}
use bit_link.StrMap.{StrMap, get, put, remove}

pub record Files : Type 0 where
  pub fake_files : StrMap Bytes
  pub regular : StrMap Bool
  pub directories : StrMap Bool

abbrev pub no_files : Files
no_files = record { fake_files = []; regular = []; directories = [] }

unfoldable pub get_directory : Bytes → Bytes
get_directory filepath = elim (find_last_char b'/' filepath) [
  | none ↦ []
  | some pos ↦ take pos filepath
]

-- `none` is the result -1, and a text is read whole.
unfoldable pub read_file : Bytes → Files → Option Bytes
read_file file_path s = get file_path s.fake_files

unfoldable pub overwrite_file : Bytes → Bytes → Files → Files
overwrite_file file_path data_in s = record {
  fake_files = put file_path data_in s.fake_files;
  regular = put file_path true s.regular;
  directories = put (get_directory file_path) true s.directories;
}

-- m.find(k) != m.end() && m[k]
abbrev pub is_marked : Bytes → StrMap Bool → Bool
is_marked k m = elim (get k m) [ none ↦ false | some b ↦ b ]

abbrev pub is_some : Option Bytes → Bool
is_some none = false
is_some (some b) = true

unfoldable pub is_directory : Bytes → Files → Bool
is_directory file_path s = is_marked file_path s.directories

unfoldable pub is_regular_file : Bytes → Files → Bool
is_regular_file file_path s = is_marked file_path s.regular

unfoldable pub exists : Bytes → Files → Bool
exists file_path s = is_some (get file_path s.fake_files) || is_directory file_path s

unfoldable pub remove_file : Bytes → Files → Files × Bool
remove_file file_path s = elim (get file_path s.fake_files) [
  | none ↦ (s, false)
  | some _ ↦ (
    record {
      fake_files = remove file_path s.fake_files;
      regular = remove file_path s.regular;
      directories = remove file_path s.directories;
    },
    true,
  )
]

-- The loop over the files, in an order that the source leaves open; here it is that of the paths. The directory that is asked for is not looked at.
unfoldable pub list_files : Files → StrMap Bytes → Bytes
list_files s [] = []
list_files s ((path, contents) ∷ rest) =
    (if is_regular_file path s then path ++ codes "," else []) ++ list_files s rest

-- The last byte is taken away as the comma that follows the last file.
unfoldable pub get_json_list_of_dir : Bytes → Files → Bytes
get_json_list_of_dir base_file_path s =
    pop_back (codes "{\"file_ids\": [" ++ list_files s s.fake_files) ++ codes "]}"

list_tests :
    (get_json_list_of_dir (codes "/d") (overwrite_file (codes "/d/1") (codes "x") no_files)
      ≡ codes "{\"file_ids\": [/d/1]}")
    × (get_json_list_of_dir (codes "/d") no_files ≡ codes "{\"file_ids\": ]}")
unfolding get_json_list_of_dir overwrite_file list_files is_regular_file get_directory put get
    str_eq str_lt find_last_where
list_tests = (refl, refl)
