-- ===== src/FakeFileSystem/Laws.antt =====
-- src/fake_file_system.cc: what writing and removing a file do to the files.
use bit_link.Prelude.{◌≡◌, none, some, true, if◌then◌else◌, arith, Option-cases}
use bit_link.Str.{Bytes, str_eq}
use bit_link.Str.Search.{str_eq_iff}
use bit_link.StrMap.{get, get-put, get-remove}
use bit_link.FakeFileSystem.{
  Files, get_directory, read_file, overwrite_file, is_directory, is_regular_file, remove_file,
  is_some,
}

-- Exactly the paths that hold a file are marked as regular files.
abbrev pub IsConsistent : Files → Type 0
IsConsistent s = (p : Bytes) → is_regular_file p s ≡ is_some (read_file p s)

-- Where exactly the files are marked as regular, after a write the path holds what was written and
-- its directory exists; every other path reads as before, and the files stay consistent.
pub overwrite_file-IsConsistent :
    (path contents other : Bytes) (s : Files)
    → IsConsistent s
    → (read_file other (overwrite_file path contents s)
        ≡ (if str_eq other path then some contents else read_file other s))
      × (is_directory (get_directory path) (overwrite_file path contents s) ≡ true)
      × IsConsistent (overwrite_file path contents s)
unfolding read_file overwrite_file is_directory is_regular_file
overwrite_file-IsConsistent path contents other s h = (
  get-put path other contents s.fake_files,
  ground (
    arith,
    get-put (get_directory path) (get_directory path) true s.directories,
    str_eq_iff (get_directory path) (get_directory path),
  ),
  λ p. ground (arith, h p, get-put path p contents s.fake_files, get-put path p true s.regular),
)

-- Where exactly the files are marked as regular, removing a path succeeds exactly where it holds a
-- file; then it holds none, every other path reads as before, and the files stay consistent.
pub remove_file-IsConsistent :
    (path other : Bytes) (s : Files)
    → IsConsistent s
    → ((remove_file path s).1 ≡ is_some (read_file path s))
      × (read_file other (remove_file path s).0
          ≡ (if str_eq other path then none else read_file other s))
      × IsConsistent (remove_file path s).0
unfolding read_file remove_file is_regular_file
remove_file-IsConsistent path other s h = (
  ground (arith, Option-cases (get path s.fake_files)),
  ground (
    arith,
    Option-cases (get path s.fake_files),
    get-remove path other s.fake_files,
    str_eq_iff other path,
  ),
  λ p. ground (
    arith,
    h p,
    Option-cases (get path s.fake_files),
    get-remove path p s.fake_files,
    get-remove path p s.regular,
  ),
)
