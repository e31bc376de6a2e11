-- ===== src/Tests/Files.antt =====
-- A small set of files.
use bit_link.Prelude.{refl}
use bit_link.Str.{codes}
use bit_link.StrMap.{get}
use bit_link.FakeFileSystem.{Files, no_files, read_file, overwrite_file, is_regular_file}
use bit_link.FakeFileSystem.Laws.{IsConsistent, overwrite_file-IsConsistent}

no_files-IsConsistent : IsConsistent no_files
unfolding is_regular_file read_file get
no_files-IsConsistent p = refl

abbrev one_file : Files
one_file = overwrite_file (codes "/d/1") (codes "x") no_files

one_file-IsConsistent : IsConsistent one_file
one_file-IsConsistent =
    (overwrite_file-IsConsistent (codes "/d/1") (codes "x") (codes "/d/1") no_files
      no_files-IsConsistent).2
