-- ===== src/Handlers/FileSystem.antt =====
-- include/file_system.h: the operations of `FileSystem`, and what the handler of the API relies on.
use bit_link.Prelude.{ℕ, ◌<◌, ◌≤◌, ◌≡◌, ◌≢◌, Option, some, Bool, true, false, []}
use bit_link.Str.{Bytes}

-- Queries leave the state as it is. A text that is written to an output argument is returned, and
-- `none` is a negative result.
pub record FileSystem : Type 1 where
  pub State : Type 0
  pub read_file : Bytes → State → Option Bytes
  pub overwrite_file : Bytes → Bytes → State → State
  pub exists : Bytes → State → Bool
  pub is_directory : Bytes → State → Bool
  pub get_json_list_of_dir : Bytes → State → Bytes
  pub is_regular_file : Bytes → State → Bool
  pub remove : Bytes → State → State × Bool

module _ (fs : FileSystem) where
  open fs use {State, read_file, overwrite_file, exists, is_directory, is_regular_file, remove}

  -- The path is a regular file that can be read, and this is in it.
  pub record Holds (path contents : Bytes) (s : State) : Type 0 where
    pub there : exists path s ≡ true
    pub no_directory : is_directory path s ≡ false
    pub regular : is_regular_file path s ≡ true
    pub read : read_file path s ≡ some contents

  -- What a write and a removal do, and that only so many paths are taken.
  pub record IsFileSystem (size : State → ℕ) : Type 0 where
    pub directory_exists :
        (path : Bytes) (s : State) → is_directory path s ≡ true → exists path s ≡ true
    pub written :
        (path contents : Bytes) (s : State)
        → path ≢ []
        → is_directory path s ≡ false
        → Holds path contents (overwrite_file path contents s)
    pub others_written :
        (path contents other old : Bytes) (s : State)
        → other ≢ path
        → read_file other s ≡ some old
        → read_file other (overwrite_file path contents s) ≡ some old
    pub removed :
        (path : Bytes) (s s' : State) → remove path s ≡ (s', true) → exists path s' ≡ false
    pub others_removed :
        (path other : Bytes) (s s' : State) (ok : Bool)
        → other ≢ path
        → remove path s ≡ (s', ok)
        → read_file other s' ≡ read_file other s
    pub finite :
        (s : State) (paths : ℕ → Bytes) (n : ℕ)
        → ((i j : ℕ) → paths i ≡ paths j → i ≡ j)
        → ((i : ℕ) → i < n → exists (paths i) s ≡ true)
        → n ≤ size s
