-- ===== src/FakeFileSystem/Interface.antt =====
-- src/fake_file_system.cc: `FakeFileSystem` as a `FileSystem`.
use bit_link.Prelude.{
  ℕ, zero, suc, ◌+◌, ◌<◌, ◌≤◌, ◌≡◌, ◌≢◌, ◌⊎◌, inl, inr, refl, sym, ap, ◌∙◌, [], ◌∷◌, none, some,
  Bool, true, false, arith, length, length-take, take, Option-cases,
}
use bit_link.Count.{count_below, count_below_all, count_below_either, count_below_once}
use bit_link.Str.{Bytes, str_eq, find_last_char, find_last_where}
use bit_link.Str.Search.{str_eq_iff}
use bit_link.StrMap.{StrMap, get, get-put, get-remove}
use bit_link.Handlers.FileSystem.{FileSystem, Holds, IsFileSystem}
use bit_link.FakeFileSystem
use bit_link.FakeFileSystem.{Files, get_directory, is_marked}

abbrev pub fake_file_system : FileSystem
fake_file_system = record {
  State = Files;
  read_file = FakeFileSystem.read_file;
  overwrite_file = FakeFileSystem.overwrite_file;
  exists = FakeFileSystem.exists;
  is_directory = FakeFileSystem.is_directory;
  get_json_list_of_dir = FakeFileSystem.get_json_list_of_dir;
  is_regular_file = FakeFileSystem.is_regular_file;
  remove = FakeFileSystem.remove_file;
}

-- The number of entries, which bounds that of the paths that exist.
abbrev pub entries : Files → ℕ
entries s = length s.fake_files + length s.directories

find_last_where-lt :
    (test : ℕ → Bool) (s : Bytes) (i : ℕ) → find_last_where test s ≡ some i → i < length s
unfolding find_last_where
find_last_where-lt test [] i e = cc
find_last_where-lt test (c ∷ s) i e = elim (Option-cases (find_last_where test s)) [
  | inl f ↦ ground arith
  | inr (j, f) ↦ ground (arith, find_last_where-lt test s j f)
]

get_directory-ne : (path : Bytes) → path ≢ [] → path ≢ get_directory path
unfolding get_directory
get_directory-ne path filled e = elim (Option-cases (find_last_char b'/' path)) [
  | inl f ↦ absurd (filled (e ∙ rw (f, get_directory) refl))
  | inr (i, f) ↦
      let same : path ≡ take i path = e ∙ rw (f, get_directory) refl in
      let less = find_last_where-lt _ path i f in
      let short = length-take i path in
      let long : length path ≡ length (take i path) = ap length same in absurd (omega arith)
]

-- The paths that a map has an entry for.
module _ {ℓ} {V : Type ℓ} where
  abbrev has : Bytes → StrMap V → Bool
  has k m = elim (get k m) [ none ↦ false | some v ↦ true ]

  has_cons :
      (p k : Bytes) (v : V) (m : StrMap V)
      → has p ((k, v) ∷ m) ≡ true
      → (str_eq p k ≡ true) ⊎ (has p m ≡ true)
  unfolding get
  has_cons p k v m h = ground arith

  count-has :
      (n : ℕ) (paths : ℕ → Bytes) (m : StrMap V)
      → ((i j : ℕ) → paths i ≡ paths j → i ≡ j)
      → count_below n (λ i. has (paths i) m) ≤ length m
  unfolding get
  count-has n paths [] apart = count_below_zero n
    where
      count_below_zero : (n : ℕ) → count_below n (λ i. false) ≤ 0
      count_below_zero zero = omega arith
      count_below_zero (suc n) = omega (arith, count_below_zero n)
  count-has n paths ((k, v) ∷ m) apart =
      let rest = count-has n paths m apart in
      let once =
        count_below_once n (λ i. str_eq (paths i) k)
          (λ i j e f.
            apart i j ((str_eq_iff (paths i) k).0 e ∙ sym ((str_eq_iff (paths j) k).0 f))) in
      let both =
        count_below_either n (λ i. has (paths i) ((k, v) ∷ m)) (λ i. str_eq (paths i) k)
          (λ i. has (paths i) m) (λ i e. has_cons (paths i) k v m e) in
      omega arith

exists-has :
    (p : Bytes) (s : Files)
    → FakeFileSystem.exists p s ≡ true
    → (has p s.fake_files ≡ true) ⊎ (has p s.directories ≡ true)
unfolding FakeFileSystem.exists FakeFileSystem.is_directory
exists-has p s e = ground arith

finite :
    (s : Files) (paths : ℕ → Bytes) (n : ℕ)
    → ((i j : ℕ) → paths i ≡ paths j → i ≡ j)
    → ((i : ℕ) → i < n → FakeFileSystem.exists (paths i) s ≡ true)
    → n ≤ entries s
finite s paths n apart taken =
    let all = count_below_all n (λ i. FakeFileSystem.exists (paths i) s) taken in
    let files = count-has n paths s.fake_files apart in
    let directories = count-has n paths s.directories apart in
    let both =
      count_below_either n (λ i. FakeFileSystem.exists (paths i) s)
        (λ i. has (paths i) s.fake_files) (λ i. has (paths i) s.directories)
        (λ i e. exists-has (paths i) s e) in
    omega arith

written :
    (path contents : Bytes) (s : Files)
    → path ≢ []
    → FakeFileSystem.is_directory path s ≡ false
    → Holds fake_file_system path contents (FakeFileSystem.overwrite_file path contents s)
unfolding FakeFileSystem.overwrite_file FakeFileSystem.read_file FakeFileSystem.exists
    FakeFileSystem.is_directory FakeFileSystem.is_regular_file
written path contents s filled no_dir =
    let apart = get_directory-ne path filled in
    let file = get-put path path contents s.fake_files in
    let mark = get-put path path true s.regular in
    let dir = get-put (get_directory path) path true s.directories in
    record {
      there = ground (arith, file, str_eq_iff path path);
      no_directory = ground (arith, dir, str_eq_iff path (get_directory path));
      regular = ground (arith, mark, str_eq_iff path path);
      read = ground (arith, file, str_eq_iff path path);
    }

directory_exists :
    (path : Bytes) (s : Files)
    → FakeFileSystem.is_directory path s ≡ true
    → FakeFileSystem.exists path s ≡ true
unfolding FakeFileSystem.exists
directory_exists path s e = ground arith

others_written :
    (path contents other old : Bytes) (s : Files)
    → other ≢ path
    → FakeFileSystem.read_file other s ≡ some old
    → FakeFileSystem.read_file other (FakeFileSystem.overwrite_file path contents s) ≡ some old
unfolding FakeFileSystem.overwrite_file FakeFileSystem.read_file
others_written path contents other old s ne e =
    ground (arith, get-put path other contents s.fake_files, str_eq_iff other path)

removed :
    (path : Bytes) (s s' : Files)
    → FakeFileSystem.remove_file path s ≡ (s', true)
    → FakeFileSystem.exists path s' ≡ false
unfolding FakeFileSystem.remove_file FakeFileSystem.exists FakeFileSystem.is_directory
removed path s s' e = ground (
  arith,
  Option-cases (get path s.fake_files),
  get-remove path path s.fake_files,
  get-remove path path s.directories,
  str_eq_iff path path,
)

others_removed :
    (path other : Bytes) (s s' : Files) (ok : Bool)
    → other ≢ path
    → FakeFileSystem.remove_file path s ≡ (s', ok)
    → FakeFileSystem.read_file other s' ≡ FakeFileSystem.read_file other s
unfolding FakeFileSystem.remove_file FakeFileSystem.read_file
others_removed path other s s' ok ne e = ground (
  arith,
  Option-cases (get path s.fake_files),
  get-remove path other s.fake_files,
  str_eq_iff other path,
)

-- The files in memory keep the laws of a file system: a path that is written can be read and holds
-- what was written, a path that was removed is not there, other files read as before, a directory
-- exists, and no more paths exist than there are entries.
pub fake_file_system-IsFileSystem : IsFileSystem fake_file_system entries
fake_file_system-IsFileSystem = record {
  directory_exists = directory_exists;
  written = written;
  others_written = others_written;
  removed = removed;
  others_removed = others_removed;
  finite = finite;
}
