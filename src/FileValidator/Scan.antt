-- ===== src/FileValidator/Scan.antt =====
-- src/utils/file_validator.cc: `scan_for_viruses`. Whether the path exists is a parameter.
use bit_link.Prelude.{◌+◌, List, [], ◌∷◌, ◌++◌, none, some, Bool, not, if◌then◌else◌, drop}
use bit_link.Str.{Bytes, codes, is_empty, find_last_char, contains, lower}

abbrev pub suspicious_patterns : List Bytes
suspicious_patterns =
    codes ".exe"
    ∷ codes ".scr"
    ∷ codes ".bat"
    ∷ codes ".cmd"
    ∷ codes ".com"
    ∷ codes ".pif"
    ∷ codes ".vbs"
    ∷ codes ".js"
    ∷ []

-- path.filename(): what stands behind the last slash
abbrev pub file_name : Bytes → Bytes
file_name path = elim (find_last_char b'/' path) [ none ↦ path | some i ↦ drop (i + 1) path ]

unfoldable pub find_suspicious : Bytes → List Bytes → Bytes
find_suspicious filename [] = []
find_suspicious filename (pattern ∷ patterns) =
    let later = find_suspicious filename patterns in
    if contains pattern filename then codes "Suspicious file type detected: " ++ pattern else later

unfoldable pub scan_for_viruses : (Bytes → Bool) → Bytes → Bytes
unfolding find_suspicious
scan_for_viruses exists file_path =
    if is_empty file_path
    then codes "Invalid file path"
    else if not (exists file_path)
    then codes "File does not exist"
    else find_suspicious (lower (file_name file_path)) suspicious_patterns
