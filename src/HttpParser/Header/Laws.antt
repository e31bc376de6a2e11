-- ===== src/HttpParser/Header/Laws.antt =====
-- src/utils/http_parser.cc: what `parse_content_disposition` reads of a header.
use bit_link.Prelude.{
  ℕ, suc, ◌+◌, ◌≡◌, refl, [], ◌∷◌, ◌++◌, none, some, arith, length, get_elem?, length-append,
  take-append, drop-suc-append, ap, inl, inr, sym, Option-cases, append_assoc,
}
use bit_link.Str.{Bytes, codes, Lacks, find, starts_with, shift}
use native.Mathlib.Numerals.{add-one}
use bit_link.Str.Search.{find_char-append}
use bit_link.HttpParser.Header.{param_value, value_at, parse_content_disposition}

-- A byte that the pattern lacks ends every match.
starts_with_stop :
    (pat s t : Bytes) (c : ℕ) → Lacks c pat → starts_with pat (s ++ c ∷ t) ≡ starts_with pat s
unfolding starts_with
starts_with_stop [] s t c h = refl
starts_with_stop (p ∷ pat) [] t c (ne, h) = ground arith
starts_with_stop (p ∷ pat) (d ∷ s) t c (ne, h) = rw (starts_with_stop pat s t c h)

pub find_stop :
    (p : ℕ) (pat s t : Bytes) (c : ℕ)
    → Lacks c (p ∷ pat)
    → find (p ∷ pat) s ≡ none
    → find (p ∷ pat) (s ++ c ∷ t) ≡ shift (suc (length s)) (find (p ∷ pat) t)
unfolding find
find_stop p pat [] t c h e = ground arith
find_stop p pat (d ∷ s) t c h e =
    ground (arith, find_stop p pat s t c h, starts_with_stop pat s t c h.1)

get_elem?-append : (s t : Bytes) (c : ℕ) → get_elem? (s ++ c ∷ t) (length s) ≡ some c
get_elem?-append [] t c = refl
get_elem?-append (d ∷ s) t c = get_elem?-append s t c

-- A quoted value is read whole.
pub value_at_quoted :
    (pre v rest : Bytes)
    → Lacks b'"' v
    → value_at (pre ++ b'"' ∷ (v ++ b'"' ∷ rest)) (length pre) ≡ v
unfolding value_at
value_at_quoted pre v rest h =
    let whole = pre ++ b'"' ∷ (v ++ b'"' ∷ rest) in
    ground (
      arith,
      get_elem?-append pre (v ++ b'"' ∷ rest) b'"',
      drop-suc-append b'"' pre (v ++ b'"' ∷ rest),
      find_char-append b'"' v rest h,
      length-append pre (b'"' ∷ (v ++ b'"' ∷ rest)),
      take-append v (b'"' ∷ rest),
      add-one (length pre),
    )

-- The header that a browser sends for a field.
abbrev pub field_header : Bytes → Bytes
field_header n = codes "Content-Disposition: form-data; name=\"" ++ (n ++ codes "\"")

-- The header that a browser sends for a file.
abbrev pub file_header : Bytes → Bytes → Bytes
file_header n f =
    codes "Content-Disposition: form-data; name=\""
    ++ (n ++ (codes "\"; filename=\"" ++ (f ++ codes "\"")))

-- The same parameters in the other order.
abbrev pub swapped_header : Bytes → Bytes → Bytes
swapped_header n f =
    codes "Content-Disposition: form-data; filename=\""
    ++ (f ++ (codes "\"; name=\"" ++ (n ++ codes "\"")))

-- A text with a quoted value behind the first place where the key stands.
param_value_quoted :
    (key whole pre v rest : Bytes) (i : ℕ)
    → whole ≡ pre ++ b'"' ∷ (v ++ b'"' ∷ rest)
    → find key whole ≡ some i
    → i + length key ≡ length pre
    → Lacks b'"' v
    → param_value key whole ≡ v
unfolding param_value
param_value_quoted key whole pre v rest i shape found ends h =
    ground (arith, value_at_quoted pre v rest h, length-append pre (b'"' ∷ (v ++ b'"' ∷ rest)))

find_name :
    (t : Bytes)
    → find (codes "name=") (codes "Content-Disposition: form-data; name=\"" ++ t) ≡ some 32
unfolding find
find_name t = refl

name_of_field :
    (n rest : Bytes)
    → Lacks b'"' n
    → param_value
        (codes "name=")
        (codes "Content-Disposition: form-data; name=\"" ++ (n ++ b'"' ∷ rest))
      ≡ n
name_of_field n rest h =
    param_value_quoted (codes "name=") _ (codes "Content-Disposition: form-data; name=") n rest 32
      refl (find_name (n ++ b'"' ∷ rest)) refl h

past_name :
    (t : Bytes)
    → find (codes "filename=") (codes "Content-Disposition: form-data; name=\"" ++ t)
      ≡ shift 38 (find (codes "filename=") t)
unfolding find
past_name t = elim (Option-cases (find (codes "filename=") t)) [
  | inl e ↦ rw e
  | inr (i, e) ↦ rw e (ap some (omega arith))
]

find_filename :
    (n t : Bytes)
    → find (codes "filename=") n ≡ none
    → find
        (codes "filename=")
        (codes "Content-Disposition: form-data; name=\"" ++ (n ++ (codes "\"; filename=\"" ++ t)))
      ≡ some (length n + 41)
find_filename n t e = ground (
  arith,
  past_name (n ++ (codes "\"; filename=\"" ++ t)),
  find_stop b'f' (codes "ilename=") n (codes "; filename=\"" ++ t) b'"' (omega arith) e,
  found_at_two t,
)
  where
    found_at_two : (t : Bytes) → find (codes "filename=") (codes "; filename=\"" ++ t) ≡ some 2
    found_at_two t = unfold find in refl

filename_of_file :
    (n f : Bytes)
    → Lacks b'"' f
    → find (codes "filename=") n ≡ none
    → param_value (codes "filename=") (file_header n f) ≡ f
filename_of_file n f h e =
    let pre = codes "Content-Disposition: form-data; name=\"" ++ (n ++ codes "\"; filename=") in
    param_value_quoted (codes "filename=") (file_header n f) pre f [] (length n + 41)
      (ap (λ t. codes "Content-Disposition: form-data; name=\"" ++ t)
        (sym (append_assoc n (codes "\"; filename=") (b'"' ∷ (f ++ b'"' ∷ [])))))
      (find_filename n (f ++ codes "\"") e) (omega (arith, length-append n (codes "\"; filename=")))
      h

-- In the other order both keys are first found in front of the file's name.
swapped_name :
    (key : Bytes) (i : ℕ) (n f : Bytes)
    → Lacks b'"' f
    → i + length key ≡ 41
    → find key (swapped_header n f) ≡ some i
    → param_value key (swapped_header n f) ≡ f
swapped_name key i n f h ends found =
    param_value_quoted key (swapped_header n f) (codes "Content-Disposition: form-data; filename=")
      f (codes "; name=\"" ++ (n ++ codes "\"")) i refl found ends h

-- The two parameters of the header that a browser sends for a file are read as they were written,
-- if neither holds a double quote and the name does not itself hold "filename=".
pub parse_content_disposition-file_header :
    (n f : Bytes)
    → Lacks b'"' n
    → Lacks b'"' f
    → find (codes "filename=") n ≡ none
    → (parse_content_disposition (file_header n f)).0 ≡ record { name = n; filename = f }
unfolding parse_content_disposition
parse_content_disposition-file_header n f hn hf e = λ i. record {
  name = name_of_field n (codes "; filename=\"" ++ (f ++ codes "\"")) hn i;
  filename = filename_of_file n f hf e i;
}

-- Where the file's name comes first and holds no double quote, the name of the field is read from
-- inside "filename=": the field gets the file's name.
pub parse_content_disposition-swapped_header :
    (n f : Bytes)
    → Lacks b'"' f
    → (parse_content_disposition (swapped_header n f)).0 ≡ record { name = f; filename = f }
unfolding parse_content_disposition
parse_content_disposition-swapped_header n f hf = λ i. record {
  name = swapped_name (codes "name=") 36 n f hf refl (unfold find in refl) i;
  filename = swapped_name (codes "filename=") 32 n f hf refl (unfold find in refl) i;
}
