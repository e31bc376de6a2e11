-- ===== src/HttpParser/Multipart/Bounds.antt =====
-- src/utils/http_parser.cc, `parse_multipart_form`: the limits on fields and files.
use bit_link.Prelude.{
  ℕ, zero, suc, ◌+◌, ◌≤◌, ◌≡◌, ◌++◌, some, arith, length, Option-cases, inl, inr, Bool-cases, ltb,
  leb, ◌||◌,
}
use bit_link.Str.{Bytes, codes, find, is_empty, substr, str_eq}
use bit_link.StrMap.{AllValues, AllValues-put}
use bit_link.HttpParser.Multipart.{
  Form, skip_crlf, find_headers_end, find_next_boundary, read_part, store_part, read_parts,
  parse_multipart_form, empty_form, max_field_size, max_file_size, disposition_of,
}

-- No field is larger than 1 MB and no file than 25 MB.
pub record IsWithinLimits (form : Form) : Type 0 where
  pub fields_fit : AllValues (λ v. length v ≤ max_field_size) form.fields
  pub files_fit : AllValues (λ file. length file.contents ≤ max_file_size) form.files

store_part-IsWithinLimits :
    (headers content : Bytes) (form : Form)
    → IsWithinLimits form
    → IsWithinLimits (store_part headers content form)
unfolding store_part
store_part-IsWithinLimits headers content form v =
    let d = disposition_of headers in
    elim (Bool-cases (is_empty d.name)) [
      | inl e ↦ rw e v
      | inr e ↦ elim (Bool-cases (is_empty d.filename)) [
        | inl f ↦ elim (Bool-cases (leb (length content) max_field_size)) [
          | inl fits ↦
              rw (e, f, fits)
                (record {
                  fields_fit =
                      AllValues-put (λ w. length w ≤ max_field_size) d.name content form.fields
                        v.fields_fit (ground arith);
                  files_fit = v.files_fit;
                })
          | inr large ↦ rw (e, f, large) v
        ]
        | inr f ↦ elim (Bool-cases (leb (length content) max_file_size)) [
          | inl fits ↦
              rw (e, f, fits)
                (record {
                  fields_fit = v.fields_fit;
                  files_fit =
                      AllValues-put (λ file. length file.contents ≤ max_file_size) d.name _
                        form.files v.files_fit (ground arith);
                })
          | inr large ↦ rw (e, f, large) v
        ]
      ]
    ]

read_parts-IsWithinLimits :
    (fuel : ℕ) (start_boundary end_boundary body : Bytes) (pos : ℕ) (form form' : Form)
    → IsWithinLimits form
    → read_parts fuel start_boundary end_boundary body pos form ≡ some form'
    → IsWithinLimits form'
unfolding read_parts
read_parts-IsWithinLimits zero start_boundary end_boundary body pos form form' v e = cc
read_parts-IsWithinLimits (suc fuel) start_boundary end_boundary body pos form form' v e =
    elim (Bool-cases (ltb pos (length body))) [
      | inr e0 ↦ let same : form ≡ form' = ground arith in rw (← same) v
      | inl e0 ↦ elim (Option-cases (find_headers_end body (skip_crlf body pos))) [
        | inl e1 ↦ let same : form ≡ form' = ground arith in rw (← same) v
        | inr (he, e1) ↦
            elim (Option-cases (find_next_boundary start_boundary end_boundary body he)) [
              | inl e2 ↦ let same : form ≡ form' = ground arith in rw (← same) v
              | inr (nb, e2) ↦
                  let read = read_part body (skip_crlf body pos) he nb form in
                  let w : IsWithinLimits read =
                    unfold read_part in store_part-IsWithinLimits _ _ form v in
                  elim (Bool-cases (str_eq (substr body nb (length end_boundary)) end_boundary)) [
                    | inl e3 ↦ let same : read ≡ form' = ground arith in rw (← same) w
                    | inr e3 ↦
                        read_parts-IsWithinLimits fuel start_boundary end_boundary body
                          (nb + length start_boundary) read form' w (ground arith)
                  ]
            ]
      ]
    ]

empty_form-IsWithinLimits : IsWithinLimits empty_form
empty_form-IsWithinLimits = record { fields_fit = tt; files_fit = tt }

-- Whatever the body holds, the form that is read from it keeps the limits of 1 MB for a field and
-- 25 MB for a file.
pub parse_multipart_form-IsWithinLimits :
    (body boundary : Bytes) (form : Form)
    → parse_multipart_form body boundary ≡ some form
    → IsWithinLimits form
unfolding parse_multipart_form
parse_multipart_form-IsWithinLimits body boundary form e =
    elim (Bool-cases (is_empty body || is_empty boundary)) [
      | inl e0 ↦
          let same : empty_form ≡ form = ground arith in rw (← same) empty_form-IsWithinLimits
      | inr e0 ↦ elim (Option-cases (find (codes "--" ++ boundary) body)) [
        | inl e1 ↦
            let same : empty_form ≡ form = ground arith in rw (← same) empty_form-IsWithinLimits
        | inr (i, e1) ↦
            read_parts-IsWithinLimits (suc (length body)) (codes "--" ++ boundary)
              ((codes "--" ++ boundary) ++ codes "--") body (i + length (codes "--" ++ boundary))
              empty_form form empty_form-IsWithinLimits (ground arith)
      ]
    ]
