-- ===== src/HttpParser/Multipart/Fuel.antt =====
-- src/utils/http_parser.cc, `parse_multipart_form`: the rounds that its loop takes.
use bit_link.Prelude.{
  ℕ, zero, suc, ◌+◌, ◌<◌, ◌≤◌, ◌≡◌, ◌≢◌, ◌++◌, Option, none, some, arith, length, Option-cases, inl,
  inr,
}
use bit_link.Str.{Bytes, codes, find_from, find}
use bit_link.HttpParser.Multipart.{
  Form, skip_crlf, find_headers_end, find_next_boundary, read_part, read_parts,
  parse_multipart_form, empty_form,
}

find_from_ge :
    (search_in : Bytes → Option ℕ) (s : Bytes) (pos i : ℕ)
    → find_from search_in s pos ≡ some i
    → pos ≤ i
find_from_ge search_in s pos i h = ground arith

skip_crlf_ge : (body : Bytes) (pos : ℕ) → pos ≤ skip_crlf body pos
unfolding skip_crlf
skip_crlf_ge body pos = ground arith

find_headers_end_ge : (body : Bytes) (pos i : ℕ) → find_headers_end body pos ≡ some i → pos ≤ i
unfolding find_headers_end
find_headers_end_ge body pos i h = ground arith

find_next_boundary_ge :
    (start_boundary end_boundary body : Bytes) (pos i : ℕ)
    → find_next_boundary start_boundary end_boundary body pos ≡ some i
    → pos ≤ i
unfolding find_next_boundary
find_next_boundary_ge start_boundary end_boundary body pos i h = ground arith

read_parts-ne-none :
    (fuel : ℕ) (start_boundary end_boundary body : Bytes) (pos : ℕ) (form : Form)
    → 0 < length start_boundary
    → length body ≤ fuel + pos
    → read_parts (suc fuel) start_boundary end_boundary body pos form ≢ none
unfolding read_parts
read_parts-ne-none zero start_boundary end_boundary body pos form h k = ground arith
read_parts-ne-none (suc fuel) start_boundary end_boundary body pos form h k =
    elim (Option-cases (find_headers_end body (skip_crlf body pos))) [
      | inl e ↦ ground arith
      | inr (he, e) ↦ elim (Option-cases (find_next_boundary start_boundary end_boundary body he)) [
        | inl e' ↦ ground arith
        | inr (nb, e') ↦ ground (
          arith,
          skip_crlf_ge body pos,
          find_headers_end_ge body (skip_crlf body pos) he e,
          find_next_boundary_ge start_boundary end_boundary body he nb e',
          read_parts-ne-none fuel start_boundary end_boundary body (nb + length start_boundary)
              (read_part body (skip_crlf body pos) he nb form) h,
        )
      ]
    ]

parse_multipart_form-ne-none : (body boundary : Bytes) → parse_multipart_form body boundary ≢ none
unfolding parse_multipart_form
parse_multipart_form-ne-none body boundary =
    elim (Option-cases (find (codes "--" ++ boundary) body)) [
      | inl e ↦ ground arith
      | inr (i, e) ↦ ground (
        arith,
        read_parts-ne-none (length body) (codes "--" ++ boundary)
            ((codes "--" ++ boundary) ++ codes "--") body (i + length (codes "--" ++ boundary))
            empty_form (omega arith) (omega arith),
      )
    ]

-- Reading a multipart body always ends with a form, whatever the body and the boundary.
pub parse_multipart_form_total :
    (body boundary : Bytes) → (form : Form) × (parse_multipart_form body boundary ≡ some form)
parse_multipart_form_total body boundary =
    elim (Option-cases (parse_multipart_form body boundary)) [
      | inl e ↦ absurd (parse_multipart_form-ne-none body boundary e)
      | inr found ↦ found
    ]
