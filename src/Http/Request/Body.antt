-- ===== src/Http/Request/Body.antt =====
-- src/request.cc: the lines behind the headers.
use bit_link.Prelude.{
  ℕ, ◌≡◌, ◌≢◌, inl, inr, refl, sym, ap, ◌∙◌, [], ◌∷◌, ◌++◌, ◌||◌, ◌==◌, ==_iff, if◌then◌else◌,
  append_assoc, append-nil, arith, Bool-cases,
}
use bit_link.Str.{getlines_from, Bytes, is_empty, ends_in, pop_back, getlines}
use bit_link.Str.Lines.{is_empty-append}
use bit_link.Http.Request.{join_lines, read_body}
use bit_link.Http.Request.Words.{ends_in-append, pop_back-append}

-- What comes of a text whose last line may lack its newline.
abbrev closed : Bytes → Bytes → Bytes
closed cur s = if ends_in 10 s || is_empty (cur ++ s) then cur ++ s else cur ++ (s ++ 10 ∷ [])

ends_in-cons :
    (c d : ℕ) (s : Bytes) → ends_in c (d ∷ s) ≡ (if is_empty s then d == c else ends_in c s)
unfolding ends_in
ends_in-cons c d [] = refl
ends_in-cons c d (e ∷ s) = refl

join_newline : (cur s : Bytes) → cur ++ 10 ∷ closed [] s ≡ closed cur (10 ∷ s)
unfolding ends_in
join_newline cur [] = ground arith
join_newline cur (d ∷ s) = ground (arith, is_empty-append cur (d ∷ s) 10)

join_byte : (cur s : Bytes) (c : ℕ) → c ≢ 10 → closed (cur ++ c ∷ []) s ≡ closed cur (c ∷ s)
unfolding ends_in
join_byte cur [] c ne = ground (
  arith,
  is_empty-append cur [] c,
  append-nil (cur ++ c ∷ []),
  append_assoc cur (c ∷ []) (10 ∷ []),
)
join_byte cur (d ∷ s) c ne = ground (
  arith,
  is_empty-append cur (d ∷ s) c,
  append_assoc cur (c ∷ []) (d ∷ s),
  append_assoc cur (c ∷ []) (d ∷ (s ++ 10 ∷ [])),
)

join_lines-getlines : (cur s : Bytes) → join_lines (getlines_from 10 cur s) ≡ closed cur s
unfolding getlines_from join_lines ends_in
join_lines-getlines [] [] = refl
join_lines-getlines (d ∷ cur) [] = refl
join_lines-getlines cur (c ∷ s) = elim (Bool-cases (c == 10)) [
  | inl e ↦ rw e (
      ap (λ x. cur ++ 10 ∷ x) (join_lines-getlines [] s)
      ∙ join_newline cur s
      ∙ ap (λ x. closed cur (x ∷ s)) (sym ((==_iff c 10).0 e)))
  | inr e ↦ rw e (join_lines-getlines (cur ++ c ∷ []) s ∙ join_byte cur s c (ground arith))
]

-- One newline at the end is lost.
abbrev pub without_newline : Bytes → Bytes
without_newline s = if ends_in 10 s then pop_back s else s

without_newline_closed : (s : Bytes) → without_newline (closed [] s) ≡ without_newline s
unfolding ends_in
without_newline_closed [] = refl
without_newline_closed (c ∷ s) = elim (Bool-cases (ends_in 10 (c ∷ s))) [
  | inl e ↦ rw e (rw e refl)
  | inr e ↦ rw e (rw (ends_in-append 10 (c ∷ s)) (pop_back-append 10 (c ∷ s)))
]

pub read_body-getlines : (s : Bytes) → read_body (getlines 10 s) ≡ without_newline s
unfolding read_body
read_body-getlines s = ap without_newline (join_lines-getlines [] s) ∙ without_newline_closed s
