-- ===== src/FileValidator/Sanitize/Laws.antt =====
-- src/utils/file_validator.cc, `sanitize_filename`: what is left of a file's name.
use bit_link.Prelude.{
  ℕ, suc, ◌-◌, ◌≤◌, ◌≡◌, inl, inr, refl, sym, ap, subst, [], ◌∷◌, Bool, false, ◌&&◌, ◌||◌, ltb,
  ◌==◌, length, take, drop, All, All-append, arith, Bool-cases, if_both, option_both,
}
use bit_link.Prelude.{map, All-take, All-drop}
use bit_link.Str.{
  Bytes, codes, is_empty, one_of, is_space, find_last_char, is_member, str_eq, all_bytes,
}
use bit_link.FileValidator.Sanitize.{
  is_dangerous, is_control, replace_dangerous, remove_control, trim_front, trim_end, name_length,
  limit_length, guard_reserved, ensure_valid, sanitize_filename, reserved_names, to_upper,
  name_without_ext,
}

-- No separator of paths, none of the other bytes that the source calls dangerous, no control byte.
abbrev pub IsSafe : ℕ → Type 0
IsSafe c = (is_dangerous c ≡ false) × (is_control c ≡ false)

abbrev IsHarmless : ℕ → Type 0
IsHarmless c = is_dangerous c ≡ false

All-replace_dangerous : (s : Bytes) → All IsHarmless (replace_dangerous s)
unfolding replace_dangerous
All-replace_dangerous [] = tt
All-replace_dangerous (c ∷ s) = (
  elim (Bool-cases (is_dangerous c)) [ inl e ↦ rw e refl | inr e ↦ rw e e ],
  All-replace_dangerous s,
)

All-remove_control : (s : Bytes) → All IsHarmless s → All IsSafe (remove_control s)
unfolding remove_control
All-remove_control [] h = tt
All-remove_control (c ∷ s) (p, h) = elim (Bool-cases (is_control c)) [
  | inl e ↦ rw e (All-remove_control s h)
  | inr e ↦ rw e ((p, e), All-remove_control s h)
]

All-trim_front : (test : ℕ → Bool) (s : Bytes) → All IsSafe s → All IsSafe (trim_front test s)
unfolding trim_front
All-trim_front test [] h = tt
All-trim_front test (c ∷ s) (p, h) = if_both (All IsSafe) (test c) (All-trim_front test s h) (p, h)

All-trim_end : (test : ℕ → Bool) (s : Bytes) → All IsSafe s → All IsSafe (trim_end test s)
unfolding trim_end
All-trim_end test [] h = tt
All-trim_end test (c ∷ s) (p, h) =
    if_both (All IsSafe) (is_empty (trim_end test s) && test c) tt (p, All-trim_end test s h)

All-limit_length : (s : Bytes) → All IsSafe s → All IsSafe (limit_length s)
unfolding limit_length
All-limit_length s h =
    if_both (All IsSafe) (ltb 255 (length s))
      (option_both (All IsSafe) (find_last_char b'.' s) (All-take IsSafe 255 s h) (λ i.
        if_both (All IsSafe) (ltb 235 i)
          (All-append IsSafe (take (name_length (length s - i)) s) (drop i s)
            (All-take IsSafe (name_length (length s - i)) s h) (All-drop IsSafe i s h))
          (All-take IsSafe 255 s h)))
      h

All-guard_reserved : (s : Bytes) → All IsSafe s → All IsSafe (guard_reserved s)
unfolding guard_reserved
All-guard_reserved s h =
    if_both (All IsSafe) (is_member (map to_upper (name_without_ext s)) reserved_names)
      ((refl, refl), h) h

-- A name that says something: not empty, no link to a directory, and not only of '_' and spaces.
pub record IsName (s : Bytes) : Type 0 where
  pub safe : All IsSafe s
  pub not_dots : (is_empty s || str_eq s (codes ".") || str_eq s (codes "..")) ≡ false
  pub not_blank : all_bytes (λ c. c == b'_' || is_space c) s ≡ false

unnamed-IsName : IsName (codes "unnamed_file")
unfolding str_eq
unnamed-IsName = record {
  safe = (
    (refl, refl),
    (
      (refl, refl),
      (
        (refl, refl),
        (
          (refl, refl),
          (
            (refl, refl),
            (
              (refl, refl),
              (
                (refl, refl),
                ((refl, refl), ((refl, refl), ((refl, refl), ((refl, refl), ((refl, refl), tt))))),
              ),
            ),
          ),
        ),
      ),
    ),
  );
  not_dots = refl;
  not_blank = refl;
}

ensure_valid-IsName : (s : Bytes) → All IsSafe s → IsName (ensure_valid s)
unfolding ensure_valid
ensure_valid-IsName s h =
    elim (Bool-cases (is_empty s || str_eq s (codes ".") || str_eq s (codes ".."))) [
      | inl e ↦ rw e unnamed-IsName
      | inr e ↦ elim (Bool-cases (all_bytes (λ c. c == b'_' || is_space c) s)) [
        | inl f ↦ rw (e, f) unnamed-IsName
        | inr f ↦ rw (e, f) (record { safe = h; not_dots = e; not_blank = f })
      ]
    ]

-- Whatever the name of a file, the sanitized name has no slash, no backslash and none of the bytes
-- <>:"|?*, no control byte, is neither empty nor "." nor "..", and has a byte that is neither '_'
-- nor white space.
pub sanitize_filename-IsName : (filename : Bytes) → IsName (sanitize_filename filename)
unfolding sanitize_filename
sanitize_filename-IsName filename = if_both IsName (is_empty filename) unnamed-IsName (
    ensure_valid-IsName _ (
      All-guard_reserved _ (
        All-limit_length _ (
          All-trim_front (one_of (codes ". ")) _ (
            All-trim_end is_space _ (
              All-trim_front is_space _
                (All-remove_control _ (All-replace_dangerous filename))))))))

-- What does not begin with a dot or a space.
abbrev pub IsVisible : Bytes → Type 0
IsVisible [] = Unit
IsVisible (c ∷ s) = one_of (codes ". ") c ≡ false

trim_front-IsVisible : (s : Bytes) → IsVisible (trim_front (one_of (codes ". ")) s)
unfolding trim_front
trim_front-IsVisible [] = tt
trim_front-IsVisible (c ∷ s) = elim (Bool-cases (one_of (codes ". ") c)) [
  | inl e ↦ rw e (trim_front-IsVisible s)
  | inr e ↦ rw e e
]

length-remove_control : (s : Bytes) → length (remove_control s) ≤ length s
unfolding remove_control
length-remove_control [] = omega arith
length-remove_control (c ∷ s) = ground (arith, length-remove_control s)

length-replace_dangerous : (s : Bytes) → length (replace_dangerous s) ≡ length s
unfolding replace_dangerous
length-replace_dangerous [] = refl
length-replace_dangerous (c ∷ s) = ap suc (length-replace_dangerous s)

length-trim_front : (test : ℕ → Bool) (s : Bytes) → length (trim_front test s) ≤ length s
unfolding trim_front
length-trim_front test [] = omega arith
length-trim_front test (c ∷ s) = ground (arith, length-trim_front test s)

length-trim_end : (test : ℕ → Bool) (s : Bytes) → length (trim_end test s) ≤ length s
unfolding trim_end
length-trim_end test [] = omega arith
length-trim_end test (c ∷ s) = ground (arith, length-trim_end test s)

limit_length_short : (s : Bytes) → length s ≤ 255 → limit_length s ≡ s
unfolding limit_length
limit_length_short s h = rw (short, limit_length) refl
  where
    short : ltb 255 (length s) ≡ false
    short = ground arith

guard_reserved-IsVisible : (s : Bytes) → IsVisible s → IsVisible (guard_reserved s)
unfolding guard_reserved
guard_reserved-IsVisible s h =
    if_both IsVisible (is_member (map to_upper (name_without_ext s)) reserved_names) refl h

ensure_valid-IsVisible : (s : Bytes) → IsVisible s → IsVisible (ensure_valid s)
unfolding ensure_valid
ensure_valid-IsVisible s h =
    if_both IsVisible (is_empty s || str_eq s (codes ".") || str_eq s (codes "..")) refl
      (if_both IsVisible (all_bytes (λ c. c == b'_' || is_space c) s) refl h)

is_short :
    (filename : Bytes)
    → length filename ≤ 255
    → length (
        trim_front
          (one_of (codes ". "))
          (trim_end is_space (trim_front is_space (remove_control (replace_dangerous filename)))))
      ≤ 255
is_short filename h =
    let r = replace_dangerous filename in
    let t = trim_front is_space (remove_control r) in
    omega (
      arith,
      length-replace_dangerous filename,
      length-remove_control r,
      length-trim_front is_space (remove_control r),
      length-trim_end is_space t,
      length-trim_front (one_of (codes ". ")) (trim_end is_space t),
    )

-- The sanitized name of a name of at most 255 bytes does not begin with a dot or a space.
pub sanitize_filename-IsVisible :
    (filename : Bytes) → length filename ≤ 255 → IsVisible (sanitize_filename filename)
unfolding sanitize_filename
sanitize_filename-IsVisible filename h =
    let cut =
      trim_end is_space (trim_front is_space (remove_control (replace_dangerous filename))) in
    if_both IsVisible (is_empty filename) refl (
      ensure_valid-IsVisible _ (
        guard_reserved-IsVisible _ (
          subst IsVisible
            (sym (limit_length_short (trim_front (one_of (codes ". ")) cut) (is_short filename h)))
            (trim_front-IsVisible cut))))
