-- ===== src/Dispatch/Dispatcher/Match.antt =====
-- src/handler_dispatcher.cc: when a location matches a URI.
use bit_link.Prelude.{
  ℕ, ◌≡◌, ◌⊎◌, inl, inr, refl, sym, ap, ◌∙◌, [], ◌∷◌, ◌++◌, Option, none, some, true, false, ◌||◌,
  ◌==◌, length, length-append, drop, arith, Bool-cases, append-nil, ==_iff,
}
use bit_link.Str.{Bytes, codes, starts_with, find, str_eq, char_is, shift}
use bit_link.Str.Search.{str_eq_iff, starts_with-append, starts_with_sound}
use bit_link.Dispatch.Dispatcher.{begins_with, is_match}

-- The location is "/", or all of the URI, or what stands in front of a slash of it.
abbrev pub IsMatch : Bytes → Bytes → Type 0
IsMatch uri location =
    (rest : Bytes) × (uri ≡ location ++ rest)
    × ((location ≡ codes "/") ⊎ (rest ≡ []) ⊎ ((more : Bytes) × (rest ≡ b'/' ∷ more)))

not_first : (o : Option ℕ) → (elim (shift 1 o) [ none ↦ false | some i ↦ i == 0 ]) ≡ false
not_first none = refl
not_first (some i) = ground arith

begins_with-starts_with : (p s : Bytes) → begins_with p s ≡ starts_with p s
unfolding begins_with find starts_with
begins_with-starts_with [] [] = refl
begins_with-starts_with (c ∷ p) [] = refl
begins_with-starts_with p (d ∷ s) = elim (Bool-cases (starts_with p (d ∷ s))) [
  | inl e ↦ rw (e, begins_with, find) refl
  | inr e ↦ rw (e, begins_with, find) (not_first (find p s))
]

char_is_end : (c : ℕ) (p s : Bytes) → char_is c (p ++ s) (length p) ≡ char_is c s 0
char_is_end c [] s = refl
char_is_end c (d ∷ p) s = char_is_end c p s

char_is_cons : (c : ℕ) (s : Bytes) → char_is c s 0 ≡ true → (more : Bytes) × (s ≡ c ∷ more)
char_is_cons c [] h = cc
char_is_cons c (d ∷ s) h = (s, ap (λ x. x ∷ s) ((==_iff d c).0 h))

rest_nil : (p rest : Bytes) → length (p ++ rest) ≡ length p → rest ≡ []
rest_nil p [] e = refl
rest_nil p (c ∷ rest) e = absurd (omega (arith, length-append p (c ∷ rest)))

match_cases :
    (p rest : Bytes)
    → is_match (p ++ rest) p
      ≡ (str_eq p (codes "/") || (length (p ++ rest) == length p || char_is b'/' rest 0))
unfolding is_match
match_cases p rest =
    rw (begins_with-starts_with p (p ++ rest), starts_with-append p rest, char_is_end b'/' p rest)
      refl

end_cases :
    (p rest : Bytes)
    → (str_eq p (codes "/") || (length (p ++ rest) == length p || char_is b'/' rest 0)) ≡ true
    → (p ≡ codes "/") ⊎ (rest ≡ []) ⊎ ((more : Bytes) × (rest ≡ b'/' ∷ more))
end_cases p rest h = elim (Bool-cases (str_eq p (codes "/"))) [
  | inl root ↦ inl ((str_eq_iff p (codes "/")).0 root)
  | inr e ↦ elim (Bool-cases (length (p ++ rest) == length p)) [
    | inl all ↦ inr (inl (rest_nil p rest ((==_iff (length (p ++ rest)) (length p)).0 all)))
    | inr f ↦
        let slash : char_is b'/' rest 0 ≡ true = ground (arith, h, e, f) in
        inr (inr (char_is_cons b'/' rest slash))
  ]
]

is_match-prefix :
    (uri location : Bytes) → is_match uri location ≡ true → starts_with location uri ≡ true
unfolding is_match
is_match-prefix uri location h = ground (arith, begins_with-starts_with location uri)

-- What the code takes for a match is one, and it takes every match for one.
pub is_match_sound : (uri location : Bytes) → is_match uri location ≡ true → IsMatch uri location
is_match_sound uri location h =
    let rest = drop (length location) uri in
    let whole : uri ≡ location ++ rest =
      starts_with_sound location uri (is_match-prefix uri location h) in
    (
      rest,
      whole,
      end_cases location rest
          (sym (match_cases location rest) ∙ sym (ap (λ u. is_match u location) whole) ∙ h),
    )

prefix_match :
    (location rest : Bytes)
    → (location ≡ codes "/") ⊎ (rest ≡ []) ⊎ ((more : Bytes) × (rest ≡ b'/' ∷ more))
    → is_match (location ++ rest) location ≡ true
prefix_match location rest (inl root) =
    match_cases location rest ∙ rw ((str_eq_iff location (codes "/")).1 root) refl
prefix_match location rest (inr (inl end)) =
    let all : (length (location ++ rest) == length location) ≡ true =
      (==_iff (length (location ++ rest)) (length location)).1
        (ap (λ r. length (location ++ r)) end ∙ ap length (append-nil location)) in
    match_cases location rest ∙ ground (arith, all)
prefix_match location rest (inr (inr (more, slash))) =
    let here : char_is b'/' rest 0 ≡ true = ap (λ r. char_is b'/' r 0) slash in
    match_cases location rest ∙ ground (arith, here)

pub is_match_complete : (uri location : Bytes) → IsMatch uri location → is_match uri location ≡ true
is_match_complete uri location (rest, whole, end) =
    ap (λ u. is_match u location) whole ∙ prefix_match location rest end
