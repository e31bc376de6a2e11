-- ===== src/Str/Search.antt =====
-- Laws of comparison, search and slicing.
use bit_link.Prelude.{
  ℕ, zero, suc, ◌≡◌, ◌≢◌, ◌↔◌, inl, inr, refl, [], ◌∷◌, ◌++◌, none, some, true, false, length, take,
  drop, arith, Bool-cases,
}
use bit_link.Str.{
  find_last_char, find_last_where, Bytes, Lacks, str_eq, starts_with, find_where, find_char,
}

pub str_eq_refl : (s : Bytes) → str_eq s s ≡ true
unfolding str_eq
str_eq_refl [] = refl
str_eq_refl (c ∷ s) = ground (arith, str_eq_refl s)

pub str_eq_sound : (s t : Bytes) → str_eq s t ≡ true → s ≡ t
unfolding str_eq
str_eq_sound [] [] h = refl
str_eq_sound [] (b ∷ t) h = cc
str_eq_sound (a ∷ s) [] h = cc
str_eq_sound (a ∷ s) (b ∷ t) h = ground (arith, str_eq_sound s t)

pub str_eq_iff : (s t : Bytes) → (str_eq s t ≡ true) ↔ (s ≡ t)
str_eq_iff s t = (str_eq_sound s t, λ e. rw e (str_eq_refl t))

pub str_eq-ne : (s t : Bytes) → s ≢ t → str_eq s t ≡ false
str_eq-ne s t h = elim (Bool-cases (str_eq s t)) [
  | inl e ↦ absurd (h (str_eq_sound s t e))
  | inr e ↦ e
]

pub starts_with-append : (p s : Bytes) → starts_with p (p ++ s) ≡ true
unfolding starts_with
starts_with-append [] s = refl
starts_with-append (c ∷ p) s = ground (arith, starts_with-append p s)

pub starts_with_sound : (p s : Bytes) → starts_with p s ≡ true → s ≡ p ++ drop (length p) s
unfolding starts_with
starts_with_sound [] s h = refl
starts_with_sound (c ∷ p) [] h = cc
starts_with_sound (c ∷ p) (d ∷ s) h = ground (arith, starts_with_sound p s)

-- A byte that is not in a prefix is found behind it.
pub find_char-append :
    (c : ℕ) (s rest : Bytes) → Lacks c s → find_char c (s ++ c ∷ rest) ≡ some (length s)
unfolding find_where
find_char-append c [] rest h = ground arith
find_char-append c (d ∷ s) rest (ne, h) = ground (arith, find_char-append c s rest h)

pub find_char-Lacks : (c : ℕ) (s : Bytes) → Lacks c s → find_char c s ≡ none
unfolding find_where
find_char-Lacks c [] h = refl
find_char-Lacks c (d ∷ s) (ne, h) = ground (arith, find_char-Lacks c s h)

pub Lacks-find_char : (c : ℕ) (s : Bytes) → find_char c s ≡ none → Lacks c s
unfolding find_where
Lacks-find_char c [] h = tt
Lacks-find_char c (d ∷ s) h = ground (arith, Lacks-find_char c s)

-- What a successful search says: the text splits at the place found, and the part before it
-- lacks the byte.
pub find_char_sound :
    (c : ℕ) (s : Bytes) (i : ℕ)
    → find_char c s ≡ some i
    → (s ≡ take i s ++ c ∷ drop (suc i) s) × Lacks c (take i s)
unfolding find_where
find_char_sound c [] i h = cc
find_char_sound c (d ∷ s) zero h = ground arith
find_char_sound c (d ∷ s) (suc i) h = ground (arith, find_char_sound c s i)

pub find_last_char-Lacks : (c : ℕ) (s : Bytes) → Lacks c s → find_last_char c s ≡ none
unfolding find_last_where
find_last_char-Lacks c [] h = refl
find_last_char-Lacks c (d ∷ s) (ne, h) = ground (arith, find_last_char-Lacks c s h)

pub find_last_char-append :
    (c : ℕ) (s t : Bytes) → Lacks c t → find_last_char c (s ++ c ∷ t) ≡ some (length s)
unfolding find_last_where
find_last_char-append c [] t h = ground (arith, find_last_char-Lacks c t h)
find_last_char-append c (d ∷ s) t h = ground (arith, find_last_char-append c s t h)
