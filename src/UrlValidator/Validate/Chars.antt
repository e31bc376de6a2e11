-- ===== src/UrlValidator/Validate/Chars.antt =====
-- src/utils/url_validator.cc, `is_valid_url_char`: the bytes that it accepts.
use bit_link.Prelude.{
  ℕ, ◌≡◌, ◌<◌, ◌⊎◌, inl, inr, refl, [], ◌∷◌, Bool, true, false, not, ◌&&◌, ◌||◌, if◌then◌else◌, ltb,
  All, arith, ◌==◌, leb, holds_below, holds_below_lem,
}
use bit_link.Str.{Bytes, codes, to_lower, all_bytes, is_upper, one_of, is_lower, is_digit}
use bit_link.UrlValidator.Parts.{is_valid_url_char}

abbrev pub IsUrlChar : ℕ → Type 0
IsUrlChar c = is_valid_url_char c ≡ true

pub all_bytes_sound :
    (test : ℕ → Bool) (s : Bytes) → all_bytes test s ≡ true → All (λ c. test c ≡ true) s
all_bytes_sound test [] h = tt
all_bytes_sound test (c ∷ s) h = (ground arith, all_bytes_sound test s (ground arith))

one_of-lt : (ds : Bytes) (c n : ℕ) → All (λ d. d < n) ds → one_of ds c ≡ true → c < n
one_of-lt [] c n h e = cc
one_of-lt (d ∷ ds) c n (p, h) e = ground (arith, one_of-lt ds c n h)

-- Which of its tests let a byte through.
passed_test :
    (a b d : Bool) (c : ℕ)
    → (if a then true else if b then true else if d then false else leb 32 c && ltb c 127) ≡ true
    → (a ≡ true) ⊎ (b ≡ true) ⊎ (c < 127)
passed_test true b d c h = inl refl
passed_test false true d c h = inr (inl refl)
passed_test false false true c h = cc
passed_test false false false c h = inr (inr (ground arith))

letter_or_digit-lt : (c : ℕ) → (is_upper c || (is_lower c || is_digit c)) ≡ true → c < 127
letter_or_digit-lt c h = ground arith

IsUrlChar-lt : (c : ℕ) → IsUrlChar c → c < 127
unfolding is_valid_url_char
IsUrlChar-lt c h =
    elim (passed_test (is_upper c || (is_lower c || is_digit c)) _ (one_of (codes "<>\"\\{}|^` ") c)
      c h) [
        | inl letter ↦ letter_or_digit-lt c letter
        | inr (inl e) ↦ one_of-lt (codes "-._~:/?#[]@!$&'()*+,;=%") c 127 (omega arith) e
        | inr (inr lt) ↦ lt
      ]

url_char_table :
    holds_below 127 (λ c.
      not (is_valid_url_char c)
      || (is_valid_url_char (to_lower c) && not (one_of (codes "\"<> \\") c || c == 0)))
    ≡ true
unfolding holds_below is_valid_url_char to_lower
url_char_table = refl

-- Lower case keeps a byte valid, and no valid byte is a NUL, a space, a double quote, a backslash
-- or an angle bracket.
pub IsUrlChar-to_lower :
    (c : ℕ)
    → IsUrlChar c
    → IsUrlChar (to_lower c) × ((one_of (codes "\"<> \\") c || c == 0) ≡ false)
IsUrlChar-to_lower c h = ground (
  arith,
  holds_below_lem 127
      (λ c.
        not (is_valid_url_char c)
        || (is_valid_url_char (to_lower c) && not (one_of (codes "\"<> \\") c || c == 0)))
      c url_char_table (IsUrlChar-lt c h),
)
