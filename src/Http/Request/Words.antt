-- ===== src/Http/Request/Words.antt =====
-- src/request.cc: the words of the first line, and a line with a header.
use bit_link.Prelude.{
  ℕ, suc, ◌+◌, ◌≡◌, refl, ap, ◌∙◌, [], ◌∷◌, ◌++◌, none, some, true, false, length, take, drop, All,
  arith,
}
use bit_link.Prelude.{take-append, drop-append, drop-suc-append, take_all}
use bit_link.Str.{Bytes, codes, Lacks, is_empty, ends_in, pop_back, find_char, find_where, is_space}
use bit_link.Str.Search.{find_char-append}
use bit_link.Str.Number.{skip_spaces}
use bit_link.StrMap.{StrMap, put}
use bit_link.Http.Request.{strip_cr, next_word, add_header}

-- A text without white space.
abbrev pub IsBlankless : Bytes → Type 0
IsBlankless s = All (λ c. is_space c ≡ false) s

abbrev pub StartsPlain : Bytes → Type 0
StartsPlain [] = Unit
StartsPlain (c ∷ s) = is_space c ≡ false

pub ends_in-append : (c : ℕ) (s : Bytes) → ends_in c (s ++ c ∷ []) ≡ true
unfolding ends_in
ends_in-append c [] = ground arith
ends_in-append c (d ∷ []) = ends_in-append c []
ends_in-append c (d ∷ e ∷ s) = ends_in-append c (e ∷ s)

pub pop_back-append : (c : ℕ) (s : Bytes) → pop_back (s ++ c ∷ []) ≡ s
pop_back-append c [] = refl
pop_back-append c (d ∷ []) = refl
pop_back-append c (d ∷ e ∷ s) = ap (λ x. d ∷ x) (pop_back-append c (e ∷ s))

pub strip_cr-append : (s : Bytes) → strip_cr (s ++ 13 ∷ []) ≡ s
unfolding strip_cr
strip_cr-append s = rw (ends_in-append 13 s, strip_cr) (pop_back-append 13 s)

skip_spaces_plain : (s : Bytes) → StartsPlain s → skip_spaces s ≡ s
unfolding skip_spaces
skip_spaces_plain [] h = refl
skip_spaces_plain (c ∷ s) h = rw h refl

add_header_at :
    (line : Bytes) (i : ℕ) (m : StrMap Bytes)
    → find_char b':' line ≡ some i
    → add_header line m ≡ put (take i line) (skip_spaces (drop (i + 1) line)) m
unfolding add_header
add_header_at line i m e = rw (e, add_header) refl

pub add_header_lem :
    (name v : Bytes) (m : StrMap Bytes)
    → Lacks b':' name
    → StartsPlain v
    → add_header (name ++ (codes ": " ++ v)) m ≡ put name v m
unfolding skip_spaces
add_header_lem name v m h p =
    let line = name ++ (codes ": " ++ v) in
    let front : take (length name) line ≡ name = take-append name (codes ": " ++ v) in
    let same : length name + 1 ≡ suc (length name) = omega arith in
    let behind : drop (length name + 1) line ≡ b' ' ∷ v =
      ap (λ n. drop n line) same ∙ drop-suc-append b':' name (b' ' ∷ v) in
    add_header_at line (length name) m (find_char-append b':' name (b' ' ∷ v) h)
    ∙ ap (λ n. put n (skip_spaces (drop (length name + 1) line)) m) front
    ∙ ap (λ x. put name (skip_spaces x) m) behind
    ∙ ap (λ x. put name x m) (skip_spaces_plain v p)

word_end : (w s : Bytes) → IsBlankless w → find_where is_space (w ++ b' ' ∷ s) ≡ some (length w)
unfolding find_where
word_end [] s h = refl
word_end (c ∷ w) s (p, h) =
    let same : length w + 1 ≡ suc (length w) = omega arith in rw (p, word_end w s h) (ap some same)

no_end : (w : Bytes) → IsBlankless w → find_where is_space w ≡ none
unfolding find_where
no_end [] h = refl
no_end (c ∷ w) (p, h) = rw (p, no_end w h) refl

next_word_at :
    (line : Bytes) (i : ℕ)
    → skip_spaces line ≡ line
    → find_where is_space line ≡ some i
    → next_word line ≡ (take i line, drop i line)
unfolding next_word
next_word_at line i e f = rw (e, f, next_word) refl

starts_plain : (w s : Bytes) → IsBlankless w → is_empty w ≡ false → StartsPlain (w ++ s)
starts_plain [] s h e = cc
starts_plain (c ∷ w) s (p, h) e = p

pub next_word-append :
    (w s : Bytes) → IsBlankless w → is_empty w ≡ false → next_word (w ++ b' ' ∷ s) ≡ (w, b' ' ∷ s)
next_word-append w s h e =
    let line = w ++ b' ' ∷ s in
    next_word_at line (length w) (skip_spaces_plain line (starts_plain w (b' ' ∷ s) h e))
      (word_end w s h)
    ∙ ap (λ x. (x, drop (length w) line)) (take-append w (b' ' ∷ s))
    ∙ ap (λ x. (w, x)) (drop-append w (b' ' ∷ s))

pub next_word_space : (s : Bytes) → next_word (b' ' ∷ s) ≡ next_word s
unfolding next_word skip_spaces
next_word_space s = refl

blankless-StartsPlain : (w : Bytes) → IsBlankless w → StartsPlain w
blankless-StartsPlain [] h = tt
blankless-StartsPlain (c ∷ w) (p, h) = p

pub next_word_last : (w : Bytes) → IsBlankless w → (next_word w).0 ≡ w
unfolding next_word
next_word_last w h =
    rw (skip_spaces_plain w (blankless-StartsPlain w h), no_end w h, next_word)
      (take_all (length w) w (omega arith))

pub blankless-Lacks : (w : Bytes) → IsBlankless w → Lacks 10 w
blankless-Lacks [] h = tt
blankless-Lacks (c ∷ w) (p, h) = (ground arith, blankless-Lacks w h)
