-- ===== src/Config/Lexer/Words.antt =====
-- src/config_parser.cc, `ParseToken`: the tokens that it reads as they are written.
use bit_link.Prelude.{
  ℕ, ◌≡◌, ◌≢◌, ◌⊎◌, inl, inr, [], ◌∷◌, ◌++◌, true, false, ◌||◌, All, append_assoc, append-nil,
  arith,
}
use bit_link.Str.{Bytes, codes, one_of, Lacks}
use bit_link.Config.Lexer.{
  normal, token, may_follow_quote, read_quoted, ends_normal, read_normal, parse_token,
}

-- A word: its first byte begins no other token, and none ends it.
abbrev pub IsWord : Bytes → Type 0
IsWord [] = ⊥
IsWord (c ∷ s) =
    ((one_of (codes "{}#;\"'") c || one_of (codes " \t\n\r") c) ≡ false)
    × All (λ d. ends_normal d ≡ false) s

-- A text in quotes, which holds neither that quote nor a backslash.
abbrev pub IsQuoted : Bytes → Type 0
IsQuoted w =
    (q : ℕ) × (body : Bytes) × (w ≡ q ∷ (body ++ q ∷ []))
    × ((q ≡ b'"') ⊎ (q ≡ b'\''))
    × Lacks q body
    × Lacks b'\\' body

abbrev pub IsToken : Bytes → Type 0
IsToken w = IsWord w ⊎ IsQuoted w

-- A space or a semicolon follows.
abbrev pub IsFollow : Bytes → Type 0
IsFollow [] = ⊥
IsFollow (c ∷ s) = (c ≡ b' ') ⊎ (c ≡ b';')

read_normal-word :
    (value w s : Bytes)
    → All (λ d. ends_normal d ≡ false) w
    → IsFollow s
    → read_normal value (w ++ s) ≡ token normal (value ++ w) s
unfolding read_normal
read_normal-word value [] [] h f = absurd f
read_normal-word value [] (c ∷ s) h f = ground (arith, append-nil value)
read_normal-word value (d ∷ w) s (p, h) f =
    ground (arith, read_normal-word (value ++ d ∷ []) w s h f, append_assoc value (d ∷ []) w)

follows_quote : (s : Bytes) → IsFollow s → may_follow_quote s ≡ true
follows_quote [] f = absurd f
follows_quote (c ∷ s) f = ground arith

read_quoted-body :
    (q : ℕ) (value body s : Bytes)
    → q ≢ b'\\'
    → Lacks q body
    → Lacks b'\\' body
    → IsFollow s
    → read_quoted q false value (body ++ q ∷ s) ≡ token normal (value ++ (body ++ q ∷ [])) s
unfolding read_quoted
read_quoted-body q value [] s ne h k f = ground (arith, follows_quote s f)
read_quoted-body q value (d ∷ body) s ne (p, h) (p', k) f = ground (
  arith,
  read_quoted-body q (value ++ d ∷ []) body s ne h k f,
  append_assoc value (d ∷ []) (body ++ q ∷ []),
)

parse_token-quoted :
    (q : ℕ) (body s : Bytes)
    → (q ≡ b'"') ⊎ (q ≡ b'\'')
    → Lacks q body
    → Lacks b'\\' body
    → IsFollow s
    → parse_token (q ∷ (body ++ q ∷ s)) ≡ token normal (q ∷ (body ++ q ∷ [])) s
unfolding parse_token
parse_token-quoted q body s quote h k f =
    ground (arith, read_quoted-body q (q ∷ []) body s (ground arith) h k f)

-- A token is read as it is written, where a space or a semicolon follows.
pub parse_token-append :
    (w s : Bytes) → IsToken w → IsFollow s → parse_token (w ++ s) ≡ token normal w s
parse_token-append [] s (inl h) f = absurd h
parse_token-append (c ∷ w) s (inl (p, h)) f = word c w s p h f
  where
    word :
        (c : ℕ) (w s : Bytes)
        → (one_of (codes "{}#;\"'") c || one_of (codes " \t\n\r") c) ≡ false
        → All (λ d. ends_normal d ≡ false) w
        → IsFollow s
        → parse_token (c ∷ (w ++ s)) ≡ token normal (c ∷ w) s
    word c w s p h f = unfold parse_token in ground (arith, read_normal-word (c ∷ []) w s h f)
parse_token-append w s (inr (q, body, e, quote, h, k)) f =
    rw (e, append_assoc body (q ∷ []) s) (parse_token-quoted q body s quote h k f)
