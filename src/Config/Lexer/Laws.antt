-- ===== src/Config/Lexer/Laws.antt =====
-- src/config_parser.cc, `ParseToken`: what it reads, and how much.
use bit_link.Prelude.{
  ℕ, ◌<◌, ◌≤◌, ◌≡◌, ◌⊎◌, inl, refl, [], ◌∷◌, ◌++◌, Bool, true, false, length, arith,
}
use bit_link.Str.{Bytes}
use bit_link.Config.Lexer.{eof, Token, read_quoted, read_comment, read_normal, parse_token}

-- Every token but the end of the input leaves less input.
abbrev IsShorter : ℕ → Token → Type 0
IsShorter n t = (t.kind ≡ eof) ⊎ (length t.rest < n)

read_quoted-le :
    (quote : ℕ) (escaped : Bool) (value s : Bytes)
    → length (read_quoted quote escaped value s).rest ≤ length s
unfolding read_quoted
read_quoted-le quote escaped value [] = omega arith
read_quoted-le quote true value (c ∷ s) =
    omega (arith, read_quoted-le quote false (value ++ c ∷ []) s)
read_quoted-le quote false value (c ∷ s) =
    ground
      (arith, read_quoted-le quote true value s, read_quoted-le quote false (value ++ c ∷ []) s)

read_comment-le : (value s : Bytes) → length (read_comment value s).rest ≤ length s
unfolding read_comment
read_comment-le value [] = omega arith
read_comment-le value (c ∷ s) = ground (arith, read_comment-le (value ++ c ∷ []) s)

read_normal-le : (value s : Bytes) → length (read_normal value s).rest ≤ length s
unfolding read_normal
read_normal-le value [] = omega arith
read_normal-le value (c ∷ s) = ground (arith, read_normal-le (value ++ c ∷ []) s)

pub parse_token-IsShorter : (s : Bytes) → IsShorter (length s) (parse_token s)
unfolding parse_token
parse_token-IsShorter [] = inl refl
parse_token-IsShorter (c ∷ s) = ground (
  arith,
  parse_token-IsShorter s,
  read_comment-le (c ∷ []) s,
  read_quoted-le c false (c ∷ []) s,
  read_normal-le (c ∷ []) s,
)
