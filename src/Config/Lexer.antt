-- ===== src/Config/Lexer.antt =====
-- src/config_parser.cc: `ParseToken`. The two states for escapes within quotes are one flag here,
-- since the source reads the escaped byte within the state of the quote.
pub mod Laws
pub mod Words
use bit_link.Prelude.{
  ℕ, zero, suc, ◌+◌, ◌-◌, ◌*◌, ◌/◌, ◌%◌, ◌<◌, ◌≤◌, ◌≡◌, ◌≢◌, ◌↔◌, ◌⊎◌, inl, inr, refl, sym, ap, ◌∙◌,
  subst, List, [], ◌∷◌, ◌++◌, Option, none, some, Bool, true, false, not, ◌&&◌, ◌||◌, ltb, leb,
  ◌==◌, ==_iff, if◌then◌else◌, length, take, drop, get_elem?, All, All-append, length-append,
  append_assoc, append-nil, arith, Bool-cases, Option-cases, if_both, option_both,
}
use bit_link.Str.{Bytes, codes, one_of}

pub data TokenType : Type 0 where
  start normal start_block end_block comment statement_end eof bad : TokenType

-- A token: its type, its value, and the input behind it.
pub record Token : Type 0 where
  pub kind : TokenType
  pub value : Bytes
  pub rest : Bytes

abbrev pub token : TokenType → Bytes → Bytes → Token
token kind value rest = record { kind = kind; value = value; rest = rest }

-- May the next byte stand behind a closing quote? At the end of the input none does.
abbrev pub may_follow_quote : Bytes → Bool
may_follow_quote [] = false
may_follow_quote (c ∷ s) = one_of (codes " \n\t;{}") c

-- Within quotes; is the next byte escaped?
unfoldable pub read_quoted : ℕ → Bool → Bytes → Bytes → Token
read_quoted quote escaped value [] = token bad value []
read_quoted quote true value (c ∷ s) = read_quoted quote false (value ++ c ∷ []) s
read_quoted quote false value (c ∷ s) =
    let escape = read_quoted quote true value s in
    let more = read_quoted quote false (value ++ c ∷ []) s in
    if c == b'\\'
    then escape
    else if c == quote
    then token (if may_follow_quote s then normal else bad) (value ++ c ∷ []) s
    else more

unfoldable pub read_comment : Bytes → Bytes → Token
read_comment value [] = token eof value []
read_comment value (c ∷ s) =
    let more = read_comment (value ++ c ∷ []) s in
    if c == 10 || c == 13 then token comment value s else more

-- The byte that ends a token is put back.
abbrev pub ends_normal : ℕ → Bool
ends_normal c = one_of (codes " \t\n;{}") c

unfoldable pub read_normal : Bytes → Bytes → Token
read_normal value [] = token eof value []
read_normal value (c ∷ s) =
    let more = read_normal (value ++ c ∷ []) s in
    if ends_normal c then token normal value (c ∷ s) else more

unfoldable pub parse_token : Bytes → Token
parse_token [] = token eof [] []
parse_token (c ∷ s) =
    let skip = parse_token s in
    if c == b'{'
    then token start_block (c ∷ []) s
    else if c == b'}'
    then token end_block (c ∷ []) s
    else if c == b'#'
    then read_comment (c ∷ []) s
    else if c == b'"' || c == b'\''
    then read_quoted c false (c ∷ []) s
    else if c == b';'
    then token statement_end (c ∷ []) s
    else if one_of (codes " \t\n\r") c
    then skip
    else read_normal (c ∷ []) s

token_tests :
    (parse_token (codes "  server {") ≡ token normal (codes "server") (codes " {"))
    × (parse_token (codes "'a\\'b' ") ≡ token normal (codes "'a'b'") (codes " "))
    × ((parse_token (codes "\"ab\"c ")).kind ≡ bad)
    × ((parse_token (codes "tail")).kind ≡ eof)
unfolding parse_token read_normal read_quoted
token_tests = (refl, refl, refl, refl)
