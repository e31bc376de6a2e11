-- ===== src/JsonBuilder/Escape/RoundTrip.antt =====
-- src/utils/json_builder.cc, `escape_json_string`, against a reader of JSON strings after RFC 8259.
use bit_link.Prelude.{
  ℕ, zero, suc, ◌+◌, ◌*◌, ◌/◌, ◌%◌, ◌<◌, ◌≡◌, refl, ◌∙◌, ap, [], ◌∷◌, ◌++◌, Option, none, some,
  if◌then◌else◌, ◌==◌, ltb, arith, append_assoc,
}
use bit_link.Str.{Bytes, codes}
use bit_link.HttpParser.Codec.{hex_to_int}
use bit_link.JsonBuilder.Escape.{lower_hex_digit, escape_json_byte, escape_json_string}

-- Where the reader is: in plain text, behind a backslash, or behind "\u" with digits to come and
-- their value so far.
pub data Mode : Type 0 where
  plain escaped : Mode
  unicode : ℕ → ℕ → Mode

abbrev prepend : ℕ → Option (Bytes × Bytes) → Option (Bytes × Bytes)
prepend c none = none
prepend c (some (s, rest)) = some (c ∷ s, rest)

-- The byte that a backslash and a letter stand for.
unfoldable pub simple_escape : ℕ → Option ℕ
simple_escape c =
    if c == b'"'
    then some b'"'
    else if c == b'\\'
    then some b'\\'
    else if c == b'/'
    then some b'/'
    else if c == b'b'
    then some 8
    else if c == b'f'
    then some 12
    else if c == b'n'
    then some 10
    else if c == b'r'
    then some 13
    else if c == b't'
    then some 9
    else none

-- The string up to its closing quote, and what stands behind that. Control characters must be
-- escaped; code points are read as bytes, which serves for those below 128.
unfoldable pub read_string : Mode → Bytes → Option (Bytes × Bytes)
read_string mode [] = none
read_string plain (c ∷ s) =
    let next = prepend c (read_string plain s) in
    let escape = read_string escaped s in
    if c == b'"'
    then some ([], s)
    else if c == b'\\'
    then escape
    else if ltb c 32
    then none
    else next
read_string escaped (c ∷ s) =
    let code_point = read_string (unicode 3 0) s in
    let rest = read_string plain s in
    if c == b'u'
    then code_point
    else elim (simple_escape c) [ none ↦ none | some d ↦ prepend d rest ]
read_string (unicode zero v) (c ∷ s) =
    let rest = read_string plain s in
    elim (hex_to_int c) [ none ↦ none | some d ↦ prepend (v * 16 + d) rest ]
read_string (unicode (suc n) v) (c ∷ s) = elim (hex_to_int c) [
  | none ↦ none
  | some d ↦ read_string (unicode n (v * 16 + d)) s
]

hex_to_int-lower : (d : ℕ) → d < 16 → hex_to_int (lower_hex_digit d) ≡ some d
unfolding hex_to_int lower_hex_digit
hex_to_int-lower d h = ground arith

zero_digit : hex_to_int b'0' ≡ some 0
unfolding hex_to_int
zero_digit = refl

read_control :
    (c : ℕ) (s : Bytes)
    → c < 32
    → read_string plain (codes "\\u00" ++ lower_hex_digit (c / 16) ∷ lower_hex_digit (c % 16) ∷ s)
      ≡ prepend c (read_string plain s)
unfolding read_string
read_control c s h = ground (
  arith,
  zero_digit,
  hex_to_int-lower (c / 16) (omega arith),
  hex_to_int-lower (c % 16) (omega arith),
)

read_string-escape_json_byte :
    (c : ℕ) (s : Bytes)
    → read_string plain (escape_json_byte c ++ s) ≡ prepend c (read_string plain s)
unfolding read_string escape_json_byte simple_escape
read_string-escape_json_byte c s = ground (arith, read_control c s)

-- The escaped text of any string, closed by a double quote, is read as just that string, and the
-- reader stops at that quote: no byte of the string can end it early.
pub read_string-escape_json_string :
    (s rest : Bytes) → read_string plain (escape_json_string s ++ b'"' ∷ rest) ≡ some (s, rest)
unfolding escape_json_string
read_string-escape_json_string [] rest = unfold read_string in refl
read_string-escape_json_string (c ∷ s) rest =
    ap (read_string plain) (append_assoc (escape_json_byte c) (escape_json_string s) (b'"' ∷ rest))
    ∙ read_string-escape_json_byte c (escape_json_string s ++ b'"' ∷ rest)
    ∙ ap (prepend c) (read_string-escape_json_string s rest)
