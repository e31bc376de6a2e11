-- ===== src/HttpParser/Codec.antt =====
-- src/utils/http_parser.cc: `hex_to_int`, `url_decode` and `url_encode`. What the source appends
-- to its output is here in front of the result for the rest of the input.
pub mod RoundTrip
use bit_link.Prelude.{
  ℕ, ◌+◌, ◌-◌, ◌*◌, ◌/◌, ◌%◌, ◌≡◌, refl, [], ◌∷◌, ◌++◌, Option, none, some, Bool, false, ◌&&◌, ◌||◌,
  ltb, leb, ◌==◌, if◌then◌else◌, bit_or,
}
use bit_link.Str.{Bytes, codes, is_alnum}

-- `none` is the result -1.
unfoldable pub hex_to_int : ℕ → Option ℕ
hex_to_int c =
    if leb b'0' c && leb c b'9'
    then some (c - b'0')
    else if leb b'A' c && leb c b'F'
    then some (c - b'A' + 10)
    else if leb b'a' c && leb c b'f'
    then some (c - b'a' + 10)
    else none

-- (hex1 << 4) | hex2, where neither is -1
unfoldable pub hex_pair : ℕ → ℕ → Option ℕ
unfolding hex_to_int
hex_pair h l = elim (hex_to_int h) [
  | none ↦ none
  | some hex1 ↦ elim (hex_to_int l) [ none ↦ none | some hex2 ↦ some (bit_or (hex1 * 16) hex2) ]
]

-- A byte that no escape begins with.
unfoldable pub decode_plain : ℕ → ℕ
decode_plain c = if c == b'+' then b' ' else c

unfoldable pub url_decode : Bytes → Bytes
url_decode [] = []
url_decode (c ∷ []) = decode_plain c ∷ []
url_decode (c ∷ d ∷ []) = decode_plain c ∷ url_decode (d ∷ [])
url_decode (c ∷ h ∷ l ∷ s) =
    let one = decode_plain c ∷ url_decode (h ∷ l ∷ s) in
    let skip = url_decode s in
    if c == b'%' then elim (hex_pair h l) [ none ↦ one | some b ↦ b ∷ skip ] else one

-- A digit as `hex << uppercase` prints it.
unfoldable pub hex_digit : ℕ → ℕ
hex_digit d = if ltb d 10 then b'0' + d else b'A' + (d - 10)

-- isalnum(c) || c == '-' || c == '_' || c == '.' || c == '~'
abbrev pub is_unreserved : ℕ → Bool
is_unreserved c = is_alnum c || c == b'-' || c == b'_' || c == b'.' || c == b'~'

unfoldable pub encode_byte : ℕ → Bytes
unfolding hex_digit
encode_byte c =
    if is_unreserved c
    then c ∷ []
    else if c == b' '
    then b'+' ∷ []
    else b'%' ∷ hex_digit (c / 16) ∷ hex_digit (c % 16) ∷ []

unfoldable pub url_encode : Bytes → Bytes
url_encode [] = []
url_encode (c ∷ s) = encode_byte c ++ url_encode s

decode_tests :
    (url_decode (codes "a%20b+c%2") ≡ codes "a b c%2")
    × (url_decode (codes "%zz%41") ≡ codes "%zzA")
unfolding url_decode hex_pair decode_plain
decode_tests = (refl, refl)

encode_test : url_encode (codes "a b/\"~") ≡ codes "a+b%2F%22~"
unfolding url_encode encode_byte
encode_test = refl
