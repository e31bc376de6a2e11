-- ===== src/JsonBuilder/Escape.antt =====
-- src/utils/json_builder.cc: `escape_json_string`.
pub mod RoundTrip
use bit_link.Prelude.{ℕ, ◌+◌, ◌-◌, ◌/◌, ◌%◌, ◌≡◌, refl, [], ◌∷◌, ◌++◌, if◌then◌else◌, ◌==◌, ltb}
use bit_link.Str.{Bytes, codes}

-- A digit as `hex` prints it.
unfoldable pub lower_hex_digit : ℕ → ℕ
lower_hex_digit d = if ltb d 10 then b'0' + d else b'a' + (d - 10)

-- One byte. A `char` above 127 is negative in the source, and goes through as it is.
unfoldable pub escape_json_byte : ℕ → Bytes
escape_json_byte c =
    if c == b'"'
    then codes "\\\""
    else if c == b'\\'
    then codes "\\\\"
    else if c == 8
    then codes "\\b"
    else if c == 12
    then codes "\\f"
    else if c == 10
    then codes "\\n"
    else if c == 13
    then codes "\\r"
    else if c == 9
    then codes "\\t"
    else if ltb c 32
    then codes "\\u00" ++ lower_hex_digit (c / 16) ∷ lower_hex_digit (c % 16) ∷ []
    else c ∷ []

unfoldable pub escape_json_string : Bytes → Bytes
escape_json_string [] = []
escape_json_string (c ∷ s) = escape_json_byte c ++ escape_json_string s
