-- ===== src/HttpParser/Form.antt =====
-- src/utils/http_parser.cc: `parse_form_data`.
pub mod RoundTrip
use mathlib.Core.List.{foldl}
use bit_link.Prelude.{
  ℕ, suc, ◌+◌, ◌≡◌, refl, [], ◌∷◌, ◌++◌, none, some, Bool, if◌then◌else◌, ◌==◌, take, drop, List,
}
use bit_link.Str.{Bytes, codes, is_empty, find_char, getlines}
use bit_link.StrMap.{StrMap, put}
use bit_link.HttpParser.Codec.{url_decode}

-- if (!key.empty()) result[key] = value;
unfoldable pub put_field : Bytes → Bytes → StrMap Bytes → StrMap Bytes
put_field key value result = if is_empty key then result else put key value result

-- One round of the loop over the pairs.
unfoldable pub add_pair : StrMap Bytes → Bytes → StrMap Bytes
add_pair result pair = if is_empty pair then result else elim (find_char b'=' pair) [
  | none ↦ put_field (url_decode pair) [] result
  | some eq_pos ↦
      put_field (url_decode (take eq_pos pair)) (url_decode (drop (suc eq_pos) pair)) result
]

unfoldable pub parse_form_data : Bytes → StrMap Bytes
parse_form_data body = if is_empty body then [] else foldl add_pair [] (getlines b'&' body)

form_test :
    parse_form_data (codes "b=2&&a=x%26y&c&=z&b=3")
    ≡ (codes "a", codes "x&y") ∷ (codes "b", codes "3") ∷ (codes "c", []) ∷ []
unfolding parse_form_data add_pair put_field put bit_link.Str.str_eq bit_link.Str.str_lt
    bit_link.Str.find_where bit_link.Str.getlines_from url_decode bit_link.HttpParser.Codec.hex_pair
    bit_link.HttpParser.Codec.decode_plain
form_test = refl
