-- ===== src/Handlers/UrlShortener/PageForm.antt =====
-- src/handlers/url_shortener_handler.cc: what the script of the main page sends to POST /shorten.
use bit_link.Prelude.{
  ℕ, ◌/◌, ◌%◌, ◌≡◌, refl, ap, ◌∙◌, [], ◌∷◌, ◌++◌, some, Bool, ◌||◌, ◌==◌, if◌then◌else◌, All,
  All-append, arith,
}
use bit_link.Str.{Bytes, IsByte, Lacks, codes, is_alnum, str_eq}
use bit_link.Str.Search.{find_char-append}
use bit_link.Str.Lines.{getlines_last}
use bit_link.StrMap.{get, put}
use bit_link.HttpParser.Codec.{hex_digit, decode_plain, url_decode}
use bit_link.HttpParser.Codec.RoundTrip.{
  url_decode_plain, url_decode_escape, hex_pair-hex_digit, hex_digit_le,
}
use bit_link.HttpParser.Form.{put_field, add_pair, parse_form_data}

-- The bytes that `encodeURIComponent` of JavaScript leaves as they are.
abbrev pub is_left : ℕ → Bool
is_left c =
    is_alnum c
    || c == b'-'
    || c == b'_'
    || c == b'.'
    || c == b'!'
    || c == b'~'
    || c == b'*'
    || c == b'\''
    || c == b'('
    || c == b')'

unfoldable pub encode_uri_byte : ℕ → Bytes
encode_uri_byte c =
    if is_left c then c ∷ [] else b'%' ∷ hex_digit (c / 16) ∷ hex_digit (c % 16) ∷ []

-- `encodeURIComponent`, of the bytes of a text.
unfoldable pub encode_uri_component : Bytes → Bytes
encode_uri_component [] = []
encode_uri_component (c ∷ s) = encode_uri_byte c ++ encode_uri_component s

-- body: 'url=' + encodeURIComponent(url)
abbrev pub url_form : Bytes → Bytes
url_form url = codes "url=" ++ encode_uri_component url

form_test :
    url_form (codes "http://x.org/a b!('c')*") ≡ codes "url=http%3A%2F%2Fx.org%2Fa%20b!('c')*"
unfolding encode_uri_component encode_uri_byte hex_digit
form_test = refl

url_decode-encode_uri_byte :
    (c : ℕ) (s : Bytes) → IsByte c → url_decode (encode_uri_byte c ++ s) ≡ c ∷ url_decode s
unfolding encode_uri_byte decode_plain
url_decode-encode_uri_byte c s h = ground (
  arith,
  url_decode_plain c s,
  url_decode_escape (hex_digit (c / 16)) (hex_digit (c % 16)) c s (hex_pair-hex_digit c h),
)

url_decode-encode_uri_component :
    (s : Bytes) → All IsByte s → url_decode (encode_uri_component s) ≡ s
unfolding encode_uri_component
url_decode-encode_uri_component [] _ = unfold url_decode in refl
url_decode-encode_uri_component (c ∷ s) (h, hs) =
    url_decode-encode_uri_byte c (encode_uri_component s) h
    ∙ ap (λ t. c ∷ t) (url_decode-encode_uri_component s hs)

encode_uri_byte-Lacks : (c : ℕ) → IsByte c → Lacks b'&' (encode_uri_byte c)
unfolding encode_uri_byte
encode_uri_byte-Lacks c k =
    ground (arith, hex_digit_le (c / 16) (omega arith), hex_digit_le (c % 16) (omega arith))

encode_uri_component-Lacks : (s : Bytes) → All IsByte s → Lacks b'&' (encode_uri_component s)
unfolding encode_uri_component
encode_uri_component-Lacks [] _ = tt
encode_uri_component-Lacks (c ∷ s) (k, ks) =
    All-append _ (encode_uri_byte c) (encode_uri_component s) (encode_uri_byte-Lacks c k)
      (encode_uri_component-Lacks s ks)

add_pair-url_form :
    (url : Bytes) → All IsByte url → add_pair [] (url_form url) ≡ put_field (codes "url") url []
unfolding add_pair
add_pair-url_form url bytes =
    let name : Bytes = codes "url" in
    let found = find_char-append b'=' name (encode_uri_component url) (omega arith) in
    let plain : url_decode name ≡ name = unfold url_decode decode_plain in refl in
    rw (found, plain, url_decode-encode_uri_component url bytes) refl

-- The text that the page sends is what the server reads from the form.
pub url_of_form :
    (url : Bytes) → All IsByte url → get (codes "url") (parse_form_data (url_form url)) ≡ some url
unfolding parse_form_data
url_of_form url bytes =
    let one =
      getlines_last b'&' (url_form url) refl
        (ground (arith, encode_uri_component-Lacks url bytes)) in
    rw (one, add_pair-url_form url bytes) (unfold put_field get put str_eq in refl)
