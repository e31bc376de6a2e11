-- ===== src/HttpParser/Codec/RoundTrip.antt =====
-- src/utils/http_parser.cc: `url_decode` against `url_encode`.
use bit_link.Prelude.{
  ℕ, ◌/◌, ◌%◌, ◌<◌, ◌≤◌, ◌≡◌, ◌≢◌, ◌⊎◌, refl, ap, ◌∙◌, [], ◌∷◌, ◌++◌, none, some, Bool, true, false,
  ◌==◌, holds_below, holds_below_lem, All, All-append, arith,
}
use bit_link.Str.{Bytes, IsByte, Lacks}
use bit_link.HttpParser.Codec.{
  hex_pair, decode_plain, url_decode, hex_digit, encode_byte, url_encode,
}

-- A byte that is no '%' is decoded alone, whatever follows.
pub url_decode_plain :
    (c : ℕ) (s : Bytes) → c ≢ b'%' → url_decode (c ∷ s) ≡ decode_plain c ∷ url_decode s
unfolding url_decode
url_decode_plain c [] h = refl
url_decode_plain c (d ∷ []) h = refl
url_decode_plain c (d ∷ e ∷ s) h = ground arith

pub url_decode_escape :
    (h l b : ℕ) (s : Bytes)
    → hex_pair h l ≡ some b
    → url_decode (b'%' ∷ h ∷ l ∷ s) ≡ b ∷ url_decode s
unfolding url_decode
url_decode_escape h l b s e = rw e

-- What is to check of one byte: its escape reads back, or it stands for itself.
escape_ok : ℕ → Bool
escape_ok c = elim (hex_pair (hex_digit (c / 16)) (hex_digit (c % 16))) [
  | none ↦ false
  | some b ↦ b == c
]

escape_table : holds_below 256 escape_ok ≡ true
unfolding holds_below escape_ok hex_pair hex_digit
escape_table = refl

pub hex_pair-hex_digit :
    (c : ℕ) → IsByte c → hex_pair (hex_digit (c / 16)) (hex_digit (c % 16)) ≡ some c
unfolding escape_ok
hex_pair-hex_digit c h = ground (arith, holds_below_lem 256 escape_ok c escape_table h)

url_decode-encode_byte :
    (c : ℕ) (s : Bytes) → IsByte c → url_decode (encode_byte c ++ s) ≡ c ∷ url_decode s
unfolding encode_byte decode_plain
url_decode-encode_byte c s h = ground (
  arith,
  url_decode_plain c s,
  url_decode_plain b'+' s (omega arith),
  url_decode_escape (hex_digit (c / 16)) (hex_digit (c % 16)) c s (hex_pair-hex_digit c h),
)

-- Decoding an encoded text gives the text back, for every text of bytes.
pub url_decode-url_encode : (s : Bytes) → All IsByte s → url_decode (url_encode s) ≡ s
unfolding url_encode
url_decode-url_encode [] _ = unfold url_decode in refl
url_decode-url_encode (c ∷ s) (h, hs) =
    url_decode-encode_byte c (url_encode s) h ∙ ap (λ t. c ∷ t) (url_decode-url_encode s hs)

pub hex_digit_le : (d : ℕ) → d < 16 → (48 ≤ hex_digit d) × (hex_digit d ≤ 70) × (hex_digit d ≢ b'=')
unfolding hex_digit
hex_digit_le d h = ground arith

encode_byte-Lacks : (b c : ℕ) → b ≡ b'&' ⊎ b ≡ b'=' → IsByte c → Lacks b (encode_byte c)
unfolding encode_byte
encode_byte-Lacks b c h k =
    ground (arith, hex_digit_le (c / 16) (omega arith), hex_digit_le (c % 16) (omega arith))

-- The encoding of a text of bytes holds neither of the separators of a form body, '&' and '='.
pub url_encode-Lacks :
    (b : ℕ) (s : Bytes) → b ≡ b'&' ⊎ b ≡ b'=' → All IsByte s → Lacks b (url_encode s)
unfolding url_encode
url_encode-Lacks b [] h _ = tt
url_encode-Lacks b (c ∷ s) h (k, ks) =
    All-append _ (encode_byte c) (url_encode s) (encode_byte-Lacks b c h k)
      (url_encode-Lacks b s h ks)
