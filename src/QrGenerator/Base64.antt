-- ===== src/QrGenerator/Base64.antt =====
-- src/utils/qr_generator.cc: `base64_encode`. `val` is kept modulo 2 ^ 32, as the bits of an `int`,
-- and `valb` is kept with 6 added, since it is never below -6.
use bit_link.Prelude.{
  ℕ, zero, suc, ◌+◌, ◌-◌, ◌*◌, ◌/◌, ◌%◌, ◌^◌, ◌<◌, ◌≡◌, refl, ap, ◌∙◌, [], ◌∷◌, ◌++◌, none, some,
  ltb, leb, ◌==◌, if◌then◌else◌, length, All, arith, get_elem?,
}
use bit_link.Str.{Bytes, IsByte, codes}

-- base64_chars[i]
abbrev pub char_of : ℕ → ℕ
char_of i =
    elim (get_elem? (codes "ABCDEFGHIJKLMNOPQRSTUVWXYZabcdefghijklmnopqrstuvwxyz0123456789+/") i) [
      | none ↦ 0
      | some c ↦ c
    ]

-- The inner loop: the characters, and `valb`. Each round takes 6 from it, so it is enough fuel.
unfoldable pub emit : ℕ → ℕ → ℕ → Bytes × ℕ
emit zero val valb = ([], valb)
emit (suc fuel) val valb =
    let (rest, left) = emit fuel val (valb - 6) in
    if leb 6 valb then (char_of (val / 2 ^ (valb - 6) % 64) ∷ rest, left) else ([], valb)

unfoldable pub encode_from : ℕ → ℕ → Bytes → Bytes
encode_from val valb [] =
    if ltb 0 valb then char_of (val * 2 ^ 8 % 2 ^ 32 / 2 ^ (valb + 2) % 64) ∷ [] else []
encode_from val valb (c ∷ bytes) =
    let val' = (val * 2 ^ 8 + c) % 2 ^ 32 in
    let (out, valb') = emit (valb + 8) val' (valb + 8) in out ++ encode_from val' valb' bytes

-- Three rounds are enough to reach a multiple of four.
unfoldable pub pad : ℕ → Bytes → Bytes
pad zero result = result
pad (suc fuel) result =
    let more = pad fuel (result ++ b'=' ∷ []) in if length result % 4 == 0 then result else more

unfoldable pub base64_encode : Bytes → Bytes
base64_encode bytes = pad 3 (encode_from 0 0 bytes)

base64_tests :
    (base64_encode (codes "Man") ≡ codes "TWFu")
    × (base64_encode (codes "Ma") ≡ codes "TWE=")
    × (base64_encode (codes "M") ≡ codes "TQ==")
    × (base64_encode [] ≡ [])
unfolding base64_encode pad encode_from emit
base64_tests = (refl, refl, refl, refl)

-- RFC 4648: three octets are four characters, and what is left over is padded.
abbrev pub rfc4648 : Bytes → Bytes
rfc4648 [] = []
rfc4648 (a ∷ []) = char_of (a / 4) ∷ char_of (a % 4 * 16) ∷ b'=' ∷ b'=' ∷ []
rfc4648 (a ∷ b ∷ []) =
    char_of (a / 4) ∷ char_of (a % 4 * 16 + b / 16) ∷ char_of (b % 16 * 4) ∷ b'=' ∷ []
rfc4648 (a ∷ b ∷ c ∷ bytes) =
    char_of (a / 4)
    ∷ char_of (a % 4 * 16 + b / 16)
    ∷ char_of (b % 16 * 4 + c / 64)
    ∷ char_of (c % 64)
    ∷ rfc4648 bytes

-- What the state gives behind the first, the second and the third octet of a group.
emit_first :
    (val a : ℕ) → a < 256 → emit 8 ((val * 2 ^ 8 + a) % 2 ^ 32) 8 ≡ (char_of (a / 4) ∷ [], 2)
unfolding emit
emit_first val a h =
    let same : (val * 2 ^ 8 + a) % 2 ^ 32 / 4 % 64 ≡ a / 4 = omega arith in
    ap (λ n. (char_of n ∷ [], 2)) same

emit_second :
    (val a b : ℕ)
    → a < 256
    → b < 256
    → val % 256 ≡ a
    → emit 10 ((val * 2 ^ 8 + b) % 2 ^ 32) 10 ≡ (char_of (a % 4 * 16 + b / 16) ∷ [], 4)
unfolding emit
emit_second val a b h k e =
    let same : (val * 2 ^ 8 + b) % 2 ^ 32 / 16 % 64 ≡ a % 4 * 16 + b / 16 = omega arith in
    ap (λ n. (char_of n ∷ [], 4)) same

emit_third :
    (val b c : ℕ)
    → b < 256
    → c < 256
    → val % 256 ≡ b
    → emit 12 ((val * 2 ^ 8 + c) % 2 ^ 32) 12
      ≡ (char_of (b % 16 * 4 + c / 64) ∷ char_of (c % 64) ∷ [], 0)
unfolding emit
emit_third val b c h k e =
    let high : (val * 2 ^ 8 + c) % 2 ^ 32 / 64 % 64 ≡ b % 16 * 4 + c / 64 = omega arith in
    let low : (val * 2 ^ 8 + c) % 2 ^ 32 / 1 % 64 ≡ c % 64 = omega arith in
    ap (λ n. (char_of n ∷ char_of ((val * 2 ^ 8 + c) % 2 ^ 32 / 1 % 64) ∷ [], 0)) high
    ∙ ap (λ n. (char_of (b % 16 * 4 + c / 64) ∷ char_of n ∷ [], 0)) low

pad_group :
    (fuel w x y z : ℕ) (s : Bytes) → pad fuel (w ∷ x ∷ y ∷ z ∷ s) ≡ w ∷ x ∷ y ∷ z ∷ pad fuel s
unfolding pad
pad_group zero w x y z s = refl
pad_group (suc fuel) w x y z s =
    let rest = pad_group fuel w x y z (s ++ b'=' ∷ []) in
    let same : (4 + length s) % 4 ≡ length s % 4 = omega arith in ground arith

step :
    (val valb c : ℕ) (bytes out : Bytes) (valb' : ℕ)
    → emit (valb + 8) ((val * 2 ^ 8 + c) % 2 ^ 32) (valb + 8) ≡ (out, valb')
    → encode_from val valb (c ∷ bytes) ≡ out ++ encode_from ((val * 2 ^ 8 + c) % 2 ^ 32) valb' bytes
unfolding encode_from
step val valb c bytes out valb' e = rw (e, encode_from) refl

-- Behind a whole group nothing of it is left to write.
encode_group :
    (val a b c : ℕ) (bytes : Bytes)
    → a < 256
    → b < 256
    → c < 256
    → (val' : ℕ) × (encode_from val 0 (a ∷ b ∷ c ∷ bytes)
        ≡ char_of (a / 4)
          ∷ char_of (a % 4 * 16 + b / 16)
          ∷ char_of (b % 16 * 4 + c / 64)
          ∷ char_of (c % 64)
          ∷ encode_from val' 0 bytes)
encode_group val a b c bytes ha hb hc =
    let first : ℕ = (val * 2 ^ 8 + a) % 2 ^ 32 in
    let second : ℕ = (first * 2 ^ 8 + b) % 2 ^ 32 in
    let third : ℕ = (second * 2 ^ 8 + c) % 2 ^ 32 in
    let e : first % 256 ≡ a = omega arith in
    let f : second % 256 ≡ b = omega arith in
    (
      third,
      step val 0 a (b ∷ c ∷ bytes) _ 2 (emit_first val a ha)
          ∙ ap (λ s. char_of (a / 4) ∷ s)
              (step first 2 b (c ∷ bytes) _ 4 (emit_second first a b ha hb e)
                ∙ ap (λ s. char_of (a % 4 * 16 + b / 16) ∷ s)
                    (step second 4 c bytes _ 0 (emit_third second b c hb hc f))),
    )

encode_two :
    (val a b : ℕ)
    → a < 256
    → b < 256
    → encode_from val 0 (a ∷ b ∷ [])
      ≡ char_of (a / 4) ∷ char_of (a % 4 * 16 + b / 16) ∷ char_of (b % 16 * 4) ∷ []
unfolding encode_from
encode_two val a b ha hb =
    let first : ℕ = (val * 2 ^ 8 + a) % 2 ^ 32 in
    let second : ℕ = (first * 2 ^ 8 + b) % 2 ^ 32 in
    let e : first % 256 ≡ a = omega arith in
    let last : second * 2 ^ 8 % 2 ^ 32 / 64 % 64 ≡ b % 16 * 4 = omega arith in
    step val 0 a (b ∷ []) _ 2 (emit_first val a ha)
    ∙ ap (λ s. char_of (a / 4) ∷ s)
        (step first 2 b [] _ 4 (emit_second first a b ha hb e)
          ∙ ap (λ n. char_of (a % 4 * 16 + b / 16) ∷ char_of n ∷ []) last)

encode_one :
    (val a : ℕ) → a < 256 → encode_from val 0 (a ∷ []) ≡ char_of (a / 4) ∷ char_of (a % 4 * 16) ∷ []
unfolding encode_from
encode_one val a ha =
    let first : ℕ = (val * 2 ^ 8 + a) % 2 ^ 32 in
    let last : first * 2 ^ 8 % 2 ^ 32 / 16 % 64 ≡ a % 4 * 16 = omega arith in
    step val 0 a [] _ 2 (emit_first val a ha) ∙ ap (λ n. char_of (a / 4) ∷ char_of n ∷ []) last

pad-encode_from :
    (val : ℕ) (bytes : Bytes) → All IsByte bytes → pad 3 (encode_from val 0 bytes) ≡ rfc4648 bytes
unfolding pad encode_from
pad-encode_from val [] h = refl
pad-encode_from val (a ∷ []) (ha, _) = ap (pad 3) (encode_one val a ha)
pad-encode_from val (a ∷ b ∷ []) (ha, (hb, _)) = ap (pad 3) (encode_two val a b ha hb)
pad-encode_from val (a ∷ b ∷ c ∷ bytes) (ha, (hb, (hc, h))) =
    let (val', e) = encode_group val a b c bytes ha hb hc in
    ap (pad 3) e
    ∙ pad_group 3 _ _ _ _ (encode_from val' 0 bytes)
    ∙ ap
        (λ s.
          char_of (a / 4)
          ∷ char_of (a % 4 * 16 + b / 16)
          ∷ char_of (b % 16 * 4 + c / 64)
          ∷ char_of (c % 64)
          ∷ s)
        (pad-encode_from val' bytes h)

-- The text that is written for a sequence of bytes is the one of RFC 4648, padding included,
-- although the bits that were read overflow the state.
pub base64_encode-rfc4648 : (bytes : Bytes) → All IsByte bytes → base64_encode bytes ≡ rfc4648 bytes
unfolding base64_encode
base64_encode-rfc4648 bytes h = pad-encode_from 0 bytes h
