-- ===== src/UrlValidator/Validate/Laws.antt =====
-- src/utils/url_validator.cc: the URLs that `validate_and_normalize` accepts.
use bit_link.Prelude.{
  ℕ, ◌≡◌, ◌≢◌, ◌≤◌, ◌<◌, ◌⊎◌, inl, inr, refl, [], ◌∷◌, List, none, Bool, true, false, ◌||◌, All,
  length, arith, Bool-cases, ◌==◌, take, ap, ◌∙◌, subst, length-take,
}
use bit_link.Str.{
  Bytes, codes, all_bytes, is_empty, is_member, has_char, str_eq, lower, ends_in, one_of,
}
use bit_link.Str.Search.{str_eq_iff, str_eq_sound}
use bit_link.UrlValidator.Parts.{
  is_valid_url_char, extract_domain, add_default_scheme, normalize_domain, is_allowed_scheme,
  drop_last_dot,
}
use bit_link.UrlValidator.Normalize.{normalize_url}
use bit_link.UrlValidator.Normalize.Chars.{All-normalize_url, All-add_default_scheme}
use bit_link.UrlValidator.Domain.{
  is_blocked_domain, blocked_domains, in_blocked_range, is_ip_address,
}
use bit_link.UrlValidator.Validate.{validate_and_normalize, url_error, domain_error, has_bad_port}
use bit_link.UrlValidator.Validate.Chars.{IsUrlChar, all_bytes_sound, IsUrlChar-to_lower}

-- A byte that can stand in a quoted attribute, a JSON text or a header as it is.
abbrev pub IsPlain : ℕ → Type 0
IsPlain c = (one_of (codes "\"<> \\") c || c == 0) ≡ false

-- The domain is neither a blocked one nor in a blocked range.
abbrev pub IsOpen : Bytes → Type 0
IsOpen d =
    (is_member d blocked_domains ≡ false)
    × (take 3 d ≢ codes "10.")
    × (take 8 d ≢ codes "192.168.")
    × (take 4 d ≢ codes "172.")

pub record IsAccepted (url n : Bytes) : Type 0 where
  pub normal : n ≡ normalize_url (add_default_scheme url)
  pub plain : All (λ c. IsUrlChar c × IsPlain c) n
  pub scheme : (take 7 (lower n) ≡ codes "http://") ⊎ (take 8 (lower n) ≡ codes "https://")
  pub port : has_bad_port n ≡ false
  pub open_domain : IsOpen (normalize_domain (extract_domain n))
  pub domain_size : (0 < length (extract_domain n)) × (length (extract_domain n) ≤ 253)
  pub dotted : (is_ip_address (extract_domain n) ≡ true) ⊎ (has_char b'.' (extract_domain n) ≡ true)

All-IsPlain : (s : Bytes) → All IsUrlChar s → All (λ c. IsUrlChar c × IsPlain c) s
All-IsPlain [] h = tt
All-IsPlain (c ∷ s) (p, h) = ((p, (IsUrlChar-to_lower c p).1), All-IsPlain s h)

normalize-plain :
    (url : Bytes) → All IsUrlChar url → All IsUrlChar (normalize_url (add_default_scheme url))
unfolding is_valid_url_char
normalize-plain url h =
    let low = λ (c : ℕ) (p : IsUrlChar c). (IsUrlChar-to_lower c p).0 in
    All-normalize_url IsUrlChar low refl refl refl refl (add_default_scheme url) (
      All-add_default_scheme IsUrlChar low refl refl refl refl url
        (refl, (refl, (refl, (refl, (refl, (refl, (refl, (refl, tt)))))))) h)

accepted_parts :
    (url : Bytes)
    → (validate_and_normalize url).is_valid ≡ true
    → let n = normalize_url (add_default_scheme url) in
      (all_bytes is_valid_url_char url ≡ true)
      × (url_error n ≡ none)
      × ((validate_and_normalize url).normalized_url ≡ n)
unfolding validate_and_normalize
accepted_parts url h = ground arith

url_error_parts :
    (n : Bytes)
    → url_error n ≡ none
    → (is_allowed_scheme n ≡ true)
      × (has_bad_port n ≡ false)
      × (is_blocked_domain n ≡ false)
      × (domain_error (extract_domain n) ≡ none)
unfolding url_error
url_error_parts n h = ground arith

domain_error_parts :
    (d : Bytes)
    → domain_error d ≡ none
    → (0 < length d)
      × (length d ≤ 253)
      × ((is_ip_address d ≡ true)
          ⊎ (str_eq d (codes "localhost") ≡ true)
          ⊎ (has_char b'.' d ≡ true))
unfolding domain_error
domain_error_parts d h = elim (Bool-cases (is_empty d)) [
  | inl e ↦ ground arith
  | inr e ↦ elim (Bool-cases (is_ip_address d)) [
    | inl ip ↦ ground arith
    | inr no_ip ↦ elim (Bool-cases (str_eq d (codes "localhost"))) [
      | inl local ↦ ground arith
      | inr other ↦ elim (Bool-cases (has_char b'.' d)) [
        | inl dot ↦ ground arith
        | inr no_dot ↦ ground arith
      ]
    ]
  ]
]

length-take_eq : (b d : Bytes) → take (length b) d ≡ b → length b ≤ length d
length-take_eq b d e = omega (arith, length-take (length b) d, ap {B = ℕ} length e)

-- A domain outside the ranges begins with none of them.
outside_ranges :
    (bs : List Bytes) (d : Bytes)
    → in_blocked_range bs d ≡ false
    → All (λ b. ends_in b'.' b ≡ true → take (length b) d ≢ b) bs
unfolding in_blocked_range
outside_ranges [] d h = tt
outside_ranges (b ∷ bs) d h = (
  λ dot e. ground (arith, length-take_eq b d e, str_eq_iff (take (length b) d) b),
  outside_ranges bs d (ground arith),
)

blocked_parts :
    (n : Bytes) → is_blocked_domain n ≡ false → IsOpen (normalize_domain (extract_domain n))
unfolding is_blocked_domain
blocked_parts n h =
    let d = normalize_domain (extract_domain n) in
    elim (Bool-cases (is_member d blocked_domains)) [
      | inl e ↦ ground arith
      | inr e ↦ elim (Bool-cases (in_blocked_range blocked_domains d)) [
        | inl f ↦ ground arith
        | inr f ↦ open_ranges d e f
      ]
    ]
  where
    open_ranges :
        (d : Bytes)
        → is_member d blocked_domains ≡ false
        → in_blocked_range blocked_domains d ≡ false
        → IsOpen d
    open_ranges d e f =
        let ranges = outside_ranges blocked_domains d f in
        let (ten, (big, (mid, _))) = ranges.1.1.1.1.1.1.1.1.1.1 in
        (
          e,
          ten (unfold ends_in in refl),
          big (unfold ends_in in refl),
          mid (unfold ends_in in refl),
        )

not_localhost : (d : Bytes) → IsOpen (normalize_domain d) → str_eq d (codes "localhost") ≡ false
unfolding is_member str_eq
not_localhost d h = elim (Bool-cases (str_eq d (codes "localhost"))) [
  | inr other ↦ other
  | inl local ↦
      let same : normalize_domain d ≡ codes "localhost" =
        ap normalize_domain (str_eq_sound d (codes "localhost") local)
        ∙ unfold normalize_domain lower drop_last_dot ends_in in refl in
      let bad : ◌≡◌ {A = Bool} true false =
        subst (λ x. is_member x blocked_domains ≡ false) same h.0 in
      cc
]

no_localhost :
    (d : Bytes)
    → str_eq d (codes "localhost") ≡ false
    → (is_ip_address d ≡ true) ⊎ (str_eq d (codes "localhost") ≡ true) ⊎ (has_char b'.' d ≡ true)
    → (is_ip_address d ≡ true) ⊎ (has_char b'.' d ≡ true)
no_localhost d no_local (inl ip) = inl ip
no_localhost d no_local (inr (inl bad)) = cc
no_localhost d no_local (inr (inr dot)) = inr dot

scheme_parts :
    (n : Bytes)
    → is_allowed_scheme n ≡ true
    → (take 7 (lower n) ≡ codes "http://") ⊎ (take 8 (lower n) ≡ codes "https://")
unfolding is_allowed_scheme
scheme_parts n h = elim (Bool-cases (str_eq (take 7 (lower n)) (codes "http://"))) [
  | inl e ↦ inl (str_eq_sound _ _ e)
  | inr e ↦ inr (str_eq_sound _ _ (ground arith))
]

-- A URL that is accepted is stored in its normal form. That form has none of the bytes that
-- quoting would have to hide, an http or https scheme, no bad port, and a domain of 1 to 253 bytes
-- which is an IP address or has a dot, and which is no blocked domain and in none of the blocked
-- ranges.
pub validate_and_normalize-IsAccepted :
    (url : Bytes)
    → (validate_and_normalize url).is_valid ≡ true
    → IsAccepted url (validate_and_normalize url).normalized_url
validate_and_normalize-IsAccepted url h =
    let (chars, no_error, same) = accepted_parts url h in
    let n = normalize_url (add_default_scheme url) in
    let (scheme, port, unblocked, domain) = url_error_parts n no_error in
    let open_domain = blocked_parts n unblocked in
    let (some_domain, short, dotted) = domain_error_parts (extract_domain n) domain in
    rw same (record {
      normal = refl;
      plain = All-IsPlain n (normalize-plain url (all_bytes_sound is_valid_url_char url chars));
      scheme = scheme_parts n scheme;
      port = port;
      open_domain = open_domain;
      domain_size = (some_domain, short);
      dotted =
          no_localhost (extract_domain n) (not_localhost (extract_domain n) open_domain) dotted;
    })
