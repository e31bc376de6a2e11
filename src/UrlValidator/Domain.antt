-- ===== src/UrlValidator/Domain.antt =====
-- src/utils/url_validator.cc: `is_ip_address`, `is_valid_ip` and `is_blocked_domain`.
use bit_link.Prelude.{
  ℕ, ◌+◌, [], ◌∷◌, List, none, some, Bool, true, false, not, ◌&&◌, ◌||◌, if◌then◌else◌, ◌==◌, ltb,
  leb, length, take,
}
use bit_link.Str.{
  Bytes, codes, is_empty, str_eq, char_is, is_digit, is_hex_digit, has_char, contains, all_bytes,
  getlines, is_member, ends_in,
}
use bit_link.Str.Number.{stoi, pos, negsuc}
use bit_link.UrlValidator.Parts.{extract_domain, normalize_domain}

unfoldable pub count_dots : Bytes → ℕ
count_dots [] = 0
count_dots (c ∷ s) = (if c == b'.' then 1 else 0) + count_dots s

-- A text with a colon, or digits and just three dots.
unfoldable pub is_ip_address : Bytes → Bool
is_ip_address domain =
    if is_empty domain
    then false
    else if has_char b':' domain
    then true
    else if all_bytes (λ c. c == b'.' || is_digit c) domain
    then count_dots domain == 3
    else false

unfoldable pub is_octet : Bytes → Bool
is_octet octet =
    if is_empty octet || ltb 3 (length octet)
    then false
    else if not (all_bytes is_digit octet)
    then false
    else if ltb 1 (length octet) && char_is b'0' octet 0
    then false
    else elim (stoi octet) [ none ↦ false | some (pos n) ↦ leb n 255 | some (negsuc n) ↦ false ]

-- The loop over the octets, with their count so far.
unfoldable pub check_octets : ℕ → List Bytes → Bool
check_octets n [] = n == 4
check_octets n (octet ∷ octets) = if is_octet octet then check_octets (n + 1) octets else false

unfoldable pub is_valid_ip : Bytes → Bool
is_valid_ip ip =
    if is_empty ip
    then false
    else if has_char b':' ip
    then if ltb (length ip) 2 || ltb 39 (length ip)
      then false
      else all_bytes (λ c. is_digit c || (is_hex_digit c || c == b':')) ip
    else check_octets 0 (getlines b'.' ip)

abbrev pub blocked_domains : List Bytes
blocked_domains =
    codes "localhost"
    ∷ codes "127.0.0.1"
    ∷ codes "0.0.0.0"
    ∷ codes "::1"
    ∷ codes "malware.com"
    ∷ codes "phishing.example"
    ∷ codes "spam.test"
    ∷ codes "blocked.domain"
    ∷ codes "internal.local"
    ∷ codes "private.internal"
    ∷ codes "10."
    ∷ codes "192.168."
    ∷ codes "172."
    ∷ []

-- Is the domain in one of the ranges, the members that end in a dot?
unfoldable pub in_blocked_range : List Bytes → Bytes → Bool
in_blocked_range [] domain = false
in_blocked_range (blocked ∷ rest) domain =
    ends_in b'.' blocked
      && (leb (length blocked) (length domain) && str_eq (take (length blocked) domain) blocked)
    || in_blocked_range rest domain

-- An address in one of the private ranges. The test of the second number changes nothing: both of
-- its outcomes return true.
unfoldable pub is_private_address : Bytes → Bool
is_private_address domain =
    is_ip_address domain
    && (str_eq (take 3 domain) (codes "10.")
        || (str_eq (take 8 domain) (codes "192.168.")
            || str_eq (take 4 domain) (codes "172.") && ltb 4 (length domain)))

unfoldable pub is_blocked_domain : Bytes → Bool
is_blocked_domain url =
    let domain = extract_domain url in
    let lower_domain = normalize_domain domain in
    if is_empty domain
    then true
    else if is_member lower_domain blocked_domains
    then true
    else if in_blocked_range blocked_domains lower_domain
    then true
    else if is_private_address lower_domain
    then true
    else if str_eq lower_domain (codes "::1")
    then true
    else if has_char b':' lower_domain
    then false
    else str_eq lower_domain (codes "localhost")
      || (contains (codes ".localhost") lower_domain || contains (codes "localhost.") lower_domain)
