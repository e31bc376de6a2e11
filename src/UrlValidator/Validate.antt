-- ===== src/UrlValidator/Validate.antt =====
-- src/utils/url_validator.cc: `URL_PATTERN` and `validate_and_normalize`.
pub mod Chars
pub mod Laws
use bit_link.Prelude.{
  ℕ, suc, ◌+◌, ◌-◌, ◌≡◌, refl, [], ◌∷◌, ◌++◌, List, Option, none, some, Bool, true, false, not,
  ◌&&◌, ◌||◌, if◌then◌else◌, ◌==◌, ltb, leb, length, take, drop,
}
use bit_link.Str.{
  Bytes, codes, is_empty, find_char, find_where, find_from, substr, one_of, str_eq, char_is,
  is_digit, is_alnum, is_upper, is_lower, is_hex_digit, has_char, contains, all_bytes, getlines,
  getlines_from, ends_in, or_end, find, lower, is_member,
}
use bit_link.Str.Number.{stoi, pos, negsuc, signed_part, unsigned_part, leading_digits, skip_spaces}
use bit_link.Str.Regex.{Regex, class, seq, alt, star, plus, optional, up_to, literal, regex_match}
use bit_link.UrlValidator.Parts.{
  is_valid_url_char, scheme_end?, skip_user, extract_domain, add_default_scheme, is_allowed_scheme,
  domain_at, normalize_domain, drop_last_dot,
}
use bit_link.UrlValidator.Normalize.{
  after_scheme, normalize_url, ensure_path, lower_scheme_and_domain, normalize_host,
  remove_fragment, remove_default_port, behind_at, is_default_port,
}
use bit_link.UrlValidator.Domain.{
  is_ip_address, is_valid_ip, is_blocked_domain, is_private_address, in_blocked_range, check_octets,
  is_octet, count_dots,
}

pub record ValidationResult : Type 0 where
  pub is_valid : Bool
  pub error_message : Bytes
  pub normalized_url : Bytes

abbrev pub rejected : Bytes → ValidationResult
rejected message = record { is_valid = false; error_message = message; normalized_url = [] }

-- The pattern ignores case, which only the scheme's letters need.
abbrev any_case : ℕ → ℕ → Regex
any_case lo up = class (λ c. c == lo || c == up)

abbrev url_class : Bytes → Regex
url_class more = class (λ c. is_alnum c || one_of more c)

-- (?:[…]*)? behind a byte
abbrev optional_tail : Bytes → Bytes → Regex
optional_tail mark more = optional (seq (literal mark) (star (url_class more)))

abbrev user_part : Regex
user_part = optional (seq (plus (url_class (codes "-._~%!$&'()*+,;=:"))) (literal (codes "@")))

abbrev host_part : Regex
host_part =
    alt
      (seq (literal (codes "["))
        (seq (plus (class (λ c. is_hex_digit c || c == b':'))) (literal (codes "]"))))
      (plus (url_class (codes "-._~%")))

abbrev port_part : Regex
port_part = optional (seq (literal (codes ":")) (seq (class is_digit) (up_to 4 (class is_digit))))

abbrev in_order : List Regex → Regex
in_order [] = Regex.empty
in_order (r ∷ rs) = seq r (in_order rs)

abbrev pub url_pattern : Regex
url_pattern = in_order (
    any_case b'h' b'H'
    ∷ any_case b't' b'T'
    ∷ any_case b't' b'T'
    ∷ any_case b'p' b'P'
    ∷ optional (any_case b's' b'S')
    ∷ literal (codes "://")
    ∷ user_part
    ∷ host_part
    ∷ port_part
    ∷ optional_tail (codes "/") (codes "-._~%!$&'()*+,;=:@/")
    ∷ optional_tail (codes "?") (codes "-._~%!$&'()*+,;=:@/?")
    ∷ optional_tail (codes "#") (codes "-._~%!$&'()*+,;=:@/?")
    ∷ [])

unfoldable pub is_valid_format : Bytes → Bool
is_valid_format url = regex_match url_pattern url

-- Where the search for the colon of the port starts: behind "user:pass@" and "[address]".
unfoldable pub port_search_start : Bytes → ℕ
port_search_start url =
    let start = skip_user (codes "/?#") url (after_scheme url) in
    if char_is b'[' url start
    then elim (find_from (find_char b']') url start) [
      | none ↦ start
      | some bracket_end ↦ bracket_end + 1
    ]
    else start

-- Is what stands for a port no number from 1 to 65535? No port, or an empty one, is as good.
unfoldable pub has_bad_port : Bytes → Bool
has_bad_port url = elim (find_from (find_char b':') url (port_search_start url)) [
  | none ↦ false
  | some port_start ↦
      (let port_end = or_end url (find_from (find_where (one_of (codes "/?#"))) url port_start) in
        let port_str = substr url (port_start + 1) (port_end - port_start - 1) in
        if is_empty port_str then false else elim (stoi port_str) [
          | none ↦ true
          | some (pos n) ↦ ltb n 1 || ltb 65535 n
          | some (negsuc n) ↦ true
        ])
]

-- One label of a domain name.
unfoldable pub label_error : Bytes → Option Bytes
label_error label =
    if is_empty label
    then some (codes "Domain contains empty labels")
    else if char_is b'-' label 0 || ends_in b'-' label
    then some (codes "Domain labels cannot start or end with hyphen")
    else if ltb 63 (length label)
    then some (codes "Domain label too long")
    else none

-- The loop over the labels, then the check of the last one.
unfoldable pub labels_error : List Bytes → Bytes → Option Bytes
labels_error [] last_label =
    if ltb (length last_label) 1
    then some (codes "Invalid top-level domain")
    else if not (all_bytes (λ c. is_upper c || is_lower c) last_label)
    then some (codes "Top-level domain must contain only letters")
    else none
labels_error (label ∷ labels) last_label =
    let rest = labels_error labels label in
    elim (label_error label) [ some message ↦ some message | none ↦ rest ]

-- The checks of the domain, in the order of the source.
unfoldable pub domain_error : Bytes → Option Bytes
domain_error domain =
    if is_empty domain
    then some (codes "Could not extract valid domain")
    else if ltb 253 (length domain)
    then some (codes "Domain name too long")
    else if contains (codes "..") domain
    then some (codes "Domain contains invalid patterns")
    else if not (is_ip_address domain)
        && (not (str_eq domain (codes "localhost")) && not (has_char b'.' domain))
    then some (codes "Invalid domain format - missing top-level domain")
    else (let names : Option Bytes =
          (if has_char b'.' domain && not (is_ip_address domain)
            then labels_error (getlines b'.' domain) []
            else none) in
        elim names [
          | some message ↦ some message
          | none ↦
              if is_ip_address domain && (not (has_char b':' domain) && not (is_valid_ip domain))
              then some (codes "Invalid IP address format")
              else none
        ])

-- The checks of the normalized URL.
unfoldable pub url_error : Bytes → Option Bytes
url_error normalized =
    if not (is_valid_format normalized)
    then some (codes "Invalid URL format")
    else if not (is_allowed_scheme normalized)
    then some (codes "URL scheme not allowed (only http/https)")
    else if has_bad_port normalized
    then some (codes "Invalid port number")
    else if is_blocked_domain normalized
    then some (codes "Domain is blocked")
    else domain_error (extract_domain normalized)

unfoldable pub validate_and_normalize : Bytes → ValidationResult
validate_and_normalize url =
    if is_empty url
    then rejected (codes "URL cannot be empty")
    else if not (all_bytes is_valid_url_char url)
    then rejected (codes "URL contains invalid characters")
    else (let normalized = normalize_url (add_default_scheme url) in
        elim (url_error normalized) [
          | some message ↦ rejected message
          | none ↦ record { is_valid = true; error_message = []; normalized_url = normalized }
        ])

tests : Unit {0}
unfolding validate_and_normalize url_error domain_error labels_error label_error has_bad_port
    port_search_start is_valid_format normalize_url ensure_path lower_scheme_and_domain after_scheme
    normalize_host remove_fragment remove_default_port behind_at is_default_port is_blocked_domain
    is_private_address in_blocked_range is_valid_ip check_octets is_octet is_ip_address count_dots
    is_allowed_scheme add_default_scheme extract_domain domain_at skip_user normalize_domain
    drop_last_dot is_valid_url_char stoi signed_part unsigned_part leading_digits skip_spaces
    regex_match find find_where str_eq lower ends_in getlines_from is_member
tests = tt

accepted : Bytes → ValidationResult
accepted url = record { is_valid = true; error_message = []; normalized_url = url }

validate_tests :
    (validate_and_normalize (codes "HTTPS://Ex.com:443?q") ≡ accepted (codes "https://ex.com/?q"))
    × (validate_and_normalize (codes "http://a.com:0/") ≡ rejected (codes "Invalid port number"))
    × (validate_and_normalize (codes "10.0.0.1") ≡ rejected (codes "Domain is blocked"))
    × (validate_and_normalize (codes "http://a.b1")
        ≡ rejected (codes "Top-level domain must contain only letters"))
unfolding tests accepted
validate_tests = (refl, refl, refl, refl)
