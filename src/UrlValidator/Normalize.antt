-- ===== src/UrlValidator/Normalize.antt =====
-- src/utils/url_validator.cc: `normalize_url` and `remove_default_port`.
pub mod Ports
pub mod Chars
use bit_link.Prelude.{
  ℕ, suc, ◌+◌, ◌-◌, ◌≡◌, refl, [], ◌∷◌, ◌++◌, Option, none, some, Bool, true, false, not, ◌&&◌,
  ◌||◌, if◌then◌else◌, ◌==◌, ltb, leb, length, take, drop,
}
use bit_link.Str.{
  Bytes, codes, is_empty, find_char, find_where, find_from, substr, one_of, lower, str_eq, char_is,
  or_end,
}
use bit_link.UrlValidator.Parts.{scheme_end?, drop_last_dot, skip_user}

-- Where the text has no "://", the source goes on from npos + 3, which is 2.
unfoldable pub after_scheme : Bytes → ℕ
after_scheme url = elim (scheme_end? url) [ none ↦ 2 | some i ↦ i + 3 ]

-- http with port 80, https with port 443
unfoldable pub is_default_port : Bytes → Bytes → Bool
is_default_port scheme port =
    str_eq scheme (codes "http") && str_eq port (codes "80")
    || str_eq scheme (codes "https") && str_eq port (codes "443")

-- Behind the first '@', wherever it stands.
unfoldable pub behind_at : Bytes → ℕ → ℕ
behind_at url start = elim (find_from (find_char b'@') url start) [
  | none ↦ start
  | some at_pos ↦ at_pos + 1
]

unfoldable pub remove_default_port : Bytes → Bytes
remove_default_port url = elim (scheme_end? url) [
  | none ↦ url
  | some scheme_end ↦
      (let scheme = lower (take scheme_end url) in
        let domain_start = behind_at url (scheme_end + 3) in
        elim (find_from (find_char b':') url domain_start) [
          | none ↦ url
          | some port_start ↦
              (let port_end =
                  or_end url (find_from (find_where (one_of (codes "/?#"))) url port_start) in
                let port = substr url (port_start + 1) (port_end - port_start - 1) in
                if is_default_port scheme port
                then take port_start url ++ drop port_end url
                else url)
        ])
]

-- Remove fragment (everything after #).
unfoldable pub remove_fragment : Bytes → Bytes
remove_fragment url = elim (find_char b'#' url) [ none ↦ url | some i ↦ take i url ]

-- A domain in lower case: an address in brackets as it stands otherwise, or a name with no dot at
-- its end. An open bracket that is not closed leaves the domain as it is.
unfoldable pub normalize_host : Bytes → Bytes
normalize_host domain =
    if char_is b'[' domain 0
    then elim (find_char b']' domain) [
      | none ↦ domain
      | some bracket_end ↦
          codes "["
          ++ (lower (substr domain 1 (bracket_end - 1))
              ++ (codes "]" ++ drop (bracket_end + 1) domain))
    ]
    else drop_last_dot (lower domain)

-- Convert scheme and domain to lowercase.
unfoldable pub lower_scheme_and_domain : Bytes → Bytes
lower_scheme_and_domain url = elim (scheme_end? url) [
  | none ↦ url
  | some scheme_end ↦
      (let domain_start = skip_user (codes "/") url (scheme_end + 3) in
        let domain_end =
          or_end url (find_from (find_where (one_of (codes ":/?"))) url domain_start) in
        lower (take scheme_end url)
        ++ (codes "://"
            ++ (substr url (scheme_end + 3) (domain_start - scheme_end - 3)
                ++ (normalize_host (substr url domain_start (domain_end - domain_start))
                    ++ drop domain_end url))))
]

-- Ensure the path starts with /.
unfoldable pub ensure_path : Bytes → Bytes
ensure_path url = elim (find_from (find_char b'/') url (after_scheme url)) [
  | some _ ↦ url
  | none ↦ elim (find_char b'?' url) [
    | none ↦ url ++ codes "/"
    | some query_start ↦ take query_start url ++ (codes "/" ++ drop query_start url)
  ]
]

unfoldable pub normalize_url : Bytes → Bytes
normalize_url url =
    ensure_path (remove_default_port (lower_scheme_and_domain (remove_fragment url)))
