-- ===== src/UrlValidator/Parts.antt =====
-- src/utils/url_validator.cc: `is_valid_url_char`, `extract_domain`, `normalize_domain`,
-- `add_default_scheme` and `is_allowed_scheme`.
use bit_link.Prelude.{
  ℕ, ◌+◌, ◌-◌, ◌≡◌, refl, [], ◌++◌, Option, none, some, Bool, true, false, ◌&&◌, ◌||◌,
  if◌then◌else◌, ltb, leb, take,
}
use bit_link.Str.{
  Bytes, codes, is_empty, find, find_char, find_where, find_from, substr, one_of, ends_in, pop_back,
  lower, str_eq, is_digit, is_upper, is_lower, char_is, or_end,
}

unfoldable pub is_valid_url_char : ℕ → Bool
is_valid_url_char c =
    if is_upper c || (is_lower c || is_digit c)
    then true
    else if one_of (codes "-._~:/?#[]@!$&'()*+,;=%") c
    then true
    else if one_of (codes "<>\"\\{}|^` ") c
    then false
    else leb 32 c && ltb c 127

abbrev pub scheme_end? : Bytes → Option ℕ
scheme_end? = find (codes "://")

-- Remove trailing dot.
unfoldable pub drop_last_dot : Bytes → Bytes
drop_last_dot s = if ends_in b'.' s then pop_back s else s

unfoldable pub normalize_domain : Bytes → Bytes
normalize_domain domain = drop_last_dot (lower domain)

-- Skip user:pass@ if it is in front of the first of `stops`.
unfoldable pub skip_user : Bytes → Bytes → ℕ → ℕ
skip_user stops url start = elim (find_from (find_char b'@') url start) [
  | none ↦ start
  | some at_pos ↦ elim (find_from (find_where (one_of stops)) url start) [
    | none ↦ at_pos + 1
    | some path_start ↦ if ltb at_pos path_start then at_pos + 1 else start
  ]
]

-- The domain from its first byte on.
unfoldable pub domain_at : Bytes → ℕ → Bytes
domain_at url start =
    if char_is b'[' url start
    then elim (find_from (find_char b']') url (start + 1)) [
      | none ↦ []
      | some bracket_end ↦ substr url (start + 1) (bracket_end - start - 1)
    ]
    else (let end = or_end url (find_from (find_where (one_of (codes ":/?#"))) url start) in
        normalize_domain (substr url start (end - start)))

unfoldable pub extract_domain : Bytes → Bytes
extract_domain url = if is_empty url then [] else elim (scheme_end? url) [
  | none ↦ []
  | some scheme_pos ↦ domain_at url (skip_user (codes "/?#") url (scheme_pos + 3))
]

unfoldable pub add_default_scheme : Bytes → Bytes
add_default_scheme url =
    if is_empty url
    then url
    else elim (scheme_end? url) [ none ↦ codes "https://" ++ url | some _ ↦ url ]

unfoldable pub is_allowed_scheme : Bytes → Bool
is_allowed_scheme url =
    if is_empty url
    then false
    else str_eq (take 7 (lower url)) (codes "http://")
      || str_eq (take 8 (lower url)) (codes "https://")

parts_tests :
    (extract_domain (codes "http://u:p@Ex.Com.:80/a@b") ≡ codes "ex.com")
    × (extract_domain (codes "http://[::1]:80/") ≡ codes "::1")
    × (add_default_scheme (codes "a.b") ≡ codes "https://a.b")
unfolding extract_domain domain_at skip_user normalize_domain drop_last_dot add_default_scheme find
    find_where ends_in lower
parts_tests = (refl, refl, refl)
