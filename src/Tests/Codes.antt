-- ===== src/Tests/Codes.antt =====
-- Codes and links, run on the engine in memory with a generator that counts.
use bit_link.Prelude.{
  ℕ, ◌+◌, ◌%◌, ◌<◌, ◌≡◌, refl, ap, ◌∙◌, [], ◌∷◌, Option, none, some, true, arith,
}
use bit_link.Str.{
  Bytes, codes, str_eq, ends_in, starts_with, find, find_where, find_last_where, to_lower, lower,
  getlines_from, is_member,
}
use bit_link.Str.Number.{skip_spaces, leading_digits, unsigned_part, signed_part, stoi}
use bit_link.Str.Regex.{nullable, cat, either, derive, regex_match}
use bit_link.Models.{LinkData}
use bit_link.Database.Sqlite
use bit_link.Database.Sqlite.Tables.{find_link}
use bit_link.Database.Sqlite.{c_str}
use bit_link.UrlValidator.Parts.{
  is_valid_url_char, drop_last_dot, normalize_domain, skip_user, domain_at, extract_domain,
  add_default_scheme, is_allowed_scheme,
}
use bit_link.UrlValidator.Normalize.{
  after_scheme, is_default_port, behind_at, remove_default_port, remove_fragment, normalize_host,
  lower_scheme_and_domain, ensure_path, normalize_url,
}
use bit_link.UrlValidator.Domain.{
  count_dots, is_ip_address, is_octet, check_octets, is_valid_ip, in_blocked_range,
  is_private_address, is_blocked_domain,
}
use bit_link.UrlValidator.Validate.{
  is_valid_format, port_search_start, has_bad_port, label_error, labels_error, domain_error,
  url_error,
}
use bit_link.Service.Privacy.{clean_base}
use bit_link.Service.Url.{build_short_url, qr_or_empty, store_url}
use bit_link.SlugGenerator.{char_at, draw_code, attempt}
use bit_link.Database.{IsLinkTable}
use bit_link.Database.Sqlite.Interface
use bit_link.Database.Sqlite.Interface.{sqlite_database-IsLinkTable}
use bit_link.SlugGenerator.{Generator, returns, generate_code, generate_unique_code}
use bit_link.SlugGenerator.Unique.{IsChosen, generate_unique_code-IsChosen}
use bit_link.UrlValidator.Validate.{validate_and_normalize}
use bit_link.Service.Url.{ShortenResult, shorten_url, resolve_code}
use bit_link.Service.Url.Shorten.{Shortened, shorten_url-Shortened, resolve_code-shorten_url}
use bit_link.Tests.Links.{
  Memory, memory_engine, memory_engine-IsSqlite, memory_engine-Answers, memory_db, no_links,
  one_link,
}

pub in_range : (n : ℕ) → n % 62 < 62
in_range n = omega arith

-- Each draw gives the next index.
abbrev pub counter : Generator
counter = record { State = ℕ; draw = λ n. (n % 62, n + 1); draw_in_range = in_range }

abbrev pub stored : Bytes → Memory → Option (Bytes × Bytes)
stored = Interface.stored memory_engine

pub links : IsLinkTable memory_db stored (Interface.Answers memory_engine)
links = sqlite_database-IsLinkTable memory_engine memory_engine-IsSqlite

abbrev pub no_qr : Bytes → Option Bytes
no_qr s = none

abbrev pub base : Bytes
base = codes "http://b.li/"

generate_unique_code-IsChosen_example :
    (code : Bytes) × (g' : ℕ) × (generate_unique_code counter memory_db 1 2 one_link 0
      ≡ returns (code, g'))
    × IsChosen counter memory_db 2 1 one_link 0 code
generate_unique_code-IsChosen_example =
    generate_unique_code-IsChosen counter memory_db 1 2 one_link 0 (omega arith) (omega arith)

shorten_url-Shortened_example :
    (outcome : Memory × ShortenResult) × (g' : ℕ) × (shorten_url memory_db counter no_qr base
        (codes "x.org")
        no_links
        0
      ≡ returns (outcome, g'))
    × Shortened memory_db counter no_qr base stored
        (Interface.Answers memory_engine)
        links
        (codes "x.org")
        no_links
        outcome
shorten_url-Shortened_example =
    shorten_url-Shortened memory_db counter no_qr base stored (Interface.Answers memory_engine)
      links (codes "x.org") no_links 0

-- What the first call writes, and what it returns.
abbrev pub link_x : LinkData
link_x = record {
  code = codes "abcdefgh";
  destination = codes "https://x.org/";
  kind = codes "url";
  created = 1700000000;
}

abbrev after : Memory
after = (record { links = link_x ∷ []; clicks = [] }, 1)

abbrev pub answer : ShortenResult
answer = record {
  success = true;
  code = codes "abcdefgh";
  short_url = codes "http://b.li/r/abcdefgh";
  qr_code_data_url = [];
  error_message = [];
}

pub validate_run :
    validate_and_normalize (codes "x.org")
    ≡ record { is_valid = true; normalized_url = codes "https://x.org/"; error_message = [] }
unfolding validate_and_normalize is_valid_format port_search_start has_bad_port label_error
    labels_error domain_error url_error count_dots is_ip_address is_octet check_octets is_valid_ip
    in_blocked_range is_private_address is_blocked_domain after_scheme is_default_port behind_at
    remove_default_port remove_fragment normalize_host lower_scheme_and_domain ensure_path
    normalize_url is_valid_url_char drop_last_dot normalize_domain skip_user domain_at
    extract_domain add_default_scheme is_allowed_scheme nullable cat either derive regex_match
    skip_spaces leading_digits unsigned_part signed_part stoi str_eq ends_in starts_with find
    find_where find_last_where to_lower lower getlines_from is_member
validate_run = refl

pub generate_run :
    generate_unique_code counter memory_db 8 100 no_links 0 ≡ returns (codes "abcdefgh", 8)
unfolding generate_unique_code attempt generate_code draw_code char_at Sqlite.code_exists c_str
    find_link
generate_run = refl

store_run :
    store_url memory_db counter no_qr base (codes "https://x.org/") (codes "abcdefgh") no_links
    ≡ (after, answer)
unfolding store_url qr_or_empty build_short_url clean_base ends_in Sqlite.insert_link c_str
    find_link
store_run = refl

shorten_run :
    shorten_url memory_db counter no_qr base (codes "x.org") no_links 0
    ≡ returns ((after, answer), 8)
unfolding shorten_url
shorten_run =
    rw (validate_run, generate_run)
      (ap (λ q. returns (q, 8))
        (ap
            (λ v.
              store_url memory_db counter no_qr base v.normalized_url (codes "abcdefgh") no_links)
            validate_run
          ∙ store_run))

resolve_code-shorten_url_example :
    resolve_code memory_db counter no_qr base answer.code after
    ≡ some (validate_and_normalize (codes "x.org")).normalized_url
resolve_code-shorten_url_example =
    resolve_code-shorten_url memory_db counter no_qr base stored (Interface.Answers memory_engine)
      links (codes "x.org") no_links after 0 8 answer shorten_run refl
      (memory_engine-Answers answer.code after)
