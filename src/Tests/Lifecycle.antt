-- ===== src/Tests/Lifecycle.antt =====
-- A link that is there when another is made, and its end.
use bit_link.Prelude.{◌≡◌, refl, ap, ◌∙◌, [], ◌∷◌, some, true, arith}
use bit_link.Str.{codes, str_eq, ends_in, find_last_where}
use bit_link.Database.Sqlite
use bit_link.Database.Sqlite.{c_str}
use bit_link.Database.Sqlite.Interface
use bit_link.Database.Sqlite.Tables.{find_link, remove_links, remove_clicks}
use bit_link.SlugGenerator.{
  returns, generate_unique_code, generate_code, attempt, draw_code, char_at,
}
use bit_link.Service.Privacy.{clean_base, truncate_ip_for_privacy}
use bit_link.Service.Url.{
  build_short_url, qr_or_empty, store_url, shorten_url, resolve_code, record_access, delete_link,
}
use bit_link.Service.Url.Lifecycle.{resolve_code-shorten_url_other}
use bit_link.Tests.Links.{
  Memory, memory_engine, memory_engine-Answers, memory_db, no_links, one_link, link_a,
}
use bit_link.Tests.Codes.{counter, stored, links, no_qr, base, link_x, answer, validate_run}

abbrev two_links : Memory
two_links = (record { links = link_x ∷ link_a ∷ []; clicks = [] }, 1)

second_generate_run :
    generate_unique_code counter memory_db 8 100 one_link 0 ≡ returns (codes "abcdefgh", 8)
unfolding generate_unique_code attempt generate_code draw_code char_at Sqlite.code_exists c_str
    find_link str_eq
second_generate_run = refl

second_store_run :
    store_url memory_db counter no_qr base (codes "https://x.org/") (codes "abcdefgh") one_link
    ≡ (two_links, answer)
unfolding store_url qr_or_empty build_short_url clean_base ends_in Sqlite.insert_link c_str
    find_link str_eq
second_store_run = refl

second_run :
    shorten_url memory_db counter no_qr base (codes "x.org") one_link 0
    ≡ returns ((two_links, answer), 8)
unfolding shorten_url
second_run =
    rw (validate_run, second_generate_run)
      (ap (λ q. returns (q, 8))
        (ap
            (λ v.
              store_url memory_db counter no_qr base v.normalized_url (codes "abcdefgh") one_link)
            validate_run
          ∙ second_store_run))

resolve_run :
    resolve_code memory_db counter no_qr base (codes "a") one_link ≡ some (codes "https://x.org/")
unfolding resolve_code Sqlite.get_link c_str find_link str_eq
resolve_run = refl

resolve_code-shorten_url_other_example :
    resolve_code memory_db counter no_qr base (codes "a") two_links ≡ some (codes "https://x.org/")
resolve_code-shorten_url_other_example =
    resolve_code-shorten_url_other memory_db counter no_qr base stored
      (Interface.Answers memory_engine) links (codes "a") (codes "https://x.org/") (codes "x.org")
      one_link two_links 0 8 answer (omega arith) resolve_run second_run
      (memory_engine-Answers (codes "a") two_links)

delete_run : delete_link memory_db counter no_qr base (codes "a") one_link ≡ ((no_links.0, 1), true)
unfolding delete_link Sqlite.delete_link c_str find_link remove_links remove_clicks str_eq
delete_run = refl

-- One visitor of the link.
abbrev visited : Memory
visited = (
  record {
    links = link_a ∷ [];
    clicks =
        record {
          code = codes "a";
          ip_truncated = codes "10.1.2.0";
          user_agent = codes "curl";
          referrer = [];
          timestamp = 1700000000;
        }
        ∷ [];
  },
  1,
)

access_run :
    record_access memory_db counter no_qr base
      (codes "a")
      (codes "10.1.2.3")
      (codes "curl")
      []
      one_link
    ≡ some (visited, true)
unfolding record_access Sqlite.code_exists Sqlite.record_click c_str find_link str_eq
    truncate_ip_for_privacy find_last_where
access_run = refl
