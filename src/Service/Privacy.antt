-- ===== src/Service/Privacy.antt =====
-- src/services/url_shortening_service.cc and file_upload_service.cc: `truncate_ip_for_privacy`,
-- which is the same in both, and the base of `build_short_url`.
pub mod Laws
use bit_link.Prelude.{◌≡◌, refl, [], ◌∷◌, ◌++◌, none, some, if◌then◌else◌, take}
use bit_link.Str.{Bytes, codes, is_empty, find_last_char, find_last_where, ends_in, pop_back}

unfoldable pub truncate_ip_for_privacy : Bytes → Bytes
truncate_ip_for_privacy ip_address =
    if is_empty ip_address then codes "0.0.0.0" else elim (find_last_char b'.' ip_address) [
      | some last_dot ↦ take last_dot ip_address ++ codes ".0"
      | none ↦ elim (find_last_char b':' ip_address) [
        | some last_colon ↦ take last_colon ip_address ++ codes "::0"
        | none ↦ codes "0.0.0.0"
      ]
    ]

-- Remove trailing slash from base_url if present.
unfoldable pub clean_base : Bytes → Bytes
clean_base base_url = if ends_in b'/' base_url then pop_back base_url else base_url

truncate_tests :
    (truncate_ip_for_privacy (codes "192.168.1.7") ≡ codes "192.168.1.0")
    × (truncate_ip_for_privacy (codes "fe80::1:2") ≡ codes "fe80::1::0")
    × (truncate_ip_for_privacy (codes "::1") ≡ codes ":::0")
unfolding truncate_ip_for_privacy find_last_where
truncate_tests = (refl, refl, refl)
