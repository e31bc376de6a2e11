-- ===== src/Service/Privacy/Laws.antt =====
-- src/services/url_shortening_service.cc, `truncate_ip_for_privacy`: what it leaves of an address.
use bit_link.Prelude.{◌≡◌, sym, ◌∙◌, ap, ◌∷◌, ◌++◌, arith, take-append}
use bit_link.Str.{Bytes, codes, Lacks}
use bit_link.Str.Search.{find_last_char-append, find_last_char-Lacks}
use bit_link.Str.Lines.{is_empty-append}
use bit_link.Service.Privacy.{truncate_ip_for_privacy}

-- The last part of a dotted address is replaced by 0, whatever it is.
pub truncate_dotted :
    (net host : Bytes)
    → Lacks b'.' host
    → truncate_ip_for_privacy (net ++ b'.' ∷ host) ≡ net ++ codes ".0"
unfolding truncate_ip_for_privacy
truncate_dotted net host h = ground (
  arith,
  is_empty-append net host b'.',
  find_last_char-append b'.' net host h,
  take-append net (b'.' ∷ host),
)

-- Two clients whose addresses differ behind the last dot alone leave the same record, and
-- truncating it again changes nothing.
pub truncate_hides_host :
    (net host other : Bytes)
    → Lacks b'.' host
    → Lacks b'.' other
    → (truncate_ip_for_privacy (net ++ b'.' ∷ host) ≡ truncate_ip_for_privacy (net ++ b'.' ∷ other))
      × (truncate_ip_for_privacy (truncate_ip_for_privacy (net ++ b'.' ∷ host))
          ≡ truncate_ip_for_privacy (net ++ b'.' ∷ host))
truncate_hides_host net host other h k =
    let zero_host = truncate_dotted net (codes "0") (omega arith) in
    let first = truncate_dotted net host h in
    (
      first ∙ sym (truncate_dotted net other k),
      ap truncate_ip_for_privacy first ∙ zero_host ∙ sym first,
    )

-- Of an address with colons and no dot, only what stands from the last colon on is replaced, by
-- "::0", so all the other groups remain.
pub truncate_colons :
    (net host : Bytes)
    → Lacks b'.' (net ++ b':' ∷ host)
    → Lacks b':' host
    → truncate_ip_for_privacy (net ++ b':' ∷ host) ≡ net ++ codes "::0"
unfolding truncate_ip_for_privacy
truncate_colons net host h k = ground (
  arith,
  is_empty-append net host b':',
  find_last_char-Lacks b'.' (net ++ b':' ∷ host) h,
  find_last_char-append b':' net host k,
  take-append net (b':' ∷ host),
)
