-- ===== src/Service/Url.antt =====
-- src/services/url_shortening_service.cc. The database is behind its interface; the QR encoder is
-- a parameter, whose `none` is an exception.
pub mod Shorten
pub mod Lifecycle
use bit_link.Prelude.{
  ℕ, ◌≡◌, [], ◌∷◌, ◌++◌, Option, none, some, Bool, true, false, not, if◌then◌else◌,
}
use bit_link.Str.{Bytes, codes, is_empty, str_eq}
use bit_link.Models.{LinkData, ClickStats, ClickRecord}
use bit_link.Database.{Database}
use bit_link.SlugGenerator.{Generator, Result, returns, invalid_argument, generate_unique_code}
use bit_link.UrlValidator.Validate.{validate_and_normalize}
use bit_link.Service.Privacy.{truncate_ip_for_privacy, clean_base}

pub record ShortenResult : Type 0 where
  pub success : Bool
  pub code : Bytes
  pub short_url : Bytes
  pub qr_code_data_url : Bytes
  pub error_message : Bytes

abbrev pub failure : Bytes → ShortenResult
failure message = record {
  success = false;
  code = [];
  short_url = [];
  qr_code_data_url = [];
  error_message = message;
}

unfoldable pub build_short_url : Bytes → Bytes → Bytes
build_short_url base_url code = clean_base base_url ++ (codes "/r/" ++ code)

module _ (db : Database) (r : Generator) (qr : Bytes → Option Bytes) (base_url : Bytes) where
  open db use {State, now}

  -- QR code generation may fail where the link creation succeeded.
  unfoldable pub qr_or_empty : Bytes → Bytes
  qr_or_empty short_url = elim (qr short_url) [ none ↦ [] | some data_url ↦ data_url ]

  abbrev pub created : Bytes → ShortenResult
  created code = record {
    success = true;
    code = code;
    short_url = build_short_url base_url code;
    qr_code_data_url = qr_or_empty (build_short_url base_url code);
    error_message = [];
  }

  -- The steps behind a generated code.
  unfoldable pub store_url : Bytes → Bytes → State → State × ShortenResult
  store_url normalized_url code s =
      if is_empty code
      then (s, failure (codes "Failed to generate unique code"))
      else (let (s', stored) = db.insert_link code normalized_url (codes "url") s in
          if stored
          then (s', created code)
          else (s', failure (codes "Failed to store shortened URL")))

  unfoldable pub shorten_url : Bytes → State → r.State → Result ((State × ShortenResult) × r.State)
  shorten_url url s g =
      let validation = validate_and_normalize url in
      if not validation.is_valid
      then returns ((s, failure validation.error_message), g)
      else elim (generate_unique_code r db 8 100 s g) [
        | invalid_argument message ↦ invalid_argument message
        | returns (code, g') ↦ returns (store_url validation.normalized_url code s, g')
      ]

  -- Only links of kind "url" are resolved.
  unfoldable pub resolve_code : Bytes → State → Option Bytes
  resolve_code code s = elim (db.get_link code s) [
    | none ↦ none
    | some link_data ↦
        if str_eq link_data.kind (codes "url") then some link_data.destination else none
  ]

  -- `none` is an exception of the database.
  unfoldable pub record_access : Bytes → Bytes → Bytes → Bytes → State → Option (State × Bool)
  record_access code ip_address user_agent referrer s = elim (db.code_exists code s) [
    | none ↦ none
    | some false ↦ some (s, false)
    | some true ↦ some (
        db.record_click
          (record {
            code = code;
            ip_truncated = truncate_ip_for_privacy ip_address;
            user_agent = user_agent;
            referrer = referrer;
            timestamp = now s;
          })
          s)
  ]

  unfoldable pub get_statistics : Bytes → State → ClickStats
  get_statistics code s = db.get_click_stats code s

  unfoldable pub delete_link : Bytes → State → State × Bool
  delete_link code s = db.delete_link code s
