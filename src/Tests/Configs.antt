-- ===== src/Tests/Configs.antt =====
-- Configurations at concrete inputs.
use bit_link.Prelude.{◌≡◌, ◌≢◌, inl, refl, [], ◌∷◌, none, true, false, All}
use bit_link.Str.{Bytes, codes, str_eq, ends_in, starts_with, is_member}
use bit_link.Str.Number.{pos, stoi}
use bit_link.StrMap.{put}
use bit_link.Config.Syntax.{NginxConfig, empty, plain, block, to_string}
use bit_link.Config.Parser.{parse, valid, unfinished, listen_flag}
use bit_link.Config.Parser.Fuel.{parse_total}
use bit_link.Config.RoundTrip.{parse-to_string, IsPrintable}
use bit_link.Dispatch.Dispatcher.{check_locations, location_for}
use bit_link.ServerConfig.{
  Outcome, ok, string_value, TypedValue, LocationConfig, ServerConfig, new_config, parse_config,
}
use bit_link.ServerConfig.Registrations.{
  create_handler_registrations, with_health_handler, handler_args,
}
use bit_link.ServerConfig.Accepted.{parse_config-IsAccepted, IsAccepted}
use bit_link.ServerConfig.Served.{
  check_locations-parse_config, location_for-parse_config, IsServed, IsKnown,
}

-- listen 80; location /api ApiHandler { data_path /d; }
abbrev one_location : NginxConfig
one_location = plain (codes "listen" ∷ codes "80" ∷ []) (
    block (codes "location" ∷ codes "/api" ∷ codes "ApiHandler" ∷ [])
      (plain (codes "data_path" ∷ codes "/d" ∷ []) empty) empty)

parse_total_example : parse (codes "listen 80; } {") ≢ unfinished
parse_total_example = parse_total (codes "listen 80; } {")

one_location-IsPrintable : IsPrintable false one_location false
unfolding listen_flag str_eq
one_location-IsPrintable = (
  (inl (refl, (refl, (refl, (refl, (refl, (refl, tt)))))), (inl (refl, (refl, tt)), tt)),
  (
    false,
    (true, refl, (false, refl, refl)),
    (
      (
        inl (refl, (refl, (refl, (refl, (refl, (refl, (refl, (refl, tt)))))))),
        (
          inl (refl, (refl, (refl, (refl, tt)))),
          (
            inl (refl, (refl, (refl, (refl, (refl, (refl, (refl, (refl, (refl, (refl, tt)))))))))),
            tt,
          ),
        ),
      ),
      (
        false,
        false,
        (false, refl, (false, refl, (false, refl, refl))),
        (
          (
            inl (refl, (refl, (refl, (refl, (refl, (refl, (refl, (refl, (refl, tt))))))))),
            (inl (refl, (refl, tt)), tt),
          ),
          (false, (false, refl, (false, refl, refl)), refl),
        ),
        refl,
      ),
    ),
  ),
)

parse-to_string_example : parse (to_string 0 one_location) ≡ valid one_location
parse-to_string_example = parse-to_string one_location false one_location-IsPrintable

abbrev accepted : ServerConfig
accepted = record {
  port = pos 80;
  locations =
      record {
        path = codes "/api";
        handler_type = codes "ApiHandler";
        args = (codes "data_path", string_value (codes "/d")) ∷ [];
      }
      ∷ record { path = codes "/"; handler_type = codes "NotFoundHandler"; args = [] }
      ∷ [];
}

one_location_run : parse_config one_location new_config ≡ ok accepted
unfolding parse_config bit_link.ServerConfig.parse_statements bit_link.ServerConfig.parse_statement
    str_eq stoi bit_link.Str.Number.signed_part bit_link.Str.Number.skip_spaces
    bit_link.Str.Number.unsigned_part bit_link.Str.Number.leading_digits ends_in
    bit_link.ServerConfig.parse_typed_arguments starts_with bit_link.ServerConfig.find_duplicate
    is_member put
one_location_run = refl

parse_config-IsAccepted_example : IsAccepted accepted
parse_config-IsAccepted_example = parse_config-IsAccepted one_location accepted one_location_run

check_locations-parse_config_example :
    check_locations [] (with_health_handler (create_handler_registrations accepted)) ≡ none
check_locations-parse_config_example =
    check_locations-parse_config one_location accepted one_location_run

accepted-IsKnown : All IsKnown accepted.locations
unfolding handler_args str_eq
accepted-IsKnown = ((λ e. cc), ((λ e. cc), tt))

location_for-parse_config_example :
    let m = with_health_handler (create_handler_registrations accepted) in
    IsServed (location_for (codes "/api/x") m) m
location_for-parse_config_example =
    location_for-parse_config one_location accepted (codes "/api/x") one_location_run
      accepted-IsKnown
