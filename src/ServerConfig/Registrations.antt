-- ===== src/ServerConfig/Registrations.antt =====
-- src/server_config.cc: `CreateHandlerRegistrations`, and what src/main.cc adds to them.
use bit_link.Prelude.{List, [], ◌∷◌, Option, none, some, if◌then◌else◌}
use bit_link.Str.{Bytes, codes, str_eq}
use bit_link.StrMap.{StrMap, get, put}
use bit_link.Dispatch.Dispatcher.{Registration}
use bit_link.ServerConfig.{TypedValue, string_value, LocationConfig, ServerConfig}

-- The text under a name, or a default where there is none or it is no text.
unfoldable pub string_or : Bytes → Bytes → StrMap TypedValue → Bytes
string_or default name args = elim (get name args) [ some (string_value v) ↦ v | _ ↦ default ]

unfoldable pub static_file_args : Bytes → StrMap TypedValue → List Bytes
unfolding string_or
static_file_args path args = path ∷ string_or (codes "./") (codes "root") args ∷ []

unfoldable pub api_args : Bytes → StrMap TypedValue → List Bytes
unfolding string_or
api_args path args = path ∷ string_or (codes "./") (codes "data_path") args ∷ []

unfoldable pub url_shortener_args : Bytes → StrMap TypedValue → List Bytes
unfolding string_or
url_shortener_args path args =
    path
    ∷ string_or (codes "./data/uploads") (codes "upload_dir") args
    ∷ string_or (codes "./data/shortener.db") (codes "db_path") args
    ∷ string_or (codes "http://localhost:8080") (codes "base_url") args
    ∷ []

-- The arguments of a handler; `none` says that its type is unknown.
unfoldable pub handler_args : LocationConfig → Option (List Bytes)
unfolding static_file_args api_args url_shortener_args
handler_args l =
    if str_eq l.handler_type (codes "EchoHandler")
    then some []
    else if str_eq l.handler_type (codes "StaticHandler")
    then some (static_file_args l.path l.args)
    else if str_eq l.handler_type (codes "NotFoundHandler")
    then some []
    else if str_eq l.handler_type (codes "HealthHandler")
    then some []
    else if str_eq l.handler_type (codes "ApiHandler")
    then some (api_args l.path l.args)
    else if str_eq l.handler_type (codes "URLShortenerHandler")
    then some (url_shortener_args l.path l.args)
    else none

-- One round of the loop: a location with an unknown handler is passed over.
unfoldable pub add_registration : LocationConfig → StrMap Registration → StrMap Registration
add_registration l m = elim (handler_args l) [
  | none ↦ m
  | some args ↦
      put l.path (record { location = l.path; handler_name = l.handler_type; args = args }) m
]

unfoldable pub register_all : List LocationConfig → StrMap Registration → StrMap Registration
register_all [] m = m
register_all (l ∷ ls) m = register_all ls (add_registration l m)

unfoldable pub create_handler_registrations : ServerConfig → StrMap Registration
unfolding register_all
create_handler_registrations s = register_all s.locations []

-- main: a health handler, if there is none at its place.
unfoldable pub with_health_handler : StrMap Registration → StrMap Registration
with_health_handler m = elim (get (codes "/health") m) [
  | some _ ↦ m
  | none ↦
      put (codes "/health")
        (record { location = codes "/health"; handler_name = codes "HealthHandler"; args = [] }) m
]
