-- ===== src/ServerConfig.antt =====
-- src/server_config.cc, include/server_config.h: `ParseConfig`. Printed messages are left out.
pub mod Registrations
pub mod Accepted
pub mod Served
use bit_link.Prelude.{
  ℕ, zero, suc, ◌+◌, ◌-◌, ◌*◌, ◌/◌, ◌%◌, ◌<◌, ◌≤◌, ◌≡◌, ◌≢◌, ◌↔◌, ◌⊎◌, inl, inr, refl, sym, ap, ◌∙◌,
  subst, List, [], ◌∷◌, ◌++◌, Option, none, some, Bool, true, false, not, ◌&&◌, ◌||◌, ltb, leb,
  ◌==◌, ==_iff, if◌then◌else◌, length, take, drop, get_elem?, All, All-append, length-append,
  append_assoc, append-nil, arith, Bool-cases, Option-cases, if_both, option_both,
}
use bit_link.Str.{Bytes, codes, str_eq, ends_in, starts_with, is_member}
use bit_link.Str.Number.{ℤ, pos, negsuc, stoi}
use bit_link.StrMap.{StrMap, get, put}
use bit_link.Config.Syntax.{NginxConfig, empty, plain, block}
use bit_link.Dispatch.Dispatcher.{Refusal, duplicate_location, trailing_slash}

-- A result, the result `false`, or an exception.
pub data Outcome {ℓ} (A : Type ℓ) : Type ℓ where
  ok : A → Outcome A
  fails : Outcome A
  refuses : Refusal → Outcome A
  invalid_argument : Outcome A

infixl 5 ◌>>=◌
abbrev pub ◌>>=◌ {ℓ κ} : {A : Type ℓ} {B : Type κ} → Outcome A → (A → Outcome B) → Outcome B
ok a >>= f = f a
fails >>= f = fails
refuses r >>= f = refuses r
invalid_argument >>= f = invalid_argument

pub data TypedValue : Type 0 where
  int_value : ℤ → TypedValue
  string_value : Bytes → TypedValue
  bool_value : Bool → TypedValue

pub record LocationConfig : Type 0 where
  pub path : Bytes
  pub handler_type : Bytes
  pub args : StrMap TypedValue

pub record ServerConfig : Type 0 where
  pub port : ℤ
  pub locations : List LocationConfig

-- The constructor: no port.
abbrev pub new_config : ServerConfig
new_config = record { port = negsuc 0; locations = [] }

unfoldable pub parse_port_directive : Bytes → ServerConfig → Outcome ServerConfig
parse_port_directive port_str s = elim (stoi port_str) [
  | none ↦ fails
  | some (negsuc n) ↦ fails
  | some (pos n) ↦ if n == 0 || ltb 65535 n then fails else ok (record s { port = pos n })
]

abbrev pub is_quoted : Bytes → Bool
is_quoted v =
    leb 2 (length v)
    && ((starts_with (codes "\"") v && ends_in b'"' v)
        || (starts_with (codes "'") v && ends_in b'\'' v))

-- A value whose name does not say that it is a text: a number if `stoi` takes it.
unfoldable pub guess_type : Bytes → TypedValue
guess_type v = elim (stoi v) [
  | some n ↦ int_value n
  | none ↦
      if is_member v (codes "true" ∷ codes "yes" ∷ codes "1" ∷ [])
      then bool_value true
      else if is_member v (codes "false" ∷ codes "no" ∷ codes "0" ∷ [])
      then bool_value false
      else string_value v
]

unfoldable pub typed_value : Bytes → Bytes → TypedValue
unfolding guess_type
typed_value name v =
    if is_member name (codes "root" ∷ codes "path" ∷ codes "file" ∷ [])
    then string_value v
    else guess_type v

-- One argument; a statement with fewer than two tokens is passed over.
unfoldable pub add_argument : List Bytes → StrMap TypedValue → Outcome (StrMap TypedValue)
unfolding typed_value
add_argument [] args = ok args
add_argument (name ∷ []) args = ok args
add_argument (name ∷ v ∷ more) args =
    if is_quoted v then invalid_argument else ok (put name (typed_value name v) args)

unfoldable pub parse_typed_arguments : NginxConfig → StrMap TypedValue → Outcome (StrMap TypedValue)
unfolding add_argument
parse_typed_arguments empty args = ok args
parse_typed_arguments (plain ts rest) args = do
  args' ← add_argument ts args
  parse_typed_arguments rest args'
parse_typed_arguments (block ts child rest) args = do
  args' ← add_argument ts args
  parse_typed_arguments rest args'

abbrev pub has_key : Bytes → StrMap TypedValue → Bool
has_key name args = elim (get name args) [ none ↦ false | some v ↦ true ]

abbrev pub has_trailing_slash : Bytes → Bool
has_trailing_slash path = ltb 1 (length path) && ends_in b'/' path

-- A static handler must have a root.
unfoldable pub add_location :
    Bytes → Bytes → StrMap TypedValue → ServerConfig → Outcome ServerConfig
add_location path handler_type args s =
    if str_eq handler_type (codes "StaticHandler") && not (has_key (codes "root") args)
    then fails
    else ok (record s {
      locations =
          s.locations ++ (record { path = path; handler_type = handler_type; args = args }) ∷ [];
    })

-- The path and the handler of a location, and its block.
unfoldable pub parse_location_directive :
    Bytes → Bytes → NginxConfig → ServerConfig → Outcome ServerConfig
unfolding add_location
parse_location_directive path handler_type child s =
    if has_trailing_slash path
    then refuses (trailing_slash path)
    else (parse_typed_arguments child [] >>= λ args. add_location path handler_type args s)

-- A statement without a block has an empty one here, which holds no arguments either.
unfoldable pub parse_statement : List Bytes → NginxConfig → ServerConfig → Outcome ServerConfig
unfolding parse_location_directive parse_port_directive
parse_statement (directive ∷ first ∷ ts) child s =
    if str_eq directive (codes "listen")
    then parse_port_directive first s
    else if str_eq directive (codes "location")
    then elim ts [ [] ↦ ok s | second ∷ more ↦ parse_location_directive first second child s ]
    else ok s
parse_statement ts child s = ok s

unfoldable pub parse_statements : NginxConfig → ServerConfig → Outcome ServerConfig
parse_statements empty s = ok s
parse_statements (plain ts rest) s = do s' ← parse_statement ts empty s; parse_statements rest s'
parse_statements (block ts child rest) s = do
  s' ← parse_statement ts child s
  parse_statements rest s'

abbrev pub has_path : Bytes → List LocationConfig → Bool
has_path p [] = false
has_path p (l ∷ ls) = str_eq l.path p || has_path p ls

unfoldable pub add_default_not_found_handler : ServerConfig → ServerConfig
add_default_not_found_handler s = if has_path (codes "/") s.locations then s else record s {
  locations =
      s.locations
      ++ (record { path = codes "/"; handler_type = codes "NotFoundHandler"; args = [] }) ∷ [];
}

-- The loop that looks for a path that is there twice.
unfoldable pub find_duplicate : List Bytes → List LocationConfig → Option Bytes
find_duplicate seen [] = none
find_duplicate seen (l ∷ ls) =
    let later = find_duplicate (l.path ∷ seen) ls in
    if is_member l.path seen then some l.path else later

abbrev pub is_unset : ℤ → Bool
is_unset (pos n) = false
is_unset (negsuc n) = n == 0

unfoldable pub validate_configuration : ServerConfig → Outcome ServerConfig
validate_configuration s = if is_unset s.port then fails else elim (find_duplicate [] s.locations) [
  | some p ↦ refuses (duplicate_location p)
  | none ↦ ok s
]

unfoldable pub parse_config : NginxConfig → ServerConfig → Outcome ServerConfig
unfolding add_default_not_found_handler validate_configuration
parse_config config s = do
  s' ← parse_statements config s
  validate_configuration (add_default_not_found_handler s')
