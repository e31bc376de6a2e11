-- ===== src/ServerConfig/Accepted.antt =====
-- src/server_config.cc, src/handler_dispatcher.cc: a configuration that is accepted, and the
-- constructor of the dispatcher.
use bit_link.Prelude.{
  ℕ, ◌<◌, ◌≤◌, ◌≡◌, inl, inr, refl, subst, List, [], ◌∷◌, ◌++◌, none, true, false, not, ◌&&◌, ◌||◌,
  ltb, ◌==◌, if◌then◌else◌, All, All-append, arith, Bool-cases, Option-cases, if_both, option_both,
}
use bit_link.Str.{Bytes, codes, str_eq, ends_in, is_member}
use bit_link.Str.Number.{ℤ, pos, negsuc, stoi}
use bit_link.StrMap.{StrMap}
use bit_link.Config.Syntax.{NginxConfig, empty, plain, block}
use bit_link.ServerConfig.{
  Outcome, ok, fails, refuses, invalid_argument, ◌>>=◌, TypedValue, LocationConfig, ServerConfig,
  new_config, has_trailing_slash, has_path, has_key, is_unset, parse_port_directive, add_location,
  parse_location_directive, parse_typed_arguments, parse_statement, parse_statements, parse_config,
  add_default_not_found_handler, validate_configuration, find_duplicate,
}

-- What holds of a result, if there is one.
abbrev pub Ensures {ℓ κ} : {A : Type ℓ} → (A → Type κ) → Outcome A → Type κ
Ensures P (ok a) = P a
Ensures P _ = Unit

>>=-Ensures {ℓ κ μ ν} :
    {A : Type ℓ} {B : Type κ} (P : A → Type μ) (Q : B → Type ν) (r : Outcome A) (f : A → Outcome B)
    → Ensures P r
    → ((a : A) → P a → Ensures Q (f a))
    → Ensures Q (r >>= f)
>>=-Ensures P Q (ok a) f p h = h a p
>>=-Ensures P Q fails f p h = tt
>>=-Ensures P Q (refuses r) f p h = tt
>>=-Ensures P Q invalid_argument f p h = tt

Ensures-trivial {ℓ} : {A : Type ℓ} (r : Outcome A) → Ensures (λ _. Unit {0}) r
Ensures-trivial (ok a) = tt
Ensures-trivial fails = tt
Ensures-trivial (refuses r) = tt
Ensures-trivial invalid_argument = tt

-- A port, or none so far.
abbrev pub IsPort : ℤ → Type 0
IsPort (pos n) = (0 < n) × (n ≤ 65535)
IsPort (negsuc n) = n ≡ 0

abbrev pub IsClosed : LocationConfig → Type 0
IsClosed l = has_trailing_slash l.path ≡ false

-- What holds of a configuration in every round.
pub record IsFit (s : ServerConfig) : Type 0 where
  pub port_range : IsPort s.port
  -- no location ends in a slash, but "/"
  pub closed : All IsClosed s.locations

parse_port_directive-IsFit :
    (p : Bytes) (s : ServerConfig) → IsFit s → Ensures IsFit (parse_port_directive p s)
unfolding parse_port_directive
parse_port_directive-IsFit p s h = option_both (Ensures IsFit) (stoi p) tt (λ n. in_range n s h)
  where
    in_range :
        (n : ℤ) (s : ServerConfig)
        → IsFit s
        → Ensures IsFit (elim n [
          | pos n ↦ if n == 0 || ltb 65535 n then fails else ok (record s { port = pos n })
          | negsuc n ↦ fails
        ])
    in_range (negsuc n) s h = tt
    in_range (pos n) s h = elim (Bool-cases (n == 0 || ltb 65535 n)) [
      | inl e ↦ rw e tt
      | inr e ↦ rw e (record { port_range = ground arith; closed = h.closed })
    ]

add_location-IsFit :
    (path t : Bytes) (args : StrMap TypedValue) (s : ServerConfig)
    → has_trailing_slash path ≡ false
    → IsFit s
    → Ensures IsFit (add_location path t args s)
unfolding add_location
add_location-IsFit path t args s e h =
    let l : LocationConfig = record { path = path; handler_type = t; args = args } in
    elim (Bool-cases (str_eq t (codes "StaticHandler") && not (has_key (codes "root") args))) [
      | inl f ↦ rw f tt
      | inr f ↦ rw f (record {
        port_range = h.port_range;
        closed = All-append IsClosed s.locations (l ∷ []) h.closed (e, tt);
      })
    ]

parse_location_directive-IsFit :
    (path t : Bytes) (child : NginxConfig) (s : ServerConfig)
    → IsFit s
    → Ensures IsFit (parse_location_directive path t child s)
unfolding parse_location_directive
parse_location_directive-IsFit path t child s h = elim (Bool-cases (has_trailing_slash path)) [
  | inl e ↦ rw e tt
  | inr e ↦ rw e (
      >>=-Ensures (λ _. Unit {0}) IsFit (parse_typed_arguments child []) _
        (Ensures-trivial (parse_typed_arguments child []))
        (λ args _. add_location-IsFit path t args s e h))
]

parse_statement-IsFit :
    (ts : List Bytes) (child : NginxConfig) (s : ServerConfig)
    → IsFit s
    → Ensures IsFit (parse_statement ts child s)
unfolding parse_statement
parse_statement-IsFit [] child s h = h
parse_statement-IsFit (d ∷ []) child s h = h
parse_statement-IsFit (d ∷ first ∷ []) child s h =
    if_both (Ensures IsFit) (str_eq d (codes "listen")) (parse_port_directive-IsFit first s h)
      (if_both (Ensures IsFit) (str_eq d (codes "location")) h h)
parse_statement-IsFit (d ∷ first ∷ second ∷ more) child s h =
    if_both (Ensures IsFit) (str_eq d (codes "listen")) (parse_port_directive-IsFit first s h) (
      if_both (Ensures IsFit) (str_eq d (codes "location"))
        (parse_location_directive-IsFit first second child s h) h)

parse_statements-IsFit :
    (c : NginxConfig) (s : ServerConfig) → IsFit s → Ensures IsFit (parse_statements c s)
unfolding parse_statements
parse_statements-IsFit empty s h = h
parse_statements-IsFit (plain ts rest) s h =
    >>=-Ensures IsFit IsFit (parse_statement ts empty s) _ (parse_statement-IsFit ts empty s h)
      (λ s' h'. parse_statements-IsFit rest s' h')
parse_statements-IsFit (block ts child rest) s h =
    >>=-Ensures IsFit IsFit (parse_statement ts child s) _ (parse_statement-IsFit ts child s h)
      (λ s' h'. parse_statements-IsFit rest s' h')

add_default-IsFit : (s : ServerConfig) → IsFit s → IsFit (add_default_not_found_handler s)
unfolding add_default_not_found_handler ends_in
add_default-IsFit s h = elim (Bool-cases (has_path (codes "/") s.locations)) [
  | inl e ↦ rw e h
  | inr e ↦ rw e (record {
    port_range = h.port_range;
    closed = All-append IsClosed s.locations _ h.closed (refl, tt);
  })
]

-- No path of the list stands in it again, or among those seen.
abbrev pub AreDistinct : List Bytes → List LocationConfig → Type 0
AreDistinct seen [] = Unit
AreDistinct seen (l ∷ ls) = (is_member l.path seen ≡ false) × AreDistinct (l.path ∷ seen) ls

find_duplicate-AreDistinct :
    (seen : List Bytes) (ls : List LocationConfig)
    → find_duplicate seen ls ≡ none
    → AreDistinct seen ls
unfolding find_duplicate
find_duplicate-AreDistinct seen [] h = tt
find_duplicate-AreDistinct seen (l ∷ ls) h =
    (ground arith, find_duplicate-AreDistinct (l.path ∷ seen) ls (ground arith))

has_path-append :
    (p : Bytes) (ls ms : List LocationConfig)
    → has_path p (ls ++ ms) ≡ (has_path p ls || has_path p ms)
has_path-append p [] ms = refl
has_path-append p (l ∷ ls) ms = ground (arith, has_path-append p ls ms)

add_default-has_path :
    (s : ServerConfig) → has_path (codes "/") (add_default_not_found_handler s).locations ≡ true
unfolding add_default_not_found_handler str_eq
add_default-has_path s = elim (Bool-cases (has_path (codes "/") s.locations)) [
  | inl e ↦ rw e (rw e refl)
  | inr e ↦ rw e (rw (has_path-append (codes "/") s.locations, e) refl)
]

-- What an accepted configuration has.
pub record IsAccepted (s : ServerConfig) : Type 0 where
  pub port : (n : ℕ) × (s.port ≡ pos n) × (0 < n) × (n ≤ 65535)
  pub closed : All IsClosed s.locations
  pub distinct : AreDistinct [] s.locations
  pub root : has_path (codes "/") s.locations ≡ true

set_port : (p : ℤ) → IsPort p → is_unset p ≡ false → (n : ℕ) × (p ≡ pos n) × (0 < n) × (n ≤ 65535)
set_port (pos n) h e = (n, refl, h.0, h.1)
set_port (negsuc n) h e = ground arith

validate_configuration-IsAccepted :
    (s : ServerConfig)
    → IsFit s
    → has_path (codes "/") s.locations ≡ true
    → Ensures IsAccepted (validate_configuration s)
unfolding validate_configuration
validate_configuration-IsAccepted s h root = elim (Bool-cases (is_unset s.port)) [
  | inl e ↦ rw e tt
  | inr e ↦ elim (Option-cases (find_duplicate [] s.locations)) [
    | inl f ↦
        rw (e, f)
          (record {
            port = set_port s.port h.port_range e;
            closed = h.closed;
            distinct = find_duplicate-AreDistinct [] s.locations f;
            root = root;
          })
    | inr (p, f) ↦ rw (e, f) tt
  ]
]

new_config-IsFit : IsFit new_config
new_config-IsFit = record { port_range = refl; closed = tt }

parse_config-Ensures : (config : NginxConfig) → Ensures IsAccepted (parse_config config new_config)
unfolding parse_config
parse_config-Ensures config =
    >>=-Ensures IsFit IsAccepted (parse_statements config new_config) _
      (parse_statements-IsFit config new_config new_config-IsFit)
      (λ s h.
        validate_configuration-IsAccepted (add_default_not_found_handler s) (add_default-IsFit s h)
          (add_default-has_path s))

-- A configuration that is accepted has a port from 1 to 65535, a location "/", and locations that
-- all differ and that, but for "/", do not end in a slash.
pub parse_config-IsAccepted :
    (config : NginxConfig) (s : ServerConfig) → parse_config config new_config ≡ ok s → IsAccepted s
parse_config-IsAccepted config s e = subst (Ensures IsAccepted) e (parse_config-Ensures config)
