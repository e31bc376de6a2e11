-- ===== src/ServerConfig/Served.antt =====
-- src/server_config.cc, src/handler_dispatcher.cc: the registrations of a configuration that is
-- accepted, before the dispatcher and its requests.
use bit_link.Prelude.{
  ◌≡◌, ◌≢◌, ◌⊎◌, inl, inr, refl, sym, subst, List, [], ◌∷◌, none, some, true, false, All, arith,
  Bool-cases, Option-cases, if_both, option_both,
}
use bit_link.Str.{Bytes, codes, str_eq, str_lt, ends_in, is_member}
use bit_link.Str.Search.{str_eq_iff, str_eq_refl}
use bit_link.StrMap.{StrMap, get, put, get-put}
use bit_link.StrMap.Sorted.{
  str_lt_irrefl, IsBelow, IsSorted, put-IsSorted, AllEntries, AllEntries-put,
}
use bit_link.Config.Syntax.{NginxConfig}
use bit_link.Dispatch.Dispatcher.{
  Registration, check_locations, find_longest_prefix_match, location_for,
}
use bit_link.Dispatch.Dispatcher.Longest.{IsKey, find_longest_prefix_match-IsLongest}
use bit_link.ServerConfig.{
  ok, LocationConfig, ServerConfig, new_config, has_trailing_slash, has_path, parse_config,
}
use bit_link.ServerConfig.Accepted.{IsClosed, parse_config-IsAccepted}
use bit_link.ServerConfig.Registrations.{
  handler_args, add_registration, register_all, create_handler_registrations, with_health_handler,
}

-- A registration stands under its own location.
abbrev IsOwn : Bytes → Registration → Type 0
IsOwn k reg = (reg.location ≡ k) × (has_trailing_slash k ≡ false)

record IsOrderly (m : StrMap Registration) : Type 0 where
  pub sorted : IsSorted m
  pub own : AllEntries IsOwn m

put-IsOrderly :
    (k name : Bytes) (args : List Bytes) (m : StrMap Registration)
    → has_trailing_slash k ≡ false
    → IsOrderly m
    → IsOrderly (put k (record { location = k; handler_name = name; args = args }) m)
put-IsOrderly k name args m e h = record {
  sorted = put-IsSorted k _ m h.sorted;
  own = AllEntries-put IsOwn k _ m (refl, e) h.own;
}

register_all-IsOrderly :
    (ls : List LocationConfig) (m : StrMap Registration)
    → All IsClosed ls
    → IsOrderly m
    → IsOrderly (register_all ls m)
unfolding register_all add_registration
register_all-IsOrderly [] m c h = h
register_all-IsOrderly (l ∷ ls) m (p, c) h = register_all-IsOrderly ls _ c (
    option_both IsOrderly (handler_args l) h
      (λ args. put-IsOrderly l.path l.handler_type args m p h))

with_health_handler-IsOrderly :
    (m : StrMap Registration) → IsOrderly m → IsOrderly (with_health_handler m)
unfolding with_health_handler ends_in
with_health_handler-IsOrderly m h =
    option_both IsOrderly (get (codes "/health") m) (put-IsOrderly (codes "/health") _ _ m refl h)
      (λ _. h)

not_seen :
    (k : Bytes) (seen : List Bytes) → All (λ l. str_lt l k ≡ true) seen → is_member k seen ≡ false
unfolding is_member
not_seen k [] _ = refl
not_seen k (l ∷ seen) (p, h) = ground (arith, not_seen k seen h, str_eq_iff k l, str_lt_irrefl k)

IsBelow-head :
    (k : Bytes) (reg : Registration) (m : StrMap Registration) (seen : List Bytes)
    → All (λ l. IsBelow l ((k, reg) ∷ m)) seen
    → All (λ l. str_lt l k ≡ true) seen × All (λ l. IsBelow l m) seen
IsBelow-head k reg m [] _ = (tt, tt)
IsBelow-head k reg m (l ∷ seen) ((p, q), h) =
    let (ps, qs) = IsBelow-head k reg m seen h in ((p, ps), (q, qs))

check_locations-IsOrderly :
    (seen : List Bytes) (m : StrMap Registration)
    → IsSorted m
    → AllEntries IsOwn m
    → All (λ l. IsBelow l m) seen
    → check_locations seen m ≡ none
unfolding check_locations
check_locations-IsOrderly seen [] s o b = refl
check_locations-IsOrderly seen ((k, reg) ∷ m) (under, s) ((own, closed), o) b =
    let (heads, tails) = IsBelow-head k reg m seen b in
    rw (own, not_seen k seen heads, closed)
      (check_locations-IsOrderly (k ∷ seen) m s o (under, tails))

-- The dispatcher's constructor never refuses the registrations that are made of an accepted
-- configuration, with the health handler added.
pub check_locations-parse_config :
    (config : NginxConfig) (s : ServerConfig)
    → parse_config config new_config ≡ ok s
    → check_locations [] (with_health_handler (create_handler_registrations s)) ≡ none
unfolding create_handler_registrations
check_locations-parse_config config s e =
    let accepted = parse_config-IsAccepted config s e in
    let orderly =
      with_health_handler-IsOrderly (register_all s.locations []) (
        register_all-IsOrderly s.locations [] accepted.closed (record { sorted = tt; own = tt })) in
    check_locations-IsOrderly [] _ orderly.sorted orderly.own tt

-- Is the type of the handler known?
abbrev pub IsKnown : LocationConfig → Type 0
IsKnown l = handler_args l ≢ none

-- Something stands under the text.
abbrev pub IsServed : Bytes → StrMap Registration → Type 0
IsServed k m = (reg : Registration) × (get k m ≡ some reg)

put-IsServed :
    (k j : Bytes) (reg : Registration) (m : StrMap Registration)
    → IsServed k m
    → IsServed k (put j reg m)
put-IsServed k j reg m (r, e) = elim (Bool-cases (str_eq k j)) [
  | inl f ↦ (reg, rw (get-put j k reg m, f) refl)
  | inr f ↦ (r, rw (get-put j k reg m, f) e)
]

abbrev made : LocationConfig → List Bytes → Registration
made l args = record { location = l.path; handler_name = l.handler_type; args = args }

add_registration_known :
    (l : LocationConfig) (args : List Bytes) (m : StrMap Registration)
    → handler_args l ≡ some args
    → add_registration l m ≡ put l.path (made l args) m
unfolding add_registration
add_registration_known l args m e = rw (e, add_registration) refl

register_all-IsServed :
    (k : Bytes) (ls : List LocationConfig) (m : StrMap Registration)
    → All IsKnown ls
    → (has_path k ls ≡ true) ⊎ IsServed k m
    → IsServed k (register_all ls m)
unfolding register_all
register_all-IsServed k [] m _ (inl bad) = cc
register_all-IsServed k [] m _ (inr h) = h
register_all-IsServed k (l ∷ ls) m (known, rest) h = elim (Option-cases (handler_args l)) [
  | inl e ↦ absurd (known e)
  | inr (args, e) ↦
      subst (λ x. IsServed k (register_all ls x)) (sym (add_registration_known l args m e))
        (register_all-IsServed k ls (put l.path (made l args) m) rest (at_head k l ls args m h))
]
  where
    at_head :
        (k : Bytes) (l : LocationConfig) (ls : List LocationConfig) (args : List Bytes)
        (m : StrMap Registration)
        → (has_path k (l ∷ ls) ≡ true) ⊎ IsServed k m
        → (has_path k ls ≡ true) ⊎ IsServed k (put l.path (made l args) m)
    at_head k l ls args m (inr s) = inr (put-IsServed k l.path (made l args) m s)
    at_head k l ls args m (inl p) = elim (Bool-cases (str_eq l.path k)) [
      | inl e ↦ inr (
        made l args,
        ground (arith, get-put l.path k (made l args) m, str_eq_iff l.path k, str_eq_refl k),
      )
      | inr e ↦ inl (ground arith)
    ]

IsKey-IsServed : (k : Bytes) (m : StrMap Registration) → IsKey k m → IsServed k m
unfolding get
IsKey-IsServed k [] h = absurd h
IsKey-IsServed k ((j, reg) ∷ m) h = elim (Bool-cases (str_eq k j)) [
  | inl e ↦ (reg, rw e refl)
  | inr e ↦ rw e (IsKey-IsServed k m (later k j m h e))
]
  where
    later :
        (k j : Bytes) (m : StrMap Registration)
        → (k ≡ j) ⊎ IsKey k m
        → str_eq k j ≡ false
        → IsKey k m
    later k j m (inl same) e = ground (arith, str_eq_iff k j)
    later k j m (inr h) e = h

location_for-IsServed :
    (uri : Bytes) (m : StrMap Registration)
    → IsServed (codes "/") m
    → IsServed (location_for uri m) m
unfolding location_for
location_for-IsServed uri m root = elim (find_longest_prefix_match-IsLongest uri m).1 [
  | inl e ↦ rw e root
  | inr (key, matches) ↦
      if_both (λ k. IsServed k m) _ root (IsKey-IsServed (find_longest_prefix_match uri m) m key)
]

-- With an accepted configuration whose handlers are all of known types, every request finds a
-- registration: no URI is without a handler to make.
pub location_for-parse_config :
    (config : NginxConfig) (s : ServerConfig) (uri : Bytes)
    → parse_config config new_config ≡ ok s
    → All IsKnown s.locations
    → let m = with_health_handler (create_handler_registrations s) in
      IsServed (location_for uri m) m
unfolding create_handler_registrations with_health_handler
location_for-parse_config config s uri e known =
    let root =
      register_all-IsServed (codes "/") s.locations [] known
        (inl (parse_config-IsAccepted config s e).root) in
    location_for-IsServed uri _ (
      option_both (IsServed (codes "/")) (get (codes "/health") (register_all s.locations []))
        (put-IsServed (codes "/") (codes "/health") _ _ root) (λ _. root))
