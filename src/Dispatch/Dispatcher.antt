-- ===== src/Dispatch/Dispatcher.antt =====
-- src/handler_dispatcher.cc, include/handler_dispatcher.h.
pub mod Match
pub mod Longest
pub mod Locations
use bit_link.Prelude.{
  ℕ, zero, suc, ◌≡◌, refl, [], ◌∷◌, List, Option, none, some, Bool, true, false, ◌&&◌, ◌||◌,
  if◌then◌else◌, ltb, ◌==◌, length,
}
use bit_link.Str.{Bytes, codes, is_empty, find, str_eq, char_is, ends_in, is_member, starts_with}
use bit_link.StrMap.{StrMap, get}
use bit_link.Dispatch.Registry.{Factory, Created, handler, null, throws, create_handler}

pub record Registration : Type 0 where
  pub location : Bytes
  pub handler_name : Bytes
  pub args : List Bytes

-- The exceptions of the constructor.
pub data Refusal : Type 0 where
  duplicate_location trailing_slash : Bytes → Refusal

-- The loop of the constructor; `none` says that the registrations are kept.
unfoldable pub check_locations : List Bytes → StrMap Registration → Option Refusal
check_locations seen [] = none
check_locations seen ((key, reg) ∷ rest) =
    let later = check_locations (reg.location ∷ seen) rest in
    if is_member reg.location seen
    then some (duplicate_location reg.location)
    else if ltb 1 (length reg.location) && ends_in b'/' reg.location
    then some (trailing_slash reg.location)
    else later

-- uri.find(location) == 0
unfoldable pub begins_with : Bytes → Bytes → Bool
begins_with location uri = elim (find location uri) [ none ↦ false | some i ↦ i == 0 ]

-- The location is a prefix of the URI that ends where a component of the path ends.
unfoldable pub is_match : Bytes → Bytes → Bool
is_match uri location =
    begins_with location uri
    && (str_eq location (codes "/")
        || (length uri == length location || char_is b'/' uri (length location)))

-- The loop over the locations, with the best match so far.
unfoldable pub longest_from : Bytes → Bytes → StrMap Registration → Bytes
longest_from uri best_match [] = best_match
longest_from uri best_match ((location, reg) ∷ rest) =
    longest_from uri
      (if is_match uri location && ltb (length best_match) (length location)
        then location
        else best_match)
      rest

unfoldable pub find_longest_prefix_match : Bytes → StrMap Registration → Bytes
find_longest_prefix_match uri registrations = longest_from uri [] registrations

-- The location that serves a URI.
unfoldable pub location_for : Bytes → StrMap Registration → Bytes
location_for uri registrations =
    let best_match = find_longest_prefix_match uri registrations in
    if is_empty best_match then codes "/" else best_match

-- `none` is a null pointer: an exception of the registry is caught.
unfoldable pub create_handler_for_request :
    {H : Type 0} → Bytes → StrMap Registration → StrMap (Factory H) → Option H
create_handler_for_request uri registrations registry =
    elim (get (location_for uri registrations) registrations) [
      | none ↦ none
      | some reg ↦ elim (create_handler reg.handler_name reg.args registry) [
        | handler h ↦ some h
        | null ↦ none
        | throws ↦ none
      ]
    ]
