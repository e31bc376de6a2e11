-- ===== src/Dispatch/Registry.antt =====
-- src/handler_registry.cc, include/handler_registry.h. A factory's `none` is a null handler or an
-- exception, which `CreateHandler` reports alike; an empty `std::function` is no factory.
pub mod Laws
use bit_link.Prelude.{
  ◌≡◌, [], ◌∷◌, List, Option, none, some, Bool, true, false, ◌||◌, if◌then◌else◌,
}
use bit_link.Str.{Bytes, codes, is_empty, is_member}
use bit_link.StrMap.{StrMap, get, put}

abbrev pub Factory : Type 0 → Type 0
Factory H = Option (List Bytes → Option H)

-- The names that may be registered again.
abbrev pub replaceable : List Bytes
replaceable =
    codes "EchoHandler"
    ∷ codes "StaticHandler"
    ∷ codes "NotFoundHandler"
    ∷ codes "ApiHandler"
    ∷ codes "HealthHandler"
    ∷ codes "URLShortenerHandler"
    ∷ []

abbrev is_function : {H : Type 0} → Factory H → Bool
is_function none = false
is_function (some f) = true

-- A handler, a null pointer, or an exception.
pub data Created (H : Type 0) : Type 0 where
  handler : H → Created H
  null : Created H
  throws : Created H

module _ {H : Type 0} where
  unfoldable pub register_handler :
      Bytes → Factory H → StrMap (Factory H) → StrMap (Factory H) × Bool
  register_handler name factory registry =
      if is_empty name
      then (registry, false)
      else if is_function factory
      then elim (get name registry) [
        | none ↦ (put name factory registry, true)
        | some _ ↦
            if is_member name replaceable
            then (put name factory registry, true)
            else (registry, false)
      ]
      else (registry, false)

  unfoldable pub create_handler : Bytes → List Bytes → StrMap (Factory H) → Created H
  create_handler name args registry = elim (get name registry) [
    | none ↦ null
    | some factory ↦ elim factory [
      | none ↦ null
      | some make ↦ elim (make args) [ none ↦ throws | some h ↦ handler h ]
    ]
  ]
