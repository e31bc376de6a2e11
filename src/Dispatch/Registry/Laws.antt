-- ===== src/Dispatch/Registry/Laws.antt =====
-- src/handler_registry.cc: what `RegisterHandler` keeps.
use bit_link.Prelude.{◌≡◌, ◌&&◌, ◌⊎◌, none, some, true, false, if◌then◌else◌, arith}
use bit_link.Str.{Bytes, is_member, str_eq}
use bit_link.StrMap.{StrMap, get, get-put}
use bit_link.Dispatch.Registry.{Factory, replaceable, register_handler}

module _ {H : Type 0} where
  -- Registering a name changes that name alone; and a name outside the list of replaceable ones
  -- keeps the factory that it has.
  pub get-register_handler :
      (name other : Bytes) (factory : Factory H) (registry : StrMap (Factory H))
      → (get other (register_handler name factory registry).0 ≡ (
          if str_eq other name && (register_handler name factory registry).1
          then some factory
          else get other registry))
        × ((is_member name replaceable ≡ true)
            ⊎ (get name registry ≡ none)
            ⊎ ((register_handler name factory registry).1 ≡ false))
  unfolding register_handler
  get-register_handler name other factory registry =
      ground (arith, get-put name other factory registry)
