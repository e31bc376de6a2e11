-- ===== src/Tests/Handlers.antt =====
-- Locations and factories at concrete inputs.
use bit_link.Prelude.{ℕ, ◌≡◌, ◌⊎◌, [], ◌∷◌, some, length}
use bit_link.Str.{Bytes, codes}
use bit_link.StrMap.{StrMap}
use bit_link.Dispatch.Registry.{Factory}
use bit_link.Dispatch.Dispatcher.{Registration, find_longest_prefix_match}
use bit_link.Dispatch.Dispatcher.Match.{IsMatch}
use bit_link.Dispatch.Dispatcher.Longest.{IsKey, IsLongest, find_longest_prefix_match-IsLongest}

abbrev served : Bytes → Registration
served location = record { location = location; handler_name = codes "EchoHandler"; args = [] }

abbrev locations : StrMap Registration
locations =
    (codes "/", served (codes "/"))
    ∷ (codes "/api", served (codes "/api"))
    ∷ (codes "/api/v1", served (codes "/api/v1"))
    ∷ []

find_longest_prefix_match-IsLongest_example :
    let best = find_longest_prefix_match (codes "/api/v1/x") locations in
    IsLongest (codes "/api/v1/x") best locations
    × ((best ≡ []) ⊎ (IsKey best locations × IsMatch (codes "/api/v1/x") best))
find_longest_prefix_match-IsLongest_example =
    find_longest_prefix_match-IsLongest (codes "/api/v1/x") locations

abbrev make_number : Factory ℕ
make_number = some (λ args. some (length args))

abbrev one_factory : StrMap (Factory ℕ)
one_factory = (codes "Other", make_number) ∷ []
