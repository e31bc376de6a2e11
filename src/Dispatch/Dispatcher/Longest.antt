-- ===== src/Dispatch/Dispatcher/Longest.antt =====
-- src/handler_dispatcher.cc: `FindLongestPrefixMatch`.
use bit_link.Prelude.{
  ◌≡◌, ◌≤◌, ◌⊎◌, inl, inr, refl, [], ◌∷◌, true, ◌&&◌, if◌then◌else◌, ltb, length, arith, All,
}
use bit_link.Str.{Bytes}
use bit_link.Dispatch.Dispatcher.Match.{IsMatch, is_match_sound, is_match_complete}
use bit_link.StrMap.{StrMap}
use bit_link.Dispatch.Dispatcher.{Registration, is_match, longest_from, find_longest_prefix_match}

-- Is the text one of the keys?
abbrev pub IsKey : Bytes → StrMap Registration → Type 0
IsKey c [] = ⊥
IsKey c ((k, r) ∷ m) = (c ≡ k) ⊎ IsKey c m

-- No location that matches is longer.
abbrev pub IsLongest : Bytes → Bytes → StrMap Registration → Type 0
IsLongest uri best m = All (λ e. IsMatch uri e.0 → length e.0 ≤ length best) m

longest_from_ge :
    (uri best : Bytes) (m : StrMap Registration) → length best ≤ length (longest_from uri best m)
unfolding longest_from
longest_from_ge uri best [] = omega arith
longest_from_ge uri best ((k, r) ∷ m) =
    ground (arith, longest_from_ge uri k m, longest_from_ge uri best m)

longest_from-IsLongest :
    (uri best : Bytes) (m : StrMap Registration) → IsLongest uri (longest_from uri best m) m
unfolding longest_from
longest_from-IsLongest uri best [] = tt
longest_from-IsLongest uri best ((k, r) ∷ m) = (
  λ h.
      ground
        (arith, is_match_complete uri k h, longest_from_ge uri k m, longest_from_ge uri best m),
  longest_from-IsLongest uri (if is_match uri k && ltb (length best) (length k) then k else best) m,
)

longest_from-IsKey :
    (uri best : Bytes) (m : StrMap Registration)
    → (longest_from uri best m ≡ best)
      ⊎ (IsKey (longest_from uri best m) m × (is_match uri (longest_from uri best m) ≡ true))
unfolding longest_from
longest_from-IsKey uri best [] = inl refl
longest_from-IsKey uri best ((k, r) ∷ m) =
    ground (arith, longest_from-IsKey uri k m, longest_from-IsKey uri best m)

-- A registered location matches a URI when the URI begins with it, and it is "/" or all of the URI
-- or a slash stands behind it. The location that is found is the longest of those that match the
-- URI; it is one of them, or it is empty, and then none but an empty location matches.
pub find_longest_prefix_match-IsLongest :
    (uri : Bytes) (m : StrMap Registration)
    → IsLongest uri (find_longest_prefix_match uri m) m
      × ((find_longest_prefix_match uri m ≡ [])
          ⊎ (IsKey (find_longest_prefix_match uri m) m
              × IsMatch uri (find_longest_prefix_match uri m)))
unfolding find_longest_prefix_match
find_longest_prefix_match-IsLongest uri m = (
  longest_from-IsLongest uri [] m,
  elim (longest_from-IsKey uri [] m) [
    | inl e ↦ inl e
    | inr (key, matches) ↦ inr (key, is_match_sound uri (longest_from uri [] m) matches)
  ],
)
