-- ===== src/Dispatch/Dispatcher/Locations.antt =====
-- src/handler_dispatcher.cc: what the constructor lets through.
use bit_link.Prelude.{
  ◌≡◌, ◌⊎◌, inl, inr, refl, [], ◌∷◌, List, none, false, ◌&&◌, ltb, length, All, arith, ap, ◌==◌,
  ==_iff, Bool-cases,
}
use bit_link.Str.{Bytes, codes, ends_in, is_member}
use bit_link.Str.Search.{str_eq_iff}
use bit_link.StrMap.{StrMap}
use bit_link.Dispatch.Dispatcher.{Registration, check_locations}

abbrev pub locations : StrMap Registration → List Bytes
locations [] = []
locations ((key, reg) ∷ rest) = reg.location ∷ locations rest

-- No text of the list stands in it again.
abbrev pub AreDistinct : List Bytes → Type 0
AreDistinct [] = Unit
AreDistinct (l ∷ ls) = (is_member l ls ≡ false) × AreDistinct ls

-- A location is "/", or does not end in '/'.
abbrev pub IsClosed : Bytes → Type 0
IsClosed l = (l ≡ codes "/") ⊎ (ends_in b'/' l ≡ false)

short_slash : (l : Bytes) → (ltb 1 (length l) && ends_in b'/' l) ≡ false → IsClosed l
unfolding ends_in
short_slash [] h = inr refl
short_slash (c ∷ []) h = elim (Bool-cases (c == b'/')) [
  | inl e ↦ inl (ap (λ d. d ∷ []) ((==_iff c b'/').0 e))
  | inr e ↦ inr e
]
short_slash (c ∷ d ∷ l) h = inr (ground arith)

abbrev AreNew : List Bytes → List Bytes → Type 0
AreNew seen ls = All (λ l. is_member l seen ≡ false) ls

drop_seen :
    (l : Bytes) (seen ls : List Bytes)
    → AreNew (l ∷ seen) ls
    → AreNew seen ls × (is_member l ls ≡ false)
unfolding is_member
drop_seen l seen [] h = (tt, refl)
drop_seen l seen (k ∷ ls) (p, h) =
    ground (arith, drop_seen l seen ls h, str_eq_iff k l, str_eq_iff l k)

check_locations-AreNew :
    (seen : List Bytes) (m : StrMap Registration)
    → check_locations seen m ≡ none
    → AreNew seen (locations m) × AreDistinct (locations m) × All IsClosed (locations m)
unfolding check_locations
check_locations-AreNew seen [] h = (tt, tt, tt)
check_locations-AreNew seen ((key, reg) ∷ rest) h =
    elim (Bool-cases (is_member reg.location seen)) [
      | inl e ↦ ground arith
      | inr e ↦ elim (Bool-cases (ltb 1 (length reg.location) && ends_in b'/' reg.location)) [
        | inl f ↦ ground arith
        | inr f ↦
            let (new, distinct, closed) =
              check_locations-AreNew (reg.location ∷ seen) rest (ground arith) in
            let (others, once) = drop_seen reg.location seen (locations rest) new in
            ((e, others), (once, distinct), (short_slash reg.location f, closed))
      ]
    ]

-- Registrations that the constructor accepts have locations that all differ, and none but "/" ends
-- in a slash.
pub check_locations-AreDistinct :
    (m : StrMap Registration)
    → check_locations [] m ≡ none
    → AreDistinct (locations m) × All IsClosed (locations m)
check_locations-AreDistinct m h =
    let (_, distinct, closed) = check_locations-AreNew [] m h in (distinct, closed)
