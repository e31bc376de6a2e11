-- ===== src/StrMap.antt =====
-- `std::map<std::string, V>`: pairs in the order of their keys, which iteration follows.
pub mod Sorted
use mathlib.Core.Option.{Option}
use bit_link.Prelude.{
  ◌≡◌, refl, List, [], ◌∷◌, none, some, inl, inr, Bool-cases, if◌then◌else◌, arith,
}
use bit_link.Str.{Bytes, str_eq, str_lt}
use bit_link.Str.Search.{str_eq_refl, str_eq_iff}

abbrev pub StrMap {ℓ} : Type ℓ → Type ℓ
StrMap V = List (Bytes × V)

module _ {ℓ} {V : Type ℓ} where
  -- m.find(k)
  unfoldable pub get : Bytes → StrMap V → Option V
  get k [] = none
  get k ((j, v) ∷ m) = if str_eq k j then some v else get k m

  -- m[k] = v
  unfoldable pub put : Bytes → V → StrMap V → StrMap V
  put k v [] = (k, v) ∷ []
  put k v ((j, w) ∷ m) =
      if str_eq k j
      then (k, v) ∷ m
      else if str_lt k j
      then (k, v) ∷ (j, w) ∷ m
      else (j, w) ∷ put k v m

  -- m.erase(k)
  unfoldable pub remove : Bytes → StrMap V → StrMap V
  remove k [] = []
  remove k ((j, v) ∷ m) = if str_eq k j then remove k m else (j, v) ∷ remove k m

  pub get-put :
      (k j : Bytes) (v : V) (m : StrMap V)
      → get j (put k v m) ≡ (if str_eq j k then some v else get j m)
  unfolding get put
  get-put k j v [] = refl
  get-put k j v ((i, w) ∷ m) =
      ground
        (arith, str_eq_iff k j, str_eq_iff j k, str_eq_iff k i, str_eq_iff j i, get-put k j v m)

  pub get-put_self : (k : Bytes) (v : V) (m : StrMap V) → get k (put k v m) ≡ some v
  get-put_self k v m = simp (get-put, str_eq_refl)

  pub get-remove :
      (k j : Bytes) (m : StrMap V) → get j (remove k m) ≡ (if str_eq j k then none else get j m)
  unfolding get remove
  get-remove k j [] = ground arith
  get-remove k j ((i, w) ∷ m) =
      ground (arith, str_eq_iff j k, str_eq_iff k i, str_eq_iff j i, get-remove k j m)

module _ {ℓ κ} {V : Type ℓ} (P : V → Type κ) where
  abbrev pub AllValues : StrMap V → Type κ
  AllValues [] = Unit
  AllValues ((k, v) ∷ m) = P v × AllValues m

  pub AllValues-put : (k : Bytes) (v : V) (m : StrMap V) → AllValues m → P v → AllValues (put k v m)
  unfolding put
  AllValues-put k v [] _ p = (p, tt)
  AllValues-put k v ((j, w) ∷ m) (q, h) p = elim (Bool-cases (str_eq k j)) [
    | inl e ↦ rw e (p, h)
    | inr e ↦ elim (Bool-cases (str_lt k j)) [
      | inl f ↦ rw (e, f) (p, (q, h))
      | inr f ↦ rw (e, f) (q, AllValues-put k v m h p)
    ]
  ]
