-- ===== src/StrMap/Sorted.antt =====
-- `std::map<std::string, V>`: the order of the keys, which `m[k] = v` keeps.
use bit_link.Prelude.{◌≡◌, inl, inr, refl, [], ◌∷◌, true, false, arith, Bool-cases, if_both}
use bit_link.Str.{Bytes, str_eq, str_lt}
use bit_link.Str.Search.{str_eq_iff}
use bit_link.StrMap.{StrMap, put}

pub str_lt_irrefl : (s : Bytes) → str_lt s s ≡ false
unfolding str_lt
str_lt_irrefl [] = refl
str_lt_irrefl (c ∷ s) = ground (arith, str_lt_irrefl s)

pub str_lt_trans : (a b c : Bytes) → str_lt a b ≡ true → str_lt b c ≡ true → str_lt a c ≡ true
unfolding str_lt
str_lt_trans a [] c h k = cc
str_lt_trans a (y ∷ b) [] h k = cc
str_lt_trans [] (y ∷ b) (z ∷ c) h k = refl
str_lt_trans (x ∷ a) (y ∷ b) (z ∷ c) h k = ground (arith, str_lt_trans a b c)

str_lt_total : (a b : Bytes) → str_eq a b ≡ false → str_lt a b ≡ false → str_lt b a ≡ true
unfolding str_lt str_eq
str_lt_total [] [] h k = cc
str_lt_total [] (y ∷ b) h k = cc
str_lt_total (x ∷ a) [] h k = refl
str_lt_total (x ∷ a) (y ∷ b) h k = ground (arith, str_lt_total a b)

module _ {ℓ} {V : Type ℓ} where
  -- Every key lies above this one.
  abbrev pub IsBelow : Bytes → StrMap V → Type 0
  IsBelow k [] = Unit
  IsBelow k ((j, v) ∷ m) = (str_lt k j ≡ true) × IsBelow k m

  abbrev pub IsSorted : StrMap V → Type 0
  IsSorted [] = Unit
  IsSorted ((k, v) ∷ m) = IsBelow k m × IsSorted m

  pub IsBelow-trans : (j k : Bytes) (m : StrMap V) → str_lt j k ≡ true → IsBelow k m → IsBelow j m
  IsBelow-trans j k [] h _ = tt
  IsBelow-trans j k ((i, v) ∷ m) h (p, q) = (str_lt_trans j k i h p, IsBelow-trans j k m h q)

  put-IsBelow :
      (j k : Bytes) (v : V) (m : StrMap V) → str_lt j k ≡ true → IsBelow j m → IsBelow j (put k v m)
  unfolding put
  put-IsBelow j k v [] h _ = (h, tt)
  put-IsBelow j k v ((i, w) ∷ m) h (p, q) =
      if_both (IsBelow j) (str_eq k i) (h, q)
        (if_both (IsBelow j) (str_lt k i) (h, (p, q)) (p, put-IsBelow j k v m h q))

  pub put-IsSorted : (k : Bytes) (v : V) (m : StrMap V) → IsSorted m → IsSorted (put k v m)
  unfolding put
  put-IsSorted k v [] _ = (tt, tt)
  put-IsSorted k v ((i, w) ∷ m) (p, q) = elim (Bool-cases (str_eq k i)) [
    | inl e ↦ rw (e, (str_eq_iff k i).0 e) (p, q)
    | inr e ↦ elim (Bool-cases (str_lt k i)) [
      | inl f ↦ rw (e, f) ((f, IsBelow-trans k i m f p), (p, q))
      | inr f ↦ rw (e, f) (put-IsBelow i k v m (str_lt_total k i e f) p, put-IsSorted k v m q)
    ]
  ]

module _ {ℓ κ} {V : Type ℓ} (P : Bytes → V → Type κ) where
  abbrev pub AllEntries : StrMap V → Type κ
  AllEntries [] = Unit
  AllEntries ((k, v) ∷ m) = P k v × AllEntries m

  pub AllEntries-put :
      (k : Bytes) (v : V) (m : StrMap V) → P k v → AllEntries m → AllEntries (put k v m)
  unfolding put
  AllEntries-put k v [] p _ = (p, tt)
  AllEntries-put k v ((i, w) ∷ m) p (q, h) =
      if_both AllEntries (str_eq k i) (p, h)
        (if_both AllEntries (str_lt k i) (p, (q, h)) (q, AllEntries-put k v m p h))
