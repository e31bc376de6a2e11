-- ===== src/Handlers/Api/Search.antt =====
-- src/handlers/api_handler.cc: the search for an id that is free.
use bit_link.Prelude.{
  ℕ, zero, suc, ◌+◌, ◌-◌, ◌<◌, ◌≤◌, ◌≡◌, ◌≢◌, ◌⊎◌, inl, inr, refl, ap, subst, [], ◌∷◌, ◌++◌, some,
  true, false, arith, leb, drop, Bool-cases,
}
use bit_link.Str.{Bytes}
use bit_link.Str.Number.Digits.{to_string_injective}
use bit_link.Handlers.FileSystem.{FileSystem, IsFileSystem}
use bit_link.Handlers.Api.{ApiHandler, id_path, free_id}

append-cancel : (s t u : Bytes) → s ++ t ≡ s ++ u → t ≡ u
append-cancel [] t u e = e
append-cancel (c ∷ s) t u e = append-cancel s t u (ap (drop 1) e)

id_path_injective : (base : Bytes) (i j : ℕ) → id_path base i ≡ id_path base j → i ≡ j
id_path_injective base i j e = to_string_injective i j (ap (drop 1) (append-cancel base _ _ e))

pub id_path-ne : (base : Bytes) (i : ℕ) → id_path base i ≢ []
id_path-ne [] i e = cc
id_path-ne (c ∷ base) i e = cc

module _ (fs : FileSystem) (h : ApiHandler) where
  open fs use {State}

  -- The search finds the first id from `id` on that is free, or all that it tried are taken.
  free_id_lem :
      (fuel id : ℕ) (base : Bytes) (s : State)
      → ((i : ℕ) → id ≤ i → i < id + fuel → fs.exists (id_path base i) s ≡ true)
        ⊎ ((j : ℕ) × (free_id fs h fuel base id s ≡ some j)
            × (id ≤ j)
            × (fs.exists (id_path base j) s ≡ false)
            × ((i : ℕ) → id ≤ i → i < j → fs.exists (id_path base i) s ≡ true))
  unfolding free_id
  free_id_lem zero id base s = inl (λ i p q. absurd (omega arith))
  free_id_lem (suc fuel) id base s = elim (Bool-cases (fs.exists (id_path base id) s)) [
    | inr e ↦ inr (id, rw e refl, omega arith, e, λ i p q. absurd (omega arith))
    | inl e ↦ elim (free_id_lem fuel (id + 1) base s) [
      | inr (j, found, above, free, taken) ↦ inr (
        j,
        rw e found,
        omega arith,
        free,
        λ i p q. from_next id base s e i p (λ lt. taken i lt q),
      )
      | inl taken ↦ inl (λ i p q. from_next id base s e i p (λ lt. taken i lt (omega arith)))
    ]
  ]
    where
      from_next :
          (id : ℕ) (base : Bytes) (s : State)
          → fs.exists (id_path base id) s ≡ true
          → (i : ℕ) → id ≤ i
          → (id + 1 ≤ i → fs.exists (id_path base i) s ≡ true)
          → fs.exists (id_path base i) s ≡ true
      from_next id base s e i p rest = elim (Bool-cases (leb (id + 1) i)) [
        | inl above ↦ rest (ground arith)
        | inr same ↦
            let here : id ≡ i = ground arith in
            subst (λ n. fs.exists (id_path base n) s ≡ true) here e
      ]

  module _ (size : State → ℕ) (law : IsFileSystem fs size) where
    -- As much fuel as there are paths finds an id, and one more is the largest that it can be.
    pub free_id_total :
        (fuel : ℕ) (base : Bytes) (s : State)
        → size s < fuel
        → (j : ℕ) × (free_id fs h fuel base 1 s ≡ some j)
          × (1 ≤ j)
          × (j ≤ size s + 1)
          × (fs.exists (id_path base j) s ≡ false)
          × ((i : ℕ) → 1 ≤ i → i < j → fs.exists (id_path base i) s ≡ true)
    free_id_total fuel base s enough =
        let paths : ℕ → Bytes = λ i. id_path base (i + 1) in
        let apart : (i j : ℕ) → paths i ≡ paths j → i ≡ j =
          λ i j e. plus_one i j (id_path_injective base (i + 1) (j + 1) e) in
        elim (free_id_lem fuel 1 base s) [
          | inl taken ↦
              let many =
                law.finite s paths fuel apart (λ i lt. taken (i + 1) (omega arith) (omega arith)) in
              absurd (omega arith)
          | inr (j, found, above, free, taken) ↦
              let few =
                law.finite s paths (j - 1) apart
                  (λ i lt. taken (i + 1) (omega arith) (omega arith)) in
              (j, found, above, omega arith, free, taken)
        ]
      where
        plus_one : (i j : ℕ) → i + 1 ≡ j + 1 → i ≡ j
        plus_one i j e = omega arith
