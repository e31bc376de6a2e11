-- ===== src/SlugGenerator/Unique.antt =====
-- src/utils/slug_generator.cc: what `generate_unique_code` returns.
use bit_link.Prelude.{
  ℕ, zero, suc, ◌<◌, ◌≡◌, ◌⊎◌, inl, inr, refl, sym, subst, [], ◌∷◌, List, Option, none, some, Bool,
  true, false, arith, All, length,
}
use bit_link.Str.{Bytes}
use bit_link.Database.{Database}
use bit_link.SlugGenerator.{
  Generator, draw_code, generate_code, attempt, generate_unique_code, returns,
}
use bit_link.SlugGenerator.Codes.{IsAlnum, draw_code_lem}

module _ (r : Generator) (db : Database) where
  -- The codes that up to `k` attempts draw.
  abbrev pub candidates : ℕ → ℕ → r.State → List Bytes
  candidates zero n g = []
  candidates (suc k) n g = (draw_code r n [] g).0 ∷ candidates k n (draw_code r n [] g).1

  -- Does the database say that the code is free?
  abbrev pub IsFree : db.State → Bytes → Type 0
  IsFree s c = db.code_exists c s ≡ some false

  -- A free code of the right shape, drawn in one of the attempts; or no text, where no attempt
  -- drew a free code.
  abbrev pub IsChosen : ℕ → ℕ → db.State → r.State → Bytes → Type 0
  IsChosen k n s g code =
      (IsFree s code × (length code ≡ n) × All IsAlnum code)
      ⊎ ((code ≡ []) × All (λ c. ¬ (IsFree s c)) (candidates k n g))

  generate_code_pos :
      (n : ℕ) (g : r.State) → 0 < n → generate_code r n g ≡ returns (draw_code r n [] g)
  unfolding generate_code
  generate_code_pos n g h = ground arith

  abbrev after_query : Option Bool → Bytes × r.State → Bytes × r.State → Bytes × r.State
  after_query (some false) found more = found
  after_query (some true) found more = more
  after_query none found more = more

  attempt_step :
      (k n : ℕ) (s : db.State) (g : r.State)
      → 0 < n
      → let (c, g') = draw_code r n [] g in
        attempt r db (suc k) n s g
        ≡ after_query (db.code_exists c s) (c, g') (attempt r db k n s g')
  unfolding attempt
  attempt_step k n s g h = ground (arith, generate_code_pos n g h)

  after_query-IsChosen :
      (k n : ℕ) (s : db.State) (g : r.State) (q : Option Bool) (more : Bytes × r.State)
      → 0 < n
      → db.code_exists (draw_code r n [] g).0 s ≡ q
      → IsChosen k n s (draw_code r n [] g).1 more.0
      → IsChosen (suc k) n s g (after_query q (draw_code r n [] g) more).0
  after_query-IsChosen k n s g (some false) more h e next =
      let (long, alnum) = draw_code_lem r n [] g tt in inl (e, omega (arith, long), alnum)
  after_query-IsChosen k n s g (some true) more h e (inl found) = inl found
  after_query-IsChosen k n s g (some true) more h e (inr (empty, all)) = inr (empty, (λ f. cc, all))
  after_query-IsChosen k n s g none more h e (inl found) = inl found
  after_query-IsChosen k n s g none more h e (inr (empty, all)) = inr (empty, (λ f. cc, all))

  attempt-IsChosen :
      (k n : ℕ) (s : db.State) (g : r.State) → 0 < n → IsChosen k n s g (attempt r db k n s g).0
  attempt-IsChosen zero n s g h = unfold attempt in inr (refl, tt)
  attempt-IsChosen (suc k) n s g h =
      let (c, g') = draw_code r n [] g in
      subst (λ t. IsChosen (suc k) n s g t.0) (sym (attempt_step k n s g h))
        (after_query-IsChosen k n s g (db.code_exists c s) (attempt r db k n s g') h refl
          (attempt-IsChosen k n s g' h))

  -- With a positive length and a positive number of attempts, the result is a code of that length
  -- in letters and digits which the database says is free; or it is empty, and then no code drawn
  -- in any of the attempts was free.
  pub generate_unique_code-IsChosen :
      (n max_attempts : ℕ) (s : db.State) (g : r.State)
      → 0 < n
      → 0 < max_attempts
      → (code : Bytes) × (g' : r.State) × (generate_unique_code r db n max_attempts s g
          ≡ returns (code, g'))
        × IsChosen max_attempts n s g code
  unfolding generate_unique_code
  generate_unique_code-IsChosen n max_attempts s g h k =
      let (code, g') = attempt r db max_attempts n s g in
      (code, g', ground arith, attempt-IsChosen max_attempts n s g h)
