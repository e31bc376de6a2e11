-- ===== src/SlugGenerator.antt =====
-- src/utils/slug_generator.cc: random codes, and codes that the database does not have.
pub mod Codes
pub mod Unique
use bit_link.Prelude.{
  ℕ, zero, suc, ◌+◌, ◌<◌, ◌≡◌, refl, [], ◌∷◌, ◌++◌, List, Option, none, some, Bool, true, false,
  if◌then◌else◌, ◌==◌, get_elem?, length,
}
use bit_link.Str.{Bytes, codes}
use bit_link.Database.{Database}

abbrev pub charset : Bytes
charset = codes "abcdefghijklmnopqrstuvwxyzABCDEFGHIJKLMNOPQRSTUVWXYZ0123456789"

-- `gen_` with the distribution `dis_`: what `dis_(gen_)` returns lies in the range that the
-- distribution was made for, 0 to `CHARSET.size() - 1`.
pub record Generator : Type 1 where
  pub State : Type 0
  pub draw : State → ℕ × State
  pub draw_in_range : (g : State) → (draw g).0 < length charset

-- CHARSET[i]
unfoldable pub char_at : ℕ → ℕ
char_at i = elim (get_elem? charset i) [ none ↦ 0 | some c ↦ c ]

-- A result, or an invalid_argument with its message.
pub data Result {ℓ} (A : Type ℓ) : Type ℓ where
  returns : A → Result A
  invalid_argument : Bytes → Result A

module _ (r : Generator) where
  -- The loop of `generate_code`, with the rounds that are left.
  unfoldable pub draw_code : ℕ → Bytes → r.State → Bytes × r.State
  draw_code zero code g = (code, g)
  draw_code (suc n) code g = let (i, g') = r.draw g in draw_code n (code ++ char_at i ∷ []) g'

  unfoldable pub generate_code : ℕ → r.State → Result (Bytes × r.State)
  generate_code n g =
      if n == 0
      then invalid_argument (codes "Code length must be greater than 0")
      else returns (draw_code n [] g)

  module _ (db : Database) where
    -- The loop over the attempts: a code that exists, and an exception, lead to the next attempt.
    unfoldable pub attempt : ℕ → ℕ → db.State → r.State → Bytes × r.State
    attempt zero n s g = ([], g)
    attempt (suc attempts) n s g = elim (generate_code n g) [
      | invalid_argument _ ↦ attempt attempts n s g
      | returns (candidate, g') ↦ elim (db.code_exists candidate s) [
        | some false ↦ (candidate, g')
        | _ ↦ attempt attempts n s g'
      ]
    ]

    -- `max_attempts` below 0 is as 0. The empty text says that every attempt failed.
    unfoldable pub generate_unique_code : ℕ → ℕ → db.State → r.State → Result (Bytes × r.State)
    generate_unique_code n max_attempts s g =
        if n == 0
        then invalid_argument (codes "Code length must be greater than 0")
        else if max_attempts == 0
        then invalid_argument (codes "max_attempts must be greater than 0")
        else returns (attempt max_attempts n s g)
