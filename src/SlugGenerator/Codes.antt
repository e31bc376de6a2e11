-- ===== src/SlugGenerator/Codes.antt =====
-- src/utils/slug_generator.cc, `generate_code`: what a code looks like.
use bit_link.Prelude.{
  ℕ, zero, suc, ◌+◌, ◌<◌, ◌≡◌, refl, [], ◌∷◌, ◌++◌, true, arith, All, All-append, length,
  length-append, holds_below, holds_below_lem,
}
use bit_link.Str.{Bytes, is_alnum}
use bit_link.SlugGenerator.{Generator, char_at, draw_code, generate_code, returns}

abbrev pub IsAlnum : ℕ → Type 0
IsAlnum c = is_alnum c ≡ true

charset_table : holds_below 62 (λ i. is_alnum (char_at i)) ≡ true
unfolding holds_below char_at
charset_table = refl

char_at-IsAlnum : (i : ℕ) → i < 62 → IsAlnum (char_at i)
char_at-IsAlnum i h = holds_below_lem 62 (λ j. is_alnum (char_at j)) i charset_table h

module _ (r : Generator) where
  pub draw_code_lem :
      (n : ℕ) (code : Bytes) (g : r.State)
      → All IsAlnum code
      → (length (draw_code r n code g).0 ≡ n + length code) × All IsAlnum (draw_code r n code g).0
  unfolding draw_code
  draw_code_lem zero code g h = (omega arith, h)
  draw_code_lem (suc n) code g h =
      let in_range : (r.draw g).0 < 62 = r.draw_in_range g in
      let c = char_at (r.draw g).0 in
      let (long, alnum) =
        draw_code_lem n (code ++ c ∷ []) (r.draw g).1
          (All-append IsAlnum code (c ∷ []) h (char_at-IsAlnum _ in_range, tt)) in
      (omega (arith, long, length-append code (c ∷ [])), alnum)

  -- A code of positive length is made, of just that length, from letters and digits alone.
  pub generate_code_lem :
      (n : ℕ) (g : r.State)
      → 0 < n
      → (code : Bytes) × (g' : r.State) × (generate_code r n g ≡ returns (code, g'))
        × (length code ≡ n)
        × All IsAlnum code
  unfolding generate_code
  generate_code_lem n g h =
      let (long, alnum) = draw_code_lem n [] g tt in
      ((draw_code r n [] g).0, (draw_code r n [] g).1, ground arith, omega (arith, long), alnum)
