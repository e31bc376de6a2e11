-- ===== src/Str/Lines.antt =====
-- Laws of `getline`.
use bit_link.Prelude.{
  ℕ, ◌≡◌, ◌≢◌, refl, sym, ap, ◌∙◌, [], ◌∷◌, ◌++◌, false, All, All-append, arith, append-nil,
  append_assoc,
}
use bit_link.Str.{Bytes, Lacks, getlines_from, getlines, is_empty}

pub getlines_from-append :
    (sep : ℕ) (cur p s : Bytes)
    → Lacks sep p
    → getlines_from sep cur (p ++ s) ≡ getlines_from sep (cur ++ p) s
unfolding getlines_from
getlines_from-append sep cur [] s h = rw append-nil
getlines_from-append sep cur (c ∷ p) s (ne, h) =
    ground (arith, getlines_from-append sep (cur ++ c ∷ []) p s h, append_assoc cur (c ∷ []) p)

-- A piece that a separator ends is given whole.
pub getlines-cons :
    (sep : ℕ) (p s : Bytes) → Lacks sep p → getlines sep (p ++ sep ∷ s) ≡ p ∷ getlines sep s
unfolding getlines_from
getlines-cons sep p s h = getlines_from-append sep [] p (sep ∷ s) h ∙ ground arith

-- A last piece is given whole if it is not empty.
pub getlines_last :
    (sep : ℕ) (p : Bytes) → is_empty p ≡ false → Lacks sep p → getlines sep p ≡ p ∷ []
unfolding getlines_from
getlines_last sep p e h =
    ap (getlines sep) (sym (append-nil p)) ∙ getlines_from-append sep [] p [] h ∙ ground arith

pub is_empty-append : (s t : Bytes) (c : ℕ) → is_empty (s ++ c ∷ t) ≡ false
is_empty-append [] t c = refl
is_empty-append (d ∷ s) t c = refl

-- No piece holds the separator.
pub getlines_from-Lacks :
    (sep : ℕ) (cur s : Bytes) → Lacks sep cur → All (Lacks sep) (getlines_from sep cur s)
unfolding getlines_from
getlines_from-Lacks sep cur [] h = ground arith
getlines_from-Lacks sep cur (c ∷ s) h = ground (
  arith,
  getlines_from-Lacks sep [] s tt,
  getlines_from-Lacks sep (cur ++ c ∷ []) s,
  All-append (λ (d : ℕ). d ≢ sep) cur (c ∷ []) h,
)
