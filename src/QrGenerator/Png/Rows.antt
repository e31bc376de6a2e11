-- ===== src/QrGenerator/Png/Rows.antt =====
-- src/utils/qr_generator.cc: the rows of an image, each behind its filter type.
use bit_link.Prelude.{
  ℕ, zero, suc, ◌+◌, ◌*◌, ◌<◌, ◌≤◌, ◌≡◌, ◌≢◌, refl, sym, ap, ◌∙◌, subst, [], ◌∷◌, ◌++◌, Option,
  none, some, true, ◌&&◌, leb, ◌==◌, if◌then◌else◌, length, length-append, take, drop, take-append,
  drop-append, take-append-drop, arith,
}
use bit_link.Str.{Bytes}
use bit_link.QrGenerator.Deflate.RoundTrip.{drop-length}
use bit_link.QrGenerator.Png.{pixel, pixels, raw_rows}

-- The rows without their filter types.
unfoldable pub unfilter : ℕ → ℕ → Bytes → Option Bytes
unfilter width (suc n) (filter ∷ s) =
    let more = unfilter width n (drop width s) in
    if filter == 0 && leb width (length s)
    then elim more [ none ↦ none | some out ↦ some (take width s ++ out) ]
    else none
unfilter width zero [] = some []
unfilter _ _ _ = none

drop-pixel :
    (bitmap : Bytes) (i : ℕ)
    → i < length bitmap
    → drop i bitmap ≡ pixel bitmap i ∷ drop (suc i) bitmap
drop-pixel [] i h = absurd (omega arith)
drop-pixel (c ∷ bitmap) zero h = refl
drop-pixel (c ∷ bitmap) (suc i) h = drop-pixel bitmap i (omega arith)

drop-nil : (n : ℕ) → ◌≡◌ {A = Bytes} (drop n []) []
drop-nil zero = refl
drop-nil (suc n) = refl

drop-drop : (m n : ℕ) (s : Bytes) → drop n (drop m s) ≡ drop (m + n) s
drop-drop zero n s = let same : n ≡ 0 + n = omega arith in ap (λ k. drop k s) same
drop-drop (suc m) n [] = drop-nil n ∙ sym (drop-nil (suc m + n))
drop-drop (suc m) n (c ∷ s) =
    let same : suc (m + n) ≡ suc m + n = omega arith in
    drop-drop m n s ∙ ap (λ k. drop k (c ∷ s)) same

pixels-take :
    (bitmap : Bytes) (n i : ℕ) → i + n ≤ length bitmap → pixels bitmap n i ≡ take n (drop i bitmap)
unfolding pixels
pixels-take bitmap zero i h = refl
pixels-take bitmap (suc n) i h =
    let next : drop (i + 1) bitmap ≡ drop (suc i) bitmap =
      let same : i + 1 ≡ suc i = omega arith in ap (λ k. drop k bitmap) same in
    let rest = pixels-take bitmap n (i + 1) (omega arith) in
    ap (λ s. pixel bitmap i ∷ s) (rest ∙ ap (take n) next)
    ∙ ap (take (suc n)) (sym (drop-pixel bitmap i (omega arith)))

length-pixels : (bitmap : Bytes) (n i : ℕ) → length (pixels bitmap n i) ≡ n
unfolding pixels
length-pixels bitmap zero i = refl
length-pixels bitmap (suc n) i = ap suc (length-pixels bitmap n (i + 1))

pub length-raw_rows :
    (bitmap : Bytes) (size n y : ℕ) → length (raw_rows bitmap size n y) ≡ n * (size + 1)
unfolding raw_rows
length-raw_rows bitmap size zero y = omega arith
length-raw_rows bitmap size (suc n) y =
    let row = pixels bitmap size (y * size) in
    let rest = length-raw_rows bitmap size n (y + 1) in
    let added = length-append row (raw_rows bitmap size n (y + 1)) in
    let long = length-pixels bitmap size (y * size) in
    let product : suc n * (size + 1) ≡ n * (size + 1) + (size + 1) = omega arith in omega arith

unfilter-row :
    (width n : ℕ) (row s out : Bytes)
    → length row ≡ width
    → unfilter width n s ≡ some out
    → unfilter width (suc n) (0 ∷ (row ++ s)) ≡ some (row ++ out)
unfolding unfilter
unfilter-row width n row s out e f =
    let fits : leb (length row) (length (row ++ s)) ≡ true = ground (arith, length-append row s) in
    subst (λ w. unfilter w n s ≡ some out → unfilter w (suc n) (0 ∷ (row ++ s)) ≡ some (row ++ out))
      e (λ g. rw (drop-append row s, g, take-append row s, fits, unfilter) refl) f

pub unfilter-raw_rows :
    (bitmap : Bytes) (size n y : ℕ)
    → y * size + n * size ≡ length bitmap
    → unfilter size n (raw_rows bitmap size n y) ≡ some (drop (y * size) bitmap)
unfolding raw_rows unfilter
unfilter-raw_rows bitmap size zero y h =
    let same : y * size ≡ length bitmap = omega arith in
    ap some (sym (ap (λ k. drop k bitmap) same ∙ drop-length bitmap))
unfilter-raw_rows bitmap size (suc n) y h =
    let i = y * size in
    let row = pixels bitmap size i in
    let next : (y + 1) * size ≡ i + size = omega arith in
    let more : suc n * size ≡ n * size + size = omega arith in
    let rest = unfilter-raw_rows bitmap size n (y + 1) (omega arith) in
    let whole : row ++ drop ((y + 1) * size) bitmap ≡ drop i bitmap =
      ap (λ r. r ++ drop ((y + 1) * size) bitmap) (pixels-take bitmap size i (omega arith))
      ∙ ap (λ s. take size (drop i bitmap) ++ s)
          (ap (λ k. drop k bitmap) next ∙ sym (drop-drop i size bitmap))
      ∙ take-append-drop size (drop i bitmap) in
    unfilter-row size n row (raw_rows bitmap size n (y + 1)) (drop ((y + 1) * size) bitmap)
      (length-pixels bitmap size i) rest
    ∙ ap some whole

pub le_mul : (a b : ℕ) → a ≤ a * (b + 1)
le_mul a zero = omega arith
le_mul a (suc b) =
    let rest = le_mul a b in
    let more : a * (suc b + 1) ≡ a * (b + 1) + a = omega arith in omega arith

pub raw_rows-ne : (bitmap : Bytes) (size n y : ℕ) → 0 < n → raw_rows bitmap size n y ≢ []
unfolding raw_rows
raw_rows-ne bitmap size zero y h e = absurd (omega arith)
raw_rows-ne bitmap size (suc n) y h e = cc
