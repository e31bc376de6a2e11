-- ===== src/QrGenerator/Steps.antt =====
-- src/utils/qr_generator.cc: what a step on a bitmap leaves alone and what it sets.
use bit_link.Prelude.{
  ℕ, zero, suc, ◌+◌, ◌*◌, ◌<◌, ◌≤◌, ◌≡◌, ◌≢◌, inl, inr, refl, sym, ap, ◌∙◌, subst, [], ◌∷◌, length,
  ltb, ◌==◌, ==_iff, true, false, Bool-cases, arith,
}
use bit_link.Str.{Bytes}
use bit_link.QrGenerator.Png.{pixel}
use bit_link.QrGenerator.Bitmap.{loop, white, set_pixel}

length-set_pixel : (i c : ℕ) (b : Bytes) → length (set_pixel i c b) ≡ length b
unfolding set_pixel
length-set_pixel i c [] = refl
length-set_pixel zero c (d ∷ b) = refl
length-set_pixel (suc i) c (d ∷ b) = ap suc (length-set_pixel i c b)

pixel-set_pixel : (i c : ℕ) (b : Bytes) → i < length b → pixel (set_pixel i c b) i ≡ c
unfolding set_pixel
pixel-set_pixel i c [] h = absurd (omega arith)
pixel-set_pixel zero c (d ∷ b) h = refl
pixel-set_pixel (suc i) c (d ∷ b) h = pixel-set_pixel i c b (omega arith)

pixel-set_pixel_other : (i j c : ℕ) (b : Bytes) → i ≢ j → pixel (set_pixel i c b) j ≡ pixel b j
unfolding set_pixel
pixel-set_pixel_other i j c [] ne = refl
pixel-set_pixel_other zero zero c (d ∷ b) ne = absurd (ne refl)
pixel-set_pixel_other zero (suc j) c (d ∷ b) ne = refl
pixel-set_pixel_other (suc i) zero c (d ∷ b) ne = refl
pixel-set_pixel_other (suc i) (suc j) c (d ∷ b) ne =
    pixel-set_pixel_other i j c b (λ e. ne (ap suc e))

-- A step on bitmaps of one length that leaves a pixel alone, or sets it.
abbrev pub Keeps : ℕ → ℕ → (Bytes → Bytes) → Type 0
Keeps size j f = (b : Bytes) → length b ≡ size → (length (f b) ≡ size) × (pixel (f b) j ≡ pixel b j)

abbrev pub Sets : ℕ → ℕ → ℕ → (Bytes → Bytes) → Type 0
Sets size j c f = (b : Bytes) → length b ≡ size → (length (f b) ≡ size) × (pixel (f b) j ≡ c)

pub loop-Keeps :
    (size j n : ℕ) (f : ℕ → Bytes → Bytes)
    → ((k : ℕ) → k < n → Keeps size j (f k))
    → Keeps size j (loop n f)
loop-Keeps size j zero f h b e = (e, refl)
loop-Keeps size j (suc n) f h b e =
    let (long, same) = loop-Keeps size j n f (λ k lt. h k (omega arith)) b e in
    let (long', same') = h n (omega arith) (loop n f b) long in (long', same' ∙ same)

pub loop-Sets :
    (size j c n k0 : ℕ) (f : ℕ → Bytes → Bytes)
    → k0 < n
    → Sets size j c (f k0)
    → ((k : ℕ) → k < n → k ≢ k0 → Keeps size j (f k))
    → Sets size j c (loop n f)
loop-Sets size j c zero k0 f below sets keeps b e = absurd (omega arith)
loop-Sets size j c (suc n) k0 f below sets keeps b e = elim (Bool-cases (n == k0)) [
  | inl here ↦
      let same = (==_iff n k0).0 here in
      let (long, _) =
        loop-Keeps size j n f (λ k lt. keeps k (omega arith) (λ g. omega arith)) b e in
      let (long', set) = sets (loop n f b) long in
      subst (λ m. (length (f m (loop n f b)) ≡ size) × (pixel (f m (loop n f b)) j ≡ c)) (sym same)
        (long', set)
  | inr before ↦
      let less : k0 < n = ground arith in
      let apart : n ≢ k0 = λ g. omega arith in
      let (long, set) =
        loop-Sets size j c n k0 f less sets (λ k lt ne. keeps k (omega arith) ne) b e in
      let (long', same) = keeps n (omega arith) apart (loop n f b) long in (long', same ∙ set)
]

pub set-Keeps : (size i j c : ℕ) → i ≢ j → Keeps size j (set_pixel i c)
set-Keeps size i j c ne b e = (length-set_pixel i c b ∙ e, pixel-set_pixel_other i j c b ne)

pub set-Sets : (size i c : ℕ) → i < size → Sets size i c (set_pixel i c)
set-Sets size i c h b e = (length-set_pixel i c b ∙ e, pixel-set_pixel i c b (omega arith))

-- Two digits.
mul_le : (a b k : ℕ) → a ≤ b → a * k ≤ b * k
mul_le a b zero h = omega arith
mul_le a b (suc k) h =
    let rest = mul_le a b k h in
    let left : a * suc k ≡ a * k + a = omega arith in
    let right : b * suc k ≡ b * k + b = omega arith in omega arith

pub digits-lt : (a q s k : ℕ) → a < q → s < k → a * k + s < q * k
digits-lt a q s k h l =
    let step = mul_le (a + 1) q k (omega arith) in
    let more : (a + 1) * k ≡ a * k + k = omega arith in omega arith

pub digits-ne : (a c s u k : ℕ) → s < k → u < k → a ≢ c → a * k + s ≢ c * k + u
digits-ne a c s u k l l' ne e = elim (Bool-cases (ltb a c)) [
  | inl lt ↦
      let below = mul_le (a + 1) c k (ground arith) in
      let more : (a + 1) * k ≡ a * k + k = omega arith in omega arith
  | inr ge ↦
      let below = mul_le (c + 1) a k (ground arith) in
      let more : (c + 1) * k ≡ c * k + k = omega arith in omega arith
]

pub digits-ne_low : (a c s u k : ℕ) → s < k → u < k → s ≢ u → a * k + s ≢ c * k + u
digits-ne_low a c s u k l l' ne e = elim (Bool-cases (a == c)) [
  | inl same ↦ let row : a * k ≡ c * k = ap (λ n. n * k) ((==_iff a c).0 same) in ne (omega arith)
  | inr apart ↦ digits-ne a c s u k l l' (λ f. no_longer apart ((==_iff a c).1 f)) e
]
  where
    no_longer : (a == c) ≡ false → (a == c) ≡ true → ⊥
    no_longer f g = cc

pub length-white : (n : ℕ) → length (white n) ≡ n
length-white zero = refl
length-white (suc n) = ap suc (length-white n)

pub pixel-white : (n i : ℕ) → i < n → pixel (white n) i ≡ 255
pixel-white zero i h = absurd (omega arith)
pixel-white (suc n) zero h = refl
pixel-white (suc n) (suc i) h = pixel-white n i (omega arith)
