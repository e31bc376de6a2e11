-- ===== src/Str/Number/Digits.antt =====
-- `std::to_string`: what the digits are worth.
use bit_link.Prelude.{
  ℕ, zero, suc, ◌+◌, ◌-◌, ◌*◌, ◌/◌, ◌%◌, ◌<◌, ◌≡◌, sym, ap, ◌∙◌, [], ◌∷◌, ltb, arith, inl, inr,
  Bool-cases,
}
use bit_link.Str.{Bytes}
use bit_link.Str.Number.{pos, to_string, show_from, show_ℕ}

-- The value of a text of digits behind the value of those in front of it.
abbrev worth : ℕ → Bytes → ℕ
worth n [] = n
worth n (c ∷ s) = worth (n * 10 + (c - b'0')) s

worth-show_from :
    (fuel n : ℕ) (out : Bytes) → n < fuel → worth 0 (show_from fuel n out) ≡ worth n out
unfolding show_from
worth-show_from zero n out h = absurd (omega arith)
worth-show_from (suc fuel) n out h = elim (Bool-cases (ltb n 10)) [
  | inl e ↦
      let same : 0 * 10 + (b'0' + n - b'0') ≡ n = omega arith in rw e (ap (λ m. worth m out) same)
  | inr e ↦
      let same : n / 10 * 10 + (b'0' + n % 10 - b'0') ≡ n = omega arith in
      let less : n / 10 < fuel = ground arith in
      rw e (worth-show_from fuel (n / 10) _ less ∙ ap (λ m. worth m out) same)
]

pub to_string_injective : (m n : ℕ) → to_string (pos m) ≡ to_string (pos n) → m ≡ n
unfolding to_string show_ℕ
to_string_injective m n e =
    let value : (k : ℕ) → worth 0 (show_from (suc k) k []) ≡ k =
      λ k. worth-show_from (suc k) k [] (omega arith) in
    sym (value m) ∙ ap (worth 0) e ∙ value n
