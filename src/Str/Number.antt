-- ===== src/Str/Number.antt =====
-- `std::stoi`, on integers over the native numbers.
pub mod Digits
use bit_link.Prelude.{
  ℕ, zero, suc, ltb, ◌+◌, ◌-◌, ◌*◌, ◌/◌, ◌%◌, ◌^◌, ◌≡◌, refl, [], ◌∷◌, Option, none, some, Bool,
  true, false, if◌then◌else◌, ◌==◌, leb, ◌&&◌,
}
use bit_link.Str.{Bytes, codes, is_digit, is_space}

-- `negsuc n` is -(n + 1).
pub data ℤ : Type 0 where
  pos : ℕ → ℤ
  negsuc : ℕ → ℤ

abbrev pub negate : ℕ → ℤ
negate n = if n == 0 then pos 0 else negsuc (n - 1)

unfoldable pub skip_spaces : Bytes → Bytes
skip_spaces [] = []
skip_spaces (c ∷ s) = if is_space c then skip_spaces s else c ∷ s

-- The number that the leading digits spell behind `n`.
unfoldable pub leading_digits : ℕ → Bytes → ℕ
leading_digits n [] = n
leading_digits n (c ∷ s) =
    let more = leading_digits (n * 10 + (c - b'0')) s in if is_digit c then more else n

-- Without a digit stoi throws invalid_argument, and for what is no `int` out_of_range: both are
-- `none`.
unfoldable pub unsigned_part : Bool → Bytes → Option ℤ
unsigned_part negative [] = none
unsigned_part negative (c ∷ s) =
    let n = leading_digits 0 (c ∷ s) in
    if is_digit c
    then if negative
      then if leb n (2 ^ 31) then some (negate n) else none
      else if leb n (2 ^ 31 - 1)
      then some (pos n)
      else none
    else none

unfoldable pub signed_part : Bytes → Option ℤ
signed_part [] = none
signed_part (c ∷ s) =
    if c == b'-'
    then unsigned_part true s
    else if c == b'+'
    then unsigned_part false s
    else unsigned_part false (c ∷ s)

unfoldable pub stoi : Bytes → Option ℤ
stoi s = signed_part (skip_spaces s)

-- The part of std::stoul behind a sign, which wraps around. Without a digit it throws
-- invalid_argument, and past 64 bits out_of_range: both are `none`.
unfoldable pub stoul_digits : Bool → Bytes → Option ℕ
stoul_digits negative [] = none
stoul_digits negative (c ∷ s) =
    let n = leading_digits 0 (c ∷ s) in
    if is_digit c && ltb n (2 ^ 64)
    then some (if negative then (2 ^ 64 - n) % 2 ^ 64 else n)
    else none

unfoldable pub stoul_signed : Bytes → Option ℕ
stoul_signed [] = none
stoul_signed (c ∷ s) =
    if c == b'-'
    then stoul_digits true s
    else if c == b'+'
    then stoul_digits false s
    else stoul_digits false (c ∷ s)

unfoldable pub stoul : Bytes → Option ℕ
stoul s = stoul_signed (skip_spaces s)

stoi_tests :
    (stoi (codes " 80x") ≡ some (pos 80))
    × (stoi (codes "-7") ≡ some (negsuc 6))
    × (stoi (codes "2147483648") ≡ none)
    × (stoi (codes "x1") ≡ none)
unfolding stoi signed_part unsigned_part leading_digits skip_spaces
stoi_tests = (refl, refl, refl, refl)

-- The decimal digits of a number in front of `out`. Each round divides by ten, so the number itself
-- is enough fuel.
unfoldable pub show_from : ℕ → ℕ → Bytes → Bytes
show_from zero n out = out
show_from (suc fuel) n out =
    let rest = show_from fuel (n / 10) ((b'0' + n % 10) ∷ out) in
    if ltb n 10 then (b'0' + n) ∷ out else rest

unfoldable pub show_ℕ : ℕ → Bytes
show_ℕ n = show_from (suc n) n []

-- std::to_string
unfoldable pub to_string : ℤ → Bytes
unfolding show_ℕ show_from
to_string (pos n) = show_ℕ n
to_string (negsuc n) = b'-' ∷ show_ℕ (n + 1)

to_string_tests : (to_string (pos 8080) ≡ codes "8080") × (to_string (negsuc 0) ≡ codes "-1")
unfolding to_string
to_string_tests = (refl, refl)
