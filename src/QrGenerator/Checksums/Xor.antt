-- ===== src/QrGenerator/Checksums/Xor.antt =====
-- src/utils/qr_generator.cc: the laws of `^` that the table of `crc32` stands on.
use Prim.Native.Nat.{bit_xor, digits, differ, bit_xor-bitwise}
use bit_link.Prelude.{ℕ, zero, suc, ◌+◌, ◌*◌, ◌/◌, ◌%◌, ◌<◌, ◌≤◌, ◌≡◌, refl, sym, ap, ◌∙◌, arith}

abbrev xor_digits : ℕ → ℕ → ℕ → ℕ
xor_digits n a b = digits (λ b. b) differ n a b

xor_digits_fuel : (n m a b : ℕ) → a ≤ n → a ≤ m → xor_digits n a b ≡ xor_digits m a b
xor_digits_fuel zero zero a b p q = refl
xor_digits_fuel zero (suc m) zero b p q = refl
xor_digits_fuel zero (suc m) (suc a) b p q = absurd (omega arith)
xor_digits_fuel (suc n) zero zero b p q = refl
xor_digits_fuel (suc n) zero (suc a) b p q = absurd (omega arith)
xor_digits_fuel (suc n) (suc m) zero b p q = refl
xor_digits_fuel (suc n) (suc m) (suc a) b p q =
    omega (arith, xor_digits_fuel n m (suc a / 2) (b / 2) (omega arith) (omega arith))

pub zero-bit_xor : (b : ℕ) → bit_xor 0 b ≡ b
zero-bit_xor b = bit_xor-bitwise 0 b

bit_xor-digit : (a b : ℕ) → bit_xor a b ≡ bit_xor (a / 2) (b / 2) * 2 + differ (a % 2) (b % 2)
bit_xor-digit zero b = omega (arith, zero-bit_xor b, zero-bit_xor (b / 2))
bit_xor-digit (suc a) b = omega (
  arith,
  bit_xor-bitwise (suc a) b,
  bit_xor-bitwise (suc a / 2) (b / 2),
  xor_digits_fuel a (suc a / 2) (suc a / 2) (b / 2) (omega arith) (omega arith),
)

differ_bits : (x y : ℕ) → x < 2 → y < 2 → differ x y ≡ (x + y) % 2
differ_bits zero zero h k = refl
differ_bits zero (suc zero) h k = refl
differ_bits (suc zero) zero h k = refl
differ_bits (suc zero) (suc zero) h k = refl
differ_bits (suc (suc x)) y h k = absurd (omega arith)
differ_bits zero (suc (suc y)) h k = absurd (omega arith)
differ_bits (suc zero) (suc (suc y)) h k = absurd (omega arith)

-- The lowest digit apart.
pub bit_xor_step : (a b : ℕ) → bit_xor a b ≡ bit_xor (a / 2) (b / 2) * 2 + (a + b) % 2
bit_xor_step a b =
    omega (arith, bit_xor-digit a b, differ_bits (a % 2) (b % 2) (omega arith) (omega arith))

pub bit_xor_half : (a b : ℕ) → bit_xor a b / 2 ≡ bit_xor (a / 2) (b / 2)
bit_xor_half a b = omega (arith, bit_xor_step a b)

comm_fuel : (n a b : ℕ) → a ≤ n → b ≤ n → bit_xor a b ≡ bit_xor b a
comm_fuel zero zero zero h k = refl
comm_fuel zero (suc a) b h k = absurd (omega arith)
comm_fuel zero zero (suc b) h k = absurd (omega arith)
comm_fuel (suc n) a b h k =
    let rest : bit_xor (a / 2) (b / 2) ≡ bit_xor (b / 2) (a / 2) =
      comm_fuel n (a / 2) (b / 2) (omega arith) (omega arith) in
    omega (arith, bit_xor_step a b, bit_xor_step b a)

bit_xor-zero : (a : ℕ) → bit_xor a 0 ≡ a
bit_xor-zero a = comm_fuel a a 0 (omega arith) (omega arith) ∙ zero-bit_xor a

assoc_fuel :
    (n a b c : ℕ) → a ≤ n → b ≤ n → c ≤ n → bit_xor (bit_xor a b) c ≡ bit_xor a (bit_xor b c)
assoc_fuel zero zero zero zero h k l = refl
assoc_fuel zero (suc a) b c h k l = absurd (omega arith)
assoc_fuel zero zero (suc b) c h k l = absurd (omega arith)
assoc_fuel zero zero zero (suc c) h k l = absurd (omega arith)
assoc_fuel (suc n) a b c h k l =
    let rest = assoc_fuel n (a / 2) (b / 2) (c / 2) (omega arith) (omega arith) (omega arith) in
    let left : bit_xor (bit_xor a b / 2) (c / 2) ≡ bit_xor (bit_xor (a / 2) (b / 2)) (c / 2) =
      ap (λ x. bit_xor x (c / 2)) (bit_xor_half a b) in
    let right : bit_xor (a / 2) (bit_xor b c / 2) ≡ bit_xor (a / 2) (bit_xor (b / 2) (c / 2)) =
      ap (bit_xor (a / 2)) (bit_xor_half b c) in
    omega (
      arith,
      rest,
      left,
      right,
      bit_xor_step (bit_xor a b) c,
      bit_xor_step a (bit_xor b c),
      bit_xor_step a b,
      bit_xor_step b c,
    )

pub bit_xor_assoc : (a b c : ℕ) → bit_xor (bit_xor a b) c ≡ bit_xor a (bit_xor b c)
bit_xor_assoc a b c = assoc_fuel (a + b + c) a b c (omega arith) (omega arith) (omega arith)

same_fuel : (n a : ℕ) → a ≤ n → bit_xor a a ≡ 0
same_fuel n zero h = refl
same_fuel zero (suc a) h = absurd (omega arith)
same_fuel (suc n) (suc a) h =
    omega (arith, bit_xor_step (suc a) (suc a), same_fuel n (suc a / 2) (omega arith))

-- What is the same on the right can be left out.
pub bit_xor_cancel : (a b c : ℕ) → bit_xor a c ≡ bit_xor b c → a ≡ b
bit_xor_cancel a b c e =
    let undo : (x : ℕ) → bit_xor (bit_xor x c) c ≡ x =
      λ x. bit_xor_assoc x c c ∙ ap (bit_xor x) (same_fuel c c (omega arith)) ∙ bit_xor-zero x in
    sym (undo a) ∙ ap (λ x. bit_xor x c) e ∙ undo b
