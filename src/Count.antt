-- ===== src/Count.antt =====
-- How many numbers below a bound pass a test.

use bit_link.Prelude.{
  ℕ, zero, suc, ◌+◌, ◌<◌, ◌≤◌, arith, ◌≡◌, ◌⊎◌, inl, inr, refl, Bool, true, false, if◌then◌else◌,
  Bool-cases,
}

abbrev pub count_below : ℕ → (ℕ → Bool) → ℕ
count_below zero test = 0
count_below (suc n) test = (if test n then 1 else 0) + count_below n test

pub count_below_all :
    (n : ℕ) (test : ℕ → Bool) → ((i : ℕ) → i < n → test i ≡ true) → count_below n test ≡ n
count_below_all zero test h = refl
count_below_all (suc n) test h =
    let rest = count_below_all n test (λ i lt. h i (omega arith)) in
    let here : test n ≡ true = h n (omega arith) in ground arith

pub count_below_none :
    (n : ℕ) (test : ℕ → Bool) → ((i : ℕ) → i < n → test i ≡ false) → count_below n test ≡ 0
count_below_none zero test h = refl
count_below_none (suc n) test h =
    let rest = count_below_none n test (λ i lt. h i (omega arith)) in
    let here : test n ≡ false = h n (omega arith) in ground arith

-- A test that two tests cover.
pub count_below_either :
    (n : ℕ) (test first second : ℕ → Bool)
    → ((i : ℕ) → test i ≡ true → (first i ≡ true) ⊎ (second i ≡ true))
    → count_below n test ≤ count_below n first + count_below n second
count_below_either zero test first second h = omega arith
count_below_either (suc n) test first second h =
    let rest = count_below_either n test first second h in ground (arith, h n)

not_there : (test : ℕ → Bool) (n i : ℕ) → i < n → (test i ≡ true → i ≡ n) → test i ≡ false
not_there test n i lt g = elim (Bool-cases (test i)) [
  | inl e ↦ let same = g e in absurd (omega arith)
  | inr e ↦ e
]

pub count_below_once :
    (n : ℕ) (test : ℕ → Bool)
    → ((i j : ℕ) → test i ≡ true → test j ≡ true → i ≡ j)
    → count_below n test ≤ 1
count_below_once zero test h = omega arith
count_below_once (suc n) test h = elim (Bool-cases (test n)) [
  | inr e ↦ let rest = count_below_once n test h in ground arith
  | inl e ↦
      let others = count_below_none n test (λ i lt. not_there test n i lt (λ g. h i n g e)) in
      ground arith
]
