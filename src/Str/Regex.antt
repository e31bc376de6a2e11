-- ===== src/Str/Regex.antt =====
-- `std::regex_match`: does the whole text match? By derivatives.
use bit_link.Prelude.{
  ℕ, zero, suc, [], ◌∷◌, Bool, true, false, ◌&&◌, ◌||◌, if◌then◌else◌, ◌≡◌, refl, ◌==◌,
}
use bit_link.Str.{Bytes, codes}

pub data Regex : Type 0 where
  fails : Regex
  empty : Regex
  class : (ℕ → Bool) → Regex
  seq alt : Regex → Regex → Regex
  star : Regex → Regex

unfoldable pub nullable : Regex → Bool
nullable fails = false
nullable empty = true
nullable (class p) = false
nullable (seq a b) = nullable a && nullable b
nullable (alt a b) = nullable a || nullable b
nullable (star a) = true

-- `seq` and `alt` without the parts that match nothing, which keeps derivatives small.
unfoldable pub cat : Regex → Regex → Regex
cat fails b = fails
cat empty b = b
cat a b = seq a b

unfoldable pub either : Regex → Regex → Regex
either fails b = b
either a fails = a
either a b = alt a b

-- What is left to match behind a byte.
unfoldable pub derive : ℕ → Regex → Regex
unfolding cat either
derive c fails = fails
derive c empty = fails
derive c (class p) = if p c then empty else fails
derive c (seq a b) =
    if nullable a then either (cat (derive c a) b) (derive c b) else cat (derive c a) b
derive c (alt a b) = either (derive c a) (derive c b)
derive c (star a) = cat (derive c a) (star a)

unfoldable pub regex_match : Regex → Bytes → Bool
unfolding nullable derive
regex_match r [] = nullable r
regex_match r (c ∷ s) = regex_match (derive c r) s

-- r+, r?, r{1,5} and a literal
abbrev pub plus : Regex → Regex
plus r = seq r (star r)

abbrev pub optional : Regex → Regex
optional r = alt empty r

abbrev pub up_to : ℕ → Regex → Regex
up_to zero r = empty
up_to (suc n) r = optional (seq r (up_to n r))

abbrev pub literal : Bytes → Regex
literal [] = empty
literal (c ∷ s) = seq (class (λ d. d == c)) (literal s)

regex_test :
    regex_match (seq (plus (class (λ c. c == b'a'))) (literal (codes "b"))) (codes "aab") ≡ true
unfolding regex_match
regex_test = refl
