-- ===== src/Str.antt =====
-- The members of `std::string` that the program calls. A string is the list of its bytes, each
-- below 256; a position is a number, and `npos` is `none`.
pub mod Search
pub mod Lines
pub mod Number
pub mod Regex
use Prim.Native.Char.{code}
use Prim.Native.String.{String}
use mathlib.Core.Option
use bit_link.Prelude.{
  ℕ, zero, suc, ◌+◌, ◌-◌, ◌<◌, ◌≡◌, ◌≢◌, refl, List, [], ◌∷◌, ◌++◌, Option, none, some, Bool, true,
  false, not, ◌&&◌, ◌||◌, ltb, leb, ◌==◌, if◌then◌else◌, length, take, drop, All, map, get_elem?,
}

abbrev pub Bytes : Type 0
Bytes = List ℕ

-- The bytes of a literal, which are its code points, since the program's literals are ASCII.
abbrev pub codes : String → Bytes
codes String.[] = []
codes (String.◌∷◌ c s) = code c ∷ codes s

abbrev pub IsByte : ℕ → Type 0
IsByte c = c < 256

abbrev pub Lacks : ℕ → Bytes → Type 0
Lacks b = All (λ c. c ≢ b)

-- a == b
unfoldable pub str_eq : Bytes → Bytes → Bool
str_eq [] [] = true
str_eq (a ∷ s) (b ∷ t) = a == b && str_eq s t
str_eq _ _ = false

-- a < b
unfoldable pub str_lt : Bytes → Bytes → Bool
str_lt s [] = false
str_lt [] (b ∷ t) = true
str_lt (a ∷ s) (b ∷ t) = ltb a b || (a == b && str_lt s t)

abbrev pub is_empty : Bytes → Bool
is_empty [] = true
is_empty (c ∷ s) = false

-- s.back(), where s is not empty
abbrev pub last? : Bytes → Option ℕ
last? [] = none
last? (c ∷ []) = some c
last? (c ∷ d ∷ s) = last? (d ∷ s)

-- s.pop_back(), where s is not empty
abbrev pub pop_back : Bytes → Bytes
pop_back [] = []
pop_back (c ∷ []) = []
pop_back (c ∷ d ∷ s) = c ∷ pop_back (d ∷ s)

unfoldable pub ends_in : ℕ → Bytes → Bool
ends_in c [] = false
ends_in c (d ∷ []) = d == c
ends_in c (d ∷ e ∷ s) = ends_in c (e ∷ s)

unfoldable pub starts_with : Bytes → Bytes → Bool
starts_with [] s = true
starts_with (p ∷ ps) [] = false
starts_with (p ∷ ps) (c ∷ s) = c == p && starts_with ps s

-- Adds `n` to a position.
abbrev pub shift : ℕ → Option ℕ → Option ℕ
shift n none = none
shift n (some i) = some (i + n)

-- s.find(pat)
unfoldable pub find : Bytes → Bytes → Option ℕ
unfolding starts_with
find pat [] = if is_empty pat then some 0 else none
find pat (c ∷ s) = if starts_with pat (c ∷ s) then some 0 else shift 1 (find pat s)

-- The position of the first byte that passes the test.
unfoldable pub find_where : (ℕ → Bool) → Bytes → Option ℕ
find_where test [] = none
find_where test (c ∷ s) = if test c then some 0 else shift 1 (find_where test s)

-- The position of the last byte that passes the test.
unfoldable pub find_last_where : (ℕ → Bool) → Bytes → Option ℕ
find_last_where test [] = none
find_last_where test (c ∷ s) = elim (find_last_where test s) [
  | none ↦ if test c then some 0 else none
  | some i ↦ some (i + 1)
]

-- s.find(c)
abbrev pub find_char : ℕ → Bytes → Option ℕ
find_char c = find_where (λ d. d == c)

-- s.find_last_of(c)
abbrev pub find_last_char : ℕ → Bytes → Option ℕ
find_last_char c = find_last_where (λ d. d == c)

-- A search from a position on: there is nothing to find past the end.
abbrev pub find_from : (Bytes → Option ℕ) → Bytes → ℕ → Option ℕ
find_from search_in s pos = if leb pos (length s) then shift pos (search_in (drop pos s)) else none

-- s.substr(pos, n). It throws where pos is past the end, which no call in the program reaches.
abbrev pub substr : Bytes → ℕ → ℕ → Bytes
substr s pos n = take n (drop pos s)

-- Is the byte one of these?
abbrev pub one_of : Bytes → ℕ → Bool
one_of [] c = false
one_of (d ∷ ds) c = d == c || one_of ds c

-- isdigit, isalpha and tolower of the "C" locale
abbrev pub is_digit : ℕ → Bool
is_digit c = leb b'0' c && leb c b'9'

abbrev pub is_upper : ℕ → Bool
is_upper c = leb b'A' c && leb c b'Z'

abbrev pub is_lower : ℕ → Bool
is_lower c = leb b'a' c && leb c b'z'

abbrev pub is_alnum : ℕ → Bool
is_alnum c = is_digit c || is_upper c || is_lower c

-- isspace
abbrev pub is_space : ℕ → Bool
is_space c = c == b' ' || (leb 9 c && leb c 13)

unfoldable pub to_lower : ℕ → ℕ
to_lower c = if is_upper c then c + 32 else c

unfoldable pub lower : Bytes → Bytes
unfolding to_lower
lower = map to_lower

-- The pieces that `getline(stream, piece, sep)` gives in turn: the last is not given if it is
-- empty. `cur` is what has been read of the present piece.
unfoldable pub getlines_from : ℕ → Bytes → Bytes → List Bytes
getlines_from sep cur [] = if is_empty cur then [] else cur ∷ []
getlines_from sep cur (c ∷ s) =
    let next = cur ∷ getlines_from sep [] s in
    let more = getlines_from sep (cur ++ c ∷ []) s in if c == sep then next else more

abbrev pub getlines : ℕ → Bytes → List Bytes
getlines sep = getlines_from sep []

-- s[pos] == c, where pos is inside
abbrev pub char_is : ℕ → Bytes → ℕ → Bool
char_is c s pos = elim (get_elem? s pos) [ none ↦ false | some d ↦ d == c ]

-- The position, or the end of the text where there is none.
abbrev pub or_end : Bytes → Option ℕ → ℕ
or_end s none = length s
or_end s (some i) = i

abbrev pub all_bytes : (ℕ → Bool) → Bytes → Bool
all_bytes test [] = true
all_bytes test (c ∷ s) = test c && all_bytes test s

abbrev pub contains : Bytes → Bytes → Bool
contains pat s = elim (find pat s) [ none ↦ false | some i ↦ true ]

abbrev pub has_char : ℕ → Bytes → Bool
has_char c s = elim (find_char c s) [ none ↦ false | some i ↦ true ]

-- set.find(s) != set.end(), for a set written as the list of its members
unfoldable pub is_member : Bytes → List Bytes → Bool
is_member s [] = false
is_member s (t ∷ ts) = str_eq s t || is_member s ts

-- isxdigit
abbrev pub is_hex_digit : ℕ → Bool
is_hex_digit c = is_digit c || ((leb b'a' c && leb c b'f') || (leb b'A' c && leb c b'F'))
