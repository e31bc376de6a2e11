-- ===== src/JsonBuilder/Objects.antt =====
-- src/utils/json_builder.cc, `build`: objects of strings, as it writes them and as a reader takes
-- them.
use bit_link.Prelude.{
  ℕ, zero, suc, ◌≡◌, refl, ap, ◌∙◌, [], ◌∷◌, ◌++◌, List, Option, none, some, true, false, ◌==◌,
  if◌then◌else◌, append_assoc, length,
}
use bit_link.Str.{Bytes}
use bit_link.JsonBuilder.{FieldType, Builder, quoted, show_field, show_members, build}
use bit_link.JsonBuilder.Escape.{escape_json_string}
use bit_link.JsonBuilder.Escape.RoundTrip.{plain, read_string, read_string-escape_json_string}

abbrev read_quoted : Bytes → Option (Bytes × Bytes)
read_quoted [] = none
read_quoted (c ∷ s) = if c == b'"' then read_string plain s else none

-- The text behind a given byte.
abbrev behind : ℕ → Bytes → Option Bytes
behind b [] = none
behind b (c ∷ s) = if c == b then some s else none

-- A key, a colon and a string.
abbrev read_member : Bytes → Option ((Bytes × Bytes) × Bytes)
read_member s = elim (read_quoted s) [
  | none ↦ none
  | some (key, t) ↦ elim (behind b':' t) [
    | none ↦ none
    | some u ↦ elim (read_quoted u) [ none ↦ none | some (value, v) ↦ some ((key, value), v) ]
  ]
]

-- Up to so many members with commas between them, and the brace that ends the object.
unfoldable pub read_members : ℕ → Bytes → Option (List (Bytes × Bytes) × Bytes)
read_members zero s = none
read_members (suc n) s = elim (read_member s) [
  | none ↦ none
  | some (pair, []) ↦ none
  | some (pair, c ∷ t) ↦
      let more = read_members n t in
      if c == b'}'
      then some (pair ∷ [], t)
      else if c == b','
      then elim more [ none ↦ none | some (pairs, u) ↦ some (pair ∷ pairs, u) ]
      else none
]

abbrev pub read_object : ℕ → Bytes → Option (List (Bytes × Bytes) × Bytes)
read_object n (c ∷ d ∷ s) =
    if c == b'{' then if d == b'}' then some ([], s) else read_members n (d ∷ s) else none
read_object n s = none

-- The fields of an object of strings.
abbrev pub strings : List (Bytes × Bytes) → Builder
strings [] = []
strings ((k, v) ∷ ps) = (k, record { kind = FieldType.string; value = v }) ∷ strings ps

read_quoted-quoted : (s rest : Bytes) → read_quoted (quoted s ++ rest) ≡ some (s, rest)
read_quoted-quoted s rest =
    ap (read_string plain) (append_assoc (escape_json_string s) (b'"' ∷ []) rest)
    ∙ read_string-escape_json_string s rest

read_member-quoted :
    (k v rest : Bytes) → read_member (quoted k ++ b':' ∷ (quoted v ++ rest)) ≡ some ((k, v), rest)
read_member-quoted k v rest =
    rw (read_member, read_quoted-quoted k (b':' ∷ (quoted v ++ rest)), read_quoted-quoted v rest)

-- A member with what follows it.
show_members-cons :
    (k v t : Bytes) (ps : List (Bytes × Bytes))
    → show_members false true (strings ((k, v) ∷ ps)) ++ t
      ≡ quoted k ++ b':' ∷ (quoted v ++ (show_members false false (strings ps) ++ t))
unfolding show_members show_field
show_members-cons k v t ps = simp append_assoc

show_members_comma :
    (k v t : Bytes) (ps : List (Bytes × Bytes))
    → show_members false false (strings ((k, v) ∷ ps)) ++ t
      ≡ b',' ∷ (show_members false true (strings ((k, v) ∷ ps)) ++ t)
unfolding show_members
show_members_comma k v t ps = refl

read_members-strings :
    (k v rest : Bytes) (ps : List (Bytes × Bytes))
    → read_members
        (suc (length ps))
        (show_members false true (strings ((k, v) ∷ ps)) ++ b'}' ∷ rest)
      ≡ some ((k, v) ∷ ps, rest)
unfolding read_members show_members
read_members-strings k v rest [] =
    ap (read_members 1) (show_members-cons k v (b'}' ∷ rest) [])
    ∙ rw (read_members, read_member-quoted k v (b'}' ∷ rest)) refl
read_members-strings k v rest ((k', v') ∷ ps) =
    let more = show_members false true (strings ((k', v') ∷ ps)) ++ b'}' ∷ rest in
    ap (read_members (suc (suc (length ps)))) (show_members-cons k v (b'}' ∷ rest) ((k', v') ∷ ps))
    ∙ rw (read_members, read_member-quoted k v (b',' ∷ more), read_members-strings k' v' rest ps)
        refl

-- An object whose fields are all strings is read, as it is built, as those fields, whatever bytes
-- their names and values hold, and nothing is left over.
pub read_object-build :
    (ps : List (Bytes × Bytes)) → read_object (length ps) (build false (strings ps)) ≡ some (ps, [])
unfolding build
read_object-build [] = unfold show_members in refl
read_object-build ((k, v) ∷ ps) = unfold show_members in read_members-strings k v [] ps
