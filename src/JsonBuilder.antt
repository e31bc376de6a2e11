-- ===== src/JsonBuilder.antt =====
-- src/utils/json_builder.cc, include/utils/json_builder.h: building JSON texts.
pub mod Escape
pub mod Objects
use bit_link.Prelude.{
  ℕ, zero, suc, ◌+◌, ◌-◌, ◌*◌, ◌≤◌, ◌≡◌, refl, [], ◌∷◌, ◌++◌, List, none, some, Bool, true, false,
  not, ◌&&◌, if◌then◌else◌, leb, ◌==◌, length,
}
use bit_link.Str.{Bytes, codes, is_empty}
use bit_link.Str.Number.{ℤ, pos, negsuc, to_string}
use bit_link.StrMap.{StrMap, put}
use bit_link.JsonBuilder.Escape.{escape_json_string}

pub data FieldType : Type 0 where
  string integer long double boolean null_value array object raw : FieldType

pub record Field : Type 0 where
  pub kind : FieldType
  pub value : Bytes

abbrev pub Builder : Type 0
Builder = StrMap Field

unfoldable pub is_valid_field_name : Bytes → Bool
is_valid_field_name key = not (is_empty key) && leb (length key) 1000

-- Invalid field names are skipped.
unfoldable pub put_field : Bytes → FieldType → Bytes → Builder → Builder
put_field key kind value fields =
    if is_valid_field_name key
    then put key (record { kind = kind; value = value }) fields
    else fields

unfoldable pub add_string : Bytes → Bytes → Builder → Builder
add_string key value = put_field key FieldType.string value

unfoldable pub add_int : Bytes → ℤ → Builder → Builder
add_int key value = put_field key FieldType.integer (to_string value)

unfoldable pub add_long : Bytes → ℤ → Builder → Builder
add_long key value = put_field key FieldType.long (to_string value)

unfoldable pub add_bool : Bytes → Bool → Builder → Builder
add_bool key value = put_field key FieldType.boolean (if value then codes "true" else codes "false")

unfoldable pub add_null : Bytes → Builder → Builder
add_null key = put_field key FieldType.null_value (codes "null")

abbrev pub quoted : Bytes → Bytes
quoted s = codes "\"" ++ (escape_json_string s ++ codes "\"")

-- The items with commas between them.
unfoldable pub comma_list : List Bytes → Bytes
comma_list [] = []
comma_list (x ∷ []) = x
comma_list (x ∷ y ∷ xs) = x ++ (codes "," ++ comma_list (y ∷ xs))

abbrev quote_all : List Bytes → List Bytes
quote_all [] = []
quote_all (s ∷ ss) = quoted s ∷ quote_all ss

abbrev show_all : List ℤ → List Bytes
show_all [] = []
show_all (n ∷ ns) = to_string n ∷ show_all ns

abbrev quote_pairs : StrMap Bytes → List Bytes
quote_pairs [] = []
quote_pairs ((k, v) ∷ m) = (quoted k ++ (codes ":" ++ quoted v)) ∷ quote_pairs m

unfoldable pub add_string_array : Bytes → List Bytes → Builder → Builder
add_string_array key values =
    put_field key FieldType.array (codes "[" ++ (comma_list (quote_all values) ++ codes "]"))

unfoldable pub add_int_array : Bytes → List ℤ → Builder → Builder
add_int_array key values =
    put_field key FieldType.array (codes "[" ++ (comma_list (show_all values) ++ codes "]"))

unfoldable pub add_map : Bytes → StrMap Bytes → Builder → Builder
add_map key pairs =
    put_field key FieldType.object (codes "{" ++ (comma_list (quote_pairs pairs) ++ codes "}"))

-- A value as `build` writes it: only a string is still to be quoted.
unfoldable pub show_field : Field → Bytes
show_field f = elim f.kind [ FieldType.string ↦ quoted f.value | _ ↦ f.value ]

-- The members, each with what stands in front of it.
unfoldable pub show_members : Bool → Bool → Builder → Bytes
show_members pretty_print first [] = []
show_members pretty_print first ((key, field) ∷ fields) =
    (if first then [] else codes ",")
    ++ ((if pretty_print then codes "\n  " else [])
        ++ (quoted key
            ++ (codes ":"
                ++ ((if pretty_print then codes " " else [])
                    ++ (show_field field ++ show_members pretty_print false fields)))))

abbrev pub is_nil : Builder → Bool
is_nil [] = true
is_nil (f ∷ fs) = false

unfoldable pub build : Bool → Builder → Bytes
build pretty_print fields =
    codes "{"
    ++ (show_members pretty_print true fields
        ++ ((if pretty_print && not (is_nil fields) then codes "\n" else []) ++ codes "}"))

unfoldable pub add_builder : Bytes → Builder → Builder → Builder
add_builder key builder = put_field key FieldType.object (build false builder)

unfoldable pub success : Bytes → Bytes
success message =
    build false (add_string (codes "message") message (add_bool (codes "success") true []))

-- An error code of -1 is left out.
unfoldable pub error : Bytes → ℤ → Bytes
error message error_code =
    let builder = add_string (codes "error") message (add_bool (codes "success") false []) in
    elim error_code [
      | pos n ↦ build false (add_int (codes "error_code") (pos n) builder)
      | negsuc n ↦
          if n == 0
          then build false builder
          else build false (add_int (codes "error_code") (negsuc n) builder)
    ]

unfoldable pub data_response : Builder → Bool → Bytes
data_response payload succeeded =
    build false (add_builder (codes "data") payload (add_bool (codes "success") succeeded []))
