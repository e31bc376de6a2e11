-- ===== src/Database/Sqlite/Tables.antt =====
-- src/database/sqlite_database.cc, `create_tables`: the tables as the schema describes them.
use bit_link.Prelude.{
  [], ◌∷◌, List, Option, none, some, Bool, true, false, if◌then◌else◌, ◌≡◌, ◌≢◌, refl, arith,
}
use bit_link.Str.{Bytes, str_eq}
use bit_link.Str.Search.{str_eq_iff}
use bit_link.Models.{LinkData, ClickRecord}

pub record TableData : Type 0 where
  pub links : List LinkData
  pub clicks : List ClickRecord

-- SQLITE_DONE, SQLITE_ROW, or an error code.
pub data Rc : Type 0 where
  done row failed : Rc

abbrev pub is_done : Rc → Bool
is_done Rc.done = true
is_done Rc.row = false
is_done Rc.failed = false

-- The result of a step of a SELECT: a row, SQLITE_DONE, or an error.
pub data Answer {ℓ} (A : Type ℓ) : Type ℓ where
  found : A → Answer A
  no_row : Answer A
  error : Answer A

-- WHERE code = ?
unfoldable pub find_link : Bytes → List LinkData → Option LinkData
find_link c [] = none
find_link c (l ∷ ls) = if str_eq l.code c then some l else find_link c ls

unfoldable pub remove_links : Bytes → List LinkData → List LinkData
remove_links c [] = []
remove_links c (l ∷ ls) = if str_eq l.code c then remove_links c ls else l ∷ remove_links c ls

unfoldable pub remove_clicks : Bytes → List ClickRecord → List ClickRecord
remove_clicks c [] = []
remove_clicks c (r ∷ rs) = if str_eq r.code c then remove_clicks c rs else r ∷ remove_clicks c rs

pub find_link-code :
    (c : Bytes) (ls : List LinkData) (l : LinkData) → find_link c ls ≡ some l → l.code ≡ c
unfolding find_link
find_link-code c [] l e = cc
find_link-code c (x ∷ ls) l e = ground (arith, find_link-code c ls l, str_eq_iff x.code c)

pub find_link-remove_links :
    (c : Bytes) (ls : List LinkData) → find_link c (remove_links c ls) ≡ none
unfolding find_link remove_links
find_link-remove_links c [] = refl
find_link-remove_links c (x ∷ ls) = ground (arith, find_link-remove_links c ls)

pub find_link-remove_links_ne :
    (c j : Bytes) (ls : List LinkData) → j ≢ c → find_link j (remove_links c ls) ≡ find_link j ls
unfolding find_link remove_links
find_link-remove_links_ne c j [] h = refl
find_link-remove_links_ne c j (x ∷ ls) h =
    ground (arith, find_link-remove_links_ne c j ls h, str_eq_iff x.code c, str_eq_iff x.code j)
