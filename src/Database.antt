-- ===== src/Database.antt =====
-- include/database/database_interface.h: the operations of `DatabaseInterface`, and what the
-- services rely on. `SQLiteDatabase` (Database/Sqlite) is the implementation.
pub mod Sqlite
use bit_link.Prelude.{ℕ, ◌≡◌, ◌≢◌, Option, none, some, Bool, true, false, List}
use bit_link.Str.{Bytes, Lacks}
use bit_link.Models.{LinkData, ClickStats, ClickRecord}

-- `none` from `code_exists` is an exception. Queries leave the state as it is.
pub record Database : Type 1 where
  pub State : Type 0
  -- the system clock, in seconds
  pub now : State → ℕ
  pub initialize : Bytes → State → State × Bool
  pub create_tables : State → State × Bool
  pub insert_link : Bytes → Bytes → Bytes → State → State × Bool
  pub get_link : Bytes → State → Option LinkData
  pub code_exists : Bytes → State → Option Bool
  pub delete_link : Bytes → State → State × Bool
  pub record_click : ClickRecord → State → State × Bool
  pub get_click_stats : Bytes → State → ClickStats
  pub get_recent_clicks : Bytes → ℕ → State → List ClickRecord

-- What the services rely on, of the operations, which may fail, and of `stored`, the destination
-- and the kind under each code. `Answers` says that the next query for the code will not fail. A
-- text that holds a NUL may be cut there.
module _ (db : Database) where
  open db use {State, insert_link, get_link, delete_link, record_click}

  pub record IsLinkTable (stored : Bytes → State → Option (Bytes × Bytes))
      (Answers : Bytes → State → Type 0) : Type 0 where
    pub get_link_stored :
        (c : Bytes) (s : State) (l : LinkData)
        → Lacks 0 c
        → get_link c s ≡ some l
        → stored c s ≡ some (l.destination, l.kind)
    pub get_link_missing :
        (c : Bytes) (s : State) → Lacks 0 c → Answers c s → get_link c s ≡ none → stored c s ≡ none
    pub get_link_held :
        (c : Bytes) (s : State) (l : LinkData)
        → get_link c s ≡ some l
        → (j : Bytes) × (stored j s ≡ some (l.destination, l.kind))
    pub insert_link_new :
        (c d k : Bytes) (s s' : State)
        → Lacks 0 c
        → Lacks 0 d
        → Lacks 0 k
        → insert_link c d k s ≡ (s', true)
        → (stored c s ≡ none) × (stored c s' ≡ some (d, k))
    pub insert_link_others :
        (c d k j : Bytes) (s s' : State)
        → Lacks 0 c
        → j ≢ c
        → insert_link c d k s ≡ (s', true)
        → stored j s' ≡ stored j s
    pub insert_link_failed :
        (c d k j : Bytes) (s s' : State)
        → insert_link c d k s ≡ (s', false)
        → stored j s' ≡ stored j s
    pub delete_link_gone :
        (c : Bytes) (s s' : State)
        → Lacks 0 c
        → delete_link c s ≡ (s', true)
        → (stored c s ≢ none) × (stored c s' ≡ none)
    pub record_click_links :
        (r : ClickRecord) (j : Bytes) (s : State) → stored j (record_click r s).0 ≡ stored j s
