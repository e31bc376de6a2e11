-- ===== src/Database/Sqlite.antt =====
-- src/database/sqlite_database.cc: the prepared statements of `SQLiteDatabase`. The SQLite library
-- is a parameter: what each statement does to the tables, as its documentation and the statement's
-- SQL say. The mutex makes each operation one step.
pub mod Laws
pub mod Interface
pub mod Tables
pub mod Open
use bit_link.Prelude.{
  ℕ, zero, suc, ◌+◌, ◌≡◌, ◌≢◌, ◌⊎◌, [], ◌∷◌, ◌++◌, List, Option, none, some, Bool, true, false, not,
  ◌&&◌, if◌then◌else◌, ltb, ◌==◌,
}
use bit_link.Str.{Bytes, codes, is_empty, str_eq}
use bit_link.StrMap.{StrMap, put}
use bit_link.Models.{LinkData, ClickStats, ClickRecord}
use bit_link.Database.Sqlite.Tables.{TableData, Rc, is_done, Answer, found, no_row, error}

-- A connection. Its statements are prepared once `initialize` has succeeded.
pub record Engine : Type 1 where
  pub Conn : Type 0
  pub tables : Conn → TableData
  pub now : Conn → ℕ
  -- sqlite3_open, sqlite3_exec and sqlite3_prepare_v2: is the result SQLITE_OK?
  pub connect : Bytes → Conn → Conn × Bool
  pub exec : Bytes → Conn → Conn × Bool
  pub prepare : Bytes → Conn → Conn × Bool
  -- is the result of binding a parameter SQLITE_OK?
  pub bind_text : Conn → Bytes → Bool
  pub bind_int : Conn → ℕ → Bool
  -- sqlite3_step on each statement, with its bound parameters
  pub insert_link : LinkData → Conn → Conn × Rc
  pub select_link : Bytes → Conn → Answer LinkData
  pub select_code : Bytes → Conn → Answer (Unit {0})
  pub delete_link : Bytes → Conn → Conn × Rc
  pub changes : Conn → ℕ
  pub insert_click : ClickRecord → Conn → Conn × Rc
  -- COUNT(*) and MAX(timestamp)
  pub select_stats : Bytes → Conn → Answer (ℕ × ℕ)
  -- the rows of the statistics by day, or no statement
  pub select_daily : Bytes → Conn → Option (List (Option Bytes × ℕ))
  -- the rows up to the one that is no SQLITE_ROW, and the result code there
  pub select_recent : Bytes → ℕ → Conn → List ClickRecord × Rc

-- The text up to its first NUL: what `bind_text(…, s.c_str(), -1, …)` binds.
unfoldable pub c_str : Bytes → Bytes
c_str [] = []
c_str (c ∷ s) = if c == 0 then [] else c ∷ c_str s

module _ (e : Engine) where
  open e use {Conn, now, bind_text, bind_int}

  unfoldable pub insert_link : Bytes → Bytes → Bytes → Conn → Conn × Bool
  insert_link code destination kind c =
      if is_empty code
      then (c, false)
      else if not (bind_text c (c_str code))
      then (c, false)
      else if not (bind_text c (c_str destination))
      then (c, false)
      else if not (bind_text c (c_str kind))
      then (c, false)
      else if not (bind_int c (now c))
      then (c, false)
      else (let (c', rc) =
            e.insert_link
              (record {
                code = c_str code;
                destination = c_str destination;
                kind = c_str kind;
                created = now c;
              })
              c in
          (c', is_done rc))

  unfoldable pub get_link : Bytes → Conn → Option LinkData
  get_link code c =
      if not (bind_text c (c_str code))
      then none
      else elim (e.select_link (c_str code) c) [ found l ↦ some l | no_row ↦ none | error ↦ none ]

  unfoldable pub code_exists : Bytes → Conn → Bool
  code_exists code c =
      if not (bind_text c (c_str code))
      then false
      else elim (e.select_code (c_str code) c) [ found _ ↦ true | no_row ↦ false | error ↦ false ]

  unfoldable pub delete_link : Bytes → Conn → Conn × Bool
  delete_link code c =
      if not (bind_text c (c_str code))
      then (c, false)
      else (let (c', rc) = e.delete_link (c_str code) c in
          if is_done rc then (c', ltb 0 (e.changes c')) else (c', false))

  unfoldable pub record_click : ClickRecord → Conn → Conn × Bool
  record_click r c =
      if not (bind_text c (c_str r.code))
      then (c, false)
      else if not (bind_text c (c_str r.ip_truncated))
      then (c, false)
      else if not (bind_text c (c_str r.user_agent))
      then (c, false)
      else if not (bind_text c (c_str r.referrer))
      then (c, false)
      else if not (bind_int c r.timestamp)
      then (c, false)
      else (let (c', rc) =
            e.insert_click
              (record {
                code = c_str r.code;
                ip_truncated = c_str r.ip_truncated;
                user_agent = c_str r.user_agent;
                referrer = c_str r.referrer;
                timestamp = r.timestamp;
              })
              c in
          (c', is_done rc))

  -- The loop over the rows by day: a row with no date is passed over.
  unfoldable pub add_daily : StrMap ℕ → List (Option Bytes × ℕ) → StrMap ℕ
  add_daily m [] = m
  add_daily m ((none, n) ∷ rows) = add_daily m rows
  add_daily m ((some day, n) ∷ rows) = add_daily (put day n m) rows

  -- The second query, whose failure leaves the first one's result.
  unfoldable pub with_daily : Bytes → Conn → ClickStats → ClickStats
  with_daily code c stats = elim (e.select_daily (c_str code) c) [
    | none ↦ stats
    | some rows ↦
        if bind_text c (c_str code)
        then record stats { daily_clicks = add_daily stats.daily_clicks rows }
        else stats
  ]

  unfoldable pub get_click_stats : Bytes → Conn → ClickStats
  get_click_stats code c =
      let stats : ClickStats = record { total_clicks = 0; daily_clicks = []; last_accessed = 0 } in
      if not (bind_text c (c_str code)) then stats else elim (e.select_stats (c_str code) c) [
        -- `last_accessed` is set if it is above 0, where 0 is the default
        | found (total, last) ↦
            with_daily code c (record stats { total_clicks = total; last_accessed = last })
        | no_row ↦ with_daily code c stats
        | error ↦ stats
      ]

  unfoldable pub get_recent_clicks : Bytes → ℕ → Conn → List ClickRecord
  get_recent_clicks code limit c =
      if not (bind_text c (c_str code))
      then []
      else if not (bind_int c limit)
      then []
      else (let (rows, rc) = e.select_recent (c_str code) limit c in
          if is_done rc then rows else [])
