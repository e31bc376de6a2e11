-- ===== src/Database/Sqlite/Interface.antt =====
-- src/database/sqlite_database.cc: `SQLiteDatabase` as a `DatabaseInterface`.
use bit_link.Prelude.{
  ◌≡◌, ◌≢◌, ◌⊎◌, inl, inr, refl, sym, subst, ap, Option, none, some, Bool, true, false, not, arith,
  if_both,
}
use bit_link.Str.{Bytes, Lacks}
use bit_link.Str.Search.{str_eq_refl, str_eq_iff}
use bit_link.Models.{LinkData, ClickRecord}
use bit_link.Database.{Database, IsLinkTable}
use bit_link.Database.Sqlite.Tables.{
  TableData, find_link, Answer, found, no_row, error, find_link-remove_links,
}
use bit_link.Database.Sqlite
use bit_link.Database.Sqlite.Open
use bit_link.Database.Sqlite.{Engine, c_str}
use bit_link.Database.Sqlite.Laws.{
  IsSqlite, c_str-Lacks, bound_link, Inserted, Deleted, insert_link-Inserted, delete_link-Deleted,
}

abbrev pub sqlite_database : Engine → Database
sqlite_database e = record {
  State = e.Conn;
  now = e.now;
  initialize = Open.initialize e;
  create_tables = Open.create_tables e;
  insert_link = Sqlite.insert_link e;
  get_link = Sqlite.get_link e;
  code_exists = λ code c. some (Sqlite.code_exists e code c);
  delete_link = Sqlite.delete_link e;
  record_click = Sqlite.record_click e;
  get_click_stats = Sqlite.get_click_stats e;
  get_recent_clicks = Sqlite.get_recent_clicks e;
}

abbrev link_pair : Option LinkData → Option (Bytes × Bytes)
link_pair none = none
link_pair (some l) = some (l.destination, l.kind)

module _ (e : Engine) where
  -- What the table of links holds under a code.
  abbrev pub stored : Bytes → e.Conn → Option (Bytes × Bytes)
  stored code c = link_pair (find_link code (e.tables c).links)

  -- The SELECT of a link is answered.
  abbrev pub Answers : Bytes → e.Conn → Type 0
  Answers code c = (e.bind_text c (c_str code) ≡ true) × (e.select_link (c_str code) c ≢ error)

module _ (e : Engine) (law : IsSqlite e) where
  -- What a query that gives a link, or none, says of the table.
  get_link_answer :
      (code : Bytes) (c : e.Conn) (a : Answer LinkData)
      → e.select_link (c_str code) c ≡ a
      → let result : Option LinkData = elim a [ found l ↦ some l | no_row ↦ none | error ↦ none ] in
        ((result ≡ none) × ((a ≡ error) ⊎ (find_link (c_str code) (e.tables c).links ≡ none)))
        ⊎ (result ≡ find_link (c_str code) (e.tables c).links)
  get_link_answer code c (found l) h = inr (sym (law.select_link_found (c_str code) c l h))
  get_link_answer code c no_row h = inl (refl, inr (law.select_link_no_row (c_str code) c h))
  get_link_answer code c error h = inl (refl, inl refl)

  get_link_stored :
      (code : Bytes) (c : e.Conn) (l : LinkData)
      → Lacks 0 code
      → Sqlite.get_link e code c ≡ some l
      → stored e code c ≡ some (l.destination, l.kind)
  unfolding Sqlite.get_link
  get_link_stored code c l h g =
      ground (arith, get_link_answer code c (e.select_link (c_str code) c) refl, c_str-Lacks code h)

  -- Whatever the code, what a query gives is in the table, under the text up to its first NUL.
  get_link_held :
      (code : Bytes) (c : e.Conn) (l : LinkData)
      → Sqlite.get_link e code c ≡ some l
      → (j : Bytes) × (stored e j c ≡ some (l.destination, l.kind))
  unfolding Sqlite.get_link
  get_link_held code c l g =
      (c_str code, ground (arith, get_link_answer code c (e.select_link (c_str code) c) refl))

  get_link_missing :
      (code : Bytes) (c : e.Conn)
      → Lacks 0 code
      → Answers e code c
      → Sqlite.get_link e code c ≡ none
      → stored e code c ≡ none
  unfolding Sqlite.get_link
  get_link_missing code c h a g =
      ground (arith, get_link_answer code c (e.select_link (c_str code) c) refl, c_str-Lacks code h)

  -- The outcome of an insertion that said yes, or no.
  insert_link-Inserted_result :
      (code destination kind : Bytes) (c c' : e.Conn) (ok : Bool)
      → Sqlite.insert_link e code destination kind c ≡ (c', ok)
      → Inserted e (bound_link e code destination kind c) c (c', ok)
  insert_link-Inserted_result code destination kind c c' ok g =
      subst (Inserted e (bound_link e code destination kind c) c) g
        (insert_link-Inserted e law code destination kind c)

  insert_link_new :
      (code destination kind : Bytes) (c c' : e.Conn)
      → Lacks 0 code
      → Lacks 0 destination
      → Lacks 0 kind
      → Sqlite.insert_link e code destination kind c ≡ (c', true)
      → (stored e code c ≡ none) × (stored e code c' ≡ some (destination, kind))
  unfolding find_link
  insert_link_new code destination kind c c' h1 h2 h3 g =
      elim (insert_link-Inserted_result code destination kind c c' true g) [
        | inr (bad, _) ↦ cc
        | inl (_, free, new) ↦ ground (
          arith,
          c_str-Lacks code h1,
          c_str-Lacks destination h2,
          c_str-Lacks kind h3,
          str_eq_refl code,
          ap (λ (t : TableData). find_link code t.links) new,
        )
      ]

  insert_link_others :
      (code destination kind other : Bytes) (c c' : e.Conn)
      → Lacks 0 code
      → other ≢ code
      → Sqlite.insert_link e code destination kind c ≡ (c', true)
      → stored e other c' ≡ stored e other c
  unfolding find_link
  insert_link_others code destination kind other c c' h ne g =
      elim (insert_link-Inserted_result code destination kind c c' true g) [
        | inr (bad, _) ↦ cc
        | inl (_, free, new) ↦ ground (
          arith,
          c_str-Lacks code h,
          str_eq_iff code other,
          ap (λ (t : TableData). find_link other t.links) new,
        )
      ]

  insert_link_failed :
      (code destination kind other : Bytes) (c c' : e.Conn)
      → Sqlite.insert_link e code destination kind c ≡ (c', false)
      → stored e other c' ≡ stored e other c
  insert_link_failed code destination kind other c c' g =
      elim (insert_link-Inserted_result code destination kind c c' false g) [
        | inl (bad, _, _) ↦ cc
        | inr (_, same) ↦ ap (λ t. link_pair (find_link other t.links)) same
      ]

  delete_link_gone :
      (code : Bytes) (c c' : e.Conn)
      → Lacks 0 code
      → Sqlite.delete_link e code c ≡ (c', true)
      → (stored e code c ≢ none) × (stored e code c' ≡ none)
  delete_link_gone code c c' h g =
      elim (subst (Deleted e (c_str code) c) g (delete_link-Deleted e law code c)) [
        | inr (bad, _) ↦ cc
        | inl (_, was, gone) ↦ ground (
          arith,
          was,
          c_str-Lacks code h,
          find_link-remove_links code (e.tables c).links,
          ap (λ (t : TableData). find_link code t.links) gone,
        )
      ]

  record_click_links :
      (r : ClickRecord) (other : Bytes) (c : e.Conn)
      → stored e other (Sqlite.record_click e r c).0 ≡ stored e other c
  unfolding Sqlite.record_click
  record_click_links r other c =
      let P = λ (q : e.Conn × Bool). stored e other q.0 ≡ stored e other c in
      let bound : ClickRecord = record {
        code = c_str r.code;
        ip_truncated = c_str r.ip_truncated;
        user_agent = c_str r.user_agent;
        referrer = c_str r.referrer;
        timestamp = r.timestamp;
      } in
      if_both P (not (e.bind_text c (c_str r.code))) refl (
        if_both P (not (e.bind_text c (c_str r.ip_truncated))) refl (
          if_both P (not (e.bind_text c (c_str r.user_agent))) refl (
            if_both P (not (e.bind_text c (c_str r.referrer))) refl (
              if_both P (not (e.bind_int c r.timestamp)) refl
                (ap (λ ls. link_pair (find_link other ls)) (law.insert_click_links bound c))))))

-- On an engine that keeps the laws of SQLite, `SQLiteDatabase` keeps what the services rely on: a
-- new link is found under its code, no link is ever replaced, a failed insertion changes no link,
-- a deleted link is gone, and clicks leave the links alone. Texts hold no NUL.
pub sqlite_database-IsLinkTable :
    (e : Engine) → IsSqlite e → IsLinkTable (sqlite_database e) (stored e) (Answers e)
sqlite_database-IsLinkTable e law = record {
  get_link_stored = get_link_stored e law;
  get_link_held = get_link_held e law;
  get_link_missing = get_link_missing e law;
  insert_link_new = insert_link_new e law;
  insert_link_others = insert_link_others e law;
  insert_link_failed = insert_link_failed e law;
  delete_link_gone = delete_link_gone e law;
  record_click_links = record_click_links e law;
}
