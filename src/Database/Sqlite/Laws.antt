-- ===== src/Database/Sqlite/Laws.antt =====
-- src/database/sqlite_database.cc: what is asked of SQLite, and `insert_link` and `delete_link` on
-- top of it.
use bit_link.Prelude.{
  ◌<◌, ◌≡◌, ◌≢◌, ◌↔◌, ◌⊎◌, inl, inr, refl, [], ◌∷◌, none, some, Bool, true, false, not,
  if◌then◌else◌, ltb, arith, Bool-cases, Option-cases, if_both,
}
use bit_link.Str.{Bytes, is_empty, Lacks}
use bit_link.Models.{LinkData, ClickRecord}
use bit_link.Database.Sqlite.Tables.{
  find_link, remove_links, remove_clicks, Rc, done, is_done, found, no_row,
}
use bit_link.Database.Sqlite.{Engine, c_str, insert_link, delete_link}

-- What SQLite documents of the statements: INSERT keeps the primary key unique, DELETE cascades to
-- the clicks, a statement that fails changes nothing, and a SELECT reads the tables.
pub record IsSqlite (e : Engine) : Type 1 where
  pub insert_link_done :
      (l : LinkData) (c c' : e.Conn)
      → e.insert_link l c ≡ (c', done)
      → (find_link l.code (e.tables c).links ≡ none)
        × (e.tables c' ≡ record (e.tables c) { links = l ∷ (e.tables c).links })
  pub insert_link_failed :
      (l : LinkData) (c c' : e.Conn) (rc : Rc)
      → e.insert_link l c ≡ (c', rc)
      → rc ≢ done
      → e.tables c' ≡ e.tables c
  pub select_link_found :
      (code : Bytes) (c : e.Conn) (l : LinkData)
      → e.select_link code c ≡ found l
      → find_link code (e.tables c).links ≡ some l
  pub select_link_no_row :
      (code : Bytes) (c : e.Conn)
      → e.select_link code c ≡ no_row
      → find_link code (e.tables c).links ≡ none
  pub delete_link_done :
      (code : Bytes) (c c' : e.Conn)
      → e.delete_link code c ≡ (c', done)
      → (e.tables c' ≡ record {
        links = remove_links code (e.tables c).links;
        clicks = remove_clicks code (e.tables c).clicks;
      })
        × ((0 < e.changes c') ↔ (find_link code (e.tables c).links ≢ none))
  pub delete_link_failed :
      (code : Bytes) (c c' : e.Conn) (rc : Rc)
      → e.delete_link code c ≡ (c', rc)
      → rc ≢ done
      → e.tables c' ≡ e.tables c
  pub insert_click_links :
      (r : ClickRecord) (c : e.Conn) → (e.tables (e.insert_click r c).0).links ≡ (e.tables c).links

-- A text with no NUL is bound whole.
pub c_str-Lacks : (s : Bytes) → Lacks 0 s → c_str s ≡ s
unfolding c_str
c_str-Lacks [] h = refl
c_str-Lacks (c ∷ s) (ne, h) = ground (arith, c_str-Lacks s h)

module _ (e : Engine) where
  open e use {Conn, tables, now}

  -- The row that an insertion at this moment writes.
  abbrev pub bound_link : Bytes → Bytes → Bytes → Conn → LinkData
  bound_link code destination kind c = record {
    code = c_str code;
    destination = c_str destination;
    kind = c_str kind;
    created = now c;
  }

  -- The link is new under its code and all else is as it was, or nothing has changed.
  abbrev pub Inserted : LinkData → Conn → Conn × Bool → Type 0
  Inserted l c (c', ok) =
      (ok ≡ true)
        × (find_link l.code (tables c).links ≡ none)
        × (tables c' ≡ record (tables c) { links = l ∷ (tables c).links })
      ⊎ (ok ≡ false) × (tables c' ≡ tables c)

  -- The link and its clicks are gone, there was one, and all else is as it was; or no link was
  -- there to delete, or nothing has changed.
  abbrev pub Deleted : Bytes → Conn → Conn × Bool → Type 0
  Deleted code c (c', ok) =
      (ok ≡ true)
        × (find_link code (tables c).links ≢ none)
        × (tables c' ≡ record {
          links = remove_links code (tables c).links;
          clicks = remove_clicks code (tables c).clicks;
        })
      ⊎ (ok ≡ false)
        × ((tables c' ≡ tables c)
            ⊎ (find_link code (tables c).links ≡ none)
              × (tables c' ≡ record {
                links = remove_links code (tables c).links;
                clicks = remove_clicks code (tables c).clicks;
              }))

module _ (e : Engine) (law : IsSqlite e) where
  open e use {Conn, tables, now}

  insert_link_step :
      (l : LinkData) (c : Conn) (r : Conn × Rc)
      → e.insert_link l c ≡ r
      → Inserted e l c (r.0, is_done r.1)
  insert_link_step l c (c', Rc.done) h =
      let (free, new) = law.insert_link_done l c c' h in inl (refl, free, new)
  insert_link_step l c (c', Rc.row) h = inr (refl, law.insert_link_failed l c c' Rc.row h cc)
  insert_link_step l c (c', Rc.failed) h = inr (refl, law.insert_link_failed l c c' Rc.failed h cc)

  -- On an engine that keeps the laws of SQLite, inserting a link adds exactly the bound row, and
  -- only where its code was free; if it fails, the tables are as before.
  pub insert_link-Inserted :
      (code destination kind : Bytes) (c : Conn)
      → Inserted e (bound_link e code destination kind c) c (insert_link e code destination kind c)
  unfolding insert_link
  insert_link-Inserted code destination kind c =
      let row = bound_link e code destination kind c in
      let done = insert_link_step row c (e.insert_link row c) refl in
      let P = Inserted e row c in
      let skip : P (c, false) = inr (refl, refl) in
      if_both P (is_empty code) skip (
        if_both P (not (e.bind_text c (c_str code))) skip (
          if_both P (not (e.bind_text c (c_str destination))) skip (
            if_both P (not (e.bind_text c (c_str kind))) skip
              (if_both P (not (e.bind_int c (now c))) skip done))))

  changed : (c : Conn) → ltb 0 (e.changes c) ≡ false → ¬ (0 < e.changes c)
  changed c t h = ground arith

  -- No row was removed where the count of changes is 0.
  none_left :
      (code : Bytes) (c c' : Conn)
      → (find_link code (tables c).links ≢ none → 0 < e.changes c')
      → ltb 0 (e.changes c') ≡ false
      → find_link code (tables c).links ≡ none
  none_left code c c' some_changed t = elim (Option-cases (find_link code (tables c).links)) [
    | inl missing ↦ missing
    | inr (l, is_there) ↦ absurd (changed c' t (some_changed (λ missing. cc)))
  ]

  delete_link_step :
      (code : Bytes) (c : Conn) (r : Conn × Rc)
      → e.delete_link code c ≡ r
      → Deleted e code c (if is_done r.1 then (r.0, ltb 0 (e.changes r.0)) else (r.0, false))
  delete_link_step code c (c', Rc.done) h =
      let (new, some_iff) = law.delete_link_done code c c' h in
      elim (Bool-cases (ltb 0 (e.changes c'))) [
        | inl t ↦ rw t (inl (refl, some_iff.0 (ground arith), new))
        | inr t ↦ rw t (inr (refl, inr (none_left code c c' some_iff.1 t, new)))
      ]
  delete_link_step code c (c', Rc.row) h =
      inr (refl, inl (law.delete_link_failed code c c' Rc.row h cc))
  delete_link_step code c (c', Rc.failed) h =
      inr (refl, inl (law.delete_link_failed code c c' Rc.failed h cc))

  -- On an engine that keeps the laws of SQLite, deleting a link reports success exactly where a
  -- row was removed, with its clicks; otherwise no link was there, or nothing has changed.
  pub delete_link-Deleted :
      (code : Bytes) (c : Conn) → Deleted e (c_str code) c (delete_link e code c)
  unfolding delete_link
  delete_link-Deleted code c = elim (Bool-cases (e.bind_text c (c_str code))) [
    | inr h ↦ rw h (inr (refl, inl refl))
    | inl h ↦ rw h (delete_link_step (c_str code) c (e.delete_link (c_str code) c) refl)
  ]
