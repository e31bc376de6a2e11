-- ===== src/Tests/Links.antt =====
-- An engine that keeps the tables in memory: every law of SQLite that is relied on can hold.
use bit_link.Prelude.{
  ℕ, ◌<◌, ◌≡◌, ◌≢◌, ◌↔◌, refl, sym, ap, subst, [], ◌∷◌, List, Option, none, some, true,
  if◌then◌else◌, ltb, take, arith, length,
}
use bit_link.Str.{Bytes, codes, str_eq}
use bit_link.Models.{LinkData, ClickRecord}
use bit_link.Database.{Database, IsLinkTable}
use bit_link.Database.Sqlite.Tables.{
  TableData, find_link, remove_links, remove_clicks, Rc, done, failed, Answer, found, no_row, error,
}
use bit_link.Database.Sqlite.{Engine, c_str}
use bit_link.Database.Sqlite.Laws.{IsSqlite}
use bit_link.Database.Sqlite.Interface.{
  sqlite_database, stored, Answers, sqlite_database-IsLinkTable,
}

-- The tables, and the number of rows that the last statement changed.
abbrev pub Memory : Type 0
Memory = TableData × ℕ

abbrev insert_answer : LinkData → Memory → Option LinkData → Memory × Rc
insert_answer l c none = ((record c.0 { links = l ∷ c.0.links }, 1), done)
insert_answer l c (some _) = (c, failed)

abbrev select_answer : Option LinkData → Answer LinkData
select_answer none = no_row
select_answer (some l) = found l

abbrev code_answer : Option LinkData → Answer (Unit {0})
code_answer none = no_row
code_answer (some l) = found tt

abbrev count_deleted : Option LinkData → ℕ
count_deleted none = 0
count_deleted (some l) = 1

abbrev clicks_of : Bytes → List ClickRecord → List ClickRecord
clicks_of c [] = []
clicks_of c (r ∷ rs) = if str_eq r.code c then r ∷ clicks_of c rs else clicks_of c rs

abbrev latest : List ClickRecord → ℕ
latest [] = 0
latest (r ∷ rs) = if ltb (latest rs) r.timestamp then r.timestamp else latest rs

abbrev pub memory_engine : Engine
memory_engine = record {
  Conn = Memory;
  tables = λ c. c.0;
  now = λ c. 1700000000;
  connect = λ path c. (c, true);
  exec = λ sql c. (c, true);
  prepare = λ sql c. (c, true);
  bind_text = λ c s. true;
  bind_int = λ c n. true;
  insert_link = λ l c. insert_answer l c (find_link l.code c.0.links);
  select_link = λ code c. select_answer (find_link code c.0.links);
  select_code = λ code c. code_answer (find_link code c.0.links);
  delete_link = λ code c. (
    (
      record { links = remove_links code c.0.links; clicks = remove_clicks code c.0.clicks },
      count_deleted (find_link code c.0.links),
    ),
    done,
  );
  changes = λ c. c.1;
  insert_click = λ r c. ((record c.0 { clicks = r ∷ c.0.clicks }, 1), done);
  select_stats =
      λ code c. found (length (clicks_of code c.0.clicks), latest (clicks_of code c.0.clicks));
  select_daily = λ code c. some [];
  select_recent = λ code n c. (take n (clicks_of code c.0.clicks), done);
}

insert_answer_done :
    (l : LinkData) (c c' : Memory) (o : Option LinkData)
    → insert_answer l c o ≡ (c', done)
    → (o ≡ none) × (c'.0 ≡ record c.0 { links = l ∷ c.0.links })
insert_answer_done l c c' none e = (refl, ap (λ (q : Memory × Rc). q.0.0) (sym e))
insert_answer_done l c c' (some x) e = cc

insert_answer_failed :
    (l : LinkData) (c c' : Memory) (o : Option LinkData) (rc : Rc)
    → insert_answer l c o ≡ (c', rc)
    → rc ≢ done
    → c'.0 ≡ c.0
insert_answer_failed l c c' none rc e ne = absurd (ne (ap (λ (q : Memory × Rc). q.1) (sym e)))
insert_answer_failed l c c' (some x) rc e ne = ap (λ (q : Memory × Rc). q.0.0) (sym e)

select_answer_found : (o : Option LinkData) (l : LinkData) → select_answer o ≡ found l → o ≡ some l
select_answer_found none l e = cc
select_answer_found (some x) l e = cc

select_answer_no_row : (o : Option LinkData) → select_answer o ≡ no_row → o ≡ none
select_answer_no_row none e = refl
select_answer_no_row (some x) e = cc

select_answer-ne-error : (o : Option LinkData) → select_answer o ≢ error
select_answer-ne-error none e = cc
select_answer-ne-error (some l) e = cc

count_deleted_pos : (o : Option LinkData) → (0 < count_deleted o) ↔ (o ≢ none)
count_deleted_pos none = (λ h. omega arith, λ h. absurd (h refl))
count_deleted_pos (some x) = (λ h. λ e. cc, λ h. omega arith)

pub memory_engine-IsSqlite : IsSqlite memory_engine
memory_engine-IsSqlite = record {
  insert_link_done = λ l c c' e. insert_answer_done l c c' (find_link l.code c.0.links) e;
  insert_link_failed =
      λ l c c' rc e ne. insert_answer_failed l c c' (find_link l.code c.0.links) rc e ne;
  select_link_found = λ code c l e. select_answer_found (find_link code c.0.links) l e;
  select_link_no_row = λ code c e. select_answer_no_row (find_link code c.0.links) e;
  delete_link_done = λ code c c' e. (
    ap (λ (q : Memory × Rc). q.0.0) (sym e),
    subst (λ n. (0 < n) ↔ (find_link code c.0.links ≢ none)) (ap (λ (q : Memory × Rc). q.0.1) e)
        (count_deleted_pos (find_link code c.0.links)),
  );
  delete_link_failed = λ code c c' rc e ne. absurd (ne (ap (λ (q : Memory × Rc). q.1) (sym e)));
  insert_click_links = λ r c. refl;
}

-- The engine in memory answers every query.
pub memory_engine-Answers : (c : Bytes) (s : Memory) → Answers memory_engine c s
memory_engine-Answers c s = (refl, select_answer-ne-error (find_link (c_str c) s.0.links))

abbrev pub memory_db : Database
memory_db = sqlite_database memory_engine

abbrev pub no_links : Memory
no_links = (record { links = []; clicks = [] }, 0)

abbrev pub link_a : LinkData
link_a = record {
  code = codes "a";
  destination = codes "https://x.org/";
  kind = codes "url";
  created = 7;
}

abbrev pub one_link : Memory
one_link = (record { links = link_a ∷ []; clicks = [] }, 1)

sqlite_database-IsLinkTable_example :
    IsLinkTable memory_db (stored memory_engine) (Answers memory_engine)
sqlite_database-IsLinkTable_example =
    sqlite_database-IsLinkTable memory_engine memory_engine-IsSqlite
