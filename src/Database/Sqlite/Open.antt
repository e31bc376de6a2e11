-- ===== src/Database/Sqlite/Open.antt =====
-- src/database/sqlite_database.cc: `initialize`, `create_tables` and `prepare_statements`.
use bit_link.Prelude.{◌++◌, [], ◌∷◌, List, Bool, true, false, if◌then◌else◌}
use bit_link.Str.{Bytes, codes, is_empty}
use bit_link.Database.Sqlite.{Engine, c_str}

unfoldable pub create_links_table : Bytes
create_links_table =
    codes "\n"
    ++ (codes "        CREATE TABLE IF NOT EXISTS links (\n"
        ++ (codes "            code TEXT PRIMARY KEY,\n"
            ++ (codes "            destination TEXT NOT NULL,\n"
                ++ (codes "            type TEXT NOT NULL CHECK (type IN ('url', 'file')),\n"
                    ++ (codes "            created_at INTEGER NOT NULL\n"
                        ++ (codes "        )\n" ++ (codes "    ")))))))

unfoldable pub create_clicks_table : Bytes
create_clicks_table =
    codes "\n"
    ++ (codes "        CREATE TABLE IF NOT EXISTS clicks (\n"
        ++ (codes "            id INTEGER PRIMARY KEY AUTOINCREMENT,\n"
            ++ (codes "            code TEXT NOT NULL,\n"
                ++ (codes "            ip_truncated TEXT,\n"
                    ++ (codes "            user_agent TEXT,\n"
                        ++ (codes "            referrer TEXT,\n"
                            ++ (codes "            timestamp INTEGER NOT NULL,\n"
                                ++ (codes
                                      "            FOREIGN KEY (code) REFERENCES links(code) ON DELETE CASCADE\n"
                                    ++ (codes "        )\n" ++ (codes "    "))))))))))

unfoldable pub create_indexes : Bytes
create_indexes =
    codes "\n"
    ++ (codes "        CREATE INDEX IF NOT EXISTS idx_clicks_code ON clicks(code);\n"
        ++ (codes "        CREATE INDEX IF NOT EXISTS idx_clicks_timestamp ON clicks(timestamp);\n"
            ++ (codes "        CREATE INDEX IF NOT EXISTS idx_links_created ON links(created_at);\n"
                ++ (codes "    "))))

unfoldable pub insert_link_sql : Bytes
insert_link_sql =
    codes "INSERT INTO links (code, destination, type, created_at) VALUES (?, ?, ?, ?)"

unfoldable pub get_link_sql : Bytes
get_link_sql = codes "SELECT code, destination, type, created_at FROM links WHERE code = ?"

unfoldable pub code_exists_sql : Bytes
code_exists_sql = codes "SELECT 1 FROM links WHERE code = ? LIMIT 1"

unfoldable pub delete_link_sql : Bytes
delete_link_sql = codes "DELETE FROM links WHERE code = ?"

unfoldable pub insert_click_sql : Bytes
insert_click_sql =
    codes
      "INSERT INTO clicks (code, ip_truncated, user_agent, referrer, timestamp) VALUES (?, ?, ?, ?, ?)"

unfoldable pub get_stats_sql : Bytes
get_stats_sql =
    codes "\n"
    ++ (codes "        SELECT \n"
        ++ (codes "            COUNT(*) as total_clicks,\n"
            ++ (codes "            MAX(timestamp) as last_accessed\n"
                ++ (codes "        FROM clicks \n"
                    ++ (codes "        WHERE code = ?\n" ++ (codes "    "))))))

unfoldable pub get_recent_clicks_sql : Bytes
get_recent_clicks_sql =
    codes "\n"
    ++ (codes "        SELECT code, ip_truncated, user_agent, referrer, timestamp \n"
        ++ (codes "        FROM clicks \n"
            ++ (codes "        WHERE code = ? \n"
                ++ (codes "        ORDER BY timestamp DESC \n"
                    ++ (codes "        LIMIT ?\n" ++ (codes "    "))))))

module _ (e : Engine) where
  open e use {Conn, exec, prepare}

  -- Calls one after another, each on one of the texts, up to the first that fails.
  unfoldable pub run_in_order : (Bytes → Conn → Conn × Bool) → List Bytes → Conn → Conn × Bool
  run_in_order call [] c = (c, true)
  run_in_order call (sql ∷ sqls) c =
      let (c', succeeded) = call sql c in
      let rest = run_in_order call sqls c' in if succeeded then rest else (c', false)

  unfoldable pub create_tables : Conn → Conn × Bool
  create_tables = run_in_order exec (create_links_table ∷ create_clicks_table ∷ create_indexes ∷ [])

  unfoldable pub prepare_statements : Conn → Conn × Bool
  prepare_statements = run_in_order prepare (
      insert_link_sql ∷ get_link_sql ∷ code_exists_sql ∷ delete_link_sql ∷ insert_click_sql
      ∷ get_stats_sql ∷ get_recent_clicks_sql ∷ [])

  -- The steps behind the opening of the file.
  unfoldable pub set_up : Conn → Conn × Bool
  set_up c =
      let (c', configured) =
        run_in_order exec
          (codes "PRAGMA foreign_keys = ON;" ∷ codes "PRAGMA journal_mode = WAL;" ∷ []) c in
      let (c'', created) = create_tables c' in
      let prepared = prepare_statements c'' in
      if configured then (if created then prepared else (c'', false)) else (c', false)

  unfoldable pub initialize : Bytes → Conn → Conn × Bool
  initialize db_path c =
      let (c', opened) = e.connect (c_str db_path) c in
      if is_empty db_path then (c, false) else (if opened then set_up c' else (c', false))
