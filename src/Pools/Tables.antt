-- ===== src/Pools/Tables.antt =====
-- `ConnectionWrapper::createTableIfNotExists` of `include/Thread_pool/ConnectionPool.h`. The database
-- and the statements on it are a parameter: `W` is the database, and each statement answers whether
-- it went well.
use Prim.Native.String.{String}
use net_way.Prelude.{arith, ◌≡◌, Bool, true, false, List, [], ◌∷◌, if◌then◌else◌}

pub record Database (W : Type 0) : Type 0 where
  pub begin_transaction : W → Bool × W
  pub commit_transaction : W → Bool × W
  pub rollback_transaction : W → Bool × W
  pub execute : String → W → Bool × W

abbrev pub create_table_sql : String
create_table_sql =
    "CREATE TABLE IF NOT EXISTS cache (id INTEGER PRIMARY KEY AUTOINCREMENT,timestamp INTEGER NOT NULL,tag_name TEXT NOT NULL,value REAL NOT NULL,raw_metric TEXT NOT NULL,status INTEGER DEFAULT 0,retry_count INTEGER DEFAULT 0,last_attempt_time INTEGER,created_at INTEGER DEFAULT (strftime('%s', 'now')),updated_at INTEGER DEFAULT (strftime('%s', 'now')))"

abbrev pub timestamp_index_sql : String
timestamp_index_sql = "CREATE INDEX IF NOT EXISTS idx_timestamp ON cache(timestamp)"

abbrev pub tag_name_index_sql : String
tag_name_index_sql = "CREATE INDEX IF NOT EXISTS idx_tagname ON cache(tag_name)"

abbrev pub status_index_sql : String
status_index_sql =
    "CREATE INDEX  IF NOT EXISTS idx_cache_status_created ON cache(status, created_at)"

module _ {W : Type 0} (db : Database W) where
  -- `if (success) { if (!execute(...)) success = false; }`
  unfoldable pub execute_if : Bool → String → W → Bool × W
  execute_if success sql w =
      let (done, w1) = db.execute sql w in
      if success then (if done then (true, w1) else (false, w1)) else (false, w)

  unfoldable pub create_table_if_not_exists : W → Bool × W
  unfolding execute_if
  create_table_if_not_exists w =
      let (begun, w0) = db.begin_transaction w in
      let (created, w1) = execute_if true create_table_sql w0 in
      let (by_time, w2) = execute_if created timestamp_index_sql w1 in
      let (by_tag, w3) = execute_if by_time tag_name_index_sql w2 in
      let (by_status, w4) = execute_if by_tag status_index_sql w3 in db.commit_transaction w4

  -- The statements up to and with the first that fails.
  abbrev pub until_failure : List String → W → W
  until_failure [] w = w
  until_failure (sql ∷ rest) w =
      let (done, w1) = db.execute sql w in
      let rest_done = until_failure rest w1 in if done then rest_done else w1

  -- A failure is committed: `createTableIfNotExists` executes its statements up to the first that
  -- fails, and then commits what was done until then and answers what the commit answers, also when
  -- the transaction did not begin; it never rolls back.
  pub failure_is_committed :
      (w : W)
      → create_table_if_not_exists w
        ≡ db.commit_transaction (
            until_failure
              (create_table_sql ∷ timestamp_index_sql ∷ tag_name_index_sql ∷ status_index_sql ∷ [])
              (db.begin_transaction w).1)
  unfolding create_table_if_not_exists execute_if
  failure_is_committed w = ground arith
