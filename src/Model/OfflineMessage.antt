-- ===== src/Model/OfflineMessage.antt =====
-- src/server/model/offlinemessage.cpp. The one-second sleeps are not in the model.
use cluster_chat_server_soft.Prelude.{
  ℕ, zero, suc, ◌+◌, Bool, true, false, Option, none, some, List, [], ◌∷◌, ◌++◌, ltb,
}
use cluster_chat_server_soft.Prelude.Int.{ℤ}
use cluster_chat_server_soft.Prelude.Text.{Str}
use cluster_chat_server_soft.External.{done, threw}
use cluster_chat_server_soft.External.Sql.{SqlServer, Update}
use cluster_chat_server_soft.MysqlPool.{get_connection, release_connection}
use cluster_chat_server_soft.Model.Connection.{Mysql, given_back, kept}

-- The database with `failedQueue_`, its front first.
pub record Offline (Db : Type 0) : Type 0 where
  pub mysql : Mysql Db
  pub failed_queue : List (ℤ × Str)

-- What the `try` block leaves: the database, the queue, and whether it reached `success = true`.
pub record Attempt (Db : Type 0) : Type 0 where
  pub db : Db
  pub queue : List (ℤ × Str)
  pub success : Bool

abbrev pub max_retries : ℕ
max_retries = 3

module _ ⦃sql : SqlServer⦄ where
  -- The `try` block: the queued messages, each popped once it is stored, and then the current one.
  unfoldable pub attempt : ℕ → ℤ → Str → List (ℤ × Str) → sql.Db → Attempt sql.Db
  attempt conn userid message [] db =
      elim (sql.execute_update conn (Update.insert_message userid message) db) [
        | done db' _ ↦ record { db = db'; queue = []; success = true }
        | threw db' ↦ record { db = db'; queue = []; success = false }
      ]
  attempt conn userid message ((u, queued) ∷ queue) db =
      elim (sql.execute_update conn (Update.insert_message u queued) db) [
        | done db' _ ↦ attempt conn userid message queue db'
        | threw db' ↦ record { db = db'; queue = (u, queued) ∷ queue; success = false }
      ]

  -- The `while` loop, and the push after it. Fuel counts its rounds; `none` is a loop that has not
  -- ended within them. An exception leaves `retryCount` as it was.
  unfoldable pub insert_loop : ℕ → ℕ → ℤ → Str → Offline sql.Db → Option (Offline sql.Db × Bool)
  unfolding get_connection release_connection attempt
  insert_loop zero retry_count userid message s = none
  insert_loop (suc fuel) retry_count userid message s = elim (ltb retry_count max_retries) [
    | false ↦ some (record s { failed_queue = s.failed_queue ++ (userid, message) ∷ [] }, false)
    | true ↦ elim (get_connection s.mysql.pool) [
      | none ↦ insert_loop fuel (retry_count + 1) userid message s
      | some (conn, rest) ↦
          let a = attempt conn userid message s.failed_queue s.mysql.db in
          let s' : Offline sql.Db = record {
            mysql = given_back a.db conn rest;
            failed_queue = a.queue;
          } in
          elim a.success [
            | true ↦ some (s', true)
            | false ↦ insert_loop fuel retry_count userid message s'
          ]
    ]
  ]

  -- `OfflineMessage::insert` with a bound on the rounds.
  unfoldable pub insert : ℕ → ℤ → Str → Offline sql.Db → Option (Offline sql.Db × Bool)
  unfolding insert_loop
  insert fuel = insert_loop fuel 0

  -- `OfflineMessage::remove`.
  unfoldable pub remove : ℤ → Mysql sql.Db → Mysql sql.Db × Bool
  unfolding get_connection release_connection
  remove userid m = elim (get_connection m.pool) [
    | none ↦ (m, false)
    | some (conn, rest) ↦ elim (sql.execute_update conn (Update.delete_messages userid) m.db) [
      | done db _ ↦ (given_back db conn rest, true)
      | threw db ↦ (kept db rest, false)
    ]
  ]

  -- `OfflineMessage::query`.
  unfoldable pub query : ℤ → Mysql sql.Db → Mysql sql.Db × List Str
  unfolding get_connection release_connection
  query userid m = elim (get_connection m.pool) [
    | none ↦ (m, [])
    | some (conn, rest) ↦ elim (sql.select_messages conn userid m.db) [
      | done db v ↦ (given_back db conn rest, v)
      | threw db ↦ (kept db rest, [])
    ]
  ]
