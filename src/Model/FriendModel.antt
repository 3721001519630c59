-- ===== src/Model/FriendModel.antt =====
-- src/server/model/friendmodel.cpp.
use cluster_chat_server_soft.Prelude.{none, some, List, [], map, if◌then◌else◌}
use cluster_chat_server_soft.Prelude.Int.{ℤ, ltb_ℤ}
use cluster_chat_server_soft.External.{done, threw}
use cluster_chat_server_soft.External.Sql.{SqlServer, Update, FriendRow}
use cluster_chat_server_soft.MysqlPool.{get_connection, release_connection}
use cluster_chat_server_soft.Model.User.{User, default_user}
use cluster_chat_server_soft.Model.Connection.{Mysql, given_back, kept}

-- The row of a friendship: the smaller id first.
unfoldable pub friend_row : ℤ → ℤ → Update
friend_row userid friendid =
    if ltb_ℤ userid friendid
    then Update.insert_friend userid friendid
    else Update.insert_friend friendid userid

abbrev pub friend_of_row : FriendRow → User
friend_of_row r = record default_user { id = r.id; name = r.name; state = r.state }

module _ ⦃sql : SqlServer⦄ where
  -- `FriendModel::insert`.
  unfoldable pub insert : ℤ → ℤ → Mysql sql.Db → Mysql sql.Db
  unfolding get_connection release_connection friend_row
  insert userid friendid m = elim (get_connection m.pool) [
    | none ↦ m
    | some (conn, rest) ↦ elim (sql.execute_update conn (friend_row userid friendid) m.db) [
      | done db _ ↦ given_back db conn rest
      | threw db ↦ kept db rest
    ]
  ]

  -- `FriendModel::query`. It has no call of `releaseConnection`.
  unfoldable pub query : ℤ → Mysql sql.Db → Mysql sql.Db × List User
  unfolding get_connection
  query userid m = elim (get_connection m.pool) [
    | none ↦ (m, [])
    | some (conn, rest) ↦ elim (sql.select_friends conn userid m.db) [
      | done db rows ↦ (kept db rest, map friend_of_row rows)
      | threw db ↦ (kept db rest, [])
    ]
  ]
