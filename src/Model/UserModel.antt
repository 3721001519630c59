-- ===== src/Model/UserModel.antt =====
-- src/server/model/usermodel.cpp.
use cluster_chat_server_soft.Prelude.{Bool, true, false, none, some, List, [], ◌∷◌}
use cluster_chat_server_soft.Prelude.Int.{ℤ, pos}
use cluster_chat_server_soft.External.{done, threw}
use cluster_chat_server_soft.External.Sql.{SqlServer, Update, UserRow}
use cluster_chat_server_soft.MysqlPool.{get_connection, release_connection}
use cluster_chat_server_soft.Model.User.{User, default_user}
use cluster_chat_server_soft.Model.Connection.{Mysql, given_back, kept}

module _ ⦃sql : SqlServer⦄ where
  -- `UserModel::insert`. It does not set the id of `user`.
  unfoldable pub insert : User → Mysql sql.Db → Mysql sql.Db × Bool
  unfolding get_connection release_connection
  insert user m = elim (get_connection m.pool) [
    | none ↦ (m, false)
    | some (conn, rest) ↦
        elim (sql.execute_update conn (Update.insert_user user.name user.password user.state)
          m.db) [ done db _ ↦ (given_back db conn rest, true) | threw db ↦ (kept db rest, false) ]
  ]

  abbrev first_user : List UserRow → User
  first_user [] = default_user
  first_user (r ∷ rows) = record {
    id = r.id;
    name = r.name;
    password = r.password;
    state = r.state;
  }

  -- `UserModel::query`. With no connection it says `return false`, and `false` converts to the id 0
  -- of `User(int id = -1, …)`.
  unfoldable pub query : ℤ → Mysql sql.Db → Mysql sql.Db × User
  unfolding get_connection release_connection
  query id m = elim (get_connection m.pool) [
    | none ↦ (m, record default_user { id = pos 0 })
    | some (conn, rest) ↦ elim (sql.select_user conn id m.db) [
      | done db rows ↦ (given_back db conn rest, first_user rows)
      | threw db ↦ (kept db rest, default_user)
    ]
  ]

  -- `UserModel::updateState`.
  unfoldable pub update_state : User → Mysql sql.Db → Mysql sql.Db
  unfolding get_connection release_connection
  update_state user m = elim (get_connection m.pool) [
    | none ↦ m
    | some (conn, rest) ↦
        elim (sql.execute_update conn (Update.set_state user.state user.id) m.db) [
          | done db _ ↦ given_back db conn rest
          | threw db ↦ kept db rest
        ]
  ]

  -- `UserModel::resetState`.
  unfoldable pub reset_state : Mysql sql.Db → Mysql sql.Db
  unfolding get_connection release_connection
  reset_state m = elim (get_connection m.pool) [
    | none ↦ m
    | some (conn, rest) ↦ elim (sql.execute_update conn Update.reset_states m.db) [
      | done db _ ↦ given_back db conn rest
      | threw db ↦ kept db rest
    ]
  ]
