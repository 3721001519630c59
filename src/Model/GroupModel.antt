-- ===== src/Model/GroupModel.antt =====
-- src/server/model/groupmodel.cpp.
use cluster_chat_server_soft.Prelude.{ℕ, none, some, List, [], ◌∷◌, map}
use cluster_chat_server_soft.Prelude.Int.{ℤ}
use cluster_chat_server_soft.Prelude.Text.{Str}
use cluster_chat_server_soft.External.{Outcome, done, threw}
use cluster_chat_server_soft.External.Sql.{SqlServer, Update, GroupRow, MemberRow}
use cluster_chat_server_soft.MysqlPool.{get_connection, release_connection}
use cluster_chat_server_soft.Model.User.{Group, GroupUser, default_group, default_group_user}
use cluster_chat_server_soft.Model.Connection.{Mysql, given_back, kept}

abbrev pub group_of_row : GroupRow → Group
group_of_row r = record default_group { id = r.id; name = r.groupname; desc = r.groupdesc }

abbrev pub member_of_row : MemberRow → GroupUser
member_of_row r = record default_group_user {
  id = r.id;
  name = r.name;
  state = r.state;
  role = r.role;
}

-- `if (res->next()) group.setId(res->getInt(1));`
abbrev pub with_last_id : List ℤ → Group → Group
with_last_id [] g = g
with_last_id (id ∷ ids) g = record g { id = id }

module _ ⦃sql : SqlServer⦄ where
  -- `GroupModel::createGroup`, with the group that it leaves in its reference argument.
  unfoldable pub create_group : Group → Mysql sql.Db → Mysql sql.Db × Group
  unfolding get_connection release_connection
  create_group group m = elim (get_connection m.pool) [
    | none ↦ (m, group)
    | some (conn, rest) ↦
        elim (sql.execute_update conn (Update.insert_group group.name group.desc) m.db) [
          | done db _ ↦ elim (sql.select_last_id conn db) [
            | done db' ids ↦ (given_back db' conn rest, with_last_id ids group)
            | threw db' ↦ (kept db' rest, group)
          ]
          | threw db ↦ (kept db rest, group)
        ]
  ]

  -- `GroupModel::joinGroup`.
  unfoldable pub join_group : ℤ → ℤ → Str → Mysql sql.Db → Mysql sql.Db
  unfolding get_connection release_connection
  join_group userid groupid role m = elim (get_connection m.pool) [
    | none ↦ m
    | some (conn, rest) ↦
        elim (sql.execute_update conn (Update.insert_member groupid userid role) m.db) [
          | done db _ ↦ given_back db conn rest
          | threw db ↦ kept db rest
        ]
  ]

  -- `it.setUsers(vGroupUsers)`: the copy of one group with its members.
  abbrev with_users : List MemberRow → Group → Group
  with_users rows it = record it { users = map member_of_row rows }

  -- The loop `for (Group it : vGroup)`: it sets the users of a copy of each group, and the copies are
  -- gone when it ends. They are kept here, for the caller to drop.
  unfoldable pub load_users : ℕ → List Group → sql.Db → Outcome sql.Db (List Group)
  load_users conn [] db = done db []
  load_users conn (it ∷ groups) db = elim (sql.select_members conn it.id db) [
    | done db' rows ↦ elim (load_users conn groups db') [
      | done db'' copies ↦ done db'' (with_users rows it ∷ copies)
      | threw db'' ↦ threw db''
    ]
    | threw db' ↦ threw db'
  ]

  -- `GroupModel::queryGroups`: it returns `vGroup`, not the copies.
  unfoldable pub query_groups : ℤ → Mysql sql.Db → Mysql sql.Db × List Group
  unfolding get_connection release_connection load_users
  query_groups userid m = elim (get_connection m.pool) [
    | none ↦ (m, [])
    | some (conn, rest) ↦ elim (sql.select_groups conn userid m.db) [
      | done db rows ↦ elim (load_users conn (map group_of_row rows) db) [
        | done db' copies ↦ (given_back db' conn rest, map group_of_row rows)
        | threw db' ↦ (kept db' rest, [])
      ]
      | threw db ↦ (kept db rest, [])
    ]
  ]

  -- `GroupModel::queryGroupUsers`.
  unfoldable pub query_group_users : ℤ → ℤ → Mysql sql.Db → Mysql sql.Db × List ℤ
  unfolding get_connection release_connection
  query_group_users userid groupid m = elim (get_connection m.pool) [
    | none ↦ (m, [])
    | some (conn, rest) ↦ elim (sql.select_other_members conn groupid userid m.db) [
      | done db ids ↦ (given_back db conn rest, ids)
      | threw db ↦ (kept db rest, [])
    ]
  ]
