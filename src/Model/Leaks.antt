-- ===== src/Model/Leaks.antt =====
-- How many connections the pool holds after a call of the model classes.
use cluster_chat_server_soft.Prelude.{
  ℕ, ◌-◌, ◌≤◌, ◌≡◌, false, List, [], ◌∷◌, arith, length, length-append, if◌then◌else◌,
}
use cluster_chat_server_soft.Prelude.Int.{ℤ, pos}
use cluster_chat_server_soft.External.Sql.{SqlServer}
use cluster_chat_server_soft.Model.User.{User, Group, default_user}
use cluster_chat_server_soft.Model.Connection.{Mysql}
use cluster_chat_server_soft.Model.UserModel
use cluster_chat_server_soft.Model.FriendModel
use cluster_chat_server_soft.Model.GroupModel

abbrev pub size : {Db : Type 0} → Mysql Db → ℕ
size m = length m.pool.connections

module _ ⦃sql : SqlServer⦄ where
  -- `UserModel::insert` keeps the number of free connections where it reports success, and where it
  -- reports failure the pool is one connection smaller, or was empty already.
  pub insert-size :
      (user : User) (m : Mysql sql.Db)
      → let (m', ok) = UserModel.insert user m in size m' ≡ (if ok then size m else size m - 1)
  unfolding UserModel.insert
  insert-size user m = grind (arith, length-append)

  -- Every `FriendModel::query` takes one connection out of the pool for good, whether the statement
  -- succeeds or throws, unless the pool is empty.
  pub query-size :
      (userid : ℤ) (m : Mysql sql.Db) → size (FriendModel.query userid m).0 ≡ size m - 1
  unfolding FriendModel.query
  query-size userid m = ground arith

  -- The state after friend queries by these users.
  unfoldable pub queries : List ℤ → Mysql sql.Db → Mysql sql.Db
  queries [] m = m
  queries (id ∷ ids) m = queries ids (FriendModel.query id m).0

  queries-size : (ids : List ℤ) (m : Mysql sql.Db) → size (queries ids m) ≡ size m - length ids
  unfolding queries
  queries-size [] m = omega arith
  queries-size (id ∷ ids) m =
      omega (arith, queries-size ids (FriendModel.query id m).0, query-size id m)

  -- Once as many friend queries were made as there were free connections, the calls of the model
  -- classes fail without reaching the database and leave the pool empty: a registration is refused, a
  -- user is not found and reads as `User(0)`, friends, groups and members read as none, and a new group
  -- keeps its id.
  pub queries_starve :
      (ids : List ℤ) (m : Mysql sql.Db)
      → size m ≤ length ids
      → (user : User) (group : Group) (id groupid : ℤ)
      → let m' = queries ids m in
        (UserModel.insert user m' ≡ (m', false))
        × (UserModel.query id m' ≡ (m', record default_user { id = pos 0 }))
        × (FriendModel.query id m' ≡ (m', []))
        × (GroupModel.query_groups id m' ≡ (m', []))
        × (GroupModel.query_group_users id groupid m' ≡ (m', []))
        × (GroupModel.create_group group m' ≡ (m', group))
  unfolding UserModel.insert UserModel.query FriendModel.query GroupModel.query_groups
      GroupModel.query_group_users GroupModel.create_group
  queries_starve ids m h user group id groupid =
      let e : size (queries ids m) ≡ 0 = omega (arith, queries-size ids m) in
      (ground arith, ground arith, ground arith, ground arith, ground arith, ground arith)
