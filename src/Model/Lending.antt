-- ===== src/Model/Lending.antt =====
-- No call of the model classes puts into the pool a connection that it did not take from it.
use cluster_chat_server_soft.Prelude.{
  ℕ, zero, suc, ◌≤◌, ◌≡◌, ◌+◌, Bool, none, some, [], ◌∷◌, arith, Option, Bool-cases, List-cases,
  inl, inr, ltb,
}
use cluster_chat_server_soft.Prelude.Int.{ℤ}
use cluster_chat_server_soft.Prelude.Text.{Str}
use cluster_chat_server_soft.External.Sql.{SqlServer}
use cluster_chat_server_soft.MysqlPool.{get_connection, release_connection}
use cluster_chat_server_soft.MysqlPool.Laws.{count, count-append}
use cluster_chat_server_soft.Model.User.{User, Group}
use cluster_chat_server_soft.Model.Connection.{Mysql, given_back}
use cluster_chat_server_soft.Model.UserModel
use cluster_chat_server_soft.Model.FriendModel
use cluster_chat_server_soft.Model.GroupModel
use cluster_chat_server_soft.Model.OfflineMessage
use cluster_chat_server_soft.Model.OfflineMessage.{Offline, attempt, max_retries}

-- How often the connection is free.
abbrev pub free : {Db : Type 0} → ℕ → Mysql Db → ℕ
free c m = count c m.pool.connections

-- No connection is free more often than before.
abbrev pub AddsNone : {Db : Type 0} → Mysql Db → Mysql Db → Type 0
AddsNone m m' = (c : ℕ) → free c m' ≤ free c m

module _ ⦃sql : SqlServer⦄ where
  pub user_insert-AddsNone :
      (user : User) (m : Mysql sql.Db) → AddsNone m (UserModel.insert user m).0
  unfolding UserModel.insert count
  user_insert-AddsNone user m c = grind (arith, count-append)

  pub user_query-AddsNone : (id : ℤ) (m : Mysql sql.Db) → AddsNone m (UserModel.query id m).0
  unfolding UserModel.query count
  user_query-AddsNone id m c = grind (arith, count-append)

  pub reset_state-AddsNone : (m : Mysql sql.Db) → AddsNone m (UserModel.reset_state m)
  unfolding UserModel.reset_state count
  reset_state-AddsNone m c = grind (arith, count-append)

  pub friend_insert-AddsNone :
      (userid friendid : ℤ) (m : Mysql sql.Db) → AddsNone m (FriendModel.insert userid friendid m)
  unfolding FriendModel.insert count
  friend_insert-AddsNone userid friendid m c = grind (arith, count-append)

  pub friend_query-AddsNone : (id : ℤ) (m : Mysql sql.Db) → AddsNone m (FriendModel.query id m).0
  unfolding FriendModel.query count
  friend_query-AddsNone id m c = ground arith

  pub create_group-AddsNone :
      (group : Group) (m : Mysql sql.Db) → AddsNone m (GroupModel.create_group group m).0
  unfolding GroupModel.create_group count
  create_group-AddsNone group m c = grind (arith, count-append)

  pub join_group-AddsNone :
      (userid groupid : ℤ) (role : Str) (m : Mysql sql.Db)
      → AddsNone m (GroupModel.join_group userid groupid role m)
  unfolding GroupModel.join_group count
  join_group-AddsNone userid groupid role m c = grind (arith, count-append)

  pub query_groups-AddsNone :
      (id : ℤ) (m : Mysql sql.Db) → AddsNone m (GroupModel.query_groups id m).0
  unfolding GroupModel.query_groups count
  query_groups-AddsNone id m c = grind (arith, count-append)

  pub query_group_users-AddsNone :
      (userid groupid : ℤ) (m : Mysql sql.Db)
      → AddsNone m (GroupModel.query_group_users userid groupid m).0
  unfolding GroupModel.query_group_users count
  query_group_users-AddsNone userid groupid m c = grind (arith, count-append)

  -- What the loop comes to from `s`.
  abbrev EndsLending : Offline sql.Db → Option (Offline sql.Db × Bool) → Type 0
  EndsLending s none = Unit
  EndsLending s (some (s', ok)) = AddsNone s.mysql s'.mysql

  weaken :
      (s t : Offline sql.Db) (o : Option (Offline sql.Db × Bool))
      → AddsNone s.mysql t.mysql
      → EndsLending t o
      → EndsLending s o
  weaken s t none h k = tt
  weaken s t (some (s', ok)) h k = λ c. omega (arith, h c, k c)

  insert_loop-EndsLending :
      (fuel retry_count : ℕ) (userid : ℤ) (message : Str) (s : Offline sql.Db)
      → EndsLending s (OfflineMessage.insert_loop fuel retry_count userid message s)
  unfolding OfflineMessage.insert_loop get_connection release_connection count
  insert_loop-EndsLending zero retry_count userid message s = tt
  insert_loop-EndsLending (suc fuel) retry_count userid message s =
      elim (Bool-cases (ltb retry_count max_retries)) [
        | inr over ↦ rw (over, OfflineMessage.insert_loop, EndsLending) λ c. ground arith
        | inl left ↦ elim (List-cases s.mysql.pool.connections) [
          | inl e ↦
              let again : OfflineMessage.insert_loop (suc fuel) retry_count userid message s
                  ≡ OfflineMessage.insert_loop fuel (retry_count + 1) userid message s =
                ground arith in
              rw again (insert_loop-EndsLending fuel (retry_count + 1) userid message s)
          | inr (conn, rest, e) ↦
              let a = attempt conn userid message s.failed_queue s.mysql.db in
              let t : Offline sql.Db = record {
                mysql = given_back a.db conn (record s.mysql.pool { connections = rest });
                failed_queue = a.queue;
              } in
              let adds : AddsNone s.mysql t.mysql =
                λ c. ground (arith, count-append c rest (conn ∷ [])) in
              elim (Bool-cases a.success) [
                | inl ok ↦ rw (left, e, ok, OfflineMessage.insert_loop, EndsLending) adds
                | inr failed ↦
                    let again : OfflineMessage.insert_loop (suc fuel) retry_count userid message s
                        ≡ OfflineMessage.insert_loop fuel retry_count userid message t =
                      ground arith in
                    let rest' = insert_loop-EndsLending fuel retry_count userid message t in
                    rw again (weaken s t _ adds rest')
              ]
        ]
      ]

  pub insert-AddsNone :
      (fuel : ℕ) (userid : ℤ) (message : Str) (s s' : Offline sql.Db) (ok : Bool)
      → OfflineMessage.insert fuel userid message s ≡ some (s', ok)
      → AddsNone s.mysql s'.mysql
  unfolding OfflineMessage.insert
  insert-AddsNone fuel userid message s s' ok e =
      rw (e, EndsLending) at (insert_loop-EndsLending fuel 0 userid message s)
