-- ===== src/ChatService/Registration.antt =====
-- What `reg` does with a complete request.
use cluster_chat_server_soft.Prelude.{
  ◌≡◌, refl, some, [], ◌∷◌, ◌++◌, arith, inl, inr, if◌then◌else◌, Bool-cases,
}
use cluster_chat_server_soft.Prelude.Int.{negsuc}
use cluster_chat_server_soft.Prelude.Text.{Str, codes}
use cluster_chat_server_soft.External.Sql.{SqlServer}
use cluster_chat_server_soft.External.Redis.{RedisServer}
use cluster_chat_server_soft.External.Json.{JsonLib}
use cluster_chat_server_soft.Model.User.{User, default_user}
use cluster_chat_server_soft.Model.UserModel
use cluster_chat_server_soft.RedisClient.Commands
use cluster_chat_server_soft.ChatService.State.{TcpConnection, State, returned}
use cluster_chat_server_soft.ChatService.Protocol.{MsgId, response}
use cluster_chat_server_soft.ChatService.Session.{user_info_key, reg}

-- A request with the fields that `reg` reads.
pub record RegRequest ⦃json : JsonLib⦄ (js : json.Json) (name password : Str) : Type 0 where
  pub name_value : json.Json
  pub password_value : json.Json
  pub reads_name : json.subscript js (codes "name") ≡ some name_value
  pub reads_password : json.subscript js (codes "password") ≡ some password_value
  pub name_is : json.get_string name_value ≡ some name
  pub password_is : json.get_string password_value ≡ some password

module _ ⦃sql : SqlServer⦄ ⦃redis : RedisServer⦄ ⦃json : JsonLib⦄ where
  -- A complete `reg` returns with one response, on the connection: an error where the insertion
  -- failed, and otherwise an acknowledgement whose id is -1, whichever id the database gave the new
  -- user. The connections and members stay as they were.
  pub reg-answers :
      (conn : TcpConnection) (js : json.Json) (name password : Str) (s : State)
      → RegRequest js name password
      → let (m, inserted) =
          UserModel.insert (record default_user { name = name; password = password }) s.mysql in
        let answer =
          if inserted
          then json.assign (codes "id") (json.int (negsuc 0)) (response MsgId.reg_msg_ack 0)
          else response MsgId.reg_msg_ack 1 in
        (s' : State) × (reg conn js s ≡ returned s' tt)
        × (s'.sent ≡ s.sent ++ (conn.handle, json.dump answer) ∷ [])
        × (s'.mysql ≡ m)
        × (s'.user_conn_map ≡ s.user_conn_map)
        × (s'.group_members ≡ s.group_members)
  unfolding reg
  reg-answers conn js name password s q =
      let user : User = record default_user { name = name; password = password } in
      let (m, inserted) = UserModel.insert user s.mysql in
      let r = Commands.hset (user_info_key user.id) (codes "name") name s.redis in
      elim (Bool-cases inserted) [
        | inl ok ↦ (
          record s {
            mysql = m;
            redis = Commands.expire (user_info_key user.id) 86400 r;
            sent =
                s.sent
                ++ (
                  conn.handle,
                  json.dump (
                      json.assign (codes "id") (json.int (negsuc 0))
                        (response MsgId.reg_msg_ack 0)),
                )
                  ∷ [];
          },
          ground (arith, q.reads_name, q.name_is, q.reads_password, q.password_is),
          ground arith,
          refl,
          refl,
          refl,
        )
        | inr failed ↦ (
          record s {
            mysql = m;
            sent = s.sent ++ (conn.handle, json.dump (response MsgId.reg_msg_ack 1)) ∷ [];
          },
          ground (arith, q.reads_name, q.name_is, q.reads_password, q.password_is),
          ground arith,
          refl,
          refl,
          refl,
        )
      ]
