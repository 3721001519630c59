-- ===== src/ChatService/Session.antt =====
-- `login`, `reg`, `loginOut`, `clientQuitEcption` and `reset` of chatservice.cpp.
use cluster_chat_server_soft.Prelude.{
  ℕ, Bool, true, false, ◌&&◌, ◌==◌, Option, none, some, List, [], ◌∷◌, ◌++◌, if◌then◌else◌,
}
use cluster_chat_server_soft.Prelude.Int.{ℤ, negsuc, eq_ℤ}
use cluster_chat_server_soft.Prelude.IntSet
use cluster_chat_server_soft.Prelude.IntMap.{insert_new, update, erase}
use cluster_chat_server_soft.Prelude.Text.{Str, codes, str_eq, to_string}
use cluster_chat_server_soft.External.Sql.{SqlServer}
use cluster_chat_server_soft.External.Redis.{RedisServer}
use cluster_chat_server_soft.External.Json.{JsonLib}
use cluster_chat_server_soft.Model.User.{User, Group, GroupUser, default_user}
use cluster_chat_server_soft.Model.UserModel
use cluster_chat_server_soft.Model.FriendModel
use cluster_chat_server_soft.Model.GroupModel
use cluster_chat_server_soft.RedisClient.Commands
use cluster_chat_server_soft.RedisClient.Subscriber.{
  subscribe_group_channel, unsubscribe_group_channel,
}
use cluster_chat_server_soft.ChatService.State.{
  TcpConnection, M, ◌>>=◌, ◌>>◌, pure, gets, send, on_mysql, on_redis, do_mysql, do_redis, do_subs,
  set_user_conn_map, set_group_members,
}
use cluster_chat_server_soft.ChatService.Protocol.{
  MsgId, response, with_text, int_field, string_field,
}

-- Erase `id` from each set of `groupMembers_`, with the groups whose set is empty afterwards.
unfoldable pub leave_groups : ℤ → List (ℤ × List ℤ) → List (ℤ × List ℤ)
leave_groups id [] = []
leave_groups id ((g, members) ∷ rest) = (g, IntSet.erase id members) ∷ leave_groups id rest

unfoldable pub emptied : List (ℤ × List ℤ) → List ℤ
emptied [] = []
emptied ((g, []) ∷ rest) = g ∷ emptied rest
emptied ((g, m ∷ members) ∷ rest) = emptied rest

-- The insertion of `id` if it is among the users of the group, as the loop of `login` makes it.
unfoldable pub add_if_listed : ℤ → List GroupUser → List ℤ → List ℤ
add_if_listed id [] members = members
add_if_listed id (user ∷ users) members =
    add_if_listed id users (if eq_ℤ user.id id then IntSet.insert id members else members)

-- The first entry that holds the connection; `none` where there is none.
unfoldable pub user_of : ℕ → List (ℤ × TcpConnection) → Option ℤ
user_of handle [] = none
user_of handle ((id, conn) ∷ m) = if conn.handle == handle then some id else user_of handle m

module _ ⦃sql : SqlServer⦄ ⦃redis : RedisServer⦄ ⦃json : JsonLib⦄ where
  abbrev pub state_text : Bool → Str
  state_text true = codes "online"
  state_text false = codes "offline"

  abbrev pub friend_text : User → Bool → Str
  friend_text user online = json.dump (
      with_text (codes "state") (state_text online) (
        with_text (codes "name") user.name
          (json.assign (codes "id") (json.int user.id) json.empty)))

  abbrev pub member_text : GroupUser → Bool → Str
  member_text user online = json.dump (
      with_text (codes "role") user.role (
        with_text (codes "state") (state_text online) (
          with_text (codes "name") user.name
            (json.assign (codes "id") (json.int user.id) json.empty))))

  abbrev pub group_text : Group → List Str → Str
  group_text group users = json.dump (
      json.assign (codes "users") (json.strings users) (
        with_text (codes "groupdesc") group.desc (
          with_text (codes "groupname") group.name
            (json.assign (codes "id") (json.int group.id) json.empty))))

  unfoldable pub render_friends : List User → M (List Str)
  render_friends [] = pure []
  render_friends (user ∷ users) = do
    online ← on_redis (Commands.is_user_online user.id)
    rest ← render_friends users
    pure (friend_text user online ∷ rest)

  unfoldable pub render_members : List GroupUser → M (List Str)
  render_members [] = pure []
  render_members (user ∷ users) = do
    online ← on_redis (Commands.is_user_online user.id)
    rest ← render_members users
    pure (member_text user online ∷ rest)

  abbrev pub friends_key : ℤ → Str
  friends_key id = codes "friends:" ++ to_string id

  -- The friend list. What a cached list parses to goes nowhere, so a hit adds nothing to the response.
  unfoldable pub add_friends : ℤ → List User → json.Json → M json.Json
  add_friends id [] r = pure r
  add_friends id (user ∷ users) r = do
    texts ← render_friends (user ∷ users)
    do_redis (Commands.set (friends_key id) (json.dump (json.strings texts)) 3600)
    pure (json.assign (codes "friends") (json.strings texts) r)

  unfoldable pub friends_from : ℤ → json.Json → Option Str → M json.Json
  friends_from id r (some cached) = pure r
  friends_from id r none = do friends ← on_mysql (FriendModel.query id); add_friends id friends r

  -- The loop over the groups.
  unfoldable pub enter_groups : ℤ → List Group → M (List Str)
  enter_groups id [] = pure []
  enter_groups id (group ∷ groups) = do
    users ← render_members group.users
    set_group_members (update group.id [] (add_if_listed id group.users))
    do_subs (subscribe_group_channel group.id)
    rest ← enter_groups id groups
    pure (group_text group users ∷ rest)

  unfoldable pub add_groups : ℤ → List Group → json.Json → M json.Json
  add_groups id [] r = pure r
  add_groups id (group ∷ groups) r = do
    texts ← enter_groups id (group ∷ groups)
    pure (json.assign (codes "groups") (json.strings texts) r)

  abbrev pub add_offline : List Str → json.Json → json.Json
  add_offline [] r = r
  add_offline (msg ∷ msgs) r = json.assign (codes "offlinemessage") (json.strings (msg ∷ msgs)) r

  abbrev pub login_ok : User → json.Json
  login_ok user =
      with_text (codes "name") user.name
        (json.assign (codes "id") (json.int user.id) (response MsgId.login_msg_ack 0))

  -- The successful branch of `login`. The log line asks Redis for the node.
  unfoldable pub enter : TcpConnection → ℤ → User → M (Unit {0})
  enter conn id user = do
    set_user_conn_map (insert_new id conn)
    node ← on_redis (Commands.get_user_node id)
    do_redis (Commands.set_user_online id conn.name)
    offline ← on_redis (Commands.pop_offline_messages id)
    cached ← on_redis (Commands.get (friends_key id))
    r ← friends_from id (add_offline offline (login_ok user)) cached
    groups ← on_mysql (GroupModel.query_groups id)
    r' ← add_groups id groups r
    send conn.handle (json.dump r')

  abbrev pub already_online : Str
  already_online =
      json.dump
        (with_text (codes "errormsg") (codes "该账号已经登陆，请重新输入账号") (response MsgId.login_msg_ack 2))

  abbrev pub wrong_password : Str
  wrong_password =
      json.dump (with_text (codes "errormsg") (codes "账号或密码输入错误") (response MsgId.login_msg_ack 1))

  unfoldable pub login : TcpConnection → json.Json → M (Unit {0})
  login conn js = do
    id ← int_field js (codes "id")
    pwd ← string_field js (codes "password")
    user ← on_mysql (UserModel.query id)
    if eq_ℤ user.id id && str_eq user.password pwd
        then (do
          online ← on_redis (Commands.is_user_online id)
          if online then send conn.handle already_online else enter conn id user)
        else send conn.handle wrong_password

  abbrev pub user_info_key : ℤ → Str
  user_info_key id = codes "user_info:" ++ to_string id

  unfoldable pub reg : TcpConnection → json.Json → M (Unit {0})
  reg conn js = do
    name ← string_field js (codes "name")
    password ← string_field js (codes "password")
    let user : User = record default_user { name = name; password = password }
    inserted ← on_mysql (UserModel.insert user)
    if inserted
        then (do
          do_redis (Commands.hset (user_info_key user.id) (codes "name") name)
          do_redis (Commands.expire (user_info_key user.id) 86400)
          send conn.handle (
              json.dump
                (json.assign (codes "id") (json.int user.id) (response MsgId.reg_msg_ack 0))))
        else send conn.handle (json.dump (response MsgId.reg_msg_ack 1))

  unfoldable pub unsubscribe_all : List ℤ → M (Unit {0})
  unsubscribe_all [] = pure tt
  unsubscribe_all (g ∷ gs) = do do_subs (unsubscribe_group_channel g); unsubscribe_all gs

  -- The loop over `groupMembers_` that `loginOut` and `clientQuitEcption` share. It queues the
  -- requests to unsubscribe between the removals; a request does not read `groupMembers_`, so the state
  -- after the loop is the one after all removals and then all requests.
  unfoldable pub leave_all_groups : ℤ → M (Unit {0})
  unfolding leave_groups emptied unsubscribe_all
  leave_all_groups id = do
    set_group_members (leave_groups id)
    gone ← gets (λ s. emptied s.group_members)
    unsubscribe_all gone

  -- `loginOut`, from the id on.
  unfoldable pub log_out : ℤ → M (Unit {0})
  unfolding leave_all_groups
  log_out id = do
    set_user_conn_map (erase id)
    do_redis (Commands.set_user_offline id)
    leave_all_groups id

  unfoldable pub login_out : json.Json → M (Unit {0})
  unfolding log_out
  login_out js = do id ← int_field js (codes "id"); log_out id

  -- `clientQuitEcption`. `User` starts with the id -1, which stands for "not found".
  unfoldable pub client_quit : TcpConnection → M (Unit {0})
  unfolding user_of log_out
  client_quit conn = do
    found ← gets (λ s. user_of conn.handle s.user_conn_map)
    elim found [
      | none ↦ pure tt
      | some id ↦ if eq_ℤ id (negsuc 0) then set_user_conn_map (erase id) else log_out id
    ]

  unfoldable pub reset : M (Unit {0})
  reset = do_mysql UserModel.reset_state
