-- ===== src/ChatService/Inbox.antt =====
-- The inbox callback that the constructor of `ChatService` registers, for messages that Redis hands to
-- this node; and `ChatServer::onMessage` and `onConnection` of src/server/chatserver.cpp with
-- `getHandler`. `mapped` is the map of handlers that the constructor fills.
use cluster_chat_server_soft.Prelude.{
  ℕ, Bool, true, false, Option, none, some, List, [], ◌∷◌, ◌++◌, if◌then◌else◌,
}
use cluster_chat_server_soft.Prelude.Int.{ℤ, eq_ℤ}
use cluster_chat_server_soft.Prelude.IntMap.{lookup}
use cluster_chat_server_soft.Prelude.Text.{Str, codes}
use cluster_chat_server_soft.External.Sql.{SqlServer}
use cluster_chat_server_soft.External.Redis.{RedisServer}
use cluster_chat_server_soft.External.Json.{JsonLib}
use cluster_chat_server_soft.RedisClient.Commands
use cluster_chat_server_soft.ChatService.State.{
  TcpConnection, State, M, returned, threw, running, ◌>>=◌, ◌>>◌, pure, gets, or_raise, send,
  do_redis, insert_offline,
}
use cluster_chat_server_soft.ChatService.Protocol.{
  MsgId, msg_id, login_msg, login_msg_ack, login_out_msg, reg_msg, reg_msg_ack, one_chat_msg,
  add_friend_msg, create_group_msg, join_group_msg, group_chat_msg, one_chat_msg_ack, int_field,
}
use cluster_chat_server_soft.ChatService.Chat
use cluster_chat_server_soft.ChatService.Session
use cluster_chat_server_soft.ChatService.Groups

-- `j.dump() + "\n"`
abbrev pub line : Str → Str
line text = text ++ 10 ∷ []

-- What the loop over the local members of a group sends: one line to each that is connected.
unfoldable pub fan_out : List (ℤ × TcpConnection) → Str → List ℤ → List (ℕ × Str)
fan_out conns text [] = []
fan_out conns text (uid ∷ uids) = elim (lookup uid conns) [
  | none ↦ fan_out conns text uids
  | some conn ↦ (conn.handle, line text) ∷ fan_out conns text uids
]

-- The ids that the constructor registers a handler for.
abbrev pub mapped : List MsgId
mapped =
    login_msg ∷ login_out_msg ∷ reg_msg ∷ one_chat_msg ∷ add_friend_msg ∷ create_group_msg
    ∷ join_group_msg ∷ group_chat_msg ∷ []

unfoldable pub find_handler : List MsgId → ℤ → Option MsgId
unfolding msg_id
find_handler [] msgid = none
find_handler (h ∷ hs) msgid = if eq_ℤ (msg_id h) msgid then some h else find_handler hs msgid

module _ ⦃sql : SqlServer⦄ ⦃redis : RedisServer⦄ ⦃json : JsonLib⦄ where
  unfoldable pub forward : ℕ → ℤ → Str → Option TcpConnection → M (Unit {0})
  forward fuel to text (some conn) = send conn.handle (line text)
  forward fuel to text none = do
    insert_offline fuel to text
    do_redis (Commands.push_offline_message to text)

  unfoldable pub broadcast : Str → Option (List ℤ) → M (Unit {0})
  unfolding fan_out
  broadcast text none s = returned s tt
  broadcast text (some uids) s =
      returned (record s { sent = s.sent ++ fan_out s.user_conn_map text uids }) tt

  unfoldable pub inbox_callback : ℕ → json.Json → M (Unit {0})
  unfolding forward broadcast
  inbox_callback fuel j =
      if json.contains j (codes "to")
      then (do
        to ← int_field j (codes "to")
        conn ← gets (λ s. lookup to s.user_conn_map)
        forward fuel to (json.dump j) conn)
      else if json.contains j (codes "groupid")
      then (do
        groupid ← int_field j (codes "groupid")
        uids ← gets (λ s. lookup groupid s.group_members)
        broadcast (json.dump j) uids)
      else pure tt

  -- The subscriber's `on_message` with `dispatchMessageToLocal`: `registered` says whether
  -- `setInboxCallback` was called, and an exception is logged. `none`: the callback has not returned.
  unfoldable pub on_channel_message : Bool → ℕ → Str → State → Option State
  unfolding inbox_callback
  on_channel_message registered fuel msg s = elim (json.parse msg) [
    | none ↦ some s
    | some j ↦ elim (if registered then inbox_callback fuel j s else returned s tt) [
      | returned s' _ ↦ some s'
      | threw s' ↦ some s'
      | running ↦ none
    ]
  ]

  unfoldable pub handle : ℕ → TcpConnection → json.Json → Option MsgId → M (Unit {0})
  handle fuel conn js none = pure tt
  handle fuel conn js (some login_msg) = Session.login conn js
  handle fuel conn js (some login_out_msg) = Session.login_out js
  handle fuel conn js (some reg_msg) = Session.reg conn js
  handle fuel conn js (some one_chat_msg) = Chat.one_chat fuel conn js
  handle fuel conn js (some add_friend_msg) = Chat.add_friend js
  handle fuel conn js (some create_group_msg) = Groups.create_group js
  handle fuel conn js (some join_group_msg) = Groups.join_group js
  handle fuel conn js (some group_chat_msg) = Groups.group_chat js
  handle fuel conn js (some login_msg_ack) = pure tt
  handle fuel conn js (some reg_msg_ack) = pure tt
  handle fuel conn js (some one_chat_msg_ack) = pure tt

  -- The `try` block of `ChatServer::onMessage`.
  unfoldable pub dispatch : ℕ → TcpConnection → Str → M (Unit {0})
  unfolding find_handler handle
  dispatch fuel conn buf = do
    js ← or_raise (json.parse buf)
    msgid ← int_field js (codes "msgid")
    handle fuel conn js (find_handler mapped msgid)

  -- `ChatServer::onMessage`: an exception is logged, and what was done before it stays. `none`: the
  -- handler has not returned.
  unfoldable pub on_message : ℕ → TcpConnection → Str → State → Option State
  unfolding dispatch
  on_message fuel conn buf s = elim (dispatch fuel conn buf s) [
    | returned s' _ ↦ some s'
    | threw s' ↦ some s'
    | running ↦ none
  ]

  -- `ChatServer::onConnection`.
  unfoldable pub on_connection : TcpConnection → Bool → State → Option State
  on_connection conn true s = some s
  on_connection conn false s = elim (Session.client_quit conn s) [
    | returned s' _ ↦ some s'
    | threw s' ↦ some s'
    | running ↦ none
  ]
