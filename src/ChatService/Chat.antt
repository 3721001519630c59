-- ===== src/ChatService/Chat.antt =====
-- `ChatService::oneChat` (chatservice.cpp, the live version), and `addFriend`.
use cluster_chat_server_soft.Prelude.{ℕ, not, ◌||◌, Option, none, some, if◌then◌else◌}
use cluster_chat_server_soft.Prelude.Int.{ℤ}
use cluster_chat_server_soft.Prelude.IntMap.{lookup}
use cluster_chat_server_soft.Prelude.Text.{Str, codes}
use cluster_chat_server_soft.External.Sql.{SqlServer}
use cluster_chat_server_soft.External.Redis.{RedisServer}
use cluster_chat_server_soft.External.Json.{JsonLib}
use cluster_chat_server_soft.Model.FriendModel
use cluster_chat_server_soft.Model.Friendship.{has_friend}
use cluster_chat_server_soft.ChatService.State.{
  TcpConnection, M, ◌>>=◌, ◌>>◌, pure, gets, send, on_mysql, do_mysql, insert_offline,
}
use cluster_chat_server_soft.ChatService.Protocol.{MsgId, response, with_text, int_field, is_blank}

module _ ⦃sql : SqlServer⦄ ⦃redis : RedisServer⦄ ⦃json : JsonLib⦄ where
  abbrev pub missing_fields : Str
  missing_fields = json.dump (
      with_text (codes "errormsg") (codes "Missing required fields")
        (response MsgId.one_chat_msg_ack 1))

  abbrev pub no_this_friend : Str
  no_this_friend =
      json.dump
        (with_text (codes "errormsg") (codes "No this friend") (response MsgId.one_chat_msg_ack 1))

  abbrev pub msg_have_sent : Str
  msg_have_sent =
      json.dump
        (with_text (codes "msg") (codes "MSG have sent") (response MsgId.one_chat_msg_ack 0))

  abbrev pub send_offline_msg : Str
  send_offline_msg =
      json.dump
        (with_text (codes "msg") (codes "Send offline MSG") (response MsgId.one_chat_msg_ack 0))

  -- From the lookup in `userConnMap_` on.
  unfoldable pub deliver : ℕ → TcpConnection → ℤ → Str → Option TcpConnection → M (Unit {0})
  deliver fuel conn to_id text (some peer) = do
    send conn.handle msg_have_sent
    send peer.handle text
  deliver fuel conn to_id text none = do
    insert_offline fuel to_id text
    send conn.handle send_offline_msg

  -- From the friend check on.
  unfoldable pub chat_to : ℕ → TcpConnection → json.Json → ℤ → ℤ → M (Unit {0})
  unfolding deliver
  chat_to fuel conn js id to_id = do
    friends ← on_mysql (FriendModel.query id)
    if has_friend friends to_id
        then (do
          peer ← gets (λ s. lookup to_id s.user_conn_map)
          deliver fuel conn to_id (json.dump js) peer)
        else send conn.handle no_this_friend

  unfoldable pub one_chat : ℕ → TcpConnection → json.Json → M (Unit {0})
  unfolding chat_to
  one_chat fuel conn js = do
    blank ← is_blank js
    if blank
        then pure tt
        else if not (json.contains js (codes "id")) || not (json.contains js (codes "to"))
        then send conn.handle missing_fields
        else (do
          id ← int_field js (codes "id")
          to_id ← int_field js (codes "to")
          chat_to fuel conn js id to_id)

  -- `ChatService::addFriend`.
  unfoldable pub add_friend : json.Json → M (Unit {0})
  add_friend js = do
    userid ← int_field js (codes "id")
    friendid ← int_field js (codes "friendid")
    do_mysql (FriendModel.insert userid friendid)
