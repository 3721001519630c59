-- ===== src/Wire/Delivery.antt =====
-- A message from the client that sends it over the servers to the clients that show it.
use mathlib.Core.List.{filter_map}
use cluster_chat_server_soft.Prelude.{
  map, ℕ, ◌≡◌, refl, ◌∙◌, ap, Bool, true, some, List, [], ◌∷◌, ◌++◌, arith,
}
use cluster_chat_server_soft.Prelude.Int.{ℤ}
use cluster_chat_server_soft.Prelude.IntMap.{lookup}
use cluster_chat_server_soft.Prelude.Text.{Str, codes, str_eq}
use cluster_chat_server_soft.External.Sql.{SqlServer}
use cluster_chat_server_soft.External.Redis.{RedisServer}
use cluster_chat_server_soft.External.Json.{JsonLib, JsonLaws}
use cluster_chat_server_soft.External.Objects.{object, subscript-object, contains-object}
use cluster_chat_server_soft.Model.FriendModel
use cluster_chat_server_soft.Model.Friendship.{has_friend}
use cluster_chat_server_soft.ChatService.State.{TcpConnection, State}
use cluster_chat_server_soft.ChatService.Protocol.{MsgId, msg_id}
use cluster_chat_server_soft.ChatService.Chat.{msg_have_sent}
use cluster_chat_server_soft.ChatService.Inbox.{
  line, find_handler, handle, on_message, on_channel_message,
}
use cluster_chat_server_soft.ChatService.Delivery.{one_chat-connected}
use cluster_chat_server_soft.ChatService.Silence.{
  GroupMessage, local_members, inbox_callback-group_lines,
}
use cluster_chat_server_soft.Client.Commands.{ClientState, chat_js, group_chat_js}
use cluster_chat_server_soft.Client.Response.{receive, receive_js}
use cluster_chat_server_soft.Wire.Requests.{
  ended, on_message-object, chat_fields, chat_js-ChatRequest,
}

module _ ⦃sql : SqlServer⦄ ⦃redis : RedisServer⦄ ⦃json : JsonLib⦄ (laws : JsonLaws json)
    (atoi : Str → ℤ) (now : Str) (takes : Str → Bool) (c : ClientState) where
  -- What a client shows of a message of `c`; `who` is the group or nothing.
  abbrev pub said : Str → Str → Str
  said who msg =
      who
      ++ now
      ++ codes " ["
      ++ json.dump (json.int c.current_user.id)
      ++ codes "]"
      ++ c.current_user.name
      ++ codes " said: "
      ++ msg

  abbrev pub showing : Str → ClientState → ClientState
  showing text r = record r { shown = r.shown ++ text ∷ [] }

  receive-chat :
      (to : ℤ) (msg : Str) (r : ClientState)
      → receive (json.dump (chat_js atoi now takes c to msg)) r ≡ some (showing (said [] msg) r)
  unfolding receive receive_js str_eq msg_id
  receive-chat to msg r =
      let fields = chat_fields laws atoi now takes c to msg in
      ground (
        arith,
        laws.parse-dump (object fields),
        subscript-object laws (codes "msgid") (json.int (msg_id MsgId.one_chat_msg)) fields refl,
        laws.get_int-int (msg_id MsgId.one_chat_msg),
        subscript-object laws (codes "time") (json.string now) fields refl,
        subscript-object laws (codes "id") (json.int c.current_user.id) fields refl,
        subscript-object laws (codes "name") (json.string c.current_user.name) fields refl,
        subscript-object laws (codes "msg") (json.string msg) fields refl,
        laws.get_string-string now,
        laws.get_string-string c.current_user.name,
        laws.get_string-string msg,
      )

  -- A chat message from client to client. The text of the `chat` command of `c`, read alone by a server
  -- whose friend query lists the friend and where the friend is connected, makes the server acknowledge
  -- it and send the same text to the friend, and nothing else; and a client that receives this text,
  -- whole and alone, shows one line, with the time, id, name and message that were sent.
  pub chat_round_trip :
      (fuel : ℕ) (conn peer : TcpConnection) (to : ℤ) (first : ℕ) (others : Str) (s : State)
      (r : ClientState)
      → has_friend (FriendModel.query c.current_user.id s.mysql).1 to ≡ true
      → lookup to s.user_conn_map ≡ some peer
      → let text = json.dump (chat_js atoi now takes c to (first ∷ others)) in
        (s' : State) × (on_message fuel conn text s ≡ some s')
        × (s'.sent ≡ (s.sent ++ (conn.handle, msg_have_sent) ∷ []) ++ (peer.handle, text) ∷ [])
        × (receive text r ≡ some (showing (said [] (first ∷ others)) r))
  unfolding handle str_eq find_handler msg_id
  chat_round_trip fuel conn peer to first others s r friend there = (
    _,
    on_message-object laws fuel conn MsgId.one_chat_msg
          (chat_fields laws atoi now takes c to (first ∷ others)) s refl refl
        ∙ ap ended (
            one_chat-connected fuel conn peer (chat_js atoi now takes c to (first ∷ others))
              c.current_user.id to s (chat_js-ChatRequest laws atoi now takes c to first others)
              friend there),
    refl,
    receive-chat to (first ∷ others) r,
  )

  abbrev group_fields : ℤ → Str → List (Str × json.Json)
  group_fields g msg =
      (codes "time", json.string now)
      ∷ (codes "msg", json.string msg)
      ∷ (codes "groupid", json.int g)
      ∷ (codes "name", json.string c.current_user.name)
      ∷ (codes "id", json.int c.current_user.id)
      ∷ (codes "msgid", json.int (msg_id MsgId.group_chat_msg))
      ∷ []

  group_chat_js-GroupMessage :
      (g : ℤ) (msg : Str) → GroupMessage (group_chat_js atoi now takes c g msg) g
  unfolding str_eq
  group_chat_js-GroupMessage g msg =
      let fields = group_fields g msg in
      record {
        no_to = contains-object laws (codes "to") fields;
        has_groupid = contains-object laws (codes "groupid") fields;
        value = json.int g;
        reads = subscript-object laws (codes "groupid") (json.int g) fields refl;
        is_int = laws.get_int-int g;
      }

  abbrev pub group_prefix : ℤ → Str
  group_prefix g = codes "群消息[" ++ json.dump (json.int g) ++ codes "]:"

  receive-group_chat :
      (g : ℤ) (msg : Str) (r : ClientState)
      → receive (line (json.dump (group_chat_js atoi now takes c g msg))) r
        ≡ some (showing (said (group_prefix g) msg) r)
  unfolding receive receive_js str_eq msg_id
  receive-group_chat g msg r =
      let fields = group_fields g msg in
      ground (
        arith,
        laws.parse-line (object fields),
        subscript-object laws (codes "msgid") (json.int (msg_id MsgId.group_chat_msg)) fields refl,
        laws.get_int-int (msg_id MsgId.group_chat_msg),
        subscript-object laws (codes "groupid") (json.int g) fields refl,
        subscript-object laws (codes "time") (json.string now) fields refl,
        subscript-object laws (codes "id") (json.int c.current_user.id) fields refl,
        subscript-object laws (codes "name") (json.string c.current_user.name) fields refl,
        subscript-object laws (codes "msg") (json.string msg) fields refl,
        laws.get_string-string now,
        laws.get_string-string c.current_user.name,
        laws.get_string-string msg,
      )

  -- A group message from client to client. Where Redis hands the text that the `groupChat` command of
  -- `c` sends to a node, the node sends the text with a newline over the connection of each local member
  -- of the group who is connected, once for each and in the order of the set, and does nothing else; and
  -- a client that receives this, whole and alone, shows one line, with the group and the time, id, name
  -- and message that were sent.
  pub group_round_trip :
      (fuel : ℕ) (g : ℤ) (msg : Str) (s : State) (r : ClientState)
      → let text = json.dump (group_chat_js atoi now takes c g msg) in
        let connected = filter_map (λ u. lookup u s.user_conn_map) (local_members g s) in
        (on_channel_message true fuel text s
          ≡ some (record s {
            sent = s.sent ++ map (λ conn. (conn.handle, text ++ 10 ∷ [])) connected;
          }))
        × (receive (text ++ 10 ∷ []) r ≡ some (showing (said (group_prefix g) msg) r))
  unfolding on_channel_message
  group_round_trip fuel g msg s r =
      let js = group_chat_js atoi now takes c g msg in
      (
        ground (
          arith,
          laws.parse-dump js,
          inbox_callback-group_lines fuel js g s (group_chat_js-GroupMessage g msg),
        ),
        receive-group_chat g msg r,
      )
