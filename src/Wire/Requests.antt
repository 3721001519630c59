-- ===== src/Wire/Requests.antt =====
-- The messages of the client's commands at the server: `onMessage` on the text that a command sends.
use cluster_chat_server_soft.Prelude.{
  ℕ, ◌≡◌, refl, ◌∙◌, ap, Bool, Option, none, some, List, [], ◌∷◌, arith,
}
use cluster_chat_server_soft.Prelude.Int.{ℤ, negsuc}
use cluster_chat_server_soft.Prelude.Text.{Str, codes, str_eq}
use cluster_chat_server_soft.External.Sql.{SqlServer}
use cluster_chat_server_soft.External.Redis.{RedisServer}
use cluster_chat_server_soft.External.Json.{JsonLib, JsonLaws}
use cluster_chat_server_soft.Model.User.{new_group}
use cluster_chat_server_soft.Model.FriendModel
use cluster_chat_server_soft.Model.GroupModel
use cluster_chat_server_soft.ChatService.State.{
  TcpConnection, State, Ended, returned, threw, running, ◌>>◌, do_mysql,
}
use cluster_chat_server_soft.ChatService.Protocol.{MsgId, msg_id}
use cluster_chat_server_soft.ChatService.Chat.{chat_to, add_friend}
use cluster_chat_server_soft.ChatService.Session.{log_out, login_out}
use cluster_chat_server_soft.ChatService.Groups.{
  create_group, join_group, enter_group, chat_in, group_chat,
}
use cluster_chat_server_soft.ChatService.Inbox.{mapped, find_handler, handle, dispatch, on_message}
use cluster_chat_server_soft.ChatService.Delivery.{ChatRequest, one_chat-chat_to}
use cluster_chat_server_soft.Client.Commands.{
  ClientState, chat_js, group_chat_js, create_group_js, add_friend_js, join_group_js, login_out_js,
}
use cluster_chat_server_soft.External.Objects.{object, field, subscript-object, contains-object}

-- What `onMessage` makes of the end of its `try` block.
abbrev pub ended : {S : Type 0} → Ended S (Unit {0}) → Option S
ended (returned s _) = some s
ended (threw s) = some s
ended running = none

module _ ⦃sql : SqlServer⦄ ⦃redis : RedisServer⦄ ⦃json : JsonLib⦄ (laws : JsonLaws json) where
  -- A text that parses to an object with a mapped id goes to the handler of that id.
  pub on_message-parsed :
      (fuel : ℕ) (conn : TcpConnection) (h : MsgId) (buf : Str) (fields : List (Str × json.Json))
      (s : State)
      → json.parse buf ≡ some (object fields)
      → field (codes "msgid") fields ≡ some (json.int (msg_id h))
      → find_handler mapped (msg_id h) ≡ some h
      → on_message fuel conn buf s ≡ ended (handle fuel conn (object fields) (some h) s)
  unfolding on_message dispatch
  on_message-parsed fuel conn h buf fields s p e m = ground (
    arith,
    p,
    subscript-object laws (codes "msgid") (json.int (msg_id h)) fields e,
    laws.get_int-int (msg_id h),
  )

  pub on_message-object :
      (fuel : ℕ) (conn : TcpConnection) (h : MsgId) (fields : List (Str × json.Json)) (s : State)
      → field (codes "msgid") fields ≡ some (json.int (msg_id h))
      → find_handler mapped (msg_id h) ≡ some h
      → on_message fuel conn (json.dump (object fields)) s
        ≡ ended (handle fuel conn (object fields) (some h) s)
  on_message-object fuel conn h fields s e m =
      on_message-parsed fuel conn h (json.dump (object fields)) fields s
        (laws.parse-dump (object fields)) e m

  module _ (atoi : Str → ℤ) (now : Str) (takes : Str → Bool) (c : ClientState) where
    abbrev head : MsgId → List (Str × json.Json)
    head h = (codes "id", json.int c.current_user.id) ∷ (codes "msgid", json.int (msg_id h)) ∷ []

    abbrev named : MsgId → List (Str × json.Json)
    named h = (codes "name", json.string c.current_user.name) ∷ head h

    abbrev pub chat_fields : ℤ → Str → List (Str × json.Json)
    chat_fields to msg =
        (codes "time", json.string now)
        ∷ (codes "msg", json.string msg)
        ∷ (codes "to", json.int to)
        ∷ named MsgId.one_chat_msg

    pub chat_js-ChatRequest :
        (to : ℤ) (first : ℕ) (others : Str)
        → ChatRequest (chat_js atoi now takes c to (first ∷ others)) c.current_user.id to
    unfolding str_eq
    chat_js-ChatRequest to first others =
        let fields = chat_fields to (first ∷ others) in
        record {
          msg = json.string (first ∷ others);
          first = first;
          others = others;
          has_msg = subscript-object laws (codes "msg") (json.string (first ∷ others)) fields refl;
          not_null = laws.is_null-string (first ∷ others);
          is_text = laws.get_string-string (first ∷ others);
          has_id = contains-object laws (codes "id") fields;
          has_to = contains-object laws (codes "to") fields;
          id_value = json.int c.current_user.id;
          to_value = json.int to;
          reads_id = subscript-object laws (codes "id") (json.int c.current_user.id) fields refl;
          reads_to = subscript-object laws (codes "to") (json.int to) fields refl;
          id_is = laws.get_int-int c.current_user.id;
          to_is = laws.get_int-int to;
        }

    -- The text of the client's `chat` command, when the server reads it alone, is a message of the
    -- client's user to the friend with the whole text: `onMessage` does what `oneChat` does from its
    -- friend check on.
    pub on_message-chat :
        (fuel : ℕ) (conn : TcpConnection) (to : ℤ) (first : ℕ) (others : Str) (s : State)
        → on_message fuel conn (json.dump (chat_js atoi now takes c to (first ∷ others))) s
          ≡ ended (
              chat_to fuel conn
                (chat_js atoi now takes c to (first ∷ others))
                c.current_user.id
                to
                s)
    unfolding handle str_eq find_handler msg_id
    on_message-chat fuel conn to first others s =
        on_message-object fuel conn MsgId.one_chat_msg (chat_fields to (first ∷ others)) s refl refl
        ∙ ap ended (
            one_chat-chat_to fuel conn (chat_js atoi now takes c to (first ∷ others))
              c.current_user.id to s (chat_js-ChatRequest to first others))

    reads :
        (key : Str) (v : json.Json) (fields : List (Str × json.Json))
        → field key fields ≡ some v
        → json.subscript (object fields) key ≡ some v
    reads key v fields e = subscript-object laws key v fields e

    abbrev pub user : ℤ
    user = c.current_user.id

    pub on_message-add_friend :
        (fuel : ℕ) (conn : TcpConnection) (id : ℤ) (s : State)
        → on_message fuel conn (json.dump (add_friend_js atoi now takes c id)) s
          ≡ ended (do_mysql (FriendModel.insert user id) s)
    unfolding handle str_eq find_handler msg_id add_friend
    on_message-add_friend fuel conn id s =
        let fields = (codes "friendid", json.int id) ∷ head MsgId.add_friend_msg in
        on_message-object fuel conn MsgId.add_friend_msg fields s refl refl
        ∙ ground (
          arith,
          reads (codes "id") (json.int user) fields refl,
          reads (codes "friendid") (json.int id) fields refl,
          laws.get_int-int user,
          laws.get_int-int id,
        )

    pub on_message-join_group :
        (fuel : ℕ) (conn : TcpConnection) (id : ℤ) (s : State)
        → on_message fuel conn (json.dump (join_group_js atoi now takes c id)) s
          ≡ ended
              ((do_mysql (GroupModel.join_group user id (codes "normal")) >> enter_group user id) s)
    unfolding handle str_eq find_handler msg_id join_group
    on_message-join_group fuel conn id s =
        let fields = (codes "groupid", json.int id) ∷ head MsgId.join_group_msg in
        on_message-object fuel conn MsgId.join_group_msg fields s refl refl
        ∙ ground (
          arith,
          reads (codes "id") (json.int user) fields refl,
          reads (codes "groupid") (json.int id) fields refl,
          laws.get_int-int user,
          laws.get_int-int id,
        )

    pub on_message-create_group :
        (fuel : ℕ) (conn : TcpConnection) (name desc : Str) (s : State)
        → let (m, group) = GroupModel.create_group (new_group (negsuc 0) name desc) s.mysql in
          on_message fuel conn (json.dump (create_group_js atoi now takes c name desc)) s
          ≡ ended (
              enter_group user group.id
                (record s { mysql = GroupModel.join_group user group.id (codes "creator") m }))
    unfolding handle str_eq find_handler msg_id create_group
    on_message-create_group fuel conn name desc s =
        let fields =
          (codes "groupdesc", json.string desc)
          ∷ (codes "groupname", json.string name)
          ∷ head MsgId.create_group_msg in
        on_message-object fuel conn MsgId.create_group_msg fields s refl refl
        ∙ ground (
          arith,
          reads (codes "id") (json.int user) fields refl,
          reads (codes "groupname") (json.string name) fields refl,
          reads (codes "groupdesc") (json.string desc) fields refl,
          laws.get_int-int user,
          laws.get_string-string name,
          laws.get_string-string desc,
        )

    pub on_message-group_chat :
        (fuel : ℕ) (conn : TcpConnection) (id : ℤ) (first : ℕ) (others : Str) (s : State)
        → on_message fuel conn (json.dump (group_chat_js atoi now takes c id (first ∷ others))) s
          ≡ ended (chat_in (group_chat_js atoi now takes c id (first ∷ others)) user id s)
    unfolding handle str_eq find_handler msg_id group_chat
    on_message-group_chat fuel conn id first others s =
        let fields =
          (codes "time", json.string now)
          ∷ (codes "msg", json.string (first ∷ others))
          ∷ (codes "groupid", json.int id)
          ∷ named MsgId.group_chat_msg in
        on_message-object fuel conn MsgId.group_chat_msg fields s refl refl
        ∙ ground (
          arith,
          reads (codes "msg") (json.string (first ∷ others)) fields refl,
          reads (codes "id") (json.int user) fields refl,
          reads (codes "groupid") (json.int id) fields refl,
          laws.is_null-string (first ∷ others),
          laws.get_string-string (first ∷ others),
          laws.get_int-int user,
          laws.get_int-int id,
        )

    pub on_message-login_out :
        (fuel : ℕ) (conn : TcpConnection) (s : State)
        → on_message fuel conn (json.dump (login_out_js atoi now takes c)) s
          ≡ ended (log_out user s)
    unfolding handle str_eq find_handler msg_id login_out
    on_message-login_out fuel conn s =
        let fields = named MsgId.login_out_msg in
        on_message-object fuel conn MsgId.login_out_msg fields s refl refl
        ∙ ground (arith, reads (codes "id") (json.int user) fields refl, laws.get_int-int user)
