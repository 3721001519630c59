-- ===== src/Client/Response.antt =====
-- What a message does to the client (src/client/main.cpp): `doLoginResponse`, `doRegResponse` and a
-- round of `readTaskHandler`.
use cluster_chat_server_soft.Prelude.{
  ◌+◌, true, false, Option, none, some, List, [], ◌∷◌, ◌++◌, if◌then◌else◌,
}
use cluster_chat_server_soft.Prelude.Int.{ℤ, eq_ℤ}
use cluster_chat_server_soft.Prelude.Text.{Str, codes}
use cluster_chat_server_soft.External.Json.{JsonLib}
use cluster_chat_server_soft.Model.User.{
  User, GroupUser, Group, default_user, default_group_user, new_group,
}
use cluster_chat_server_soft.ChatService.Protocol.{
  msg_id, one_chat_msg, group_chat_msg, login_msg_ack, reg_msg_ack,
}
use cluster_chat_server_soft.Client.Commands.{ClientState}
use cluster_chat_server_soft.Client.Screen.{show_current_user_data}

infixl 5 ◌>>=◌
abbrev pub ◌>>=◌ : {A B : Type 0} → Option A → (A → Option B) → Option B
none >>= f = none
some a >>= f = f a

-- `none` is an exception, which nothing catches: it ends the client.
abbrev pub map_all : {A B : Type 0} → (A → Option B) → List A → Option (List B)
map_all f [] = some []
map_all f (a ∷ rest) = do b ← f a; bs ← map_all f rest; some (b ∷ bs)

module _ ⦃json : JsonLib⦄ where
  abbrev pub int_at : json.Json → Str → Option ℤ
  int_at j key = do v ← json.subscript j key; json.get_int v

  abbrev pub text_at : json.Json → Str → Option Str
  text_at j key = do v ← json.subscript j key; json.get_string v

  abbrev pub texts_at : json.Json → Str → Option (List Str)
  texts_at j key = do v ← json.subscript j key; json.get_strings v

  -- An entry of "friends".
  unfoldable pub friend_of_text : Str → Option User
  friend_of_text text = do
    js ← json.parse text
    id ← int_at js (codes "id")
    name ← text_at js (codes "name")
    state ← text_at js (codes "state")
    some (record default_user { id = id; name = name; state = state })

  -- An entry of the "users" of a group.
  unfoldable pub member_of_text : Str → Option GroupUser
  member_of_text text = do
    js ← json.parse text
    id ← int_at js (codes "id")
    name ← text_at js (codes "name")
    state ← text_at js (codes "state")
    role ← text_at js (codes "role")
    some (record default_group_user { id = id; name = name; state = state; role = role })

  -- An entry of "groups".
  unfoldable pub group_of_text : Str → Option Group
  unfolding member_of_text
  group_of_text text = do
    js ← json.parse text
    id ← int_at js (codes "id")
    name ← text_at js (codes "groupname")
    desc ← text_at js (codes "groupdesc")
    texts ← texts_at js (codes "users")
    users ← map_all member_of_text texts
    some (record (new_group id name desc) { users = users })

  -- The line that shows a message, on the screen; `who` is the group or nothing.
  abbrev shown_line : Str → json.Json → Option Str
  shown_line who js = do
    time ← text_at js (codes "time")
    id ← json.subscript js (codes "id")
    name ← text_at js (codes "name")
    msg ← text_at js (codes "msg")
    some (who ++ time ++ codes " [" ++ json.dump id ++ codes "]" ++ name ++ codes " said: " ++ msg)

  -- A text of "offlinemessage".
  unfoldable pub offline_line : Str → Option Str
  offline_line text = do
    js ← json.parse text
    msgid ← int_at js (codes "msgid")
    if eq_ℤ (msg_id one_chat_msg) msgid then shown_line [] js else (do
      group ← json.subscript js (codes "groupid")
      shown_line (codes "群消息[" ++ json.dump group ++ codes "]:") js)

  unfoldable pub read_friends : json.Json → ClientState → Option ClientState
  unfolding friend_of_text
  read_friends js s =
      if json.contains js (codes "friends")
      then (do
        texts ← texts_at js (codes "friends")
        friends ← map_all friend_of_text texts
        some (record s { friend_list = friends }))
      else some s

  unfoldable pub read_groups : json.Json → ClientState → Option ClientState
  unfolding group_of_text
  read_groups js s =
      if json.contains js (codes "groups")
      then (do
        texts ← texts_at js (codes "groups")
        groups ← map_all group_of_text texts
        some (record s { group_list = groups }))
      else some s

  unfoldable pub read_offline : json.Json → ClientState → Option ClientState
  unfolding offline_line
  read_offline js s =
      if json.contains js (codes "offlinemessage")
      then (do
        texts ← texts_at js (codes "offlinemessage")
        lines ← map_all offline_line texts
        some (record s { shown = s.shown ++ lines }))
      else some s

  -- The branch of a success, in the order of the code.
  unfoldable pub logged_in : json.Json → ClientState → Option ClientState
  unfolding read_friends read_groups read_offline show_current_user_data
  logged_in js s = do
    id ← int_at js (codes "id")
    s1 ← read_friends js (record s { current_user = record s.current_user { id = id } })
    s2 ← read_groups js s1
    s3 ← read_offline js (record s2 { shown = s2.shown ++ show_current_user_data s2 })
    some (record s3 { is_login_success = true })

  unfoldable pub login_response : json.Json → ClientState → Option ClientState
  unfolding logged_in
  login_response js s = do
    errno ← json.subscript js (codes "errno")
    if json.is_zero errno then logged_in js s else some (record s { is_login_success = false })

  -- `doRegResponse`, with what goes to `cout`.
  unfoldable pub reg_response : json.Json → ClientState → Option ClientState
  reg_response js s = do
    errno ← json.subscript js (codes "errno")
    if json.is_zero errno
        then (do
          id ← json.subscript js (codes "id")
          let line =
              codes "name register success, userid is "
              ++ json.dump id
              ++ codes ", do not forget it"
          some (record s { shown = s.shown ++ line ∷ [] }))
        else some s

  abbrev post : ClientState → ClientState
  post s = record s { rw_sem = s.rw_sem + 1 }

  -- The `switch` over the kind of a message.
  unfoldable pub receive_js : ℤ → json.Json → ClientState → Option ClientState
  unfolding login_response reg_response
  receive_js msgid js s =
      if eq_ℤ msgid (msg_id one_chat_msg)
      then (do line ← shown_line [] js; some (record s { shown = s.shown ++ line ∷ [] }))
      else if eq_ℤ msgid (msg_id group_chat_msg)
      then (do
        group ← json.subscript js (codes "groupid")
        line ← shown_line (codes "群消息[" ++ json.dump group ++ codes "]:") js
        some (record s { shown = s.shown ++ line ∷ [] }))
      else if eq_ℤ msgid (msg_id login_msg_ack)
      then (do s' ← login_response js s; some (post s'))
      else if eq_ℤ msgid (msg_id reg_msg_ack)
      then (do s' ← reg_response js s; some (post s'))
      else some s

  -- A round of `readTaskHandler`, on what one `recv` gave.
  unfoldable pub receive : Str → ClientState → Option ClientState
  unfolding receive_js
  receive buffer s = do
    js ← json.parse buffer
    msgid ← int_at js (codes "msgid")
    receive_js msgid js s
