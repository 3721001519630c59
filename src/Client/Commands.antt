-- ===== src/Client/Commands.antt =====
-- The main menu of src/client/main.cpp: a line is cut at its first colon, the command's handler reads
-- the rest and sends a message. `atoi` and the socket are parameters, and so is the current time.
use cluster_chat_server_soft.Prelude.{
  ℕ, Bool, false, Option, none, some, List, [], ◌∷◌, ◌++◌, ◌==◌, if◌then◌else◌,
}
use cluster_chat_server_soft.Prelude.Int.{ℤ}
use cluster_chat_server_soft.Prelude.Text.{Str, codes, str_eq}
use cluster_chat_server_soft.External.Json.{JsonLib}
use cluster_chat_server_soft.Model.User.{User, Group}
use cluster_chat_server_soft.ChatService.Protocol.{
  MsgId, msg_id, one_chat_msg, add_friend_msg, create_group_msg, join_group_msg, group_chat_msg,
  login_out_msg,
}

-- The globals, with the texts that the socket took, the oldest first, and the messages that were
-- shown. `rw_sem` is the value of the semaphore.
pub record ClientState : Type 0 where
  pub current_user : User
  pub friend_list : List User
  pub group_list : List Group
  pub is_main_menu_running : Bool
  pub is_login_success : Bool
  pub rw_sem : ℕ
  pub sent : List Str
  pub shown : List Str

-- `str.find(":")` with the two calls of `substr` around it. `none`: there is no colon.
unfoldable pub cut : Str → Option (Str × Str)
cut [] = none
cut (c ∷ s) =
    let rest = cut s in
    if c == b':' then some ([], s) else elim rest [ none ↦ none | some (a, b) ↦ some (c ∷ a, b) ]

-- The keys of `commandHandlerMap`.
pub data Command : Type 0 where
  help chat add_friend create_group join_group group_chat loginout : Command

unfoldable pub command_of : Str → Option Command
unfolding str_eq
command_of s =
    if str_eq s (codes "help")
    then some help
    else if str_eq s (codes "chat")
    then some chat
    else if str_eq s (codes "addFriend")
    then some add_friend
    else if str_eq s (codes "createGroup")
    then some create_group
    else if str_eq s (codes "joinGroup")
    then some join_group
    else if str_eq s (codes "groupChat")
    then some group_chat
    else if str_eq s (codes "loginout")
    then some loginout
    else none

-- `atoi` is the C library's; `now` is what `getCurrentTime` gives; `takes` says whether `send` on the
-- socket takes a text.
module _ ⦃json : JsonLib⦄ (atoi : Str → ℤ) (now : Str) (takes : Str → Bool) where
  abbrev pub message : MsgId → json.Json
  message id = json.assign (codes "msgid") (json.int (msg_id id)) json.empty

  abbrev pub send_text : Str → ClientState → ClientState
  send_text text s = if takes text then record s { sent = s.sent ++ text ∷ [] } else s

  abbrev pub chat_js : ClientState → ℤ → Str → json.Json
  chat_js s friendid msg = json.assign (codes "time") (json.string now) (
      json.assign (codes "msg") (json.string msg) (
        json.assign (codes "to") (json.int friendid) (
          json.assign (codes "name") (json.string s.current_user.name)
            (json.assign (codes "id") (json.int s.current_user.id) (message one_chat_msg)))))

  abbrev pub chat_text : ClientState → ℤ → Str → Str
  chat_text s friendid msg = json.dump (chat_js s friendid msg)

  -- `chat`, once the argument is cut.
  unfoldable pub chat_cut : Option (Str × Str) → ClientState → ClientState
  chat_cut none s = s
  chat_cut (some (friendid, [])) s = s
  chat_cut (some (friendid, c ∷ msg)) s = send_text (chat_text s (atoi friendid) (c ∷ msg)) s

  abbrev pub group_chat_js : ClientState → ℤ → Str → json.Json
  group_chat_js s groupid msg = json.assign (codes "time") (json.string now) (
      json.assign (codes "msg") (json.string msg) (
        json.assign (codes "groupid") (json.int groupid) (
          json.assign (codes "name") (json.string s.current_user.name)
            (json.assign (codes "id") (json.int s.current_user.id) (message group_chat_msg)))))

  abbrev pub group_chat_text : ClientState → ℤ → Str → Str
  group_chat_text s groupid msg = json.dump (group_chat_js s groupid msg)

  unfoldable pub group_chat_cut : Option (Str × Str) → ClientState → ClientState
  group_chat_cut none s = s
  group_chat_cut (some (groupid, [])) s = s
  group_chat_cut (some (groupid, c ∷ msg)) s =
      send_text (group_chat_text s (atoi groupid) (c ∷ msg)) s

  abbrev pub create_group_js : ClientState → Str → Str → json.Json
  create_group_js s name desc = json.assign (codes "groupdesc") (json.string desc) (
      json.assign (codes "groupname") (json.string name)
        (json.assign (codes "id") (json.int s.current_user.id) (message create_group_msg)))

  unfoldable pub create_group_cut : Option (Str × Str) → ClientState → ClientState
  create_group_cut none s = s
  create_group_cut (some (name, desc)) s = send_text (json.dump (create_group_js s name desc)) s

  abbrev pub add_friend_js : ClientState → ℤ → json.Json
  add_friend_js s id =
      json.assign (codes "friendid") (json.int id)
        (json.assign (codes "id") (json.int s.current_user.id) (message add_friend_msg))

  unfoldable pub add_friend_arg : Str → ClientState → ClientState
  add_friend_arg str s = send_text (json.dump (add_friend_js s (atoi str))) s

  abbrev pub join_group_js : ClientState → ℤ → json.Json
  join_group_js s id =
      json.assign (codes "groupid") (json.int id)
        (json.assign (codes "id") (json.int s.current_user.id) (message join_group_msg))

  unfoldable pub join_group_arg : Str → ClientState → ClientState
  join_group_arg str s = send_text (json.dump (join_group_js s (atoi str))) s

  abbrev pub login_out_js : ClientState → json.Json
  login_out_js s =
      json.assign (codes "name") (json.string s.current_user.name)
        (json.assign (codes "id") (json.int s.current_user.id) (message login_out_msg))

  abbrev pub login_out_text : ClientState → Str
  login_out_text s = json.dump (login_out_js s)

  -- The menu stops only if the message was sent.
  unfoldable pub log_out_client : ClientState → ClientState
  log_out_client s =
      if takes (login_out_text s)
      then record s { sent = s.sent ++ login_out_text s ∷ []; is_main_menu_running = false }
      else s

  -- A command's handler on its argument; an unknown command is ignored.
  unfoldable pub run_command : Option Command → Str → ClientState → ClientState
  unfolding cut chat_cut group_chat_cut create_group_cut add_friend_arg join_group_arg
      log_out_client
  run_command none str s = s
  run_command (some help) str s = s
  run_command (some chat) str s = chat_cut (cut str) s
  run_command (some add_friend) str s = add_friend_arg str s
  run_command (some create_group) str s = create_group_cut (cut str) s
  run_command (some join_group) str s = join_group_arg str s
  run_command (some group_chat) str s = group_chat_cut (cut str) s
  run_command (some loginout) str s = log_out_client s

  -- One round of the loop of `mainmenu`. Without a colon the whole line is the command and its
  -- argument.
  unfoldable pub run_line : Str → ClientState → ClientState
  unfolding cut command_of run_command
  run_line line s = elim (cut line) [
    | none ↦ run_command (command_of line) line s
    | some (name, rest) ↦ run_command (command_of name) rest s
  ]
