-- ===== src/Wire/Arrival.antt =====
-- A login from the client's command over the server to the client's main menu.
use cluster_chat_server_soft.Prelude.{
  ℕ, ◌≡◌, refl, ◌∙◌, ap, Bool, true, false, none, some, List, [], ◌∷◌, ◌++◌, map, arith,
}
use cluster_chat_server_soft.Prelude.Int.{ℤ, eq_ℤ_iff}
use cluster_chat_server_soft.Prelude.IntMap.{insert_new}
use cluster_chat_server_soft.Prelude.Text.{Str, codes, str_eq, str_eq_refl}
use cluster_chat_server_soft.External.Sql.{SqlServer}
use cluster_chat_server_soft.External.Redis.{RedisServer}
use cluster_chat_server_soft.External.Json.{JsonLib, JsonLaws}
use cluster_chat_server_soft.Model.User.{User, Group}
use cluster_chat_server_soft.Model.UserModel
use cluster_chat_server_soft.Model.FriendModel
use cluster_chat_server_soft.Model.GroupModel
use cluster_chat_server_soft.Model.Groups.{query_groups-HasNoUsers}
use cluster_chat_server_soft.RedisClient.Commands
use cluster_chat_server_soft.RedisClient.Core.{Client}
use cluster_chat_server_soft.ChatService.State.{TcpConnection, State, returned}
use cluster_chat_server_soft.ChatService.Protocol.{MsgId, msg_id}
use cluster_chat_server_soft.ChatService.Session.{
  friends_key, friends_from, add_friends, add_groups, login_ok, enter,
}
use cluster_chat_server_soft.ChatService.Entry.{LoginRequest, asked, login_branches}
use cluster_chat_server_soft.ChatService.Inbox.{find_handler, handle, on_message}
use cluster_chat_server_soft.Client.Commands.{ClientState}
use cluster_chat_server_soft.Client.Response.{receive}
use cluster_chat_server_soft.Client.Start.{login_js, end_login, wait}
use cluster_chat_server_soft.External.Objects.{object, subscript-object}
use cluster_chat_server_soft.Wire.Requests.{ended, on_message-object}
use cluster_chat_server_soft.Wire.Session.{
  shown, add_friends-Reads, add_groups-Reads, response_fields, logged, receive-response,
}

module _ ⦃sql : SqlServer⦄ ⦃redis : RedisServer⦄ ⦃json : JsonLib⦄ where
  -- The Redis client after the writes of `enter`, up to the pending messages.
  abbrev pub announced : TcpConnection → ℤ → Client → Client
  announced conn id r = Commands.set_user_online id conn.name (Commands.get_user_node id r).0

  -- No message waits for the user in Redis, and no friend list is cached.
  abbrev pub IsFresh : TcpConnection → ℤ → Client → Type 0
  IsFresh conn id r =
      let (r', offline) = Commands.pop_offline_messages id (announced conn id r) in
      (offline ≡ []) × ((Commands.get (friends_key id) r').1 ≡ none)

  -- The state in which `enter` renders the friends.
  abbrev recorded : TcpConnection → ℤ → State → State
  recorded conn id s = record s {
    user_conn_map = insert_new id conn s.user_conn_map;
    redis =
        (Commands.get (friends_key id)
          (Commands.pop_offline_messages id (announced conn id s.redis)).0).0;
    mysql = (FriendModel.query id s.mysql).0;
  }

  enter-parts :
      (conn : TcpConnection) (id : ℤ) (user : User) (s t1 t3 : State) (r1 r2 : json.Json)
      → IsFresh conn id s.redis
      → add_friends id (FriendModel.query id s.mysql).1 (login_ok user) (recorded conn id s)
        ≡ returned t1 r1
      → (let (m, groups) = GroupModel.query_groups id t1.mysql in
          add_groups id groups r1 (record t1 { mysql = m }) ≡ returned t3 r2)
      → enter conn id user s
        ≡ returned (record t3 { sent = t3.sent ++ (conn.handle, json.dump r2) ∷ [] }) tt
  unfolding enter friends_from
  enter-parts conn id user s t1 t3 r1 r2 fresh e1 e2 = ground (arith, fresh.0, fresh.1, e1, e2)

module _ ⦃sql : SqlServer⦄ ⦃redis : RedisServer⦄ ⦃json : JsonLib⦄ (laws : JsonLaws json) where
  -- The client of a user with these friends and groups.
  abbrev HasArrived : ℤ → List User → List Group → ClientState → Type 0
  HasArrived id friends groups c =
      (c.is_login_success ≡ true)
      × (c.current_user.id ≡ id)
      × (map shown c.friend_list ≡ map shown friends)
      × (c.group_list ≡ groups)

  enter-received :
      (conn : TcpConnection) (id : ℤ) (user : User) (s : State) (c : ClientState)
      → IsFresh conn id s.redis
      → c.friend_list ≡ []
      → c.group_list ≡ []
      → (s' : State) × (text : Str) × (friends : List User) × (enter conn id user s
          ≡ returned s' tt)
        × (s'.sent ≡ s.sent ++ (conn.handle, text) ∷ [])
        × (receive text c
            ≡ some (
                logged laws user friends
                  (GroupModel.query_groups id (FriendModel.query id s.mysql).0).1
                  c))
        × (map shown friends ≡ map shown (FriendModel.query id s.mysql).1)
  enter-received conn id user s c fresh ef eg =
      let (m, users) = FriendModel.query id s.mysql in
      let (t1, ft, friends, e1, rf, same, em, es) =
        add_friends-Reads laws id users (response_fields laws user none none)
          (recorded conn id s) in
      let (m', groups) = GroupModel.query_groups id m in
      let t2 : State = record t1 { mysql = m' } in
      let (t3, gt, e2, rg, es2) =
        add_groups-Reads laws id groups (response_fields laws user ft none) t2
          (query_groups-HasNoUsers id m) in
      let text = json.dump (object (response_fields laws user ft gt)) in
      (
        record t3 { sent = t3.sent ++ (conn.handle, text) ∷ [] },
        text,
        friends,
        enter-parts conn id user s t1 t3 (object (response_fields laws user ft none))
            (object (response_fields laws user ft gt)) fresh e1 (rw em e2),
        ground arith,
        receive-response laws user ft gt friends groups c rf rg ef eg,
        same,
      )

  module _ (atoi : Str → ℤ) (now : Str) (takes : Str → Bool) where
    abbrev pub login_fields : ℤ → Str → List (Str × json.Json)
    login_fields id pwd =
        (codes "password", json.string pwd)
        ∷ (codes "id", json.int id)
        ∷ (codes "msgid", json.int (msg_id MsgId.login_msg))
        ∷ []

    pub login_js-LoginRequest :
        (id : ℤ) (pwd : Str) → LoginRequest (login_js atoi now takes id pwd) id pwd
    unfolding str_eq
    login_js-LoginRequest id pwd =
        let fields = login_fields id pwd in
        record {
          id_value = json.int id;
          password_value = json.string pwd;
          reads_id = subscript-object laws (codes "id") (json.int id) fields refl;
          reads_password = subscript-object laws (codes "password") (json.string pwd) fields refl;
          id_is = laws.get_int-int id;
          password_is = laws.get_string-string pwd;
        }

    pub on_message-login :
        (fuel : ℕ) (conn : TcpConnection) (id : ℤ) (s : State)
        → (UserModel.query id s.mysql).1.id ≡ id
        → (Commands.is_user_online id s.redis).1 ≡ false
        → on_message fuel conn
            (json.dump (login_js atoi now takes id (UserModel.query id s.mysql).1.password))
            s
          ≡ ended (enter conn id (UserModel.query id s.mysql).1 (asked id s))
    unfolding handle str_eq find_handler msg_id
    on_message-login fuel conn id s found absent =
        let user = (UserModel.query id s.mysql).1 in
        on_message-object laws fuel conn MsgId.login_msg (login_fields id user.password) s refl refl
        ∙ ap ended (
            login_branches conn (login_js atoi now takes id user.password) id user.password s
              (login_js-LoginRequest id user.password)
            ∙ ground (arith, eq_ℤ_iff user.id id, str_eq_refl user.password))

    -- The whole way of a login. The text of the client's `login` with the right id and password, read
    -- alone by the server, of a user whom Redis does not report as online, for whom no message waits
    -- and no friend list is cached, makes the server send one text on the connection. A client whose
    -- lists are empty and that receives this text, whole and alone, then comes out of `sem_wait` into
    -- its main menu, logged in under the id, with the ids and names of the friends that MySQL gave the
    -- server, in their order, and with the groups that it gave.
    pub login_round_trip :
        (fuel : ℕ) (conn : TcpConnection) (id : ℤ) (s : State) (c : ClientState)
        → (UserModel.query id s.mysql).1.id ≡ id
        → (Commands.is_user_online id s.redis).1 ≡ false
        → IsFresh conn id (asked id s).redis
        → c.friend_list ≡ []
        → c.group_list ≡ []
        → let user = (UserModel.query id s.mysql).1 in
          let (m, friends) = FriendModel.query id (asked id s).mysql in
          (s' : State) × (text : Str) × (c' : ClientState) × (c'' : ClientState) × (on_message fuel
              conn
              (json.dump (login_js atoi now takes id user.password))
              s
            ≡ some s')
          × (s'.sent ≡ s.sent ++ (conn.handle, text) ∷ [])
          × (receive text c ≡ some c')
          × (end_login c' ≡ some c'')
          × (c''.is_main_menu_running ≡ true)
          × (c''.current_user.id ≡ id)
          × (map shown c''.friend_list ≡ map shown friends)
          × (c''.group_list ≡ (GroupModel.query_groups id m).1)
    unfolding end_login wait
    login_round_trip fuel conn id s c found absent fresh ef eg =
        let user = (UserModel.query id s.mysql).1 in
        let (s', text, friends, e, es, er, same) =
          enter-received conn id user (asked id s) c fresh ef eg in
        let c' =
          logged laws user friends
            (GroupModel.query_groups id (FriendModel.query id (asked id s).mysql).0).1 c in
        (
          s',
          text,
          c',
          record c' { rw_sem = c.rw_sem; is_main_menu_running = true },
          on_message-login fuel conn id s found absent ∙ ap ended e,
          es,
          er,
          ground arith,
          refl,
          found,
          same,
          refl,
        )
