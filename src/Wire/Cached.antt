-- ===== src/Wire/Cached.antt =====
-- A login while the cache holds a friend list of the user, from end to end.
use cluster_chat_server_soft.Prelude.{
  ℕ, ◌≡◌, refl, ◌∙◌, ap, Bool, true, false, none, some, [], ◌∷◌, ◌++◌, arith,
}
use cluster_chat_server_soft.Prelude.Int.{ℤ}
use cluster_chat_server_soft.Prelude.IntMap.{insert_new}
use cluster_chat_server_soft.Prelude.Text.{Str}
use cluster_chat_server_soft.External.Sql.{SqlServer}
use cluster_chat_server_soft.External.Redis.{RedisServer}
use cluster_chat_server_soft.External.Json.{JsonLib, JsonLaws}
use cluster_chat_server_soft.Model.User.{User}
use cluster_chat_server_soft.Model.UserModel
use cluster_chat_server_soft.Model.GroupModel
use cluster_chat_server_soft.Model.Groups.{query_groups-HasNoUsers}
use cluster_chat_server_soft.RedisClient.Commands
use cluster_chat_server_soft.RedisClient.Core.{Client}
use cluster_chat_server_soft.ChatService.State.{TcpConnection, State, returned}
use cluster_chat_server_soft.ChatService.Session.{
  friends_key, friends_from, add_groups, login_ok, enter,
}
use cluster_chat_server_soft.ChatService.Entry.{asked}
use cluster_chat_server_soft.ChatService.Inbox.{on_message}
use cluster_chat_server_soft.Client.Commands.{ClientState}
use cluster_chat_server_soft.Client.Response.{receive}
use cluster_chat_server_soft.Client.Start.{login_js, end_login, wait}
use cluster_chat_server_soft.External.Objects.{object}
use cluster_chat_server_soft.Wire.Requests.{ended}
use cluster_chat_server_soft.Wire.Session.{
  add_groups-Reads, response_fields, logged, receive-response,
}
use cluster_chat_server_soft.Wire.Arrival.{announced, on_message-login}

module _ ⦃sql : SqlServer⦄ ⦃redis : RedisServer⦄ ⦃json : JsonLib⦄ where
  -- No message waits for the user in Redis, and a friend list is cached.
  abbrev pub IsCached : TcpConnection → ℤ → Str → Client → Type 0
  IsCached conn id cached r =
      let (r', offline) = Commands.pop_offline_messages id (announced conn id r) in
      (offline ≡ []) × ((Commands.get (friends_key id) r').1 ≡ some cached)

  -- The state in which `enter` turns to the groups.
  abbrev recorded : TcpConnection → ℤ → State → State
  recorded conn id s = record s {
    user_conn_map = insert_new id conn s.user_conn_map;
    redis =
        (Commands.get (friends_key id)
          (Commands.pop_offline_messages id (announced conn id s.redis)).0).0;
    mysql = (GroupModel.query_groups id s.mysql).0;
  }

  enter-cached :
      (conn : TcpConnection) (id : ℤ) (user : User) (cached : Str) (s t : State) (r : json.Json)
      → IsCached conn id cached s.redis
      → add_groups id (GroupModel.query_groups id s.mysql).1 (login_ok user) (recorded conn id s)
        ≡ returned t r
      → enter conn id user s
        ≡ returned (record t { sent = t.sent ++ (conn.handle, json.dump r) ∷ [] }) tt
  unfolding enter friends_from
  enter-cached conn id user cached s t r h e = ground (arith, h.0, h.1, e)

module _ ⦃sql : SqlServer⦄ ⦃redis : RedisServer⦄ ⦃json : JsonLib⦄ (laws : JsonLaws json)
    (atoi : Str → ℤ) (now : Str) (takes : Str → Bool) where
  -- The whole way of a login while Redis holds a friend list of the user, which a login of the hour
  -- before has put there, whatever it is. The text of the client's `login` with the right id and
  -- password, read alone by the server, of a user whom Redis does not report as online and for whom no
  -- message waits, makes the server send one text on the connection. A client whose lists are empty and
  -- that receives this text, whole and alone, comes out of `sem_wait` into its main menu, logged in
  -- under the id, with the groups that MySQL gave the server and without any friend, since `login`
  -- parses the cached list and does not put it into the response.
  pub login_cached :
      (fuel : ℕ) (conn : TcpConnection) (id : ℤ) (cached : Str) (s : State) (c : ClientState)
      → (UserModel.query id s.mysql).1.id ≡ id
      → (Commands.is_user_online id s.redis).1 ≡ false
      → IsCached conn id cached (asked id s).redis
      → c.friend_list ≡ []
      → c.group_list ≡ []
      → let user = (UserModel.query id s.mysql).1 in
        (s' : State) × (text : Str) × (c' : ClientState) × (c'' : ClientState) × (on_message fuel
            conn
            (json.dump (login_js atoi now takes id user.password))
            s
          ≡ some s')
        × (s'.sent ≡ s.sent ++ (conn.handle, text) ∷ [])
        × (receive text c ≡ some c')
        × (end_login c' ≡ some c'')
        × (c''.is_main_menu_running ≡ true)
        × (c''.current_user.id ≡ id)
        × (c''.friend_list ≡ [])
        × (c''.group_list ≡ (GroupModel.query_groups id (asked id s).mysql).1)
  unfolding end_login wait
  login_cached fuel conn id cached s c found absent fresh ef eg =
      let user = (UserModel.query id s.mysql).1 in
      let groups = (GroupModel.query_groups id (asked id s).mysql).1 in
      let (t, gt, e, rg, es) =
        add_groups-Reads laws id groups (response_fields laws user none none)
          (recorded conn id (asked id s)) (query_groups-HasNoUsers id (asked id s).mysql) in
      let text = json.dump (object (response_fields laws user none gt)) in
      let c' = logged laws user [] groups c in
      (
        record t { sent = t.sent ++ (conn.handle, text) ∷ [] },
        text,
        c',
        record c' { rw_sem = c.rw_sem; is_main_menu_running = true },
        on_message-login laws atoi now takes fuel conn id s found absent
            ∙ ap ended (
                enter-cached conn id user cached (asked id s) t
                  (object (response_fields laws user none gt)) fresh e),
        ground arith,
        receive-response laws user none gt [] groups c refl rg ef eg,
        ground arith,
        refl,
        found,
        refl,
        refl,
      )
