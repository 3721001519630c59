-- ===== src/ChatService/Entry.antt =====
-- What `login` does with a complete request.
use cluster_chat_server_soft.Prelude.{
  ℕ, ◌≡◌, ap, ◌∙◌, false, ◌&&◌, none, some, List, [], ◌∷◌, ◌++◌, arith, if◌then◌else◌,
}
use cluster_chat_server_soft.Prelude.Int.{ℤ, pos, negsuc, eq_ℤ, eq_ℤ_iff}
use cluster_chat_server_soft.Prelude.IntMap.{lookup, insert_new, lookup-insert_new}
use cluster_chat_server_soft.Prelude.Text.{Str, codes, str_eq, str_eq_refl}
use cluster_chat_server_soft.External.{done}
use cluster_chat_server_soft.External.Sql.{SqlServer}
use cluster_chat_server_soft.External.Redis.{RedisServer}
use cluster_chat_server_soft.External.Json.{JsonLib}
use cluster_chat_server_soft.Model.User.{User}
use cluster_chat_server_soft.Model.UserModel
use cluster_chat_server_soft.Model.GroupModel
use cluster_chat_server_soft.Model.Groups.{query_groups-HasNoUsers}
use cluster_chat_server_soft.RedisClient.Commands
use cluster_chat_server_soft.ChatService.State.{TcpConnection, State, returned}
use cluster_chat_server_soft.ChatService.Departure.{is_member}
use cluster_chat_server_soft.ChatService.Quiet.{friends_from-Runs, add_groups-Runs}
use cluster_chat_server_soft.ChatService.Session.{
  login, enter, friends_key, add_offline, login_ok, already_online, wrong_password,
}

-- A request with the fields that `login` reads.
pub record LoginRequest ⦃json : JsonLib⦄ (js : json.Json) (id : ℤ) (password : Str) : Type 0 where
  pub id_value : json.Json
  pub password_value : json.Json
  pub reads_id : json.subscript js (codes "id") ≡ some id_value
  pub reads_password : json.subscript js (codes "password") ≡ some password_value
  pub id_is : json.get_int id_value ≡ some id
  pub password_is : json.get_string password_value ≡ some password

module _ ⦃sql : SqlServer⦄ ⦃redis : RedisServer⦄ ⦃json : JsonLib⦄ where
  -- What a state `s'` is after the successful branch of `login` for `id` from `s`: the connection is
  -- recorded unless the user had one, one response was sent, on this connection, and no local member
  -- of any group was added or removed.
  pub record HasEntered (conn : TcpConnection) (id : ℤ) (s s' : State) : Type 0 where
    pub conns : s'.user_conn_map ≡ insert_new id conn s.user_conn_map
    pub members : (g u : ℤ) → is_member s'.group_members g u ≡ is_member s.group_members g u
    pub text : Str
    pub sent : s'.sent ≡ s.sent ++ (conn.handle, text) ∷ []

  pub enter-HasEntered :
      (conn : TcpConnection) (id : ℤ) (user : User) (s : State)
      → (s' : State) × (enter conn id user s ≡ returned s' tt) × HasEntered conn id s s'
  unfolding enter
  enter-HasEntered conn id user s =
      let r1 = Commands.set_user_online id conn.name (Commands.get_user_node id s.redis).0 in
      let (r2, offline) = Commands.pop_offline_messages id r1 in
      let (r3, cached) = Commands.get (friends_key id) r2 in
      let s1 : State = record s {
        user_conn_map = insert_new id conn s.user_conn_map;
        redis = r3;
      } in
      let (s2, j, e2, q2) = friends_from-Runs id (add_offline offline (login_ok user)) cached s1 in
      let (m, groups) = GroupModel.query_groups id s2.mysql in
      let s3 : State = record s2 { mysql = m } in
      let (s4, j', e4, q4) = add_groups-Runs id groups j s3 (query_groups-HasNoUsers id s2.mysql) in
      (
        record s4 { sent = s4.sent ++ (conn.handle, json.dump j') ∷ [] },
        ground arith,
        record {
          conns = q4.conns ∙ q2.conns;
          members = λ g u. q4.members g u ∙ q2.members g u;
          text = json.dump j';
          sent = ap (λ l. l ++ (conn.handle, json.dump j') ∷ []) (q4.sent ∙ q2.sent);
        },
      )

  -- The state in which `login` has read the user and asked Redis for its presence.
  abbrev pub asked : ℤ → State → State
  asked id s = record s {
    mysql = (UserModel.query id s.mysql).0;
    redis = (Commands.is_user_online id s.redis).0;
  }

  -- The three branches of a `login` with all its fields: a wrong id or password is refused, with one
  -- response, before Redis is asked; a user who is online is refused, with one response; any other is
  -- entered.
  pub login_branches :
      (conn : TcpConnection) (js : json.Json) (id : ℤ) (password : Str) (s : State)
      → LoginRequest js id password
      → let (m, user) = UserModel.query id s.mysql in
        login conn js s ≡ (
          if eq_ℤ user.id id && str_eq user.password password
          then if (Commands.is_user_online id s.redis).1
            then returned
                (record (asked id s) { sent = s.sent ++ (conn.handle, already_online) ∷ [] })
                tt
            else enter conn id user (asked id s)
          else returned
              (record s { mysql = m; sent = s.sent ++ (conn.handle, wrong_password) ∷ [] })
              tt)
  unfolding login
  login_branches conn js id password s q =
      ground (arith, q.reads_id, q.id_is, q.reads_password, q.password_is)

  -- A complete `login` whose id and password are those of the row that the query finds, by a user whom
  -- Redis does not report as online, returns: the connection is recorded unless the user had one, one
  -- response was sent, on this connection, and no local member of any group was added or removed.
  pub login-HasEntered :
      (conn : TcpConnection) (js : json.Json) (id : ℤ) (s : State)
      → LoginRequest js id (UserModel.query id s.mysql).1.password
      → (UserModel.query id s.mysql).1.id ≡ id
      → (Commands.is_user_online id s.redis).1 ≡ false
      → (s' : State) × (login conn js s ≡ returned s' tt) × HasEntered conn id (asked id s) s'
  login-HasEntered conn js id s q found absent =
      let user = (UserModel.query id s.mysql).1 in
      let (s', e, entered) = enter-HasEntered conn id user (asked id s) in
      (
        s',
        login_branches conn js id user.password s q
            ∙ ground (arith, eq_ℤ_iff user.id id, str_eq_refl user.password),
        entered,
      )

  -- Where the database has no row for the id -1, a complete request with the id -1 and an empty
  -- password is let in, if Redis does not report -1 as online and no connection is recorded under it:
  -- the connection is then recorded under -1. A query that finds no row gives `User()`, whose id is -1
  -- and whose password is empty.
  pub login_default_user :
      (conn : TcpConnection) (js : json.Json) (c : ℕ) (rest : List ℕ) (db : sql.Db) (s : State)
      → LoginRequest js (negsuc 0) []
      → s.mysql.pool.connections ≡ c ∷ rest
      → sql.select_user c (negsuc 0) s.mysql.db ≡ done db []
      → (Commands.is_user_online (negsuc 0) s.redis).1 ≡ false
      → lookup (negsuc 0) s.user_conn_map ≡ none
      → (s' : State) × (login conn js s ≡ returned s' tt)
        × (lookup (negsuc 0) s'.user_conn_map ≡ some conn)
  unfolding UserModel.query str_eq
  login_default_user conn js c rest db s q free no_row absent new =
      let user = (UserModel.query (negsuc 0) s.mysql).1 in
      let (s', e, entered) = enter-HasEntered conn (negsuc 0) user (asked (negsuc 0) s) in
      (
        s',
        login_branches conn js (negsuc 0) [] s q ∙ ground arith,
        rw entered.conns
            (ground (arith, lookup-insert_new (negsuc 0) (negsuc 0) conn s.user_conn_map)),
      )

  -- While the pool has no free connection, a complete request with the id 0 and an empty password is
  -- let in without a look at the database, if Redis does not report the user 0 as online and no
  -- connection is recorded under 0: the connection is then recorded under 0. `query` returns `false`,
  -- which converts to `User(0)`, whose password is empty.
  pub login_empty_pool :
      (conn : TcpConnection) (js : json.Json) (s : State)
      → LoginRequest js (pos 0) []
      → s.mysql.pool.connections ≡ []
      → (Commands.is_user_online (pos 0) s.redis).1 ≡ false
      → lookup (pos 0) s.user_conn_map ≡ none
      → (s' : State) × (login conn js s ≡ returned s' tt)
        × (lookup (pos 0) s'.user_conn_map ≡ some conn)
  unfolding UserModel.query str_eq
  login_empty_pool conn js s q empty absent new =
      let user = (UserModel.query (pos 0) s.mysql).1 in
      let (s', e, entered) = enter-HasEntered conn (pos 0) user (asked (pos 0) s) in
      (
        s',
        login_branches conn js (pos 0) [] s q ∙ ground arith,
        rw entered.conns (ground (arith, lookup-insert_new (pos 0) (pos 0) conn s.user_conn_map)),
      )
