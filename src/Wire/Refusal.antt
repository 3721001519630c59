-- ===== src/Wire/Refusal.antt =====
-- A login that is refused, from end to end.
use cluster_chat_server_soft.Prelude.{
  suc, not, Bool-cases, inl, inr, ◌&&◌, if◌then◌else◌, ◌+◌, ℕ, ◌≡◌, refl, ◌∙◌, ap, Bool, true,
  false, some, List, [], ◌∷◌, ◌++◌, arith,
}
use cluster_chat_server_soft.Prelude.Int.{ℤ, pos, eq_ℤ}
use cluster_chat_server_soft.Prelude.Text.{Str, codes, str_eq}
use cluster_chat_server_soft.External.Sql.{SqlServer}
use cluster_chat_server_soft.External.Redis.{RedisServer}
use cluster_chat_server_soft.External.Json.{JsonLib, JsonLaws}
use cluster_chat_server_soft.Model.UserModel
use cluster_chat_server_soft.RedisClient.Commands
use cluster_chat_server_soft.ChatService.State.{TcpConnection, State}
use cluster_chat_server_soft.ChatService.Protocol.{MsgId, msg_id}
use cluster_chat_server_soft.ChatService.Session.{login}
use cluster_chat_server_soft.ChatService.Entry.{login_branches}
use cluster_chat_server_soft.ChatService.Inbox.{find_handler, handle, on_message}
use cluster_chat_server_soft.Client.Commands.{ClientState}
use cluster_chat_server_soft.Client.Response.{receive, receive_js, login_response, int_at, text_at}
use cluster_chat_server_soft.Client.Start.{login_js, end_login, wait}
use cluster_chat_server_soft.External.Objects.{object, subscript-object}
use cluster_chat_server_soft.Wire.Requests.{ended, on_message-object}
use cluster_chat_server_soft.Wire.Arrival.{login_fields, login_js-LoginRequest}

module _ ⦃sql : SqlServer⦄ ⦃redis : RedisServer⦄ ⦃json : JsonLib⦄ (laws : JsonLaws json) where
  -- The fields of a refusal, the last assigned first.
  abbrev refusal_fields : Str → ℤ → List (Str × json.Json)
  refusal_fields reason errno =
      (codes "errormsg", json.string reason)
      ∷ (codes "errno", json.int errno)
      ∷ (codes "msgid", json.int (pos 2))
      ∷ []

  -- What a client makes of a refusal, and what it can read in it.
  refusal-received :
      (reason : Str) (n : ℕ) (c : ClientState)
      → let j = object (refusal_fields reason (pos (suc n))) in
        (json.parse (json.dump j) ≡ some j)
        × (int_at j (codes "errno") ≡ some (pos (suc n)))
        × (text_at j (codes "errormsg") ≡ some reason)
        × (receive (json.dump j) c
            ≡ some (record c { is_login_success = false; rw_sem = c.rw_sem + 1 }))
  unfolding receive receive_js login_response msg_id str_eq
  refusal-received reason n c =
      let fields = refusal_fields reason (pos (suc n)) in
      (
        laws.parse-dump (object fields),
        ground (
          arith,
          subscript-object laws (codes "errno") (json.int (pos (suc n))) fields refl,
          laws.get_int-int (pos (suc n)),
        ),
        ground (
          arith,
          subscript-object laws (codes "errormsg") (json.string reason) fields refl,
          laws.get_string-string reason,
        ),
        ground (
          arith,
          laws.parse-dump (object fields),
          subscript-object laws (codes "msgid") (json.int (pos 2)) fields refl,
          laws.get_int-int (pos 2),
          subscript-object laws (codes "errno") (json.int (pos (suc n))) fields refl,
          laws.is_zero-int (pos (suc n)),
        ),
      )

  module _ (atoi : Str → ℤ) (now : Str) (takes : Str → Bool) where
    on_message-asks :
        (fuel : ℕ) (conn : TcpConnection) (id : ℤ) (pwd : Str) (s : State)
        → on_message fuel conn (json.dump (login_js atoi now takes id pwd)) s
          ≡ ended (login conn (login_js atoi now takes id pwd) s)
    unfolding handle str_eq find_handler msg_id
    on_message-asks fuel conn id pwd s =
        on_message-object laws fuel conn MsgId.login_msg (login_fields laws atoi now takes id pwd) s
          refl refl

    -- A refused login, the whole way: the text of the client's `login`, read alone by the server, with an
    -- id or a password that is not that of the row which the query finds, or of a user whom Redis reports
    -- as online. The server sends one text on the connection, and its connections and local members are
    -- as before. The text gives the error 1 with the one reason or, where id and password are right, the
    -- error 2 with the other. A client that receives it, whole and alone, comes out of `sem_wait` into
    -- the start menu: it has not logged in, and nothing else about it has changed.
    pub login_refused :
        (fuel : ℕ) (conn : TcpConnection) (id : ℤ) (pwd : Str) (s : State) (c : ClientState)
        → (let user = (UserModel.query id s.mysql).1 in
            (eq_ℤ user.id id && str_eq user.password pwd)
            && not (Commands.is_user_online id s.redis).1)
          ≡ false
        → let user = (UserModel.query id s.mysql).1 in
          let known = eq_ℤ user.id id && str_eq user.password pwd in
          (s' : State) × (j : json.Json) × (c' : ClientState) × (on_message fuel conn
              (json.dump (login_js atoi now takes id pwd))
              s
            ≡ some s')
          × (s'.sent ≡ s.sent ++ (conn.handle, json.dump j) ∷ [])
          × (s'.user_conn_map ≡ s.user_conn_map)
          × (s'.group_members ≡ s.group_members)
          × (json.parse (json.dump j) ≡ some j)
          × (int_at j (codes "errno") ≡ some (if known then pos 2 else pos 1))
          × (text_at j (codes "errormsg")
              ≡ some (if known then codes "该账号已经登陆，请重新输入账号" else codes "账号或密码输入错误"))
          × (receive (json.dump j) c ≡ some c')
          × (end_login c' ≡ some (record c { is_login_success = false }))
    unfolding end_login wait msg_id
    login_refused fuel conn id pwd s c refused =
        let user = (UserModel.query id s.mysql).1 in
        let known = eq_ℤ user.id id && str_eq user.password pwd in
        let branches =
          on_message-asks fuel conn id pwd s
          ∙ ap ended (
              login_branches conn (login_js atoi now takes id pwd) id pwd s
                (login_js-LoginRequest laws atoi now takes id pwd)) in
        elim (Bool-cases known) [
          | inl right ↦
              let (p, n, r, e) = refusal-received (codes "该账号已经登陆，请重新输入账号") 1 c in
              let there : (Commands.is_user_online id s.redis).1 ≡ true = ground arith in
              (
                _,
                _,
                _,
                rw (right, there) at branches,
                refl,
                refl,
                refl,
                p,
                n ∙ ground arith,
                r ∙ ground arith,
                e,
                ground arith,
              )
          | inr wrong ↦
              let (p, n, r, e) = refusal-received (codes "账号或密码输入错误") 0 c in
              (
                _,
                _,
                _,
                rw wrong at branches,
                refl,
                refl,
                refl,
                p,
                n ∙ ground arith,
                r ∙ ground arith,
                e,
                ground arith,
              )
        ]
