-- ===== src/ChatService/Outcomes.antt =====
-- The invariant under `ChatServer::onMessage`, `onConnection` and the messages of the channels, and
-- which of these calls end.
use cluster_chat_server_soft.Prelude.{
  ℕ, ◌≡◌, refl, Bool, true, false, Option, none, some, inl, inr, Option-cases, arith, List,
}
use cluster_chat_server_soft.Prelude.Int.{ℤ, pos, eq_ℤ_iff}
use cluster_chat_server_soft.Prelude.IntMap.{lookup}
use cluster_chat_server_soft.Prelude.Text.{Str, codes}
use cluster_chat_server_soft.External.Sql.{SqlServer}
use cluster_chat_server_soft.External.Redis.{RedisServer}
use cluster_chat_server_soft.External.Json.{JsonLib}
use cluster_chat_server_soft.ChatService.State.{
  TcpConnection, State, Ended, returned, threw, running, gets, ◌>>=◌,
}
use cluster_chat_server_soft.ChatService.Protocol.{
  MsgId, login_msg, login_msg_ack, login_out_msg, reg_msg, reg_msg_ack, one_chat_msg,
  add_friend_msg, create_group_msg, join_group_msg, group_chat_msg, one_chat_msg_ack, int_field,
}
use cluster_chat_server_soft.ChatService.Keeps.{
  Keeps, Leaves, Keeps-pure, Keeps-bind-or_raise, Keeps-bind-field, Keeps-branch, keeps_rules,
}
use cluster_chat_server_soft.ChatService.Sound.{IsSound, Ends, Keeps-insert_offline}
use cluster_chat_server_soft.ChatService.Preservation.{
  login-IsSound, login_out-IsSound, reg-IsSound, one_chat-IsSound, add_friend-IsSound,
  create_group-IsSound, join_group-IsSound, group_chat-IsSound, client_quit-IsSound, sound_rules,
}
use cluster_chat_server_soft.ChatService.Inbox.{
  mapped, find_handler, forward, broadcast, inbox_callback, on_channel_message, handle, dispatch,
  on_message, on_connection,
}

-- A text that is routed to `oneChat`.
pub record IsChat ⦃json : JsonLib⦄ (buf : Str) : Type 0 where
  pub js : json.Json
  pub value : json.Json
  pub parses : json.parse buf ≡ some js
  pub reads : json.subscript js (codes "msgid") ≡ some value
  pub is_six : json.get_int value ≡ some (pos 6)

-- A message of a channel with a receiver.
pub record IsAddressed ⦃json : JsonLib⦄ (msg : Str) : Type 0 where
  pub j : json.Json
  pub parses : json.parse msg ≡ some j
  pub has_to : json.contains j (codes "to") ≡ true

find_handler-chat : (n : ℤ) → find_handler mapped n ≡ some one_chat_msg → n ≡ pos 6
unfolding find_handler
find_handler-chat n e =
    ground (arith, eq_ℤ_iff (pos 1) n, eq_ℤ_iff (pos 3) n, eq_ℤ_iff (pos 4) n, eq_ℤ_iff (pos 6) n)

-- What holds of the state that a call leaves, or `R` where the call has not returned.
abbrev pub Reaches : {S : Type 0} → Type 0 → (S → Type 0) → Option S → Type 0
Reaches R P none = R
Reaches R P (some s) = P s

module _ {R : Type 0} ⦃sql : SqlServer⦄ ⦃redis : RedisServer⦄ ⦃json : JsonLib⦄ where
  handle-IsSound :
      (fuel : ℕ) (conn : TcpConnection) (js : json.Json) (h : Option MsgId)
      → (h ≡ some one_chat_msg → Ends fuel R)
      → Keeps R IsSound (handle fuel conn js h)
  unfolding handle
  handle-IsSound fuel conn js none r = Keeps-pure tt
  handle-IsSound fuel conn js (some login_msg) r = login-IsSound conn js
  handle-IsSound fuel conn js (some login_out_msg) r = login_out-IsSound js
  handle-IsSound fuel conn js (some reg_msg) r = reg-IsSound conn js
  handle-IsSound fuel conn js (some one_chat_msg) r = one_chat-IsSound fuel conn js (r refl)
  handle-IsSound fuel conn js (some add_friend_msg) r = add_friend-IsSound js
  handle-IsSound fuel conn js (some create_group_msg) r = create_group-IsSound js
  handle-IsSound fuel conn js (some join_group_msg) r = join_group-IsSound js
  handle-IsSound fuel conn js (some group_chat_msg) r = group_chat-IsSound js
  handle-IsSound fuel conn js (some login_msg_ack) r = Keeps-pure tt
  handle-IsSound fuel conn js (some reg_msg_ack) r = Keeps-pure tt
  handle-IsSound fuel conn js (some one_chat_msg_ack) r = Keeps-pure tt

  dispatch-IsSound :
      (fuel : ℕ) (conn : TcpConnection) (buf : Str)
      → (IsChat buf → Ends fuel R)
      → Keeps R IsSound (dispatch fuel conn buf)
  unfolding dispatch
  dispatch-IsSound fuel conn buf r =
      Keeps-bind-or_raise (json.parse buf)
        (λ js. int_field js (codes "msgid") >>= λ n. handle fuel conn js (find_handler mapped n))
        λ js parses.
          Keeps-bind-field (json.subscript js (codes "msgid")) json.get_int
            (λ n. handle fuel conn js (find_handler mapped n))
            λ v n reads is_int. handle-IsSound fuel conn js (find_handler mapped n) λ routed.
              r (record {
                js = js;
                value = v;
                parses = parses;
                reads = reads;
                is_six = rw⁻¹ (find_handler-chat n routed) is_int;
              })

module _ (R : Type 0) ⦃sql : SqlServer⦄ ⦃redis : RedisServer⦄ ⦃json : JsonLib⦄ where
  logged-Reaches :
      (o : Ended State (Unit {0}))
      → Leaves R IsSound o
      → Reaches R IsSound (elim o [ returned s' _ ↦ some s' | threw s' ↦ some s' | running ↦ none ])
  logged-Reaches (returned s a) h = h
  logged-Reaches (threw s) h = h
  logged-Reaches running h = h

  pub on_message-Reaches :
      (fuel : ℕ) (conn : TcpConnection) (buf : Str) (s : State)
      → IsSound s
      → (IsChat buf → Ends fuel R)
      → Reaches R IsSound (on_message fuel conn buf s)
  unfolding on_message
  on_message-Reaches fuel conn buf s h r =
      logged-Reaches _ ((dispatch-IsSound fuel conn buf r).at s h)

  pub on_connection-Reaches :
      (conn : TcpConnection) (connected : Bool) (s : State)
      → IsSound s
      → Reaches R IsSound (on_connection conn connected s)
  unfolding on_connection
  on_connection-Reaches conn true s h = h
  on_connection-Reaches conn false s h = logged-Reaches _ ((client_quit-IsSound conn).at s h)

module _ {R : Type 0} ⦃sql : SqlServer⦄ ⦃redis : RedisServer⦄ ⦃json : JsonLib⦄ where
  forward-IsSound :
      (fuel : ℕ) (to : ℤ) (text : Str) (peer : Option TcpConnection)
      → Ends fuel R
      → Keeps R IsSound (forward fuel to text peer)
  unfolding forward
  forward-IsSound fuel to text (some conn) r = search sound_rules
  forward-IsSound fuel to text none r = search (sound_rules, Keeps-insert_offline)

  broadcast-IsSound : (text : Str) (uids : Option (List ℤ)) → Keeps R IsSound (broadcast text uids)
  unfolding broadcast
  broadcast-IsSound text none = record { at = λ s h. h }
  broadcast-IsSound text (some uids) = record {
    at = λ s h. record { conns = h.conns; members = h.members; lending = h.lending };
  }

  group_message-IsSound :
      (j : json.Json)
      → Keeps R IsSound (do
        groupid ← int_field j (codes "groupid")
        uids ← gets (λ s. lookup groupid s.group_members)
        broadcast (json.dump j) uids)
  group_message-IsSound j = search (sound_rules, broadcast-IsSound) depth 30

  inbox_callback-IsSound :
      (fuel : ℕ) (j : json.Json)
      → (json.contains j (codes "to") ≡ true → Ends fuel R)
      → Keeps R IsSound (inbox_callback fuel j)
  unfolding inbox_callback
  inbox_callback-IsSound fuel j r =
      Keeps-branch (json.contains j (codes "to")) _ _
        (λ addressed. let ends = r addressed in search (sound_rules, forward-IsSound) depth 30)
        (search (keeps_rules, group_message-IsSound))

module _ (R : Type 0) ⦃sql : SqlServer⦄ ⦃redis : RedisServer⦄ ⦃json : JsonLib⦄ where
  pub on_channel_message-Reaches :
      (fuel : ℕ) (msg : Str) (s : State)
      → IsSound s
      → (IsAddressed msg → Ends fuel R)
      → Reaches R IsSound (on_channel_message true fuel msg s)
  unfolding on_channel_message
  on_channel_message-Reaches fuel msg s h r = elim (Option-cases (json.parse msg)) [
    | inl e ↦ rw (e, Reaches) h
    | inr (j, e) ↦
        rw (e, Reaches)
          (logged-Reaches R _ (
            (inbox_callback-IsSound fuel j (λ to. r (record { j = j; parses = e; has_to = to }))).at
              s h))
  ]
