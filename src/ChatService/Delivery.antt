-- ===== src/ChatService/Delivery.antt =====
-- What `oneChat` does with a complete request.
use mathlib.Core.List.{append-nil}
use cluster_chat_server_soft.Prelude.{
  ℕ, ◌≤◌, ◌≢◌, ◌≡◌, refl, ◌∙◌, Bool, true, false, none, some, List, [], ◌∷◌, ◌++◌, arith, inl, inr,
  Bool-cases,
}
use cluster_chat_server_soft.Prelude.Int.{ℤ, ltb_ℤ, ltb_ℤ_antisym}
use cluster_chat_server_soft.Prelude.IntMap.{lookup}
use cluster_chat_server_soft.Prelude.Text.{Str, codes}
use cluster_chat_server_soft.External.Sql.{SqlServer}
use cluster_chat_server_soft.External.Redis.{RedisServer}
use cluster_chat_server_soft.External.Json.{JsonLib}
use cluster_chat_server_soft.Model.FriendModel
use cluster_chat_server_soft.Model.OfflineMessage
use cluster_chat_server_soft.Model.OfflineMessage.{Offline}
use cluster_chat_server_soft.Model.Friendship.{has_friend, FriendTable, query-lists-greater}
use cluster_chat_server_soft.Model.Retries.{Accepts, insert-accepted}
use cluster_chat_server_soft.Model.Kept.{MessageTable, insert-kept_messages}
use cluster_chat_server_soft.ChatService.State.{TcpConnection, State, returned}
use cluster_chat_server_soft.ChatService.Chat.{
  one_chat, chat_to, no_this_friend, msg_have_sent, send_offline_msg,
}

-- A request of `oneChat` with all its fields: a text that is not empty, the sender and the receiver.
pub record ChatRequest ⦃json : JsonLib⦄ (js : json.Json) (id to : ℤ) : Type 0 where
  pub msg : json.Json
  pub first : ℕ
  pub others : Str
  pub has_msg : json.subscript js (codes "msg") ≡ some msg
  pub not_null : json.is_null msg ≡ false
  pub is_text : json.get_string msg ≡ some (first ∷ others)
  pub has_id : json.contains js (codes "id") ≡ true
  pub has_to : json.contains js (codes "to") ≡ true
  pub id_value : json.Json
  pub to_value : json.Json
  pub reads_id : json.subscript js (codes "id") ≡ some id_value
  pub reads_to : json.subscript js (codes "to") ≡ some to_value
  pub id_is : json.get_int id_value ≡ some id
  pub to_is : json.get_int to_value ≡ some to

module _ ⦃sql : SqlServer⦄ ⦃redis : RedisServer⦄ ⦃json : JsonLib⦄ where
  pub one_chat-chat_to :
      (fuel : ℕ) (conn : TcpConnection) (js : json.Json) (id to : ℤ) (s : State)
      → ChatRequest js id to
      → one_chat fuel conn js s ≡ chat_to fuel conn js id to s
  unfolding one_chat
  one_chat-chat_to fuel conn js id to s q = ground (
    arith, q.has_msg, q.not_null, q.is_text, q.has_id, q.has_to, q.reads_id, q.reads_to, q.id_is,
    q.to_is,
  )

  -- A complete message to a friend whom the friend query lists and who is connected here: the sender
  -- gets the acknowledgement, and then the friend the message, unchanged and once. Nobody else gets
  -- anything, and nothing is stored; of the state only what was sent and what the friend query touches
  -- (the database and its pool) changes.
  pub one_chat-connected :
      (fuel : ℕ) (conn peer : TcpConnection) (js : json.Json) (id to : ℤ) (s : State)
      → ChatRequest js id to
      → has_friend (FriendModel.query id s.mysql).1 to ≡ true
      → lookup to s.user_conn_map ≡ some peer
      → one_chat fuel conn js s
        ≡ returned
            (record s {
              mysql = (FriendModel.query id s.mysql).0;
              sent =
                  (s.sent ++ (conn.handle, msg_have_sent) ∷ []) ++ (peer.handle, json.dump js) ∷ [];
            })
            tt
  unfolding chat_to
  one_chat-connected fuel conn peer js id to s q friend there =
      one_chat-chat_to fuel conn js id to s q ∙ ground arith

  -- A complete message to somebody whom the friend query does not list is refused: the sender gets the
  -- error, and nobody else gets or keeps anything.
  pub one_chat-stranger :
      (fuel : ℕ) (conn : TcpConnection) (js : json.Json) (id to : ℤ) (s : State)
      → ChatRequest js id to
      → has_friend (FriendModel.query id s.mysql).1 to ≡ false
      → one_chat fuel conn js s
        ≡ returned
            (record s {
              mysql = (FriendModel.query id s.mysql).0;
              sent = s.sent ++ (conn.handle, no_this_friend) ∷ [];
            })
            tt
  unfolding chat_to
  one_chat-stranger fuel conn js id to s q stranger =
      one_chat-chat_to fuel conn js id to s q ∙ ground arith

  -- A complete message to a user with a smaller id is always refused, whatever friendships were stored,
  -- since the table `Friend` holds each friendship once, under the smaller id, as its CHECK demands: the
  -- sender is told that there is no such friend, and nobody else gets or keeps anything.
  pub one_chat-smaller_id :
      (stored : sql.Db → ℤ → ℤ → Bool) (table : FriendTable stored) (fuel : ℕ)
      (conn : TcpConnection) (js : json.Json) (id to : ℤ) (s : State)
      → ChatRequest js id to
      → ltb_ℤ to id ≡ true
      → one_chat fuel conn js s
        ≡ returned
            (record s {
              mysql = (FriendModel.query id s.mysql).0;
              sent = s.sent ++ (conn.handle, no_this_friend) ∷ [];
            })
            tt
  one_chat-smaller_id stored table fuel conn js id to s q smaller =
      one_chat-stranger fuel conn js id to s q
        (elim (Bool-cases (has_friend (FriendModel.query id s.mysql).1 to)) [
          | inl listed ↦
              cc
                (ltb_ℤ_antisym to id smaller, query-lists-greater stored table id to s.mysql listed)
          | inr hidden ↦ hidden
        ])

  chat_to_absent :
      (fuel : ℕ) (conn : TcpConnection) (js : json.Json) (id to : ℤ) (s : State)
      (o : Offline sql.Db) (ok : Bool)
      → has_friend (FriendModel.query id s.mysql).1 to ≡ true
      → lookup to s.user_conn_map ≡ none
      → OfflineMessage.insert fuel to
          (json.dump js)
          (record { mysql = (FriendModel.query id s.mysql).0; failed_queue = s.failed_queue })
        ≡ some (o, ok)
      → chat_to fuel conn js id to s
        ≡ returned
            (record s {
              mysql = o.mysql;
              failed_queue = o.failed_queue;
              sent = s.sent ++ (conn.handle, send_offline_msg) ∷ [];
            })
            tt
  unfolding chat_to
  chat_to_absent fuel conn js id to s o ok friend away e = ground arith

  -- A complete message to a friend who is not connected here, while the database takes messages, in the
  -- order in which they come, and the friend query leaves a free connection: the handler returns within
  -- one round; MySQL's table holds what it held, what waited in the queue and then the text, and the
  -- queue is empty; the sender gets the acknowledgement, and nobody else gets anything; neither Redis
  -- nor the recorded connections change.
  pub one_chat-absent :
      (stored : sql.Db → List (ℤ × Str)) (table : MessageTable sql stored) (fuel : ℕ)
      (conn : TcpConnection) (js : json.Json) (id to : ℤ) (s : State)
      → ChatRequest js id to
      → has_friend (FriendModel.query id s.mysql).1 to ≡ true
      → lookup to s.user_conn_map ≡ none
      → 1 ≤ fuel
      → Accepts sql
      → (FriendModel.query id s.mysql).0.pool.connections ≢ []
      → (s' : State) × (one_chat fuel conn js s ≡ returned s' tt)
        × (stored s'.mysql.db
            ≡ (stored (FriendModel.query id s.mysql).0.db ++ s.failed_queue)
              ++ (to, json.dump js) ∷ [])
        × (s'.failed_queue ≡ [])
        × (s'.sent ≡ s.sent ++ (conn.handle, send_offline_msg) ∷ [])
        × (s'.redis ≡ s.redis)
        × (s'.user_conn_map ≡ s.user_conn_map)
  one_chat-absent stored table fuel conn js id to s q friend away h accepts ne =
      let m : Offline sql.Db = record {
        mysql = (FriendModel.query id s.mysql).0;
        failed_queue = s.failed_queue;
      } in
      let (o, e) = insert-accepted fuel to (json.dump js) m h accepts ne in
      let (kept, empty) = insert-kept_messages stored table fuel to (json.dump js) m o true e in
      (
        record s {
          mysql = o.mysql;
          failed_queue = o.failed_queue;
          sent = s.sent ++ (conn.handle, send_offline_msg) ∷ [];
        },
        one_chat-chat_to fuel conn js id to s q
            ∙ chat_to_absent fuel conn js id to s o true friend away e,
        ground (arith, kept, empty, append-nil (stored o.mysql.db)),
        empty,
        refl,
        refl,
        refl,
      )
