-- ===== src/ChatService/State.antt =====
-- The members of `ChatService` (include/server/chatservice.hpp), what a handler comes to, and the
-- calls by which the handlers reach the parts. A handler runs as one step of the model.
use cluster_chat_server_soft.Prelude.{ℕ, Bool, Option, none, some, List, [], ◌∷◌, ◌++◌}
use cluster_chat_server_soft.Prelude.Int.{ℤ}
use cluster_chat_server_soft.Prelude.Text.{Str}
use cluster_chat_server_soft.External.Sql.{SqlServer}
use cluster_chat_server_soft.External.Redis.{RedisServer}
use cluster_chat_server_soft.Model.Connection.{Mysql}
use cluster_chat_server_soft.Model.OfflineMessage.{Offline}
use cluster_chat_server_soft.Model.OfflineMessage
use cluster_chat_server_soft.RedisClient.Core.{Redis, Client}
use cluster_chat_server_soft.RedisClient.Subscriber.{Subs}

-- A `TcpConnectionPtr`: `handle` stands for the pointer.
pub record TcpConnection : Type 0 where
  pub handle : ℕ
  pub name : Str

-- `sent` lists what was sent to which connection, the oldest first.
pub record Service (Db Store Sub : Type 0) : Type 0 where
  pub user_conn_map : List (ℤ × TcpConnection)
  pub group_members : List (ℤ × List ℤ)
  pub mysql : Mysql Db
  pub failed_queue : List (ℤ × Str)
  pub redis : Redis Store Sub
  pub sent : List (ℕ × Str)

-- A handler returns, throws, or has not returned within the rounds that `OfflineMessage::insert` was
-- given.
pub data Ended (S A : Type 0) : Type 0 where
  returned : S → A → Ended S A
  threw : S → Ended S A
  running : Ended S A

infixl 5 ◌>>=◌ ◌>>◌
abbrev pub ◌>>=◌ : {S A B : Type 0} → (S → Ended S A) → (A → S → Ended S B) → S → Ended S B
◌>>=◌ m f s = elim (m s) [ returned s' a ↦ f a s' | threw s' ↦ threw s' | running ↦ running ]

abbrev pub ◌>>◌ : {S B : Type 0} → (S → Ended S (Unit {0})) → (S → Ended S B) → S → Ended S B
m >> k = m >>= λ _. k

abbrev pub pure : {S A : Type 0} → A → S → Ended S A
pure a s = returned s a

abbrev pub raise : {S A : Type 0} → S → Ended S A
raise s = threw s

abbrev pub gets : {S A : Type 0} → (S → A) → S → Ended S A
gets f s = returned s (f s)

abbrev pub or_raise : {S A : Type 0} → Option A → S → Ended S A
or_raise none = raise
or_raise (some a) = pure a

-- `conn->send(text)`.
abbrev pub send :
    {Db Store Sub : Type 0}
    → ℕ
    → Str
    → Service Db Store Sub
    → Ended (Service Db Store Sub) (Unit {0})
send handle text s = returned (record s { sent = s.sent ++ (handle, text) ∷ [] }) tt

module _ ⦃sql : SqlServer⦄ ⦃redis : RedisServer⦄ where
  abbrev pub State : Type 0
  State = Service sql.Db redis.Store redis.Sub

  abbrev pub M : Type 0 → Type 0
  M A = State → Ended State A

  abbrev pub on_mysql : {A : Type 0} → (Mysql sql.Db → Mysql sql.Db × A) → M A
  on_mysql f s = let (m, a) = f s.mysql in returned (record s { mysql = m }) a

  abbrev pub on_redis : {A : Type 0} → (Client → Client × A) → M A
  on_redis f s = let (r, a) = f s.redis in returned (record s { redis = r }) a

  abbrev pub do_mysql : (Mysql sql.Db → Mysql sql.Db) → M (Unit {0})
  do_mysql f s = returned (record s { mysql = f s.mysql }) tt

  abbrev pub do_redis : (Client → Client) → M (Unit {0})
  do_redis f s = returned (record s { redis = f s.redis }) tt

  -- A call on the subscriptions of the client.
  abbrev pub do_subs : (Subs → Subs) → M (Unit {0})
  do_subs f s = returned (record s { redis = record s.redis { subs = f s.redis.subs } }) tt

  abbrev pub set_user_conn_map :
      (List (ℤ × TcpConnection) → List (ℤ × TcpConnection)) → M (Unit {0})
  set_user_conn_map f s = returned (record s { user_conn_map = f s.user_conn_map }) tt

  abbrev pub set_group_members : (List (ℤ × List ℤ) → List (ℤ × List ℤ)) → M (Unit {0})
  set_group_members f s = returned (record s { group_members = f s.group_members }) tt

  -- The end of `offlineMsgModel_.insert`, whose result the service drops.
  abbrev pub after_insert : State → Option (Offline sql.Db × Bool) → Ended State (Unit {0})
  after_insert s none = running
  after_insert s (some (o, ok)) =
      returned (record s { mysql = o.mysql; failed_queue = o.failed_queue }) tt

  abbrev pub insert_offline : ℕ → ℤ → Str → M (Unit {0})
  insert_offline fuel userid message s = after_insert s (
      OfflineMessage.insert fuel userid message
        (record { mysql = s.mysql; failed_queue = s.failed_queue }))
