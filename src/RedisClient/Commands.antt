-- ===== src/RedisClient/Commands.antt =====
-- The methods of redisclient.cpp that send commands.
use cluster_chat_server_soft.Prelude.{
  ℕ, Bool, false, Option, none, some, List, [], ◌++◌, ltb, if◌then◌else◌,
}
use cluster_chat_server_soft.Prelude.Int.{ℤ}
use cluster_chat_server_soft.Prelude.Text.{Str, codes, str_eq, to_string}
use cluster_chat_server_soft.External.{Outcome, done, threw, ◌>>◌}
use cluster_chat_server_soft.External.Redis.{RedisServer, Write}
use cluster_chat_server_soft.RedisClient.Core.{Client, with_conn}

unfoldable pub user_key : ℤ → Str
user_key user_id = codes "user:" ++ to_string user_id

unfoldable pub offline_key : ℤ → Str
offline_key user_id = codes "offline:" ++ to_string user_id

unfoldable pub group_channel : ℤ → Str
group_channel group_id = codes "group:" ++ to_string group_id

-- `val && *val == "1"`.
abbrev pub is_one : Option Str → Bool
is_one none = false
is_one (some val) = str_eq val (codes "1")

-- `val ? *val : ""`.
abbrev pub or_empty : Option Str → Str
or_empty none = []
or_empty (some val) = val

module _ ⦃redis : RedisServer⦄ where
  abbrev pub returning :
      {A B : Type 0}
      → (A → B)
      → (redis.Store → Outcome redis.Store A)
      → redis.Store
      → Outcome redis.Store B
  returning f m s = elim (m s) [ done s' a ↦ done s' (f a) | threw s' ↦ threw s' ]

  abbrev pub presence_writes : ℤ → Str → Str → ℕ → redis.Store → Outcome redis.Store (Unit {0})
  presence_writes user_id node conn_id conn = do
    redis.write conn (Write.hset (user_key user_id) (codes "online") (codes "1"))
    redis.write conn (Write.hset (user_key user_id) (codes "node") node)
    redis.write conn (Write.hset (user_key user_id) (codes "conn") conn_id)
    redis.write conn (Write.expire (user_key user_id) 120)

  unfoldable pub set_user_online : ℤ → Str → Client → Client
  unfolding with_conn
  set_user_online user_id conn_id r =
      (with_conn tt (presence_writes user_id r.local_node_id conn_id) r).0

  unfoldable pub is_user_online : ℤ → Client → Client × Bool
  unfolding with_conn str_eq
  is_user_online user_id =
      with_conn false
        (λ conn. returning is_one (redis.hget conn (user_key user_id) (codes "online")))

  unfoldable pub get_user_conn_id : ℤ → Client → Client × Str
  unfolding with_conn
  get_user_conn_id user_id =
      with_conn [] (λ conn. returning or_empty (redis.hget conn (user_key user_id) (codes "conn")))

  unfoldable pub get_user_node : ℤ → Client → Client × Str
  unfolding with_conn
  get_user_node user_id =
      with_conn [] (λ conn. returning or_empty (redis.hget conn (user_key user_id) (codes "node")))

  abbrev pub presence_deletes : ℤ → ℕ → redis.Store → Outcome redis.Store (Unit {0})
  presence_deletes user_id conn = do
    redis.write conn (Write.hdel (user_key user_id) (codes "online"))
    redis.write conn (Write.hdel (user_key user_id) (codes "conn"))
    redis.write conn (Write.hdel (user_key user_id) (codes "node"))

  unfoldable pub set_user_offline : ℤ → Client → Client
  unfolding with_conn
  set_user_offline user_id r = (with_conn tt (presence_deletes user_id) r).0

  -- The caller dumps the message.
  unfoldable pub push_offline_message : ℤ → Str → Client → Client
  unfolding with_conn
  push_offline_message user_id msg r =
      (with_conn tt (λ conn. redis.write conn (Write.lpush (offline_key user_id) msg)) r).0

  -- The frame of `popOfflineMessages`: messages that were read stay in the result where `del` throws.
  abbrev pub pop_body : ℤ → ℕ → redis.Store → Outcome redis.Store (List Str)
  pop_body user_id conn store = elim (redis.lrange conn (offline_key user_id) store) [
    | done store' messages ↦ elim (redis.write conn (Write.del (offline_key user_id)) store') [
      | done store'' _ ↦ done store'' messages
      | threw store'' ↦ done store'' messages
    ]
    | threw store' ↦ threw store'
  ]

  unfoldable pub pop_offline_messages : ℤ → Client → Client × List Str
  unfolding with_conn
  pop_offline_messages user_id = with_conn [] (pop_body user_id)

  unfoldable pub hset : Str → Str → Str → Client → Client
  unfolding with_conn
  hset key field value r =
      (with_conn tt (λ conn. redis.write conn (Write.hset key field value)) r).0

  unfoldable pub hget : Str → Str → Client → Client × Option Str
  unfolding with_conn
  hget key field = with_conn none (λ conn. redis.hget conn key field)

  unfoldable pub hdel : Str → Str → Client → Client
  unfolding with_conn
  hdel key field r = (with_conn tt (λ conn. redis.write conn (Write.hdel key field)) r).0

  -- `set`, with a time to live in seconds, 0 for none.
  unfoldable pub set : Str → Str → ℕ → Client → Client
  unfolding with_conn
  set key value ttl r =
      (with_conn tt
        (λ conn.
          redis.write conn (if ltb 0 ttl then Write.set_ex key value ttl else Write.set key value))
        r).0

  unfoldable pub get : Str → Client → Client × Option Str
  unfolding with_conn
  get key = with_conn none (λ conn. redis.get conn key)

  unfoldable pub del : Str → Client → Client
  unfolding with_conn
  del key r = (with_conn tt (λ conn. redis.write conn (Write.del key)) r).0

  unfoldable pub expire : Str → ℕ → Client → Client
  unfolding with_conn
  expire key ttl r = (with_conn tt (λ conn. redis.write conn (Write.expire key ttl)) r).0

  unfoldable pub sadd : Str → Str → Client → Client
  unfolding with_conn
  sadd key member r = (with_conn tt (λ conn. redis.write conn (Write.sadd key member)) r).0

  unfoldable pub sismember : Str → Str → Client → Client × Bool
  unfolding with_conn
  sismember key member = with_conn false (λ conn. redis.sismember conn key member)

  -- `publishGroupMessage` and `publishNodeInbox`, of the dumped message.
  unfoldable pub publish_group_message : ℤ → Str → Client → Client
  unfolding with_conn
  publish_group_message group_id msg r =
      (with_conn tt (λ conn. redis.write conn (Write.publish (group_channel group_id) msg)) r).0

  unfoldable pub publish_node_inbox : Str → Str → Client → Client
  unfolding with_conn
  publish_node_inbox dest_node msg r =
      (with_conn tt
        (λ conn.
          redis.write conn (Write.publish (codes "node:" ++ dest_node ++ codes ":inbox") msg))
        r).0
