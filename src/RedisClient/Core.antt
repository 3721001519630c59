-- ===== src/RedisClient/Core.antt =====
-- The state of a `RedisClient`, and `getConnFromPool` and `releaseConnToPool` of redisclient.cpp.
use cluster_chat_server_soft.Prelude.{ℕ, Bool, some, List}
use cluster_chat_server_soft.Prelude.Int.{ℤ, pos}
use cluster_chat_server_soft.Prelude.Text.{Str}
use cluster_chat_server_soft.External.{Outcome, done, threw}
use cluster_chat_server_soft.External.Redis.{RedisServer}
use cluster_chat_server_soft.RedisPool.{RedisPool, got, null, blocked, acquire, release}

pub data SubTask : Type 0 where
  subscribe unsubscribe : ℤ → SubTask
  stop : SubTask

-- What the subscriber thread and the callers share: `sub_tasks_`, `sub_group_set_` and `stopped_`,
-- with the subscriber object of the thread.
pub record Subscriptions (Sub : Type 0) : Type 0 where
  pub sub : Sub
  pub sub_tasks : List SubTask
  pub sub_group_set : List ℤ
  pub stopped : Bool

-- `waiting` is what the other threads do to the pool while a call of this client waits for it.
pub record Redis (Store Sub : Type 0) : Type 0 where
  pub store : Store
  pub pool : RedisPool
  pub waiting : RedisPool → RedisPool
  pub local_node_id : Str
  pub subs : Subscriptions Sub

-- The constructor's default, which `ChatService` takes.
abbrev pub pool_wait_ms : ℤ
pool_wait_ms = pos 5000

module _ ⦃redis : RedisServer⦄ where
  abbrev pub Client : Type 0
  Client = Redis redis.Store redis.Sub

  -- The frame of every method: no connection gives `missing`; an exception in the `try` block is
  -- logged and gives `missing` too; and the connection goes back to the pool on both ways. A wait of
  -- 5000 ms ends, so `acquire` is never blocked.
  unfoldable pub with_conn :
      {A : Type 0} → A → (ℕ → redis.Store → Outcome redis.Store A) → Client → Client × A
  unfolding acquire release
  with_conn missing body r = elim (acquire pool_wait_ms r.waiting r.pool) [
    | got conn rest ↦ elim (body conn r.store) [
      | done store a ↦ (record r { store = store; pool = release (some conn) rest }, a)
      | threw store ↦ (record r { store = store; pool = release (some conn) rest }, missing)
    ]
    | null rest ↦ (record r { pool = rest }, missing)
    | blocked rest ↦ (record r { pool = rest }, missing)
  ]
