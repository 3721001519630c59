-- ===== src/Server/StartUp.antt =====
-- `main` of src/server/main.cpp up to `server.start()`, with the constructors of `ChatService` and
-- `RedisClient` that it reaches. The event loop and the listening socket are muduo's; the subscriber
-- thread that `RedisClient` starts is that of RedisClient/Thread.
use cluster_chat_server_soft.Prelude.{ℕ, Bool, false, Option, []}
use cluster_chat_server_soft.Prelude.Int.{pos}
use cluster_chat_server_soft.Prelude.Text.{codes}
use cluster_chat_server_soft.External.Sql.{SqlServer}
use cluster_chat_server_soft.External.Redis.{RedisServer}
use cluster_chat_server_soft.External.Json.{JsonLib}
use cluster_chat_server_soft.MysqlPool.{
  create_connection, MysqlPool, init_pool, all_made, connect_threw, no_driver,
}
use cluster_chat_server_soft.RedisPool.{RedisPool}
use cluster_chat_server_soft.RedisPool
use cluster_chat_server_soft.Config.{unloaded}
use cluster_chat_server_soft.RedisClient.Core.{Client}
use cluster_chat_server_soft.ChatService.State.{State, returned, threw, running}
use cluster_chat_server_soft.ChatService.Session

-- What the server finds when it starts. `driver` says whether the connector gives its driver, `connect`, `set_schema`
-- and `connect_redis` what comes of the attempts to connect; `sub` is the subscriber before its
-- thread has set it up, and `waiting` what the other threads do to the Redis pool during a wait.
pub record Host ⦃sql : SqlServer⦄ ⦃redis : RedisServer⦄ : Type 0 where
  pub driver : Bool
  pub connect : ℕ → Option ℕ
  pub set_schema : ℕ → Bool
  pub connect_redis : ℕ → Option ℕ
  pub db : sql.Db
  pub store : redis.Store
  pub sub : redis.Sub
  pub waiting : RedisPool → RedisPool

-- The pools that the two `getInstance` make. The members without an initialiser are assigned by
-- `initPool` and `init` before they are read.
abbrev pub new_mysql_pool : MysqlPool
new_mysql_pool = record {
  url = [];
  database_name = [];
  user = [];
  password = [];
  pool_size = 0;
  connections = [];
}

abbrev pub new_redis_pool : RedisPool
new_redis_pool = record {
  host = [];
  port = pos 0;
  password = [];
  stopped = false;
  connections = [];
}

abbrev pub pool_size : ℕ
pool_size = 8

-- What comes of the start: the server listens, an exception has left `main`, or the program has
-- read a pointer that nothing has set.
pub data Start (S : Type 0) : Type 0 where
  up : S → Start S
  terminated : Start S
  undefined : Start S

module _ ⦃sql : SqlServer⦄ ⦃redis : RedisServer⦄ where
  -- What the i-th `createConnection` gives.
  abbrev pub attempts : Host → ℕ → Option ℕ
  attempts h = create_connection h.connect h.set_schema

  -- `RedisClient::RedisClient`, over the pool that `init` has filled. Nothing has called
  -- `Config::load`.
  unfoldable pub new_client : Host → Client
  unfolding RedisPool.init
  new_client h = record {
    store = h.store;
    pool =
        RedisPool.init h.connect_redis (codes "127.0.0.1") (pos 6379) pool_size [] new_redis_pool;
    waiting = h.waiting;
    local_node_id = unloaded.node_id;
    subs = record { sub = h.sub; sub_tasks = []; sub_group_set = []; stopped = false };
  }

  -- The service that `instance()` makes: nobody is connected, and no group has a local member.
  unfoldable pub new_service : Host → MysqlPool → State
  unfolding new_client
  new_service h pool = record {
    user_conn_map = [];
    group_members = [];
    mysql = record { db = h.db; pool = pool };
    failed_queue = [];
    redis = new_client h;
    sent = [];
  }

module _ ⦃sql : SqlServer⦄ ⦃redis : RedisServer⦄ ⦃json : JsonLib⦄ where
  -- `ChatService::instance()->reset()`, and the server listens.
  unfoldable pub status_reset : State → Start State
  unfolding Session.reset
  status_reset s = elim (Session.reset s) [
    | returned s' _ ↦ up s'
    | threw s' ↦ terminated
    | running ↦ terminated
  ]

  -- `main` before `server.start()`, with the default arguments of `initPool` and `init`.
  unfoldable pub start_up : Host → Start State
  unfolding init_pool new_service status_reset
  start_up h =
      elim (init_pool h.driver (attempts h) (codes "tcp://127.0.0.1:3306") (codes "chat")
        (codes "root") (codes "123456") pool_size new_mysql_pool) [
          | all_made pool ↦ status_reset (new_service h pool)
          | connect_threw pool ↦ terminated
          | no_driver ↦ undefined
        ]
