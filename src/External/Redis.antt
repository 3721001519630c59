-- ===== src/External/Redis.antt =====
-- The Redis commands that src/server/redisclient.cpp sends, and the server that runs them.
use cluster_chat_server_soft.Prelude.{ℕ, Bool, Option, List}
use cluster_chat_server_soft.Prelude.Text.{Str}
use cluster_chat_server_soft.External.{Outcome}

-- The commands whose reply the code does not read. Times to live are in seconds.
pub data Write : Type 0 where
  hset : Str → Str → Str → Write
  hdel : Str → Str → Write
  set : Str → Str → Write
  set_ex : Str → Str → ℕ → Write
  del : Str → Write
  expire : Str → ℕ → Write
  sadd : Str → Str → Write
  lpush : Str → Str → Write
  publish : Str → Str → Write

-- Every command names the connection that it runs on.
pub record RedisServer : Type 1 where
  pub Store : Type 0
  pub write : ℕ → Write → Store → Outcome Store (Unit {0})
  pub hget : ℕ → Str → Str → Store → Outcome Store (Option Str)
  pub get : ℕ → Str → Store → Outcome Store (Option Str)
  -- lrange key 0 -1
  pub lrange : ℕ → Str → Store → Outcome Store (List Str)
  pub sismember : ℕ → Str → Str → Store → Outcome Store Bool
  -- A redis++ `Subscriber`, with the channels that it listens to.
  pub Sub : Type 0
  pub subscribe : Str → Sub → Outcome Sub (Unit {0})
  pub unsubscribe : Str → Sub → Outcome Sub (Unit {0})
