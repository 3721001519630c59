-- ===== src/Server/Run.antt =====
-- What reaches a server that listens: the texts and the ends of its connections (src/server/chatserver.cpp), the
-- messages of its channels and the rounds of its subscriber thread (src/server/redisclient.cpp), and the states
-- that it comes to. A call runs as one step.
use cluster_chat_server_soft.Prelude.{ℕ, ◌≡◌, Bool, true, Option, some}
use cluster_chat_server_soft.Prelude.Text.{Str}
use cluster_chat_server_soft.External.Sql.{SqlServer}
use cluster_chat_server_soft.External.Redis.{RedisServer}
use cluster_chat_server_soft.External.Json.{JsonLib}
use cluster_chat_server_soft.RedisClient.Subscriber.{round}
use cluster_chat_server_soft.ChatService.State.{TcpConnection, State}
use cluster_chat_server_soft.ChatService.Inbox.{on_message, on_connection, on_channel_message}
use cluster_chat_server_soft.Server.StartUp.{Host, start_up, up}

-- A text that one read of a connection gave; a connection that was made (`true`) or has ended; a message
-- of a channel, for the callback that the constructor has registered; and a round of the subscriber.
pub data ServerEvent : Type 0 where
  message : TcpConnection → Str → ServerEvent
  connection : TcpConnection → Bool → ServerEvent
  channel_message : Str → ServerEvent
  subscriber_round : ServerEvent

module _ ⦃sql : SqlServer⦄ ⦃redis : RedisServer⦄ ⦃json : JsonLib⦄ where
  -- `none`: the call has not returned within the rounds of `fuel`.
  unfoldable pub serve : ℕ → ServerEvent → State → Option State
  unfolding on_message on_connection on_channel_message round
  serve fuel (message conn buf) s = on_message fuel conn buf s
  serve fuel (connection conn connected) s = on_connection conn connected s
  serve fuel (channel_message msg) s = on_channel_message true fuel msg s
  serve fuel subscriber_round s =
      some (record s { redis = record s.redis { subs = round s.redis.subs } })

  -- The states of a server that was started on `h`.
  pub data Reachable (h : Host) : State → Type 0 where
    started : (s : State) → start_up h ≡ up s → Reachable h s
    served :
        (fuel : ℕ) (e : ServerEvent) (s s' : State)
        → Reachable h s
        → serve fuel e s ≡ some s'
        → Reachable h s'
