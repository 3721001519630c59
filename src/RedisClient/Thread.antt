-- ===== src/RedisClient/Thread.antt =====
-- The subscriber thread of redisclient.cpp from its start to its end, and the destructor's part in it.
use cluster_chat_server_soft.Prelude.{
  ℕ, true, Option, none, some, List, [], ◌∷◌, ◌++◌, if◌then◌else◌,
}
use cluster_chat_server_soft.Prelude.Int.{ℤ}
use cluster_chat_server_soft.Prelude.Text.{Str, codes}
use cluster_chat_server_soft.External.{Outcome, done, threw, after, ◌>>◌}
use cluster_chat_server_soft.External.Redis.{RedisServer}
use cluster_chat_server_soft.RedisPool.{RedisPool, got, null, blocked, acquire, release}
use cluster_chat_server_soft.RedisClient.Core.{SubTask, Client, pool_wait_ms}
use cluster_chat_server_soft.RedisClient.Commands.{group_channel}
use cluster_chat_server_soft.RedisClient.Subscriber.{
  Subs, subscribe_group_channel, unsubscribe_group_channel, round,
}

unfoldable pub node_channel : Str → Str
node_channel local_node_id = codes "node:" ++ (local_node_id ++ codes ":inbox")

-- What the other threads ask for.
pub data Request : Type 0 where
  subscribes unsubscribes : ℤ → Request
  destroys : Request

-- How a call of `consume` ends: it returns, it throws the error of a time-out ("Resource temporarily
-- unavailable") or another redis++ error, both of which the loop catches, or it throws another
-- exception, which ends the loop. `failed f`: the error makes the subscriber what `f` gives. redis++
-- says that a subscriber is of no more use after an error that is not a time-out.
pub data Consumed (Sub : Type 0) : Type 0 where
  consumed timed_out broken : Consumed Sub
  failed : (Sub → Sub) → Consumed Sub

-- A turn of the loop: the requests that come in while `consume` runs, and its end.
pub record Turn (Sub : Type 0) : Type 0 where
  pub asked : List Request
  pub consume : Consumed Sub

-- The loop has seen `stopped_`, was left by an exception, or is in `consume`.
pub data Loop (S : Type 0) : Type 0 where
  left thrown consuming : S → Loop S

-- The thread had no connection, has ended, or is in `consume`.
pub data Thread (S : Type 0) : Type 0 where
  no_connection ended running : S → Thread S

module _ ⦃redis : RedisServer⦄ where
  -- The destructor sets `stopped_` and queues a Stop.
  unfoldable pub request : Request → Subs → Subs
  unfolding subscribe_group_channel unsubscribe_group_channel
  request (subscribes g) s = subscribe_group_channel g s
  request (unsubscribes g) s = unsubscribe_group_channel g s
  request destroys s = record s { stopped = true; sub_tasks = s.sub_tasks ++ SubTask.stop ∷ [] }

  unfoldable pub requests : List Request → Subs → Subs
  unfolding request
  requests [] s = s
  requests (q ∷ qs) s = requests qs (request q s)

  unfoldable pub subscribe_all : List ℤ → redis.Sub → Outcome redis.Sub (Unit {0})
  subscribe_all [] sub = done sub tt
  subscribe_all (g ∷ gs) sub = (redis.subscribe (group_channel g) >> subscribe_all gs) sub

  unfoldable pub unsubscribe_all : List ℤ → redis.Sub → Outcome redis.Sub (Unit {0})
  unsubscribe_all [] sub = done sub tt
  unsubscribe_all (g ∷ gs) sub = (redis.unsubscribe (group_channel g) >> unsubscribe_all gs) sub

  -- The node's inbox and the groups registered so far.
  unfoldable pub set_up : Str → List ℤ → redis.Sub → Outcome redis.Sub (Unit {0})
  unfolding subscribe_all node_channel
  set_up local_node_id groups = redis.subscribe (node_channel local_node_id) >> subscribe_all groups

  -- "cleanup: unsubscribe all": an exception ends it and is ignored.
  unfoldable pub clean_up : Str → Subs → Subs
  unfolding unsubscribe_all node_channel
  clean_up local_node_id s = record s {
    sub =
        after (
          (redis.unsubscribe (node_channel local_node_id) >> unsubscribe_all s.sub_group_set)
            s.sub);
  }

  -- The state behind the `try` of `consume`: after an error the code goes on with the same subscriber.
  unfoldable pub after_consume : Consumed redis.Sub → Subs → Subs
  after_consume consumed s = s
  after_consume timed_out s = s
  after_consume broken s = s
  after_consume (failed f) s = record s { sub = f s.sub }

  -- `while (!stopped_)`, over the turns so far. The pause after an error is left out.
  unfoldable pub consume_loop : List (Turn redis.Sub) → Subs → Loop Subs
  unfolding requests round after_consume
  consume_loop [] s = if s.stopped then left s else consuming s
  consume_loop (t ∷ turns) s =
      let asked = requests t.asked s in
      let next = consume_loop turns (round (after_consume t.consume asked)) in
      if s.stopped then left s else elim t.consume [
        | consumed ↦ next
        | timed_out ↦ next
        | broken ↦ thrown asked
        | failed f ↦ next
      ]

  -- The body of the thread. `subscriber conn` is `conn->subscriber()`, `none` where it throws;
  -- `meanwhile` is what the others do to the pool while the thread holds its connection.
  unfoldable pub subscriber_thread :
      (ℕ → Option redis.Sub)
      → (RedisPool → RedisPool)
      → List (Turn redis.Sub)
      → Client
      → Thread Client
  unfolding acquire release set_up clean_up consume_loop
  subscriber_thread subscriber meanwhile turns r = elim (acquire pool_wait_ms r.waiting r.pool) [
    | null rest ↦ no_connection (record r { pool = rest })
    | blocked rest ↦ no_connection (record r { pool = rest })
    | got conn rest ↦
        let held : RedisPool = meanwhile rest in
        let freed : RedisPool = release (some conn) held in
        elim (subscriber conn) [
          | none ↦ ended (record r { pool = freed })
          | some sub ↦ elim (set_up r.local_node_id r.subs.sub_group_set sub) [
            | threw sub' ↦ ended (record r { pool = freed; subs = record r.subs { sub = sub' } })
            | done sub' _ ↦ elim (consume_loop turns (record r.subs { sub = sub' })) [
              | left s ↦ ended (record r { pool = freed; subs = clean_up r.local_node_id s })
              | thrown s ↦ ended (record r { pool = freed; subs = s })
              | consuming s ↦ running (record r { pool = held; subs = s })
            ]
          ]
        ]
  ]
