-- ===== src/Tests/Threads.antt =====
-- The configuration and the subscriber thread at concrete inputs.
use cluster_chat_server_soft.Prelude.{
  All, ◌≡◌, refl, true, false, some, none, Option, List, [], ◌∷◌, ℕ, Bool,
}
use cluster_chat_server_soft.Prelude.Int.{pos}
use cluster_chat_server_soft.Prelude.Text.{Str, codes, str_eq}
use cluster_chat_server_soft.External.{done}
use cluster_chat_server_soft.Config.{Config, unloaded, load, section, read_server}
use cluster_chat_server_soft.Config.Laws.{file_of, load-file_of, load-errors}
use cluster_chat_server_soft.RedisPool.{RedisPool, got, acquire, release}
use cluster_chat_server_soft.RedisClient.Core.{Client, pool_wait_ms}
use cluster_chat_server_soft.RedisClient.Thread.{
  Turn, subscribes, unsubscribes, destroys, consumed, timed_out, failed, ended, subscriber_thread,
}
use cluster_chat_server_soft.RedisClient.Registered.{Loses}
use cluster_chat_server_soft.RedisClient.Shutdown.{IsSilent}
use cluster_chat_server_soft.RedisClient.Listening.{
  Leaves, Serving, subscriber_thread-gives_back, subscriber_thread-IsSilent,
  subscriber_thread-Serving,
}
use cluster_chat_server_soft.Tests.Cache.{hears, cache-SubscriberLaws, cache-Connected}
use cluster_chat_server_soft.Tests.Pools.{redis_pool}
use cluster_chat_server_soft.Tests.Values.{
  Value, read, print, entry, number, text, empty, values-JsonLaws,
}
use cluster_chat_server_soft.Tests.Requests.{redis_server, json_lib}
use cluster_chat_server_soft.Tests.Redis.{client}

-- include/config.json.
abbrev node_one : Config
node_one = record {
  node_id = codes "node-1";
  server_ip = codes "0.0.0.0";
  server_port = pos 8000;
  redis_url = codes "redis://localhost:6379";
  redis_pool_size = pos 10;
  redis_pool_wait_ms = pos 5000;
  log_level = codes "info";
  log_path = codes "./logs/chat.log";
}

load-file_of_example : load (some (file_of node_one)) unloaded ≡ (node_one, true)
load-file_of_example = load-file_of values-JsonLaws node_one unloaded

-- The size of the pool is a text.
abbrev wrong_redis : Value
wrong_redis =
    entry (codes "url") (text (codes "u")) (entry (codes "pool_size") (text (codes "ten")) empty)

abbrev wrong_config : Value
wrong_config = entry (codes "node_id") (text (codes "node-2")) (
    entry (codes "server") (entry (codes "port") (number (pos 9000)) empty)
      (entry (codes "redis") wrong_redis empty))

abbrev served : Config
served = record unloaded {
  node_id = codes "node-2";
  server_ip = codes "0.0.0.0";
  server_port = pos 9000;
}

reads_server :
    section (codes "server") read_server wrong_config (record unloaded { node_id = codes "node-2" })
    ≡ done served tt
unfolding section read_server str_eq
reads_server = refl

load-errors_example :
    (load none unloaded ≡ (unloaded, false))
    × (load (some []) unloaded ≡ (unloaded, false))
    × (load (some (print wrong_config)) unloaded ≡ (record served { redis_url = codes "u" }, false))
unfolding str_eq read
load-errors_example =
    load-errors (print wrong_config) [] wrong_config wrong_redis (codes "node-2") (codes "u")
      unloaded served refl (values-JsonLaws.parse-dump wrong_config) refl reads_server refl refl
      refl refl

-- Group 8 is asked for, a call of `consume` times out, another loses every subscription, and the client is
-- destroyed.
abbrev turns : List (Turn (Str → Bool))
turns =
    record { asked = subscribes (pos 8) ∷ []; consume = consumed }
    ∷ record { asked = []; consume = timed_out }
    ∷ record { asked = destroys ∷ []; consume = failed (λ sub channel. false) }
    ∷ []

abbrev opens : ℕ → Option (Str → Bool)
opens conn = some (λ channel. false)

abbrev untouched : RedisPool → RedisPool
untouched p = p

takes_one : acquire pool_wait_ms client.waiting client.pool ≡ got 1 (redis_pool (2 ∷ []))
unfolding acquire
takes_one = refl

subscriber_thread-gives_back_example :
    Leaves (release (some 1) (redis_pool (2 ∷ []))) (subscriber_thread opens untouched turns client)
subscriber_thread-gives_back_example =
    subscriber_thread-gives_back opens untouched turns client 1 (redis_pool (2 ∷ [])) takes_one

turns-Lose : All (λ t. Loses hears t.consume) turns
turns-Lose = (tt, (tt, ((λ sub channel. refl), tt)))

subscriber_thread-IsSilent_example :
    (r' : Client) × (subscriber_thread opens untouched turns client ≡ ended r')
    × (r'.pool ≡ release (some 1) (redis_pool (2 ∷ [])))
    × IsSilent hears cache-SubscriberLaws cache-Connected (codes "node-1") r'.subs
subscriber_thread-IsSilent_example =
    subscriber_thread-IsSilent hears cache-SubscriberLaws cache-Connected opens untouched turns
      client 1 (redis_pool (2 ∷ [])) (λ channel. false) takes_one refl (λ g. refl) turns-Lose refl
      refl

-- Groups 8 and 9 are asked for, and 8 is given up again.
abbrev quiet_turns : List (Turn (Str → Bool))
quiet_turns =
    record { asked = subscribes (pos 8) ∷ subscribes (pos 9) ∷ []; consume = consumed }
    ∷ record { asked = unsubscribes (pos 8) ∷ []; consume = timed_out }
    ∷ []

subscriber_thread-Serving_example :
    Serving hears cache-SubscriberLaws
      (codes "node-1")
      (subscriber_thread opens untouched quiet_turns client)
subscriber_thread-Serving_example =
    subscriber_thread-Serving hears cache-SubscriberLaws opens untouched quiet_turns client 1
      (redis_pool (2 ∷ [])) (λ channel. false) takes_one refl (λ g. refl) refl
