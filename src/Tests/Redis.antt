-- ===== src/Tests/Redis.antt =====
-- The theorems on the Redis client at concrete inputs.
use cluster_chat_server_soft.Prelude.{
  ◌≡◌, refl, Bool, false, not, ◌||◌, none, List, [], ◌∷◌, if◌then◌else◌,
}
use cluster_chat_server_soft.Prelude.Int.{pos, eq_ℤ}
use cluster_chat_server_soft.Prelude.Text.{Str, codes}
use cluster_chat_server_soft.Prelude.IntSet.{contains}
use cluster_chat_server_soft.RedisClient.Core.{Redis, Subscriptions}
use cluster_chat_server_soft.RedisClient.Commands.{
  group_channel, is_user_online, get_user_node, get_user_conn_id, set_user_online,
}
use cluster_chat_server_soft.RedisClient.Laws.{IsRunning}
use cluster_chat_server_soft.RedisClient.Presence.{set_user_online-reads}
use cluster_chat_server_soft.RedisClient.Channels.{Event, run, IsTracked, run-IsTracked}
use cluster_chat_server_soft.RedisClient.Requests.{run_request_taken_back}
use cluster_chat_server_soft.Tests.Cache.{
  Cache, cache, cached_hash, hears, cache-Serves, cache-HashTable, cache-SubscriberLaws,
  cache-Connected,
}
use cluster_chat_server_soft.Tests.Pools.{redis_pool}

-- Nothing subscribed yet.
abbrev pub no_channels : Subscriptions (Str → Bool)
no_channels = record { sub = λ channel. false; sub_tasks = []; sub_group_set = []; stopped = false }

abbrev pub client : Redis Cache (Str → Bool)
client = record {
  store = record { hashes = λ key field. none; lists = λ key. []; texts = λ key. none };
  pool = redis_pool (1 ∷ 2 ∷ []);
  waiting = λ p. p;
  local_node_id = codes "node-1";
  subs = no_channels;
}

pub client-IsRunning : IsRunning client
client-IsRunning = record { runs = refl; free = λ e. cc }

set_user_online-reads_example :
    let r' = set_user_online ⦃redis = cache⦄ (pos 3) (codes "c") client in
    ((is_user_online ⦃redis = cache⦄ (pos 4) r').1
      ≡ (eq_ℤ (pos 3) (pos 4) || (is_user_online ⦃redis = cache⦄ (pos 4) client).1))
    × ((get_user_node ⦃redis = cache⦄ (pos 4) r').1 ≡ (
        if eq_ℤ (pos 3) (pos 4)
        then codes "node-1"
        else (get_user_node ⦃redis = cache⦄ (pos 4) client).1))
    × ((get_user_conn_id ⦃redis = cache⦄ (pos 4) r').1 ≡ (
        if eq_ℤ (pos 3) (pos 4)
        then codes "c"
        else (get_user_conn_id ⦃redis = cache⦄ (pos 4) client).1))
set_user_online-reads_example =
    set_user_online-reads ⦃redis = cache⦄ cached_hash cache-HashTable cache-Serves (pos 3) (pos 4)
      (codes "c") client client-IsRunning

abbrev history : List Event
history =
    Event.asks (pos 8) ∷ Event.turns ∷ Event.leaves (pos 8) ∷ Event.asks (pos 9) ∷ Event.turns ∷ []

no_channels-IsTracked : IsTracked ⦃redis = cache⦄ hears cache-SubscriberLaws no_channels
unfolding contains
no_channels-IsTracked g = refl

run-IsTracked_example :
    contains (run ⦃redis = cache⦄ no_channels history).sub_group_set (pos 9)
    ≡ hears (run ⦃redis = cache⦄ no_channels history).sub (group_channel (pos 9))
run-IsTracked_example =
    run-IsTracked ⦃redis = cache⦄ hears cache-SubscriberLaws no_channels history
      no_channels-IsTracked (pos 9)

run_request_taken_back_example :
    contains
      (run ⦃redis = cache⦄ no_channels (
        if contains no_channels.sub_group_set (pos 8)
        then Event.leaves (pos 8) ∷ Event.asks (pos 8) ∷ Event.turns ∷ []
        else Event.asks (pos 8) ∷ Event.leaves (pos 8) ∷ Event.turns ∷ [])).sub_group_set
      (pos 8)
    ≡ not (contains no_channels.sub_group_set (pos 8))
run_request_taken_back_example =
    run_request_taken_back ⦃redis = cache⦄ cache-Connected (pos 8) no_channels refl
