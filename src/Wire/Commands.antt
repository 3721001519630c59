-- ===== src/Wire/Commands.antt =====
-- What the texts of the client's commands, but `chat`, come to at the server.
use cluster_chat_server_soft.Prelude.{none, some, ◌++◌}
use cluster_chat_server_soft.Prelude.Int.{ℤ}
use cluster_chat_server_soft.Prelude.IntMap.{lookup}
use cluster_chat_server_soft.Prelude.Text.{Str, codes, to_string}
use cluster_chat_server_soft.External.Sql.{SqlServer}
use cluster_chat_server_soft.External.Redis.{RedisServer, Write}
use cluster_chat_server_soft.External.Json.{JsonLib}
use cluster_chat_server_soft.Model.FriendModel
use cluster_chat_server_soft.Model.GroupModel
use cluster_chat_server_soft.RedisClient.Core.{Client, with_conn}
use cluster_chat_server_soft.RedisClient.Commands
use cluster_chat_server_soft.RedisClient.Subscriber.{subscribe_group_channel}
use cluster_chat_server_soft.ChatService.State.{State}
use cluster_chat_server_soft.ChatService.Groups.{add_members}

module _ ⦃sql : SqlServer⦄ ⦃redis : RedisServer⦄ ⦃json : JsonLib⦄ where
  -- PUBLISH on the channel of a group, on a connection of the client's pool.
  abbrev pub published : ℤ → Str → Client → Client
  published group_id text r =
      (with_conn tt
        (λ conn. redis.write conn (Write.publish (codes "group:" ++ to_string group_id) text)) r).0

  -- The state with a set for the group: that of before where the node has one, and otherwise one with
  -- the other members that MySQL lists, and a request to subscribe to the group.
  abbrev pub loaded : ℤ → ℤ → State → State
  loaded userid group_id s = elim (lookup group_id s.group_members) [
    | some members ↦ s
    | none ↦
        let (m, users) = GroupModel.query_group_users userid group_id s.mysql in
        record s {
          mysql = m;
          group_members = add_members group_id users s.group_members;
          redis = record s.redis { subs = subscribe_group_channel group_id s.redis.subs };
        }
  ]
