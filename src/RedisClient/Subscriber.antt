-- ===== src/RedisClient/Subscriber.antt =====
-- The group channels of redisclient.cpp: the requests that callers queue, and the subscriber thread.
use cluster_chat_server_soft.Prelude.{true, List, [], ◌∷◌, ◌++◌, if◌then◌else◌}
use cluster_chat_server_soft.Prelude.Int.{ℤ}
use cluster_chat_server_soft.Prelude.IntSet
use cluster_chat_server_soft.Prelude.IntSet.{contains}
use cluster_chat_server_soft.External.{done, threw}
use cluster_chat_server_soft.External.Redis.{RedisServer}
use cluster_chat_server_soft.RedisClient.Core.{SubTask, Subscriptions}
use cluster_chat_server_soft.RedisClient.Commands.{group_channel}

module _ {Sub : Type 0} where
  -- `subscribeGroupChannel`.
  unfoldable pub subscribe_group_channel : ℤ → Subscriptions Sub → Subscriptions Sub
  subscribe_group_channel group_id s =
      if contains s.sub_group_set group_id
      then s
      else record s { sub_tasks = s.sub_tasks ++ SubTask.subscribe group_id ∷ [] }

  -- `unsubscribeGroupChannel`.
  unfoldable pub unsubscribe_group_channel : ℤ → Subscriptions Sub → Subscriptions Sub
  unsubscribe_group_channel group_id s =
      if contains s.sub_group_set group_id
      then record s { sub_tasks = s.sub_tasks ++ SubTask.unsubscribe group_id ∷ [] }
      else s

module _ ⦃redis : RedisServer⦄ where
  abbrev pub Subs : Type 0
  Subs = Subscriptions redis.Sub

  unfoldable pub subscribe_task : ℤ → Subs → Subs
  unfolding IntSet.insert
  subscribe_task group_id s = elim (redis.subscribe (group_channel group_id) s.sub) [
    | done sub _ ↦ record s { sub = sub; sub_group_set = IntSet.insert group_id s.sub_group_set }
    | threw sub ↦ record s { sub = sub }
  ]

  unfoldable pub unsubscribe_task : ℤ → Subs → Subs
  unfolding IntSet.erase
  unsubscribe_task group_id s = elim (redis.unsubscribe (group_channel group_id) s.sub) [
    | done sub _ ↦ record s { sub = sub; sub_group_set = IntSet.erase group_id s.sub_group_set }
    | threw sub ↦ record s { sub = sub }
  ]

  -- The loop over the tasks that a round has taken; `Stop` leaves it.
  unfoldable pub run_tasks : List SubTask → Subs → Subs
  unfolding subscribe_task unsubscribe_task
  run_tasks [] s = s
  run_tasks (SubTask.subscribe group_id ∷ tasks) s = run_tasks tasks (subscribe_task group_id s)
  run_tasks (SubTask.unsubscribe group_id ∷ tasks) s = run_tasks tasks (unsubscribe_task group_id s)
  run_tasks (SubTask.stop ∷ tasks) s = record s { stopped = true }

  -- One round of the consume loop, after `consume` has returned or thrown.
  unfoldable pub round : Subs → Subs
  unfolding run_tasks
  round s = run_tasks s.sub_tasks (record s { sub_tasks = [] })
