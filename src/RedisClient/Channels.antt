-- ===== src/RedisClient/Channels.antt =====
-- The group channels that a node listens to.
use cluster_chat_server_soft.Prelude.{◌≡◌, Bool, not, ◌||◌, ◌&&◌, List, [], ◌∷◌, arith, inl, inr}
use cluster_chat_server_soft.Prelude.Int.{ℤ, eq_ℤ, eq_ℤ_iff}
use cluster_chat_server_soft.Prelude.IntSet.{contains, contains-insert, contains-erase}
use cluster_chat_server_soft.Prelude.Text.{Str, str_eq, str_eq_iff, to_string-injective}
use cluster_chat_server_soft.External.{done, threw, Outcome-cases}
use cluster_chat_server_soft.External.Redis.{RedisServer}
use cluster_chat_server_soft.RedisClient.Core.{SubTask}
use cluster_chat_server_soft.RedisClient.Commands.{group_channel}
use cluster_chat_server_soft.RedisClient.Subscriber.{
  Subs, subscribe_group_channel, unsubscribe_group_channel, subscribe_task, unsubscribe_task,
  run_tasks, round,
}

pub group_channel_eq : (a b : ℤ) → str_eq (group_channel a) (group_channel b) ≡ eq_ℤ a b
unfolding group_channel
group_channel_eq a b =
    ground
      (arith, str_eq_iff (group_channel a) (group_channel b), eq_ℤ_iff a b, to_string-injective a b)

-- A redis++ subscriber. `listens sub channel`: it is subscribed to the channel. A call that throws
-- has changed nothing.
pub record SubscriberLaws (redis : RedisServer) (listens : redis.Sub → Str → Bool) : Type 0 where
  pub subscribe_done :
      (channel c : Str) (s s' : redis.Sub)
      → redis.subscribe channel s ≡ done s' tt
      → listens s' c ≡ (str_eq channel c || listens s c)
  pub subscribe_threw :
      (channel c : Str) (s s' : redis.Sub)
      → redis.subscribe channel s ≡ threw s'
      → listens s' c ≡ listens s c
  pub unsubscribe_done :
      (channel c : Str) (s s' : redis.Sub)
      → redis.unsubscribe channel s ≡ done s' tt
      → listens s' c ≡ (not (str_eq channel c) && listens s c)
  pub unsubscribe_threw :
      (channel c : Str) (s s' : redis.Sub)
      → redis.unsubscribe channel s ≡ threw s'
      → listens s' c ≡ listens s c

-- No call of the subscriber throws.
pub record Connected (redis : RedisServer) : Type 0 where
  pub subscribes :
      (channel : Str) (s : redis.Sub) → (s' : redis.Sub) × (redis.subscribe channel s ≡ done s' tt)
  pub unsubscribes :
      (channel : Str) (s : redis.Sub)
      → (s' : redis.Sub) × (redis.unsubscribe channel s ≡ done s' tt)

-- Requests and rounds of the subscriber thread, in the order in which they happen.
pub data Event : Type 0 where
  asks leaves : ℤ → Event
  turns : Event

module _ ⦃redis : RedisServer⦄ where
  unfoldable pub step : Subs → Event → Subs
  step s (Event.asks group_id) = subscribe_group_channel group_id s
  step s (Event.leaves group_id) = unsubscribe_group_channel group_id s
  step s Event.turns = round s

  unfoldable pub run : Subs → List Event → Subs
  unfolding step
  run s [] = s
  run s (e ∷ es) = run (step s e) es

module _ ⦃redis : RedisServer⦄ (listens : redis.Sub → Str → Bool)
    (laws : SubscriberLaws redis listens) where
  -- `sub_group_set_` is the set of the groups whose channels the subscriber listens to.
  abbrev pub IsTracked : Subs → Type 0
  IsTracked s = (g : ℤ) → contains s.sub_group_set g ≡ listens s.sub (group_channel g)

  subscribe_task-IsTracked :
      (group_id : ℤ) (s : Subs) → IsTracked s → IsTracked (subscribe_task group_id s)
  unfolding subscribe_task
  subscribe_task-IsTracked group_id s t g =
      elim (Outcome-cases (redis.subscribe (group_channel group_id) s.sub)) [
        | inl (sub, _, e) ↦ ground (
          arith,
          t g,
          group_channel_eq group_id g,
          contains-insert group_id g s.sub_group_set,
          laws.subscribe_done (group_channel group_id) (group_channel g) s.sub sub e,
        )
        | inr (sub, e) ↦ ground (
          arith,
          t g,
          laws.subscribe_threw (group_channel group_id) (group_channel g) s.sub sub e,
        )
      ]

  unsubscribe_task-IsTracked :
      (group_id : ℤ) (s : Subs) → IsTracked s → IsTracked (unsubscribe_task group_id s)
  unfolding unsubscribe_task
  unsubscribe_task-IsTracked group_id s t g =
      elim (Outcome-cases (redis.unsubscribe (group_channel group_id) s.sub)) [
        | inl (sub, _, e) ↦ ground (
          arith,
          t g,
          group_channel_eq group_id g,
          contains-erase group_id g s.sub_group_set,
          laws.unsubscribe_done (group_channel group_id) (group_channel g) s.sub sub e,
        )
        | inr (sub, e) ↦ ground (
          arith,
          t g,
          laws.unsubscribe_threw (group_channel group_id) (group_channel g) s.sub sub e,
        )
      ]

  pub run_tasks-IsTracked :
      (tasks : List SubTask) (s : Subs) → IsTracked s → IsTracked (run_tasks tasks s)
  unfolding run_tasks
  run_tasks-IsTracked [] s t = t
  run_tasks-IsTracked (SubTask.subscribe group_id ∷ tasks) s t =
      run_tasks-IsTracked tasks (subscribe_task group_id s) (subscribe_task-IsTracked group_id s t)
  run_tasks-IsTracked (SubTask.unsubscribe group_id ∷ tasks) s t =
      run_tasks-IsTracked tasks (unsubscribe_task group_id s)
        (unsubscribe_task-IsTracked group_id s t)
  run_tasks-IsTracked (SubTask.stop ∷ tasks) s t = t

  step-IsTracked : (s : Subs) (e : Event) → IsTracked s → IsTracked (step s e)
  unfolding step subscribe_group_channel unsubscribe_group_channel round
  step-IsTracked s (Event.asks group_id) t g = ground (arith, t g)
  step-IsTracked s (Event.leaves group_id) t g = ground (arith, t g)
  step-IsTracked s Event.turns t g =
      run_tasks-IsTracked s.sub_tasks (record s { sub_tasks = [] }) t g

  -- In every history of requests and rounds, exceptions of the subscriber included, where a call that
  -- throws changes no subscription, `sub_group_set_` stays the set of the groups whose channels the subscriber listens to.
  pub run-IsTracked : (s : Subs) (es : List Event) → IsTracked s → IsTracked (run s es)
  unfolding run
  run-IsTracked s [] t = t
  run-IsTracked s (e ∷ es) t = run-IsTracked (step s e) es (step-IsTracked s e t)
