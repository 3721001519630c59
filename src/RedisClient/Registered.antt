-- ===== src/RedisClient/Registered.antt =====
-- The subscriber listens to no group but those in `sub_group_set_`, also after errors that lose
-- subscriptions.
use cluster_chat_server_soft.Prelude.{
  ◌≡◌, Bool, false, not, ◌&&◌, List, [], ◌∷◌, All, arith, inl, inr,
}
use cluster_chat_server_soft.Prelude.Int.{ℤ}
use cluster_chat_server_soft.Prelude.IntSet.{contains, contains-insert, contains-erase}
use cluster_chat_server_soft.Prelude.Text.{Str}
use cluster_chat_server_soft.External.{Outcome-cases}
use cluster_chat_server_soft.External.Redis.{RedisServer}
use cluster_chat_server_soft.RedisClient.Core.{SubTask}
use cluster_chat_server_soft.RedisClient.Commands.{group_channel}
use cluster_chat_server_soft.RedisClient.Subscriber.{
  Subs, subscribe_group_channel, unsubscribe_group_channel, subscribe_task, unsubscribe_task,
  run_tasks, round,
}
use cluster_chat_server_soft.RedisClient.Channels.{SubscriberLaws, group_channel_eq}
use cluster_chat_server_soft.RedisClient.Thread.{
  Request, subscribes, unsubscribes, destroys, Consumed, consumed, timed_out, failed, broken, Turn,
  request, requests, after_consume, consume_loop,
}
use cluster_chat_server_soft.RedisClient.Loops.{InLoop, KeepsAfter, consume_loop-InLoop}
use cluster_chat_server_soft.RedisClient.Lifetime.{Serves}

module _ ⦃redis : RedisServer⦄ (listens : redis.Sub → Str → Bool) where
  -- An error may lose subscriptions, and adds none.
  abbrev pub Loses : Consumed redis.Sub → Type 0
  Loses consumed = Unit
  Loses timed_out = Unit
  Loses broken = Unit
  Loses (failed f) =
      (sub : redis.Sub) (channel : Str)
      → (listens (f sub) channel && not (listens sub channel)) ≡ false

module _ ⦃redis : RedisServer⦄ (listens : redis.Sub → Str → Bool)
    (laws : SubscriberLaws redis listens) where
  -- Every group whose channel the subscriber listens to is in `sub_group_set_`.
  abbrev pub IsRegistered : Subs → Type 0
  IsRegistered s =
      (g : ℤ) → (listens s.sub (group_channel g) && not (contains s.sub_group_set g)) ≡ false

  subscribe_task-IsRegistered :
      (h : ℤ) (s : Subs) → IsRegistered s → IsRegistered (subscribe_task h s)
  unfolding subscribe_task
  subscribe_task-IsRegistered h s r g =
      elim (Outcome-cases (redis.subscribe (group_channel h) s.sub)) [
        | inl (sub, _, e) ↦ ground (
          arith,
          r g,
          group_channel_eq h g,
          contains-insert h g s.sub_group_set,
          laws.subscribe_done (group_channel h) (group_channel g) s.sub sub e,
        )
        | inr (sub, e) ↦
            ground
              (arith, r g, laws.subscribe_threw (group_channel h) (group_channel g) s.sub sub e)
      ]

  unsubscribe_task-IsRegistered :
      (h : ℤ) (s : Subs) → IsRegistered s → IsRegistered (unsubscribe_task h s)
  unfolding unsubscribe_task
  unsubscribe_task-IsRegistered h s r g =
      elim (Outcome-cases (redis.unsubscribe (group_channel h) s.sub)) [
        | inl (sub, _, e) ↦ ground (
          arith,
          r g,
          group_channel_eq h g,
          contains-erase h g s.sub_group_set,
          laws.unsubscribe_done (group_channel h) (group_channel g) s.sub sub e,
        )
        | inr (sub, e) ↦
            ground
              (arith, r g, laws.unsubscribe_threw (group_channel h) (group_channel g) s.sub sub e)
      ]

  run_tasks-IsRegistered :
      (tasks : List SubTask) (s : Subs) → IsRegistered s → IsRegistered (run_tasks tasks s)
  unfolding run_tasks
  run_tasks-IsRegistered [] s r = r
  run_tasks-IsRegistered (SubTask.subscribe g ∷ tasks) s r =
      run_tasks-IsRegistered tasks (subscribe_task g s) (subscribe_task-IsRegistered g s r)
  run_tasks-IsRegistered (SubTask.unsubscribe g ∷ tasks) s r =
      run_tasks-IsRegistered tasks (unsubscribe_task g s) (unsubscribe_task-IsRegistered g s r)
  run_tasks-IsRegistered (SubTask.stop ∷ tasks) s r = r

  round-IsRegistered : (s : Subs) → IsRegistered s → IsRegistered (round s)
  unfolding round
  round-IsRegistered s r = run_tasks-IsRegistered s.sub_tasks (record s { sub_tasks = [] }) r

  request-IsRegistered : (q : Request) (s : Subs) → IsRegistered s → IsRegistered (request q s)
  unfolding request subscribe_group_channel unsubscribe_group_channel
  request-IsRegistered (subscribes h) s r g = ground (arith, r g)
  request-IsRegistered (unsubscribes h) s r g = ground (arith, r g)
  request-IsRegistered destroys s r g = r g

  requests-IsRegistered :
      (qs : List Request) (s : Subs) → IsRegistered s → IsRegistered (requests qs s)
  unfolding requests
  requests-IsRegistered [] s r = r
  requests-IsRegistered (q ∷ qs) s r =
      requests-IsRegistered qs (request q s) (request-IsRegistered q s r)

  after_consume-IsRegistered :
      (c : Consumed redis.Sub) (s : Subs)
      → Loses listens c
      → IsRegistered s
      → IsRegistered (after_consume c s)
  unfolding after_consume
  after_consume-IsRegistered consumed s l r g = r g
  after_consume-IsRegistered timed_out s l r g = r g
  after_consume-IsRegistered broken s l r g = r g
  after_consume-IsRegistered (failed f) s l r g = ground (arith, r g, l s.sub (group_channel g))

  Loses-Keeps :
      (turns : List (Turn redis.Sub))
      → All (λ t. Loses listens t.consume) turns
      → All (KeepsAfter IsRegistered) turns
  Loses-Keeps [] l = tt
  Loses-Keeps (t ∷ turns) l =
      ((λ s r. after_consume-IsRegistered t.consume s l.0 r), Loses-Keeps turns l.1)

  pub consume_loop-IsRegistered :
      (turns : List (Turn redis.Sub)) (s : Subs)
      → All (λ t. Loses listens t.consume) turns
      → IsRegistered s
      → InLoop IsRegistered (consume_loop turns s)
  consume_loop-IsRegistered turns s l r =
      consume_loop-InLoop IsRegistered requests-IsRegistered round-IsRegistered turns s
        (Loses-Keeps turns l) r

  pub Serves-IsRegistered : (id : Str) (s : Subs) → Serves listens laws id s → IsRegistered s
  Serves-IsRegistered id s h g = ground (arith, h.tracked g)
