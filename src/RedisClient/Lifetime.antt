-- ===== src/RedisClient/Lifetime.antt =====
-- What the subscriber thread listens to while it runs, and what it leaves.
use cluster_chat_server_soft.Prelude.{
  All, ◌≡◌, refl, ◌∙◌, Bool, true, false, ◌||◌, List, [], ◌∷◌, arith, inl, inr, Bool-cases,
}
use cluster_chat_server_soft.Prelude.Int.{ℤ}
use cluster_chat_server_soft.Prelude.IntSet.{contains}
use cluster_chat_server_soft.Prelude.Text.{Str, str_eq, str_eq_refl}
use cluster_chat_server_soft.External.{done, Outcome-cases}
use cluster_chat_server_soft.External.Redis.{RedisServer}
use cluster_chat_server_soft.RedisClient.Core.{SubTask}
use cluster_chat_server_soft.RedisClient.Commands.{group_channel}
use cluster_chat_server_soft.RedisClient.Subscriber.{
  Subs, subscribe_group_channel, unsubscribe_group_channel, subscribe_task, unsubscribe_task,
  run_tasks, round,
}
use cluster_chat_server_soft.RedisClient.Channels.{
  SubscriberLaws, IsTracked, group_channel_eq, run_tasks-IsTracked,
}
use cluster_chat_server_soft.RedisClient.Thread.{
  node_channel, Request, subscribes, unsubscribes, destroys, Turn, request, requests, subscribe_all,
  set_up, consume_loop,
}
use cluster_chat_server_soft.RedisClient.Loops.{
  InLoop, KeepsAfter, consume_loop-InLoop, all_quiet, after_consume-quiet,
}

pub channels_differ : (g : ℤ) (id : Str) → str_eq (group_channel g) (node_channel id) ≡ false
unfolding group_channel node_channel str_eq
channels_differ g id = refl

pub channels_differ_back : (g : ℤ) (id : Str) → str_eq (node_channel id) (group_channel g) ≡ false
unfolding group_channel node_channel str_eq
channels_differ_back g id = refl

module _ ⦃redis : RedisServer⦄ (listens : redis.Sub → Str → Bool)
    (laws : SubscriberLaws redis listens) (id : Str) where
  -- The subscriber listens to the node's inbox and to the channels of the groups in `sub_group_set_`.
  pub record Serves (s : Subs) : Type 0 where
    pub tracked : IsTracked listens laws s
    pub inbox : listens s.sub (node_channel id) ≡ true

  subscribe_task-inbox :
      (g : ℤ) (s : Subs)
      → listens (subscribe_task g s).sub (node_channel id) ≡ listens s.sub (node_channel id)
  unfolding subscribe_task
  subscribe_task-inbox g s = elim (Outcome-cases (redis.subscribe (group_channel g) s.sub)) [
    | inl (sub, _, e) ↦ ground (
      arith,
      channels_differ g id,
      laws.subscribe_done (group_channel g) (node_channel id) s.sub sub e,
    )
    | inr (sub, e) ↦
        ground (arith, laws.subscribe_threw (group_channel g) (node_channel id) s.sub sub e)
  ]

  unsubscribe_task-inbox :
      (g : ℤ) (s : Subs)
      → listens (unsubscribe_task g s).sub (node_channel id) ≡ listens s.sub (node_channel id)
  unfolding unsubscribe_task
  unsubscribe_task-inbox g s = elim (Outcome-cases (redis.unsubscribe (group_channel g) s.sub)) [
    | inl (sub, _, e) ↦ ground (
      arith,
      channels_differ g id,
      laws.unsubscribe_done (group_channel g) (node_channel id) s.sub sub e,
    )
    | inr (sub, e) ↦
        ground (arith, laws.unsubscribe_threw (group_channel g) (node_channel id) s.sub sub e)
  ]

  run_tasks-inbox :
      (tasks : List SubTask) (s : Subs)
      → listens (run_tasks tasks s).sub (node_channel id) ≡ listens s.sub (node_channel id)
  unfolding run_tasks
  run_tasks-inbox [] s = refl
  run_tasks-inbox (SubTask.subscribe g ∷ tasks) s =
      run_tasks-inbox tasks (subscribe_task g s) ∙ subscribe_task-inbox g s
  run_tasks-inbox (SubTask.unsubscribe g ∷ tasks) s =
      run_tasks-inbox tasks (unsubscribe_task g s) ∙ unsubscribe_task-inbox g s
  run_tasks-inbox (SubTask.stop ∷ tasks) s = refl

  round-Serves : (s : Subs) → Serves s → Serves (round s)
  unfolding round
  round-Serves s h = record {
    tracked = run_tasks-IsTracked listens laws s.sub_tasks (record s { sub_tasks = [] }) h.tracked;
    inbox = run_tasks-inbox s.sub_tasks (record s { sub_tasks = [] }) ∙ h.inbox;
  }

  request-Serves : (q : Request) (s : Subs) → Serves s → Serves (request q s)
  unfolding request subscribe_group_channel unsubscribe_group_channel
  request-Serves (subscribes g) s h = elim (Bool-cases (contains s.sub_group_set g)) [
    | inl e ↦ rw e h
    | inr e ↦ rw e (record { tracked = h.tracked; inbox = h.inbox })
  ]
  request-Serves (unsubscribes g) s h = elim (Bool-cases (contains s.sub_group_set g)) [
    | inl e ↦ rw e (record { tracked = h.tracked; inbox = h.inbox })
    | inr e ↦ rw e h
  ]
  request-Serves destroys s h = record { tracked = h.tracked; inbox = h.inbox }

  requests-Serves : (qs : List Request) (s : Subs) → Serves s → Serves (requests qs s)
  unfolding requests
  requests-Serves [] s h = h
  requests-Serves (q ∷ qs) s h = requests-Serves qs (request q s) (request-Serves q s h)

  -- Nothing but a time-out comes out of these calls of `consume`, or an exception that ends the loop.
  pub consume_loop-Serves :
      (turns : List (Turn redis.Sub)) (s : Subs)
      → all_quiet turns ≡ true
      → Serves s
      → InLoop Serves (consume_loop turns s)
  consume_loop-Serves turns s quiet h =
      consume_loop-InLoop Serves requests-Serves round-Serves turns s (quiet-Keeps turns quiet) h
    where
      quiet-Keeps : (ts : List (Turn redis.Sub)) → all_quiet ts ≡ true → All (KeepsAfter Serves) ts
      quiet-Keeps [] q = tt
      quiet-Keeps (t ∷ ts) q = (
        (λ s h. rw (after_consume-quiet t.consume s (ground arith)) h),
        quiet-Keeps ts (ground arith),
      )

  subscribe_all-listens :
      (gs : List ℤ) (sub sub' : redis.Sub)
      → subscribe_all gs sub ≡ done sub' tt
      → ((g : ℤ)
          → listens sub' (group_channel g) ≡ (contains gs g || listens sub (group_channel g)))
        × (listens sub' (node_channel id) ≡ listens sub (node_channel id))
  unfolding subscribe_all contains
  subscribe_all-listens [] sub sub' e = ((λ g. ground arith), ground arith)
  subscribe_all-listens (h ∷ gs) sub sub' e =
      elim (Outcome-cases (redis.subscribe (group_channel h) sub)) [
        | inl (t, _, q) ↦
            let (groups, node) = subscribe_all-listens gs t sub' (ground arith) in
            (
              λ g. ground (
                arith,
                groups g,
                group_channel_eq h g,
                laws.subscribe_done (group_channel h) (group_channel g) sub t q,
              ),
              ground (
                arith,
                node,
                channels_differ h id,
                laws.subscribe_done (group_channel h) (node_channel id) sub t q,
              ),
            )
        | inr (t, q) ↦ (λ g. ground arith, ground arith)
      ]

  pub set_up-Serves :
      (groups : List ℤ) (sub sub' : redis.Sub) (s : Subs)
      → ((g : ℤ) → listens sub (group_channel g) ≡ false)
      → s.sub_group_set ≡ groups
      → set_up id groups sub ≡ done sub' tt
      → Serves (record s { sub = sub' })
  unfolding set_up
  set_up-Serves groups sub sub' s fresh same e =
      elim (Outcome-cases (redis.subscribe (node_channel id) sub)) [
        | inl (t, _, q) ↦
            let (all, node) = subscribe_all-listens groups t sub' (ground arith) in
            record {
              tracked = λ g. ground (
                arith,
                all g,
                fresh g,
                same,
                channels_differ_back g id,
                laws.subscribe_done (node_channel id) (group_channel g) sub t q,
              );
              inbox = ground (
                arith,
                node,
                str_eq_refl (node_channel id),
                laws.subscribe_done (node_channel id) (node_channel id) sub t q,
              );
            }
        | inr (t, q) ↦ ground arith
      ]
