-- ===== src/RedisClient/Requests.antt =====
-- What the requests to subscribe to a group and their withdrawal come to, once the thread serves them.
use cluster_chat_server_soft.Prelude.{
  ◌≡◌, Bool, true, false, not, [], ◌∷◌, arith, if◌then◌else◌, inl, inr, Bool-cases,
}
use cluster_chat_server_soft.Prelude.Int.{ℤ, eq_ℤ_refl}
use cluster_chat_server_soft.Prelude.IntSet.{contains, contains-insert, contains-erase}
use cluster_chat_server_soft.External.Redis.{RedisServer}
use cluster_chat_server_soft.RedisClient.Core.{SubTask}
use cluster_chat_server_soft.RedisClient.Commands.{group_channel}
use cluster_chat_server_soft.RedisClient.Subscriber.{
  Subs, subscribe_group_channel, unsubscribe_group_channel, subscribe_task, unsubscribe_task, round,
}
use cluster_chat_server_soft.RedisClient.Channels.{Connected, Event, run}

module _ ⦃redis : RedisServer⦄ (connected : Connected redis) where
  subscribe_task-adds :
      (group_id : ℤ) (s : Subs) → contains (subscribe_task group_id s).sub_group_set group_id ≡ true
  unfolding subscribe_task
  subscribe_task-adds group_id s = ground (
    arith,
    (connected.subscribes (group_channel group_id) s.sub).1,
    contains-insert group_id group_id s.sub_group_set,
    eq_ℤ_refl group_id,
  )

  unsubscribe_task-drops :
      (group_id : ℤ) (s : Subs)
      → contains (unsubscribe_task group_id s).sub_group_set group_id ≡ false
  unfolding unsubscribe_task
  unsubscribe_task-drops group_id s = ground (
    arith,
    (connected.unsubscribes (group_channel group_id) s.sub).1,
    contains-erase group_id group_id s.sub_group_set,
    eq_ℤ_refl group_id,
  )

  abbrev listed : Subs → ℤ → Bool
  listed s group_id = contains s.sub_group_set group_id

  -- The thread's copy of the state, with the queue taken.
  abbrev taken : Subs → Subs
  taken s = record s { sub_tasks = [] }

  ask_new :
      (g : ℤ) (s : Subs)
      → s.sub_tasks ≡ []
      → listed s g ≡ false
      → subscribe_group_channel g s ≡ record s { sub_tasks = SubTask.subscribe g ∷ [] }
  unfolding subscribe_group_channel
  ask_new g s e h = ground arith

  pub ask_listed : (g : ℤ) (s : Subs) → listed s g ≡ true → subscribe_group_channel g s ≡ s
  unfolding subscribe_group_channel
  ask_listed g s h = ground arith

  pub leave_listed :
      (g : ℤ) (s : Subs)
      → s.sub_tasks ≡ []
      → listed s g ≡ true
      → unsubscribe_group_channel g s ≡ record s { sub_tasks = SubTask.unsubscribe g ∷ [] }
  unfolding unsubscribe_group_channel
  leave_listed g s e h = ground arith

  leave_new : (g : ℤ) (s : Subs) → listed s g ≡ false → unsubscribe_group_channel g s ≡ s
  unfolding unsubscribe_group_channel
  leave_new g s h = ground arith

  round_none : (s : Subs) → s.sub_tasks ≡ [] → round s ≡ taken s
  unfolding round
  round_none s e = rw (e, round)

  round_ask :
      (g : ℤ) (s : Subs)
      → listed (round (record s { sub_tasks = SubTask.subscribe g ∷ [] })) g ≡ true
  unfolding round
  round_ask g s = subscribe_task-adds g (taken s)

  pub round_leave :
      (g : ℤ) (s : Subs)
      → listed (round (record s { sub_tasks = SubTask.unsubscribe g ∷ [] })) g ≡ false
  unfolding round
  round_leave g s = unsubscribe_task-drops g (taken s)

  -- With no task queued and no exception of the subscriber, a request and the next round have their effect: after a
  -- request to subscribe the group is in the set, and after one to unsubscribe it is not.
  pub run_request :
      (group_id : ℤ) (s : Subs)
      → s.sub_tasks ≡ []
      → (listed (run s (Event.asks group_id ∷ Event.turns ∷ [])) group_id ≡ true)
        × (listed (run s (Event.leaves group_id ∷ Event.turns ∷ [])) group_id ≡ false)
  unfolding run
  run_request group_id s e = elim (Bool-cases (listed s group_id)) [
    | inl old ↦ (
      rw (ask_listed group_id s old, round_none s e) old,
      rw (leave_listed group_id s e old) (round_leave group_id s),
    )
    | inr new ↦ (
      rw (ask_new group_id s e new) (round_ask group_id s),
      rw (leave_new group_id s new, round_none s e) new,
    )
  ]

  -- With no task queued and no exception of the subscriber, a request that takes back one which the thread has not served yet is dropped, since the test
  -- reads `sub_group_set_` and not the queue: after subscribe and unsubscribe of a new group the node
  -- ends up subscribed, and after unsubscribe and subscribe of a subscribed one it ends up without.
  pub run_request_taken_back :
      (group_id : ℤ) (s : Subs)
      → s.sub_tasks ≡ []
      → let asked_back =
          if listed s group_id
          then Event.leaves group_id ∷ Event.asks group_id ∷ Event.turns ∷ []
          else Event.asks group_id ∷ Event.leaves group_id ∷ Event.turns ∷ [] in
        listed (run s asked_back) group_id ≡ not (listed s group_id)
  unfolding run
  run_request_taken_back group_id s e = elim (Bool-cases (listed s group_id)) [
    | inr new ↦
        rw
          (
            new,
            ask_new group_id s e new,
            leave_new group_id (record s { sub_tasks = SubTask.subscribe group_id ∷ [] }) new,
          )
          (round_ask group_id s)
    | inl old ↦
        rw
          (
            old,
            leave_listed group_id s e old,
            ask_listed group_id (record s { sub_tasks = SubTask.unsubscribe group_id ∷ [] }) old,
          )
          (round_leave group_id s)
  ]
