-- ===== src/RedisClient/Shutdown.antt =====
-- The end of the subscriber thread: what it gives back, and what it still listens to.
use cluster_chat_server_soft.Prelude.{
  ◌≡◌, refl, ◌∙◌, ap, Bool, true, false, not, ◌||◌, ◌&&◌, List, [], ◌∷◌, arith, if◌then◌else◌, inl,
  inr, Bool-cases,
}
use cluster_chat_server_soft.Prelude.Int.{ℤ}
use cluster_chat_server_soft.Prelude.IntSet.{contains}
use cluster_chat_server_soft.Prelude.Text.{Str, str_eq_refl}
use cluster_chat_server_soft.External.{done, Outcome-cases}
use cluster_chat_server_soft.External.Redis.{RedisServer}
use cluster_chat_server_soft.RedisClient.Core.{SubTask}
use cluster_chat_server_soft.RedisClient.Commands.{group_channel}
use cluster_chat_server_soft.RedisClient.Subscriber.{
  Subs, subscribe_group_channel, unsubscribe_group_channel, subscribe_task, unsubscribe_task,
  run_tasks, round,
}
use cluster_chat_server_soft.RedisClient.Channels.{SubscriberLaws, Connected, group_channel_eq}
use cluster_chat_server_soft.RedisClient.Thread.{
  node_channel, Request, subscribes, unsubscribes, destroys, Consumed, consumed, timed_out, failed,
  broken, after_consume, Turn, Loop, left, thrown, request, requests, unsubscribe_all, clean_up,
  consume_loop,
}
use cluster_chat_server_soft.RedisClient.Lifetime.{channels_differ, channels_differ_back}
use cluster_chat_server_soft.RedisClient.Registered.{IsRegistered}

-- Is the destructor's request among them?
abbrev pub asks_end : List Request → Bool
asks_end [] = false
asks_end (destroys ∷ qs) = true
asks_end (subscribes g ∷ qs) = asks_end qs
asks_end (unsubscribes g ∷ qs) = asks_end qs

abbrev pub asked_to_end : {Sub : Type 0} → List (Turn Sub) → Bool
asked_to_end [] = false
asked_to_end (t ∷ turns) = asks_end t.asked || asked_to_end turns

abbrev pub is_caught : {Sub : Type 0} → Consumed Sub → Bool
is_caught consumed = true
is_caught timed_out = true
is_caught (failed f) = true
is_caught broken = false

abbrev pub all_caught : {Sub : Type 0} → List (Turn Sub) → Bool
all_caught [] = true
all_caught (t ∷ turns) = is_caught t.consume && all_caught turns

module _ ⦃redis : RedisServer⦄ where
  subscribe_task-stopped : (g : ℤ) (s : Subs) → (subscribe_task g s).stopped ≡ s.stopped
  unfolding subscribe_task
  subscribe_task-stopped g s = elim (Outcome-cases (redis.subscribe (group_channel g) s.sub)) [
    | inl (sub, _, e) ↦ ground arith
    | inr (sub, e) ↦ ground arith
  ]

  unsubscribe_task-stopped : (g : ℤ) (s : Subs) → (unsubscribe_task g s).stopped ≡ s.stopped
  unfolding unsubscribe_task
  unsubscribe_task-stopped g s = elim (Outcome-cases (redis.unsubscribe (group_channel g) s.sub)) [
    | inl (sub, _, e) ↦ ground arith
    | inr (sub, e) ↦ ground arith
  ]

  run_tasks-stopped :
      (tasks : List SubTask) (s : Subs) → s.stopped ≡ true → (run_tasks tasks s).stopped ≡ true
  unfolding run_tasks
  run_tasks-stopped [] s h = h
  run_tasks-stopped (SubTask.subscribe g ∷ tasks) s h =
      run_tasks-stopped tasks (subscribe_task g s) (subscribe_task-stopped g s ∙ h)
  run_tasks-stopped (SubTask.unsubscribe g ∷ tasks) s h =
      run_tasks-stopped tasks (unsubscribe_task g s) (unsubscribe_task-stopped g s ∙ h)
  run_tasks-stopped (SubTask.stop ∷ tasks) s h = refl

  request-stopped : (q : Request) (s : Subs) → s.stopped ≡ true → (request q s).stopped ≡ true
  unfolding request subscribe_group_channel unsubscribe_group_channel
  request-stopped (subscribes g) s h = ground arith
  request-stopped (unsubscribes g) s h = ground arith
  request-stopped destroys s h = refl

  requests-stopped :
      (qs : List Request) (s : Subs)
      → (s.stopped || asks_end qs) ≡ true
      → (requests qs s).stopped ≡ true
  unfolding requests request
  requests-stopped [] s h = ground arith
  requests-stopped (destroys ∷ qs) s h = requests-stopped qs (request destroys s) refl
  requests-stopped (subscribes g ∷ qs) s h = elim (Bool-cases s.stopped) [
    | inl e ↦
        requests-stopped qs (request (subscribes g) s)
          (ap (λ b. b || asks_end qs) (request-stopped (subscribes g) s e))
    | inr e ↦ requests-stopped qs (request (subscribes g) s) (ground arith)
  ]
  requests-stopped (unsubscribes g ∷ qs) s h = elim (Bool-cases s.stopped) [
    | inl e ↦
        requests-stopped qs (request (unsubscribes g) s)
          (ap (λ b. b || asks_end qs) (request-stopped (unsubscribes g) s e))
    | inr e ↦ requests-stopped qs (request (unsubscribes g) s) (ground arith)
  ]

  after_consume-stopped :
      (c : Consumed redis.Sub) (s : Subs) → (after_consume c s).stopped ≡ s.stopped
  unfolding after_consume
  after_consume-stopped consumed s = refl
  after_consume-stopped timed_out s = refl
  after_consume-stopped broken s = refl
  after_consume-stopped (failed f) s = refl

  step_of : Bool → Subs → Consumed redis.Sub → Subs → Loop Subs → Loop Subs
  step_of stopped s c asked next =
      if stopped
      then left s
      else elim c [ consumed ↦ next | timed_out ↦ next | broken ↦ thrown asked | failed f ↦ next ]

  step_of-caught :
      (b : Bool) (s asked s' : Subs) (c : Consumed redis.Sub) (next : Loop Subs)
      → is_caught c ≡ true
      → b ≡ false
      → next ≡ left s'
      → step_of b s c asked next ≡ left s'
  unfolding step_of
  step_of-caught b s asked s' consumed next h e q = ground arith
  step_of-caught b s asked s' timed_out next h e q = ground arith
  step_of-caught b s asked s' (failed f) next h e q = ground arith
  step_of-caught b s asked s' broken next h e q = cc

  -- Where no exception but a redis++ error comes out of `consume`, the loop ends by `stopped_` once the
  -- destructor has asked for it.
  pub consume_loop-left :
      (turns : List (Turn redis.Sub)) (s : Subs)
      → all_caught turns ≡ true
      → (s.stopped || asked_to_end turns) ≡ true
      → (s' : Subs) × (consume_loop turns s ≡ left s')
  unfolding consume_loop round step_of
  consume_loop-left [] s caught h = (s, ground arith)
  consume_loop-left (t ∷ turns) s caught h = elim (Bool-cases s.stopped) [
    | inl e ↦ (s, ground arith)
    | inr e ↦
        let asked = requests t.asked s in
        let behind = after_consume t.consume asked in
        let (s', q) =
          consume_loop-left turns (round behind) (ground arith)
            (elim (Bool-cases (asks_end t.asked)) [
              | inl a ↦ ground (
                arith,
                run_tasks-stopped behind.sub_tasks (record behind { sub_tasks = [] })
                    (after_consume-stopped t.consume asked
                      ∙ requests-stopped t.asked s (ground arith)),
              )
              | inr a ↦ ground (arith)
            ]) in
        (
          s',
          step_of-caught s.stopped s asked s' t.consume (consume_loop turns (round behind))
              (ground arith) e q,
        )
  ]

module _ ⦃redis : RedisServer⦄ (listens : redis.Sub → Str → Bool)
    (laws : SubscriberLaws redis listens) (connected : Connected redis) (id : Str) where
  unsubscribe_all-listens :
      (gs : List ℤ) (sub : redis.Sub)
      → (sub' : redis.Sub) × (unsubscribe_all gs sub ≡ done sub' tt)
        × ((g : ℤ)
            → listens sub' (group_channel g)
              ≡ (not (contains gs g) && listens sub (group_channel g)))
        × (listens sub' (node_channel id) ≡ listens sub (node_channel id))
  unfolding unsubscribe_all contains
  unsubscribe_all-listens [] sub = (sub, refl, (λ g. refl), refl)
  unsubscribe_all-listens (h ∷ gs) sub =
      let (t, q) = connected.unsubscribes (group_channel h) sub in
      let (sub', e, groups, node) = unsubscribe_all-listens gs t in
      (
        sub',
        ground arith,
        λ g. ground (
          arith,
          groups g,
          group_channel_eq h g,
          laws.unsubscribe_done (group_channel h) (group_channel g) sub t q,
        ),
        ground (
          arith,
          node,
          channels_differ h id,
          laws.unsubscribe_done (group_channel h) (node_channel id) sub t q,
        ),
      )

  -- The subscriber listens to no channel of a group and not to the node's inbox.
  pub record IsSilent (s : Subs) : Type 0 where
    pub groups : (g : ℤ) → listens s.sub (group_channel g) ≡ false
    pub inbox : listens s.sub (node_channel id) ≡ false

  pub clean_up-IsSilent : (s : Subs) → IsRegistered listens laws s → IsSilent (clean_up id s)
  unfolding clean_up
  clean_up-IsSilent s h =
      let (t, q) = connected.unsubscribes (node_channel id) s.sub in
      let (sub', e, groups, node) = unsubscribe_all-listens s.sub_group_set t in
      record {
        groups = λ g. ground (
          arith,
          groups g,
          h g,
          channels_differ_back g id,
          laws.unsubscribe_done (node_channel id) (group_channel g) s.sub t q,
        );
        inbox = ground (
          arith,
          node,
          str_eq_refl (node_channel id),
          laws.unsubscribe_done (node_channel id) (node_channel id) s.sub t q,
        );
      }
