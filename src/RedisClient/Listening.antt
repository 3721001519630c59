-- ===== src/RedisClient/Listening.antt =====
-- The subscriber thread as a whole.
use cluster_chat_server_soft.Prelude.{
  All, ℕ, ◌≡◌, refl, Bool, true, false, Option, some, List, [], ◌∷◌, arith, inl, inr, Option-cases,
  ◌⊎◌,
}
use cluster_chat_server_soft.Prelude.Int.{ℤ}
use cluster_chat_server_soft.Prelude.Text.{Str}
use cluster_chat_server_soft.External.{done, Outcome-cases}
use cluster_chat_server_soft.External.Redis.{RedisServer}
use cluster_chat_server_soft.RedisPool.{RedisPool, got, acquire, release}
use cluster_chat_server_soft.RedisClient.Core.{Client, pool_wait_ms}
use cluster_chat_server_soft.RedisClient.Commands.{group_channel}
use cluster_chat_server_soft.RedisClient.Subscriber.{Subs}
use cluster_chat_server_soft.RedisClient.Channels.{SubscriberLaws, Connected}
use cluster_chat_server_soft.RedisClient.Thread.{
  node_channel, Turn, Loop, left, thrown, consuming, Thread, no_connection, ended, running,
  subscribe_all, set_up, clean_up, consume_loop, subscriber_thread,
}
use cluster_chat_server_soft.RedisClient.Lifetime.{Serves, consume_loop-Serves, set_up-Serves}
use cluster_chat_server_soft.RedisClient.Loops.{all_quiet}
use cluster_chat_server_soft.RedisClient.Registered.{
  Loses, consume_loop-IsRegistered, Serves-IsRegistered,
}
use cluster_chat_server_soft.RedisClient.Shutdown.{
  all_caught, asked_to_end, consume_loop-left, IsSilent, clean_up-IsSilent,
}

Loop-cases :
    {S : Type 0} (l : Loop S)
    → ((s : S) × (l ≡ left s)) ⊎ (((s : S) × (l ≡ thrown s)) ⊎ ((s : S) × (l ≡ consuming s)))
Loop-cases (left s) = inl (s, refl)
Loop-cases (thrown s) = inr (inl (s, refl))
Loop-cases (consuming s) = inr (inr (s, refl))

module _ ⦃redis : RedisServer⦄ where
  -- What a thread that has ended leaves in the pool; one that runs says nothing.
  abbrev pub Leaves : RedisPool → Thread Client → Type 0
  Leaves p (no_connection r) = r.pool ≡ p
  Leaves p (ended r) = r.pool ≡ p
  Leaves p (running r) = Unit

  -- Once the thread has got a connection, every way to its end gives the connection back to the pool:
  -- the end by `stopped_` and the exceptions of `subscriber`, of the first subscriptions and of the
  -- loop.
  pub subscriber_thread-gives_back :
      (subscriber : ℕ → Option redis.Sub) (meanwhile : RedisPool → RedisPool)
      (turns : List (Turn redis.Sub)) (r : Client) (conn : ℕ) (rest : RedisPool)
      → acquire pool_wait_ms r.waiting r.pool ≡ got conn rest
      → Leaves
          (release (some conn) (meanwhile rest))
          (subscriber_thread subscriber meanwhile turns r)
  unfolding subscriber_thread
  subscriber_thread-gives_back subscriber meanwhile turns r conn rest e =
      let held = meanwhile rest in
      let freed : Client = record r { pool = release (some conn) held } in
      elim (Option-cases (subscriber conn)) [
        | inl n ↦ same (ended freed) _ (ground arith) refl
        | inr (sub, q) ↦ elim (Outcome-cases (set_up r.local_node_id r.subs.sub_group_set sub)) [
          | inr (sub', x) ↦
              same (ended (record freed { subs = record r.subs { sub = sub' } })) _ (ground arith)
                refl
          | inl (sub', _, x) ↦
              elim (Loop-cases (consume_loop turns (record r.subs { sub = sub' }))) [
                | inl (s, l) ↦
                    same (ended (record freed { subs = clean_up r.local_node_id s })) _
                      (ground arith) refl
                | inr (inl (s, l)) ↦ same (ended (record freed { subs = s })) _ (ground arith) refl
                | inr (inr (s, l)) ↦
                    same (running (record r { pool = held; subs = s })) _ (ground arith) tt
              ]
        ]
      ]
    where
      same :
          (t u : Thread Client)
          → u ≡ t
          → Leaves (release (some conn) (meanwhile rest)) t
          → Leaves (release (some conn) (meanwhile rest)) u
      same t u q h = rw q h

module _ ⦃redis : RedisServer⦄ (listens : redis.Sub → Str → Bool)
    (laws : SubscriberLaws redis listens) (connected : Connected redis) where
  subscribe_all-done :
      (gs : List ℤ) (sub : redis.Sub) → (sub' : redis.Sub) × (subscribe_all gs sub ≡ done sub' tt)
  unfolding subscribe_all
  subscribe_all-done [] sub = (sub, refl)
  subscribe_all-done (g ∷ gs) sub =
      let (t, q) = connected.subscribes (group_channel g) sub in
      let (sub', e) = subscribe_all-done gs t in (sub', ground arith)

  set_up-done :
      (id : Str) (gs : List ℤ) (sub : redis.Sub)
      → (sub' : redis.Sub) × (set_up id gs sub ≡ done sub' tt)
  unfolding set_up
  set_up-done id gs sub =
      let (t, q) = connected.subscribes (node_channel id) sub in
      let (sub', e) = subscribe_all-done gs t in (sub', ground arith)

  -- With a subscriber that listens to no group at first and whose other calls do not throw, while no
  -- exception but a redis++ error comes out of `consume`, and such an error may lose subscriptions but
  -- adds none: once the destructor has asked for it the thread ends, with its connection back in the
  -- pool, and listens to nothing any more.
  pub subscriber_thread-IsSilent :
      (subscriber : ℕ → Option redis.Sub) (meanwhile : RedisPool → RedisPool)
      (turns : List (Turn redis.Sub)) (r : Client) (conn : ℕ) (rest : RedisPool) (sub : redis.Sub)
      → acquire pool_wait_ms r.waiting r.pool ≡ got conn rest
      → subscriber conn ≡ some sub
      → ((g : ℤ) → listens sub (group_channel g) ≡ false)
      → All (λ t. Loses listens t.consume) turns
      → all_caught turns ≡ true
      → asked_to_end turns ≡ true
      → (r' : Client) × (subscriber_thread subscriber meanwhile turns r ≡ ended r')
        × (r'.pool ≡ release (some conn) (meanwhile rest))
        × IsSilent listens laws connected r.local_node_id r'.subs
  unfolding subscriber_thread
  subscriber_thread-IsSilent subscriber meanwhile turns r conn rest sub e q fresh loses caught
        asked =
      let id = r.local_node_id in
      let groups = r.subs.sub_group_set in
      let (sub', x) = set_up-done id groups sub in
      let start : Subs = record r.subs { sub = sub' } in
      let serves = set_up-Serves listens laws id groups sub sub' r.subs fresh refl x in
      let (s, l) = consume_loop-left turns start caught (ground arith) in
      (
        record r { pool = release (some conn) (meanwhile rest); subs = clean_up id s },
        ground arith,
        refl,
        clean_up-IsSilent listens laws connected id s (
            rw l at (
              consume_loop-IsRegistered listens laws turns start loses
                (Serves-IsRegistered listens laws id start serves))),
      )

module _ ⦃redis : RedisServer⦄ (listens : redis.Sub → Str → Bool)
    (laws : SubscriberLaws redis listens) where
  -- The state of a thread that is in `consume`.
  abbrev pub Serving : Str → Thread Client → Type 0
  Serving id (no_connection r) = Unit
  Serving id (ended r) = Unit
  Serving id (running r) = Serves listens laws id r.subs

  -- While the thread runs, after any requests and any calls of `consume` that returned or timed out, it
  -- listens to the inbox of its node and to the channels of exactly the groups in `sub_group_set_`, if
  -- its subscriber listens to no group at first, and if a `subscribe` or `unsubscribe` that throws
  -- changes no subscription. After another error of `consume` this is not said.
  pub subscriber_thread-Serving :
      (subscriber : ℕ → Option redis.Sub) (meanwhile : RedisPool → RedisPool)
      (turns : List (Turn redis.Sub)) (r : Client) (conn : ℕ) (rest : RedisPool) (sub : redis.Sub)
      → acquire pool_wait_ms r.waiting r.pool ≡ got conn rest
      → subscriber conn ≡ some sub
      → ((g : ℤ) → listens sub (group_channel g) ≡ false)
      → all_quiet turns ≡ true
      → Serving r.local_node_id (subscriber_thread subscriber meanwhile turns r)
  unfolding subscriber_thread
  subscriber_thread-Serving subscriber meanwhile turns r conn rest sub e q fresh quiet =
      let id = r.local_node_id in
      let groups = r.subs.sub_group_set in
      let held = meanwhile rest in
      let freed : Client = record r { pool = release (some conn) held } in
      elim (Outcome-cases (set_up id groups sub)) [
        | inr (sub', x) ↦
            same (ended (record freed { subs = record r.subs { sub = sub' } })) _ (ground arith) tt
        | inl (sub', _, x) ↦
            let start : Subs = record r.subs { sub = sub' } in
            let serves =
              consume_loop-Serves listens laws id turns start quiet
                (set_up-Serves listens laws id groups sub sub' r.subs fresh refl x) in
            elim (Loop-cases (consume_loop turns start)) [
              | inl (s, l) ↦
                  same (ended (record freed { subs = clean_up id s })) _ (ground arith) tt
              | inr (inl (s, l)) ↦ same (ended (record freed { subs = s })) _ (ground arith) tt
              | inr (inr (s, l)) ↦
                  same (running (record r { pool = held; subs = s })) _ (ground arith)
                    (rw l at serves)
            ]
      ]
    where
      same : (t u : Thread Client) → u ≡ t → Serving r.local_node_id t → Serving r.local_node_id u
      same t u q h = rw q h
