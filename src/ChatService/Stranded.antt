-- ===== src/ChatService/Stranded.antt =====
-- The last local member of a group leaves, and another user joins before the subscriber thread's next
-- round.
use cluster_chat_server_soft.Prelude.{
  ℕ, ◌≡◌, refl, ◌⊎◌, ◌∙◌, ap, true, false, inl, inr, [], ◌∷◌, arith,
}
use cluster_chat_server_soft.Prelude.Int.{ℤ, eq_ℤ_refl}
use cluster_chat_server_soft.Prelude.IntSet.{contains}
use cluster_chat_server_soft.Prelude.IntSet
use cluster_chat_server_soft.External.{Outcome, Outcome-cases}
use cluster_chat_server_soft.External.Sql.{SqlServer}
use cluster_chat_server_soft.Prelude.IntMap.{update}
use cluster_chat_server_soft.Prelude.Text.{Str, to_string}
use cluster_chat_server_soft.External.Redis.{RedisServer, Write}
use cluster_chat_server_soft.External.Json.{JsonLib}
use cluster_chat_server_soft.RedisPool.{RedisPool, Acquired, got, null, blocked, acquire}
use cluster_chat_server_soft.RedisClient.Core.{Client, SubTask, pool_wait_ms, with_conn}
use cluster_chat_server_soft.RedisClient.Commands
use cluster_chat_server_soft.RedisClient.Subscriber.{Subs, subscribe_group_channel, round}
use cluster_chat_server_soft.RedisClient.Channels.{Connected}
use cluster_chat_server_soft.RedisClient.Requests.{ask_listed, leave_listed, round_leave}
use cluster_chat_server_soft.ChatService.State.{State, returned}
use cluster_chat_server_soft.ChatService.Session.{log_out, leave_groups, emptied}
use cluster_chat_server_soft.ChatService.Groups.{enter_group, members_key}
use cluster_chat_server_soft.ChatService.Departure.{
  is_member, unsubscribed, logged_out, log_out-logged_out,
}
use cluster_chat_server_soft.ChatService.Membership.{is_member-insert}

Acquired-cases :
    (a : Acquired)
    → ((c : ℕ) × (p : RedisPool) × (a ≡ got c p))
      ⊎ (((p : RedisPool) × (a ≡ null p)) ⊎ ((p : RedisPool) × (a ≡ blocked p)))
Acquired-cases (got c p) = inl (c, p, refl)
Acquired-cases (null p) = inr (inl (p, refl))
Acquired-cases (blocked p) = inr (inr (p, refl))

module _ ⦃redis : RedisServer⦄ where
  -- A command leaves the subscriptions alone.
  with_conn-subs :
      {A : Type 0} (missing : A) (body : ℕ → redis.Store → Outcome redis.Store A) (r : Client)
      → (with_conn missing body r).0.subs ≡ r.subs
  unfolding with_conn
  with_conn-subs missing body r = elim (Acquired-cases (acquire pool_wait_ms r.waiting r.pool)) [
    | inl (c, p, e) ↦ elim (Outcome-cases (body c r.store)) [
      | inl (s, a, q) ↦ ground arith
      | inr (s, q) ↦ ground arith
    ]
    | inr (inl (p, e)) ↦ ground arith
    | inr (inr (p, e)) ↦ ground arith
  ]

  set_user_offline-subs : (id : ℤ) (r : Client) → (Commands.set_user_offline id r).subs ≡ r.subs
  unfolding Commands.set_user_offline
  set_user_offline-subs id r = with_conn-subs tt (Commands.presence_deletes id) r

  sadd-subs : (key member : Str) (r : Client) → (Commands.sadd key member r).subs ≡ r.subs
  unfolding Commands.sadd
  sadd-subs key member r = with_conn-subs tt (λ conn. redis.write conn (Write.sadd key member)) r

  expire-subs : (key : Str) (ttl : ℕ) (r : Client) → (Commands.expire key ttl r).subs ≡ r.subs
  unfolding Commands.expire
  expire-subs key ttl r = with_conn-subs tt (λ conn. redis.write conn (Write.expire key ttl)) r

  abbrev asked_to_leave : ℤ → Subs → Subs
  asked_to_leave g s = record s { sub_tasks = SubTask.unsubscribe g ∷ [] }

module _ ⦃sql : SqlServer⦄ ⦃redis : RedisServer⦄ ⦃json : JsonLib⦄ where
  -- The state that the end of `joinGroup` leaves.
  abbrev with_member : ℤ → ℤ → State → State
  with_member userid g s =
      let r =
        Commands.expire (members_key g) 3600
          (Commands.sadd (members_key g) (to_string userid) s.redis) in
      record s {
        group_members = update g [] (IntSet.insert userid) s.group_members;
        redis = record r { subs = subscribe_group_channel g r.subs };
      }

  with_member-subs :
      (userid g : ℤ) (s : State)
      → (with_member userid g s).redis.subs ≡ subscribe_group_channel g s.redis.subs
  with_member-subs userid g s =
      ap (λ x. subscribe_group_channel g x)
        (expire-subs (members_key g) 3600 (Commands.sadd (members_key g) (to_string userid) s.redis)
          ∙ sadd-subs (members_key g) (to_string userid) s.redis)

module _ ⦃sql : SqlServer⦄ ⦃redis : RedisServer⦄ ⦃json : JsonLib⦄
    (connected : Connected redis) where
  emptied-only : (a g : ℤ) → emptied (leave_groups a ((g, a ∷ []) ∷ [])) ≡ g ∷ []
  unfolding emptied leave_groups IntSet.erase
  emptied-only a g = ground (arith, eq_ℤ_refl a)

  logged_out-subs :
      (a g : ℤ) (s : State)
      → s.group_members ≡ (g, a ∷ []) ∷ []
      → contains s.redis.subs.sub_group_set g ≡ true
      → s.redis.subs.sub_tasks ≡ []
      → (logged_out a s).redis.subs ≡ asked_to_leave g s.redis.subs
  unfolding unsubscribed
  logged_out-subs a g s only listed idle =
      rw (only, emptied-only a g, set_user_offline-subs a s.redis)
        (leave_listed connected g s.redis.subs idle listed)

  -- After `loginOut` of the only local member of a group, whose channel is subscribed, and a join of
  -- the group by another user before the subscriber thread's next round, with no task queued at first
  -- and a subscriber whose calls do not throw: the other user is a local member, but the round leaves
  -- the group out of `sub_group_set_`, so the node is not subscribed to the group of its member.
  pub enter_group-stranded :
      (a b g : ℤ) (s : State)
      → s.group_members ≡ (g, a ∷ []) ∷ []
      → contains s.redis.subs.sub_group_set g ≡ true
      → s.redis.subs.sub_tasks ≡ []
      → (s1 : State) × (s2 : State) × (log_out a s ≡ returned s1 tt)
        × (enter_group b g s1 ≡ returned s2 tt)
        × (is_member s2.group_members g b ≡ true)
        × (contains (round s2.redis.subs).sub_group_set g ≡ false)
  unfolding enter_group
  enter_group-stranded a b g s only listed idle =
      let s1 = logged_out a s in
      let left = logged_out-subs a g s only listed idle in
      let joined = ask_listed connected g (asked_to_leave g s.redis.subs) listed in
      (
        s1,
        with_member b g s1,
        log_out-logged_out a s,
        refl,
        ground (arith, is_member-insert g b g b s1.group_members, eq_ℤ_refl g, eq_ℤ_refl b),
        rw (with_member-subs b g s1, left, joined) (round_leave connected g s.redis.subs),
      )
