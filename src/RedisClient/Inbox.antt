-- ===== src/RedisClient/Inbox.antt =====
-- The offline messages in Redis: `pushOfflineMessage` and `popOfflineMessages`.
use mathlib.Core.List.{reverse-cons, append_assoc}
use cluster_chat_server_soft.Prelude.{ℕ, ◌≡◌, List, [], ◌∷◌, ◌++◌, reverse, arith, if◌then◌else◌}
use cluster_chat_server_soft.Prelude.Int.{ℤ, eq_ℤ, eq_ℤ_iff, eq_ℤ_refl}
use cluster_chat_server_soft.Prelude.Text.{Str, str_eq, str_eq_iff, to_string-injective}
use cluster_chat_server_soft.External.{done}
use cluster_chat_server_soft.External.Redis.{RedisServer, Write}
use cluster_chat_server_soft.RedisClient.Core.{Client}
use cluster_chat_server_soft.RedisClient.Laws.{Serves, ListTable, IsRunning, with_conn_ensures}
use cluster_chat_server_soft.RedisClient.Commands.{
  offline_key, pop_body, push_offline_message, pop_offline_messages,
}

offline_key_eq : (a b : ℤ) → str_eq (offline_key a) (offline_key b) ≡ eq_ℤ a b
unfolding offline_key
offline_key_eq a b =
    ground
      (arith, str_eq_iff (offline_key a) (offline_key b), eq_ℤ_iff a b, to_string-injective a b)

module _ ⦃redis : RedisServer⦄ (list : redis.Store → Str → List Str) (table : ListTable redis list)
    (serves : Serves redis) where
  -- The messages that wait for a user, the newest first.
  abbrev pub waiting_for : ℤ → Client → List Str
  waiting_for id r = list r.store (offline_key id)

  push-waiting :
      (id other : ℤ) (msg : Str) (r : Client)
      → IsRunning r
      → let r' = push_offline_message id msg r in
        IsRunning r'
        × (waiting_for other r'
            ≡ (if eq_ℤ id other then msg ∷ waiting_for other r else waiting_for other r))
  unfolding push_offline_message
  push-waiting id other msg r up =
      let (u, p, _) =
        with_conn_ensures
          (λ s a.
            list s (offline_key other)
            ≡ (if eq_ℤ id other then msg ∷ waiting_for other r else waiting_for other r))
          tt (λ conn. redis.write conn (Write.lpush (offline_key id) msg)) r up
          (λ conn.
            let (s, e) = serves.writes conn (Write.lpush (offline_key id) msg) r.store in
            (
              s,
              tt,
              e,
              rw (← offline_key_eq id other)
                  (table.lpush_done conn (offline_key id) msg (offline_key other) r.store s e),
            )) in
      (u, p)

  pop_body-empties :
      (id : ℤ) (s : redis.Store) (conn : ℕ)
      → (s' : redis.Store) × (a : List Str) × (pop_body id conn s ≡ done s' a)
        × (a ≡ list s (offline_key id))
        × ((other : ℤ)
            → list s' (offline_key other)
              ≡ (if eq_ℤ id other then [] else list s (offline_key other)))
  pop_body-empties id s conn =
      let (s1, vs, e1) = serves.lranges conn (offline_key id) s in
      let (s2, e2) = serves.writes conn (Write.del (offline_key id)) s1 in
      (
        s2,
        vs,
        ground arith,
        (table.lrange_done conn (offline_key id) (offline_key id) s s1 vs e1).0,
        λ other.
            rw
              (
                ← offline_key_eq id other,
                ← (table.lrange_done conn (offline_key id) (offline_key other) s s1 vs e1).1,
              )
              (table.del_done conn (offline_key id) (offline_key other) s1 s2 e2),
      )

  pop-waiting :
      (id other : ℤ) (r : Client)
      → IsRunning r
      → let (r', messages) = pop_offline_messages id r in
        (messages ≡ waiting_for id r)
        × (waiting_for other r' ≡ (if eq_ℤ id other then [] else waiting_for other r))
  unfolding pop_offline_messages
  pop-waiting id other r up =
      let (u, p, _) =
        with_conn_ensures
          (λ s a.
            (a ≡ waiting_for id r)
            × ((other : ℤ)
                → list s (offline_key other) ≡ (if eq_ℤ id other then [] else waiting_for other r)))
          [] (pop_body id) r up
          (λ conn. let (s', a, e, q, f) = pop_body-empties id r.store conn in (s', a, e, (q, f))) in
      (p.0, p.1 other)

  -- `pushOfflineMessage` of each message in turn.
  unfoldable pub push_all : ℤ → List Str → Client → Client
  push_all id [] r = r
  push_all id (msg ∷ msgs) r = push_all id msgs (push_offline_message id msg r)

  push_all-waiting :
      (id other : ℤ) (msgs : List Str) (r : Client)
      → IsRunning r
      → let r' = push_all id msgs r in
        IsRunning r'
        × (waiting_for other r'
            ≡ (if eq_ℤ id other then reverse msgs ++ waiting_for other r else waiting_for other r))
  unfolding push_all
  push_all-waiting id other [] r up = (up, ground arith)
  push_all-waiting id other (msg ∷ msgs) r up =
      let (u, p) = push-waiting id other msg r up in
      let (u', p') = push_all-waiting id other msgs (push_offline_message id msg r) u in
      (
        u',
        ground (
          arith,
          append_assoc (reverse msgs) (msg ∷ []) (waiting_for other r),
          reverse-cons msg msgs,
        ),
      )

  -- Where no command throws and the client's pool runs with a free connection, messages pushed for a user come back with one `popOfflineMessages`, the newest
  -- first, in front of those that waited before; then none waits for the user, and nothing has changed
  -- for the others.
  pub pop-push_all :
      (id other : ℤ) (msgs : List Str) (r : Client)
      → IsRunning r
      → let (r', messages) = pop_offline_messages id (push_all id msgs r) in
        (messages ≡ reverse msgs ++ waiting_for id r)
        × (waiting_for other r' ≡ (if eq_ℤ id other then [] else waiting_for other r))
  pop-push_all id other msgs r up =
      let (u, p) = push_all-waiting id id msgs r up in
      let (_, p') = push_all-waiting id other msgs r up in
      let (q, q') = pop-waiting id other (push_all id msgs r) u in
      (ground (arith, eq_ℤ_refl id), ground arith)
