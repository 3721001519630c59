-- ===== src/RedisClient/Presence.antt =====
-- The presence of a user in Redis: `setUserOnline`, `setUserOffline` and what reads it.
use cluster_chat_server_soft.Prelude.{
  ℕ, ◌≡◌, ap, false, not, ◌&&◌, ◌||◌, Option, none, some, [], arith, if◌then◌else◌,
}
use cluster_chat_server_soft.Prelude.Int.{ℤ, eq_ℤ, eq_ℤ_iff}
use cluster_chat_server_soft.Prelude.Text.{Str, codes, str_eq, str_eq_iff, to_string-injective}
use cluster_chat_server_soft.External.{done}
use cluster_chat_server_soft.External.Redis.{RedisServer, Write}
use cluster_chat_server_soft.RedisClient.Core.{Client, with_conn}
use cluster_chat_server_soft.RedisClient.Laws.{Serves, HashTable, IsRunning, with_conn_ensures}
use cluster_chat_server_soft.RedisClient.Commands.{
  returning, user_key, is_one, or_empty, presence_writes, presence_deletes, set_user_online,
  set_user_offline, is_user_online, get_user_node, get_user_conn_id,
}

-- The keys of two users differ, since their printed ids do.
user_key_eq : (a b : ℤ) → str_eq (user_key a) (user_key b) ≡ eq_ℤ a b
unfolding user_key
user_key_eq a b =
    ground (arith, str_eq_iff (user_key a) (user_key b), eq_ℤ_iff a b, to_string-injective a b)

module _ ⦃redis : RedisServer⦄ (hash : redis.Store → Str → Str → Option Str)
    (table : HashTable redis hash) (serves : Serves redis) where
  hset_user :
      (conn : ℕ) (id other : ℤ) (field value f : Str) (s s' : redis.Store)
      → redis.write conn (Write.hset (user_key id) field value) s ≡ done s' tt
      → hash s' (user_key other) f
        ≡ (if eq_ℤ id other && str_eq field f then some value else hash s (user_key other) f)
  hset_user conn id other field value f s s' e =
      rw (← user_key_eq id other)
        (table.hset_done conn (user_key id) field value (user_key other) f s s' e)

  hdel_user :
      (conn : ℕ) (id other : ℤ) (field f : Str) (s s' : redis.Store)
      → redis.write conn (Write.hdel (user_key id) field) s ≡ done s' tt
      → hash s' (user_key other) f
        ≡ (if eq_ℤ id other && str_eq field f then none else hash s (user_key other) f)
  hdel_user conn id other field f s s' e =
      rw (← user_key_eq id other)
        (table.hdel_done conn (user_key id) field (user_key other) f s s' e)

  -- What `setUserOnline` writes: the fields of every user afterwards.
  abbrev Marked : ℤ → Str → Str → redis.Store → redis.Store → Type 0
  Marked id node conn_id s s' =
      (other : ℤ) (f : Str)
      → hash s' (user_key other) f ≡ (
          if eq_ℤ id other && str_eq (codes "conn") f
          then some conn_id
          else if eq_ℤ id other && str_eq (codes "node") f
          then some node
          else if eq_ℤ id other && str_eq (codes "online") f
          then some (codes "1")
          else hash s (user_key other) f)

  presence_writes-Marked :
      (id : ℤ) (node conn_id : Str) (s : redis.Store) (conn : ℕ)
      → (s' : redis.Store) × (a : Unit {0}) × (presence_writes id node conn_id conn s ≡ done s' a)
        × Marked id node conn_id s s'
  presence_writes-Marked id node conn_id s conn =
      let (s1, e1) = serves.writes conn (Write.hset (user_key id) (codes "online") (codes "1")) s in
      let (s2, e2) = serves.writes conn (Write.hset (user_key id) (codes "node") node) s1 in
      let (s3, e3) = serves.writes conn (Write.hset (user_key id) (codes "conn") conn_id) s2 in
      let (s4, e4) = serves.writes conn (Write.expire (user_key id) 120) s3 in
      (
        s4,
        tt,
        ground arith,
        λ other f. rw (
          table.expire_done conn (user_key id) (user_key other) f 120 s3 s4 e4,
          hset_user conn id other (codes "conn") conn_id f s2 s3 e3,
          hset_user conn id other (codes "node") node f s1 s2 e2,
          hset_user conn id other (codes "online") (codes "1") f s s1 e1,
        ),
      )

  -- What `setUserOffline` deletes.
  abbrev Cleared : ℤ → redis.Store → redis.Store → Type 0
  Cleared id s s' =
      (other : ℤ) (f : Str)
      → hash s' (user_key other) f ≡ (
          if eq_ℤ id other && str_eq (codes "node") f
          then none
          else if eq_ℤ id other && str_eq (codes "conn") f
          then none
          else if eq_ℤ id other && str_eq (codes "online") f
          then none
          else hash s (user_key other) f)

  presence_deletes-Cleared :
      (id : ℤ) (s : redis.Store) (conn : ℕ)
      → (s' : redis.Store) × (a : Unit {0}) × (presence_deletes id conn s ≡ done s' a)
        × Cleared id s s'
  presence_deletes-Cleared id s conn =
      let (s1, e1) = serves.writes conn (Write.hdel (user_key id) (codes "online")) s in
      let (s2, e2) = serves.writes conn (Write.hdel (user_key id) (codes "conn")) s1 in
      let (s3, e3) = serves.writes conn (Write.hdel (user_key id) (codes "node")) s2 in
      (
        s3,
        tt,
        ground arith,
        λ other f. rw (
          hdel_user conn id other (codes "node") f s2 s3 e3,
          hdel_user conn id other (codes "conn") f s1 s2 e2,
          hdel_user conn id other (codes "online") f s s1 e1,
        ),
      )

  read_field :
      {A : Type 0} (f : Option Str → A) (missing : A) (key field : Str) (r : Client)
      → IsRunning r
      → (with_conn missing (λ conn. returning f (redis.hget conn key field)) r).1
        ≡ f (hash r.store key field)
  read_field f missing key field r up =
      (with_conn_ensures (λ s a. a ≡ f (hash r.store key field)) missing
        (λ conn. returning f (redis.hget conn key field)) r up
        (λ conn.
          let (s, v, e) = serves.hgets conn key field r.store in
          (s, f v, ground arith, ap f (table.hget_done conn key field r.store s v e)))).1

  read_online :
      (id : ℤ) (r : Client)
      → IsRunning r
      → (is_user_online id r).1 ≡ is_one (hash r.store (user_key id) (codes "online"))
  unfolding is_user_online
  read_online id r up = read_field is_one false (user_key id) (codes "online") r up

  read_node :
      (id : ℤ) (r : Client)
      → IsRunning r
      → (get_user_node id r).1 ≡ or_empty (hash r.store (user_key id) (codes "node"))
  unfolding get_user_node
  read_node id r up = read_field or_empty [] (user_key id) (codes "node") r up

  read_conn :
      (id : ℤ) (r : Client)
      → IsRunning r
      → (get_user_conn_id id r).1 ≡ or_empty (hash r.store (user_key id) (codes "conn"))
  unfolding get_user_conn_id
  read_conn id r up = read_field or_empty [] (user_key id) (codes "conn") r up

  set_user_online-Marked :
      (id : ℤ) (conn_id : Str) (r : Client)
      → IsRunning r
      → let r' = set_user_online id conn_id r in
        IsRunning r' × Marked id r.local_node_id conn_id r.store r'.store
  unfolding set_user_online
  set_user_online-Marked id conn_id r up =
      let (u, m, _) =
        with_conn_ensures (λ s a. Marked id r.local_node_id conn_id r.store s) tt
          (presence_writes id r.local_node_id conn_id) r up
          (presence_writes-Marked id r.local_node_id conn_id r.store) in
      (u, m)

  set_user_offline-Cleared :
      (id : ℤ) (r : Client)
      → IsRunning r
      → let r' = set_user_offline id r in IsRunning r' × Cleared id r.store r'.store
  unfolding set_user_offline
  set_user_offline-Cleared id r up =
      let (u, m, _) =
        with_conn_ensures (λ s a. Cleared id r.store s) tt (presence_deletes id) r up
          (presence_deletes-Cleared id r.store) in
      (u, m)

  -- Right after `setUserOnline`, where no command throws and the client's pool runs with a free
  -- connection, the user is online, on this node and with the given
  -- connection, and every other user reads as before.
  pub set_user_online-reads :
      (id other : ℤ) (conn_id : Str) (r : Client)
      → IsRunning r
      → let r' = set_user_online id conn_id r in
        ((is_user_online other r').1 ≡ (eq_ℤ id other || (is_user_online other r).1))
        × ((get_user_node other r').1
            ≡ (if eq_ℤ id other then r.local_node_id else (get_user_node other r).1))
        × ((get_user_conn_id other r').1
            ≡ (if eq_ℤ id other then conn_id else (get_user_conn_id other r).1))
  unfolding str_eq
  set_user_online-reads id other conn_id r up =
      let r' = set_user_online id conn_id r in
      let (u, m) = set_user_online-Marked id conn_id r up in
      (
        ground (arith, read_online other r' u, read_online other r up, m other (codes "online")),
        ground (arith, read_node other r' u, read_node other r up, m other (codes "node")),
        ground (arith, read_conn other r' u, read_conn other r up, m other (codes "conn")),
      )

  -- Right after `setUserOffline`, where no command throws and the client's pool runs with a free
  -- connection, the user is not online and has no node and no
  -- connection, and every other user reads as before.
  pub set_user_offline-reads :
      (id other : ℤ) (r : Client)
      → IsRunning r
      → let r' = set_user_offline id r in
        ((is_user_online other r').1 ≡ (not (eq_ℤ id other) && (is_user_online other r).1))
        × ((get_user_node other r').1 ≡ (if eq_ℤ id other then [] else (get_user_node other r).1))
        × ((get_user_conn_id other r').1
            ≡ (if eq_ℤ id other then [] else (get_user_conn_id other r).1))
  unfolding str_eq
  set_user_offline-reads id other r up =
      let r' = set_user_offline id r in
      let (u, m) = set_user_offline-Cleared id r up in
      (
        ground (arith, read_online other r' u, read_online other r up, m other (codes "online")),
        ground (arith, read_node other r' u, read_node other r up, m other (codes "node")),
        ground (arith, read_conn other r' u, read_conn other r up, m other (codes "conn")),
      )
