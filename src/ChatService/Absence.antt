-- ===== src/ChatService/Absence.antt =====
-- What Redis reports of a user whose connection has closed.
use cluster_chat_server_soft.Prelude.{
  ◌∙◌, Bool-cases, inl, inr, ◌≡◌, refl, false, Option, none, some, [], arith, if◌then◌else◌,
}
use cluster_chat_server_soft.Prelude.Int.{ℤ, negsuc, eq_ℤ, eq_ℤ_refl}
use cluster_chat_server_soft.Prelude.IntMap.{lookup, erase, lookup-erase}
use cluster_chat_server_soft.Prelude.Text.{Str}
use cluster_chat_server_soft.External.Sql.{SqlServer}
use cluster_chat_server_soft.External.Redis.{RedisServer}
use cluster_chat_server_soft.External.Json.{JsonLib}
use cluster_chat_server_soft.RedisClient.Commands.{
  is_user_online, get_user_node, get_user_conn_id, set_user_offline,
}
use cluster_chat_server_soft.RedisClient.Core.{Client}
use cluster_chat_server_soft.RedisClient.Subscriber.{Subs}
use cluster_chat_server_soft.RedisClient.Laws.{Serves, HashTable, IsRunning}
use cluster_chat_server_soft.RedisClient.Presence.{set_user_offline-reads}
use cluster_chat_server_soft.ChatService.State.{TcpConnection, State}
use cluster_chat_server_soft.ChatService.Session.{user_of, client_quit}
use cluster_chat_server_soft.ChatService.Departure.{logged_out, log_out-logged_out}
use cluster_chat_server_soft.ChatService.Inbox.{on_connection}

module _ ⦃sql : SqlServer⦄ ⦃redis : RedisServer⦄ ⦃json : JsonLib⦄ where
  -- What the server reads of a user `other` in Redis once `id` is gone.
  pub record ReadsGone (id other : ℤ) (s s' : State) : Type 0 where
    pub online :
        (is_user_online other s'.redis).1
        ≡ (if eq_ℤ id other then false else (is_user_online other s.redis).1)
    pub node :
        (get_user_node other s'.redis).1
        ≡ (if eq_ℤ id other then [] else (get_user_node other s.redis).1)
    pub conn_id :
        (get_user_conn_id other s'.redis).1
        ≡ (if eq_ℤ id other then [] else (get_user_conn_id other s.redis).1)

  -- A question reads the pool and the store, and not the subscriptions.
  online-subs :
      (id : ℤ) (r : Client) (subs : Subs)
      → (is_user_online id (record r { subs = subs })).1 ≡ (is_user_online id r).1
  unfolding is_user_online
  online-subs id r subs = ground arith

  node-subs :
      (id : ℤ) (r : Client) (subs : Subs)
      → (get_user_node id (record r { subs = subs })).1 ≡ (get_user_node id r).1
  unfolding get_user_node
  node-subs id r subs = ground arith

  conn_id-subs :
      (id : ℤ) (r : Client) (subs : Subs)
      → (get_user_conn_id id (record r { subs = subs })).1 ≡ (get_user_conn_id id r).1
  unfolding get_user_conn_id
  conn_id-subs id r subs = ground arith

module _ ⦃sql : SqlServer⦄ ⦃redis : RedisServer⦄ ⦃json : JsonLib⦄
    (hash : redis.Store → Str → Str → Option Str) (table : HashTable redis hash)
    (serves : Serves redis) where
  logged_out-ReadsGone :
      (id other : ℤ) (s : State) → IsRunning s.redis → ReadsGone id other s (logged_out id s)
  logged_out-ReadsGone id other s up =
      let r = set_user_offline id s.redis in
      let subs = (logged_out id s).redis.subs in
      let (online, node, conn_id) = set_user_offline-reads hash table serves id other s.redis up in
      record {
        online = online-subs other r subs ∙ online ∙ ground arith;
        node = node-subs other r subs ∙ node;
        conn_id = conn_id-subs other r subs ∙ conn_id;
      }

  -- When a connection closes while no command of Redis throws and the pool of the client runs with a
  -- free connection, the call returns, and the user that `clientQuitEcption` finds for it has no entry in
  -- `userConnMap_`. If its id is not -1, Redis then reports the user as not online, with no node and no
  -- connection. Of every other user, and of -1 if this is the one found, Redis reports what it did.
  pub client_quit-ReadsGone :
      (conn : TcpConnection) (id other : ℤ) (s : State)
      → IsRunning s.redis
      → user_of conn.handle s.user_conn_map ≡ some id
      → (s' : State) × (on_connection conn false s ≡ some s')
        × (lookup id s'.user_conn_map ≡ none)
        × (if eq_ℤ id (negsuc 0) then s'.redis ≡ s.redis else ReadsGone id other s s')
  unfolding on_connection client_quit
  client_quit-ReadsGone conn id other s up found = elim (Bool-cases (eq_ℤ id (negsuc 0))) [
    | inl unset ↦ (
      record s { user_conn_map = erase id s.user_conn_map },
      ground arith,
      ground (arith, lookup-erase id id s.user_conn_map, eq_ℤ_refl id),
      rw unset refl,
    )
    | inr set ↦ (
      logged_out id s,
      ground (arith, log_out-logged_out id s),
      ground (arith, lookup-erase id id s.user_conn_map, eq_ℤ_refl id),
      rw set (logged_out-ReadsGone id other s up),
    )
  ]
