-- ===== src/ChatService/Departure.antt =====
-- What is left of a user after `loginOut`, and after its connection has closed.
use cluster_chat_server_soft.Prelude.{
  ◌≡◌, refl, ◌≢◌, Bool, false, not, ◌&&◌, none, some, List, [], ◌∷◌, arith, if◌then◌else◌,
}
use cluster_chat_server_soft.Prelude.Int.{ℤ, negsuc, eq_ℤ, eq_ℤ_ne}
use cluster_chat_server_soft.Prelude.IntSet.{contains, contains-erase}
use cluster_chat_server_soft.Prelude.IntMap.{lookup, erase, lookup-erase}
use cluster_chat_server_soft.External.Sql.{SqlServer}
use cluster_chat_server_soft.External.Redis.{RedisServer}
use cluster_chat_server_soft.External.Json.{JsonLib}
use cluster_chat_server_soft.RedisClient.Commands
use cluster_chat_server_soft.RedisClient.Subscriber.{Subs, unsubscribe_group_channel}
use cluster_chat_server_soft.ChatService.State.{TcpConnection, State, returned}
use cluster_chat_server_soft.ChatService.Session.{
  leave_groups, emptied, user_of, unsubscribe_all, log_out, client_quit,
}

-- Does the node list the user as a local member of the group?
unfoldable pub is_member : List (ℤ × List ℤ) → ℤ → ℤ → Bool
is_member m g u = elim (lookup g m) [ none ↦ false | some members ↦ contains members u ]

pub is_member-leave_groups :
    (id g u : ℤ) (m : List (ℤ × List ℤ))
    → is_member (leave_groups id m) g u ≡ (not (eq_ℤ id u) && is_member m g u)
unfolding is_member leave_groups lookup
is_member-leave_groups id g u [] = ground arith
is_member-leave_groups id g u ((h, members) ∷ m) =
    ground (arith, contains-erase id u members, is_member-leave_groups id g u m)

module _ ⦃sql : SqlServer⦄ ⦃redis : RedisServer⦄ ⦃json : JsonLib⦄ where
  unfoldable pub unsubscribed : List ℤ → Subs → Subs
  unsubscribed [] subs = subs
  unsubscribed (g ∷ gs) subs = unsubscribed gs (unsubscribe_group_channel g subs)

  pub unsubscribe_all_lem :
      (gs : List ℤ) (s : State)
      → unsubscribe_all gs s
        ≡ returned (record s { redis = record s.redis { subs = unsubscribed gs s.redis.subs } }) tt
  unfolding unsubscribe_all unsubscribed
  unsubscribe_all_lem [] s = refl
  unsubscribe_all_lem (g ∷ gs) s =
      unsubscribe_all_lem gs
        (record s { redis = record s.redis { subs = unsubscribe_group_channel g s.redis.subs } })

  -- What a state `s'` keeps of `s` once the user `id` is gone: its entry in `userConnMap_` and its
  -- place in every set of `groupMembers_` are gone and those of the others are as before, the store
  -- of Redis is what `setUserOffline` leaves, and nothing was sent or asked of MySQL.
  pub record HasLeft (id : ℤ) (s s' : State) : Type 0 where
    pub conns :
        (j : ℤ) → lookup j s'.user_conn_map ≡ (if eq_ℤ id j then none else lookup j s.user_conn_map)
    pub members :
        (g u : ℤ)
        → is_member s'.group_members g u ≡ (not (eq_ℤ id u) && is_member s.group_members g u)
    pub store : s'.redis.store ≡ (Commands.set_user_offline id s.redis).store
    pub mysql : s'.mysql ≡ s.mysql
    pub sent : s'.sent ≡ s.sent

  -- The state that `loginOut` leaves.
  abbrev pub logged_out : ℤ → State → State
  logged_out id s =
      let r = Commands.set_user_offline id s.redis in
      let groups = leave_groups id s.group_members in
      record s {
        user_conn_map = erase id s.user_conn_map;
        group_members = groups;
        redis = record r { subs = unsubscribed (emptied groups) r.subs };
      }

  pub log_out-logged_out : (id : ℤ) (s : State) → log_out id s ≡ returned (logged_out id s) tt
  unfolding log_out
  log_out-logged_out id s = unsubscribe_all_lem _ _

  pub logged_out-HasLeft : (id : ℤ) (s : State) → HasLeft id s (logged_out id s)
  logged_out-HasLeft id s = record {
    conns = λ j. lookup-erase id j s.user_conn_map;
    members = λ g u. is_member-leave_groups id g u s.group_members;
    store = refl;
    mysql = refl;
    sent = refl;
  }

  -- `loginOut`, once it has read the id, returns and removes the user and nobody else: its entry in
  -- `userConnMap_` and its place in every set of `groupMembers_` are gone and those of the others are as
  -- before, the store of Redis is what `setUserOffline` leaves, and nothing was sent or asked of MySQL.
  pub log_out-HasLeft :
      (id : ℤ) (s : State) → (s' : State) × (log_out id s ≡ returned s' tt) × HasLeft id s s'
  log_out-HasLeft id s = (logged_out id s, log_out-logged_out id s, logged_out-HasLeft id s)

  -- When a connection closes, the user that `clientQuitEcption` finds for it, if its id is not -1, is
  -- removed as by `loginOut`. Nobody else is: the entry of a second user who logged in over the same
  -- connection stays.
  pub client_quit-HasLeft :
      (conn : TcpConnection) (id : ℤ) (s : State)
      → user_of conn.handle s.user_conn_map ≡ some id
      → id ≢ negsuc 0
      → (s' : State) × (client_quit conn s ≡ returned s' tt) × HasLeft id s s'
  unfolding client_quit
  client_quit-HasLeft conn id s found ne =
      let (s', e, left) = log_out-HasLeft id s in
      (s', ground (arith, eq_ℤ_ne id (negsuc 0) ne), left)
