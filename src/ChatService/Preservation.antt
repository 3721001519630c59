-- ===== src/ChatService/Preservation.antt =====
-- Every handler keeps the invariant, and every handler but `oneChat` ends.
use cluster_chat_server_soft.Prelude.{ℕ, Option, none, some, List, [], ◌∷◌, if◌then◌else◌}
use cluster_chat_server_soft.Prelude.Int.{ℤ, negsuc, eq_ℤ}
use cluster_chat_server_soft.Prelude.IntMap.{
  erase, update, insert_new-HasUniqueKeys, erase-HasUniqueKeys,
}
use cluster_chat_server_soft.Prelude.Text.{Str}
use cluster_chat_server_soft.External.Sql.{SqlServer}
use cluster_chat_server_soft.External.Redis.{RedisServer}
use cluster_chat_server_soft.External.Json.{JsonLib}
use cluster_chat_server_soft.Model.User.{User, Group, GroupUser}
use cluster_chat_server_soft.Model.Lending.{
  user_insert-AddsNone, user_query-AddsNone, reset_state-AddsNone, friend_insert-AddsNone,
  friend_query-AddsNone, create_group-AddsNone, join_group-AddsNone, query_groups-AddsNone,
  query_group_users-AddsNone,
}
use cluster_chat_server_soft.RedisClient.Core.{Client}
use cluster_chat_server_soft.RedisClient.Commands
use cluster_chat_server_soft.RedisClient.Subscriber.{
  subscribe_group_channel, unsubscribe_group_channel,
}
use cluster_chat_server_soft.ChatService.State.{
  TcpConnection, M, set_user_conn_map, ◌>>=◌, ◌>>◌, pure, on_redis, do_subs, set_group_members,
}
use cluster_chat_server_soft.ChatService.Keeps.{
  Keeps, Keeps-pure, Keeps-gets, Keeps-bind, Keeps-then, keeps_rules,
}
use cluster_chat_server_soft.ChatService.Sound.{
  IsSound, Ends, Keeps-send, Keeps-on_mysql, Keeps-do_mysql, Keeps-on_redis, Keeps-do_redis,
  Keeps-do_subs, Keeps-set_user_conn_map, Keeps-set_group_members, Keeps-insert_offline,
}
use cluster_chat_server_soft.ChatService.Members.{
  insert-AreMembers, add_members-AreMembers, listed-AreMembers, leave_groups-AreMembers,
}
use cluster_chat_server_soft.ChatService.Session.{
  friend_text, member_text, group_text, add_if_listed, user_of, render_friends, render_members,
  add_friends, friends_from, enter_groups, add_groups, enter, login, reg, unsubscribe_all,
  leave_all_groups, log_out, login_out, client_quit, reset,
}
use cluster_chat_server_soft.ChatService.Chat.{deliver, chat_to, one_chat, add_friend}
use cluster_chat_server_soft.ChatService.Groups.{
  enter_group, create_group, join_group, load_members, chat_in, group_chat,
}

pub ruleset sound_rules = (
  keeps_rules, Keeps-send, Keeps-on_mysql, Keeps-do_mysql, Keeps-on_redis, Keeps-do_redis,
  Keeps-do_subs, Keeps-set_user_conn_map, Keeps-set_group_members, insert_new-HasUniqueKeys,
  erase-HasUniqueKeys, insert-AreMembers, add_members-AreMembers, listed-AreMembers,
  leave_groups-AreMembers, user_insert-AddsNone, user_query-AddsNone, reset_state-AddsNone,
  friend_insert-AddsNone, friend_query-AddsNone, create_group-AddsNone, join_group-AddsNone,
  query_groups-AddsNone, query_group_users-AddsNone,
)

module _ {R : Type 0} ⦃sql : SqlServer⦄ ⦃redis : RedisServer⦄ ⦃json : JsonLib⦄ where
  -- A round of a loop that asks Redis first.
  asks-IsSound :
      {A B C : Type 0} (f : Client → Client × A) (rest : M B) (g : A → B → C)
      → Keeps R IsSound rest
      → Keeps R IsSound (do a ← on_redis f; b ← rest; pure (g a b))
  asks-IsSound f rest g h = search sound_rules

  render_friends-IsSound : (users : List User) → Keeps R IsSound (render_friends users)
  unfolding render_friends
  render_friends-IsSound [] = Keeps-pure []
  render_friends-IsSound (user ∷ users) =
      asks-IsSound (Commands.is_user_online user.id) (render_friends users)
        (λ online rest. friend_text user online ∷ rest) (render_friends-IsSound users)

  render_members-IsSound : (users : List GroupUser) → Keeps R IsSound (render_members users)
  unfolding render_members
  render_members-IsSound [] = Keeps-pure []
  render_members-IsSound (user ∷ users) =
      asks-IsSound (Commands.is_user_online user.id) (render_members users)
        (λ online rest. member_text user online ∷ rest) (render_members-IsSound users)

  add_friends-IsSound :
      (id : ℤ) (users : List User) (r : json.Json) → Keeps R IsSound (add_friends id users r)
  unfolding add_friends
  add_friends-IsSound id [] r = Keeps-pure r
  add_friends-IsSound id (user ∷ users) r = search (sound_rules, render_friends-IsSound) depth 30

  friends_from-IsSound :
      (id : ℤ) (r : json.Json) (cached : Option Str) → Keeps R IsSound (friends_from id r cached)
  unfolding friends_from
  friends_from-IsSound id r (some cached) = Keeps-pure r
  friends_from-IsSound id r none = search (sound_rules, add_friends-IsSound) depth 30

  enters-IsSound :
      (id : ℤ) (group : Group) (rest : M (List Str))
      → Keeps R IsSound rest
      → Keeps R IsSound (do
        users ← render_members group.users
        set_group_members (update group.id [] (add_if_listed id group.users))
        do_subs (subscribe_group_channel group.id)
        texts ← rest
        pure (group_text group users ∷ texts))
  enters-IsSound id group rest h = search (sound_rules, render_members-IsSound) depth 30

  enter_groups-IsSound : (id : ℤ) (groups : List Group) → Keeps R IsSound (enter_groups id groups)
  unfolding enter_groups
  enter_groups-IsSound id [] = Keeps-pure []
  enter_groups-IsSound id (group ∷ groups) =
      enters-IsSound id group (enter_groups id groups) (enter_groups-IsSound id groups)

  add_groups-IsSound :
      (id : ℤ) (groups : List Group) (r : json.Json) → Keeps R IsSound (add_groups id groups r)
  unfolding add_groups
  add_groups-IsSound id [] r = Keeps-pure r
  add_groups-IsSound id (group ∷ groups) r = search (sound_rules, enter_groups-IsSound) depth 30

  enter-IsSound :
      (conn : TcpConnection) (id : ℤ) (user : User) → Keeps R IsSound (enter conn id user)
  unfolding enter
  enter-IsSound conn id user =
      search (sound_rules, friends_from-IsSound, add_groups-IsSound) depth 30

  pub login-IsSound : (conn : TcpConnection) (js : json.Json) → Keeps R IsSound (login conn js)
  unfolding login
  login-IsSound conn js = search (sound_rules, enter-IsSound) depth 30

  pub reg-IsSound : (conn : TcpConnection) (js : json.Json) → Keeps R IsSound (reg conn js)
  unfolding reg
  reg-IsSound conn js = search sound_rules depth 30

  unsubscribe_all-IsSound : (gs : List ℤ) → Keeps R IsSound (unsubscribe_all gs)
  unfolding unsubscribe_all
  unsubscribe_all-IsSound [] = Keeps-pure tt
  unsubscribe_all-IsSound (g ∷ gs) =
      Keeps-then (do_subs (unsubscribe_group_channel g)) (unsubscribe_all gs) (Keeps-do_subs _)
        (unsubscribe_all-IsSound gs)

  log_out-IsSound : (id : ℤ) → Keeps R IsSound (log_out id)
  unfolding log_out leave_all_groups
  log_out-IsSound id = search (sound_rules, unsubscribe_all-IsSound) depth 30

  pub login_out-IsSound : (js : json.Json) → Keeps R IsSound (login_out js)
  unfolding login_out
  login_out-IsSound js = search (sound_rules, log_out-IsSound) depth 30

  -- What `clientQuitEcption` does with the user that it found.
  quits-IsSound :
      (found : Option ℤ)
      → Keeps R IsSound (elim found [
        | none ↦ pure tt
        | some id ↦ if eq_ℤ id (negsuc 0) then set_user_conn_map (erase id) else log_out id
      ])
  quits-IsSound none = Keeps-pure tt
  quits-IsSound (some id) = search (sound_rules, log_out-IsSound)

  pub client_quit-IsSound : (conn : TcpConnection) → Keeps R IsSound (client_quit conn)
  unfolding client_quit
  client_quit-IsSound conn =
      Keeps-bind _ _ (Keeps-gets (λ s. user_of conn.handle s.user_conn_map)) quits-IsSound

  pub reset-IsSound : Keeps R IsSound reset
  unfolding reset
  reset-IsSound = search sound_rules

  deliver-IsSound :
      (fuel : ℕ) (conn : TcpConnection) (to_id : ℤ) (text : Str) (peer : Option TcpConnection)
      → Ends fuel R
      → Keeps R IsSound (deliver fuel conn to_id text peer)
  unfolding deliver
  deliver-IsSound fuel conn to_id text (some peer) r = search sound_rules
  deliver-IsSound fuel conn to_id text none r = search (sound_rules, Keeps-insert_offline)

  pub one_chat-IsSound :
      (fuel : ℕ) (conn : TcpConnection) (js : json.Json)
      → Ends fuel R
      → Keeps R IsSound (one_chat fuel conn js)
  unfolding one_chat chat_to
  one_chat-IsSound fuel conn js r = search (sound_rules, deliver-IsSound) depth 30

  pub add_friend-IsSound : (js : json.Json) → Keeps R IsSound (add_friend js)
  unfolding add_friend
  add_friend-IsSound js = search sound_rules depth 30

  enter_group-IsSound : (userid groupid : ℤ) → Keeps R IsSound (enter_group userid groupid)
  unfolding enter_group
  enter_group-IsSound userid groupid = search sound_rules depth 30

  pub create_group-IsSound : (js : json.Json) → Keeps R IsSound (create_group js)
  unfolding create_group
  create_group-IsSound js = search (sound_rules, enter_group-IsSound) depth 30

  pub join_group-IsSound : (js : json.Json) → Keeps R IsSound (join_group js)
  unfolding join_group
  join_group-IsSound js = search (sound_rules, enter_group-IsSound) depth 30

  load_members-IsSound :
      (userid groupid : ℤ) (known : Option (List ℤ))
      → Keeps R IsSound (load_members userid groupid known)
  unfolding load_members
  load_members-IsSound userid groupid (some members) = Keeps-pure tt
  load_members-IsSound userid groupid none = search sound_rules depth 30

  pub group_chat-IsSound : (js : json.Json) → Keeps R IsSound (group_chat js)
  unfolding group_chat chat_in
  group_chat-IsSound js = search (sound_rules, load_members-IsSound) depth 30
