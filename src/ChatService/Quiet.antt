-- ===== src/ChatService/Quiet.antt =====
-- The parts of `login` return, and leave alone the connections, the local members and what was sent.
use cluster_chat_server_soft.Prelude.{◌≡◌, refl, ◌∙◌, Option, none, some, List, [], ◌∷◌, arith}
use cluster_chat_server_soft.Prelude.Int.{ℤ, eq_ℤ_iff}
use cluster_chat_server_soft.Prelude.IntSet.{contains}
use cluster_chat_server_soft.Prelude.IntMap.{update, lookup-update}
use cluster_chat_server_soft.Prelude.Text.{Str, codes}
use cluster_chat_server_soft.External.Sql.{SqlServer}
use cluster_chat_server_soft.External.Redis.{RedisServer}
use cluster_chat_server_soft.External.Json.{JsonLib}
use cluster_chat_server_soft.Model.User.{User, Group, GroupUser}
use cluster_chat_server_soft.Model.Groups.{HasNoUsers}
use cluster_chat_server_soft.Model.FriendModel
use cluster_chat_server_soft.RedisClient.Core.{Client}
use cluster_chat_server_soft.RedisClient.Commands
use cluster_chat_server_soft.RedisClient.Subscriber.{subscribe_group_channel}
use cluster_chat_server_soft.ChatService.State.{State, M, returned, ◌>>=◌}
use cluster_chat_server_soft.ChatService.Departure.{is_member}
use cluster_chat_server_soft.ChatService.Session.{
  friend_text, member_text, group_text, friends_key, render_friends, render_members, add_friends,
  friends_from, enter_groups, add_groups, add_if_listed,
}

module _ ⦃sql : SqlServer⦄ ⦃redis : RedisServer⦄ ⦃json : JsonLib⦄ where
  pub record Quiet (s s' : State) : Type 0 where
    pub conns : s'.user_conn_map ≡ s.user_conn_map
    pub members : (g u : ℤ) → is_member s'.group_members g u ≡ is_member s.group_members g u
    pub sent : s'.sent ≡ s.sent

  pub Quiet-trans : {s t u : State} → Quiet s t → Quiet t u → Quiet s u
  Quiet-trans p q = record {
    conns = q.conns ∙ p.conns;
    members = λ g u. q.members g u ∙ p.members g u;
    sent = q.sent ∙ p.sent;
  }

  -- The call returns, quietly.
  abbrev pub Runs : {A : Type 0} → M A → State → Type 0
  Runs {A} m s = (s' : State) × (a : A) × (m s ≡ returned s' a) × Quiet s s'

  pub Runs-bind :
      {A B : Type 0} (m : M A) (f : A → M B) (s : State)
      → Runs m s
      → ((a : A) (s' : State) → Runs (f a) s')
      → Runs (m >>= f) s
  Runs-bind m f s (s', a, e, q) k =
      let (s'', b, e', q') = k a s' in (s'', b, rw (e, ◌>>=◌) e', Quiet-trans q q')

  abbrev same : (s : State) → Quiet s s
  same s = record { conns = refl; members = λ g u. refl; sent = refl }

  -- A quiet step first.
  pub Runs-from :
      {A B : Type 0} (m : M A) (n : M B) (s t : State) (f : A → B)
      → Quiet s t
      → ((s' : State) (a : A) → m t ≡ returned s' a → n s ≡ returned s' (f a))
      → Runs m t
      → Runs n s
  Runs-from m n s t f q step (s', a, e, q') = (s', f a, step s' a e, Quiet-trans q q')

  abbrev with_redis : State → Client → State
  with_redis s r = record s { redis = r }

  abbrev redis_quiet : (s : State) (r : Client) → Quiet s (with_redis s r)
  redis_quiet s r = record { conns = refl; members = λ g u. refl; sent = refl }

  render_friends-Runs : (users : List User) (s : State) → Runs (render_friends users) s
  unfolding render_friends
  render_friends-Runs [] s = (s, [], refl, same s)
  render_friends-Runs (user ∷ users) s =
      let (r, online) = Commands.is_user_online user.id s.redis in
      Runs-from (render_friends users) (render_friends (user ∷ users)) s (with_redis s r)
        (λ rest. friend_text user online ∷ rest) (redis_quiet s r) (λ s' a e. ground arith)
        (render_friends-Runs users (with_redis s r))

  render_members-Runs : (users : List GroupUser) (s : State) → Runs (render_members users) s
  unfolding render_members
  render_members-Runs [] s = (s, [], refl, same s)
  render_members-Runs (user ∷ users) s =
      let (r, online) = Commands.is_user_online user.id s.redis in
      Runs-from (render_members users) (render_members (user ∷ users)) s (with_redis s r)
        (λ rest. member_text user online ∷ rest) (redis_quiet s r) (λ s' a e. ground arith)
        (render_members-Runs users (with_redis s r))

  add_friends-Runs :
      (id : ℤ) (users : List User) (r : json.Json) (s : State) → Runs (add_friends id users r) s
  unfolding add_friends
  add_friends-Runs id [] r s = (s, r, refl, same s)
  add_friends-Runs id (user ∷ users) r s =
      let (t, texts, e, q) = render_friends-Runs (user ∷ users) s in
      let r' = Commands.set (friends_key id) (json.dump (json.strings texts)) 3600 t.redis in
      (
        with_redis t r',
        json.assign (codes "friends") (json.strings texts) r,
        ground arith,
        Quiet-trans q (redis_quiet t r'),
      )

  pub friends_from-Runs :
      (id : ℤ) (r : json.Json) (cached : Option Str) (s : State) → Runs (friends_from id r cached) s
  unfolding friends_from
  friends_from-Runs id r (some cached) s = (s, r, refl, same s)
  friends_from-Runs id r none s =
      let (m, users) = FriendModel.query id s.mysql in
      let t : State = record s { mysql = m } in
      Runs-from (add_friends id users r) (friends_from id r none) s t (λ j. j)
        (record { conns = refl; members = λ g u. refl; sent = refl }) (λ s' a e. e)
        (add_friends-Runs id users r t)

  -- The step of one group without users.
  abbrev pub entered : ℤ → Group → Client → State → State
  entered id group r s = record s {
    group_members = update group.id [] (add_if_listed id group.users) s.group_members;
    redis = record r { subs = subscribe_group_channel group.id r.subs };
  }

  entered-Quiet :
      (id : ℤ) (group : Group) (r : Client) (s : State)
      → group.users ≡ []
      → Quiet s (entered id group r s)
  unfolding add_if_listed is_member contains
  entered-Quiet id group r s e = record {
    conns = refl;
    members = λ g u. ground (
      arith,
      lookup-update group.id g [] (add_if_listed id group.users) s.group_members,
      eq_ℤ_iff group.id g,
    );
    sent = refl;
  }

  pub enter_groups-Runs :
      (id : ℤ) (groups : List Group) (s : State)
      → HasNoUsers groups
      → Runs (enter_groups id groups) s
  unfolding enter_groups
  enter_groups-Runs id [] s h = (s, [], refl, same s)
  enter_groups-Runs id (group ∷ groups) s h =
      let (t, users, e, q) = render_members-Runs group.users s in
      let t' = entered id group t.redis t in
      let (s', rest, e', q') = enter_groups-Runs id groups t' h.1 in
      (
        s',
        group_text group users ∷ rest,
        ground arith,
        Quiet-trans (Quiet-trans q (entered-Quiet id group t.redis t h.0)) q',
      )

  pub add_groups-Runs :
      (id : ℤ) (groups : List Group) (r : json.Json) (s : State)
      → HasNoUsers groups
      → Runs (add_groups id groups r) s
  unfolding add_groups
  add_groups-Runs id [] r s h = (s, r, refl, same s)
  add_groups-Runs id (group ∷ groups) r s h =
      let (t, texts, e, q) = enter_groups-Runs id (group ∷ groups) s h in
      (t, json.assign (codes "groups") (json.strings texts) r, ground arith, q)
