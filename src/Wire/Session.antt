-- ===== src/Wire/Session.antt =====
-- A login from end to end: the response that the server sends, and the client that receives it.
use cluster_chat_server_soft.Prelude.{
  ◌≡◌, refl, ap, true, false, Option, none, some, List, [], ◌∷◌, ◌++◌, ◌+◌, map, arith,
}
use cluster_chat_server_soft.Prelude.Int.{ℤ, pos}
use cluster_chat_server_soft.Prelude.Text.{Str, codes, str_eq}
use cluster_chat_server_soft.External.Sql.{SqlServer}
use cluster_chat_server_soft.External.Redis.{RedisServer}
use cluster_chat_server_soft.External.Json.{JsonLib, JsonLaws}
use cluster_chat_server_soft.Model.User.{User, Group, default_user}
use cluster_chat_server_soft.Model.Groups.{HasNoUsers}
use cluster_chat_server_soft.RedisClient.Commands
use cluster_chat_server_soft.ChatService.State.{State, returned}
use cluster_chat_server_soft.ChatService.Protocol.{MsgId, msg_id}
use cluster_chat_server_soft.ChatService.Session.{
  state_text, friend_text, group_text, friends_key, render_friends, render_members, add_friends,
  enter_groups, add_groups,
}
use cluster_chat_server_soft.ChatService.Quiet.{entered}
use cluster_chat_server_soft.Client.Commands.{ClientState}
use cluster_chat_server_soft.Client.Screen.{show_current_user_data}
use cluster_chat_server_soft.Client.Response.{
  map_all, friend_of_text, group_of_text, read_friends, read_groups, read_offline, logged_in,
  login_response, receive_js, receive,
}
use cluster_chat_server_soft.External.Objects.{
  object, field, has_field, subscript-object, contains-object,
}
use cluster_chat_server_soft.Wire.Login.{friend_of_text-friend_text, group_of_text-group_text}

-- What the client shows of a friend besides the state.
abbrev pub shown : User → ℤ × Str
shown user = (user.id, user.name)

-- The texts of a field that may be left out, read back.
abbrev Reads : {A : Type 0} → (Str → Option A) → Option (List Str) → List A → Type 0
Reads f none items = items ≡ []
Reads f (some texts) items = map_all f texts ≡ some items

module _ ⦃sql : SqlServer⦄ ⦃redis : RedisServer⦄ ⦃json : JsonLib⦄ (laws : JsonLaws json) where
  abbrev Fields : Type 0
  Fields = List (Str × json.Json)

  abbrev with_list : Str → Option (List Str) → Fields → Fields
  with_list key none fields = fields
  with_list key (some texts) fields = (key, json.strings texts) ∷ fields

  render_friends-reads :
      (users : List User) (s : State)
      → (s' : State) × (texts : List Str) × (friends : List User) × (render_friends users s
          ≡ returned s' texts)
        × (map_all friend_of_text texts ≡ some friends)
        × (map shown friends ≡ map shown users)
        × (s'.mysql ≡ s.mysql)
        × (s'.sent ≡ s.sent)
  unfolding render_friends
  render_friends-reads [] s = (s, [], [], refl, refl, refl, refl, refl)
  render_friends-reads (user ∷ users) s =
      let (r, online) = Commands.is_user_online user.id s.redis in
      let t : State = record s { redis = r } in
      let (s', texts, friends, e, reads, same, m, q) = render_friends-reads users t in
      (
        s',
        friend_text user online ∷ texts,
        record default_user { id = user.id; name = user.name; state = state_text online } ∷ friends,
        ground arith,
        ground (arith, friend_of_text-friend_text laws user online),
        ap (λ l. shown user ∷ l) same,
        m,
        q,
      )

  pub add_friends-Reads :
      (id : ℤ) (users : List User) (fields : Fields) (s : State)
      → (s' : State) × (texts : Option (List Str)) × (friends : List User) × (add_friends id users
            (object fields)
            s
          ≡ returned s' (object (with_list (codes "friends") texts fields)))
        × Reads friend_of_text texts friends
        × (map shown friends ≡ map shown users)
        × (s'.mysql ≡ s.mysql)
        × (s'.sent ≡ s.sent)
  unfolding add_friends
  add_friends-Reads id [] fields s = (s, none, [], refl, refl, refl, refl, refl)
  add_friends-Reads id (user ∷ users) fields s =
      let (t, texts, friends, e, reads, same, m, q) = render_friends-reads (user ∷ users) s in
      let r = Commands.set (friends_key id) (json.dump (json.strings texts)) 3600 t.redis in
      (record t { redis = r }, some texts, friends, ground arith, reads, same, m, q)

  enter_groups-reads :
      (id : ℤ) (groups : List Group) (s : State)
      → HasNoUsers groups
      → (s' : State) × (texts : List Str) × (enter_groups id groups s ≡ returned s' texts)
        × (map_all group_of_text texts ≡ some groups)
        × (s'.sent ≡ s.sent)
  unfolding enter_groups render_members
  enter_groups-reads id [] s h = (s, [], refl, refl, refl)
  enter_groups-reads id (group ∷ groups) s h =
      let t = entered id group s.redis s in
      let (s', texts, e, reads, q) = enter_groups-reads id groups t h.1 in
      (
        s',
        group_text group [] ∷ texts,
        ground (arith, h.0),
        ground (arith, group_of_text-group_text laws group [] [] refl, h.0),
        q,
      )

  pub add_groups-Reads :
      (id : ℤ) (groups : List Group) (fields : Fields) (s : State)
      → HasNoUsers groups
      → (s' : State) × (texts : Option (List Str)) × (add_groups id groups (object fields) s
          ≡ returned s' (object (with_list (codes "groups") texts fields)))
        × Reads group_of_text texts groups
        × (s'.sent ≡ s.sent)
  unfolding add_groups
  add_groups-Reads id [] fields s h = (s, none, refl, refl, refl)
  add_groups-Reads id (group ∷ groups) fields s h =
      let (t, texts, e, reads, q) = enter_groups-reads id (group ∷ groups) s h in
      (t, some texts, ground arith, reads, q)

  -- The fields of a response without offline messages.
  abbrev pub response_fields : User → Option (List Str) → Option (List Str) → Fields
  response_fields user friends groups = with_list (codes "groups") groups (
      with_list (codes "friends") friends (
        (codes "name", json.string user.name)
        ∷ (codes "id", json.int user.id)
        ∷ (codes "errno", json.int (pos 0))
        ∷ (codes "msgid", json.int (msg_id MsgId.login_msg_ack))
        ∷ []))

  -- The client after a response to its login.
  abbrev pub logged : User → List User → List Group → ClientState → ClientState
  logged user friends groups c = record c {
    current_user = record c.current_user { id = user.id };
    friend_list = friends;
    group_list = groups;
    is_login_success = true;
    rw_sem = c.rw_sem + 1;
    shown =
        c.shown
        ++ show_current_user_data (record c {
          current_user = record c.current_user { id = user.id };
          friend_list = friends;
          group_list = groups;
        });
  }

  -- A field that may be left out.
  abbrev HasList : Str → Option (List Str) → Fields → Type 0
  HasList key none fields = has_field key fields ≡ false
  HasList key (some texts) fields =
      (has_field key fields ≡ true) × (field key fields ≡ some (json.strings texts))

  read_friends-Reads :
      (texts : Option (List Str)) (friends : List User) (fields : Fields) (c : ClientState)
      → HasList (codes "friends") texts fields
      → Reads friend_of_text texts friends
      → c.friend_list ≡ []
      → read_friends (object fields) c ≡ some (record c { friend_list = friends })
  unfolding read_friends
  read_friends-Reads none friends fields c h r e =
      ground (arith, r, h, e, contains-object laws (codes "friends") fields)
  read_friends-Reads (some texts) friends fields c h r e = ground (
    arith,
    h,
    r,
    contains-object laws (codes "friends") fields,
    laws.get_strings-strings texts,
    subscript-object laws (codes "friends") (json.strings texts) fields,
  )

  read_groups-Reads :
      (texts : Option (List Str)) (groups : List Group) (fields : Fields) (c : ClientState)
      → HasList (codes "groups") texts fields
      → Reads group_of_text texts groups
      → c.group_list ≡ []
      → read_groups (object fields) c ≡ some (record c { group_list = groups })
  unfolding read_groups
  read_groups-Reads none groups fields c h r e =
      ground (arith, r, h, e, contains-object laws (codes "groups") fields)
  read_groups-Reads (some texts) groups fields c h r e = ground (
    arith,
    h,
    r,
    contains-object laws (codes "groups") fields,
    laws.get_strings-strings texts,
    subscript-object laws (codes "groups") (json.strings texts) fields,
  )

  response-HasList :
      (user : User) (ft gt : Option (List Str))
      → HasList (codes "friends") ft (response_fields user ft gt)
        × HasList (codes "groups") gt (response_fields user ft gt)
        × (has_field (codes "offlinemessage") (response_fields user ft gt) ≡ false)
        × (field (codes "msgid") (response_fields user ft gt)
            ≡ some (json.int (msg_id MsgId.login_msg_ack)))
        × (field (codes "errno") (response_fields user ft gt) ≡ some (json.int (pos 0)))
        × (field (codes "id") (response_fields user ft gt) ≡ some (json.int user.id))
  unfolding str_eq
  response-HasList user none none = (refl, refl, refl, refl, refl, refl)
  response-HasList user none (some gt) = (refl, (refl, refl), refl, refl, refl, refl)
  response-HasList user (some ft) none = ((refl, refl), refl, refl, refl, refl, refl)
  response-HasList user (some ft) (some gt) = ((refl, refl), (refl, refl), refl, refl, refl, refl)

  pub receive-response :
      (user : User) (ft gt : Option (List Str)) (friends : List User) (groups : List Group)
      (c : ClientState)
      → Reads friend_of_text ft friends
      → Reads group_of_text gt groups
      → c.friend_list ≡ []
      → c.group_list ≡ []
      → receive (json.dump (object (response_fields user ft gt))) c
        ≡ some (logged user friends groups c)
  unfolding receive receive_js logged_in login_response read_offline msg_id
  receive-response user ft gt friends groups c rf rg ef eg =
      let fields : Fields = response_fields user ft gt in
      let (hf, hg, ho, hm, he, hi) = response-HasList user ft gt in
      let c1 : ClientState = record c { current_user = record c.current_user { id = user.id } } in
      ground (
        arith,
        laws.parse-dump (object fields),
        subscript-object laws (codes "msgid") (json.int (msg_id MsgId.login_msg_ack)) fields hm,
        subscript-object laws (codes "errno") (json.int (pos 0)) fields he,
        subscript-object laws (codes "id") (json.int user.id) fields hi,
        laws.get_int-int (msg_id MsgId.login_msg_ack),
        laws.get_int-int user.id,
        laws.is_zero-int (pos 0),
        read_friends-Reads ft friends fields c1 hf rf ef,
        read_groups-Reads gt groups fields (record c1 { friend_list = friends }) hg rg eg,
        contains-object laws (codes "offlinemessage") fields,
        ho,
      )
