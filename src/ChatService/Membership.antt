-- ===== src/ChatService/Membership.antt =====
-- The local members of the groups under `createGroup`, `joinGroup` and `groupChat`.
use cluster_chat_server_soft.Prelude.{
  ◌≡◌, refl, some, List, [], ◌∷◌, arith, inl, inr, Option-cases, ◌&&◌, ◌||◌,
}
use cluster_chat_server_soft.Prelude.Int.{ℤ, eq_ℤ, eq_ℤ_iff}
use cluster_chat_server_soft.Prelude.IntSet
use cluster_chat_server_soft.Prelude.IntSet.{contains, contains-insert}
use cluster_chat_server_soft.Prelude.IntMap.{lookup, update, lookup-update}
use cluster_chat_server_soft.Prelude.Text.{codes}
use cluster_chat_server_soft.External.Sql.{SqlServer}
use cluster_chat_server_soft.External.Redis.{RedisServer}
use cluster_chat_server_soft.External.Json.{JsonLib}
use cluster_chat_server_soft.Model.GroupModel
use cluster_chat_server_soft.ChatService.State.{State, returned}
use cluster_chat_server_soft.ChatService.Departure.{is_member}
use cluster_chat_server_soft.ChatService.Groups.{join_group, enter_group, add_members}

pub is_member-insert :
    (groupid id g u : ℤ) (m : List (ℤ × List ℤ))
    → is_member (update groupid [] (IntSet.insert id) m) g u
      ≡ ((eq_ℤ groupid g && eq_ℤ id u) || is_member m g u)
unfolding is_member contains
is_member-insert groupid id g u m = elim (Option-cases (lookup groupid m)) [
  | inl e ↦ ground (
    arith,
    lookup-update groupid g [] (IntSet.insert id) m,
    contains-insert id u [],
    eq_ℤ_iff groupid g,
  )
  | inr (members, e) ↦ ground (
    arith,
    lookup-update groupid g [] (IntSet.insert id) m,
    contains-insert id u members,
    eq_ℤ_iff groupid g,
  )
]

is_member-add_members :
    (groupid g u : ℤ) (ids : List ℤ) (m : List (ℤ × List ℤ))
    → is_member (add_members groupid ids m) g u
      ≡ ((eq_ℤ groupid g && contains ids u) || is_member m g u)
unfolding add_members contains
is_member-add_members groupid g u [] m = ground arith
is_member-add_members groupid g u (id ∷ ids) m = ground (
  arith,
  is_member-add_members groupid g u ids (update groupid [] (IntSet.insert id) m),
  is_member-insert groupid id g u m,
)

-- Requests with the fields that the handlers read.
pub record JoinRequest ⦃json : JsonLib⦄ (js : json.Json) (userid groupid : ℤ) : Type 0 where
  pub id_value : json.Json
  pub groupid_value : json.Json
  pub reads_id : json.subscript js (codes "id") ≡ some id_value
  pub reads_groupid : json.subscript js (codes "groupid") ≡ some groupid_value
  pub id_is : json.get_int id_value ≡ some userid
  pub groupid_is : json.get_int groupid_value ≡ some groupid

module _ ⦃sql : SqlServer⦄ ⦃redis : RedisServer⦄ ⦃json : JsonLib⦄ where
  -- What a state `s'` is when the user became a local member of the group in `s`: the members are
  -- those of before and that one, and the connections and what was sent are as before.
  pub record HasJoined (userid groupid : ℤ) (s s' : State) : Type 0 where
    pub members :
        (g u : ℤ)
        → is_member s'.group_members g u
          ≡ ((eq_ℤ groupid g && eq_ℤ userid u) || is_member s.group_members g u)
    pub conns : s'.user_conn_map ≡ s.user_conn_map
    pub sent : s'.sent ≡ s.sent

  pub enter_group-HasJoined :
      (userid groupid : ℤ) (s : State)
      → (s' : State) × (enter_group userid groupid s ≡ returned s' tt)
        × HasJoined userid groupid s s'
        × (s'.mysql ≡ s.mysql)
  unfolding enter_group
  enter_group-HasJoined userid groupid s = (
    _,
    refl,
    record {
      members = λ g u. is_member-insert groupid userid g u s.group_members;
      conns = refl;
      sent = refl;
    },
    refl,
  )

  -- A complete `joinGroup` returns, whether or not its row could be stored: the user is a local member
  -- of the group, nobody else became one or ceased to be one, and MySQL was asked to store the row.
  pub join_group-HasJoined :
      (js : json.Json) (userid groupid : ℤ) (s : State)
      → JoinRequest js userid groupid
      → (s' : State) × (join_group js s ≡ returned s' tt)
        × HasJoined userid groupid s s'
        × (s'.mysql ≡ GroupModel.join_group userid groupid (codes "normal") s.mysql)
  unfolding join_group
  join_group-HasJoined js userid groupid s q =
      let t : State = record s {
        mysql = GroupModel.join_group userid groupid (codes "normal") s.mysql;
      } in
      let (s', e, h, m) = enter_group-HasJoined userid groupid t in
      (
        s',
        ground (arith, q.reads_id, q.reads_groupid, q.id_is, q.groupid_is),
        record { members = h.members; conns = h.conns; sent = h.sent },
        m,
      )
