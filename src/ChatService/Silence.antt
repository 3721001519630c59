-- ===== src/ChatService/Silence.antt =====
-- Group messages that this node receives.
use mathlib.Core.List.{append-nil, filter_map}
use cluster_chat_server_soft.Prelude.{
  ap, Option, ℕ, ◌≡◌, refl, ◌∙◌, true, false, none, some, List, [], ◌∷◌, ◌++◌, map, arith, inl, inr,
  Option-cases, Bool-cases, ◌&&◌,
}
use cluster_chat_server_soft.Prelude.Int.{ℤ, eq_ℤ, eq_ℤ_refl}
use cluster_chat_server_soft.Prelude.IntSet.{contains}
use cluster_chat_server_soft.Prelude.IntMap.{lookup}
use cluster_chat_server_soft.Prelude.Text.{Str, codes, str_eq}
use cluster_chat_server_soft.External.Sql.{SqlServer}
use cluster_chat_server_soft.External.Redis.{RedisServer}
use cluster_chat_server_soft.External.Json.{JsonLib}
use cluster_chat_server_soft.Model.UserModel
use cluster_chat_server_soft.RedisClient.Commands
use cluster_chat_server_soft.ChatService.State.{TcpConnection, State, returned}
use cluster_chat_server_soft.ChatService.Departure.{is_member}
use cluster_chat_server_soft.ChatService.Session.{login}
use cluster_chat_server_soft.ChatService.Entry.{
  LoginRequest, login_branches, enter-HasEntered, asked,
}
use cluster_chat_server_soft.ChatService.Inbox.{line, inbox_callback, fan_out}

-- A message with a group and no single receiver.
pub record GroupMessage ⦃json : JsonLib⦄ (j : json.Json) (g : ℤ) : Type 0 where
  pub no_to : json.contains j (codes "to") ≡ false
  pub has_groupid : json.contains j (codes "groupid") ≡ true
  pub value : json.Json
  pub reads : json.subscript j (codes "groupid") ≡ some value
  pub is_int : json.get_int value ≡ some g

-- The loop reaches the members that are connected, and no other.
fan_out-connected :
    (conns : List (ℤ × TcpConnection)) (text : Str) (uids : List ℤ)
    → fan_out conns text uids
      ≡ map (λ conn. (conn.handle, line text)) (filter_map (λ u. lookup u conns) uids)
unfolding fan_out filter_map
fan_out-connected conns text [] = refl
fan_out-connected conns text (u ∷ uids) =
    let ih = fan_out-connected conns text uids in
    elim (Option-cases (lookup u conns)) [
      | inl e ↦ rw (e, filter_map, fan_out) ih
      | inr (conn, e) ↦ rw (e, filter_map, fan_out) (ap (λ l. (conn.handle, line text) ∷ l) ih)
    ]

-- What the callback sends, with the set of the group if there is one.
fanned : List (ℤ × TcpConnection) → Str → Option (List ℤ) → List (ℕ × Str)
fanned conns text none = []
fanned conns text (some uids) = fan_out conns text uids

fanned-connected :
    (conns : List (ℤ × TcpConnection)) (text : Str) (o : Option (List ℤ))
    → fanned conns text o
      ≡ map
          (λ conn. (conn.handle, line text))
          (filter_map (λ u. lookup u conns) (elim o [ none ↦ [] | some uids ↦ uids ]))
unfolding fanned filter_map
fanned-connected conns text none = refl
fanned-connected conns text (some uids) = fan_out-connected conns text uids

module _ ⦃sql : SqlServer⦄ ⦃redis : RedisServer⦄ ⦃json : JsonLib⦄ where
  -- The local members of the group, where the node has a set for it.
  abbrev pub local_members : ℤ → State → List ℤ
  local_members g s = elim (lookup g s.group_members) [ none ↦ [] | some uids ↦ uids ]

  -- One line for each connection of a local member, in the order of the set.
  abbrev pub group_lines : json.Json → ℤ → State → List (ℕ × Str)
  group_lines j g s =
      map (λ conn. (conn.handle, line (json.dump j)))
        (filter_map (λ u. lookup u s.user_conn_map) (local_members g s))

  -- A group message sends one line to each local member of the group who is connected, in the order of
  -- the set, and changes nothing else; where the node has no set for the group it sends nothing.
  pub inbox_callback-group_lines :
      (fuel : ℕ) (j : json.Json) (g : ℤ) (s : State)
      → GroupMessage j g
      → inbox_callback fuel j s ≡ returned (record s { sent = s.sent ++ group_lines j g s }) tt
  unfolding inbox_callback fanned
  inbox_callback-group_lines fuel j g s m =
      ground (arith, m.no_to, m.has_groupid, m.reads, m.is_int, append-nil s.sent)
      ∙ ap (λ l. returned (record s { sent = s.sent ++ l }) tt)
          (fanned-connected s.user_conn_map (json.dump j) (lookup g s.group_members))

contains_none : (uids : List ℤ) → ((u : ℤ) → contains uids u ≡ false) → uids ≡ []
unfolding contains
contains_none [] h = refl
contains_none (u ∷ uids) h = ground (arith, h u, eq_ℤ_refl u)

module _ ⦃sql : SqlServer⦄ ⦃redis : RedisServer⦄ ⦃json : JsonLib⦄ where
  -- On a node that lists nobody as a local member of a group, a message to the group is sent to
  -- nobody, whoever is connected.
  pub inbox_callback-silent :
      (fuel : ℕ) (j : json.Json) (g : ℤ) (s : State)
      → GroupMessage j g
      → ((u : ℤ) → is_member s.group_members g u ≡ false)
      → inbox_callback fuel j s ≡ returned s tt
  unfolding is_member filter_map
  inbox_callback-silent fuel j g s m nobody = elim (Option-cases (lookup g s.group_members)) [
    | inl e ↦ inbox_callback-group_lines fuel j g s m ∙ ground (arith, append-nil s.sent)
    | inr (uids, e) ↦
        let empty = contains_none uids (λ u. ground (arith, nobody u)) in
        inbox_callback-group_lines fuel j g s m ∙ ground (arith, empty, append-nil s.sent)
  ]

  -- `login` adds no local member: on a node that lists nobody as a member of the group, a complete
  -- login, whatever its branch, returns and leaves a node that sends a message to the group to nobody,
  -- also if the user who logged in belongs to the group.
  pub login-silent :
      (conn : TcpConnection) (js : json.Json) (id : ℤ) (password : Str) (fuel : ℕ) (j : json.Json)
      (g : ℤ) (s : State)
      → LoginRequest js id password
      → GroupMessage j g
      → ((u : ℤ) → is_member s.group_members g u ≡ false)
      → (s' : State) × (login conn js s ≡ returned s' tt)
        × (inbox_callback fuel j s' ≡ returned s' tt)
  login-silent conn js id password fuel j g s q m nobody =
      let user = (UserModel.query id s.mysql).1 in
      let branches = login_branches conn js id password s q in
      elim (Bool-cases (eq_ℤ user.id id && str_eq user.password password)) [
        | inr wrong ↦ (_, rw wrong at branches, inbox_callback-silent fuel j g _ m nobody)
        | inl right ↦ elim (Bool-cases (Commands.is_user_online id s.redis).1) [
          | inl there ↦
              (_, rw (right, there) at branches, inbox_callback-silent fuel j g _ m nobody)
          | inr absent ↦
              let (s', e, h) = enter-HasEntered conn id user (asked id s) in
              (
                s',
                (rw (right, absent) at branches) ∙ e,
                inbox_callback-silent fuel j g s' m (λ u. h.members g u ∙ nobody u),
              )
        ]
      ]
