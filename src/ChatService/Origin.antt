-- ===== src/ChatService/Origin.antt =====
-- Where the connections and the local members of a state come from.
use cluster_chat_server_soft.Prelude.{
  ◌≡◌, refl, sym, ◌∙◌, ap, Bool, true, false, ◌&&◌, ◌==◌, ◌⊎◌, inl, inr, some, List, [], ◌∷◌, ◌++◌,
  Option-cases, Bool-cases, All, arith,
}
use cluster_chat_server_soft.Prelude.Int.{ℤ, negsuc, eq_ℤ}
use cluster_chat_server_soft.Prelude.IntMap.{lookup}
use cluster_chat_server_soft.External.Sql.{SqlServer}
use cluster_chat_server_soft.External.Redis.{RedisServer}
use cluster_chat_server_soft.External.Json.{JsonLib}
use cluster_chat_server_soft.ChatService.State.{
  TcpConnection, State, Ended, returned, threw, running,
}
use cluster_chat_server_soft.ChatService.Departure.{is_member}
use cluster_chat_server_soft.ChatService.Registry.{
  View, Same, Event, enters, joins, leaves, closes, Does, DoesAll,
}
use cluster_chat_server_soft.ChatService.Refinement.{perform_all, view, perform_all-DoesAll}

-- Does the event log the user out?
abbrev pub logs_out : ℤ → Event → Bool
logs_out id (enters c j user) = false
logs_out id (joins j g) = false
logs_out id (leaves j) = eq_ℤ j id
logs_out id (closes c) = false

abbrev pub Stays : ℤ → List Event → Type 0
Stays id = All (λ e. logs_out id e ≡ false)

-- `loginOut` of the user is not among the events, or not behind the last event that `made` describes.
abbrev pub MadeBy : (Event → Bool) → ℤ → List Event → Type 0
MadeBy made id events =
    (before : List Event) × (e : Event) × (after : List Event) × (events ≡ before ++ e ∷ after)
    × (made e ≡ true)
    × Stays id after

abbrev pub is_enters : TcpConnection → ℤ → Event → Bool
is_enters c id (enters d j user) = (d.handle == c.handle) && eq_ℤ j id
is_enters c id (joins j g) = false
is_enters c id (leaves j) = false
is_enters c id (closes d) = false

abbrev pub is_joins : ℤ → ℤ → Event → Bool
is_joins id g (enters c j user) = false
is_joins id g (joins j h) = eq_ℤ j id && eq_ℤ h g
is_joins id g (leaves j) = false
is_joins id g (closes c) = false

Does-conn :
    (e : Event) (v w : View) (id : ℤ) (c : TcpConnection)
    → Does e v w
    → w.conn id ≡ some c
    → ((v.conn id ≡ some c) × (logs_out id e ≡ false)) ⊎ (is_enters c id e ≡ true)
Does-conn (enters d j user) v w id c does q = elim (Option-cases (v.conn id)) [
  | inl e ↦ ground (arith, does.conns id)
  | inr (d', e) ↦ ground (arith, does.conns id)
]
Does-conn (joins j g) v w id c does q = ground (arith, does.conns id)
Does-conn (leaves j) v w id c does q = ground (arith, does.conns id)
Does-conn (closes d) v w id c (inl (_, same)) q = inl (sym (same.conns id) ∙ q, refl)
Does-conn (closes d) v w id c (inr (j, over, same)) q = elim (Bool-cases (eq_ℤ j (negsuc 0))) [
  | inl e ↦ ground (arith, same.conns id)
  | inr e ↦ ground (arith, same.conns id)
]

Does-member :
    (e : Event) (v w : View) (g u : ℤ)
    → Does e v w
    → w.member g u ≡ true
    → ((v.member g u ≡ true) × (logs_out u e ≡ false)) ⊎ (is_joins u g e ≡ true)
Does-member (enters d j user) v w g u does q = ground (arith, does.members g u)
Does-member (joins j h) v w g u does q = ground (arith, does.members g u)
Does-member (leaves j) v w g u does q = ground (arith, does.members g u)
Does-member (closes d) v w g u (inl (_, same)) q = inl (sym (same.members g u) ∙ q, refl)
Does-member (closes d) v w g u (inr (j, over, same)) q = elim (Bool-cases (eq_ℤ j (negsuc 0))) [
  | inl e ↦ ground (arith, same.members g u)
  | inr e ↦ ground (arith, same.members g u)
]

-- What holds of the last view, and only an event that `made` describes brings about, held at the start
-- or comes from such an event.
module _ (holds : View → Type 0) (made : Event → Bool) (id : ℤ)
    (stays : (v w : View) → Same v w → holds w → holds v)
    (step : (e : Event) (v w : View)
      → Does e v w
      → holds w
      → (holds v × (logs_out id e ≡ false)) ⊎ (made e ≡ true)) where
  DoesAll-MadeBy :
      (events : List Event) (v w : View)
      → DoesAll events v w
      → holds w
      → (holds v × Stays id events) ⊎ MadeBy made id events
  DoesAll-MadeBy [] v w same h = inl (stays v w same h, tt)
  DoesAll-MadeBy (e ∷ events) v w (u, does, all) h = elim (DoesAll-MadeBy events u w all h) [
    | inr (before, e', after, q, m, s) ↦ inr (e ∷ before, e', after, ap (λ l. e ∷ l) q, m, s)
    | inl (hu, rest) ↦ elim (step e v u does hu) [
      | inl (hv, first) ↦ inl (hv, (first, rest))
      | inr m ↦ inr ([], e, events, refl, m, rest)
    ]
  ]

module _ ⦃sql : SqlServer⦄ ⦃redis : RedisServer⦄ ⦃json : JsonLib⦄ where
  -- The state that a call leaves.
  abbrev state_of : State → Ended State (Unit {0}) → State
  state_of s (returned s' a) = s'
  state_of s (threw s') = s'
  state_of s running = s

  ran :
      (events : List Event) (s s' : State)
      → s.user_conn_map ≡ []
      → perform_all events s ≡ returned s' tt
      → DoesAll events (view s) (view s')
  ran events s s' empty e =
      let (t, q, all, _) = perform_all-DoesAll events s (rw empty tt) in
      let same : t ≡ s' = ap (λ o. state_of s o) (sym q ∙ e) in rw (sym same) all

  -- After any sequence of logins that succeed, joins, `loginOut`s and closing connections from a state
  -- without connections: a connection that is recorded for a user comes from a login of this user over
  -- it, and no `loginOut` of the user came after that.
  pub connections-MadeBy :
      (events : List Event) (s s' : State) (id : ℤ) (c : TcpConnection)
      → s.user_conn_map ≡ []
      → perform_all events s ≡ returned s' tt
      → lookup id s'.user_conn_map ≡ some c
      → MadeBy (is_enters c id) id events
  unfolding lookup
  connections-MadeBy events s s' id c empty e found =
      elim (DoesAll-MadeBy (λ v. v.conn id ≡ some c) (is_enters c id) id
        (λ v w same h. sym (same.conns id) ∙ h) (λ e v w. Does-conn e v w id c) events (view s)
        (view s') (ran events s s' empty e) found) [ inl (q, _) ↦ ground arith | inr made ↦ made ]

  -- After any sequence of logins that succeed, joins, `loginOut`s and closing connections from a state
  -- without connections and local members: a local member of a
  -- group joined it, and no `loginOut` of the user came after that. A login makes nobody a member.
  pub members-MadeBy :
      (events : List Event) (s s' : State) (id g : ℤ)
      → s.user_conn_map ≡ []
      → s.group_members ≡ []
      → perform_all events s ≡ returned s' tt
      → is_member s'.group_members g id ≡ true
      → MadeBy (is_joins id g) id events
  unfolding is_member lookup
  members-MadeBy events s s' id g empty no_members e found =
      elim (DoesAll-MadeBy (λ v. v.member g id ≡ true) (is_joins id g) id
        (λ v w same h. sym (same.members g id) ∙ h) (λ e v w. Does-member e v w g id) events
        (view s) (view s') (ran events s s' empty e) found) [
          | inl (q, _) ↦ ground arith
          | inr made ↦ made
        ]
