-- ===== src/ChatService/Refinement.antt =====
-- The handlers of `ChatService` against the specification of Registry.
use cluster_chat_server_soft.Prelude.{
  ◌≡◌, refl, ◌∙◌, ap, inl, inr, List, [], ◌∷◌, Option-cases, Bool-cases, arith,
}
use cluster_chat_server_soft.Prelude.Int.{ℤ, negsuc, eq_ℤ}
use cluster_chat_server_soft.Prelude.IntMap.{
  lookup, erase, lookup-insert_new, lookup-erase, HasUniqueKeys, insert_new-HasUniqueKeys,
  erase-HasUniqueKeys,
}
use cluster_chat_server_soft.External.Sql.{SqlServer}
use cluster_chat_server_soft.External.Redis.{RedisServer}
use cluster_chat_server_soft.External.Json.{JsonLib}
use cluster_chat_server_soft.Model.User.{User}
use cluster_chat_server_soft.ChatService.State.{
  TcpConnection, State, M, returned, pure, ◌>>◌, ◌>>=◌,
}
use cluster_chat_server_soft.ChatService.Session.{user_of, enter, log_out, client_quit}
use cluster_chat_server_soft.ChatService.Groups.{enter_group}
use cluster_chat_server_soft.ChatService.Entry.{enter-HasEntered}
use cluster_chat_server_soft.ChatService.Departure.{
  is_member, logged_out, log_out-logged_out, logged_out-HasLeft,
}
use cluster_chat_server_soft.ChatService.Membership.{enter_group-HasJoined}
use cluster_chat_server_soft.ChatService.Registry.{
  View, Event, enters, joins, leaves, closes, Does, DoesAll, user_of-IsOver, user_of-none,
}

module _ ⦃sql : SqlServer⦄ ⦃redis : RedisServer⦄ ⦃json : JsonLib⦄ where
  -- What a state says of the registry.
  abbrev pub view : State → View
  view s = record {
    conn = λ j. lookup j s.user_conn_map;
    member = λ g u. is_member s.group_members g u;
  }

  -- The code of an event.
  abbrev pub perform : Event → M (Unit {0})
  perform (enters c id user) = enter c id user
  perform (joins id g) = enter_group id g
  perform (leaves id) = log_out id
  perform (closes c) = client_quit c

  abbrev pub perform_all : List Event → M (Unit {0})
  perform_all [] = pure tt
  perform_all (e ∷ events) = perform e >> perform_all events

  abbrev Refines : Event → State → Type 0
  Refines e s =
      (s' : State) × (perform e s ≡ returned s' tt)
      × Does e (view s) (view s')
      × HasUniqueKeys s'.user_conn_map

  enters-Refines :
      (c : TcpConnection) (id : ℤ) (user : User) (s : State)
      → HasUniqueKeys s.user_conn_map
      → Refines (enters c id user) s
  enters-Refines c id user s h =
      let (s', e, entered) = enter-HasEntered c id user s in
      (
        s',
        e,
        record {
          conns =
              λ j. ap (λ m. lookup j m) entered.conns ∙ lookup-insert_new id j c s.user_conn_map;
          members = entered.members;
        },
        rw entered.conns (insert_new-HasUniqueKeys id c s.user_conn_map h),
      )

  joins-Refines : (id g : ℤ) (s : State) → HasUniqueKeys s.user_conn_map → Refines (joins id g) s
  joins-Refines id g s h =
      let (s', e, joined, m) = enter_group-HasJoined id g s in
      (
        s',
        e,
        record { conns = λ j. ap (λ m. lookup j m) joined.conns; members = joined.members },
        rw joined.conns h,
      )

  leaves-Refines : (id : ℤ) (s : State) → HasUniqueKeys s.user_conn_map → Refines (leaves id) s
  leaves-Refines id s h =
      let left = logged_out-HasLeft id s in
      (
        logged_out id s,
        log_out-logged_out id s,
        record { conns = left.conns; members = left.members },
        erase-HasUniqueKeys id s.user_conn_map h,
      )

  closes-Refines :
      (c : TcpConnection) (s : State) → HasUniqueKeys s.user_conn_map → Refines (closes c) s
  unfolding client_quit
  closes-Refines c s h = elim (Option-cases (user_of c.handle s.user_conn_map)) [
    | inl e ↦ (
      s,
      ground arith,
      inl (
        λ id d found. user_of-none c.handle s.user_conn_map id d e found,
        record { conns = λ j. refl; members = λ g u. refl },
      ),
      h,
    )
    | inr (id, e) ↦
        let over = user_of-IsOver c.handle s.user_conn_map id h e in
        elim (Bool-cases (eq_ℤ id (negsuc 0))) [
          | inl q ↦ (
            record s { user_conn_map = erase id s.user_conn_map },
            ground arith,
            inr (
              id,
              over,
              rw q (record {
                conns = λ j. lookup-erase id j s.user_conn_map;
                members = λ g u. refl;
              }),
            ),
            erase-HasUniqueKeys id s.user_conn_map h,
          )
          | inr q ↦
              let left = logged_out-HasLeft id s in
              (
                logged_out id s,
                ground (arith, log_out-logged_out id s),
                inr (id, over, rw q (record { conns = left.conns; members = left.members })),
                erase-HasUniqueKeys id s.user_conn_map h,
              )
        ]
  ]

  pub perform-Refines : (e : Event) (s : State) → HasUniqueKeys s.user_conn_map → Refines e s
  perform-Refines (enters c id user) = enters-Refines c id user
  perform-Refines (joins id g) = joins-Refines id g
  perform-Refines (leaves id) = leaves-Refines id
  perform-Refines (closes c) = closes-Refines c

  -- The handlers implement the registry. Any sequence of logins that succeed, joins of groups,
  -- `loginOut`s and closing connections, from a state that lists no user twice, returns, and step by
  -- step does to the connections and the local members what the specification says of its events; no
  -- user is listed twice at its end.
  pub perform_all-DoesAll :
      (events : List Event) (s : State)
      → HasUniqueKeys s.user_conn_map
      → (s' : State) × (perform_all events s ≡ returned s' tt)
        × DoesAll events (view s) (view s')
        × HasUniqueKeys s'.user_conn_map
  perform_all-DoesAll [] s h = (s, refl, record { conns = λ j. refl; members = λ g u. refl }, h)
  perform_all-DoesAll (e ∷ events) s h =
      let (t, q, does, ht) = perform-Refines e s h in
      let (s', q', all, h') = perform_all-DoesAll events t ht in
      (s', rw (q, ◌>>=◌) q', (view t, does, all), h')
