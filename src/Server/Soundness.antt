-- ===== src/Server/Soundness.antt =====
-- The invariant of the whole server, from its start through every event.
use cluster_chat_server_soft.Prelude.{
  arith, List-cases, inl, inr, false, ℕ, ◌≤◌, ◌≡◌, refl, Option, none, some,
}
use cluster_chat_server_soft.External.Sql.{SqlServer}
use cluster_chat_server_soft.External.Redis.{RedisServer}
use cluster_chat_server_soft.External.Json.{JsonLib}
use cluster_chat_server_soft.Model.Retries.{Accepts, insert-accepted, insert-no_connection}
use cluster_chat_server_soft.ChatService.State.{TcpConnection, State}
use cluster_chat_server_soft.ChatService.Sound.{IsSound, Ends}
use cluster_chat_server_soft.ChatService.Outcomes.{
  IsChat, IsAddressed, Reaches, on_message-Reaches, on_connection-Reaches,
  on_channel_message-Reaches,
}
use cluster_chat_server_soft.ChatService.Inbox.{on_connection}
use cluster_chat_server_soft.ChatService.Registry.{Closes, closes}
use cluster_chat_server_soft.ChatService.Refinement.{view, perform-Refines}
use cluster_chat_server_soft.MysqlPool.Distinct.{AreDistinct}
use cluster_chat_server_soft.Server.StartLaws.{start_up-IsSound}
use cluster_chat_server_soft.Server.StartUp.{Host}
use cluster_chat_server_soft.Server.Run.{
  ServerEvent, message, connection, channel_message, subscriber_round, serve, Reachable, started,
  served,
}

-- The events whose call may go on for ever: a text for `oneChat`, and a message of a channel with a receiver.
-- Both may store a message for somebody who is absent.
abbrev pub MayStore : ⦃json : JsonLib⦄ → ServerEvent → Type 0
MayStore (message conn buf) = IsChat buf
MayStore (connection conn connected) = ⊥
MayStore (channel_message msg) = IsAddressed msg
MayStore subscriber_round = ⊥

Reaches-returned :
    {S : Type 0} {P : S → Type 0} (o : Option S) → Reaches ⊥ P o → (s : S) × (o ≡ some s) × P s
Reaches-returned none h = absurd h
Reaches-returned (some s) h = (s, refl, h)

module _ (R : Type 0) ⦃sql : SqlServer⦄ ⦃redis : RedisServer⦄ ⦃json : JsonLib⦄ where
  serve-Reaches :
      (fuel : ℕ) (e : ServerEvent) (s : State)
      → IsSound s
      → (MayStore e → Ends fuel R)
      → Reaches R IsSound (serve fuel e s)
  unfolding serve
  serve-Reaches fuel (message conn buf) s h r = on_message-Reaches R fuel conn buf s h r
  serve-Reaches fuel (connection conn connected) s h r = on_connection-Reaches R conn connected s h
  serve-Reaches fuel (channel_message msg) s h r = on_channel_message-Reaches R fuel msg s h r
  serve-Reaches fuel subscriber_round s h r = record {
    conns = h.conns;
    members = h.members;
    lending = h.lending;
  }

module _ ⦃sql : SqlServer⦄ ⦃redis : RedisServer⦄ ⦃json : JsonLib⦄ where
  serve-IsSound :
      (fuel : ℕ) (e : ServerEvent) (s s' : State)
      → IsSound s
      → serve fuel e s ≡ some s'
      → IsSound s'
  serve-IsSound fuel e s s' h q =
      rw (q, Reaches) at (serve-Reaches Unit fuel e s h (λ _ _ _ _ _. tt))

  -- Every state that a server reaches, from its start through any texts, connections that open or
  -- close, messages of channels and rounds of its subscriber, is sound, if no two attempts to connect
  -- to MySQL made the same connection: `userConnMap_` and `groupMembers_` have no key twice, each set of
  -- members is in increasing order, and no MySQL connection is free twice.
  pub Reachable-IsSound : (h : Host) (s : State) → AreDistinct h.connect → Reachable h s → IsSound s
  Reachable-IsSound h _ distinct (started s e) = start_up-IsSound h s distinct e
  Reachable-IsSound h _ distinct (served fuel e s s' before q) =
      serve-IsSound fuel e s s' (Reachable-IsSound h s distinct before) q

  -- In such a state every call returns, with no round of fuel, and leaves a sound state, unless it may
  -- store a message for somebody who is absent: unless the event is a text that is routed to `oneChat`
  -- or a message of a channel that has a receiver.
  pub Reachable-serves :
      (h : Host) (s : State) (e : ServerEvent)
      → AreDistinct h.connect
      → Reachable h s
      → ¬ MayStore e
      → (s' : State) × (serve 0 e s ≡ some s') × IsSound s'
  Reachable-serves h s e distinct reachable quick =
      Reaches-returned (serve 0 e s) (
        serve-Reaches ⊥ 0 e s (Reachable-IsSound h s distinct reachable)
          (λ may. absurd (quick may)))

  insert-Ends : (fuel : ℕ) → 4 ≤ fuel → Accepts sql → Ends fuel ⊥
  insert-Ends fuel enough accepts userid text t e = elim (List-cases t.mysql.pool.connections) [
    | inl empty ↦ ground (arith, insert-no_connection fuel userid text t enough empty)
    | inr (c, rest, full) ↦ ground (
      arith,
      (insert-accepted fuel userid text t (omega arith) accepts (λ empty. ground (arith, full))).1,
    )
  ]

  -- Where MySQL takes every message that is stored, every event of a state that a server reaches ends
  -- within four rounds of the loop of `OfflineMessage::insert`, and leaves a sound state, if no two
  -- attempts to connect to MySQL made the same connection.
  pub Reachable-returns :
      (h : Host) (s : State) (e : ServerEvent) (fuel : ℕ)
      → AreDistinct h.connect
      → Accepts sql
      → 4 ≤ fuel
      → Reachable h s
      → (s' : State) × (serve fuel e s ≡ some s') × IsSound s'
  Reachable-returns h s e fuel distinct accepts enough reachable =
      Reaches-returned (serve fuel e s) (
        serve-Reaches ⊥ fuel e s (Reachable-IsSound h s distinct reachable)
          (λ _. insert-Ends fuel enough accepts))

  -- When a connection closes in such a state, the call returns, and one user who is recorded over the
  -- connection is gone, whichever, as by `loginOut`, while a user with the id -1 loses its entry only;
  -- where nobody is recorded over it, the users and the local members are as before.
  pub Reachable-Closes :
      (h : Host) (s : State) (conn : TcpConnection)
      → AreDistinct h.connect
      → Reachable h s
      → (s' : State) × (on_connection conn false s ≡ some s') × Closes conn (view s) (view s')
  unfolding on_connection
  Reachable-Closes h s conn distinct reachable =
      let sound = Reachable-IsSound h s distinct reachable in
      let (s', e, does, _) = perform-Refines (closes conn) s sound.conns in
      (s', ground (arith, e), does)
