-- ===== src/Server/StartLaws.antt =====
-- How the start of the server ends.
use cluster_chat_server_soft.Prelude.{
  ℕ, ◌≡◌, sym, ◌==◌, if◌then◌else◌, arith, length, List, [], ◌∷◌, ◌++◌, refl, ap, ◌∙◌, inl, inr,
  Bool-cases,
}
use cluster_chat_server_soft.Prelude.Text.{codes}
use cluster_chat_server_soft.External.{done, threw, Outcome-cases}
use cluster_chat_server_soft.External.Sql.{SqlServer, Update}
use cluster_chat_server_soft.External.Redis.{RedisServer}
use cluster_chat_server_soft.External.Json.{JsonLib}
use cluster_chat_server_soft.MysqlPool.{MysqlPool, init_pool}
use cluster_chat_server_soft.MysqlPool.Laws.{made, init_connection-made}
use cluster_chat_server_soft.MysqlPool.Distinct.{
  AreDistinct, count-made, create_connection-AreDistinct, init_connection-made_only,
}
use cluster_chat_server_soft.ChatService.State.{State}
use cluster_chat_server_soft.ChatService.Sound.{IsSound}
use cluster_chat_server_soft.ChatService.Session
use cluster_chat_server_soft.Model.UserModel
use cluster_chat_server_soft.Model.Lending.{reset_state-AddsNone}
use cluster_chat_server_soft.Server.StartUp.{
  attempts, Host, up, terminated, undefined, pool_size, new_client, new_service, status_reset,
  start_up,
}

-- The pool that `initPool` fills.
abbrev pub filled : List ℕ → MysqlPool
filled connections = record {
  url = codes "tcp://127.0.0.1:3306";
  database_name = codes "chat";
  user = codes "root";
  password = codes "123456";
  pool_size = 8;
  connections = connections;
}

module _ ⦃sql : SqlServer⦄ ⦃redis : RedisServer⦄ ⦃json : JsonLib⦄ where
  -- The service after the status of every user was reset.
  abbrev pub listening : Host → State
  listening h =
      let s : State = new_service h (filled (made (attempts h) 0 pool_size)) in
      record s { mysql = UserModel.reset_state s.mysql }

  -- The service of a server that has just started, over the database and these MySQL connections.
  abbrev pub fresh : Host → sql.Db → List ℕ → State
  fresh h db connections = record {
    user_conn_map = [];
    group_members = [];
    mysql = record { db = db; pool = filled connections };
    failed_queue = [];
    redis = new_client h;
    sent = [];
  }

  -- After the UPDATE of `resetState` on the first of the connections.
  abbrev pub after_reset : Host → List ℕ → State
  after_reset h [] = fresh h h.db []
  after_reset h (c ∷ rest) = elim (sql.execute_update c Update.reset_states h.db) [
    | done db _ ↦ fresh h db (rest ++ c ∷ [])
    | threw db ↦ fresh h db rest
  ]

  pub start_up-listening :
      (h : Host)
      → start_up h ≡ (
          if h.driver
          then if length (made (attempts h) 0 pool_size) == pool_size
            then up (listening h)
            else terminated
          else undefined)
  unfolding start_up init_pool status_reset Session.reset
  start_up-listening h =
      let p : MysqlPool = record (filled []) { connections = [] } in
      let q = init_connection-made_only (attempts h) 0 pool_size p in
      let (_, all) = init_connection-made (attempts h) 0 pool_size p in
      ground (arith, q, all.0, all.1)

  listening-after_reset :
      (h : Host) (connections : List ℕ)
      → record (fresh h h.db connections) {
        mysql = UserModel.reset_state (fresh h h.db connections).mysql;
      }
        ≡ after_reset h connections
  unfolding UserModel.reset_state
  listening-after_reset h [] = refl
  listening-after_reset h (c ∷ rest) =
      elim (Outcome-cases (sql.execute_update c Update.reset_states h.db)) [
        | inl (db, _, e) ↦ ground arith
        | inr (db, e) ↦ ground arith
      ]

  -- The start of the server, on every branch. Where all eight connections are made the server listens,
  -- with nobody connected and no local member, after one UPDATE on the first connection, the one that sets
  -- who is online to offline: where it succeeds the connection is the last of the eight in the pool, and where it throws
  -- the server listens all the same, with the other seven. Where an attempt to connect throws, `main`
  -- ends by the exception; and where the connector gave no driver the program goes on, and reads a
  -- pointer that nothing has set.
  pub start_up_branches :
      (h : Host)
      → start_up h ≡ (
          if h.driver
          then if length (made (attempts h) 0 8) == 8
            then up (after_reset h (made (attempts h) 0 8))
            else terminated
          else undefined)
  unfolding new_service
  start_up_branches h =
      start_up-listening h
      ∙ ap
          (λ (s : State).
            if h.driver
            then if length (made (attempts h) 0 8) == 8 then up s else terminated
            else undefined)
          (listening-after_reset h (made (attempts h) 0 8))

  -- A server that listens has a sound state, if no two attempts made the same connection.
  pub start_up-IsSound :
      (h : Host) (s : State) → AreDistinct h.connect → start_up h ≡ up s → IsSound s
  unfolding new_service
  start_up-IsSound h s distinct e =
      let sound : IsSound (listening h) = record {
        conns = tt;
        members = (tt, tt);
        lending = λ c. omega (
          arith,
          reset_state-AddsNone (new_service h (filled (made (attempts h) 0 pool_size))).mysql c,
          count-made (attempts h) c 0 pool_size
              (create_connection-AreDistinct h.connect h.set_schema distinct),
        );
      } in
      elim (Bool-cases h.driver) [
        | inl got ↦ elim (Bool-cases (length (made (attempts h) 0 pool_size) == pool_size)) [
          | inl all ↦
              let same : listening h ≡ s = ground (arith, start_up-listening h) in
              rw (sym same) sound
          | inr fewer ↦ absurd (ground (arith, start_up-listening h))
        ]
        | inr failed ↦ absurd (ground (arith, start_up-listening h))
      ]
