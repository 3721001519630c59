-- ===== src/Model/Kept.antt =====
-- No message is lost in `OfflineMessage::insert`: the table and the queue together.
use mathlib.Core.List.{append-nil, append_assoc}
use cluster_chat_server_soft.Prelude.{
  ℕ, zero, suc, ◌+◌, ◌<◌, ◌≡◌, sym, ◌∙◌, Bool, true, false, some, List, [], ◌∷◌, ◌++◌, arith, inl,
  inr, Bool-cases, List-cases, ltb, if◌then◌else◌,
}
use cluster_chat_server_soft.Prelude.Int.{ℤ}
use cluster_chat_server_soft.Prelude.Text.{Str}
use cluster_chat_server_soft.External.{done, threw, Outcome-cases}
use cluster_chat_server_soft.External.Sql.{SqlServer, Update}
use cluster_chat_server_soft.Model.OfflineMessage.{Offline, attempt, insert, insert_loop}
use cluster_chat_server_soft.Model.Retries.{
  next_round, loop_throws, loop_succeeds, loop_no_connection, loop_gives_up,
}

-- The table `OfflineMessage` in the order of its ids. `stored db`: its rows.
pub record MessageTable (sql : SqlServer) (stored : sql.Db → List (ℤ × Str)) : Type 0 where
  pub insert_appends :
      (conn : ℕ) (userid : ℤ) (message : Str) (db db' : sql.Db)
      → sql.execute_update conn (Update.insert_message userid message) db ≡ done db' tt
      → stored db' ≡ stored db ++ (userid, message) ∷ []
  -- A statement that throws has changed nothing.
  pub throw_keeps :
      (conn : ℕ) (userid : ℤ) (message : Str) (db db' : sql.Db)
      → sql.execute_update conn (Update.insert_message userid message) db ≡ threw db'
      → stored db' ≡ stored db

module _ ⦃sql : SqlServer⦄ (stored : sql.Db → List (ℤ × Str))
    (table : MessageTable sql stored) where
  -- The messages that the server has taken over: those in the table and those that wait.
  abbrev pub kept_messages : Offline sql.Db → List (ℤ × Str)
  kept_messages s = stored s.mysql.db ++ s.failed_queue

  attempt-keeps :
      (conn : ℕ) (userid : ℤ) (message : Str) (queue : List (ℤ × Str)) (db : sql.Db)
      → let a = attempt conn userid message queue db in
        (a.success ≡ true
          → (a.queue ≡ []) × (stored a.db ≡ (stored db ++ queue) ++ (userid, message) ∷ []))
        × (a.success ≡ false → stored a.db ++ a.queue ≡ stored db ++ queue)
  unfolding attempt
  attempt-keeps conn userid message [] db =
      elim (Outcome-cases (sql.execute_update conn (Update.insert_message userid message) db)) [
        | inl (db', _, e) ↦
            ground
              (arith, append-nil (stored db), table.insert_appends conn userid message db db' e)
        | inr (db', e) ↦ ground (arith, table.throw_keeps conn userid message db db' e)
      ]
  attempt-keeps conn userid message ((u, queued) ∷ queue) db =
      elim (Outcome-cases (sql.execute_update conn (Update.insert_message u queued) db)) [
        | inl (db', _, e) ↦ ground (
          arith,
          append_assoc (stored db) ((u, queued) ∷ []) queue,
          table.insert_appends conn u queued db db' e,
          attempt-keeps conn userid message queue db',
        )
        | inr (db', e) ↦ ground (arith, table.throw_keeps conn u queued db db' e)
      ]

  loop-round :
      (fuel retry_count c : ℕ) (rest : List ℕ) (userid : ℤ) (message : Str) (s s' : Offline sql.Db)
      (ok : Bool)
      → retry_count < 3
      → s.mysql.pool.connections ≡ c ∷ rest
      → insert_loop (suc fuel) retry_count userid message s ≡ some (s', ok)
      → let t = next_round c rest userid message s in
        (insert_loop fuel retry_count userid message t ≡ some (s', ok)
          → (kept_messages s' ≡ kept_messages t ++ (userid, message) ∷ [])
            × ((if ok then s'.failed_queue else []) ≡ []))
        → (kept_messages s' ≡ kept_messages s ++ (userid, message) ∷ [])
          × ((if ok then s'.failed_queue else []) ≡ [])
  loop-round fuel retry_count c rest userid message s s' ok h free e ih =
      let (good, bad) = attempt-keeps c userid message s.failed_queue s.mysql.db in
      elim (Bool-cases (attempt c userid message s.failed_queue s.mysql.db).success) [
        | inl stops ↦
            let g = loop_succeeds fuel retry_count c rest userid message s h free stops in
            let (empty, all) = good stops in
            ground (
              arith,
              g,
              empty,
              all,
              append-nil (stored (next_round c rest userid message s).mysql.db),
            )
        | inr fails ↦
            let g = loop_throws fuel retry_count c rest userid message s h free fails in
            rw (← bad fails) (ih (sym g ∙ e))
      ]

  loop-keeps :
      (fuel retry_count : ℕ) (userid : ℤ) (message : Str) (s s' : Offline sql.Db) (ok : Bool)
      → insert_loop fuel retry_count userid message s ≡ some (s', ok)
      → (kept_messages s' ≡ kept_messages s ++ (userid, message) ∷ [])
        × ((if ok then s'.failed_queue else []) ≡ [])
  unfolding insert_loop
  loop-keeps zero retry_count userid message s s' ok e = cc
  loop-keeps (suc fuel) retry_count userid message s s' ok e =
      elim (Bool-cases (ltb retry_count 3)) [
        | inr over ↦
            let g = loop_gives_up fuel retry_count userid message s (ground arith) in
            ground
              (arith, g, append_assoc (stored s.mysql.db) s.failed_queue ((userid, message) ∷ []))
        | inl more ↦ elim (List-cases s.mysql.pool.connections) [
          | inl none_free ↦ loop-keeps fuel (retry_count + 1) userid message s s' ok (
              sym (loop_no_connection fuel retry_count userid message s (ground arith) none_free)
              ∙ e)
          | inr (c, rest, free) ↦
              loop-round fuel retry_count c rest userid message s s' ok (ground arith) free e (
                loop-keeps fuel retry_count userid message (next_round c rest userid message s) s'
                  ok)
        ]
      ]

  -- Where a statement that stores a message appends its row to the table and one that throws changes
  -- nothing, an `insert` that returns, after whatever failures in its rounds, has added exactly its
  -- message to the table and the queue together, behind the others: no message is lost, stored twice
  -- or overtaken, and after a success nothing waits.
  pub insert-kept_messages :
      (fuel : ℕ) (userid : ℤ) (message : Str) (s s' : Offline sql.Db) (ok : Bool)
      → insert fuel userid message s ≡ some (s', ok)
      → (kept_messages s' ≡ kept_messages s ++ (userid, message) ∷ [])
        × ((if ok then s'.failed_queue else []) ≡ [])
  unfolding insert
  insert-kept_messages fuel userid message s s' ok e = loop-keeps fuel 0 userid message s s' ok e
