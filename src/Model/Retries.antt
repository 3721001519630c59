-- ===== src/Model/Retries.antt =====
-- `OfflineMessage::insert`: its retries, its queue and its connection.
use cluster_chat_server_soft.Prelude.{
  append_ne_nil, ℕ, zero, suc, ◌+◌, ◌≤◌, ◌<◌, ◌≡◌, refl, ◌∙◌, ◌≢◌, true, false, none, some, List,
  [], ◌∷◌, ◌++◌, arith, inl, inr, List-cases,
}
use cluster_chat_server_soft.Prelude.Int.{ℤ}
use cluster_chat_server_soft.Prelude.Text.{Str}
use cluster_chat_server_soft.External.{done, threw}
use cluster_chat_server_soft.External.Sql.{SqlServer, Update}
use cluster_chat_server_soft.Model.OfflineMessage.{Offline, attempt, insert, insert_loop}

-- Storing a message throws, whatever the connection, the message and the state.
abbrev pub Refuses : SqlServer → Type 0
Refuses sql =
    (conn : ℕ) (userid : ℤ) (message : Str) (db : sql.Db)
    → (db' : sql.Db) × (sql.execute_update conn (Update.insert_message userid message) db
        ≡ threw db')

-- Storing a message never throws.
abbrev pub Accepts : SqlServer → Type 0
Accepts sql =
    (conn : ℕ) (userid : ℤ) (message : Str) (db : sql.Db)
    → (db' : sql.Db) × (sql.execute_update conn (Update.insert_message userid message) db
        ≡ done db' tt)

module _ ⦃sql : SqlServer⦄ where
  -- With no free connection `insert` gives up after its three retries: it reports failure, leaves the
  -- database and the pool alone, and queues the message behind those that wait already.
  pub insert-no_connection :
      (fuel : ℕ) (userid : ℤ) (message : Str) (s : Offline sql.Db)
      → 4 ≤ fuel
      → s.mysql.pool.connections ≡ []
      → insert fuel userid message s
        ≡ some (record s { failed_queue = s.failed_queue ++ (userid, message) ∷ [] }, false)
  unfolding insert
  insert-no_connection (suc (suc (suc (suc fuel)))) userid message s h e = ground arith
  insert-no_connection fuel userid message s h e = absurd (omega arith)

  attempt-fails :
      (conn : ℕ) (userid : ℤ) (message : Str) (queue : List (ℤ × Str)) (db : sql.Db)
      → Refuses sql
      → (attempt conn userid message queue db).success ≡ false
  unfolding attempt
  attempt-fails conn userid message [] db refuses =
      ground (arith, (refuses conn userid message db).1)
  attempt-fails conn userid message ((u, queued) ∷ queue) db refuses =
      ground (arith, (refuses conn u queued db).1)

  -- The state after a round on connection `c`, with `rest` left in the deque.
  abbrev pub next_round : ℕ → List ℕ → ℤ → Str → Offline sql.Db → Offline sql.Db
  next_round c rest userid message s =
      let a = attempt c userid message s.failed_queue s.mysql.db in
      record {
        mysql = record { db = a.db; pool = record s.mysql.pool { connections = rest ++ c ∷ [] } };
        failed_queue = a.queue;
      }

  pub loop_throws :
      (fuel retry_count c : ℕ) (rest : List ℕ) (userid : ℤ) (message : Str) (s : Offline sql.Db)
      → retry_count < 3
      → s.mysql.pool.connections ≡ c ∷ rest
      → (attempt c userid message s.failed_queue s.mysql.db).success ≡ false
      → insert_loop (suc fuel) retry_count userid message s
        ≡ insert_loop fuel retry_count userid message (next_round c rest userid message s)
  unfolding insert_loop
  loop_throws fuel retry_count c rest userid message s h e f = ground arith

  pub loop_succeeds :
      (fuel retry_count c : ℕ) (rest : List ℕ) (userid : ℤ) (message : Str) (s : Offline sql.Db)
      → retry_count < 3
      → s.mysql.pool.connections ≡ c ∷ rest
      → (attempt c userid message s.failed_queue s.mysql.db).success ≡ true
      → insert_loop (suc fuel) retry_count userid message s
        ≡ some (next_round c rest userid message s, true)
  unfolding insert_loop
  loop_succeeds fuel retry_count c rest userid message s h e f = ground arith

  pub loop_no_connection :
      (fuel retry_count : ℕ) (userid : ℤ) (message : Str) (s : Offline sql.Db)
      → retry_count < 3
      → s.mysql.pool.connections ≡ []
      → insert_loop (suc fuel) retry_count userid message s
        ≡ insert_loop fuel (retry_count + 1) userid message s
  unfolding insert_loop
  loop_no_connection fuel retry_count userid message s h e = ground arith

  pub loop_gives_up :
      (fuel retry_count : ℕ) (userid : ℤ) (message : Str) (s : Offline sql.Db)
      → 3 ≤ retry_count
      → insert_loop (suc fuel) retry_count userid message s
        ≡ some (record s { failed_queue = s.failed_queue ++ (userid, message) ∷ [] }, false)
  unfolding insert_loop
  loop_gives_up fuel retry_count userid message s h = ground arith

  loop-diverges :
      (fuel : ℕ) (userid : ℤ) (message : Str) (s : Offline sql.Db) (cs : List ℕ)
      → Refuses sql
      → s.mysql.pool.connections ≡ cs
      → cs ≢ []
      → insert_loop fuel 0 userid message s ≡ none
  unfolding insert_loop
  loop-diverges zero userid message s cs refuses e ne = refl
  loop-diverges (suc fuel) userid message s [] refuses e ne = absurd (ne refl)
  loop-diverges (suc fuel) userid message s (c ∷ rest) refuses e ne =
      loop_throws fuel 0 c rest userid message s (omega arith) e
        (attempt-fails c userid message s.failed_queue s.mysql.db refuses)
      ∙ loop-diverges fuel userid message (next_round c rest userid message s) (rest ++ c ∷ [])
          refuses refl (append_ne_nil rest c)

  -- While the database refuses the messages and a connection is free, `insert` never returns: an
  -- exception does not count as a retry, so no number of rounds ends the loop.
  pub insert-diverges :
      (fuel : ℕ) (userid : ℤ) (message : Str) (s : Offline sql.Db)
      → Refuses sql
      → s.mysql.pool.connections ≢ []
      → insert fuel userid message s ≡ none
  unfolding insert
  insert-diverges fuel userid message s refuses ne =
      loop-diverges fuel userid message s s.mysql.pool.connections refuses refl ne

  attempt-succeeds :
      (conn : ℕ) (userid : ℤ) (message : Str) (queue : List (ℤ × Str)) (db : sql.Db)
      → Accepts sql
      → (attempt conn userid message queue db).success ≡ true
  unfolding attempt
  attempt-succeeds conn userid message [] db accepts =
      ground (arith, (accepts conn userid message db).1)
  attempt-succeeds conn userid message ((u, queued) ∷ queue) db accepts =
      let (db', e) = accepts conn u queued db in
      ground (arith, attempt-succeeds conn userid message queue db' accepts)

  -- While the database takes the messages and a connection is free, one round is enough: `insert`
  -- returns and reports success.
  pub insert-accepted :
      (fuel : ℕ) (userid : ℤ) (message : Str) (s : Offline sql.Db)
      → 1 ≤ fuel
      → Accepts sql
      → s.mysql.pool.connections ≢ []
      → (s' : Offline sql.Db) × (insert fuel userid message s ≡ some (s', true))
  unfolding insert
  insert-accepted zero userid message s h accepts ne = absurd (omega arith)
  insert-accepted (suc fuel) userid message s h accepts ne =
      elim (List-cases s.mysql.pool.connections) [
        | inl e ↦ absurd (ne e)
        | inr (c, rest, e) ↦ (
          next_round c rest userid message s,
          loop_succeeds fuel 0 c rest userid message s (omega arith) e
              (attempt-succeeds c userid message s.failed_queue s.mysql.db accepts),
        )
      ]
