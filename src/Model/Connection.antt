-- ===== src/Model/Connection.antt =====
-- The state that every model class works on: the database and the pool of connections to it.
use cluster_chat_server_soft.Prelude.{ℕ, Option}
use cluster_chat_server_soft.MysqlPool.{MysqlPool, release_connection}

pub record Mysql (Db : Type 0) : Type 0 where
  pub db : Db
  pub pool : MysqlPool

-- `mysqlPool->releaseConnection(conn)` after the statements have left `db`; `rest` is the pool
-- without the connection.
abbrev pub given_back : {Db : Type 0} → Db → ℕ → MysqlPool → Mysql Db
given_back db conn rest = record { db = db; pool = (release_connection (Option.some conn) rest).0 }

-- The connection is not given back.
abbrev pub kept : {Db : Type 0} → Db → MysqlPool → Mysql Db
kept db rest = record { db = db; pool = rest }
