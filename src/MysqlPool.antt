-- ===== src/MysqlPool.antt =====
-- src/server/mysqlconnectionpool/mysqlconnectionpool.cpp: the deque of connections. A connection is
-- known by a number. `driver_->connect`, `setSchema` and `close` are the connector's: `connect` says for
-- the i-th call which connection it makes, or `none` where it throws, and a Boolean whether a call on a
-- connection returned. `createConnection` dereferences what `connect` returns, so no null pointer enters
-- the deque.
pub mod Laws
pub mod Race
pub mod Enough
pub mod Distinct
pub mod Lifetime
pub mod Instance
use cluster_chat_server_soft.Prelude.{
  ℕ, zero, suc, ◌+◌, Bool, true, false, Option, none, some, List, [], ◌∷◌, ◌++◌, ◌==◌,
  if◌then◌else◌,
}
use cluster_chat_server_soft.Prelude.Text.{Str}

pub record MysqlPool : Type 0 where
  pub url : Str
  pub database_name : Str
  pub user : Str
  pub password : Str
  pub pool_size : ℕ
  pub connections : List ℕ

-- `getConnection`: `none` is the null pointer. Two threads: MysqlPool/Race.antt.
unfoldable pub get_connection : MysqlPool → Option (ℕ × MysqlPool)
get_connection p = elim p.connections [
  | [] ↦ none
  | conn ∷ rest ↦ some (conn, record p { connections = rest })
]

-- `releaseConnection`: of a null pointer it refuses.
unfoldable pub release_connection : Option ℕ → MysqlPool → MysqlPool × Bool
release_connection none p = (p, false)
release_connection (some conn) p = (record p { connections = p.connections ++ conn ∷ [] }, true)

-- `createConnection`: an exception of `setSchema` leaves it, and what `connect` made is lost.
unfoldable pub create_connection : (ℕ → Option ℕ) → (ℕ → Bool) → ℕ → Option ℕ
create_connection connect set_schema i = elim (connect i) [
  | none ↦ none
  | some conn ↦ if set_schema conn then some conn else none
]

-- The loop of `initConnection`, from its i-th round; `connect` is `createConnection`. `false`: the connector threw, and the
-- exception leaves the loop.
unfoldable pub init_connection : (ℕ → Option ℕ) → ℕ → ℕ → MysqlPool → MysqlPool × Bool
init_connection connect i zero p = (p, true)
init_connection connect i (suc rounds) p = elim (connect i) [
  | none ↦ (p, false)
  | some conn ↦
      init_connection connect (i + 1) rounds (record p { connections = p.connections ++ conn ∷ [] })
]

-- What `initPool` comes to: every connection was made, the connector threw, or a connection was asked
-- of the `driver_` that nothing has set.
pub data InitPool : Type 0 where
  all_made : MysqlPool → InitPool
  connect_threw : MysqlPool → InitPool
  no_driver : InitPool

-- `driver`: did `get_mysql_driver_instance` return? An exception of it is logged, and `initConnection`
-- is called all the same; its first round reads `driver_`.
unfoldable pub init_pool : Bool → (ℕ → Option ℕ) → Str → Str → Str → Str → ℕ → MysqlPool → InitPool
unfolding init_connection
init_pool driver connect url database_name user password pool_size p =
    let set : MysqlPool = record p {
      url = url;
      database_name = database_name;
      user = user;
      password = password;
      pool_size = pool_size;
    } in
    let (q, all) = init_connection connect 0 pool_size set in
    if driver
    then if all then all_made q else connect_threw q
    else if pool_size == 0
    then all_made set
    else no_driver

-- The private constructor with arguments. An exception of the driver or of a connection leaves it.
unfoldable pub new_pool : Bool → (ℕ → Option ℕ) → Str → Str → Str → Str → ℕ → Option MysqlPool
unfolding init_connection
new_pool driver connect url database_name user password pool_size =
    let made = init_connection connect 0 pool_size (record {
      url = url;
      database_name = database_name;
      user = user;
      password = password;
      pool_size = pool_size;
      connections = [];
    }) in
    if driver then if made.1 then some made.0 else none else none

-- What a destruction has done: the connections deleted, and how many errors it logged.
pub record Destroyed : Type 0 where
  pub deleted : List ℕ
  pub logged : ℕ

-- `destoryConnection`: a null pointer is skipped, and an exception of `close` is logged.
unfoldable pub destroy_connection : (ℕ → Bool) → Option ℕ → Destroyed → Destroyed
destroy_connection close none d = d
destroy_connection close (some conn) d = record {
  deleted = d.deleted ++ conn ∷ [];
  logged = if close conn then d.logged else d.logged + 1;
}

-- The loop of `destoryConnectionPool`.
unfoldable pub destroy_all : (ℕ → Bool) → List ℕ → Destroyed → Destroyed
unfolding destroy_connection
destroy_all close [] d = d
destroy_all close (conn ∷ rest) d = destroy_all close rest (destroy_connection close (some conn) d)

-- `destoryConnectionPool`, which the destructor calls.
unfoldable pub destroy_connection_pool : (ℕ → Bool) → MysqlPool → MysqlPool × Destroyed
unfolding destroy_all
destroy_connection_pool close p = (
  record p { connections = [] },
  destroy_all close p.connections (record { deleted = []; logged = 0 }),
)
