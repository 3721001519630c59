-- ===== src/RedisPool.antt =====
-- src/server/redisconnectionpool/redisconnectionpool.cpp: the queue of connections, each known by a
-- number. Making a connection is redis++'s: `connect` says for the i-th round which one it makes, or
-- `none` where it throws.
pub mod Laws
use cluster_chat_server_soft.Prelude.{
  ℕ, zero, suc, ◌+◌, Bool, true, false, not, ◌||◌, Option, none, some, List, [], ◌∷◌, ◌++◌,
  if◌then◌else◌,
}
use cluster_chat_server_soft.Prelude.Int.{ℤ, pos, ltb_ℤ}
use cluster_chat_server_soft.Prelude.Text.{Str}

pub record RedisPool : Type 0 where
  pub host : Str
  pub port : ℤ
  pub password : Str
  pub stopped : Bool
  pub connections : List ℕ

-- The loop of `init`, from its i-th round: a connection that fails is logged and left out.
unfoldable pub init_connections : (ℕ → Option ℕ) → ℕ → ℕ → List ℕ → List ℕ
init_connections connect i zero cs = cs
init_connections connect i (suc rounds) cs =
    init_connections connect (i + 1) rounds
      (elim (connect i) [ none ↦ cs | some conn ↦ cs ++ conn ∷ [] ])

unfoldable pub init : (ℕ → Option ℕ) → Str → ℤ → ℕ → Str → RedisPool → RedisPool
unfolding init_connections
init connect host port pool_size password p = record p {
  host = host;
  port = port;
  password = password;
  connections = init_connections connect 0 pool_size p.connections;
}

-- What `acquire` comes to: a connection, the null pointer, or a call that still waits.
pub data Acquired : Type 0 where
  got : ℕ → RedisPool → Acquired
  null : RedisPool → Acquired
  blocked : RedisPool → Acquired

abbrev is_empty : List ℕ → Bool
is_empty [] = true
is_empty (conn ∷ rest) = false

-- `if (stopped_ || connections_.empty()) return nullptr;` and what follows.
unfoldable pub take_front : RedisPool → Acquired
take_front p = if p.stopped then null p else elim p.connections [
  | [] ↦ null p
  | conn ∷ rest ↦ got conn (record p { connections = rest })
]

-- The end of a wait that leaves the pool `q`: the predicate holds, or a timed wait has run out.
unfoldable pub after_wait : ℤ → RedisPool → Acquired
unfolding take_front
after_wait timeout_ms q =
    if not (is_empty q.connections) || q.stopped
    then take_front q
    else if ltb_ℤ (pos 0) timeout_ms
    then null q
    else blocked q

-- `acquire`. A caller that waits gives up the mutex: `wait p` is the pool when its wait ends, by a
-- notification or by the timeout, after whatever the other threads did to `p`.
unfoldable pub acquire : ℤ → (RedisPool → RedisPool) → RedisPool → Acquired
unfolding take_front after_wait
acquire timeout_ms wait p =
    if p.stopped
    then null p
    else if is_empty p.connections
    then after_wait timeout_ms (wait p)
    else take_front p

-- `release`. It does not look at `stopped_`.
unfoldable pub release : Option ℕ → RedisPool → RedisPool
release none p = p
release (some conn) p = record p { connections = p.connections ++ conn ∷ [] }

-- `stop`: the loop pops every connection.
unfoldable pub stop : RedisPool → RedisPool
stop p = if p.stopped then p else record p { stopped = true; connections = [] }
