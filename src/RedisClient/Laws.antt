-- ===== src/RedisClient/Laws.antt =====
-- What the theorems on the client rely on: Redis keeps hashes and lists, and may be up.
use cluster_chat_server_soft.Prelude.{
  append_ne_nil, ℕ, ◌≡◌, refl, ◌≢◌, false, ◌&&◌, Option, none, some, List, [], ◌∷◌, ◌++◌, arith,
  length, length-append, if◌then◌else◌, List-cases, inl, inr,
}
use cluster_chat_server_soft.Prelude.Text.{Str, str_eq}
use cluster_chat_server_soft.External.{Outcome, done}
use cluster_chat_server_soft.External.Redis.{RedisServer, Write}
use cluster_chat_server_soft.RedisClient.Core.{Redis, Client, with_conn}

-- No command throws.
pub record Serves (redis : RedisServer) : Type 0 where
  pub writes :
      (conn : ℕ) (w : Write) (s : redis.Store)
      → (s' : redis.Store) × (redis.write conn w s ≡ done s' tt)
  pub hgets :
      (conn : ℕ) (key field : Str) (s : redis.Store)
      → (s' : redis.Store) × (v : Option Str) × (redis.hget conn key field s ≡ done s' v)
  pub lranges :
      (conn : ℕ) (key : Str) (s : redis.Store)
      → (s' : redis.Store) × (vs : List Str) × (redis.lrange conn key s ≡ done s' vs)

-- The hashes: `hash s key field` is what HGET gives at once. A time to live takes effect later.
pub record HashTable (redis : RedisServer) (hash : redis.Store → Str → Str → Option Str)
    : Type 0 where
  pub hset_done :
      (conn : ℕ) (key field value k f : Str) (s s' : redis.Store)
      → redis.write conn (Write.hset key field value) s ≡ done s' tt
      → hash s' k f ≡ (if str_eq key k && str_eq field f then some value else hash s k f)
  pub hdel_done :
      (conn : ℕ) (key field k f : Str) (s s' : redis.Store)
      → redis.write conn (Write.hdel key field) s ≡ done s' tt
      → hash s' k f ≡ (if str_eq key k && str_eq field f then none else hash s k f)
  pub expire_done :
      (conn : ℕ) (key k f : Str) (ttl : ℕ) (s s' : redis.Store)
      → redis.write conn (Write.expire key ttl) s ≡ done s' tt
      → hash s' k f ≡ hash s k f
  pub hget_done :
      (conn : ℕ) (key field : Str) (s s' : redis.Store) (v : Option Str)
      → redis.hget conn key field s ≡ done s' v
      → v ≡ hash s key field

-- The lists: `list s key` is what LRANGE key 0 -1 gives.
pub record ListTable (redis : RedisServer) (list : redis.Store → Str → List Str) : Type 0 where
  pub lpush_done :
      (conn : ℕ) (key value k : Str) (s s' : redis.Store)
      → redis.write conn (Write.lpush key value) s ≡ done s' tt
      → list s' k ≡ (if str_eq key k then value ∷ list s k else list s k)
  pub del_done :
      (conn : ℕ) (key k : Str) (s s' : redis.Store)
      → redis.write conn (Write.del key) s ≡ done s' tt
      → list s' k ≡ (if str_eq key k then [] else list s k)
  pub lrange_done :
      (conn : ℕ) (key k : Str) (s s' : redis.Store) (vs : List Str)
      → redis.lrange conn key s ≡ done s' vs
      → (vs ≡ list s key) × (list s' k ≡ list s k)

-- The pool runs and has a free connection.
pub record IsRunning {Store Sub : Type 0} (r : Redis Store Sub) : Type 0 where
  pub runs : r.pool.stopped ≡ false
  pub free : r.pool.connections ≢ []

module _ ⦃redis : RedisServer⦄ {A : Type 0} where
  with_conn_done :
      (missing : A) (body : ℕ → redis.Store → Outcome redis.Store A) (r : Client) (c : ℕ)
      (rest : List ℕ) (s : redis.Store) (a : A)
      → r.pool.stopped ≡ false
      → r.pool.connections ≡ c ∷ rest
      → body c r.store ≡ done s a
      → with_conn missing body r
        ≡ (record r { store = s; pool = record r.pool { connections = rest ++ c ∷ [] } }, a)
  unfolding with_conn
  with_conn_done missing body r c rest s a h e q = ground arith

  -- What every run of the body on the store ensures, the call ensures, and the connection is back.
  pub with_conn_ensures :
      (P : redis.Store → A → Type 0) (missing : A) (body : ℕ → redis.Store → Outcome redis.Store A)
      (r : Client)
      → IsRunning r
      → ((conn : ℕ) → (s : redis.Store) × (a : A) × (body conn r.store ≡ done s a) × P s a)
      → let (r', a) = with_conn missing body r in
        IsRunning r' × P r'.store a × (r'.local_node_id ≡ r.local_node_id)
  with_conn_ensures P missing body r up post = elim (List-cases r.pool.connections) [
    | inl e ↦ absurd (up.free e)
    | inr (c, rest, e) ↦
        let (s, a, q, p) = post c in
        rw (with_conn_done missing body r c rest s a up.runs e q)
          (record { runs = up.runs; free = append_ne_nil rest c }, p, refl)
  ]

  -- A call while the client's pool runs with a free connection leaves as many free connections as it
  -- found, whether its commands throw or not.
  pub with_conn-size :
      (missing : A) (body : ℕ → redis.Store → Outcome redis.Store A) (r : Client)
      → IsRunning r
      → length (with_conn missing body r).0.pool.connections ≡ length r.pool.connections
  unfolding with_conn
  with_conn-size missing body r up = elim (List-cases r.pool.connections) [
    | inl e ↦ absurd (up.free e)
    | inr (c, rest, e) ↦ ground (arith, up.runs, length-append rest (c ∷ []))
  ]
