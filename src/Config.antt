-- ===== src/Config.antt =====
-- include/config.hpp, and what src/server/redisclient.cpp makes of the node id.
pub mod Laws
use cluster_chat_server_soft.Prelude.{
  ℕ, Bool, true, false, not, ◌&&◌, Option, none, some, List, [], ◌∷◌, ◌++◌, if◌then◌else◌,
}
use cluster_chat_server_soft.Prelude.Int.{ℤ, pos}
use cluster_chat_server_soft.Prelude.Text.{Str, codes, str_eq, to_string}
use cluster_chat_server_soft.External.{Outcome, done, threw, ◌>>=◌, ◌>>◌}
use cluster_chat_server_soft.External.Json.{JsonLib}

pub record Config : Type 0 where
  pub node_id : Str
  pub server_ip : Str
  pub server_port : ℤ
  pub redis_url : Str
  pub redis_pool_size : ℤ
  pub redis_pool_wait_ms : ℤ
  pub log_level : Str
  pub log_path : Str

-- The singleton before any `load`: static storage starts with zeros, and the strings are empty.
abbrev pub unloaded : Config
unloaded = record {
  node_id = [];
  server_ip = [];
  server_port = pos 0;
  redis_url = [];
  redis_pool_size = pos 0;
  redis_pool_wait_ms = pos 0;
  log_level = [];
  log_path = [];
}

-- An assignment to a field, of a value whose computation may throw.
abbrev pub assigned :
    {A : Type 0} → Option A → (A → Config → Config) → Config → Outcome Config (Unit {0})
assigned none set c = threw c
assigned (some a) set c = done (set a c) tt

module _ ⦃json : JsonLib⦄ where
  abbrev pub Reading : Type 0
  Reading = Config → Outcome Config (Unit {0})

  -- `if (config.contains(key)) { auto &part = config[key]; ... }`.
  unfoldable pub section : Str → (json.Json → Reading) → json.Json → Reading
  section key body config c =
      if json.contains config key
      then elim (json.subscript config key) [ none ↦ threw c | some part ↦ body part c ]
      else done c tt

  unfoldable pub read_server : json.Json → Reading
  read_server server = do
    assigned (json.string_or server (codes "ip") (codes "0.0.0.0"))
        (λ ip c. record c { server_ip = ip })
    assigned (json.int_or server (codes "port") (pos 8000))
        (λ port c. record c { server_port = port })

  unfoldable pub read_redis : json.Json → Reading
  read_redis redis = do
    assigned (json.string_or redis (codes "url") (codes "redis://localhost:6379"))
        (λ url c. record c { redis_url = url })
    assigned (json.int_or redis (codes "pool_size") (pos 10))
        (λ size c. record c { redis_pool_size = size })
    assigned (json.int_or redis (codes "pool_wait_ms") (pos 5000))
        (λ ms c. record c { redis_pool_wait_ms = ms })

  unfoldable pub read_log : json.Json → Reading
  read_log log = do
    assigned (json.string_or log (codes "level") (codes "info"))
        (λ level c. record c { log_level = level })
    assigned (json.string_or log (codes "path") (codes "./logs/chat.log"))
        (λ path c. record c { log_path = path })

  unfoldable pub read_config : json.Json → Reading
  unfolding section read_server read_redis read_log
  read_config config = do
    assigned (json.string_or config (codes "node_id") (codes "node-default"))
        (λ id c. record c { node_id = id })
    section (codes "server") read_server config
    section (codes "redis") read_redis config
    section (codes "log") read_log config

  -- `load`, of the text of the file; `none` is a file that does not open. An exception keeps the fields
  -- that were assigned before it.
  unfoldable pub load : Option Str → Config → Config × Bool
  unfolding read_config
  load none c = (c, false)
  load (some text) c = elim (json.parse text) [
    | none ↦ (c, false)
    | some config ↦ elim (read_config config c) [ done c' _ ↦ (c', true) | threw c' ↦ (c', false) ]
  ]

abbrev pub is_empty : Str → Bool
is_empty [] = true
is_empty (a ∷ s) = false

-- The node id of the configuration, or one made from the host name and the process id.
abbrev pub chosen_id : Str → ℤ → Config → Str
chosen_id hostname pid config =
    if not (is_empty config.node_id) && not (str_eq config.node_id (codes "node-default"))
    then config.node_id
    else hostname ++ (codes "-" ++ to_string pid)

-- `RedisClient::getLocalNodeId`, with the static `cachedNodeId` before and after the call; the host
-- name and the process id are the system's.
unfoldable pub get_local_node_id : Str → ℤ → Config → Str → Str × Str
get_local_node_id hostname pid config cached =
    if not (is_empty cached)
    then (cached, cached)
    else (chosen_id hostname pid config, chosen_id hostname pid config)
