-- ===== src/Config/Laws.antt =====
-- What `Config::load` makes of a file.
use cluster_chat_server_soft.Prelude.{
  ◌≡◌, refl, true, false, none, some, List, [], ◌∷◌, ◌++◌, arith, Bool-cases, inl, inr,
}
use cluster_chat_server_soft.Prelude.Int.{ℤ, pos}
use cluster_chat_server_soft.Prelude.Text.{Str, codes, str_eq, to_string}
use cluster_chat_server_soft.External.{Outcome, done}
use cluster_chat_server_soft.External.Json.{JsonLib, JsonLaws}
use cluster_chat_server_soft.External.Objects.{
  object, field, has_field, subscript-object, contains-object, string_or-object, int_or-object,
}
use cluster_chat_server_soft.Config.{
  Config, section, read_server, read_redis, read_log, read_config, load, is_empty, chosen_id,
  get_local_node_id,
}

module _ ⦃json : JsonLib⦄ where
  abbrev server_fields : Config → List (Str × json.Json)
  server_fields c =
      (codes "ip", json.string c.server_ip) ∷ (codes "port", json.int c.server_port) ∷ []

  abbrev redis_fields : Config → List (Str × json.Json)
  redis_fields c =
      (codes "url", json.string c.redis_url)
      ∷ (codes "pool_size", json.int c.redis_pool_size)
      ∷ (codes "pool_wait_ms", json.int c.redis_pool_wait_ms)
      ∷ []

  abbrev log_fields : Config → List (Str × json.Json)
  log_fields c =
      (codes "level", json.string c.log_level) ∷ (codes "path", json.string c.log_path) ∷ []

  -- The file with all fields, as in include/config.json.
  abbrev config_fields : Config → List (Str × json.Json)
  config_fields c =
      (codes "node_id", json.string c.node_id)
      ∷ (codes "server", object (server_fields c))
      ∷ (codes "redis", object (redis_fields c))
      ∷ (codes "log", object (log_fields c))
      ∷ []

  abbrev pub file_of : Config → Str
  file_of c = json.dump (object (config_fields c))

module _ ⦃json : JsonLib⦄ (laws : JsonLaws json) where
  section-object :
      (key : Str) (body : json.Json → Config → Outcome Config (Unit {0})) (part : json.Json)
      (fields : List (Str × json.Json)) (c : Config)
      → has_field key fields ≡ true
      → field key fields ≡ some part
      → section key body (object fields) c ≡ body part c
  unfolding section
  section-object key body part fields c h e =
      ground (arith, contains-object laws key fields, subscript-object laws key part fields e)

  read_server-object :
      (d c : Config)
      → read_server (object (server_fields d)) c
        ≡ done (record c { server_ip = d.server_ip; server_port = d.server_port }) tt
  unfolding read_server str_eq
  read_server-object d c = ground (
    arith,
    string_or-object laws (codes "ip") d.server_ip (codes "0.0.0.0") (server_fields d) refl,
    int_or-object laws (codes "port") d.server_port (pos 8000) (server_fields d) refl,
  )

  read_redis-object :
      (d c : Config)
      → read_redis (object (redis_fields d)) c
        ≡ done
            (record c {
              redis_url = d.redis_url;
              redis_pool_size = d.redis_pool_size;
              redis_pool_wait_ms = d.redis_pool_wait_ms;
            })
            tt
  unfolding read_redis str_eq
  read_redis-object d c = ground (
    arith,
    string_or-object laws (codes "url") d.redis_url (codes "redis://localhost:6379")
        (redis_fields d) refl,
    int_or-object laws (codes "pool_size") d.redis_pool_size (pos 10) (redis_fields d) refl,
    int_or-object laws (codes "pool_wait_ms") d.redis_pool_wait_ms (pos 5000) (redis_fields d) refl,
  )

  read_log-object :
      (d c : Config)
      → read_log (object (log_fields d)) c
        ≡ done (record c { log_level = d.log_level; log_path = d.log_path }) tt
  unfolding read_log str_eq
  read_log-object d c = ground (
    arith,
    string_or-object laws (codes "level") d.log_level (codes "info") (log_fields d) refl,
    string_or-object laws (codes "path") d.log_path (codes "./logs/chat.log") (log_fields d) refl,
  )

  -- A file with every field, whatever the values, is read back: `load` succeeds, and the configuration
  -- is the one that the file was written from, whatever it was before.
  pub load-file_of : (d c : Config) → load (some (file_of d)) c ≡ (d, true)
  unfolding load read_config str_eq
  load-file_of d c =
      let fields : List (Str × json.Json) = config_fields d in
      let c1 : Config = record c { node_id = d.node_id } in
      let c2 : Config = record c1 { server_ip = d.server_ip; server_port = d.server_port } in
      let c3 : Config = record c2 {
        redis_url = d.redis_url;
        redis_pool_size = d.redis_pool_size;
        redis_pool_wait_ms = d.redis_pool_wait_ms;
      } in
      ground (
        arith,
        laws.parse-dump (object fields),
        string_or-object laws (codes "node_id") d.node_id (codes "node-default") fields refl,
        section-object (codes "server") read_server (object (server_fields d)) fields c1 refl refl,
        section-object (codes "redis") read_redis (object (redis_fields d)) fields c2 refl refl,
        section-object (codes "log") read_log (object (log_fields d)) fields c3 refl refl,
        read_server-object d c1,
        read_redis-object d c2,
        read_log-object d c3,
      )

module _ ⦃json : JsonLib⦄ where
  -- The errors: a file that does not open or does not parse leaves the configuration alone; where the
  -- node id and a part "server" are fine and the size of the pool is no number, `load` gives false, with
  -- the node id, the server and the URL of the file kept and the rest as before.
  pub load-errors :
      (text garbled : Str) (config redis : json.Json) (id url : Str) (c c' : Config)
      → json.parse garbled ≡ none
      → json.parse text ≡ some config
      → json.string_or config (codes "node_id") (codes "node-default") ≡ some id
      → section (codes "server") read_server config (record c { node_id = id }) ≡ done c' tt
      → json.contains config (codes "redis") ≡ true
      → json.subscript config (codes "redis") ≡ some redis
      → json.string_or redis (codes "url") (codes "redis://localhost:6379") ≡ some url
      → json.int_or redis (codes "pool_size") (pos 10) ≡ none
      → (load none c ≡ (c, false))
        × (load (some garbled) c ≡ (c, false))
        × (load (some text) c ≡ (record c' { redis_url = url }, false))
  unfolding load read_config section read_redis
  load-errors text garbled config redis id url c c' e0 e e1 e2 e3 e4 e5 e6 =
      (refl, ground arith, ground arith)

chosen_id-ne : (hostname : Str) (pid : ℤ) (c : Config) → is_empty (chosen_id hostname pid c) ≡ false
chosen_id-ne hostname pid c = elim (Bool-cases (is_empty c.node_id)) [
  | inl e ↦ ground (arith, joined-ne hostname (codes "-" ++ to_string pid) refl)
  | inr e ↦ ground (arith, joined-ne hostname (codes "-" ++ to_string pid) refl)
]
  where
    joined-ne : (s t : Str) → is_empty t ≡ false → is_empty (s ++ t) ≡ false
    joined-ne [] t h = h
    joined-ne (a ∷ s) t h = refl

-- `getLocalNodeId` gives the same id in every later call, whatever configuration was loaded in between,
-- and never an empty one.
pub get_local_node_id-stable :
    (hostname : Str) (pid : ℤ) (c d : Config) (cached : Str)
    → let (id, cached') = get_local_node_id hostname pid c cached in
      (get_local_node_id hostname pid d cached' ≡ (id, cached')) × (is_empty id ≡ false)
unfolding get_local_node_id
get_local_node_id-stable hostname pid c d [] =
    (ground (arith, chosen_id-ne hostname pid c), chosen_id-ne hostname pid c)
get_local_node_id-stable hostname pid c d (a ∷ cached) = (refl, refl)
