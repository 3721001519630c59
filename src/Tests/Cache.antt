-- ===== src/Tests/Cache.antt =====
-- Redis in memory: hashes, lists, texts and the channels of a subscriber.
use cluster_chat_server_soft.Prelude.{
  ℕ, ◌≡◌, refl, sym, ap, Bool, false, not, ◌&&◌, ◌||◌, Option, none, some, List, [], ◌∷◌,
  if◌then◌else◌,
}
use cluster_chat_server_soft.Prelude.Text.{Str, str_eq}
use cluster_chat_server_soft.External.{Outcome, done, threw}
use cluster_chat_server_soft.External.Redis.{
  RedisServer, Write, hset, hdel, set, set_ex, del, expire, sadd, lpush, publish,
}
use cluster_chat_server_soft.RedisClient.Laws.{Serves, HashTable, ListTable}
use cluster_chat_server_soft.RedisClient.Channels.{SubscriberLaws, Connected}

-- Hashes, lists and texts as functions, and the channels that a subscriber listens to. Sets and times
-- to live are not kept.
pub record Cache : Type 0 where
  pub hashes : Str → Str → Option Str
  pub lists : Str → List Str
  pub texts : Str → Option Str

-- The state that a call leaves.
abbrev final : {S A : Type 0} → Outcome S A → S
final (done s a) = s
final (threw s) = s

abbrev pub run_write : ℕ → Write → Cache → Outcome Cache (Unit {0})
run_write conn (hset key field value) s =
    done
      (record s {
        hashes = λ k f. if str_eq key k && str_eq field f then some value else s.hashes k f;
      })
      tt
run_write conn (hdel key field) s =
    done
      (record s { hashes = λ k f. if str_eq key k && str_eq field f then none else s.hashes k f })
      tt
run_write conn (set key value) s =
    done (record s { texts = λ k. if str_eq key k then some value else s.texts k }) tt
run_write conn (set_ex key value ttl) s =
    done (record s { texts = λ k. if str_eq key k then some value else s.texts k }) tt
run_write conn (del key) s =
    done
      (record s {
        lists = λ k. if str_eq key k then [] else s.lists k;
        texts = λ k. if str_eq key k then none else s.texts k;
      })
      tt
run_write conn (expire key ttl) s = done s tt
run_write conn (sadd key value) s = done s tt
run_write conn (lpush key value) s =
    done (record s { lists = λ k. if str_eq key k then value ∷ s.lists k else s.lists k }) tt
run_write conn (publish channel message) s = done s tt

abbrev pub cache : RedisServer
cache = record {
  Store = Cache;
  write = run_write;
  hget = λ conn key field s. done s (s.hashes key field);
  get = λ conn key s. done s (s.texts key);
  lrange = λ conn key s. done s (s.lists key);
  sismember = λ conn key value s. done s false;
  Sub = Str → Bool;
  subscribe = λ channel sub. done (λ c. str_eq channel c || sub c) tt;
  unsubscribe = λ channel sub. done (λ c. not (str_eq channel c) && sub c) tt;
}

pub cache-Serves : Serves cache
cache-Serves = record {
  writes = λ conn w s. runs w s;
  hgets = λ conn key field s. (s, s.hashes key field, refl);
  lranges = λ conn key s. (s, s.lists key, refl);
}
  where
    runs : (w : Write) (s : Cache) → (s' : Cache) × (run_write 0 w s ≡ done s' tt)
    runs (hset key field value) s = (_, refl)
    runs (hdel key field) s = (_, refl)
    runs (set key value) s = (_, refl)
    runs (set_ex key value ttl) s = (_, refl)
    runs (del key) s = (_, refl)
    runs (expire key ttl) s = (_, refl)
    runs (sadd key value) s = (_, refl)
    runs (lpush key value) s = (_, refl)
    runs (publish channel message) s = (_, refl)

abbrev pub cached_hash : Cache → Str → Str → Option Str
cached_hash s = s.hashes

abbrev pub cached_list : Cache → Str → List Str
cached_list s = s.lists

pub cache-HashTable : HashTable cache cached_hash
cache-HashTable = record {
  hset_done = λ conn key field value k f s s' e.
      sym (ap (λ (o : Outcome Cache (Unit {0})). (final o).hashes k f) e);
  hdel_done = λ conn key field k f s s' e.
      sym (ap (λ (o : Outcome Cache (Unit {0})). (final o).hashes k f) e);
  expire_done = λ conn key k f ttl s s' e. cc;
  hget_done = λ conn key field s s' v e. cc;
}

pub cache-ListTable : ListTable cache cached_list
cache-ListTable = record {
  lpush_done =
      λ conn key value k s s' e. sym (ap (λ (o : Outcome Cache (Unit {0})). (final o).lists k) e);
  del_done = λ conn key k s s' e. sym (ap (λ (o : Outcome Cache (Unit {0})). (final o).lists k) e);
  lrange_done = λ conn key k s s' vs e. (cc, cc);
}

abbrev pub hears : (Str → Bool) → Str → Bool
hears sub = sub

pub cache-SubscriberLaws : SubscriberLaws cache hears
cache-SubscriberLaws = record {
  subscribe_done =
      λ channel c s s' e. sym (ap (λ (o : Outcome (Str → Bool) (Unit {0})). final o c) e);
  subscribe_threw = λ channel c s s' e. cc;
  unsubscribe_done =
      λ channel c s s' e. sym (ap (λ (o : Outcome (Str → Bool) (Unit {0})). final o c) e);
  unsubscribe_threw = λ channel c s s' e. cc;
}

pub cache-Connected : Connected cache
cache-Connected = record {
  subscribes = λ channel s. (_, refl);
  unsubscribes = λ channel s. (_, refl);
}
