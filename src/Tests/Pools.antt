-- ===== src/Tests/Pools.antt =====
-- The theorems on the pools at concrete inputs.
use cluster_chat_server_soft.Prelude.{
  ℕ, ◌≡◌, refl, false, Option, none, some, List, [], ◌∷◌, ◌++◌, ◌+◌, ◌==◌, arith, if◌then◌else◌,
}
use cluster_chat_server_soft.Prelude.Int.{pos}
use cluster_chat_server_soft.MysqlPool.{MysqlPool}
use cluster_chat_server_soft.MysqlPool.Laws.{Clients, Call}
use cluster_chat_server_soft.RedisPool.{RedisPool}
use cluster_chat_server_soft.RedisPool.Laws.{
  successes, init_connections-length, acquire-stop, acquire-ne-blocked, release-acquire, pool_of,
}
use cluster_chat_server_soft.RedisPool.Laws
use cluster_chat_server_soft.MysqlPool.Race.{
  Threads, Phase, IsQuiet, serial, run-fault, run-serial-IsQuiet,
}
use cluster_chat_server_soft.MysqlPool.Race
use cluster_chat_server_soft.MysqlPool.Instance.{schedule, untouched, returned, schedule-one}
use cluster_chat_server_soft.MysqlPool.Enough.{HasEnough, run-HasEnough}
use cluster_chat_server_soft.Prelude.{ltb}

-- Rounds 0 and 1 connect, and round 2 throws.
abbrev pub two_rounds : ℕ → Option ℕ
two_rounds i = if i == 2 then none else some (i + 7)

abbrev pub mysql_pool : List ℕ → MysqlPool
mysql_pool connections = record {
  url = [];
  database_name = [];
  user = [];
  password = [];
  pool_size = 3;
  connections = connections;
}

abbrev pub redis_pool : List ℕ → RedisPool
redis_pool connections = record {
  host = [];
  port = pos 6379;
  password = [];
  stopped = false;
  connections = connections;
}

abbrev one_lent : Clients
one_lent = record { pool = mysql_pool (7 ∷ []); lent = 8 ∷ [] }

abbrev calls : List Call
calls = Call.gets ∷ Call.gets ∷ Call.gives 8 ∷ Call.gives 9 ∷ []

-- While the call waits, another thread gives back connection 5.
abbrev given_five : RedisPool → RedisPool
given_five p = record p { connections = p.connections ++ 5 ∷ [] }

abbrev pool_calls : List Laws.Call
pool_calls = Laws.Call.releases (some 4) ∷ Laws.Call.acquires (pos 10) given_five ∷ []

abbrev one_left : Threads
one_left = record { connections = 7 ∷ []; phase = λ t. Phase.calling }

run-fault_example :
    let s' = Race.run (1 ∷ 2 ∷ 1 ∷ 2 ∷ []) one_left in
    (s'.phase 1 ≡ Phase.returned (some 7)) × (s'.phase 2 ≡ Phase.fault)
run-fault_example = run-fault one_left 1 2 7 (λ e. omega arith) refl refl refl

-- Threads 0 and 1 call, and two connections are free.
abbrev two_left : Threads
two_left = record {
  connections = 7 ∷ 8 ∷ [];
  phase = λ t. if ltb t 2 then Phase.calling else Phase.returned (some 9);
}

two_left-HasEnough : HasEnough 2 two_left
two_left-HasEnough = record {
  others = λ t ge. ground arith;
  sound = λ t e. ground arith;
  served = λ t e. ground arith;
  enough = omega arith;
}

run-HasEnough_example : HasEnough 2 (Race.run (0 ∷ 1 ∷ 0 ∷ 1 ∷ []) two_left)
run-HasEnough_example = run-HasEnough 2 (0 ∷ 1 ∷ 0 ∷ 1 ∷ []) two_left two_left-HasEnough

-- Both threads pass the first test, and the first makes the pool.
abbrev both : List ℕ
both = 0 ∷ 1 ∷ 0 ∷ 1 ∷ 0 ∷ 0 ∷ 0 ∷ 1 ∷ 1 ∷ 1 ∷ 1 ∷ []

abbrev first_pool : Option ℕ
first_pool = some 0

second_returned : (schedule both untouched).phase 1 ≡ returned first_pool
unfolding schedule
second_returned = refl

schedule-one_example : (first_pool ≡ some 0) × ((schedule both untouched).made ≡ 1)
schedule-one_example = schedule-one both 1 first_pool second_returned
