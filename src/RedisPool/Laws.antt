-- ===== src/RedisPool/Laws.antt =====
-- The Redis pool: who gets a connection, and that `stop` is for good.
use cluster_chat_server_soft.Prelude.{
  ℕ, zero, suc, ◌+◌, ◌≡◌, ◌≢◌, true, false, Option, none, some, List, [], ◌∷◌, ◌++◌, arith, length,
  length-append,
}
use cluster_chat_server_soft.Prelude.Int.{ℤ, pos, ltb_ℤ}
use cluster_chat_server_soft.RedisPool.{
  RedisPool, Acquired, got, null, blocked, acquire, release, stop, init_connections,
}

-- How many of the rounds i, i + 1, … make a connection.
unfoldable pub successes : (ℕ → Option ℕ) → ℕ → ℕ → ℕ
successes connect i zero = 0
successes connect i (suc rounds) =
    (elim (connect i) [ none ↦ 0 | some conn ↦ 1 ]) + successes connect (i + 1) rounds

-- `init` goes on after a connection that fails: the pool gains one connection for each round that
-- succeeds.
pub init_connections-length :
    (connect : ℕ → Option ℕ) (i rounds : ℕ) (cs : List ℕ)
    → length (init_connections connect i rounds cs) ≡ length cs + successes connect i rounds
unfolding init_connections successes
init_connections-length connect i zero cs = omega arith
init_connections-length connect i (suc rounds) cs =
    grind (arith, init_connections-length connect (i + 1) rounds, length-append)

-- A call on the pool by some thread.
pub data Call : Type 0 where
  acquires : ℤ → (RedisPool → RedisPool) → Call
  releases : Option ℕ → Call
  stops : Call

abbrev pub pool_of : Acquired → RedisPool
pool_of (got conn p) = p
pool_of (null p) = p
pool_of (blocked p) = p

unfoldable pub step : RedisPool → Call → RedisPool
unfolding acquire release stop
step p (acquires timeout_ms wait) = pool_of (acquire timeout_ms wait p)
step p (releases conn) = release conn p
step p stops = stop p

unfoldable pub run : RedisPool → List Call → RedisPool
unfolding step
run p [] = p
run p (c ∷ cs) = run (step p c) cs

step-stopped : (p : RedisPool) (c : Call) → p.stopped ≡ true → (step p c).stopped ≡ true
unfolding step
step-stopped p (acquires timeout_ms wait) h = ground arith
step-stopped p (releases none) h = h
step-stopped p (releases (some conn)) h = h
step-stopped p stops h = ground arith

run-stopped : (p : RedisPool) (cs : List Call) → p.stopped ≡ true → (run p cs).stopped ≡ true
unfolding run
run-stopped p [] h = h
run-stopped p (c ∷ cs) h = run-stopped (step p c) cs (step-stopped p c h)

-- Once the pool was stopped no call ever gets a connection again, also where connections came back
-- after the stop, and no call waits.
pub acquire-stop :
    (p : RedisPool) (cs : List Call) (timeout_ms : ℤ) (wait : RedisPool → RedisPool)
    → let q = run (stop p) cs in acquire timeout_ms wait q ≡ null q
unfolding acquire stop
acquire-stop p cs timeout_ms wait =
    let h : (run (stop p) cs).stopped ≡ true = run-stopped (stop p) cs (ground arith) in
    ground arith

-- With a positive timeout no call waits forever: it returns a connection or null.
pub acquire-ne-blocked :
    (p q : RedisPool) (timeout_ms : ℤ) (wait : RedisPool → RedisPool)
    → ltb_ℤ (pos 0) timeout_ms ≡ true
    → acquire timeout_ms wait p ≢ blocked q
unfolding acquire
acquire-ne-blocked p q timeout_ms wait h e = ground arith

-- A running pool hands out the connection that has been free longest, without a wait, and one that
-- comes back goes behind all the others: after `acquire` and `release` the queue is rotated.
pub release-acquire :
    (p : RedisPool) (c : ℕ) (rest : List ℕ) (timeout_ms : ℤ) (wait : RedisPool → RedisPool)
    → p.stopped ≡ false
    → p.connections ≡ c ∷ rest
    → (acquire timeout_ms wait p ≡ got c (record p { connections = rest }))
      × (release (some c) (pool_of (acquire timeout_ms wait p))
          ≡ record p { connections = rest ++ c ∷ [] })
unfolding acquire release
release-acquire p c rest timeout_ms wait s e = (ground arith, ground arith)
