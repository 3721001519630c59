-- ===== src/MysqlPool/Race.antt =====
-- `MySQLConnectionPool::getConnection` under several threads. The test `connections_.size() == 0`
-- is made before the mutex is taken, so a call is two steps: the test, and then, under the lock,
-- `front` and `pop_front`, which are undefined on an empty deque.
use cluster_chat_server_soft.Prelude.{
  ℕ, ◌≡◌, ◌≢◌, Option, none, some, List, [], ◌∷◌, arith, ◌==◌, if◌then◌else◌,
}

pub data Phase : Type 0 where
  calling passed fault : Phase
  returned : Option ℕ → Phase

pub record Threads : Type 0 where
  pub connections : List ℕ
  pub phase : ℕ → Phase

abbrev pub update : (ℕ → Phase) → ℕ → Phase → ℕ → Phase
update f t p u = if t == u then p else f u

-- `if (0 == connections_.size()) return nullptr;`
unfoldable pub check : ℕ → Threads → Threads
check t s = elim s.connections [
  | [] ↦ record s { phase = update s.phase t (Phase.returned none) }
  | conn ∷ rest ↦ record s { phase = update s.phase t Phase.passed }
]

-- `conn = connections_.front(); connections_.pop_front();` under the lock.
unfoldable pub take_front : ℕ → Threads → Threads
take_front t s = elim s.connections [
  | [] ↦ record s { phase = update s.phase t Phase.fault }
  | conn ∷ rest ↦ record s {
    connections = rest;
    phase = update s.phase t (Phase.returned (some conn));
  }
]

-- Thread `t` makes its next step.
unfoldable pub step : ℕ → Threads → Threads
unfolding check take_front
step t s = elim (s.phase t) [
  | Phase.calling ↦ check t s
  | Phase.passed ↦ take_front t s
  | Phase.fault ↦ s
  | Phase.returned r ↦ s
]

-- A schedule names the thread that moves.
unfoldable pub run : List ℕ → Threads → Threads
unfolding step
run [] s = s
run (t ∷ ts) s = run ts (step t s)

-- With one connection left, two different threads that begin a call and both test before either takes reach an undefined
-- `pop_front`: the first gets the connection, the second faults.
pub run-fault :
    (s : Threads) (a b c : ℕ)
    → a ≢ b
    → s.connections ≡ c ∷ []
    → s.phase a ≡ Phase.calling
    → s.phase b ≡ Phase.calling
    → let s' = run (a ∷ b ∷ a ∷ b ∷ []) s in
      (s'.phase a ≡ Phase.returned (some c)) × (s'.phase b ≡ Phase.fault)
unfolding run
run-fault s a b c ne e pa pb = ground arith

-- Each call is made whole before the next begins.
unfoldable pub serial : List ℕ → List ℕ
serial [] = []
serial (t ∷ ts) = t ∷ t ∷ serial ts

-- No thread has faulted, and none is between its test and its `pop_front`.
abbrev pub IsQuiet : Threads → Type 0
IsQuiet s = (t : ℕ) → (s.phase t ≢ Phase.fault) × (s.phase t ≢ Phase.passed)

call-IsQuiet : (t : ℕ) (s : Threads) → IsQuiet s → IsQuiet (step t (step t s))
unfolding step
call-IsQuiet t s q u = ground (arith, (q u).0, (q u).1, (q t).0, (q t).1)

-- A schedule that makes each call whole, test and `pop_front` together, never faults.
pub run-serial-IsQuiet : (ts : List ℕ) (s : Threads) → IsQuiet s → IsQuiet (run (serial ts) s)
unfolding run serial
run-serial-IsQuiet [] s q = q
run-serial-IsQuiet (t ∷ ts) s q = run-serial-IsQuiet ts (step t (step t s)) (call-IsQuiet t s q)
