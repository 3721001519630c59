-- ===== src/MysqlPool/Enough.antt =====
-- `MySQLConnectionPool::getConnection` under several threads, with a connection for each of them.
use cluster_chat_server_soft.Prelude.{
  ℕ, zero, suc, ◌+◌, ◌≤◌, ◌<◌, ◌≡◌, refl, ◌≢◌, ◌⊎◌, inl, inr, Option, none, some, List, [], ◌∷◌,
  length, arith, ◌==◌, true, false, Bool-cases, List-cases, ==_iff, ap, ltb,
}
use cluster_chat_server_soft.MysqlPool.Race.{Phase, Threads, update, check, take_front, step, run}

-- Is the thread in a call?
abbrev pub one : Phase → ℕ
one Phase.calling = 1
one Phase.passed = 1
one Phase.fault = 0
one (Phase.returned r) = 0

-- How many of the threads below `n` are in a call.
abbrev pub pending : ℕ → (ℕ → Phase) → ℕ
pending zero f = 0
pending (suc n) f = one (f n) + pending n f

pending-update_above :
    (n t : ℕ) (f : ℕ → Phase) (p : Phase) → n ≤ t → pending n (update f t p) ≡ pending n f
pending-update_above zero t f p h = refl
pending-update_above (suc n) t f p h = ground (arith, pending-update_above n t f p (omega arith))

pending-update_below :
    (n t : ℕ) (f : ℕ → Phase) (p : Phase)
    → t < n
    → pending n (update f t p) + one (f t) ≡ pending n f + one p
pending-update_below zero t f p h = omega arith
pending-update_below (suc n) t f p h = elim (Bool-cases (t == n)) [
  | inl e ↦
      let q = (==_iff t n).0 e in
      grind (arith, ap f q, pending-update_above n t f p (omega (arith, q)))
  | inr e ↦
      let ne = (==_iff t n).1 in ground (arith, pending-update_below n t f p (ground (arith, ne)))
]

Phase-cases :
    (p : Phase)
    → (p ≡ Phase.calling)
      ⊎ ((p ≡ Phase.passed) ⊎ ((p ≡ Phase.fault) ⊎ ((r : Option ℕ) × (p ≡ Phase.returned r))))
Phase-cases Phase.calling = inl refl
Phase-cases Phase.passed = inr (inl refl)
Phase-cases Phase.fault = inr (inr (inl refl))
Phase-cases (Phase.returned r) = inr (inr (inr (r, refl)))

-- Only threads below `n` are in a call, no thread has faulted or got the null pointer, and there is a
-- connection for each call.
pub record HasEnough (n : ℕ) (s : Threads) : Type 0 where
  pub others : (t : ℕ) → n ≤ t → one (s.phase t) ≡ 0
  pub sound : (t : ℕ) → s.phase t ≢ Phase.fault
  pub served : (t : ℕ) → s.phase t ≢ Phase.returned none
  pub enough : pending n s.phase ≤ length s.connections

below : (n t : ℕ) (s : Threads) → one (s.phase t) ≡ 1 → HasEnough n s → t < n
below n t s e h = elim (Bool-cases (ltb t n)) [
  | inl lt ↦ ground arith
  | inr ge ↦ ground (arith, h.others t)
]

-- A move of a thread below `n` that does not end in a fault.
moved-HasEnough :
    (n t : ℕ) (s : Threads) (p : Phase) (cs : List ℕ)
    → t < n
    → p ≢ Phase.fault
    → p ≢ Phase.returned none
    → pending n (update s.phase t p) ≤ length cs
    → HasEnough n s
    → HasEnough n (record { connections = cs; phase = update s.phase t p })
moved-HasEnough n t s p cs lt ne nn le h = record {
  others = λ u ge. ground (arith, h.others u);
  sound = λ u. either Phase.fault ne h.sound u (Bool-cases (t == u));
  served = λ u. either (Phase.returned none) nn h.served u (Bool-cases (t == u));
  enough = le;
}
  where
    either :
        (q : Phase)
        → p ≢ q
        → ((u : ℕ) → s.phase u ≢ q)
        → (u : ℕ) → ((t == u) ≡ true) ⊎ ((t == u) ≡ false)
        → update s.phase t p u ≢ q
    either q ne all u (inl e) = rw e ne
    either q ne all u (inr e) = rw e (all u)

check-HasEnough :
    (n t : ℕ) (s : Threads) → s.phase t ≡ Phase.calling → HasEnough n s → HasEnough n (check t s)
unfolding check
check-HasEnough n t s e h =
    let lt = below n t s (ap (λ p. one p) e) h in
    let moves = pending-update_below n t s.phase Phase.passed lt in
    let counts = pending-update_below n t s.phase Phase.fault lt in
    elim (List-cases s.connections) [
      | inl q ↦ ground (arith, counts, h.enough, q)
      | inr (conn, rest, q) ↦
          rw (q, check)
            (moved-HasEnough n t s Phase.passed s.connections lt (λ x. cc) (λ x. cc)
              (ground (arith, moves, h.enough)) h)
    ]

take_front-HasEnough :
    (n t : ℕ) (s : Threads)
    → s.phase t ≡ Phase.passed
    → HasEnough n s
    → HasEnough n (take_front t s)
unfolding take_front
take_front-HasEnough n t s e h =
    let lt = below n t s (ap (λ p. one p) e) h in
    let counts = pending-update_below n t s.phase Phase.fault lt in
    elim (List-cases s.connections) [
      | inl q ↦ ground (arith, counts, h.enough, q)
      | inr (conn, rest, q) ↦
          let moves = pending-update_below n t s.phase (Phase.returned (some conn)) lt in
          rw (q, take_front)
            (moved-HasEnough n t s (Phase.returned (some conn)) rest lt (λ x. cc) (λ x. cc)
              (ground (arith, moves, h.enough, q)) h)
    ]

step-HasEnough : (n t : ℕ) (s : Threads) → HasEnough n s → HasEnough n (step t s)
unfolding step
step-HasEnough n t s h = elim (Phase-cases (s.phase t)) [
  | inl e ↦ rw (e, step) (check-HasEnough n t s e h)
  | inr (inl e) ↦ rw (e, step) (take_front-HasEnough n t s e h)
  | inr (inr (inl e)) ↦ rw (e, step) h
  | inr (inr (inr (r, e))) ↦ rw (e, step) h
]

-- With at least as many free connections as threads in a call, no schedule reaches the undefined
-- `pop_front` or gives a null pointer, however the tests and the removals interleave: no thread has
-- faulted, none has got the null pointer, and the connections stay enough for the calls that are left.
pub run-HasEnough : (n : ℕ) (ts : List ℕ) (s : Threads) → HasEnough n s → HasEnough n (run ts s)
unfolding run
run-HasEnough n [] s h = h
run-HasEnough n (t ∷ ts) s h = run-HasEnough n ts (step t s) (step-HasEnough n t s h)
