-- ===== src/MysqlPool/Laws.antt =====
-- The MySQL pool as a FIFO queue, under any history of calls.
use mathlib.Core.List.{append-nil, append_assoc}
use cluster_chat_server_soft.Prelude.{
  ℕ, zero, suc, ◌+◌, ◌≡◌, refl, sym, ◌∙◌, true, Option, none, some, List, [], ◌∷◌, ◌++◌, ◌↔◌, ◌<◌,
  inl, inr, ◌==◌, if◌then◌else◌, Option-cases, arith, length,
}
use cluster_chat_server_soft.MysqlPool.{
  MysqlPool, get_connection, release_connection, init_connection,
}

-- The connections made by rounds i, i + 1, … up to the first that throws.
unfoldable pub made : (ℕ → Option ℕ) → ℕ → ℕ → List ℕ
made connect i zero = []
made connect i (suc rounds) = elim (connect i) [
  | none ↦ []
  | some conn ↦ conn ∷ made connect (i + 1) rounds
]

-- After `initConnection` the deque holds, behind what it held, the connections made by the rounds
-- before the first that threw, in order; the loop runs to its end exactly when every round made one.
pub init_connection-made :
    (connect : ℕ → Option ℕ) (i rounds : ℕ) (p : MysqlPool)
    → let (q, all) = init_connection connect i rounds p in
      (q.connections ≡ p.connections ++ made connect i rounds)
      × ((all ≡ true) ↔ (length (made connect i rounds) ≡ rounds))
unfolding init_connection made
init_connection-made connect i zero p = (sym (append-nil p.connections), ground arith)
init_connection-made connect i (suc rounds) p = elim (Option-cases (connect i)) [
  | inl e ↦ rw (e, init_connection, made) (sym (append-nil p.connections), ground arith)
  | inr (c, e) ↦
      let q : MysqlPool = record p { connections = p.connections ++ c ∷ [] } in
      let ih = init_connection-made connect (i + 1) rounds q in
      rw (e, init_connection, made)
        (
          ih.0 ∙ append_assoc p.connections (c ∷ []) (made connect (i + 1) rounds),
          ((λ h. omega (arith, ih.1.0 h)), λ h. ih.1.1 (omega arith)),
        )
]

-- How often `c` occurs.
unfoldable pub count : ℕ → List ℕ → ℕ
count c [] = 0
count c (x ∷ xs) = (if c == x then 1 else 0) + count c xs

pub count-append : (c : ℕ) (xs ys : List ℕ) → count c (xs ++ ys) ≡ count c xs + count c ys
unfolding count
count-append c [] ys = omega arith
count-append c (x ∷ xs) ys = omega (arith, count-append c xs ys)

abbrev remove : ℕ → List ℕ → List ℕ
remove c [] = []
remove c (x ∷ xs) = if c == x then xs else x ∷ remove c xs

count-remove :
    (c d : ℕ) (xs : List ℕ)
    → 0 < count c xs
    → count d (remove c xs) + (if d == c then 1 else 0) ≡ count d xs
unfolding count
count-remove c d [] h = absurd (omega arith)
count-remove c d (x ∷ xs) h = ground (arith, count-remove c d xs)

-- The pool and the connections that its clients hold.
pub record Clients : Type 0 where
  pub pool : MysqlPool
  pub lent : List ℕ

pub data Call : Type 0 where
  gets : Call
  gives : ℕ → Call

-- A client asks for a connection, or gives back one that it holds.
unfoldable pub step : Clients → Call → Clients
unfolding count get_connection release_connection
step s Call.gets = elim (get_connection s.pool) [
  | none ↦ s
  | some (c, rest) ↦ record s { pool = rest; lent = c ∷ s.lent }
]
step s (Call.gives c) =
    if count c s.lent == 0
    then s
    else record s { pool = (release_connection (some c) s.pool).0; lent = remove c s.lent }

unfoldable pub run : Clients → List Call → Clients
unfolding step
run s [] = s
run s (c ∷ cs) = run (step s c) cs

abbrev pub held : ℕ → Clients → ℕ
held c s = count c s.pool.connections + count c s.lent

step-held : (c : ℕ) (s : Clients) (call : Call) → held c (step s call) ≡ held c s
unfolding step
step-held c s Call.gets = ground arith
step-held c s (Call.gives d) =
    ground (arith, count-append c s.pool.connections (d ∷ []), count-remove d c s.lent)

-- No history of calls loses a connection or makes one up: each occurs as often in the deque and
-- with the clients together as it did at the start.
pub run-held : (c : ℕ) (s : Clients) (calls : List Call) → held c (run s calls) ≡ held c s
unfolding run
run-held c s [] = refl
run-held c s (call ∷ calls) = run-held c (step s call) calls ∙ step-held c s call
