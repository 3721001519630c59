-- ===== src/MysqlPool/Distinct.antt =====
-- What the pool is after `initConnection`, and that a connector that never makes the same connection twice gives a pool
-- without repetition.
use mathlib.Core.List.{append-nil, append_assoc}
use cluster_chat_server_soft.Prelude.{
  Bool, ◌++◌, ℕ, zero, suc, ◌+◌, ◌≤◌, ◌<◌, ◌≡◌, ◌==◌, Option, some, [], ◌∷◌, inl, inr, Option-cases,
  Bool-cases, arith,
}
use cluster_chat_server_soft.MysqlPool.{MysqlPool, create_connection, init_connection}
use cluster_chat_server_soft.MysqlPool.Laws.{made, count}

-- No two attempts make the same connection.
abbrev pub AreDistinct : (ℕ → Option ℕ) → Type 0
AreDistinct connect = (i j c : ℕ) → connect i ≡ some c → connect j ≡ some c → i ≡ j

-- A connection that was made comes from one of the rounds.
made_by :
    (connect : ℕ → Option ℕ) (c i rounds : ℕ)
    → 0 < count c (made connect i rounds)
    → (j : ℕ) × (i ≤ j) × (connect j ≡ some c)
unfolding made count
made_by connect c i zero h = absurd (omega (arith, h))
made_by connect c i (suc rounds) h = elim (Option-cases (connect i)) [
  | inl e ↦ absurd (omega (arith, rw (e, made, count) at h))
  | inr (d, e) ↦ elim (Bool-cases (c == d)) [
    | inl same ↦ (i, omega arith, ground arith)
    | inr other ↦
        let (j, le, q) = made_by connect c (i + 1) rounds (ground arith) in (j, omega arith, q)
  ]
]

pub count-made :
    (connect : ℕ → Option ℕ) (c i rounds : ℕ)
    → AreDistinct connect
    → count c (made connect i rounds) ≤ 1
unfolding made count
count-made connect c i zero distinct = omega arith
count-made connect c i (suc rounds) distinct =
    let rest = count-made connect c (i + 1) rounds distinct in
    elim (Option-cases (connect i)) [
      | inl e ↦ ground arith
      | inr (d, e) ↦ elim (Bool-cases (count c (made connect (i + 1) rounds) == 0)) [
        | inl none_left ↦ ground arith
        | inr again ↦ elim (Bool-cases (c == d)) [
          | inl same ↦
              let (j, le, q) = made_by connect c (i + 1) rounds (ground arith) in
              absurd (omega (arith, distinct i j c (ground arith) q))
          | inr other ↦ ground arith
        ]
      ]
    ]

-- `initConnection` changes nothing of the pool but its deque.
pub init_connection-made_only :
    (connect : ℕ → Option ℕ) (i rounds : ℕ) (p : MysqlPool)
    → (init_connection connect i rounds p).0
      ≡ record p { connections = p.connections ++ made connect i rounds }
unfolding init_connection made
init_connection-made_only connect i zero p = ground (arith, append-nil p.connections)
init_connection-made_only connect i (suc rounds) p = elim (Option-cases (connect i)) [
  | inl e ↦ ground (arith, append-nil p.connections)
  | inr (c, e) ↦ ground (
    arith,
    init_connection-made_only connect (i + 1) rounds
        (record p { connections = p.connections ++ c ∷ [] }),
    append_assoc p.connections (c ∷ []) (made connect (i + 1) rounds),
  )
]

pub create_connection-AreDistinct :
    (connect : ℕ → Option ℕ) (set_schema : ℕ → Bool)
    → AreDistinct connect
    → AreDistinct (create_connection connect set_schema)
unfolding create_connection
create_connection-AreDistinct connect set_schema distinct i j c e q =
    elim (Option-cases (connect i)) [
      | inl none_i ↦ absurd (ground arith)
      | inr (d, ei) ↦ elim (Option-cases (connect j)) [
        | inl none_j ↦ absurd (ground arith)
        | inr (d', ej) ↦ distinct i j c (ground arith) (ground arith)
      ]
    ]
