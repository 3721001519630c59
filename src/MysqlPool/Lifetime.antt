-- ===== src/MysqlPool/Lifetime.antt =====
-- How a pool begins and ends.
use mathlib.Core.List.{append_assoc, append-nil}
use cluster_chat_server_soft.Prelude.{
  ℕ, ◌+◌, ◌≡◌, refl, Bool, none, List, [], ◌∷◌, ◌++◌, if◌then◌else◌, arith,
}
use cluster_chat_server_soft.MysqlPool.{
  MysqlPool, get_connection, Destroyed, destroy_all, destroy_connection_pool,
}

-- How many of the connections `close` fails on.
unfoldable pub failures : (ℕ → Bool) → List ℕ → ℕ
failures close [] = 0
failures close (conn ∷ rest) = (if close conn then 0 else 1) + failures close rest

destroy_all-deleted :
    (close : ℕ → Bool) (cs : List ℕ) (d : Destroyed)
    → destroy_all close cs d
      ≡ record { deleted = d.deleted ++ cs; logged = d.logged + failures close cs }
unfolding destroy_all failures
destroy_all-deleted close [] d = ground (arith, append-nil d.deleted)
destroy_all-deleted close (conn ∷ rest) d = ground (
  arith,
  destroy_all-deleted close rest (record {
    deleted = d.deleted ++ conn ∷ [];
    logged = if close conn then d.logged else d.logged + 1;
  }),
  append_assoc d.deleted (conn ∷ []) rest,
)

-- The destruction of a pool deletes every free connection once, in order, whichever of them fail to
-- close, logs one error for each failure, and leaves a pool that has no connection to give.
pub destroy_connection_pool-deleted :
    (close : ℕ → Bool) (p : MysqlPool)
    → let (p', d) = destroy_connection_pool close p in
      (d.deleted ≡ p.connections)
      × (d.logged ≡ failures close p.connections)
      × (get_connection p' ≡ none)
unfolding destroy_connection_pool get_connection
destroy_connection_pool-deleted close p =
    let e = destroy_all-deleted close p.connections (record { deleted = []; logged = 0 }) in
    (ground (arith, e), ground (arith, e), refl)
