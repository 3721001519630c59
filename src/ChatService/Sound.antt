-- ===== src/ChatService/Sound.antt =====
-- The invariant of the service's state, and the calls on the parts that keep it.
use cluster_chat_server_soft.Prelude.{ℕ, ◌≤◌, ◌≡◌, refl, Option, none, some, List, Bool, All, arith}
use cluster_chat_server_soft.Prelude.Int.{ℤ}
use cluster_chat_server_soft.Prelude.Increasing.{IsIncreasing}
use cluster_chat_server_soft.Prelude.IntMap.{HasUniqueKeys}
use cluster_chat_server_soft.Prelude.Text.{Str}
use cluster_chat_server_soft.External.Sql.{SqlServer}
use cluster_chat_server_soft.External.Redis.{RedisServer}
use cluster_chat_server_soft.Model.Connection.{Mysql}
use cluster_chat_server_soft.Model.OfflineMessage.{Offline, insert}
use cluster_chat_server_soft.Model.Lending.{free, AddsNone, insert-AddsNone}
use cluster_chat_server_soft.RedisClient.Core.{Client}
use cluster_chat_server_soft.RedisClient.Subscriber.{Subs}
use cluster_chat_server_soft.ChatService.State.{
  TcpConnection, State, send, on_mysql, on_redis, do_mysql, do_redis, do_subs, set_user_conn_map,
  set_group_members, after_insert, insert_offline,
}
use cluster_chat_server_soft.ChatService.Keeps.{Keeps, Leaves}

-- Each set holds its elements in increasing order.
abbrev pub AreIncreasing : List (ℤ × List ℤ) → Type 0
AreIncreasing = All (λ kv. IsIncreasing kv.1)

-- Each map has a key once, and each set an element once.
abbrev pub AreMembers : List (ℤ × List ℤ) → Type 0
AreMembers m = HasUniqueKeys m × AreIncreasing m

pub record IsSound ⦃sql : SqlServer⦄ ⦃redis : RedisServer⦄ (s : State) : Type 0 where
  pub conns : HasUniqueKeys s.user_conn_map
  pub members : AreMembers s.group_members
  pub lending : (c : ℕ) → free c s.mysql ≤ 1

-- `R` follows when a message is not stored within the fuel.
abbrev pub Ends : ⦃sql : SqlServer⦄ → ℕ → Type 0 → Type 0
Ends ⦃sql = sql⦄ fuel R =
    (userid : ℤ) (message : Str) (t : Offline sql.Db) → insert fuel userid message t ≡ none → R

module _ {R : Type 0} ⦃sql : SqlServer⦄ ⦃redis : RedisServer⦄ where
  pub Keeps-send : (handle : ℕ) (text : Str) → Keeps R IsSound (send handle text)
  Keeps-send handle text = record {
    at = λ s h. record { conns = h.conns; members = h.members; lending = h.lending };
  }

  pub Keeps-on_mysql :
      {A : Type 0} (f : Mysql sql.Db → Mysql sql.Db × A)
      → ((m : Mysql sql.Db) → AddsNone m (f m).0)
      → Keeps R IsSound (on_mysql f)
  Keeps-on_mysql f adds = record {
    at = λ s h. record {
      conns = h.conns;
      members = h.members;
      lending = λ c. omega (arith, adds s.mysql c, h.lending c);
    };
  }

  pub Keeps-do_mysql :
      (f : Mysql sql.Db → Mysql sql.Db)
      → ((m : Mysql sql.Db) → AddsNone m (f m))
      → Keeps R IsSound (do_mysql f)
  Keeps-do_mysql f adds = record {
    at = λ s h. record {
      conns = h.conns;
      members = h.members;
      lending = λ c. omega (arith, adds s.mysql c, h.lending c);
    };
  }

  pub Keeps-on_redis : {A : Type 0} (f : Client → Client × A) → Keeps R IsSound (on_redis f)
  Keeps-on_redis f = record {
    at = λ s h. record { conns = h.conns; members = h.members; lending = h.lending };
  }

  pub Keeps-do_redis : (f : Client → Client) → Keeps R IsSound (do_redis f)
  Keeps-do_redis f = record {
    at = λ s h. record { conns = h.conns; members = h.members; lending = h.lending };
  }

  pub Keeps-do_subs : (f : Subs → Subs) → Keeps R IsSound (do_subs f)
  Keeps-do_subs f = record {
    at = λ s h. record { conns = h.conns; members = h.members; lending = h.lending };
  }

  pub Keeps-set_user_conn_map :
      (f : List (ℤ × TcpConnection) → List (ℤ × TcpConnection))
      → ((m : List (ℤ × TcpConnection)) → HasUniqueKeys m → HasUniqueKeys (f m))
      → Keeps R IsSound (set_user_conn_map f)
  Keeps-set_user_conn_map f unique = record {
    at = λ s h. record {
      conns = unique s.user_conn_map h.conns;
      members = h.members;
      lending = h.lending;
    };
  }

  pub Keeps-set_group_members :
      (f : List (ℤ × List ℤ) → List (ℤ × List ℤ))
      → ((m : List (ℤ × List ℤ)) → AreMembers m → AreMembers (f m))
      → Keeps R IsSound (set_group_members f)
  Keeps-set_group_members f keeps = record {
    at = λ s h. record {
      conns = h.conns;
      members = keeps s.group_members h.members;
      lending = h.lending;
    };
  }

  after_insert-IsSound :
      (s : State) (o : Option (Offline sql.Db × Bool))
      → (o ≡ none → R)
      → ((t : Offline sql.Db) (ok : Bool) → o ≡ some (t, ok) → AddsNone s.mysql t.mysql)
      → IsSound s
      → Leaves R IsSound (after_insert s o)
  after_insert-IsSound s none r adds h = r refl
  after_insert-IsSound s (some (t, ok)) r adds h = record {
    conns = h.conns;
    members = h.members;
    lending = λ c. omega (arith, adds t ok refl c, h.lending c);
  }

  pub Keeps-insert_offline :
      (fuel : ℕ) (userid : ℤ) (message : Str)
      → Ends fuel R
      → Keeps R IsSound (insert_offline fuel userid message)
  Keeps-insert_offline fuel userid message r = record {
    at = λ s h.
        after_insert-IsSound s _ (r userid message _)
          (λ t ok e. insert-AddsNone fuel userid message _ t ok e) h;
  }
