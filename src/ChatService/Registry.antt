-- ===== src/ChatService/Registry.antt =====
-- What the handlers make of `userConnMap_` and `groupMembers_`, as a specification: who is connected
-- over which connection, and who is a local member of which group.
use cluster_chat_server_soft.Prelude.{
  ℕ, ◌≡◌, Bool, true, false, not, ◌&&◌, ◌||◌, ◌==◌, ◌⊎◌, inl, inr, Option, none, some, List, [],
  ◌∷◌, Bool-cases, arith, if◌then◌else◌,
}
use cluster_chat_server_soft.Prelude.Int.{ℤ, negsuc, eq_ℤ, eq_ℤ_iff, eq_ℤ_refl}
use cluster_chat_server_soft.Prelude.IntMap.{lookup, HasUniqueKeys}
use cluster_chat_server_soft.Model.User.{User}
use cluster_chat_server_soft.ChatService.State.{TcpConnection}
use cluster_chat_server_soft.ChatService.Session.{user_of}

pub record View : Type 0 where
  pub conn : ℤ → Option TcpConnection
  pub member : ℤ → ℤ → Bool

pub record Same (v w : View) : Type 0 where
  pub conns : (j : ℤ) → w.conn j ≡ v.conn j
  pub members : (g u : ℤ) → w.member g u ≡ v.member g u

-- The steps: the successful branch of `login`, the end that `joinGroup` and `createGroup` share,
-- `loginOut`, and a connection that closes.
pub data Event : Type 0 where
  enters : TcpConnection → ℤ → User → Event
  joins : ℤ → ℤ → Event
  leaves : ℤ → Event
  closes : TcpConnection → Event

-- A user who is connected keeps the connection.
abbrev pub after_enters : TcpConnection → ℤ → View → View
after_enters c id v = record v {
  conn = λ j. elim (v.conn j) [ some d ↦ some d | none ↦ if eq_ℤ id j then some c else none ];
}

abbrev pub after_joins : ℤ → ℤ → View → View
after_joins id g v = record v { member = λ h u. (eq_ℤ g h && eq_ℤ id u) || v.member h u }

abbrev pub disconnected : ℤ → View → View
disconnected id v = record v { conn = λ j. if eq_ℤ id j then none else v.conn j }

abbrev pub after_leaves : ℤ → View → View
after_leaves id v = record (disconnected id v) { member = λ g u. not (eq_ℤ id u) && v.member g u }

-- Somebody is connected over the connection.
abbrev pub IsOver : TcpConnection → ℤ → View → Type 0
IsOver c id v = (d : TcpConnection) × (v.conn id ≡ some d) × ((d.handle == c.handle) ≡ true)

-- A connection that closes takes one user of it away, whichever; there may be none. -1 stands for
-- "not found" in the code, so a user with this id loses the connection only.
abbrev pub Closes : TcpConnection → View → View → Type 0
Closes c v w =
    (((id : ℤ) → (d : TcpConnection) → v.conn id ≡ some d → (d.handle == c.handle) ≡ false)
      × Same v w)
    ⊎ ((id : ℤ) × IsOver c id v
        × Same (if eq_ℤ id (negsuc 0) then disconnected id v else after_leaves id v) w)

-- What an event may make of a view.
abbrev pub Does : Event → View → View → Type 0
Does (enters c id user) v w = Same (after_enters c id v) w
Does (joins id g) v w = Same (after_joins id g v) w
Does (leaves id) v w = Same (after_leaves id v) w
Does (closes c) v w = Closes c v w

abbrev pub DoesAll : List Event → View → View → Type 0
DoesAll [] v w = Same v w
DoesAll (e ∷ events) v w = (u : View) × Does e v u × DoesAll events u w

pub user_of-IsOver :
    (handle : ℕ) (m : List (ℤ × TcpConnection)) (id : ℤ)
    → HasUniqueKeys m
    → user_of handle m ≡ some id
    → (d : TcpConnection) × (lookup id m ≡ some d) × ((d.handle == handle) ≡ true)
unfolding user_of lookup
user_of-IsOver handle [] id h e = cc
user_of-IsOver handle ((k, c) ∷ m) id h e = elim (Bool-cases (c.handle == handle)) [
  | inl same ↦ (c, ground (arith, eq_ℤ_refl k), same)
  | inr other ↦
      let (d, found, same) = user_of-IsOver handle m id h.1 (ground arith) in
      (d, ground (arith, eq_ℤ_iff k id), same)
]

pub user_of-none :
    (handle : ℕ) (m : List (ℤ × TcpConnection)) (id : ℤ) (d : TcpConnection)
    → user_of handle m ≡ none
    → lookup id m ≡ some d
    → (d.handle == handle) ≡ false
unfolding user_of lookup
user_of-none handle [] id d e found = cc
user_of-none handle ((k, c) ∷ m) id d e found = elim (Bool-cases (c.handle == handle)) [
  | inl same ↦ ground arith
  | inr other ↦ elim (Bool-cases (eq_ℤ k id)) [
    | inl eq ↦ ground arith
    | inr ne ↦ user_of-none handle m id d (ground arith) (ground arith)
  ]
]
