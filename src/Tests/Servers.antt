-- ===== src/Tests/Servers.antt =====
-- Tables in memory for MySQL.
use cluster_chat_server_soft.Prelude.{
  ℕ, ◌≡◌, refl, Bool, true, false, ◌&&◌, ◌||◌, List, [], ◌∷◌, ◌++◌, arith, if◌then◌else◌,
}
use cluster_chat_server_soft.Prelude.Int.{ℤ, pos, eq_ℤ, ltb_ℤ, eq_ℤ_iff}
use cluster_chat_server_soft.Prelude.Text.{Str}
use cluster_chat_server_soft.External.{Outcome, done, threw}
use cluster_chat_server_soft.External.Sql.{
  SqlServer, Update, UserRow, FriendRow, GroupRow, MemberRow, insert_user, set_state, reset_states,
  insert_friend, insert_group, insert_member, insert_message, delete_messages,
}
use cluster_chat_server_soft.Model.Friendship.{FriendTable, ReadsFriends, lists_id}
use cluster_chat_server_soft.Model.Retries.{Accepts, Refuses}
use cluster_chat_server_soft.Model.Kept.{MessageTable}

pub record Tables : Type 0 where
  pub users : List UserRow
  pub friends : List (ℤ × ℤ)
  pub groups : List GroupRow
  pub members : List (ℤ × ℤ)
  pub messages : List (ℤ × Str)

-- Is the row (a, b) there? The CHECK keeps the smaller id first.
unfoldable pub in_friends : List (ℤ × ℤ) → ℤ → ℤ → Bool
in_friends [] a b = false
in_friends ((x, y) ∷ rows) a b = (eq_ℤ x a && eq_ℤ y b && ltb_ℤ x y) || in_friends rows a b

unfoldable pub friends_of : List (ℤ × ℤ) → ℤ → List FriendRow
friends_of [] a = []
friends_of ((x, y) ∷ rows) a =
    if eq_ℤ x a && ltb_ℤ x y
    then record { id = y; name = []; state = [] } ∷ friends_of rows a
    else friends_of rows a

unfoldable pub users_with : List UserRow → ℤ → List UserRow
users_with [] id = []
users_with (r ∷ rows) id = if eq_ℤ r.id id then r ∷ users_with rows id else users_with rows id

unfoldable pub groups_of : List (ℤ × ℤ) → ℤ → List GroupRow
groups_of [] a = []
groups_of ((g, u) ∷ rows) a =
    if eq_ℤ u a
    then record { id = g; groupname = []; groupdesc = [] } ∷ groups_of rows a
    else groups_of rows a

unfoldable pub members_of : List (ℤ × ℤ) → ℤ → List MemberRow
members_of [] a = []
members_of ((g, u) ∷ rows) a =
    if eq_ℤ g a
    then record { id = u; name = []; state = []; role = [] } ∷ members_of rows a
    else members_of rows a

-- Updates; `refuses` makes the storing of messages throw.
abbrev pub run_update : Bool → ℕ → Update → Tables → Outcome Tables (Unit {0})
run_update refuses conn (insert_user name password state) db =
    done
      (record db {
        users = record { id = pos 9; name = name; password = password; state = state } ∷ db.users;
      })
      tt
run_update refuses conn (set_state state id) db = done db tt
run_update refuses conn reset_states db = done db tt
run_update refuses conn (insert_friend a b) db =
    if ltb_ℤ a b then done (record db { friends = (a, b) ∷ db.friends }) tt else threw db
run_update refuses conn (insert_group name desc) db =
    done
      (record db {
        groups = record { id = pos 30; groupname = name; groupdesc = desc } ∷ db.groups;
      })
      tt
run_update refuses conn (insert_member g u role) db =
    done (record db { members = (g, u) ∷ db.members }) tt
run_update refuses conn (insert_message u m) db =
    if refuses then threw db else done (record db { messages = db.messages ++ (u, m) ∷ [] }) tt
run_update refuses conn (delete_messages u) db = done db tt

abbrev pub tables : Bool → SqlServer
tables refuses = record {
  Db = Tables;
  execute_update = run_update refuses;
  select_user = λ conn id db. done db (users_with db.users id);
  select_friends = λ conn id db. done db (friends_of db.friends id);
  select_last_id = λ conn db. done db (pos 30 ∷ []);
  select_groups = λ conn id db. done db (groups_of db.members id);
  select_members = λ conn g db. done db (members_of db.members g);
  select_other_members = λ conn g u db. done db [];
  select_messages = λ conn u db. done db [];
}

abbrev pub stored_friends : Tables → ℤ → ℤ → Bool
stored_friends db = in_friends db.friends

checked_rows : (rows : List (ℤ × ℤ)) (a b : ℤ) → in_friends rows a b ≡ true → ltb_ℤ a b ≡ true
unfolding in_friends
checked_rows [] a b h = cc
checked_rows ((x, y) ∷ rows) a b h =
    ground (arith, checked_rows rows a b, eq_ℤ_iff x a, eq_ℤ_iff y b)

read_rows : (rows : List (ℤ × ℤ)) (a b : ℤ) → lists_id (friends_of rows a) b ≡ in_friends rows a b
unfolding in_friends friends_of
read_rows [] a b = refl
read_rows ((x, y) ∷ rows) a b = ground (arith, read_rows rows a b)

pub tables-FriendTable : (refuses : Bool) → FriendTable ⦃sql = tables refuses⦄ stored_friends
unfolding in_friends
tables-FriendTable refuses = record {
  checked = λ db a b h. checked_rows db.friends a b h;
  insert_stores = λ conn a b c d db db' e. ground arith;
  select_reads = λ conn a b db db' rows e. ground (arith, read_rows db.friends a b);
}

pub tables-ReadsFriends : ReadsFriends (tables false)
tables-ReadsFriends conn userid db = (db, friends_of db.friends userid, refl)

abbrev pub stored_messages : Tables → List (ℤ × Str)
stored_messages db = db.messages

pub tables-MessageTable : (refuses : Bool) → MessageTable (tables refuses) stored_messages
tables-MessageTable true = record {
  insert_appends = λ conn u m db db' e. cc;
  throw_keeps = λ conn u m db db' e. cc;
}
tables-MessageTable false = record {
  insert_appends = λ conn u m db db' e. cc;
  throw_keeps = λ conn u m db db' e. cc;
}

pub tables-Accepts : Accepts (tables false)
tables-Accepts conn userid message db = (_, refl)

pub tables-Refuses : Refuses (tables true)
tables-Refuses conn userid message db = (db, refl)
