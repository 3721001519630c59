-- ===== src/Tests/Rows.antt =====
-- The theorems on the model classes at concrete inputs.
use cluster_chat_server_soft.Prelude.{
  ℕ, ◌≡◌, refl, true, false, none, some, List, [], ◌∷◌, ◌++◌, ◌-◌, arith, if◌then◌else◌,
}
use cluster_chat_server_soft.Prelude.Int.{pos}
use cluster_chat_server_soft.Prelude.Text.{codes}
use cluster_chat_server_soft.Model.User.{User, default_user, new_group}
use cluster_chat_server_soft.Model.Connection.{Mysql}
use cluster_chat_server_soft.Model.OfflineMessage.{Offline}
use cluster_chat_server_soft.Model.UserModel
use cluster_chat_server_soft.Model.FriendModel
use cluster_chat_server_soft.Model.GroupModel
use cluster_chat_server_soft.Model.OfflineMessage
use cluster_chat_server_soft.Model.Friendship.{has_friend, query-insert}
use cluster_chat_server_soft.Model.Leaks.{size, queries, insert-size, queries_starve}
use cluster_chat_server_soft.Model.Retries.{insert-diverges}
use cluster_chat_server_soft.Model.Kept.{kept_messages, insert-kept_messages}
use cluster_chat_server_soft.Tests.Servers.{
  Tables, tables, stored_friends, stored_messages, tables-FriendTable, tables-ReadsFriends,
  tables-MessageTable, tables-Refuses,
}
use cluster_chat_server_soft.Tests.Pools.{mysql_pool}

abbrev pub anna : User
anna = record { id = pos 3; name = codes "anna"; password = codes "pw"; state = codes "offline" }

-- User 3 is a friend of 5 and a member of group 8 with user 5.
abbrev pub rows : Tables
rows = record {
  users =
      record { id = pos 3; name = codes "anna"; password = codes "pw"; state = codes "offline" }
      ∷ [];
  friends = (pos 3, pos 5) ∷ [];
  groups = [];
  members = (pos 8, pos 3) ∷ (pos 8, pos 5) ∷ [];
  messages = (pos 9, codes "old") ∷ [];
}

abbrev pub mysql_with : List ℕ → Mysql Tables
mysql_with connections = record { db = rows; pool = mysql_pool connections }

-- A message of user 4 waits.
abbrev one_waits : List ℕ → Offline Tables
one_waits connections = record {
  mysql = mysql_with connections;
  failed_queue = (pos 4, codes "first") ∷ [];
}

insert-diverges_example :
    OfflineMessage.insert ⦃sql = tables true⦄ 100 (pos 5) (codes "hi") (one_waits (7 ∷ [])) ≡ none
insert-diverges_example =
    insert-diverges ⦃sql = tables true⦄ 100 (pos 5) (codes "hi") (one_waits (7 ∷ [])) tables-Refuses
      (λ e. cc)

-- Both messages are in the table.
abbrev both_stored : Offline Tables
both_stored = record {
  mysql = record {
    db = record rows {
      messages = (pos 9, codes "old") ∷ (pos 4, codes "first") ∷ (pos 5, codes "hi") ∷ [];
    };
    pool = mysql_pool (7 ∷ []);
  };
  failed_queue = [];
}

stores_both :
    OfflineMessage.insert ⦃sql = tables false⦄ 1 (pos 5) (codes "hi") (one_waits (7 ∷ []))
    ≡ some (both_stored, true)
unfolding OfflineMessage.insert OfflineMessage.insert_loop OfflineMessage.attempt
stores_both = refl

insert-kept_messages_example :
    (kept_messages ⦃sql = tables false⦄ stored_messages (tables-MessageTable false) both_stored
      ≡ kept_messages ⦃sql = tables false⦄ stored_messages
          (tables-MessageTable false)
          (one_waits (7 ∷ []))
        ++ (pos 5, codes "hi") ∷ [])
    × ((if true then both_stored.failed_queue else []) ≡ [])
insert-kept_messages_example =
    insert-kept_messages ⦃sql = tables false⦄ stored_messages (tables-MessageTable false) 1 (pos 5)
      (codes "hi") (one_waits (7 ∷ [])) both_stored true stores_both

query-insert_example :
    (has_friend
        (FriendModel.query ⦃sql = tables false⦄
          (pos 4)
          (FriendModel.insert ⦃sql = tables false⦄ (pos 4) (pos 6) (mysql_with (7 ∷ [])))).1
        (pos 6)
      ≡ true)
    × (has_friend
          (FriendModel.query ⦃sql = tables false⦄
            (pos 4)
            (FriendModel.insert ⦃sql = tables false⦄ (pos 6) (pos 4) (mysql_with (7 ∷ [])))).1
          (pos 6)
        ≡ true)
    × (has_friend
          (FriendModel.query ⦃sql = tables false⦄
            (pos 6)
            (FriendModel.insert ⦃sql = tables false⦄ (pos 4) (pos 6) (mysql_with (7 ∷ [])))).1
          (pos 4)
        ≡ false)
    × (has_friend
          (FriendModel.query ⦃sql = tables false⦄
            (pos 6)
            (FriendModel.insert ⦃sql = tables false⦄ (pos 6) (pos 4) (mysql_with (7 ∷ [])))).1
          (pos 4)
        ≡ false)
query-insert_example =
    query-insert ⦃sql = tables false⦄ stored_friends (tables-FriendTable false) (pos 4) (pos 6)
      (mysql_with (7 ∷ [])) 7 [] (record rows { friends = (pos 4, pos 6) ∷ rows.friends }) refl refl
      refl tables-ReadsFriends

queries_starve_example :
    let m' = queries ⦃sql = tables false⦄ (pos 3 ∷ pos 5 ∷ []) (mysql_with (7 ∷ 8 ∷ [])) in
    (UserModel.insert ⦃sql = tables false⦄ anna m' ≡ (m', false))
    × (UserModel.query ⦃sql = tables false⦄ (pos 3) m' ≡ (m', record default_user { id = pos 0 }))
    × (FriendModel.query ⦃sql = tables false⦄ (pos 3) m' ≡ (m', []))
    × (GroupModel.query_groups ⦃sql = tables false⦄ (pos 3) m' ≡ (m', []))
    × (GroupModel.query_group_users ⦃sql = tables false⦄ (pos 3) (pos 8) m' ≡ (m', []))
    × (GroupModel.create_group ⦃sql = tables false⦄ (new_group (pos 8) [] []) m'
        ≡ (m', new_group (pos 8) [] []))
queries_starve_example =
    queries_starve ⦃sql = tables false⦄ (pos 3 ∷ pos 5 ∷ []) (mysql_with (7 ∷ 8 ∷ [])) (omega arith)
      anna (new_group (pos 8) [] []) (pos 3) (pos 8)

insert-size_example :
    let (m', ok) = UserModel.insert ⦃sql = tables false⦄ anna (mysql_with (7 ∷ 8 ∷ [])) in
    size m' ≡ (if ok then size (mysql_with (7 ∷ 8 ∷ [])) else size (mysql_with (7 ∷ 8 ∷ [])) - 1)
insert-size_example = insert-size ⦃sql = tables false⦄ anna (mysql_with (7 ∷ 8 ∷ []))
