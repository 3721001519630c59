-- ===== src/Tests/Service.antt =====
-- `oneChat` at concrete inputs.
use cluster_chat_server_soft.Prelude.{
  ℕ, ◌≡◌, refl, ◌≢◌, true, false, none, some, List, [], ◌∷◌, ◌++◌, arith,
}
use cluster_chat_server_soft.Prelude.Int.{ℤ, pos}
use cluster_chat_server_soft.Prelude.IntMap.{lookup}
use cluster_chat_server_soft.Prelude.Text.{codes}
use cluster_chat_server_soft.Model.FriendModel
use cluster_chat_server_soft.Model.FriendModel.{friend_of_row}
use cluster_chat_server_soft.Model.Friendship.{has_friend}
use cluster_chat_server_soft.ChatService.State.{TcpConnection, State, returned}
use cluster_chat_server_soft.ChatService.Chat.{one_chat, no_this_friend, send_offline_msg}
use cluster_chat_server_soft.ChatService.Delivery.{one_chat-smaller_id, one_chat-absent}
use cluster_chat_server_soft.Tests.Servers.{
  friends_of, stored_friends, stored_messages, tables-FriendTable, tables-MessageTable,
  tables-Accepts,
}
use cluster_chat_server_soft.Tests.Values.{print}
use cluster_chat_server_soft.Tests.Rows.{mysql_with}
use cluster_chat_server_soft.Tests.Redis.{client}
use cluster_chat_server_soft.Tests.Requests.{
  mysql_server, redis_server, json_lib, chat_js, chat_js-ChatRequest,
}

abbrev pub conn : ℕ → TcpConnection
conn handle = record { handle = handle; name = codes "c" }

-- User 5 is connected here and a member of group 8.
abbrev pub service : List ℕ → State
service connections = record {
  user_conn_map = (pos 5, conn 50) ∷ [];
  group_members = (pos 8, pos 5 ∷ []) ∷ [];
  mysql = mysql_with connections;
  failed_queue = [];
  redis = client;
  sent = [];
}

-- The same with nobody connected and no members.
abbrev pub idle : List ℕ → State
idle connections = record (service connections) { user_conn_map = []; group_members = [] }

pub lists_five :
    (connections : List ℕ)
    → has_friend (FriendModel.query (pos 3) (mysql_with (7 ∷ connections))).1 (pos 5) ≡ true
unfolding FriendModel.query has_friend friends_of
lists_five connections = refl

lists_no_nine : has_friend (FriendModel.query (pos 3) (mysql_with (7 ∷ []))).1 (pos 9) ≡ false
unfolding FriendModel.query has_friend friends_of
lists_no_nine = refl

pub found_five : lookup (pos 5) (service []).user_conn_map ≡ some (conn 50)
unfolding lookup
found_five = refl

pub none_found : (id : ℤ) → lookup {V = TcpConnection} id [] ≡ none
unfolding lookup
none_found id = refl

one_remains : (FriendModel.query (pos 3) (mysql_with (7 ∷ 8 ∷ []))).0.pool.connections ≢ []
unfolding FriendModel.query
one_remains e = cc

-- User 5 writes to user 3, whose friend 5 is.
one_chat-smaller_id_example :
    one_chat 1 (conn 50) (chat_js (pos 5) (pos 3)) (service (7 ∷ []))
    ≡ returned
        (record (service (7 ∷ [])) {
          mysql = (FriendModel.query (pos 5) (mysql_with (7 ∷ []))).0;
          sent = (50, no_this_friend) ∷ [];
        })
        tt
one_chat-smaller_id_example =
    one_chat-smaller_id stored_friends (tables-FriendTable false) 1 (conn 50)
      (chat_js (pos 5) (pos 3)) (pos 5) (pos 3) (service (7 ∷ []))
      (chat_js-ChatRequest (pos 5) (pos 3)) refl

one_chat-absent_example :
    (s' : State) × (one_chat 1 (conn 30) (chat_js (pos 3) (pos 5)) (idle (7 ∷ 8 ∷ []))
      ≡ returned s' tt)
    × (stored_messages s'.mysql.db
        ≡ (stored_messages (FriendModel.query (pos 3) (mysql_with (7 ∷ 8 ∷ []))).0.db ++ [])
          ++ (pos 5, print (chat_js (pos 3) (pos 5))) ∷ [])
    × (s'.failed_queue ≡ [])
    × (s'.sent ≡ (30, send_offline_msg) ∷ [])
    × (s'.redis ≡ client)
    × (s'.user_conn_map ≡ [])
one_chat-absent_example =
    one_chat-absent stored_messages (tables-MessageTable false) 1 (conn 30)
      (chat_js (pos 3) (pos 5)) (pos 3) (pos 5) (idle (7 ∷ 8 ∷ []))
      (chat_js-ChatRequest (pos 3) (pos 5)) (lists_five (8 ∷ [])) (none_found (pos 5)) (omega arith)
      tables-Accepts one_remains
