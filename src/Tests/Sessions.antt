-- ===== src/Tests/Sessions.antt =====
-- Logins, registrations and departures at concrete inputs.
use cluster_chat_server_soft.Prelude.{◌≡◌, refl, false, some, [], ◌∷◌}
use cluster_chat_server_soft.Prelude.Int.{ℤ, pos, negsuc}
use cluster_chat_server_soft.Prelude.IntMap.{lookup}
use cluster_chat_server_soft.Prelude.Text.{codes}
use cluster_chat_server_soft.External.{done}
use cluster_chat_server_soft.RedisClient.Core.{with_conn}
use cluster_chat_server_soft.RedisClient.Commands
use cluster_chat_server_soft.Model.UserModel
use cluster_chat_server_soft.ChatService.State.{State, returned}
use cluster_chat_server_soft.ChatService.Session.{login, user_of}
use cluster_chat_server_soft.ChatService.Entry.{login_default_user}
use cluster_chat_server_soft.Tests.Servers.{users_with}
use cluster_chat_server_soft.Tests.Rows.{rows, mysql_with}
use cluster_chat_server_soft.Tests.Redis.{client}
use cluster_chat_server_soft.Tests.Requests.{
  mysql_server, redis_server, json_lib, login_js, login_js-LoginRequest,
}
use cluster_chat_server_soft.ChatService.Entry.{LoginRequest}
use cluster_chat_server_soft.Tests.Service.{conn, service, idle, none_found}

pub nobody_online : (id : ℤ) → (Commands.is_user_online id client).1 ≡ false
unfolding Commands.is_user_online with_conn
nobody_online id = refl

anna_login :
    LoginRequest
      (login_js (pos 3) (codes "pw"))
      (pos 3)
      (UserModel.query (pos 3) (mysql_with (7 ∷ 8 ∷ []))).1.password
unfolding UserModel.query users_with
anna_login = login_js-LoginRequest (pos 3) (codes "pw")

pub anna_found : (UserModel.query (pos 3) (mysql_with (7 ∷ 8 ∷ []))).1.id ≡ pos 3
unfolding UserModel.query users_with
anna_found = refl

no_row : mysql_server.select_user 7 (negsuc 0) rows ≡ done rows []
unfolding users_with
no_row = refl

login_default_user_example :
    (s' : State) × (login (conn 30) (login_js (negsuc 0) []) (idle (7 ∷ [])) ≡ returned s' tt)
    × (lookup (negsuc 0) s'.user_conn_map ≡ some (conn 30))
login_default_user_example =
    login_default_user (conn 30) (login_js (negsuc 0) []) 7 [] rows (idle (7 ∷ []))
      (login_js-LoginRequest (negsuc 0) []) refl no_row (nobody_online (negsuc 0))
      (none_found (negsuc 0))

finds_five : user_of 50 (service []).user_conn_map ≡ some (pos 5)
unfolding user_of
finds_five = refl
