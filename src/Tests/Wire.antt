-- ===== src/Tests/Wire.antt =====
-- Client and server together at concrete inputs.
use cluster_chat_server_soft.Prelude.{
  ◌&&◌, not, if◌then◌else◌, ◌≡◌, refl, true, false, some, [], ◌∷◌, ◌++◌, map,
}
use cluster_chat_server_soft.Prelude.Int.{pos, eq_ℤ}
use cluster_chat_server_soft.Prelude.Text.{Str, codes}
use cluster_chat_server_soft.RedisClient.Core.{with_conn}
use cluster_chat_server_soft.RedisClient.Commands
use cluster_chat_server_soft.Model.User.{default_user}
use cluster_chat_server_soft.Model.UserModel
use cluster_chat_server_soft.Model.FriendModel
use cluster_chat_server_soft.Model.GroupModel
use cluster_chat_server_soft.ChatService.State.{State}
use cluster_chat_server_soft.ChatService.Chat.{msg_have_sent}
use cluster_chat_server_soft.ChatService.Entry.{asked}
use cluster_chat_server_soft.ChatService.Inbox.{on_message, on_channel_message}
use cluster_chat_server_soft.ChatService.Silence.{local_members}
use mathlib.Core.List.{filter_map}
use cluster_chat_server_soft.Prelude.IntMap.{lookup}
use cluster_chat_server_soft.Client.Commands.{ClientState, chat_js, group_chat_js}
use cluster_chat_server_soft.Client.Start.{login_js, end_login}
use cluster_chat_server_soft.Tests.Rows.{mysql_with}
use cluster_chat_server_soft.Client.Response.{receive, int_at, text_at}
use cluster_chat_server_soft.Wire.Refusal.{login_refused}
use cluster_chat_server_soft.Tests.Servers.{users_with}
use cluster_chat_server_soft.Wire.Delivery.{
  said, showing, group_prefix, chat_round_trip, group_round_trip,
}
use cluster_chat_server_soft.Wire.Session.{shown}
use cluster_chat_server_soft.Wire.Arrival.{IsFresh, login_round_trip}
use cluster_chat_server_soft.Wire.Cached.{IsCached, login_cached}
use cluster_chat_server_soft.Prelude.Text.{str_eq}
use cluster_chat_server_soft.RedisClient.Commands.{user_key, offline_key}
use cluster_chat_server_soft.Tests.Redis.{client}
use cluster_chat_server_soft.Tests.Values.{Value, read, print, values-JsonLaws}
use cluster_chat_server_soft.Tests.Requests.{mysql_server, redis_server, json_lib}
use cluster_chat_server_soft.Tests.Service.{conn, service, idle, lists_five, found_five}
use cluster_chat_server_soft.Tests.Sessions.{anna_found, nobody_online}
use cluster_chat_server_soft.Tests.Client.{digit, socket, at_menu}

anna-IsFresh : IsFresh (conn 30) (pos 3) (asked (pos 3) (idle (7 ∷ 8 ∷ []))).redis
unfolding Commands.is_user_online Commands.get_user_node Commands.set_user_online
    Commands.pop_offline_messages Commands.get with_conn offline_key
anna-IsFresh = (refl, refl)

-- The client before its first login.
abbrev at_start : ClientState
at_start = record at_menu {
  current_user = default_user;
  is_main_menu_running = false;
  is_login_success = false;
}

login_round_trip_example :
    let s = idle (7 ∷ 8 ∷ []) in
    let user = (UserModel.query (pos 3) s.mysql).1 in
    let (m, friends) = FriendModel.query (pos 3) (asked (pos 3) s).mysql in
    (s' : State) × (text : Str) × (c' : ClientState) × (c'' : ClientState) × (on_message 1
        (conn 30)
        (print (login_js digit [] socket (pos 3) user.password))
        s
      ≡ some s')
    × (s'.sent ≡ [] ++ (30, text) ∷ [])
    × (receive text at_start ≡ some c')
    × (end_login c' ≡ some c'')
    × (c''.is_main_menu_running ≡ true)
    × (c''.current_user.id ≡ pos 3)
    × (map shown c''.friend_list ≡ map shown friends)
    × (c''.group_list ≡ (GroupModel.query_groups (pos 3) m).1)
login_round_trip_example =
    login_round_trip values-JsonLaws digit [] socket 1 (conn 30) (pos 3) (idle (7 ∷ 8 ∷ []))
      at_start anna_found (nobody_online (pos 3)) anna-IsFresh refl refl

-- Redis holds a text under every key.
abbrev warm : State
warm = record (idle (7 ∷ 8 ∷ [])) {
  redis = record client { store = record client.store { texts = λ key. some (codes "[]") } };
}

warm-IsCached : IsCached (conn 30) (pos 3) (codes "[]") (asked (pos 3) warm).redis
unfolding Commands.is_user_online Commands.get_user_node Commands.set_user_online
    Commands.pop_offline_messages Commands.get with_conn user_key offline_key str_eq
warm-IsCached = (refl, refl)

warm-absent : (Commands.is_user_online (pos 3) warm.redis).1 ≡ false
unfolding Commands.is_user_online
warm-absent = refl

login_cached_example :
    let user = (UserModel.query (pos 3) warm.mysql).1 in
    (s' : State) × (text : Str) × (c' : ClientState) × (c'' : ClientState) × (on_message 1
        (conn 30)
        (print (login_js digit [] socket (pos 3) user.password))
        warm
      ≡ some s')
    × (s'.sent ≡ [] ++ (30, text) ∷ [])
    × (receive text at_start ≡ some c')
    × (end_login c' ≡ some c'')
    × (c''.is_main_menu_running ≡ true)
    × (c''.current_user.id ≡ pos 3)
    × (c''.friend_list ≡ [])
    × (c''.group_list ≡ (GroupModel.query_groups (pos 3) (asked (pos 3) warm).mysql).1)
login_cached_example =
    login_cached values-JsonLaws digit [] socket 1 (conn 30) (pos 3) (codes "[]") warm at_start
      anna_found warm-absent warm-IsCached refl refl

chat_round_trip_example :
    let text = print (chat_js digit [] socket at_menu (pos 5) (codes "hi")) in
    (s' : State) × (on_message 1 (conn 30) text (service (7 ∷ [])) ≡ some s')
    × (s'.sent ≡ ([] ++ (30, msg_have_sent) ∷ []) ++ (50, text) ∷ [])
    × (receive text at_menu
        ≡ some (
            showing values-JsonLaws digit [] socket at_menu
              (said values-JsonLaws digit [] socket at_menu [] (codes "hi"))
              at_menu))
chat_round_trip_example =
    chat_round_trip values-JsonLaws digit [] socket at_menu 1 (conn 30) (conn 50) (pos 5) b'h'
      (codes "i") (service (7 ∷ [])) at_menu (lists_five []) found_five

group_round_trip_example :
    let text = print (group_chat_js digit [] socket at_menu (pos 8) (codes "hi")) in
    let s = service [] in
    (on_channel_message true 1 text s
      ≡ some (record s {
        sent =
            []
            ++ map
                (λ conn. (conn.handle, text ++ 10 ∷ []))
                (filter_map (λ u. lookup u s.user_conn_map) (local_members (pos 8) s));
      }))
    × (receive (text ++ 10 ∷ []) at_menu
        ≡ some (
            showing values-JsonLaws digit [] socket at_menu
              (said values-JsonLaws digit [] socket at_menu
                (group_prefix values-JsonLaws digit [] socket at_menu (pos 8))
                (codes "hi"))
              at_menu))
group_round_trip_example =
    group_round_trip values-JsonLaws digit [] socket at_menu 1 (pos 8) (codes "hi") (service [])
      at_menu

-- User 3 with another password.
wrong_pwd :
    (let user = (UserModel.query (pos 3) (mysql_with (7 ∷ 8 ∷ []))).1 in
      (eq_ℤ user.id (pos 3) && str_eq user.password (codes "no"))
      && not (Commands.is_user_online (pos 3) client).1)
    ≡ false
unfolding UserModel.query users_with str_eq
wrong_pwd = refl

login_refused_example :
    let s = idle (7 ∷ 8 ∷ []) in
    let user = (UserModel.query (pos 3) s.mysql).1 in
    let known = eq_ℤ user.id (pos 3) && str_eq user.password (codes "no") in
    (s' : State) × (j : Value) × (c' : ClientState) × (on_message 1
        (conn 30)
        (print (login_js digit [] socket (pos 3) (codes "no")))
        s
      ≡ some s')
    × (s'.sent ≡ [] ++ (30, print j) ∷ [])
    × (s'.user_conn_map ≡ s.user_conn_map)
    × (s'.group_members ≡ s.group_members)
    × (read (print j) ≡ some j)
    × (int_at j (codes "errno") ≡ some (if known then pos 2 else pos 1))
    × (text_at j (codes "errormsg")
        ≡ some (if known then codes "该账号已经登陆，请重新输入账号" else codes "账号或密码输入错误"))
    × (receive (print j) at_start ≡ some c')
    × (end_login c' ≡ some (record at_start { is_login_success = false }))
login_refused_example =
    login_refused values-JsonLaws digit [] socket 1 (conn 30) (pos 3) (codes "no")
      (idle (7 ∷ 8 ∷ [])) at_start wrong_pwd
