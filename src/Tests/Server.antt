-- ===== src/Tests/Server.antt =====
-- The start of the server, and the states that it reaches, at concrete inputs.
use cluster_chat_server_soft.Prelude.{
  ◌≡◌, refl, ◌∙◌, true, false, Option, none, some, [], ◌+◌, ◌==◌, arith, length, if◌then◌else◌,
}
use cluster_chat_server_soft.Prelude.Int.{pos}
use cluster_chat_server_soft.MysqlPool.{create_connection}
use cluster_chat_server_soft.MysqlPool.Laws.{made}
use cluster_chat_server_soft.MysqlPool.Distinct.{AreDistinct}
use cluster_chat_server_soft.ChatService.State.{State}
use cluster_chat_server_soft.ChatService.Sound.{IsSound}
use cluster_chat_server_soft.ChatService.Inbox.{on_connection}
use cluster_chat_server_soft.ChatService.Registry.{Closes}
use cluster_chat_server_soft.ChatService.Refinement.{view}
use cluster_chat_server_soft.Server.StartUp.{
  attempts, new_service, Host, up, terminated, undefined, pool_size, start_up,
}
use cluster_chat_server_soft.Server.StartLaws.{
  listening, after_reset, start_up-listening, start_up_branches,
}
use cluster_chat_server_soft.Server.Run.{ServerEvent, message, serve, Reachable, started, served}
use cluster_chat_server_soft.Server.Soundness.{
  MayStore, Reachable-IsSound, Reachable-serves, Reachable-returns, Reachable-Closes,
}
use cluster_chat_server_soft.Tests.Requests.{
  mysql_server, redis_server, json_lib, login_js, chat_js,
}
use cluster_chat_server_soft.RedisClient.Commands
use cluster_chat_server_soft.ChatService.Session
use cluster_chat_server_soft.Model.UserModel
use cluster_chat_server_soft.Model.FriendModel
use cluster_chat_server_soft.Model.GroupModel
use cluster_chat_server_soft.Tests.Servers.{users_with, friends_of, groups_of, tables-Accepts}
use cluster_chat_server_soft.Tests.Values.{read, print, entry, number}
use cluster_chat_server_soft.Tests.Rows.{mysql_with}
use cluster_chat_server_soft.Tests.Redis.{client}
use cluster_chat_server_soft.Tests.Service.{conn}
use cluster_chat_server_soft.Prelude.Text.{str_eq, codes}

-- Every attempt makes a connection, each another.
abbrev host : Host
host = record {
  driver = true;
  connect = λ i. some (i + 7);
  set_schema = λ conn. true;
  connect_redis = λ i. some i;
  db = (mysql_with []).db;
  store = client.store;
  sub = client.subs.sub;
  waiting = λ p. p;
}

all_eight : (length (made (attempts host) 0 pool_size) == pool_size) ≡ true
unfolding made create_connection
all_eight = refl

host-AreDistinct : AreDistinct host.connect
host-AreDistinct i j c e q = ground arith

host-up : start_up host ≡ up (listening host)
host-up = start_up-listening host ∙ ground (arith, all_eight)

start_up_branches_example : start_up host ≡ (
    if host.driver
    then if length (made (attempts host) 0 8) == 8
      then up (after_reset host (made (attempts host) 0 8))
      else terminated
    else undefined)
start_up_branches_example = start_up_branches host

-- User 3 logs in.
abbrev logs_in : ServerEvent
logs_in =
    message (conn 30)
      (print (entry (codes "msgid") (number (pos 1)) (login_js (pos 3) (codes "pw"))))

abbrev state_of : Option State → State
state_of none = listening host
state_of (some s) = s

abbrev entered : State
entered = state_of (serve 0 logs_in (listening host))

logs_in-entered : serve 0 logs_in (listening host) ≡ some entered
unfolding serve read str_eq Session.login UserModel.query UserModel.reset_state new_service made
    create_connection users_with Commands.is_user_online Session.enter Session.friends_from
    Commands.get Commands.pop_offline_messages Commands.set_user_online Commands.get_user_node
    Session.add_friends FriendModel.query GroupModel.query_groups Session.add_groups
    Session.enter_groups Session.render_friends Session.render_members friends_of groups_of
    Commands.offline_key
logs_in-entered = refl

entered-Reachable : Reachable host entered
entered-Reachable =
    served 0 logs_in (listening host) entered (started (listening host) host-up) logs_in-entered

Reachable-IsSound_example : IsSound entered
Reachable-IsSound_example = Reachable-IsSound host entered host-AreDistinct entered-Reachable

-- The same text with another number.
not_chat : ¬ MayStore logs_in
unfolding read str_eq
not_chat m = ground (arith, m.parses, m.reads, m.is_six)

Reachable-serves_example : (s' : State) × (serve 0 logs_in (listening host) ≡ some s') × IsSound s'
Reachable-serves_example =
    Reachable-serves host (listening host) logs_in host-AreDistinct
      (started (listening host) host-up) not_chat

-- User 3 writes to user 5, who is absent.
abbrev writes : ServerEvent
writes =
    message (conn 30) (print (entry (codes "msgid") (number (pos 6)) (chat_js (pos 3) (pos 5))))

Reachable-returns_example : (s' : State) × (serve 4 writes entered ≡ some s') × IsSound s'
Reachable-returns_example =
    Reachable-returns host entered writes 4 host-AreDistinct tables-Accepts (omega arith)
      entered-Reachable

Reachable-Closes_example :
    (s' : State) × (on_connection (conn 30) false entered ≡ some s')
    × Closes (conn 30) (view entered) (view s')
Reachable-Closes_example =
    Reachable-Closes host entered (conn 30) host-AreDistinct entered-Reachable
