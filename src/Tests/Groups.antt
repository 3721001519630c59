-- ===== src/Tests/Groups.antt =====
-- Group messages, memberships and a message without a handler at concrete inputs.
use cluster_chat_server_soft.Prelude.{◌≡◌, refl, false, some, [], ◌∷◌}
use cluster_chat_server_soft.Prelude.Int.{ℤ, pos}
use cluster_chat_server_soft.Prelude.IntMap.{lookup}
use cluster_chat_server_soft.Prelude.Text.{codes, str_eq}
use cluster_chat_server_soft.ChatService.State.{State, returned}
use cluster_chat_server_soft.ChatService.Session.{login}
use cluster_chat_server_soft.ChatService.Inbox.{inbox_callback}
use cluster_chat_server_soft.ChatService.Departure.{is_member}
use cluster_chat_server_soft.ChatService.Silence.{login-silent}
use cluster_chat_server_soft.ChatService.Protocol.{msg_id}
use cluster_chat_server_soft.ChatService.Inbox.{on_message}
use cluster_chat_server_soft.ChatService.Dispatch.{Unroutable, unmapped, on_message-Unroutable}
use cluster_chat_server_soft.Tests.Values.{Value, entry, number, empty, print, values-JsonLaws}
use cluster_chat_server_soft.Tests.Requests.{
  mysql_server, redis_server, json_lib, login_js, login_js-LoginRequest, group_js,
  group_js-GroupMessage,
}
use cluster_chat_server_soft.Tests.Service.{conn, service, idle}

nobody_in : (g u : ℤ) → is_member [] g u ≡ false
unfolding is_member lookup
nobody_in g u = refl

-- User 3, who belongs to group 8, logs in, and user 5 writes to the group.
login-silent_example :
    (s' : State) × (login (conn 30) (login_js (pos 3) (codes "pw")) (idle (7 ∷ 8 ∷ 9 ∷ []))
      ≡ returned s' tt)
    × (inbox_callback 1 (group_js (pos 5) (pos 8)) s' ≡ returned s' tt)
login-silent_example =
    login-silent (conn 30) (login_js (pos 3) (codes "pw")) (pos 3) (codes "pw") 1
      (group_js (pos 5) (pos 8)) (pos 8) (idle (7 ∷ 8 ∷ 9 ∷ []))
      (login_js-LoginRequest (pos 3) (codes "pw")) (group_js-GroupMessage (pos 5) (pos 8))
      (nobody_in (pos 8))

-- The acknowledgement of a login, sent to the server.
abbrev ack : Value
ack = entry (codes "msgid") (number (pos 2)) empty

ack-Unroutable : Unroutable (print ack)
unfolding msg_id str_eq
ack-Unroutable =
    unmapped ack (number (pos 2)) (pos 2) (values-JsonLaws.parse-dump ack) refl refl
      (λ e. cc, (λ e. cc, (λ e. cc, (λ e. cc, (λ e. cc, (λ e. cc, (λ e. cc, (λ e. cc, tt))))))))

on_message-Unroutable_example : on_message 1 (conn 30) (print ack) (service []) ≡ some (service [])
on_message-Unroutable_example =
    on_message-Unroutable 1 (conn 30) (print ack) (service []) ack-Unroutable
