-- ===== src/Tests/Client.antt =====
-- The lines of the client at concrete inputs.
use cluster_chat_server_soft.Prelude.{
  ℕ, ◌≡◌, refl, Bool, true, false, Option, none, some, [], ◌∷◌, ◌-◌, All,
}
use cluster_chat_server_soft.Prelude.Int.{ℤ, pos}
use cluster_chat_server_soft.Prelude.Text.{Str, codes, str_eq}
use cluster_chat_server_soft.Client.Commands.{ClientState}
use cluster_chat_server_soft.Client.Start.{ask_login, end_login, wait}
use cluster_chat_server_soft.Client.Response.{
  receive, receive_js, login_response, logged_in, read_friends, read_groups, read_offline,
}
use cluster_chat_server_soft.Client.Screen.{show_current_user_data}
use cluster_chat_server_soft.ChatService.Protocol.{msg_id}
use cluster_chat_server_soft.Client.Process.{
  launch, Place, Process, fresh, start_menu, awaiting_login, main_menu, Run, launched, moves, hears,
  logs_in, wakes_from_login,
}
use cluster_chat_server_soft.Client.Safety.{any_grants, IsEntry, Run-entries}
use cluster_chat_server_soft.Client.Heard.{grants}
use cluster_chat_server_soft.Client.Menu.{Run-in_menu}
use cluster_chat_server_soft.Tests.Values.{Value, print, read, entry, number, empty}
use cluster_chat_server_soft.Tests.Rows.{anna}
use cluster_chat_server_soft.Tests.Requests.{json_lib}

abbrev pub digit : Str → ℤ
digit [] = pos 0
digit (c ∷ s) = pos (c - b'0')

abbrev pub socket : Str → Bool
socket text = true

abbrev pub at_menu : ClientState
at_menu = record {
  current_user = anna;
  friend_list = [];
  group_list = [];
  is_main_menu_running = true;
  is_login_success = true;
  rw_sem = 0;
  sent = [];
  shown = [];
}

abbrev asked : ClientState
asked = ask_login digit [] socket (pos 3) (codes "pw") fresh

-- What the server answers.
abbrev answer : ℕ → Value
answer errno =
    entry (codes "errno") (number (pos errno))
      (entry (codes "id") (number (pos 3)) (entry (codes "msgid") (number (pos 2)) empty))

abbrev state_or : ClientState → Option ClientState → ClientState
state_or s none = s
state_or s (some s') = s'

abbrev heard_answer : ℕ → ClientState
heard_answer errno = state_or asked (receive (print (answer errno)) asked)

heard_grant : receive (print (answer 0)) asked ≡ some (heard_answer 0)
unfolding receive read str_eq receive_js login_response logged_in read_friends read_groups
    read_offline show_current_user_data msg_id ask_login end_login wait
heard_grant = refl

heard_refusal : receive (print (answer 1)) asked ≡ some (heard_answer 1)
unfolding receive read str_eq receive_js login_response logged_in read_friends read_groups
    read_offline show_current_user_data msg_id ask_login end_login wait
heard_refusal = refl

abbrev awake : ℕ → ClientState
awake errno = state_or asked (end_login (heard_answer errno))

wakes_granted : end_login (heard_answer 0) ≡ some (awake 0)
unfolding receive read str_eq receive_js login_response logged_in read_friends read_groups
    read_offline show_current_user_data msg_id ask_login end_login wait
wakes_granted = refl

wakes_refused : end_login (heard_answer 1) ≡ some (awake 1)
unfolding receive read str_eq receive_js login_response logged_in read_friends read_groups
    read_offline show_current_user_data msg_id ask_login end_login wait
wakes_refused = refl

abbrev process : Place → ClientState → Process
process place s = record { place = place; state = s }

asks : Run digit [] socket [] (process awaiting_login asked)
unfolding launch
asks =
    moves [] (process start_menu fresh) (process awaiting_login asked)
      (launched 3 true true (process start_menu fresh) refl) (logs_in (pos 3) (codes "pw") fresh)

-- A client that asked, heard the answer and woke up.
granted-Run : Run digit [] socket (print (answer 0) ∷ []) (process main_menu (awake 0))
unfolding receive read str_eq receive_js login_response logged_in read_friends read_groups
    read_offline show_current_user_data msg_id ask_login end_login wait
granted-Run =
    moves (print (answer 0) ∷ []) (process awaiting_login (heard_answer 0))
      (process main_menu (awake 0))
      (hears [] (print (answer 0)) (process awaiting_login asked) (heard_answer 0) asks (λ e. cc)
        heard_grant)
      (wakes_from_login (heard_answer 0) (awake 0) wakes_granted)

refused-Run : Run digit [] socket (print (answer 1) ∷ []) (process start_menu (awake 1))
unfolding receive read str_eq receive_js login_response logged_in read_friends read_groups
    read_offline show_current_user_data msg_id ask_login end_login wait
refused-Run =
    moves (print (answer 1) ∷ []) (process awaiting_login (heard_answer 1))
      (process start_menu (awake 1))
      (hears [] (print (answer 1)) (process awaiting_login asked) (heard_answer 1) asks (λ e. cc)
        heard_refusal)
      (wakes_from_login (heard_answer 1) (awake 1) wakes_refused)

refusal : any_grants (print (answer 1) ∷ []) ≡ false
unfolding grants read str_eq msg_id
refusal = refl

Run-in_menu_example :
    (any_grants (print (answer 0) ∷ []) ≡ true) × ((awake 0).is_main_menu_running ≡ true)
Run-in_menu_example =
    Run-in_menu digit [] socket (print (answer 0) ∷ []) (process main_menu (awake 0)) granted-Run
      refl

Run-entries_example : All (IsEntry digit [] socket) (awake 1).sent
Run-entries_example =
    Run-entries digit [] socket (print (answer 1) ∷ []) (process start_menu (awake 1)) refused-Run
      refusal
