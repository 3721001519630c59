-- ===== src/Client/Process.antt =====
-- The client as a process (src/client/main.cpp): the start menu of `main`, the waits for the semaphore, the
-- loop of `mainmenu`, and `readTaskHandler` beside them. A round of the reading thread and a move of the main thread
-- are steps; the threads share the globals without a lock.
use cluster_chat_server_soft.Prelude.{
  ℕ, ltb, zero, ◌≡◌, ◌≢◌, Bool, false, none, some, List, [], ◌∷◌, if◌then◌else◌,
}
use cluster_chat_server_soft.Prelude.Int.{ℤ}
use cluster_chat_server_soft.Prelude.Text.{Str}
use cluster_chat_server_soft.External.Json.{JsonLib}
use cluster_chat_server_soft.Model.User.{default_user}
use cluster_chat_server_soft.Client.Commands.{ClientState, run_line}
use cluster_chat_server_soft.Client.Start.{ask_login, ask_register, wait, end_login}
use cluster_chat_server_soft.Client.Screen.{Tm, get_current_time}
use cluster_chat_server_soft.Client.Response.{receive}

-- Where the main thread stands: it reads a choice, waits for the semaphore after a login or a registration, or reads
-- a line of the main menu; `closed` is a client that has ended.
pub data Place : Type 0 where
  start_menu awaiting_login awaiting_register main_menu closed : Place

pub record Process : Type 0 where
  pub place : Place
  pub state : ClientState

abbrev pub fresh : ClientState
fresh = record {
  current_user = default_user;
  friend_list = [];
  group_list = [];
  is_main_menu_running = false;
  is_login_success = false;
  rw_sem = zero;
  sent = [];
  shown = [];
}

-- What comes of the start: too few arguments, no socket, no connection, or the start menu.
pub data Launch : Type 0 where
  bad_command no_socket no_connection : Launch
  up : Process → Launch

-- `main` up to its menu: the number of arguments, and whether `socket` and `connect` succeeded.
unfoldable pub launch : ℕ → Bool → Bool → Launch
launch argc has_socket connects =
    if ltb argc 3
    then bad_command
    else if has_socket
    then if connects then up (record { place = start_menu; state = fresh }) else no_connection
    else no_socket

-- After `sem_wait` of choice 1.
abbrev pub after_login : ClientState → Place
after_login s = if s.is_login_success then main_menu else start_menu

-- The test of the loop of `mainmenu`.
abbrev pub after_line : ClientState → Place
after_line s = if s.is_main_menu_running then main_menu else start_menu

module _ ⦃json : JsonLib⦄ (atoi : Str → ℤ) (now : Str) (takes : Str → Bool) where
  -- A step of the main thread. The start menu does not read the clock, and takes any `now`.
  pub data Move : Process → Process → Type 0 where
    logs_in :
        (id : ℤ) (pwd : Str) (s : ClientState)
        → Move
            (record { place = start_menu; state = s })
            (record { place = awaiting_login; state = ask_login atoi now takes id pwd s })
    registers :
        (name pwd : Str) (s : ClientState)
        → Move
            (record { place = start_menu; state = s })
            (record { place = awaiting_register; state = ask_register atoi now takes name pwd s })
    quits :
        (s : ClientState)
        → Move (record { place = start_menu; state = s }) (record { place = closed; state = s })
    mistypes :
        (s : ClientState)
        → Move (record { place = start_menu; state = s }) (record { place = start_menu; state = s })
    wakes_from_login :
        (s s' : ClientState)
        → end_login s ≡ some s'
        → Move
            (record { place = awaiting_login; state = s })
            (record { place = after_login s'; state = s' })
    wakes_from_register :
        (s s' : ClientState)
        → wait s ≡ some s'
        → Move
            (record { place = awaiting_register; state = s })
            (record { place = start_menu; state = s' })
    types :
        (t : Tm) (line : Str) (s : ClientState)
        → Move
            (record { place = main_menu; state = s })
            (record {
              place = after_line (run_line atoi (get_current_time t) takes line s);
              state = run_line atoi (get_current_time t) takes line s;
            })

  -- A client that has heard the texts, the last first. `recv` gives a text, which the reading thread handles or
  -- breaks on, or reports the end of the connection; both ends close the client.
  pub data Run : List Str → Process → Type 0 where
    launched :
        (argc : ℕ) (has_socket connects : Bool) (c : Process)
        → launch argc has_socket connects ≡ up c
        → Run [] c
    moves : (heard : List Str) (c c' : Process) → Run heard c → Move c c' → Run heard c'
    hears :
        (heard : List Str) (text : Str) (c : Process) (s' : ClientState)
        → Run heard c
        → c.place ≢ closed
        → receive text c.state ≡ some s'
        → Run (text ∷ heard) (record { place = c.place; state = s' })
    breaks :
        (heard : List Str) (text : Str) (c : Process)
        → Run heard c
        → c.place ≢ closed
        → receive text c.state ≡ none
        → Run (text ∷ heard) (record { place = closed; state = c.state })
    loses_server :
        (heard : List Str) (c : Process)
        → Run heard c
        → c.place ≢ closed
        → Run heard (record { place = closed; state = c.state })
