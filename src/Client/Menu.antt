-- ===== src/Client/Menu.antt =====
-- The flag of the main menu, and the waits of the main thread.
use cluster_chat_server_soft.Prelude.{◌≡◌, ◌≢◌, refl, ◌∙◌, Bool, true, false, List, arith, none}
use cluster_chat_server_soft.Prelude.Int.{ℤ}
use cluster_chat_server_soft.Prelude.Text.{Str}
use cluster_chat_server_soft.External.Json.{JsonLib}
use cluster_chat_server_soft.Client.Commands.{ClientState}
use cluster_chat_server_soft.Client.Start.{ask_login, ask_register, wait, end_login}
use cluster_chat_server_soft.Client.Process.{
  Place, start_menu, awaiting_login, awaiting_register, main_menu, closed, Process, Move, logs_in,
  registers, quits, mistypes, wakes_from_login, wakes_from_register, types, Run, launched, moves,
  hears, breaks, loses_server,
}
use cluster_chat_server_soft.Client.Heard.{launch-up, receive-Keeps, wait-same, end_login-same}
use cluster_chat_server_soft.Client.Safety.{any_grants, Run-main_menu}

-- Does the place belong to the main menu?
abbrev is_menu : Place → Bool
is_menu start_menu = false
is_menu awaiting_login = false
is_menu awaiting_register = false
is_menu main_menu = true
is_menu closed = false

module _ ⦃json : JsonLib⦄ (atoi : Str → ℤ) (now : Str) (takes : Str → Bool) where
  -- The flag says whether the client is in its main menu.
  abbrev IsFlagged : Process → Type 0
  IsFlagged c = c.place ≢ closed → c.state.is_main_menu_running ≡ is_menu c.place

  Move-IsFlagged : (c c' : Process) → Move atoi now takes c c' → IsFlagged c → IsFlagged c'
  unfolding ask_login ask_register
  Move-IsFlagged _ _ (logs_in id pwd s) h = λ live. ground (arith, h (λ e. cc))
  Move-IsFlagged _ _ (registers name pwd s) h = λ live. ground (arith, h (λ e. cc))
  Move-IsFlagged _ _ (quits s) h = λ live. absurd (live refl)
  Move-IsFlagged _ _ (mistypes s) h = h
  Move-IsFlagged _ _ (wakes_from_login s s' e) h =
      let (sent, success, running) = end_login-same s s' e in
      λ live. ground (arith, success, running, h (λ e. cc))
  Move-IsFlagged _ _ (wakes_from_register s s' e) h =
      let (sent, success, running) = wait-same s s' e in λ live. running ∙ h (λ e. cc)
  Move-IsFlagged _ _ (types t line s) h = λ live. ground arith

  Run-IsFlagged : (heard : List Str) (c : Process) → Run atoi now takes heard c → IsFlagged c
  Run-IsFlagged _ _ (launched argc has_socket connects c e) =
      let same = launch-up argc has_socket connects c e in λ live. rw same refl
  Run-IsFlagged _ _ (moves heard c c' run move) =
      Move-IsFlagged c c' move (Run-IsFlagged heard c run)
  Run-IsFlagged _ _ (hears heard text c s' run runs e) =
      λ live. (receive-Keeps text c.state s' e).menu ∙ Run-IsFlagged heard c run live
  Run-IsFlagged _ _ (breaks heard text c run runs e) = λ live. absurd (live refl)
  Run-IsFlagged _ _ (loses_server heard c run runs) = λ live. absurd (live refl)

  -- A client that stands in its main menu has heard a response to a login without an error, and the
  -- flag of the menu is set.
  pub Run-in_menu :
      (heard : List Str) (c : Process)
      → Run atoi now takes heard c
      → c.place ≡ main_menu
      → (any_grants heard ≡ true) × (c.state.is_main_menu_running ≡ true)
  Run-in_menu heard c run q =
      (Run-main_menu atoi now takes heard c run q, ground (arith, Run-IsFlagged heard c run))

  blocked :
      (s : ClientState) (c : Process)
      → wait s ≡ none
      → ¬ Move atoi now takes (record { place = awaiting_login; state = s }) c
  unfolding end_login
  blocked _ _ q (wakes_from_login s s' e) = ground arith

  -- A client that asked for a login while no response was counted makes no move before it hears
  -- something, whether or not the socket took the request.
  pub ask_login-blocks :
      (id : ℤ) (pwd : Str) (s : ClientState) (c : Process)
      → s.rw_sem ≡ 0
      → ¬ Move atoi now takes
          (record { place = awaiting_login; state = ask_login atoi now takes id pwd s })
          c
  unfolding ask_login wait
  ask_login-blocks id pwd s c q = blocked (ask_login atoi now takes id pwd s) c (ground (arith, q))
