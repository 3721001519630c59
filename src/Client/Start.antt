-- ===== src/Client/Start.antt =====
-- The start menu of `main` in src/client/main.cpp: `login` and `register`. What the user types is an
-- argument; the socket is a parameter.
use cluster_chat_server_soft.Prelude.{
  zero, suc, Bool, true, false, Option, none, some, [], ◌∷◌, ◌++◌, if◌then◌else◌,
}
use cluster_chat_server_soft.Prelude.Int.{ℤ}
use cluster_chat_server_soft.Prelude.Text.{Str, codes}
use cluster_chat_server_soft.External.Json.{JsonLib}
use cluster_chat_server_soft.ChatService.Protocol.{login_msg, reg_msg}
use cluster_chat_server_soft.Client.Commands.{ClientState, message, send_text}

module _ ⦃json : JsonLib⦄ (atoi : Str → ℤ) (now : Str) (takes : Str → Bool) where
  abbrev pub login_js : ℤ → Str → json.Json
  login_js id pwd =
      json.assign (codes "password") (json.string pwd)
        (json.assign (codes "id") (json.int id) (message atoi now takes login_msg))

  -- Choice 1, up to `sem_wait`.
  unfoldable pub ask_login : ℤ → Str → ClientState → ClientState
  ask_login id pwd s =
      send_text atoi now takes (json.dump (login_js id pwd)) (record s { is_login_success = false })

  abbrev pub reg_js : Str → Str → json.Json
  reg_js name pwd =
      json.assign (codes "password") (json.string pwd)
        (json.assign (codes "name") (json.string name) (message atoi now takes reg_msg))

  -- Choice 2, up to `sem_wait`. The text goes out with the zero byte that ends it.
  unfoldable pub ask_register : Str → Str → ClientState → ClientState
  ask_register name pwd s = send_text atoi now takes (json.dump (reg_js name pwd) ++ 0 ∷ []) s

-- `sem_wait`: `none` while the semaphore is 0, since the call blocks.
unfoldable pub wait : ClientState → Option ClientState
wait s = elim s.rw_sem [ zero ↦ none | suc n ↦ some (record s { rw_sem = n }) ]

-- Choice 1 from `sem_wait` on: the main menu runs after a success only.
unfoldable pub end_login : ClientState → Option ClientState
unfolding wait
end_login s = elim (wait s) [
  | none ↦ none
  | some s' ↦ some (if s'.is_login_success then record s' { is_main_menu_running = true } else s')
]
