-- ===== src/Client/Heard.antt =====
-- What a text that the client hears, and a wait for the semaphore, do to the flags and to what was
-- sent.
use cluster_chat_server_soft.Prelude.{
  ℕ, ◌≡◌, Bool, true, false, none, some, arith, ◌||◌, ◌&&◌, Option-cases, inl, inr,
}
use cluster_chat_server_soft.Prelude.Int.{ℤ, eq_ℤ}
use cluster_chat_server_soft.Prelude.Text.{Str, codes}
use cluster_chat_server_soft.External.Json.{JsonLib}
use cluster_chat_server_soft.ChatService.Protocol.{msg_id, login_msg_ack}
use cluster_chat_server_soft.Client.Commands.{ClientState}
use cluster_chat_server_soft.Client.Start.{wait, end_login}
use cluster_chat_server_soft.Client.Process.{Process, launch, up, start_menu, fresh}
use cluster_chat_server_soft.Client.Response.{
  receive, receive_js, login_response, reg_response, logged_in, read_friends, read_groups,
  read_offline, int_at,
}

pub launch-up :
    (argc : ℕ) (has_socket connects : Bool) (c : Process)
    → launch argc has_socket connects ≡ up c
    → c ≡ record { place = start_menu; state = fresh }
unfolding launch
launch-up argc has_socket connects c e = ground arith

-- What the waits for the semaphore leave alone.
pub wait-same :
    (s s' : ClientState)
    → wait s ≡ some s'
    → (s'.sent ≡ s.sent)
      × (s'.is_login_success ≡ s.is_login_success)
      × (s'.is_main_menu_running ≡ s.is_main_menu_running)
unfolding wait
wait-same s s' e = ground arith

pub end_login-same :
    (s s' : ClientState)
    → end_login s ≡ some s'
    → (s'.sent ≡ s.sent)
      × (s'.is_login_success ≡ s.is_login_success)
      × (s'.is_main_menu_running ≡ (s.is_login_success || s.is_main_menu_running))
unfolding end_login wait
end_login-same s s' e = ground arith

module _ ⦃json : JsonLib⦄ where
  -- Is the value a response to a login without an error?
  unfoldable pub grants_js : ℤ → json.Json → Bool
  grants_js msgid js =
      eq_ℤ msgid (msg_id login_msg_ack)
      && elim (json.subscript js (codes "errno")) [ none ↦ false | some errno ↦ json.is_zero errno ]

  -- Is the text one?
  unfoldable pub grants : Str → Bool
  unfolding grants_js
  grants text = elim (json.parse text) [
    | none ↦ false
    | some js ↦ elim (int_at js (codes "msgid")) [ none ↦ false | some msgid ↦ grants_js msgid js ]
  ]

  -- The reading thread leaves alone what was sent and whether the main menu runs, and sets the flag of a login only
  -- on a response that grants it.
  pub record Keeps (granted : Bool) (s s' : ClientState) : Type 0 where
    pub sent : s'.sent ≡ s.sent
    pub menu : s'.is_main_menu_running ≡ s.is_main_menu_running
    pub success : s'.is_login_success ≡ true → (s.is_login_success || granted) ≡ true

  logged_in-same :
      (js : json.Json) (s s' : ClientState)
      → logged_in js s ≡ some s'
      → (s'.sent ≡ s.sent) × (s'.is_main_menu_running ≡ s.is_main_menu_running)
  unfolding logged_in read_friends read_groups read_offline
  logged_in-same js s s' e = ground arith

  receive_js-Keeps :
      (msgid : ℤ) (js : json.Json) (s s' : ClientState)
      → receive_js msgid js s ≡ some s'
      → Keeps (grants_js msgid js) s s'
  unfolding receive_js login_response reg_response grants_js
  receive_js-Keeps msgid js s s' e = record {
    sent = ground (arith, logged_in-same js s);
    menu = ground (arith, logged_in-same js s);
    success = λ t. ground arith;
  }

  pub receive-Keeps :
      (text : Str) (s s' : ClientState) → receive text s ≡ some s' → Keeps (grants text) s s'
  unfolding receive grants
  receive-Keeps text s s' e = elim (Option-cases (json.parse text)) [
    | inl p ↦ absurd (ground arith)
    | inr (js, p) ↦ elim (Option-cases (int_at js (codes "msgid"))) [
      | inl q ↦ absurd (ground arith)
      | inr (msgid, q) ↦
          let keeps = receive_js-Keeps msgid js s s' (ground arith) in
          record {
            sent = keeps.sent;
            menu = keeps.menu;
            success = λ t. ground (arith, keeps.success t);
          }
    ]
  ]
