-- ===== src/Client/Safety.antt =====
-- What a client can have sent, and when it is in its main menu.
use cluster_chat_server_soft.Prelude.{
  ◌≡◌, ◌≢◌, refl, ◌∙◌, ◌⊎◌, inl, inr, Bool, true, false, ◌||◌, List, [], ◌∷◌, ◌++◌, All, arith,
  Bool-cases,
}
use cluster_chat_server_soft.Prelude.Int.{ℤ}
use cluster_chat_server_soft.Prelude.Text.{Str}
use cluster_chat_server_soft.External.Json.{JsonLib}
use cluster_chat_server_soft.Client.Commands.{ClientState, send_text}
use cluster_chat_server_soft.Client.Start.{ask_login, ask_register, login_js, reg_js}
use cluster_chat_server_soft.Client.Process.{
  main_menu, Process, Move, logs_in, registers, quits, mistypes, wakes_from_login,
  wakes_from_register, types, Run, launched, moves, hears, breaks, loses_server,
}
use cluster_chat_server_soft.Client.Heard.{
  launch-up, grants, receive-Keeps, wait-same, end_login-same,
}

-- Was one of the texts a response that grants a login?
abbrev pub any_grants : ⦃json : JsonLib⦄ → List Str → Bool
any_grants [] = false
any_grants (text ∷ heard) = grants text || any_grants heard

module _ ⦃json : JsonLib⦄ (atoi : Str → ℤ) (now : Str) (takes : Str → Bool) where
  -- A request of the start menu.
  abbrev pub IsEntry : Str → Type 0
  IsEntry text =
      ((id : ℤ) × (pwd : Str) × (text ≡ json.dump (login_js atoi now takes id pwd)))
      ⊎ ((name : Str) × (pwd : Str) × (text ≡ json.dump (reg_js atoi now takes name pwd) ++ 0 ∷ []))

  -- A client that was not let in.
  record IsOutside (c : Process) : Type 0 where
    pub entries : All IsEntry c.state.sent
    pub refused : c.state.is_login_success ≡ false
    pub not_in_menu : c.place ≢ main_menu

  All-append : (xs : List Str) (x : Str) → All IsEntry xs → IsEntry x → All IsEntry (xs ++ x ∷ [])
  All-append [] x h hx = (hx, tt)
  All-append (y ∷ xs) x h hx = (h.0, All-append xs x h.1 hx)

  send_text-entries :
      (text : Str) (s : ClientState)
      → All IsEntry s.sent
      → IsEntry text
      → All IsEntry (send_text atoi now takes text s).sent
  send_text-entries text s h e = elim (Bool-cases (takes text)) [
    | inl took ↦ rw took (All-append s.sent text h e)
    | inr failed ↦ rw failed h
  ]

  Move-IsOutside : (c c' : Process) → Move atoi now takes c c' → IsOutside c → IsOutside c'
  unfolding ask_login ask_register
  Move-IsOutside _ _ (logs_in id pwd s) h = record {
    entries =
        send_text-entries _ (record s { is_login_success = false }) h.entries (inl (id, pwd, refl));
    refused = ground arith;
    not_in_menu = λ q. cc;
  }
  Move-IsOutside _ _ (registers name pwd s) h = record {
    entries = send_text-entries _ s h.entries (inr (name, pwd, refl));
    refused = ground (arith, h.refused);
    not_in_menu = λ q. cc;
  }
  Move-IsOutside _ _ (quits s) h = record {
    entries = h.entries;
    refused = h.refused;
    not_in_menu = λ q. cc;
  }
  Move-IsOutside _ _ (mistypes s) h = h
  Move-IsOutside _ _ (wakes_from_login s s' e) h =
      let (sent, success, running) = end_login-same s s' e in
      record {
        entries = rw sent h.entries;
        refused = success ∙ h.refused;
        not_in_menu = λ q. ground (arith, success, h.refused);
      }
  Move-IsOutside _ _ (wakes_from_register s s' e) h =
      let (sent, success, running) = wait-same s s' e in
      record { entries = rw sent h.entries; refused = success ∙ h.refused; not_in_menu = λ q. cc }
  Move-IsOutside _ _ (types t line s) h = absurd (h.not_in_menu refl)

  Run-IsOutside :
      (heard : List Str) (c : Process)
      → Run atoi now takes heard c
      → any_grants heard ≡ false
      → IsOutside c
  Run-IsOutside _ _ (launched argc has_socket connects c e) q =
      let same = launch-up argc has_socket connects c e in
      rw same (record { entries = tt; refused = refl; not_in_menu = λ e. cc })
  Run-IsOutside _ _ (moves heard c c' run move) q =
      Move-IsOutside c c' move (Run-IsOutside heard c run q)
  Run-IsOutside _ _ (hears heard text c s' run runs e) q =
      let h = Run-IsOutside heard c run (ground arith) in
      let keeps = receive-Keeps text c.state s' e in
      record {
        entries = rw keeps.sent h.entries;
        refused = ground (arith, h.refused, keeps.success);
        not_in_menu = h.not_in_menu;
      }
  Run-IsOutside _ _ (breaks heard text c run runs e) q =
      let h = Run-IsOutside heard c run (ground arith) in
      record { entries = h.entries; refused = h.refused; not_in_menu = λ e. cc }
  Run-IsOutside _ _ (loses_server heard c run runs) q =
      let h = Run-IsOutside heard c run q in
      record { entries = h.entries; refused = h.refused; not_in_menu = λ e. cc }

  -- A client that has heard no response to a login without an error, whatever the user chose and typed
  -- and whatever else it heard, has sent only the requests of the start menu: each text is that of a
  -- `login` or of a `register`.
  pub Run-entries :
      (heard : List Str) (c : Process)
      → Run atoi now takes heard c
      → any_grants heard ≡ false
      → All IsEntry c.state.sent
  Run-entries heard c run q = (Run-IsOutside heard c run q).entries

  -- A client that stands in its main menu has heard a response to a login without an error.
  pub Run-main_menu :
      (heard : List Str) (c : Process)
      → Run atoi now takes heard c
      → c.place ≡ main_menu
      → any_grants heard ≡ true
  Run-main_menu heard c run q = elim (Bool-cases (any_grants heard)) [
    | inl granted ↦ granted
    | inr never ↦ absurd ((Run-IsOutside heard c run never).not_in_menu q)
  ]
