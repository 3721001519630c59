-- ===== src/Client/Lines.antt =====
-- What a line of the main menu sends.
use cluster_chat_server_soft.Prelude.{
  ℕ, ◌≡◌, refl, ap, Bool, true, false, some, [], ◌∷◌, ◌++◌, ◌==◌, arith, if◌then◌else◌,
}
use cluster_chat_server_soft.Prelude.Int.{ℤ}
use cluster_chat_server_soft.Prelude.Text.{Str, codes, str_eq}
use cluster_chat_server_soft.External.Json.{JsonLib}
use cluster_chat_server_soft.Client.Commands.{
  ClientState, cut, command_of, run_command, run_line, chat_cut, group_chat_cut, chat_text,
  group_chat_text, send_text,
}

abbrev pub has_colon : Str → Bool
has_colon [] = false
has_colon (c ∷ s) = if c == b':' then true else has_colon s

pub cut-append : (a b : Str) → has_colon a ≡ false → cut (a ++ b':' ∷ b) ≡ some (a, b)
unfolding cut
cut-append [] b h = refl
cut-append (c ∷ a) b h = ground (arith, cut-append a b)

module _ ⦃json : JsonLib⦄ (atoi : Str → ℤ) (now : Str) (takes : Str → Bool) where
  -- A line `chat:<id>:<text>` or `groupChat:<id>:<text>` with no colon in the id and a text that is not
  -- empty sends one message, with the number of the id and the whole text, colons included, if the
  -- socket takes it; with an empty text nothing is sent.
  pub run_line-chats :
      (id : Str) (first : ℕ) (others : Str) (s : ClientState)
      → has_colon id ≡ false
      → (run_line atoi now takes (codes "chat:" ++ id ++ b':' ∷ first ∷ others) s
          ≡ send_text atoi now takes (chat_text atoi now takes s (atoi id) (first ∷ others)) s)
        × (run_line atoi now takes (codes "groupChat:" ++ id ++ b':' ∷ first ∷ others) s
            ≡ send_text atoi now takes
                (group_chat_text atoi now takes s (atoi id) (first ∷ others))
                s)
        × (run_line atoi now takes (codes "chat:" ++ id ++ b':' ∷ []) s ≡ s)
        × (run_line atoi now takes (codes "groupChat:" ++ id ++ b':' ∷ []) s ≡ s)
  unfolding run_line cut command_of str_eq run_command chat_cut group_chat_cut
  run_line-chats id first others s h =
      let full = cut-append id (first ∷ others) h in
      let blank = cut-append id [] h in
      (
        ap (λ o. chat_cut atoi now takes o s) full,
        ap (λ o. group_chat_cut atoi now takes o s) full,
        ap (λ o. chat_cut atoi now takes o s) blank,
        ap (λ o. group_chat_cut atoi now takes o s) blank,
      )
