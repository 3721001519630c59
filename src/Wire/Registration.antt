-- ===== src/Wire/Registration.antt =====
-- A registration from the client over the server to the client.
use cluster_chat_server_soft.Prelude.{◌+◌, true, false, List, [], ◌∷◌, ◌++◌, if◌then◌else◌, Bool}
use cluster_chat_server_soft.Prelude.Int.{ℤ, negsuc}
use cluster_chat_server_soft.Prelude.Text.{Str, codes}
use cluster_chat_server_soft.External.Sql.{SqlServer}
use cluster_chat_server_soft.External.Redis.{RedisServer}
use cluster_chat_server_soft.External.Json.{JsonLib, JsonLaws}
use cluster_chat_server_soft.Model.UserModel
use cluster_chat_server_soft.ChatService.State.{State}
use cluster_chat_server_soft.ChatService.Protocol.{MsgId, msg_id, response}
use cluster_chat_server_soft.Client.Commands.{ClientState}

module _ ⦃sql : SqlServer⦄ ⦃redis : RedisServer⦄ ⦃json : JsonLib⦄ (laws : JsonLaws json) where
  abbrev pub answer : Bool → json.Json
  answer inserted =
      if inserted
      then json.assign (codes "id") (json.int (negsuc 0)) (response MsgId.reg_msg_ack 0)
      else response MsgId.reg_msg_ack 1

  -- The client after the answer.
  abbrev pub answered : Bool → ClientState → ClientState
  answered true c = record c {
    shown =
        c.shown
        ++ (codes "name register success, userid is "
            ++ json.dump (json.int (negsuc 0))
            ++ codes ", do not forget it")
          ∷ [];
    rw_sem = c.rw_sem + 1;
  }
  answered false c = record c { rw_sem = c.rw_sem + 1 }

  module _ (atoi : Str → ℤ) (now : Str) (takes : Str → Bool) where
    abbrev reg_fields : Str → Str → List (Str × json.Json)
    reg_fields name pwd =
        (codes "password", json.string pwd)
        ∷ (codes "name", json.string name)
        ∷ (codes "msgid", json.int (msg_id MsgId.reg_msg))
        ∷ []
