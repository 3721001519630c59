-- ===== src/ChatService/Protocol.antt =====
-- The message ids of include/public.hpp, and how a handler reads and writes JSON.
use cluster_chat_server_soft.Prelude.{ℕ, Bool, true, false, [], ◌∷◌, if◌then◌else◌}
use cluster_chat_server_soft.Prelude.Int.{ℤ, pos}
use cluster_chat_server_soft.Prelude.Text.{Str, codes}
use cluster_chat_server_soft.External.Sql.{SqlServer}
use cluster_chat_server_soft.External.Redis.{RedisServer}
use cluster_chat_server_soft.External.Json.{JsonLib}
use cluster_chat_server_soft.ChatService.State.{M, ◌>>=◌, pure, or_raise}

pub data MsgId : Type 0 where
  login_msg login_msg_ack login_out_msg reg_msg reg_msg_ack one_chat_msg add_friend_msg : MsgId
  create_group_msg join_group_msg group_chat_msg one_chat_msg_ack : MsgId

-- The values of the enumeration, from 1 on.
unfoldable pub msg_id : MsgId → ℤ
msg_id login_msg = pos 1
msg_id login_msg_ack = pos 2
msg_id login_out_msg = pos 3
msg_id reg_msg = pos 4
msg_id reg_msg_ack = pos 5
msg_id one_chat_msg = pos 6
msg_id add_friend_msg = pos 7
msg_id create_group_msg = pos 8
msg_id join_group_msg = pos 9
msg_id group_chat_msg = pos 10
msg_id one_chat_msg_ack = pos 11

module _ ⦃json : JsonLib⦄ where
  -- `response["msgid"] = …; response["errno"] = …;`
  abbrev pub response : MsgId → ℕ → json.Json
  response id errno =
      json.assign (codes "errno") (json.int (pos errno))
        (json.assign (codes "msgid") (json.int (msg_id id)) json.empty)

  abbrev pub with_text : Str → Str → json.Json → json.Json
  with_text key text j = json.assign key (json.string text) j

module _ ⦃sql : SqlServer⦄ ⦃redis : RedisServer⦄ ⦃json : JsonLib⦄ where
  -- `js[key]`. The null that it adds under a missing key is seen by no later statement: the handler
  -- returns or throws on it.
  abbrev pub subscript : json.Json → Str → M json.Json
  subscript js key = or_raise (json.subscript js key)

  -- `int x = js[key];`
  abbrev pub int_field : json.Json → Str → M ℤ
  int_field js key = do v ← subscript js key; or_raise (json.get_int v)

  -- `string x = js[key];`
  abbrev pub string_field : json.Json → Str → M Str
  string_field js key = do v ← subscript js key; or_raise (json.get_string v)

  abbrev is_empty_text : Str → Bool
  is_empty_text [] = true
  is_empty_text (c ∷ s) = false

  -- `js["msg"].is_null() || js["msg"].get<string>().empty()`
  abbrev pub is_blank : json.Json → M Bool
  is_blank js = do
    msg ← subscript js (codes "msg")
    if json.is_null msg
        then pure true
        else (do text ← or_raise (json.get_string msg); pure (is_empty_text text))
