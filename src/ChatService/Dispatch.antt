-- ===== src/ChatService/Dispatch.antt =====
-- Messages that no handler takes: `ChatServer::onMessage` and `ChatService::getHandler`.
use cluster_chat_server_soft.Prelude.{ℕ, ◌≡◌, refl, ◌≢◌, none, some, List, [], ◌∷◌, arith, All}
use cluster_chat_server_soft.Prelude.Int.{ℤ, eq_ℤ_ne}
use cluster_chat_server_soft.Prelude.Text.{Str, codes}
use cluster_chat_server_soft.External.Sql.{SqlServer}
use cluster_chat_server_soft.External.Redis.{RedisServer}
use cluster_chat_server_soft.External.Json.{JsonLib}
use cluster_chat_server_soft.ChatService.State.{TcpConnection, State}
use cluster_chat_server_soft.ChatService.Protocol.{MsgId, msg_id}
use cluster_chat_server_soft.ChatService.Inbox.{mapped, find_handler, handle, dispatch, on_message}

-- The id of no handler in the list.
abbrev pub IsUnmapped : ℤ → List MsgId → Type 0
IsUnmapped n = All (λ h. msg_id h ≢ n)

pub find_handler-IsUnmapped : (n : ℤ) (hs : List MsgId) → IsUnmapped n hs → find_handler hs n ≡ none
unfolding find_handler
find_handler-IsUnmapped n [] u = refl
find_handler-IsUnmapped n (h ∷ hs) (ne, u) =
    ground (arith, eq_ℤ_ne (msg_id h) n ne, find_handler-IsUnmapped n hs u)

-- A text that the server cannot route: no JSON, no number under "msgid", or a number of no handler.
pub data Unroutable ⦃json : JsonLib⦄ (buf : Str) : Type 0 where
  broken : json.parse buf ≡ none → Unroutable buf
  no_field :
      (js : json.Json)
      → json.parse buf ≡ some js
      → json.subscript js (codes "msgid") ≡ none
      → Unroutable buf
  no_number :
      (js v : json.Json)
      → json.parse buf ≡ some js
      → json.subscript js (codes "msgid") ≡ some v
      → json.get_int v ≡ none
      → Unroutable buf
  unmapped :
      (js v : json.Json) (n : ℤ)
      → json.parse buf ≡ some js
      → json.subscript js (codes "msgid") ≡ some v
      → json.get_int v ≡ some n
      → IsUnmapped n mapped
      → Unroutable buf

module _ ⦃sql : SqlServer⦄ ⦃redis : RedisServer⦄ ⦃json : JsonLib⦄ where
  -- A text that cannot be routed (no JSON, no number under "msgid", or a number without a handler, the
  -- acknowledgements included) is dropped: `onMessage` returns, and the state is as before.
  pub on_message-Unroutable :
      (fuel : ℕ) (conn : TcpConnection) (buf : Str) (s : State)
      → Unroutable buf
      → on_message fuel conn buf s ≡ some s
  unfolding on_message dispatch handle
  on_message-Unroutable fuel conn buf s (broken e) = ground arith
  on_message-Unroutable fuel conn buf s (no_field js e e1) = ground arith
  on_message-Unroutable fuel conn buf s (no_number js v e e1 e2) = ground arith
  on_message-Unroutable fuel conn buf s (unmapped js v n e e1 e2 u) =
      ground (arith, find_handler-IsUnmapped n mapped u)
