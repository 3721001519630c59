-- ===== src/Tests/Requests.antt =====
-- Requests as JSON values, and the servers that the service's tests run on.
use cluster_chat_server_soft.Prelude.{refl, false}
use cluster_chat_server_soft.Prelude.Int.{ℤ}
use cluster_chat_server_soft.Prelude.Text.{Str, codes, str_eq}
use cluster_chat_server_soft.External.Sql.{SqlServer}
use cluster_chat_server_soft.External.Redis.{RedisServer}
use cluster_chat_server_soft.External.Json.{JsonLib}
use cluster_chat_server_soft.ChatService.Delivery.{ChatRequest}
use cluster_chat_server_soft.ChatService.Entry.{LoginRequest}
use cluster_chat_server_soft.ChatService.Registration.{RegRequest}
use cluster_chat_server_soft.ChatService.Silence.{GroupMessage}
use cluster_chat_server_soft.ChatService.Membership.{JoinRequest}
use cluster_chat_server_soft.Tests.Servers.{tables}
use cluster_chat_server_soft.Tests.Cache.{cache}
use cluster_chat_server_soft.Tests.Values.{Value, empty, number, text, entry, values}

instance abbrev pub mysql_server : SqlServer
mysql_server = tables false

instance abbrev pub redis_server : RedisServer
redis_server = cache

instance abbrev pub json_lib : JsonLib
json_lib = values

abbrev pub chat_js : ℤ → ℤ → Value
chat_js id to =
    entry (codes "msg") (text (codes "hi"))
      (entry (codes "id") (number id) (entry (codes "to") (number to) empty))

pub chat_js-ChatRequest : (id to : ℤ) → ChatRequest (chat_js id to) id to
unfolding str_eq
chat_js-ChatRequest id to = record {
  msg = text (codes "hi");
  first = b'h';
  others = codes "i";
  has_msg = refl;
  not_null = refl;
  is_text = refl;
  has_id = refl;
  has_to = refl;
  id_value = number id;
  to_value = number to;
  reads_id = refl;
  reads_to = refl;
  id_is = refl;
  to_is = refl;
}

abbrev pub login_js : ℤ → Str → Value
login_js id password =
    entry (codes "id") (number id) (entry (codes "password") (text password) empty)

pub login_js-LoginRequest :
    (id : ℤ) (password : Str) → LoginRequest (login_js id password) id password
unfolding str_eq
login_js-LoginRequest id password = record {
  id_value = number id;
  password_value = text password;
  reads_id = refl;
  reads_password = refl;
  id_is = refl;
  password_is = refl;
}

abbrev pub reg_js : Str → Str → Value
reg_js name password =
    entry (codes "name") (text name) (entry (codes "password") (text password) empty)

pub reg_js-RegRequest : (name password : Str) → RegRequest (reg_js name password) name password
unfolding str_eq
reg_js-RegRequest name password = record {
  name_value = text name;
  password_value = text password;
  reads_name = refl;
  reads_password = refl;
  name_is = refl;
  password_is = refl;
}

abbrev pub group_js : ℤ → ℤ → Value
group_js id groupid =
    entry (codes "id") (number id) (entry (codes "groupid") (number groupid) empty)

pub group_js-GroupMessage : (id groupid : ℤ) → GroupMessage (group_js id groupid) groupid
unfolding str_eq
group_js-GroupMessage id groupid = record {
  no_to = refl;
  has_groupid = refl;
  value = number groupid;
  reads = refl;
  is_int = refl;
}

pub group_js-JoinRequest : (id groupid : ℤ) → JoinRequest (group_js id groupid) id groupid
unfolding str_eq
group_js-JoinRequest id groupid = record {
  id_value = number id;
  groupid_value = number groupid;
  reads_id = refl;
  reads_groupid = refl;
  id_is = refl;
  groupid_is = refl;
}
