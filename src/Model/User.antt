-- ===== src/Model/User.antt =====
-- include/server/model/user.hpp, groupuser.hpp and group.hpp with src/server/model/user.cpp. A setter
-- is an update of the field.
use cluster_chat_server_soft.Prelude.{List, []}
use cluster_chat_server_soft.Prelude.Int.{ℤ, negsuc}
use cluster_chat_server_soft.Prelude.Text.{Str, codes}

pub record User : Type 0 where
  pub id : ℤ
  pub name : Str
  pub password : Str
  pub state : Str

-- `User()`, by the default arguments of the constructor.
abbrev pub default_user : User
default_user = record { id = negsuc 0; name = []; password = []; state = codes "offline" }

pub record GroupUser : Type 0 where
  pub id : ℤ
  pub name : Str
  pub password : Str
  pub state : Str
  pub role : Str

abbrev pub default_group_user : GroupUser
default_group_user = record {
  id = negsuc 0;
  name = [];
  password = [];
  state = codes "offline";
  role = [];
}

pub record Group : Type 0 where
  pub id : ℤ
  pub name : Str
  pub desc : Str
  pub users : List GroupUser

-- `Group(id, name, desc)`.
abbrev pub new_group : ℤ → Str → Str → Group
new_group id name desc = record { id = id; name = name; desc = desc; users = [] }

-- `Group()`.
abbrev pub default_group : Group
default_group = new_group (negsuc 0) [] []
