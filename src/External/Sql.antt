-- ===== src/External/Sql.antt =====
-- The statements that src/server/model sends, each with the arguments that the code binds or prints
-- into its text, and the MySQL server that runs them. The tables are those of sql/init_chat.sql.
use cluster_chat_server_soft.Prelude.{ℕ, List}
use cluster_chat_server_soft.Prelude.Int.{ℤ}
use cluster_chat_server_soft.Prelude.Text.{Str}
use cluster_chat_server_soft.External.{Outcome}

-- What goes to `executeUpdate`.
pub data Update : Type 0 where
  -- insert into User(name, password, state) values(?, ?, ?)
  insert_user : Str → Str → Str → Update
  -- UPDATE User set state=? where id=?
  set_state : Str → ℤ → Update
  -- UPDATE User set state='offline' where state='online'
  reset_states : Update
  -- insert into Friend(userid, friendid) values(?, ?)
  insert_friend : ℤ → ℤ → Update
  -- insert into AllGroup(groupname, groupdesc) values(?, ?)
  insert_group : Str → Str → Update
  -- insert into GroupUser(groupid, userid, grouprole) values(?, ?, ?)
  insert_member : ℤ → ℤ → Str → Update
  -- INSERT INTO OfflineMessage (userid, message) VALUES (?, ?)
  insert_message : ℤ → Str → Update
  -- DELETE FROM OfflineMessage where userid=?
  delete_messages : ℤ → Update

-- The rows of the queries, by the columns that the code reads.
pub record UserRow : Type 0 where
  pub id : ℤ
  pub name : Str
  pub password : Str
  pub state : Str

pub record FriendRow : Type 0 where
  pub id : ℤ
  pub name : Str
  pub state : Str

pub record GroupRow : Type 0 where
  pub id : ℤ
  pub groupname : Str
  pub groupdesc : Str

pub record MemberRow : Type 0 where
  pub id : ℤ
  pub name : Str
  pub state : Str
  pub role : Str

-- Every statement names the connection that it runs on.
pub record SqlServer : Type 1 where
  pub Db : Type 0
  pub execute_update : ℕ → Update → Db → Outcome Db (Unit {0})
  -- select * from User where id=…
  pub select_user : ℕ → ℤ → Db → Outcome Db (List UserRow)
  -- SELECT a.id, a.name, a.state FROM User as a JOIN Friend as b ON a.id = b.friendid where b.userid=…
  pub select_friends : ℕ → ℤ → Db → Outcome Db (List FriendRow)
  -- SELECT LAST_INSERT_ID() AS last_id
  pub select_last_id : ℕ → Db → Outcome Db (List ℤ)
  -- select a.id, a.groupname, a.groupdesc from AllGroup as a join GroupUser as b on a.id=b.groupid
  -- where b.userid=…
  pub select_groups : ℕ → ℤ → Db → Outcome Db (List GroupRow)
  -- select a.id, a.name, a.state, b.grouprole from User as a join GroupUser as b on a.id=b.userid
  -- where b.groupid=…
  pub select_members : ℕ → ℤ → Db → Outcome Db (List MemberRow)
  -- select userid from GroupUser where groupid=… and userid<>…
  pub select_other_members : ℕ → ℤ → ℤ → Db → Outcome Db (List ℤ)
  -- select userid, message from OfflineMessage where userid=…
  pub select_messages : ℕ → ℤ → Db → Outcome Db (List Str)
